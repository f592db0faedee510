-- ===== src/Tests/Failing.antt =====
-- The theorems on operations that end with an error.
use ros_driver_modem.Prelude.{◌≡◌, refl, [], ◌∷◌, if◌then◌else◌}
use ros_driver_modem.Types.{eof, ok}
use ros_driver_modem.Modem.{receive_from}
use ros_driver_modem.Topics.{decimal}
use ros_driver_modem.Driver.Losing.{without_active, reported}
use ros_driver_modem.EventLoop.{run_one}
use ros_driver_modem.EventLoop.Failures.{closes, failure, dequeued, receive_fails}
use ros_driver_modem.RosNode.{callbacks}
use ros_driver_modem.Tests.{ended}
use ros_driver_modem.Tests.Serving.{
  connected_once, connected_once-IsConsistent, tcp_pick, tcp_entry,
}

receive_fails_example :
    (let d = dequeued (callbacks decimal) (ended eof) 1 0 connected_once (receive_from 0 ∷ []) in
      run_one (callbacks decimal) 1 (ended eof) connected_once ≡ (
        if closes eof
        then (ok tt, reported (callbacks decimal) 0 5000 d (without_active 5000 0 d.modem))
        else (failure eof, d)))
receive_fails_example =
    receive_fails (callbacks decimal) (ended eof) 1 0 connected_once (receive_from 0 ∷ []) 5000
      connected_once-IsConsistent.sound refl tcp_pick tcp_entry
