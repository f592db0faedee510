-- ===== src/Tests/Running.antt =====
-- The theorems on reached states and on the whole program, on the node that is set up.
use ros_driver_modem.Prelude.{List, ℕ, ◌≡◌, refl, some, [], ◌∷◌, ◌++◌, true, length}
use ros_driver_modem.StdMap.Laws.{lookup-contains}
use ros_driver_modem.Types.{protocol_of_byte, Protocol, operation_aborted, ok}
use ros_driver_modem.Modem.{Handler, accept, connect, receive, receive_from, System}
use ros_driver_modem.Topics.{decimal}
use ros_driver_modem.Driver.{start}
use ros_driver_modem.Driver.Lifecycle.{phase}
use ros_driver_modem.Driver
use ros_driver_modem.EventLoop.{pick, run_one, run_handler}
use ros_driver_modem.Driver.Attended.{AttendedBy}
use ros_driver_modem.EventLoop.Failures.{closes}
use ros_driver_modem.EventLoop.Sound.{Timely}
use ros_driver_modem.EventLoop.Turns.{noted_in}
use ros_driver_modem.RosNode.Listening.{noted_by, missing, no_connection_goes_deaf}
use ros_driver_modem.RosNode.{Node}
use ros_driver_modem.RosNode.Requests.{after_remove, remove_connection, service_remove_connection}
use ros_driver_modem.RosNode.Reachable.{Request, turn, remove, serve, Reach, here, next}
use ros_driver_modem.RosNode.Lifecycle.{may, serve-lifecycle}
use ros_driver_modem.RosNode.Arrays.{keeper, nothing_given, Within}
use ros_driver_modem.RosNode.Bounds.{connected_at, receives_in_bounds, rx_topics_differ}
use ros_driver_modem.Program.{caught, main, outcome, serve_all}
use ros_driver_modem.Program.Ending.{IsOver, main_ends}
use ros_driver_modem.Tests.{arrival, ended}
use ros_driver_modem.Tests.Serving.{
  servers, udps, started, started-construct, started-IsConsistent, accept_in_time, connected_once,
  accept_pick, udp_entry, tcp_pick, three,
}

serve-lifecycle_example :
    may
      (turn 0 (arrival []))
      5000
      (phase started.modem 5000)
      (phase (serve decimal (turn 0 (arrival [])) started).modem 5000)
    ≡ true
serve-lifecycle_example =
    serve-lifecycle decimal (turn 0 (arrival [])) started 5000 accept_in_time
      started-IsConsistent.sound

receives_in_bounds_example :
    (let given = λ (h : Handler).
        (run_handler keeper h (arrival three) (nothing_given connected_once.modem)).1.app in
      Within (length (connected_once.modem.tcp_heap 0).buffer) (given (receive 0))
      × Within (length (connected_once.modem.udp_heap 0).buffer) (given (receive_from 0)))
receives_in_bounds_example =
    receives_in_bounds decimal servers [] udps ((refl, tt), tt, (refl, tt)) (some 1) (some 2)
      started connected_once started-construct (next here (turn 0 (arrival [])) accept_in_time)
      (arrival three) 0 refl

udp_connected : connected_at Protocol.udp 6000 started.modem ≡ true
udp_connected = lookup-contains 6000 0 started.modem.udp_active udp_entry

abbrev port : ℕ
port = 6000

rx_topics_differ_example : (Protocol.udp ≡ Protocol.udp) × (port ≡ port)
rx_topics_differ_example =
    rx_topics_differ decimal servers [] udps ((refl, tt), tt, (refl, tt)) (some 1) (some 2) started
      started started-construct here tt Protocol.udp Protocol.udp port port udp_connected
      udp_connected refl

end_in_time : Timely 1 (ended operation_aborted) connected_once
end_in_time (accept i) rest e = λ f. cc
end_in_time (connect i) rest e = tt
end_in_time (receive i) rest e = tt
end_in_time (receive_from i) rest e = tt

-- The peer connects, and then the receive is cancelled: that handler alone is missing.
abbrev cancelled :
    Reach decimal started (serve decimal (turn 1 (ended operation_aborted)) connected_once)
cancelled =
    next (next here (turn 0 (arrival [])) accept_in_time) (turn 1 (ended operation_aborted))
      end_in_time

cancelled-missing : noted_by (turn 1 (ended operation_aborted)) connected_once [] ≡ receive 0 ∷ []
unfolding noted_by noted_in closes
cancelled-missing = rw (tcp_pick, noted_in) refl

no_connection_goes_deaf_example :
    (let d = (serve decimal (turn 1 (ended operation_aborted)) connected_once).modem in
      AttendedBy (missing cancelled ++ d.handlers) d)
no_connection_goes_deaf_example =
    no_connection_goes_deaf decimal servers [] udps ((refl, tt), tt, (refl, tt)) (some 1) (some 2)
      started (serve decimal (turn 1 (ended operation_aborted)) connected_once) started-construct
      cancelled

-- A run in which the peer connects, and the UDP port is removed.
abbrev run : List Request
run = turn 0 (arrival []) ∷ remove 1 6000 ∷ []

both_succeed :
    (r1 r2 : Request) (s : System Node)
    → outcome decimal r1 s ≡ ok tt
    → outcome decimal r2 (serve decimal r1 s) ≡ ok tt
    → (serve_all decimal (r1 ∷ r2 ∷ []) s).0 ≡ ok tt
unfolding serve_all
both_succeed r1 r2 s e f = rw (e, f) refl

accepting_succeeds :
    (s : System Node) (hs : List Handler)
    → pick 0 s.modem.handlers ≡ some (accept 0, hs)
    → outcome decimal (turn 0 (arrival [])) s ≡ ok tt
unfolding outcome run_one run_handler
accepting_succeeds s hs e = rw (e, outcome, run_one) refl

removing_succeeds : (s : System Node) → outcome decimal (remove 1 6000) s ≡ ok tt
unfolding outcome caught service_remove_connection remove_connection after_remove
    Driver.remove_connection Driver.protocol_string protocol_of_byte
removing_succeeds s = refl

run_succeeds : (serve_all decimal run (start started)).0 ≡ ok tt
unfolding start
run_succeeds =
    both_succeed (turn 0 (arrival [])) (remove 1 6000) (start started)
      (accepting_succeeds (start started) (receive_from 0 ∷ []) accept_pick) (removing_succeeds _)

main_ends_example :
    (t : System Node) × (main decimal (some 1) (some 2) servers [] udps run ≡ some (ok tt, t))
    × IsOver (serve_all decimal run (start started)).1 t
unfolding start
main_ends_example =
    main_ends decimal (some 1) (some 2) servers [] udps ((refl, tt), tt, (refl, tt)) run started
      started-construct (accept_in_time, (tt, tt)) run_succeeds
