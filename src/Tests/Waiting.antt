-- ===== src/Tests/Waiting.antt =====
-- The theorems on wait_for_connection and on the calls of the client library.
use ros_driver_modem.Prelude.{
  ◌≡◌, refl, Bool, true, false, some, List, [], ◌∷◌, arith, ◌==◌, if◌then◌else◌,
}
use ros_driver_modem.StdMap.Laws.{lookup-contains}
use ros_driver_modem.Types.{Protocol, Result, ok}
use ros_driver_modem.RosNode.{ActiveConnections, active_connections}
use ros_driver_modem.ModemInterface.{ModemInterface, has_port}
use ros_driver_modem.Topics.{Text}
use ros_driver_modem.ModemInterface.Lifetime.{construct, destroy, handle_all}
use ros_driver_modem.ModemInterface.Release.{opened_by, shut_by, every_handle_is_shut}
use ros_driver_modem.ModemInterface.Waiting.{
  Incoming, connections_message, Environment, wait_for_connection, IsJustified,
}
use ros_driver_modem.ModemInterface.Patience.{wait_terminates}
use ros_driver_modem.ModemInterface.Meeting.{wait_for_node}
use ros_driver_modem.Tests.Serving.{started, started-IsConsistent, udp_entry}
use ros_driver_modem.Tests.Following.{stale, stale-IsFollowing}

-- A clock that ticks once in a round; the message, if any, arrives in the first.
abbrev arriving : List Incoming → Environment
arriving messages = record {
  is_ok = λ n. true;
  now = λ n. n;
  inbox = λ n. if n == 0 then messages else [];
}

wait_terminates_example :
    (x : Result Bool × ModemInterface) × (wait_for_connection
        (arriving [])
        4
        Protocol.tcp
        5000
        3
        0
        stale
      ≡ some x)
    × IsJustified (arriving []) 3 Protocol.tcp 5000 0 stale x
wait_terminates_example =
    wait_terminates (arriving []) Protocol.tcp 5000 3 0 stale 3 4 (omega arith) (omega arith)

abbrev news : ActiveConnections
news = record { tcp_pending = []; tcp_active = 5000 ∷ []; udp_active = 7000 ∷ [] }

wait_for_node_example :
    (m : ModemInterface) × (wait_for_connection
        (arriving (connections_message (active_connections started.modem) ∷ []))
        2
        Protocol.udp
        6000
        3
        0
        stale
      ≡ some (ok true, m))
wait_for_node_example =
    wait_for_node started started-IsConsistent stale stale-IsFollowing
      (active_connections started.modem) started-IsConsistent.current
      (arriving (connections_message (active_connections started.modem) ∷ [])) Protocol.udp 6000 3 0
      2 refl (λ i h. refl) (omega arith) (omega arith)
      (lookup-contains 6000 0 started.modem.udp_active udp_entry)

-- The connections change, and the interface is destroyed: what of the names that begin with a t?
abbrev later : ActiveConnections
later = record { tcp_pending = 5000 ∷ []; tcp_active = []; udp_active = 6000 ∷ 7000 ∷ [] }

abbrev begins_with_t : Text → Bool
begins_with_t [] = false
begins_with_t (c ∷ cs) = c == 116

every_handle_is_shut_example :
    (let x = handle_all (news ∷ later ∷ []) construct.interface in
      let s = destroy (record construct { interface = x.1 }) in
      (x.0 ≡ ok tt) × (opened_by begins_with_t s ≡ shut_by begins_with_t s))
unfolding has_port
every_handle_is_shut_example =
    every_handle_is_shut begins_with_t (news ∷ later ∷ [])
      ((refl, tt), (refl, tt), ((tt, (refl, (refl, tt)), tt)))
