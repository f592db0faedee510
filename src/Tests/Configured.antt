-- ===== src/Tests/Configured.antt =====
-- The theorems on the ports that a node opens and on the requests that change them.
use ros_driver_modem.Prelude.{
  arith, pos, ℕ, ◌≡◌, refl, true, Option, none, some, [], ◌∷◌, ◌||◌, inl,
}
use ros_driver_modem.StdMap.{lookup, insert, contains}
use ros_driver_modem.Types.{Address, client, same_role, ok, undefined, Setup, binds, fails_to_open}
use ros_driver_modem.Modem.{System}
use ros_driver_modem.Topics.{Text, codes, decimal}
use ros_driver_modem.Driver.Adding.{add_tcp_connection}
use ros_driver_modem.Driver.Repeating.{add_again}
use ros_driver_modem.RosNode.{Node}
use ros_driver_modem.RosNode.Requests.{
  service_add_tcp_connection, service_remove_connection, service_set_remote_host,
  service_get_remote_host,
}
use ros_driver_modem.RosNode.Logging.{unknown_bytes_are_undefined}
use ros_driver_modem.RosNode.RemoteHost.{IsBare, remote_host-roundtrip}
use ros_driver_modem.RosNode.Configured.{opens}
use ros_driver_modem.RosNode.Parameters.{Parameters, param, answered_by, ros_node}
use ros_driver_modem.RosNode.ComingUp.{is_listed, comes_up}
use ros_driver_modem.Tests.{watcher}
use ros_driver_modem.Tests.Driving.{listening_one, listening_one-IsSound}
use ros_driver_modem.Tests.Serving.{started, connected_once, connected_once-IsConsistent}

-- A server is there already, when a client is added at its port.
add_again_example :
    add_tcp_connection watcher client 5000 (binds 5000) listening_one
    ≡ (ok (same_role (listening_one.modem.tcp_heap 0).role client), listening_one)
unfolding lookup insert
add_again_example =
    add_again watcher client 5000 0 (binds 5000) listening_one listening_one-IsSound refl (inl refl)

-- A request with a role and a protocol that are not among the enumerators.
unknown_bytes_are_undefined_example :
    ((service_add_tcp_connection decimal 7 5001 (binds 5001) started).0 ≡ undefined)
    × ((service_remove_connection 7 5001 started).0 ≡ undefined)
unknown_bytes_are_undefined_example =
    unknown_bytes_are_undefined decimal 5001 (binds 5001) started 7 (omega arith)

remote_host-roundtrip_example :
    (let x = service_set_remote_host (some 9) connected_once in
      (x.0 ≡ true) × (service_get_remote_host decimal x.1 ≡ decimal 9) × IsBare x.1)
remote_host-roundtrip_example =
    remote_host-roundtrip decimal 9 connected_once connected_once-IsConsistent.sound

-- Ports of three kinds, of which the client's is in use elsewhere.
abbrev parameters : Parameters
parameters = record {
  local_ip = none;
  remote_host = some (codes "modem");
  tcp_server_ports = some (pos 5000 ∷ pos 5001 ∷ []);
  tcp_client_ports = some (pos 5002 ∷ []);
  udp_ports = some (pos 70000 ∷ []);
}

abbrev parsed : Text → Option Address
parsed text = some 1

abbrev bound : ℕ → Setup
bound n = binds 5000

abbrev refused : ℕ → Setup
refused n = fails_to_open

comes_up_example :
    (t : System Node) × (ros_node decimal parsed parsed bound refused bound parameters
      ≡ some (ok tt, t))
    × ((p : ℕ)
        → (contains p t.modem.tcp_pending ≡ (
            is_listed p (pos 5000 ∷ pos 5001 ∷ [])
            || opens client p (answered_by refused 0 (pos 5002 ∷ []))))
          × (contains p t.modem.udp_active ≡ is_listed p (pos 70000 ∷ [])))
    × (t.modem.tcp_active ≡ [])
unfolding param
comes_up_example =
    comes_up decimal parsed parsed bound refused bound parameters 1 1 refl refl (λ n. refl)
      (λ n. refl)
