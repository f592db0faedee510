-- ===== src/RosNode/Clearing.antt =====
-- Removing connections, one or all, and setting the remote host (src/ros_node.cpp), against the
-- consistency of the node.
use ros_driver_modem.Prelude.{ℕ, ◌≡◌, sym, subst, refl, true, Option, none, some, []}
use ros_driver_modem.StdMap.{lookup, contains}
use ros_driver_modem.StdMap.Laws.{erase_absent}
use ros_driver_modem.Types.{Protocol, Address}
use ros_driver_modem.Modem.{Modem, System, on_modem}
use ros_driver_modem.Topics.{Text}
use ros_driver_modem.Driver
use ros_driver_modem.Driver.Invariant.{IsSound}
use ros_driver_modem.Driver.Removing.{remove_tcp_cases, remove_udp_cases}
use ros_driver_modem.Driver.RemovingAll.{remove_all_empties, remove_all-Silent}
use ros_driver_modem.RosNode.{Node, remove_connection_topics, remove_all_topics}
use ros_driver_modem.RosNode.Requests.{
  on_app, after_remove, set_remote_host, remove_connection, remove_all_connections,
}
use ros_driver_modem.RosNode.Agreement.{Mirrors, Agrees}
use ros_driver_modem.RosNode.Changes.{Agrees-remove_tcp, Agrees-remove_udp}
use ros_driver_modem.RosNode.Tracking.{Tracks}
use ros_driver_modem.RosNode.Serving.{publish-Tracks}

-- Maps without entries agree.
nil-Agrees :
    (d : Modem) (n : Node) → d.tcp_active ≡ [] → d.udp_active ≡ [] → Agrees d (remove_all_topics n)
unfolding remove_all_topics lookup contains
nil-Agrees d n e f = record {
  tcp_rx_at = rw e nil;
  tcp_tx_at = rw e nil;
  udp_rx_at = rw f nil;
  udp_tx_at = rw f nil;
}
  where
    nil : {name : ℕ → Text} → Mirrors [] name []
    nil = record { at_port = λ p. refl }

module _ (s : System Node) where
  pub remove_connection-Tracks :
      (type : Protocol) (p : ℕ)
      → IsSound s.modem
      → Tracks s
      → Tracks (remove_connection type p true s).1
  unfolding remove_connection Driver.remove_connection after_remove
  remove_connection-Tracks Protocol.tcp p v w = publish-Tracks _ (
      remove_tcp_cases p s (λ t. Agrees t.modem (remove_connection_topics Protocol.tcp p t.app))
        (λ i e.
          Agrees-remove_tcp w.agrees p
            (sym (erase_absent p s.modem.tcp_active (v.coherent.apart p i e))) refl)
        (λ i e f. Agrees-remove_tcp w.agrees p refl refl)
        (λ e f. Agrees-remove_tcp w.agrees p (sym (erase_absent p s.modem.tcp_active f)) refl))
  remove_connection-Tracks Protocol.udp p v w = publish-Tracks _ (
      remove_udp_cases p s (λ t. Agrees t.modem (remove_connection_topics Protocol.udp p t.app))
        (λ i e. Agrees-remove_udp w.agrees p refl refl)
        (λ e. Agrees-remove_udp w.agrees p refl (sym (erase_absent p s.modem.udp_active e))))
  remove_connection-Tracks (Protocol.unknown c) p v w = w

  pub remove_all-Tracks : Tracks (remove_all_connections true s)
  unfolding remove_all_connections
  remove_all-Tracks =
      let cleared = on_app remove_all_topics s in
      let e = remove_all_empties cleared in
      let kept = remove_all-Silent cleared in
      publish-Tracks (Driver.remove_all_connections cleared) (
        subst (Agrees (Driver.remove_all_connections cleared).modem) (sym kept.0)
          (nil-Agrees (Driver.remove_all_connections cleared).modem s.app e.1 e.2))

  -- An unresolved host changes nothing; a resolved one leaves no connection.
  pub set_remote_host-Tracks :
      (resolved : Option Address) → Tracks s → Tracks (set_remote_host resolved s).1
  unfolding set_remote_host Driver.set_remote_host
  set_remote_host-Tracks none w = w
  set_remote_host-Tracks (some ip) w =
      let e = remove_all_empties (on_modem (λ d. record d { remote_ip = ip }) s) in
      publish-Tracks _ (nil-Agrees _ _ e.1 e.2)
