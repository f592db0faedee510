-- ===== src/RosNode/RemoteHost.antt =====
-- A new remote host: ros_node::service_set_remote_host and service_get_remote_host
-- (src/ros_node.cpp), driver::set_remote_host (src/driver.cpp).
use ros_driver_modem.Prelude.{ℕ, ◌≡◌, refl, true, some, []}
use ros_driver_modem.StdMap.{keys}
use ros_driver_modem.Types.{Address, disconnected}
use ros_driver_modem.Modem.{System, on_modem}
use ros_driver_modem.Topics.{Text}
use ros_driver_modem.Driver
use ros_driver_modem.Driver.Invariant.{IsSound}
use ros_driver_modem.Driver.RemovingAll.{
  remove_all_empties, remove_all_disconnects, remove_all-Silent,
}
use ros_driver_modem.RosNode.{
  Node, active_connections, publish_active_connections, remove_all_topics,
}
use ros_driver_modem.RosNode.Tables.{latched}
use ros_driver_modem.RosNode.Reachable.{readdress-IsSound}
use ros_driver_modem.RosNode.Requests.{
  set_remote_host, service_set_remote_host, service_get_remote_host,
}

-- A driver and a node without connections, and a message that says so.
pub record IsBare (s : System Node) : Type 0 where
  pub no_pending : s.modem.tcp_pending ≡ []
  pub no_active : s.modem.tcp_active ≡ []
  pub no_udp : s.modem.udp_active ≡ []
  pub all_disconnected : (i : ℕ) → (s.modem.tcp_heap i).status ≡ disconnected
  pub no_tcp_rx : s.app.tcp_rx ≡ []
  pub no_tcp_tx : s.app.tcp_tx ≡ []
  pub no_udp_rx : s.app.udp_rx ≡ []
  pub no_udp_tx : s.app.udp_tx ≡ []
  pub told :
      latched s.app.output ≡ some (record { tcp_pending = []; tcp_active = []; udp_active = [] })

module _ (to_string : Address → Text) (ip : Address) (s : System Node) (v : IsSound s.modem) where
  abbrev readdressed : System Node
  readdressed = on_modem (λ d. record d { remote_ip = ip }) s

  -- In a sound state, once a new remote host that resolves is set by its service, the service that
  -- asks for it answers its text; the maps of the driver and the topics and services of the node
  -- are then empty, every TCP connection object is disconnected, and the latched message lists
  -- nothing.
  pub remote_host-roundtrip :
      (let x = service_set_remote_host (some ip) s in
        (x.0 ≡ true) × (service_get_remote_host to_string x.1 ≡ to_string ip) × IsBare x.1)
  unfolding service_set_remote_host set_remote_host service_get_remote_host Driver.set_remote_host
      Driver.p_remote_host publish_active_connections remove_all_topics latched active_connections
      Driver.p_pending_tcp_connections Driver.p_active_tcp_connections
      Driver.p_active_udp_connections keys
  remote_host-roundtrip =
      let e = remove_all_empties readdressed in
      (
        refl,
        rw (remove_all-Silent readdressed).1 refl,
        record {
          no_pending = e.0;
          no_active = e.1;
          no_udp = e.2;
          all_disconnected = remove_all_disconnects readdressed (readdress-IsSound s.modem ip v);
          no_tcp_rx = refl;
          no_tcp_tx = refl;
          no_udp_rx = refl;
          no_udp_tx = refl;
          told = rw (e.0, e.1, e.2) refl;
        },
      )
