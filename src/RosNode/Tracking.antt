-- ===== src/RosNode/Tracking.antt =====
-- The callbacks of the node (src/ros_node.cpp) for a connection that is made or lost, against its
-- consistency.
use ros_driver_modem.Prelude.{ℕ, ◌≡◌, ◌≢◌, ◌∙◌, sym, ap, refl, true, some, arith}
use ros_driver_modem.StdMap.Laws.{erase_absent}
use ros_driver_modem.Types.{disconnected, connected, Address}
use ros_driver_modem.Modem.{Modem, System}
use ros_driver_modem.Topics.{Text}
use ros_driver_modem.Driver.{
  p_pending_tcp_connections, p_active_tcp_connections, p_active_udp_connections,
}
use ros_driver_modem.TcpConnection.{object, update_status}
use ros_driver_modem.Driver.Callbacks.{hooks}
use ros_driver_modem.Driver.Invariant.{IsSound}
use ros_driver_modem.EventLoop.Status.{disconnected_cases, connected_cases}
use ros_driver_modem.RosNode.{
  Node, callbacks, callback_tcp_connected, callback_tcp_disconnected, active_connections,
}
use ros_driver_modem.RosNode.Tables.{HasTables, IsCurrent, latched, publish-IsCurrent}
use ros_driver_modem.RosNode.Agreement.{Agrees}
use ros_driver_modem.RosNode.Changes.{
  Agrees-add_tcp, Agrees-remove_tcp, Agrees-same, publish-Agrees,
}

-- The node reflects the driver.
pub record Tracks (s : System Node) : Type 0 where
  pub agrees : Agrees s.modem s.app
  pub current : IsCurrent s.modem s.app

-- The same maps of ports, and a node with the same tables and latched message.
pub record SameView (s t : System Node) : Type 0 where
  pub same_pending : t.modem.tcp_pending ≡ s.modem.tcp_pending
  pub same_active : t.modem.tcp_active ≡ s.modem.tcp_active
  pub same_udp : t.modem.udp_active ≡ s.modem.udp_active
  pub same_tables : HasTables t.app s.app.tcp_rx s.app.tcp_tx s.app.udp_rx s.app.udp_tx
  pub same_latched : latched t.app.output ≡ latched s.app.output

active_connections-same :
    (d e : Modem)
    → e.tcp_pending ≡ d.tcp_pending
    → e.tcp_active ≡ d.tcp_active
    → e.udp_active ≡ d.udp_active
    → active_connections e ≡ active_connections d
unfolding active_connections p_pending_tcp_connections p_active_tcp_connections
    p_active_udp_connections
active_connections-same d e a b c = ground arith

pub SameView-Tracks : {s t : System Node} → SameView s t → Tracks s → Tracks t
SameView-Tracks {s} {t} h v = record {
  agrees = Agrees-same v.agrees h.same_tables h.same_active h.same_udp;
  current =
      h.same_latched
      ∙ v.current
      ∙ ap some
          (sym (active_connections-same s.modem t.modem h.same_pending h.same_active h.same_udp));
}

module _ (to_string : Address → Text) (i : ℕ) (s : System Node) (v : IsSound s.modem)
    (w : Tracks s) where
  pub disconnected-Tracks :
      Tracks (update_status (hooks (callbacks to_string)) disconnected true i s)
  unfolding callback_tcp_disconnected
  disconnected-Tracks =
      disconnected_cases (callbacks to_string) i s v Tracks (λ _. w)
        (λ _ e. record {
          agrees = publish-Agrees _ (Agrees-remove_tcp w.agrees port refl refl);
          current = publish-IsCurrent _ _;
        })
        (λ _ e. record {
          agrees = publish-Agrees _ (
              Agrees-remove_tcp w.agrees port
                (sym (erase_absent port s.modem.tcp_active (v.coherent.apart port i e))) refl);
          current = publish-IsCurrent _ _;
        })
    where
      port : ℕ
      port = (object i s).local_endpoint.port

  pub connected-Tracks :
      (object i s).status ≢ disconnected
      → Tracks (update_status (hooks (callbacks to_string)) connected true i s)
  unfolding callback_tcp_connected
  connected-Tracks ne =
      connected_cases (callbacks to_string) i s v Tracks ne (λ _. w)
        (λ _ e. record {
          agrees = publish-Agrees _ (Agrees-add_tcp w.agrees _ i refl refl);
          current = publish-IsCurrent _ _;
        })
