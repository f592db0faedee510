-- ===== src/RosNode/Serving.antt =====
-- The requests to the node (src/ros_node.cpp) that add connections, against its consistency.
use ros_driver_modem.Prelude.{ℕ, ◌≡◌, sym, refl, Bool, true, false, some, arith}
use ros_driver_modem.StdMap.{lookup, contains}
use ros_driver_modem.StdMap.Laws.{insert_present}
use ros_driver_modem.Types.{Protocol, TcpRole, Address, ok, Setup}
use ros_driver_modem.Modem.{System}
use ros_driver_modem.Topics.{Text}
use ros_driver_modem.Driver.Admitting.{add_tcp_cases}
use ros_driver_modem.Driver.AdmittingUdp.{add_udp_cases}
use ros_driver_modem.RosNode.{Node, add_connection_topics, callbacks}
use ros_driver_modem.RosNode.Requests.{
  publish, after_add_tcp, after_add_udp, add_tcp_connection, add_udp_connection,
}
use ros_driver_modem.RosNode.Tables.{publish-IsCurrent}
use ros_driver_modem.RosNode.Agreement.{Agrees}
use ros_driver_modem.RosNode.Changes.{Agrees-add_udp, Agrees-same, publish-Agrees}
use ros_driver_modem.RosNode.Tracking.{Tracks, SameView-Tracks}
use ros_driver_modem.RosNode.Handling.{same_view}

-- Publishing brings the latched message up to date.
pub publish-Tracks : (s : System Node) → Agrees s.modem s.app → Tracks (publish s)
publish-Tracks s a = record {
  agrees = publish-Agrees s.modem a;
  current = publish-IsCurrent s.modem s.app;
}

module _ (to_string : Address → Text) (s : System Node) where
  -- Adding a TCP connection does not touch the topics.
  pub add_tcp-Tracks :
      (role : TcpRole) (p : ℕ) (setup : Setup)
      → Tracks s
      → Tracks (add_tcp_connection to_string role p true setup s).1
  unfolding add_tcp_connection after_add_tcp
  add_tcp-Tracks role p setup w =
      add_tcp_cases (callbacks to_string) p s (λ x. Tracks (after_add_tcp true x).1)
        (λ b. by_answer b) (λ o _. SameView-Tracks (same_view refl refl refl refl) w)
        (λ o _. SameView-Tracks (same_view refl refl refl refl) w)
        (λ o k _ _ _ _. publish-Tracks _ (Agrees-same w.agrees (refl, refl, refl, refl) refl refl))
        role setup
    where
      by_answer : (b : Bool) → Tracks (after_add_tcp true (ok b, s)).1
      by_answer true = publish-Tracks s w.agrees
      by_answer false = w

  -- Without publishing, the topics still agree.
  pub add_tcp-Agrees :
      (role : TcpRole) (p : ℕ) (setup : Setup)
      → Agrees s.modem s.app
      → let t = (add_tcp_connection to_string role p false setup s).1 in Agrees t.modem t.app
  unfolding add_tcp_connection after_add_tcp
  add_tcp-Agrees role p setup a =
      add_tcp_cases (callbacks to_string) p s
        (λ x. let t = (after_add_tcp false x).1 in Agrees t.modem t.app) (λ b. by_answer b)
        (λ o _. Agrees-same a (refl, refl, refl, refl) refl refl)
        (λ o _. Agrees-same a (refl, refl, refl, refl) refl refl)
        (λ o k _ _ _ _. Agrees-same a (refl, refl, refl, refl) refl refl) role setup
    where
      by_answer : (b : Bool) → let t = (after_add_tcp false (ok b, s)).1 in Agrees t.modem t.app
      by_answer true = a
      by_answer false = a

module _ (s : System Node) (p : ℕ) where
  -- A UDP connection that is added brings its topics, or finds them there.
  found-Agrees :
      (i : ℕ)
      → lookup p s.modem.udp_active ≡ some i
      → Agrees s.modem s.app
      → Agrees s.modem (add_connection_topics Protocol.udp p s.app)
  unfolding contains
  found-Agrees i e a =
      Agrees-add_udp a p i refl (sym (insert_present p i s.modem.udp_active (ground arith)))

  pub add_udp-Tracks : (setup : Setup) → Tracks s → Tracks (add_udp_connection p true setup s).1
  unfolding add_udp_connection after_add_udp
  add_udp-Tracks setup w =
      add_udp_cases p s (λ x. Tracks (after_add_udp p true x).1)
        (λ q e. publish-Tracks _ (Agrees-add_udp w.agrees p s.modem.udp_count refl refl))
        (λ i e. publish-Tracks _ (found-Agrees i e w.agrees)) w setup

  pub add_udp-Agrees :
      (setup : Setup)
      → Agrees s.modem s.app
      → let t = (add_udp_connection p false setup s).1 in Agrees t.modem t.app
  unfolding add_udp_connection after_add_udp
  add_udp-Agrees setup a =
      add_udp_cases p s (λ x. let t = (after_add_udp p false x).1 in Agrees t.modem t.app)
        (λ q e. Agrees-add_udp a p s.modem.udp_count refl refl) (λ i e. found-Agrees i e a) a setup
