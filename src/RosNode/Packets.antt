-- ===== src/RosNode/Packets.antt =====
-- The packets that the node (src/ros_node.cpp) has published: only ros_node::callback_rx publishes one.
use ros_driver_modem.Prelude.{
  ℕ, ◌≡◌, refl, ap, ◌∙◌, Bool, true, false, Option, none, some, List, [], ◌∷◌, inl, inr, Bool-cases,
}
use ros_driver_modem.StdMap.{Map, contains}
use ros_driver_modem.Types.{Protocol, Address, TcpRole, Result, ok, throws, undefined, Setup}
use ros_driver_modem.Modem.{Modem, System, on_modem}
use ros_driver_modem.Topics.{Text}
use ros_driver_modem.Driver
use ros_driver_modem.Driver.Admitting.{add_tcp_cases}
use ros_driver_modem.Driver.AdmittingUdp.{add_udp_cases}
use ros_driver_modem.Driver.RemovingAll.{remove_connection-Silent, remove_all-Silent}
use ros_driver_modem.RosNode.{
  Node, DataPacket, Output, connections, packet, advertise, advertise_service, subscribe, shutdown,
  add_connection_topics, drop_tcp_rx, drop_tcp_tx, drop_udp_rx, drop_udp_tx,
  remove_connection_topics, shut_all, remove_all_topics, publish_active_connections,
  callback_tcp_connected, callback_tcp_disconnected, callbacks,
}
use ros_driver_modem.RosNode.Requests.{
  set_remote_host, after_add_tcp, after_add_udp, after_remove, add_tcp_connection,
  add_udp_connection, remove_connection, remove_all_connections,
}

-- Each with the name of its topic, the newest first.
unfoldable pub packets : List Output → List (Text × DataPacket)
packets [] = []
packets (packet name message ∷ output) = (name, message) ∷ packets output
packets (connections message ∷ output) = packets output
packets (advertise name ∷ output) = packets output
packets (advertise_service name ∷ output) = packets output
packets (subscribe name ∷ output) = packets output
packets (shutdown name ∷ output) = packets output

-- Nothing published in between.
abbrev pub Mute : Node → Node → Type 0
Mute n m = packets m.output ≡ packets n.output

shut_all-packets : (m : Map Text) (o : List Output) → packets (shut_all m o) ≡ packets o
unfolding shut_all packets
shut_all-packets [] o = refl
shut_all-packets ((_, name) ∷ m) o = shut_all-packets m (shutdown name ∷ o)

module _ (n : Node) where
  remove_all_topics-Mute : Mute n (remove_all_topics n)
  unfolding remove_all_topics
  remove_all_topics-Mute =
      shut_all-packets n.udp_tx _
      ∙ shut_all-packets n.udp_rx _
      ∙ shut_all-packets n.tcp_tx _
      ∙ shut_all-packets n.tcp_rx n.output

  add_topics-Mute : (type : Protocol) (p : ℕ) → Mute n (add_connection_topics type p n)
  unfolding add_connection_topics packets
  add_topics-Mute Protocol.tcp p = refl
  add_topics-Mute Protocol.udp p = refl
  add_topics-Mute (Protocol.unknown _) p = refl

  publish-Mute : (d : Modem) → Mute n (publish_active_connections d n)
  unfolding publish_active_connections packets
  publish-Mute d = refl

  drop_tcp_rx-Mute : (p : ℕ) → Mute n (drop_tcp_rx p n)
  unfolding drop_tcp_rx packets
  drop_tcp_rx-Mute p = elim (Bool-cases (contains p n.tcp_rx)) [
    | inl e ↦ rw e refl
    | inr e ↦ rw e refl
  ]

  drop_tcp_tx-Mute : (p : ℕ) → Mute n (drop_tcp_tx p n)
  unfolding drop_tcp_tx packets
  drop_tcp_tx-Mute p = elim (Bool-cases (contains p n.tcp_tx)) [
    | inl e ↦ rw e refl
    | inr e ↦ rw e refl
  ]

  drop_udp_rx-Mute : (p : ℕ) → Mute n (drop_udp_rx p n)
  unfolding drop_udp_rx packets
  drop_udp_rx-Mute p = elim (Bool-cases (contains p n.udp_rx)) [
    | inl e ↦ rw e refl
    | inr e ↦ rw e refl
  ]

  drop_udp_tx-Mute : (p : ℕ) → Mute n (drop_udp_tx p n)
  unfolding drop_udp_tx packets
  drop_udp_tx-Mute p = elim (Bool-cases (contains p n.udp_tx)) [
    | inl e ↦ rw e refl
    | inr e ↦ rw e refl
  ]

remove_topics-Mute :
    (type : Protocol) (p : ℕ) (n : Node) → Mute n (remove_connection_topics type p n)
unfolding remove_connection_topics
remove_topics-Mute Protocol.tcp p n = drop_tcp_tx-Mute (drop_tcp_rx p n) p ∙ drop_tcp_rx-Mute n p
remove_topics-Mute Protocol.udp p n = drop_udp_tx-Mute (drop_udp_rx p n) p ∙ drop_udp_rx-Mute n p
remove_topics-Mute (Protocol.unknown _) p n = refl

pub connected-Mute : (p : ℕ) (d : Modem) (n : Node) → Mute n (callback_tcp_connected p d n)
unfolding callback_tcp_connected
connected-Mute p d n = publish-Mute _ d ∙ add_topics-Mute n Protocol.tcp p

pub disconnected-Mute : (p : ℕ) (d : Modem) (n : Node) → Mute n (callback_tcp_disconnected p d n)
unfolding callback_tcp_disconnected
disconnected-Mute p d n = publish-Mute _ d ∙ remove_topics-Mute Protocol.tcp p n

-- What the node does after the driver's part of a request.
after_add_tcp-Mute : (x : Result Bool × System Node) → Mute x.1.app (after_add_tcp true x).1.app
unfolding after_add_tcp
after_add_tcp-Mute (ok true, s) = publish-Mute s.app s.modem
after_add_tcp-Mute (ok false, s) = refl
after_add_tcp-Mute (throws e, s) = refl
after_add_tcp-Mute (undefined, s) = refl

after_add_udp-Mute :
    (p : ℕ) (x : Result Bool × System Node) → Mute x.1.app (after_add_udp p true x).1.app
unfolding after_add_udp
after_add_udp-Mute p (ok true, s) = publish-Mute _ s.modem ∙ add_topics-Mute s.app Protocol.udp p
after_add_udp-Mute p (ok false, s) = refl
after_add_udp-Mute p (throws e, s) = refl
after_add_udp-Mute p (undefined, s) = refl

after_remove-Mute :
    (type : Protocol) (p : ℕ) (x : Result Bool × System Node)
    → Mute x.1.app (after_remove type p true x).1.app
unfolding after_remove
after_remove-Mute type p (ok true, s) = publish-Mute _ s.modem ∙ remove_topics-Mute type p s.app
after_remove-Mute type p (ok false, s) = refl
after_remove-Mute type p (throws e, s) = refl
after_remove-Mute type p (undefined, s) = refl

-- The same node.
same-Mute : (n m : Node) → m ≡ n → Mute n m
same-Mute n m e = ap (λ x. packets x.output) e

module _ (s : System Node) where
  pub set_remote_host-Mute :
      (resolved : Option Address) → Mute s.app (set_remote_host resolved s).1.app
  unfolding set_remote_host Driver.set_remote_host
  set_remote_host-Mute none = refl
  set_remote_host-Mute (some ip) =
      publish-Mute _ _
      ∙ remove_all_topics-Mute _
      ∙ same-Mute s.app _ (remove_all-Silent (on_modem (λ d. record d { remote_ip = ip }) s)).0

  pub remove_connection-Mute :
      (type : Protocol) (p : ℕ) → Mute s.app (remove_connection type p true s).1.app
  unfolding remove_connection
  remove_connection-Mute type p =
      after_remove-Mute type p _ ∙ same-Mute s.app _ (remove_connection-Silent type p s).0

  pub remove_all-Mute : Mute s.app (remove_all_connections true s).app
  unfolding remove_all_connections
  remove_all-Mute =
      publish-Mute _ _
      ∙ same-Mute (remove_all_topics s.app) _
          (remove_all-Silent (record s { app = remove_all_topics s.app })).0
      ∙ remove_all_topics-Mute s.app

  pub add_udp-Mute : (p : ℕ) (setup : Setup) → Mute s.app (add_udp_connection p true setup s).1.app
  unfolding add_udp_connection
  add_udp-Mute p setup =
      after_add_udp-Mute p _
      ∙ add_udp_cases p s (λ x. Mute s.app x.1.app) (λ _ _. refl) (λ _ _. refl) refl setup

  module _ (to_string : Address → Text) where
    pub add_tcp-Mute :
        (role : TcpRole) (p : ℕ) (setup : Setup)
        → Mute s.app (add_tcp_connection to_string role p true setup s).1.app
    unfolding add_tcp_connection
    add_tcp-Mute role p setup =
        after_add_tcp-Mute _
        ∙ add_tcp_cases (callbacks to_string) p s (λ x. Mute s.app x.1.app) (λ _. refl)
            (λ _ _. refl) (λ _ _. refl) (λ _ _ _ _ _ _. refl) role setup
