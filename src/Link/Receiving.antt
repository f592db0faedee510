-- ===== src/Link/Receiving.antt =====
-- From a socket over the node's topics (src/ros_node.cpp) to the callback that is attached to an
-- interface (src/modem_interface.cpp).
use ros_driver_modem.Prelude.{ℕ, ◌^◌, ◌<◌, ◌≡◌, refl, ap, ◌∙◌, true, some, List, ◌∷◌, arith, take}
use ros_driver_modem.StdMap.{lookup}
use ros_driver_modem.StdMap.Laws.{lookup-contains}
use ros_driver_modem.Types.{Address, Protocol, no_error, Result, ok}
use ros_driver_modem.Modem.{Handler, receive, receive_from, System}
use ros_driver_modem.Topics.{Text, rx_topic}
use ros_driver_modem.EventLoop.{Completion, pick, run_one}
use ros_driver_modem.RosNode.{Node, DataPacket, ActiveConnections, packet, callbacks}
use ros_driver_modem.RosNode.Agreement.{IsConsistent}
use ros_driver_modem.RosNode.Delivery.{tcp_bytes_published, udp_bytes_published}
use ros_driver_modem.ModemInterface.{
  ModemInterface, has_port, is_connected, and_then, change_handles, callback_active_connections,
  callback_tcp_rx, callback_udp_rx,
}
use ros_driver_modem.ModemInterface.Handling.{and_then-either}
use ros_driver_modem.ModemInterface.Following.{IsFollowing}
use ros_driver_modem.ModemInterface.Agreement.{Knows}
use ros_driver_modem.ModemInterface.Waiting.{tcp_packet, udp_packet, handle}

-- The interface once a packet was given to the attached callback.
abbrev pub has_given : Protocol → ℕ → DataPacket → ModemInterface → ModemInterface
has_given type p message m = record m { given = (type, p, message) ∷ m.given }

-- The node's message leaves the callbacks of an interface attached.
pub same_callbacks :
    (message : ActiveConnections) (m : ModemInterface)
    → (let n = (callback_active_connections message m).1 in
        (n.callback_tcp_attached ≡ m.callback_tcp_attached)
        × (n.callback_udp_attached ≡ m.callback_udp_attached))
unfolding callback_active_connections
same_callbacks message m =
    let P = λ (n : ModemInterface).
      (n.callback_tcp_attached ≡ m.callback_tcp_attached)
      × (n.callback_udp_attached ≡ m.callback_udp_attached) in
    let (r, t) =
      change_handles Protocol.tcp m.active_tcp_connections message.tcp_active m.tcp_handles in
    let (q, u) =
      change_handles Protocol.udp m.active_udp_connections message.udp_active m.udp_handles in
    let n = record m { tcp_handles = t; udp_handles = u } in
    let done : Result (Unit {0}) × ModemInterface = (
      ok tt,
      record n {
        pending_tcp_connections = message.tcp_pending;
        active_tcp_connections = message.tcp_active;
        active_udp_connections = message.udp_active;
      },
    ) in
    and_then-either P r (record m { tcp_handles = t }) (and_then (q, n) done) (refl, refl)
      (and_then-either P q n done (refl, refl) (refl, refl))

module _ (to_string : Address → Text) (k : Completion) (fine : k.error ≡ no_error) (n i p : ℕ)
    (s : System Node) (c : IsConsistent s) (m : ModemInterface) (f : IsFollowing m)
    (w : Knows s m) where
  -- A completed receive on an active TCP connection with a buffer shorter than 2^32, whose socket
  -- still has a peer, publishes one packet, of the bytes that arrived, as many as fit in the
  -- buffer, on the topic that the interface subscribes to for the connection's port, and when the
  -- interface handles that packet it gives it once, with the port, to the callback that is
  -- attached. The interface must hold handles for exactly the connections of its lists, and these
  -- must be those of the node's driver, which is consistent with the node.
  pub tcp_bytes_given :
      (rest : List Handler)
      → pick n s.modem.handlers ≡ some (receive i, rest)
      → lookup p s.modem.tcp_active ≡ some i
      → (s.modem.tcp_heap i).buffer_size < 2 ^ 32
      → m.callback_tcp_attached ≡ true
      → k.has_peer ≡ true
      → (let o = s.modem.tcp_heap i in
          let name = rx_topic Protocol.tcp p in
          let message : DataPacket = record {
            source_ip = to_string o.remote_endpoint.address;
            bytes = take o.buffer_size k.bytes;
          } in
          ((run_one (callbacks to_string) n k s).1.app.output ≡ packet name message ∷ s.app.output)
          × (lookup p m.tcp_handles.subscribers ≡ some name)
          × (handle (tcp_packet p message) m ≡ (ok tt, has_given Protocol.tcp p message m)))
  unfolding handle callback_tcp_rx is_connected
  tcp_bytes_given rest e g b attached there =
      let found = lookup-contains p i s.modem.tcp_active g in
      let known = w.knows_tcp p in
      let listed : has_port p m.active_tcp_connections ≡ true = ground arith in
      let (_, _, app) = tcp_bytes_published to_string k fine n i p s c rest e g b in
      (
        ap (λ x. x.output) app ∙ rw there refl,
        rw (f.tcp_follows.subscribers_at p, listed) refl,
        rw attached refl,
      )

  -- A completed receive on a UDP connection with a buffer shorter than 2^32 publishes one packet,
  -- of the bytes that arrived, as many as fit in the buffer, with the address of the sender, on
  -- the topic that the interface subscribes to for the connection's port, and when the interface
  -- handles that packet it gives it once, with the port, to the callback that is attached. The
  -- interface must hold handles for exactly the connections of its lists, and these must be those
  -- of the node's driver, which is consistent with the node.
  pub udp_bytes_given :
      (rest : List Handler)
      → pick n s.modem.handlers ≡ some (receive_from i, rest)
      → lookup p s.modem.udp_active ≡ some i
      → (s.modem.udp_heap i).buffer_size < 2 ^ 32
      → m.callback_udp_attached ≡ true
      → (let o = s.modem.udp_heap i in
          let name = rx_topic Protocol.udp p in
          let message : DataPacket = record {
            source_ip = to_string k.endpoint.address;
            bytes = take o.buffer_size k.bytes;
          } in
          ((run_one (callbacks to_string) n k s).1.app.output ≡ packet name message ∷ s.app.output)
          × (lookup p m.udp_handles.subscribers ≡ some name)
          × (handle (udp_packet p message) m ≡ (ok tt, has_given Protocol.udp p message m)))
  unfolding handle callback_udp_rx is_connected
  udp_bytes_given rest e g b attached =
      let found = lookup-contains p i s.modem.udp_active g in
      let known = w.knows_udp p in
      let listed : has_port p m.active_udp_connections ≡ true = ground arith in
      let (_, _, app, _) = udp_bytes_published to_string k fine n i p s c rest e g b in
      (ap (λ x. x.output) app, rw (f.udp_follows.subscribers_at p, listed) refl, rw attached refl)
