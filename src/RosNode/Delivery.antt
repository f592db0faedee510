-- ===== src/RosNode/Delivery.antt =====
-- Data from a peer to the topic of its connection: the receive handlers of src/tcp_connection.cpp
-- and src/udp_connection.cpp, the driver's callback, and ros_node::callback_rx.
use ros_driver_modem.Prelude.{
  ℕ, ◌≤◌, ◌<◌, ◌%◌, ◌^◌, ◌≡◌, refl, true, some, List, [], ◌∷◌, ◌++◌, arith, length, take, drop,
  take-append, take-length, length-take_le, inl, inr, Bool-cases, if◌then◌else◌, false,
}
use ros_driver_modem.StdMap.{lookup, contains}
use ros_driver_modem.Types.{Protocol, Address, no_error, ok, throws, system_error}
use ros_driver_modem.Modem.{Handler, receive, receive_from, System, Client, post, on_modem}
use ros_driver_modem.TcpConnection
use ros_driver_modem.TcpConnection.{fill_buffer}
use ros_driver_modem.TcpConnection.Closing.{update_self}
use ros_driver_modem.UdpConnection
use ros_driver_modem.Topics.{Text, rx_topic}
use ros_driver_modem.EventLoop.{Completion, pick, received, received_from, run_handler, run_one}
use ros_driver_modem.RosNode.{Node, packet, callback_rx, callbacks, emit}
use ros_driver_modem.RosNode.Agreement.{IsConsistent}

-- The bytes that arrived and fit are the front of the buffer.
take-fill_buffer :
    (arrived : List ℕ) (size : ℕ) (buffer : List ℕ)
    → take (length (take size arrived)) (fill_buffer arrived size buffer) ≡ take size arrived
unfolding fill_buffer
take-fill_buffer arrived size buffer =
    take-append (take size arrived) (drop (length (take size arrived)) buffer)

pub mod_small : (n size : ℕ) → n ≤ size → size < 2 ^ 32 → n % 2 ^ 32 ≡ n
mod_small n size h k = omega arith

-- What a receive reports: its bytes, as many as fit in a buffer shorter than 2^32.
pub whole_count :
    (size : ℕ) (bytes : List ℕ)
    → size < 2 ^ 32
    → take (length (take size bytes) % 2 ^ 32) (take size bytes) ≡ take size bytes
whole_count size bytes h =
    rw (mod_small (length (take size bytes)) size (length-take_le size bytes) h)
      (take-length (take size bytes))

module _ {N : Type 0} (external : Client N) (k : Completion) (fine : k.error ≡ no_error) (i : ℕ)
    (s : System N) where
  open external use {rx_callback}

  pub run_handler-receive :
      (TcpConnection.object i s).socket_open ≡ true
      → (TcpConnection.object i s).has_rx ≡ true
      → k.has_peer ≡ true
      → run_handler external (receive i) k s ≡ (
        ok tt,
        (let c = TcpConnection.object i s in
            let d = (received i k s).modem in
            record {
              modem = post (receive i) d;
              app =
                  rx_callback Protocol.tcp c.bound_port
                    (take c.buffer_size k.bytes)
                    (length (take c.buffer_size k.bytes) % 2 ^ 32)
                    c.remote_endpoint.address
                    d
                    s.app;
            }),
      )
  unfolding run_handler received TcpConnection.rx_callback TcpConnection.receive_result
      TcpConnection.async_rx TcpConnection.deliver
  run_handler-receive o r h =
      let c = TcpConnection.object i s in
      simp (fine, update_self, o, r, h, take-fill_buffer k.bytes c.buffer_size c.buffer)

  -- The peer is gone.
  pub run_handler-lost :
      (TcpConnection.object i s).socket_open ≡ true
      → (TcpConnection.object i s).has_rx ≡ true
      → k.has_peer ≡ false
      → run_handler external (receive i) k s ≡ (throws system_error, received i k s)
  unfolding run_handler received TcpConnection.rx_callback TcpConnection.receive_result
      TcpConnection.deliver
  run_handler-lost o r h = simp (fine, update_self, o, r, h)

  pub run_handler-receive_from :
      (UdpConnection.object i s).socket_open ≡ true
      → (UdpConnection.object i s).has_rx ≡ true
      → run_handler external (receive_from i) k s ≡ (
        ok tt,
        (let c = UdpConnection.object i s in
            let d = (received_from i k s).modem in
            record {
              modem = post (receive_from i) d;
              app =
                  rx_callback Protocol.udp c.bound_port
                    (take c.buffer_size k.bytes)
                    (length (take c.buffer_size k.bytes) % 2 ^ 32)
                    k.endpoint.address
                    d
                    s.app;
            }),
      )
  unfolding run_handler received_from UdpConnection.rx_callback UdpConnection.async_rx
      UdpConnection.deliver
  run_handler-receive_from o r =
      let c = UdpConnection.object i s in
      simp (fine, update_self, o, r, take-fill_buffer k.bytes c.buffer_size c.buffer)

-- What the node publishes for data on a connection whose topic it has.
pub callback_rx-tcp :
    (to_string : Address → Text) (p count : ℕ) (bytes : List ℕ) (source : Address) (n : Node)
    (name : Text)
    → lookup p n.tcp_rx ≡ some name
    → callback_rx to_string Protocol.tcp p bytes count source n
      ≡ emit (packet name (record { source_ip = to_string source; bytes = take count bytes })) n
unfolding callback_rx
callback_rx-tcp to_string p count bytes source n name e = ground arith

pub callback_rx-udp :
    (to_string : Address → Text) (p count : ℕ) (bytes : List ℕ) (source : Address) (n : Node)
    (name : Text)
    → lookup p n.udp_rx ≡ some name
    → callback_rx to_string Protocol.udp p bytes count source n
      ≡ emit (packet name (record { source_ip = to_string source; bytes = take count bytes })) n
unfolding callback_rx
callback_rx-udp to_string p count bytes source n name e = ground arith

module _ (to_string : Address → Text) (k : Completion) (fine : k.error ≡ no_error) (n i p : ℕ)
    (s : System Node) (c : IsConsistent s) where
  -- The node after it has published a packet on the topic of a connection.
  abbrev pub relayed : Protocol → Address → List ℕ → Node
  relayed type source bytes =
      emit (packet (rx_topic type p) (record { source_ip = to_string source; bytes = bytes })) s.app

  -- In a consistent state, a completed receive on an active TCP connection with a buffer shorter
  -- than 2^32, whose socket still has a peer, publishes exactly one packet on the rx topic of the
  -- connection's port, of the bytes that arrived, as many as fit in the buffer, with the address
  -- of the peer; nothing is thrown, and the next receive is posted. Where the socket has no peer
  -- any more, the request for its address throws a system_error out of the handler: nothing is
  -- published, and no further receive is posted.
  pub tcp_bytes_published :
      (rest : List Handler)
      → pick n s.modem.handlers ≡ some (receive i, rest)
      → lookup p s.modem.tcp_active ≡ some i
      → (s.modem.tcp_heap i).buffer_size < 2 ^ 32
      → (let x = run_one (callbacks to_string) n k s in
          (x.0 ≡ (if k.has_peer then ok tt else throws system_error))
          × (x.1.modem.handlers ≡ (if k.has_peer then rest ++ receive i ∷ [] else rest))
          × (x.1.app ≡ (
              if k.has_peer
              then relayed Protocol.tcp
                  (s.modem.tcp_heap i).remote_endpoint.address
                  (take (s.modem.tcp_heap i).buffer_size k.bytes)
              else s.app)))
  unfolding run_one received contains
  tcp_bytes_published rest e f b =
      let at = (c.sound.coherent.active_at p i f).0 in
      let o = s.modem.tcp_heap i in
      let t : System Node = on_modem (λ d. record d { handlers = rest }) s in
      let topic : lookup p s.app.tcp_rx ≡ some (rx_topic Protocol.tcp p) =
        ground (arith, c.agrees.tcp_rx_at.at_port p) in
      let open_socket = c.sound.coherent.open_at p i f in
      elim (Bool-cases k.has_peer) [
        | inr gone ↦
            rw
              (
                e,
                run_one,
                run_handler-lost (callbacks to_string) k fine i t open_socket at.says_rx gone,
                gone,
                fine,
              )
              (refl, refl, refl)
        | inl there ↦
            rw
              (
                e,
                run_one,
                run_handler-receive (callbacks to_string) k fine i t open_socket at.says_rx there,
                there,
                at.bound_to,
                callback_rx-tcp to_string p (length (take o.buffer_size k.bytes) % 2 ^ 32)
                    (take o.buffer_size k.bytes) o.remote_endpoint.address s.app _ topic,
                whole_count o.buffer_size k.bytes b,
                fine,
              )
              (refl, refl, refl)
      ]

  -- In a consistent state, a completed receive on a UDP connection with a buffer shorter than 2^32
  -- publishes exactly one packet on the rx topic of the connection's port: the bytes that arrived,
  -- as many as fit in the buffer, with the address of the sender. The next receive is posted, and
  -- the sender takes the place of the connection's remote endpoint.
  pub udp_bytes_published :
      (rest : List Handler)
      → pick n s.modem.handlers ≡ some (receive_from i, rest)
      → lookup p s.modem.udp_active ≡ some i
      → (s.modem.udp_heap i).buffer_size < 2 ^ 32
      → (let x = run_one (callbacks to_string) n k s in
          (x.0 ≡ ok tt)
          × (x.1.modem.handlers ≡ rest ++ receive_from i ∷ [])
          × (x.1.app
              ≡ relayed Protocol.udp k.endpoint.address
                  (take (s.modem.udp_heap i).buffer_size k.bytes))
          × ((x.1.modem.udp_heap i).remote_endpoint ≡ k.endpoint))
  unfolding run_one received_from contains
  udp_bytes_published rest e f b =
      let (opened, bound, has, _) = c.sound.udp_coherent.open_at p i f in
      let o = s.modem.udp_heap i in
      let t : System Node = on_modem (λ d. record d { handlers = rest }) s in
      let topic : lookup p s.app.udp_rx ≡ some (rx_topic Protocol.udp p) =
        ground (arith, c.agrees.udp_rx_at.at_port p) in
      rw
        (
          e,
          run_one,
          run_handler-receive_from (callbacks to_string) k fine i t opened has,
          bound,
          callback_rx-udp to_string p (length (take o.buffer_size k.bytes) % 2 ^ 32)
              (take o.buffer_size k.bytes) k.endpoint.address s.app _ topic,
          whole_count o.buffer_size k.bytes b,
          fine,
          update_self,
        )
        (refl, refl, refl, refl)
