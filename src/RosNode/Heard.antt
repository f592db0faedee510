-- ===== src/RosNode/Heard.antt =====
-- One turn of the io thread, and a path of requests and turns: the packets that the node
-- (src/ros_node.cpp) publishes are those of the receives that complete.
use ros_driver_modem.Prelude.{
  ℕ, ◌<◌, ◌^◌, ◌%◌, ◌≡◌, refl, ap, ◌∙◌, Bool, true, false, List, [], ◌∷◌, ◌++◌, arith, length, take,
  inl, inr, Bool-cases, ◌&&◌, if◌then◌else◌, length-take_shorter, take-length,
}
use ros_driver_modem.StdMap.{Map, contains}
use ros_driver_modem.StdMap.Laws.{lookup-contains, lookup-contains-none}
use ros_driver_modem.Types.{Address, Protocol, Status, connected, no_error}
use ros_driver_modem.Modem.{Handler, accept, connect, receive, receive_from, System}
use ros_driver_modem.Topics.{Text, rx_topic}
use ros_driver_modem.TcpConnection
use ros_driver_modem.TcpConnection.Closing.{update_self}
use ros_driver_modem.UdpConnection
use ros_driver_modem.UdpConnection.{is_no_error}
use ros_driver_modem.Driver.Invariant.{IsSound}
use ros_driver_modem.Driver.Quiet.{QuietAt}
use ros_driver_modem.EventLoop.{Completion, received, received_from, run_handler}
use ros_driver_modem.EventLoop.Status.{Status-cases}
use ros_driver_modem.RosNode.{Node, DataPacket, callback_rx, callbacks}
use ros_driver_modem.RosNode.Agreement.{Mirrors, Agrees}
use ros_driver_modem.RosNode.Delivery.{
  mod_small, run_handler-receive, run_handler-lost, run_handler-receive_from,
}
use ros_driver_modem.RosNode.Packets.{packets}

abbrev pub is_up : Status → Bool
is_up connected = true
is_up _ = false

module _ (to_string : Address → Text) where
  -- The packets that a receive is to publish: one if the TCP connection object is connected and its
  -- socket still has a peer, or if the UDP connection object is open and its port is that of a UDP
  -- connection.
  unfoldable pub read_by : Handler → Completion → System Node → List (Text × DataPacket)
  unfolding contains
  read_by (accept i) k s = []
  read_by (connect i) k s = []
  read_by (receive i) k s =
      let o = s.modem.tcp_heap i in
      let message : DataPacket = record {
        source_ip = to_string o.remote_endpoint.address;
        bytes = take o.buffer_size k.bytes;
      } in
      if is_up o.status && k.has_peer
      then (rx_topic Protocol.tcp o.local_endpoint.port, message) ∷ []
      else []
  read_by (receive_from i) k s =
      let o = s.modem.udp_heap i in
      let message : DataPacket = record {
        source_ip = to_string k.endpoint.address;
        bytes = take o.buffer_size k.bytes;
      } in
      if o.socket_open && (o.has_rx && contains o.bound_port s.modem.udp_active)
      then (rx_topic Protocol.udp o.bound_port, message) ∷ []
      else []

  module _ (p count : ℕ) (bytes : List ℕ) (source : Address) (n : Node) (active : Map ℕ)
      (read : List ℕ) (whole : take count bytes ≡ read) where
    abbrev message : DataPacket
    message = record { source_ip = to_string source; bytes = read }

    published_tcp :
        Mirrors n.tcp_rx (rx_topic Protocol.tcp) active
        → packets (callback_rx to_string Protocol.tcp p bytes count source n).output
          ≡ (if contains p active then (rx_topic Protocol.tcp p, message) ∷ [] else [])
            ++ packets n.output
    unfolding packets callback_rx contains
    published_tcp m = let topic = m.at_port p in ground (arith, whole)

    published_udp :
        Mirrors n.udp_rx (rx_topic Protocol.udp) active
        → packets (callback_rx to_string Protocol.udp p bytes count source n).output
          ≡ (if contains p active then (rx_topic Protocol.udp p, message) ∷ [] else [])
            ++ packets n.output
    unfolding packets callback_rx contains
    published_udp m = let topic = m.at_port p in ground (arith, whole)

  module _ (k : Completion) (fine : k.error ≡ no_error) (i : ℕ) (s : System Node) where
    closed_receive :
        (TcpConnection.object i s).socket_open ≡ false
        → (run_handler (callbacks to_string) (receive i) k s).1.app ≡ s.app
    unfolding run_handler received TcpConnection.rx_callback
    closed_receive closed = simp (fine, update_self, closed)

    lost_receive :
        (TcpConnection.object i s).socket_open ≡ true
        → (TcpConnection.object i s).has_rx ≡ true
        → k.has_peer ≡ false
        → (run_handler (callbacks to_string) (receive i) k s).1.app ≡ s.app
    unfolding received
    lost_receive o r gone =
        rw (run_handler-lost (callbacks to_string) k fine i s o r gone, fine) refl

    idle_receive_from :
        ((UdpConnection.object i s).socket_open && (UdpConnection.object i s).has_rx) ≡ false
        → (run_handler (callbacks to_string) (receive_from i) k s).1.app ≡ s.app
    unfolding run_handler received_from UdpConnection.rx_callback UdpConnection.deliver
    idle_receive_from idle = elim (Bool-cases (UdpConnection.object i s).has_rx) [
      | inr detached ↦ simp (fine, update_self, detached)
      | inl attached ↦
          let closed : (UdpConnection.object i s).socket_open ≡ false = ground arith in
          simp (fine, update_self, attached, closed)
    ]

  -- What a receive reports of fewer than 2^32 bytes.
  short_count :
      (size : ℕ) (bytes : List ℕ)
      → length bytes < 2 ^ 32
      → take (length (take size bytes) % 2 ^ 32) (take size bytes) ≡ take size bytes
  short_count size bytes h =
      rw (mod_small (length (take size bytes)) (length bytes) (length-take_shorter size bytes) h)
        (take-length (take size bytes))

  module _ (k : Completion) (fine : k.error ≡ no_error) (short : length k.bytes < 2 ^ 32) (i : ℕ)
      (s : System Node) (v : IsSound s.modem) (a : Agrees s.modem s.app) where
    -- A receive on an object that waits for its peer, or has it.
    open_receive :
        (p : ℕ)
        → k.has_peer ≡ true
        → (TcpConnection.object i s).socket_open ≡ true
        → (TcpConnection.object i s).has_rx ≡ true
        → (TcpConnection.object i s).bound_port ≡ p
        → (let o = s.modem.tcp_heap i in
            let message : DataPacket = record {
              source_ip = to_string o.remote_endpoint.address;
              bytes = take o.buffer_size k.bytes;
            } in
            packets (run_handler (callbacks to_string) (receive i) k s).1.app.output
            ≡ (if contains p s.modem.tcp_active
                then (rx_topic Protocol.tcp p, message) ∷ []
                else [])
              ++ packets s.app.output)
    open_receive p there o r b =
        let c = s.modem.tcp_heap i in
        rw (run_handler-receive (callbacks to_string) k fine i s o r there, b)
          (published_tcp p (length (take c.buffer_size k.bytes) % 2 ^ 32)
            (take c.buffer_size k.bytes) c.remote_endpoint.address s.app s.modem.tcp_active
            (take c.buffer_size k.bytes) (short_count c.buffer_size k.bytes short) a.tcp_rx_at)

    pub receive_heard :
        QuietAt s.modem.tcp_count (TcpConnection.object i s) i
        → packets (run_handler (callbacks to_string) (receive i) k s).1.app.output
          ≡ read_by (receive i) k s ++ packets s.app.output
    unfolding read_by contains
    receive_heard q =
        let c = v.coherent in
        let p = (TcpConnection.object i s).local_endpoint.port in
        elim (Status-cases (TcpConnection.object i s).status) [
          | inl e ↦ rw (e, closed_receive k fine i s (q.1 e).0) refl
          | inr (inl e) ↦
              let listed = c.active_in i e in
              let at = (c.active_at p i listed).0 in
              let found = lookup-contains p i s.modem.tcp_active listed in
              let open_socket = c.open_at p i listed in
              elim (Bool-cases k.has_peer) [
                | inr gone ↦
                    ap (λ n. packets n.output) (lost_receive k fine i s open_socket at.says_rx gone)
                    ∙ rw (e, gone) refl
                | inl there ↦
                    let heard = open_receive p there open_socket at.says_rx at.bound_to in
                    heard ∙ rw (e, there, found) refl
              ]
          | inr (inr e) ↦
              let listed = c.pending_in i e in
              let at = (c.pending_at p i listed).0 in
              let absent = lookup-contains-none p s.modem.tcp_active (c.apart p i listed) in
              elim (Bool-cases (TcpConnection.object i s).socket_open) [
                | inr closed ↦ rw (e, closed_receive k fine i s closed) refl
                | inl open_socket ↦ elim (Bool-cases k.has_peer) [
                  | inr gone ↦
                      ap (λ n. packets n.output)
                        (lost_receive k fine i s open_socket at.says_rx gone)
                      ∙ rw e refl
                  | inl there ↦
                      let heard = open_receive p there open_socket at.says_rx at.bound_to in
                      heard ∙ rw (e, absent) refl
                ]
              ]
        ]

    pub receive_from_heard :
        packets (run_handler (callbacks to_string) (receive_from i) k s).1.app.output
        ≡ read_by (receive_from i) k s ++ packets s.app.output
    unfolding read_by
    receive_from_heard =
        let o = UdpConnection.object i s in
        elim (Bool-cases (o.socket_open && o.has_rx)) [
          | inr idle ↦
              let silent : (o.socket_open && (o.has_rx && contains o.bound_port s.modem.udp_active))
                  ≡ false =
                ground arith in
              rw (idle_receive_from k fine i s idle, silent) refl
          | inl ready ↦
              let opened : o.socket_open ≡ true = ground arith in
              let attached : o.has_rx ≡ true = ground arith in
              rw
                (
                  run_handler-receive_from (callbacks to_string) k fine i s opened attached,
                  opened,
                  attached,
                )
                (published_udp o.bound_port (length (take o.buffer_size k.bytes) % 2 ^ 32)
                  (take o.buffer_size k.bytes) k.endpoint.address s.app s.modem.udp_active
                  (take o.buffer_size k.bytes) (short_count o.buffer_size k.bytes short)
                  a.udp_rx_at)
        ]
