-- ===== src/Link/Sending.antt =====
-- From modem_interface::send_tcp and send_udp (src/modem_interface.cpp) over the node's services and
-- topics (src/ros_node.cpp) to a socket.
use ros_driver_modem.Prelude.{
  ℕ, ◌^◌, ◌<◌, ◌≡◌, refl, Bool, true, false, Option, none, some, List, arith, length, take, inl,
  inr, Option-cases,
}
use ros_driver_modem.StdMap.{lookup, contains}
use ros_driver_modem.StdMap.Laws.{lookup-contains, lookup-contains-none}
use ros_driver_modem.Types.{Address, Protocol, Result, ok, throws, undefined, SendOutcome}
use ros_driver_modem.Modem.{to_peer, datagram, System, on_modem, log}
use ros_driver_modem.TcpConnection.{is_broken_pipe}
use ros_driver_modem.UdpConnection.{is_no_error}
use ros_driver_modem.Topics.{Text, tx_topic}
use ros_driver_modem.RosNode.{Node, DataPacket}
use ros_driver_modem.RosNode.Requests.{service_tcp_tx, callback_udp_tx}
use ros_driver_modem.RosNode.Agreement.{IsConsistent}
use ros_driver_modem.RosNode.Transmission.{tcp_tx_sends, udp_tx_sends}
use ros_driver_modem.ModemInterface.{ModemInterface, has_port, is_connected}
use ros_driver_modem.ModemInterface.Following.{IsFollowing}
use ros_driver_modem.ModemInterface.Agreement.{Knows}
use ros_driver_modem.ModemInterface.Sending.{
  answered, packet_of, send_tcp, send_udp, send_tcp_lem, send_udp_lem,
}

-- What a service call brings back: roscpp answers that it failed where the service throws.
abbrev pub reply : Result Bool × System Node → Option Bool × System Node
reply (ok success, s) = (some success, s)
reply (throws e, s) = (none, s)
reply (undefined, s) = (none, s)

module _ (to_string : Address → Text) (sending : SendOutcome) where
  -- ROS takes a call to the service that the node has advertised under its name.
  abbrev pub Routes :
      (Text → DataPacket → System Node → Option Bool × System Node) → System Node → Type 0
  Routes call s =
      (p : ℕ) (name : Text)
      → lookup p s.app.tcp_tx ≡ some name
      → (packet : DataPacket)
      → call name packet s ≡ reply (service_tcp_tx to_string p packet.bytes sending s)

  -- The system once a TCP connection has sent the bytes, as many as its socket takes.
  abbrev pub sent_by : ℕ → List ℕ → System Node → System Node
  sent_by i bytes s = on_modem (log (to_peer i (take sending.accepted bytes))) s

  module _ (s : System Node) (c : IsConsistent s) (m : ModemInterface) (f : IsFollowing m)
      (k : Knows s m) (p : ℕ) (bytes : List ℕ) (count : ℕ)
      (short : length (take count bytes) < 2 ^ 32) where
    listed_tcp : has_port p m.active_tcp_connections ≡ contains p s.modem.tcp_active
    unfolding is_connected
    listed_tcp = let e = k.knows_tcp p in ground arith

    -- A call of send_tcp of an interface hands the first bytes of the data to the socket of the
    -- connection object that the node's driver has active at the port, of which the bytes that the
    -- socket takes are sent, changes nothing else of the node and answers true; where the driver
    -- has none, it changes nothing and answers false. The data are fewer than 2^32 bytes, the pipe
    -- is not broken, and ROS takes a service call to the service that the node has advertised
    -- under its name. The interface must hold handles for exactly the connections of its lists,
    -- and these must be those of the node's driver, which is consistent with the node.
    pub send_reaches_peer :
        (call : Text → DataPacket → System Node → Option Bool × System Node)
        → Routes call s
        → is_broken_pipe sending.error ≡ false
        → send_tcp call p bytes count m s ≡ (elim (lookup p s.modem.tcp_active) [
          | none ↦ (false, s)
          | some i ↦ (true, sent_by i (take count bytes) s)
        ])
    unfolding answered packet_of
    send_reaches_peer call r whole = elim (Option-cases (lookup p s.modem.tcp_active)) [
      | inl e ↦
          let absent = lookup-contains-none p s.modem.tcp_active e in
          rw (e, send_tcp_lem m f p bytes count call s, listed_tcp, absent) refl
      | inr (i, e) ↦
          let found = lookup-contains p i s.modem.tcp_active e in
          let topic : lookup p s.app.tcp_tx ≡ some (tx_topic Protocol.tcp p) =
            rw (c.agrees.tcp_tx_at.at_port p, found) refl in
          rw
            (
              e,
              send_tcp_lem m f p bytes count call s,
              listed_tcp,
              found,
              r p (tx_topic Protocol.tcp p) topic (packet_of bytes count),
              tcp_tx_sends to_string p i (take count bytes) sending s short c.sound e whole,
            )
            refl
    ]

    -- A datagram.
    listed_udp : has_port p m.active_udp_connections ≡ contains p s.modem.udp_active
    unfolding is_connected
    listed_udp = let e = k.knows_udp p in ground arith

    -- A call of send_udp of an interface for a port at which the node's driver has a UDP
    -- connection publishes the first bytes of the data on the topic that the node subscribes to
    -- for that port and answers true, and when the node handles that packet, the bytes leave whole
    -- as one datagram to the connection's remote endpoint and nothing else changes. The data are
    -- fewer than 2^32 bytes, and the send has no error. The interface must hold handles for
    -- exactly the connections of its lists, and these must be those of the node's driver, which is
    -- consistent with the node.
    pub datagram_leaves :
        (i : ℕ)
        → lookup p s.modem.udp_active ≡ some i
        → is_no_error sending.error ≡ true
        → (let name = tx_topic Protocol.udp p in
            let packet = packet_of bytes count in
            (send_udp p bytes count m ≡ (true, some (name, packet)))
            × (lookup p s.app.udp_tx ≡ some name)
            × (callback_udp_tx to_string p packet.bytes sending s ≡ (
              ok true,
              on_modem (log (datagram (s.modem.udp_heap i).remote_endpoint (take count bytes))) s,
            )))
    unfolding packet_of
    datagram_leaves i e fine =
        let found = lookup-contains p i s.modem.udp_active e in
        (
          rw (send_udp_lem m f p bytes count, listed_udp, found) refl,
          rw (c.agrees.udp_tx_at.at_port p, found) refl,
          udp_tx_sends to_string p i (take count bytes) sending s short e fine,
        )
