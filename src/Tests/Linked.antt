-- ===== src/Tests/Linked.antt =====
-- The theorems that link the node and the client library, on the node that serves requests and an
-- interface that follows it.
use ros_driver_modem.Prelude.{
  ◌≡◌, refl, Bool, true, false, Option, none, some, List, [], ◌∷◌, arith, take, length, get_elem?,
  ◌<◌, ◌^◌,
}
use ros_driver_modem.StdMap.{lookup, contains}
use ros_driver_modem.Types.{Protocol, ok}
use ros_driver_modem.Modem.{accept, receive_from, datagram, System, on_modem, log}
use ros_driver_modem.Topics.{Text, decimal, rx_topic, tx_topic}
use ros_driver_modem.EventLoop.{run_one}
use ros_driver_modem.RosNode.{
  Node, DataPacket, ActiveConnections, packet, callbacks, active_connections,
}
use ros_driver_modem.RosNode.Requests.{service_tcp_tx, callback_udp_tx}
use ros_driver_modem.RosNode.Reachable.{turn}
use ros_driver_modem.ModemInterface.{ModemInterface, callback_active_connections}
use ros_driver_modem.ModemInterface.Following.{IsFollowing}
use ros_driver_modem.ModemInterface.Agreement.{Knows, follow_node}
use ros_driver_modem.ModemInterface.Sending.{packet_of, send_tcp, send_udp}
use ros_driver_modem.ModemInterface.Waiting.{tcp_packet, udp_packet, handle}
use ros_driver_modem.Link.Sending.{reply, Routes, sent_by, send_reaches_peer, datagram_leaves}
use ros_driver_modem.Link.Receiving.{same_callbacks, has_given, tcp_bytes_given, udp_bytes_given}
use ros_driver_modem.Link.Joint.{
  SameLists, Joint, begins, serves, delivers, any_message_is_safe, newest_message_agrees,
}
use ros_driver_modem.Tests.{arrival, all_sent}
use ros_driver_modem.Tests.Serving.{
  started, started-IsConsistent, accept_in_time, connected_once, connected_once-IsConsistent,
  udp_pick, udp_entry, udp_size, tcp_pick, tcp_entry, tcp_size, tcp_ports, three,
}
use ros_driver_modem.Tests.Following.{stale, stale-IsFollowing}

-- An interface with callbacks, before it hears of the node's connections.
abbrev attached : ModemInterface
attached = record stale { callback_tcp_attached = true; callback_udp_attached = true }

attached-IsFollowing : IsFollowing attached
attached-IsFollowing = record {
  tcp_follows = stale-IsFollowing.tcp_follows;
  udp_follows = stale-IsFollowing.udp_follows;
  tcp_distinct = stale-IsFollowing.tcp_distinct;
  udp_distinct = stale-IsFollowing.udp_distinct;
}

-- It has heard of the first state, and of the one in which the peer has connected.
abbrev first_heard : ModemInterface
first_heard = (callback_active_connections (active_connections started.modem) attached).1

abbrev then_heard : ModemInterface
then_heard = (callback_active_connections (active_connections connected_once.modem) attached).1

first_heard-Knows : IsFollowing first_heard × Knows started first_heard
first_heard-Knows =
    let (_, f, k) =
      follow_node started started-IsConsistent attached attached-IsFollowing
        (active_connections started.modem) started-IsConsistent.current in
    (f, k)

then_heard-Knows : IsFollowing then_heard × Knows connected_once then_heard
then_heard-Knows =
    let (_, f, k) =
      follow_node connected_once connected_once-IsConsistent attached attached-IsFollowing
        (active_connections connected_once.modem) connected_once-IsConsistent.current in
    (f, k)

-- The only service for data is that of port 5000.
abbrev calling : Text → DataPacket → System Node → Option Bool × System Node
calling name message s = reply (service_tcp_tx decimal 5000 message.bytes all_sent s)

calling-Routes : Routes decimal all_sent calling connected_once
unfolding contains lookup
calling-Routes p name e message =
    let only : p ≡ 5000 =
      ground (arith, tcp_ports, connected_once-IsConsistent.agrees.tcp_tx_at.at_port p, e) in
    rw only refl

three_fit : length (take 3 three) < 2 ^ 32
unfolding take
three_fit = omega arith

send_reaches_peer_example :
    send_tcp calling 5000 three 3 then_heard connected_once
    ≡ (elim (lookup 5000 connected_once.modem.tcp_active) [
      | none ↦ (false, connected_once)
      | some i ↦ (true, sent_by decimal all_sent i (take 3 three) connected_once)
    ])
send_reaches_peer_example =
    send_reaches_peer decimal all_sent connected_once connected_once-IsConsistent then_heard
      then_heard-Knows.0 then_heard-Knows.1 5000 three 3 three_fit calling calling-Routes refl

datagram_leaves_example :
    (let name = tx_topic Protocol.udp 6000 in
      let packet = packet_of three 3 in
      (send_udp 6000 three 3 first_heard ≡ (true, some (name, packet)))
      × (lookup 6000 started.app.udp_tx ≡ some name)
      × (callback_udp_tx decimal 6000 packet.bytes all_sent started ≡ (
        ok true,
        on_modem (log (datagram (started.modem.udp_heap 0).remote_endpoint (take 3 three))) started,
      )))
datagram_leaves_example =
    datagram_leaves decimal all_sent started started-IsConsistent first_heard first_heard-Knows.0
      first_heard-Knows.1 6000 three 3 three_fit 0 udp_entry refl

tcp_attached : then_heard.callback_tcp_attached ≡ true
tcp_attached = (same_callbacks (active_connections connected_once.modem) attached).0

tcp_bytes_given_example :
    (let o = connected_once.modem.tcp_heap 0 in
      let name = rx_topic Protocol.tcp 5000 in
      let message : DataPacket = record {
        source_ip = decimal o.remote_endpoint.address;
        bytes = take o.buffer_size three;
      } in
      ((run_one (callbacks decimal) 1 (arrival three) connected_once).1.app.output
        ≡ packet name message ∷ connected_once.app.output)
      × (lookup 5000 then_heard.tcp_handles.subscribers ≡ some name)
      × (handle (tcp_packet 5000 message) then_heard
          ≡ (ok tt, has_given Protocol.tcp 5000 message then_heard)))
tcp_bytes_given_example =
    tcp_bytes_given decimal (arrival three) refl 1 0 5000 connected_once connected_once-IsConsistent
      then_heard then_heard-Knows.0 then_heard-Knows.1 (receive_from 0 ∷ []) tcp_pick tcp_entry
      (rw tcp_size (omega arith)) tcp_attached refl

udp_attached : first_heard.callback_udp_attached ≡ true
udp_attached = (same_callbacks (active_connections started.modem) attached).1

udp_bytes_given_example :
    (let o = started.modem.udp_heap 0 in
      let name = rx_topic Protocol.udp 6000 in
      let message : DataPacket = record {
        source_ip = decimal 7;
        bytes = take o.buffer_size three;
      } in
      ((run_one (callbacks decimal) 1 (arrival three) started).1.app.output
        ≡ packet name message ∷ started.app.output)
      × (lookup 6000 first_heard.udp_handles.subscribers ≡ some name)
      × (handle (udp_packet 6000 message) first_heard
          ≡ (ok tt, has_given Protocol.udp 6000 message first_heard)))
udp_bytes_given_example =
    udp_bytes_given decimal (arrival three) refl 1 0 6000 started started-IsConsistent first_heard
      first_heard-Knows.0 first_heard-Knows.1 (accept 0 ∷ []) udp_pick udp_entry
      (rw udp_size (omega arith)) udp_attached

-- The peer connects before the interface hears anything.
abbrev both_messages : List ActiveConnections
both_messages = active_connections connected_once.modem ∷ active_connections started.modem ∷ []

late : Joint decimal started attached connected_once attached both_messages
late =
    serves (begins started-IsConsistent.current) (turn 0 (arrival [])) accept_in_time
      connected_once-IsConsistent.current

any_message_is_safe_example :
    (let message = active_connections started.modem in
      let x = callback_active_connections message attached in
      (x.0 ≡ ok tt)
      × IsFollowing x.1
      × (x.1.active_tcp_connections ≡ message.tcp_active)
      × (x.1.active_udp_connections ≡ message.udp_active))
unfolding get_elem?
any_message_is_safe_example =
    any_message_is_safe decimal started-IsConsistent attached-IsFollowing late 1 refl

-- The first message comes late, and then the second.
newest_message_agrees_example :
    (let x = callback_active_connections (active_connections connected_once.modem) first_heard in
      (x.0 ≡ ok tt) × IsFollowing x.1 × Knows connected_once x.1 × SameLists connected_once x.1)
unfolding get_elem?
newest_message_agrees_example =
    newest_message_agrees decimal started-IsConsistent attached-IsFollowing (delivers late 1 refl)
