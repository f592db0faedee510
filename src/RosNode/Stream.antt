-- ===== src/RosNode/Stream.antt =====
-- All data that passes through a node (src/ros_node.cpp) while it serves requests and its io thread
-- runs.
use ros_driver_modem.Prelude.{
  ℕ, ◌<◌, ◌^◌, ◌≡◌, refl, ap, sym, ◌∙◌, true, none, some, List, [], ◌++◌, length, inl, inr,
  Bool-cases, Option-cases, if◌then◌else◌, append_assoc,
}
use ros_driver_modem.Types.{
  Address, ErrorCode, no_error, eof, connection_reset, connection_aborted, operation_aborted,
  broken_pipe, other_error, Protocol, role_of_byte, protocol_of_byte,
}
use ros_driver_modem.Modem.{Handler, accept, connect, receive, receive_from, System, on_modem}
use ros_driver_modem.Topics.{Text}
use ros_driver_modem.UdpConnection.{is_no_error}
use ros_driver_modem.Driver.Connecting.{queue-IsSound}
use ros_driver_modem.Driver.Invariant.{IsSound}
use ros_driver_modem.Driver.Quiet.{QuietHandler, Quiet-pick}
use ros_driver_modem.EventLoop.{
  Completion, accepted, received, received_from, pick, run_handler, run_one,
}
use ros_driver_modem.EventLoop.Sound.{
  Cancels, Timely, accepted-IsSound, received-IsSound, received_from-IsSound,
}
use ros_driver_modem.RosNode.{Node, DataPacket, callbacks}
use ros_driver_modem.RosNode.Agreement.{Agrees, IsConsistent}
use ros_driver_modem.RosNode.Requests.{
  service_set_remote_host, service_add_tcp_connection, service_add_udp_connection,
  service_remove_connection, service_remove_all_connections, service_tcp_tx, callback_udp_tx,
}
use ros_driver_modem.RosNode.Reachable.{
  Request, set_host, add_tcp, add_udp, remove, remove_all, send_tcp, send_udp, turn, Admissible,
  serve, Reach, here, next, Reach-IsConsistent,
}
use ros_driver_modem.RosNode.Keeping.{AllOf}
use ros_driver_modem.RosNode.Packets.{
  packets, set_remote_host-Mute, add_tcp-Mute, add_udp-Mute, remove_connection-Mute,
  remove_all-Mute,
}
use ros_driver_modem.RosNode.Hearing.{
  tx-Mute, connect-Mute, accept-Mute, failed_rx-Mute, failed_udp_rx-Mute,
}
use ros_driver_modem.RosNode.Heard.{read_by, receive_heard, receive_from_heard}

fine_error : (e : ErrorCode) → is_no_error e ≡ true → e ≡ no_error
fine_error no_error f = refl
fine_error eof f = cc
fine_error connection_reset f = cc
fine_error connection_aborted f = cc
fine_error operation_aborted f = cc
fine_error broken_pipe f = cc
fine_error (other_error e) f = cc

-- What the operation itself does is no business of the node.
module _ (i : ℕ) (k : Completion) (s : System Node) where
  accepted-app : (accepted i k s).app ≡ s.app
  unfolding accepted
  accepted-app = elim (Bool-cases (is_no_error k.error)) [
    | inl fine ↦ rw fine refl
    | inr failed ↦ rw failed refl
  ]

  received-app : (received i k s).app ≡ s.app
  unfolding received
  received-app = elim (Bool-cases (is_no_error k.error)) [
    | inl fine ↦ rw fine refl
    | inr failed ↦ rw failed refl
  ]

  received_from-app : (received_from i k s).app ≡ s.app
  unfolding received_from
  received_from-app = elim (Bool-cases (is_no_error k.error)) [
    | inl fine ↦ rw fine refl
    | inr failed ↦ rw failed refl
  ]

-- Transfers are of fewer than 2^32 bytes.
abbrev pub IsShort : Request → Type 0
IsShort (send_tcp p bytes sending) = length bytes < 2 ^ 32
IsShort (send_udp p bytes sending) = length bytes < 2 ^ 32
IsShort (turn n k) = length k.bytes < 2 ^ 32
IsShort _ = Unit {0}

module _ (to_string : Address → Text) where
  -- The packets that a handler that runs is to publish.
  abbrev pub told_by : Handler → Completion → System Node → List (Text × DataPacket)
  told_by h k s = if is_no_error k.error then read_by to_string h k s else []

  -- And those that a request, or a turn, is to publish: only a turn that reads does.
  unfoldable pub told : Request → System Node → List (Text × DataPacket)
  told (turn n k) s = elim (pick n s.modem.handlers) [ none ↦ [] | some (h, rest) ↦ told_by h k s ]
  told _ s = []

  -- Along a path, the newest first.
  unfoldable pub heard : {s t : System Node} → Reach to_string s t → List (Text × DataPacket)
  heard here = []
  heard (next {t} path r h) = told r t ++ heard path

  module _ (k : Completion) (short : length k.bytes < 2 ^ 32) (s : System Node)
      (v : IsSound s.modem) (a : Agrees s.modem s.app) where
    no_packet :
        (ps : List (Text × DataPacket))
        → ps ≡ packets s.app.output
        → ps ≡ (if is_no_error k.error then [] else []) ++ packets s.app.output
    no_packet ps e = elim (Bool-cases (is_no_error k.error)) [
      | inl fine ↦ rw fine e
      | inr failed ↦ rw failed e
    ]

    run_handler_heard :
        (h : Handler)
        → QuietHandler s.modem.tcp_heap s.modem.tcp_count h
        → Cancels h k s.modem.tcp_heap
        → packets (run_handler (callbacks to_string) h k s).1.app.output
          ≡ told_by h k s ++ packets s.app.output
    unfolding run_handler read_by
    run_handler_heard (accept i) q c =
        let (v', b, d) = accepted-IsSound (callbacks to_string) k s v i q c in
        no_packet _ (
          accept-Mute to_string i (accepted i k s) v' k.error d
          ∙ ap (λ n. packets n.output) (accepted-app i k s))
    run_handler_heard (connect i) q c = no_packet _ (connect-Mute to_string i s v k.error q)
    run_handler_heard (receive i) q c = elim (Bool-cases (is_no_error k.error)) [
      | inl fine ↦ rw fine (receive_heard to_string k (fine_error k.error fine) short i s v a q)
      | inr failed ↦
          let (v', b) = received-IsSound (callbacks to_string) k s v i q in
          rw failed (
            failed_rx-Mute to_string i (received i k s) v' k.error _ k.has_peer failed
            ∙ ap (λ n. packets n.output) (received-app i k s))
    ]
    run_handler_heard (receive_from i) q c = elim (Bool-cases (is_no_error k.error)) [
      | inl fine ↦ rw fine (receive_from_heard to_string k (fine_error k.error fine) short i s v a)
      | inr failed ↦
          let v' = received_from-IsSound (callbacks to_string) k s v i in
          rw failed (
            failed_udp_rx-Mute to_string i (received_from i k s) v' k.error _ failed
            ∙ ap (λ n. packets n.output) (received_from-app i k s))
    ]

  queued :
      (s : System Node) (rest : List Handler)
      → Agrees s.modem s.app
      → Agrees (record s.modem { handlers = rest }) s.app
  queued s rest a = record {
    tcp_rx_at = a.tcp_rx_at;
    tcp_tx_at = a.tcp_tx_at;
    udp_rx_at = a.udp_rx_at;
    udp_tx_at = a.udp_tx_at;
  }

  told_queued :
      (h : Handler) (k : Completion) (s : System Node) (rest : List Handler)
      → told_by h k (on_modem (λ d. record d { handlers = rest }) s) ≡ told_by h k s
  unfolding read_by
  told_queued (accept i) k s rest = refl
  told_queued (connect i) k s rest = refl
  told_queued (receive i) k s rest = refl
  told_queued (receive_from i) k s rest = refl

  run_one_heard :
      (n : ℕ) (k : Completion) (s : System Node)
      → length k.bytes < 2 ^ 32
      → Timely n k s
      → IsConsistent s
      → packets (run_one (callbacks to_string) n k s).1.app.output
        ≡ told (turn n k) s ++ packets s.app.output
  unfolding run_one told
  run_one_heard n k s short timely c = elim (Option-cases (pick n s.modem.handlers)) [
    | inl nothing ↦ rw (nothing, run_one, told) refl
    | inr ((h, rest), e) ↦
        let v = c.sound in
        let (q, others) =
          Quiet-pick s.modem.tcp_heap s.modem.tcp_count n s.modem.handlers h rest e v.quiet in
        rw (e, run_one, told)
          (run_handler_heard k short (on_modem (λ d. record d { handlers = rest }) s)
              (queue-IsSound v rest others) (queued s rest c.agrees) h q (timely h rest e)
            ∙ ap (λ ps. ps ++ packets s.app.output) (told_queued h k s rest))
  ]

  serve_heard :
      (r : Request) (s : System Node)
      → Admissible r s
      → IsShort r
      → IsConsistent s
      → packets (serve to_string r s).app.output ≡ told r s ++ packets s.app.output
  unfolding serve told service_set_remote_host service_add_tcp_connection service_add_udp_connection
      service_remove_connection service_remove_all_connections service_tcp_tx callback_udp_tx
  serve_heard (set_host resolved) s h b c = set_remote_host-Mute s resolved
  serve_heard (add_tcp byte p setup) s h b c = add_tcp-Mute s to_string (role_of_byte byte) p setup
  serve_heard (add_udp p setup) s h b c = add_udp-Mute s p setup
  serve_heard (remove byte p) s h b c = remove_connection-Mute s (protocol_of_byte byte) p
  serve_heard remove_all s h b c = remove_all-Mute s
  serve_heard (send_tcp p bytes sending) s h b c =
      tx-Mute to_string bytes _ sending s Protocol.tcp p c.sound
  serve_heard (send_udp p bytes sending) s h b c =
      tx-Mute to_string bytes _ sending s Protocol.udp p c.sound
  serve_heard (turn n k) s h b c = run_one_heard n k s b h c

  -- From a consistent state, along any sequence of service calls, messages and turns of the event
  -- loop, the node publishes exactly the packets that the completed receives call for, each once
  -- and in their order, and no other packet: a receive that ends without an error calls for one
  -- with the bytes that arrived, as many as fit in the buffer, and the address of the peer, on the
  -- rx topic of its port, if its TCP connection object is connected and its socket still has a
  -- peer, or if its UDP connection object is attached to a callback and open at the port of a UDP
  -- connection. Transfers must be of fewer than 2^32 bytes. The operating system must bind the
  -- ports that it is asked for, and must not let an accept succeed once its acceptor is closed.
  pub relays_all :
      {s t : System Node}
      → IsConsistent s
      → (path : Reach to_string s t) → AllOf IsShort path
      → packets t.app.output ≡ heard path ++ packets s.app.output
  unfolding heard
  relays_all c here bs = refl
  relays_all {s} c (next {t} path r h) bs =
      serve_heard r t h bs.1 (Reach-IsConsistent to_string c path)
      ∙ ap (λ ps. told r t ++ ps) (relays_all c path bs.0)
      ∙ sym (append_assoc (told r t) (heard path) (packets s.app.output))
