-- ===== src/RosNode/Outgoing.antt =====
-- All that leaves through the sockets of a node (src/ros_node.cpp, src/driver.cpp) while it serves
-- requests and its io thread runs.
use ros_driver_modem.Prelude.{
  ℕ, ◌%◌, ◌<◌, ◌^◌, ◌≡◌, refl, ap, sym, ◌∙◌, true, Option, none, some, List, [], ◌∷◌, ◌++◌,
  append_assoc, arith, length, take, take-length, inl, inr, Bool-cases, Option-cases, if◌then◌else◌,
}
use ros_driver_modem.StdMap.{lookup}
use ros_driver_modem.Types.{Address, role_of_byte, protocol_of_byte, SendOutcome}
use ros_driver_modem.Modem.{Sent, to_peer, datagram, Modem, System, on_modem}
use ros_driver_modem.Topics.{Text}
use ros_driver_modem.TcpConnection.{is_broken_pipe}
use ros_driver_modem.UdpConnection.{is_no_error}
use ros_driver_modem.Driver
use ros_driver_modem.Driver.Connecting.{log-IsSound}
use ros_driver_modem.Driver.Invariant.{IsSound}
use ros_driver_modem.Driver.Keeping.{
  Anywhere, KeptByWrites, KeptByRemoval, KeptByUdpRemoval, KeptByConnection, KeptByAddition,
  KeptByUdpAddition,
}
use ros_driver_modem.Driver.Operations.{
  disconnected-keeps, remove_connection-keeps, remove_all-keeps, add_tcp-keeps, add_udp-keeps,
}
use ros_driver_modem.Driver.Sending.{handed_over, tx-tcp, tx-tcp_absent, tx-udp, tx-udp_absent}
use ros_driver_modem.EventLoop.Keeping.{run_one-keeps}
use ros_driver_modem.RosNode.{Node, callbacks, remove_all_topics}
use ros_driver_modem.RosNode.Agreement.{IsConsistent}
use ros_driver_modem.RosNode.Keeping.{AllOf}
use ros_driver_modem.RosNode.Requests.{
  on_app, set_remote_host, add_tcp_connection, add_udp_connection, remove_connection,
  remove_all_connections, service_set_remote_host, service_add_tcp_connection,
  service_add_udp_connection, service_remove_connection, service_remove_all_connections,
  service_tcp_tx, callback_udp_tx,
}
use ros_driver_modem.RosNode.Reachable.{
  Request, set_host, add_tcp, add_udp, remove, remove_all, send_tcp, send_udp, turn, Admissible,
  serve, after_add_tcp-modem, after_add_udp-modem, after_remove-modem, readdress-IsSound, Reach,
  here, next, Reach-IsConsistent,
}
use ros_driver_modem.RosNode.Stream.{IsShort}

-- What a request is to send: the bytes that the socket of the active TCP connection takes, or a
-- datagram to the peer of the UDP connection, if the operating system sends it.
unfoldable pub asked : Request → System Node → List Sent
asked (send_tcp p bytes sending) s = elim (lookup p s.modem.tcp_active) [
  | none ↦ []
  | some i ↦ to_peer i (take sending.accepted bytes) ∷ []
]
asked (send_udp p bytes sending) s = elim (lookup p s.modem.udp_active) [
  | none ↦ []
  | some i ↦
      if is_no_error sending.error
      then datagram (s.modem.udp_heap i).remote_endpoint bytes ∷ []
      else []
]
asked _ s = []

-- Nothing is sent.
abbrev Sends : List Sent → Modem → Type 0
Sends sent d = d.sent ≡ sent

module _ (sent : List Sent) where
  Sends-removal : {Q : ℕ → Type 0} → KeptByRemoval Q (Sends sent)
  Sends-removal = record { drop_pending = λ d p i _ _ _ w. w; drop_active = λ d p i _ _ _ w. w }

  Sends-udp_removal : {Q : ℕ → Type 0} → KeptByUdpRemoval Q (Sends sent)
  Sends-udp_removal = record { drop_udp = λ d p i _ _ _ w. w }

  Sends-writes : KeptByWrites (Sends sent)
  Sends-writes = record {
    tcp_write = λ d i o _ _ w. w;
    udp_write = λ d i o _ w. w;
    queue = λ d ks w. w;
  }

  Sends-connection : KeptByConnection (Sends sent)
  Sends-connection = record { connects = λ d p i _ _ w. w }

  Sends-addition : (p : ℕ) → KeptByAddition p (Sends sent)
  Sends-addition p = record { leaves = λ d o _ _ w. w; adds = λ d o k _ _ _ _ _ w. w }

  Sends-udp_addition : (p : ℕ) → KeptByUdpAddition p (Sends sent)
  Sends-udp_addition p = record { adds_udp = λ d o _ _ w. w }

module _ (to_string : Address → Text) (p : ℕ) (bytes : List ℕ) (sending : SendOutcome)
    (s : System Node) (v : IsSound s.modem) (short : length bytes < 2 ^ 32) where
  whole_vector : take (length bytes % 2 ^ 32) bytes ≡ bytes
  whole_vector =
      let same : length bytes % 2 ^ 32 ≡ length bytes = omega arith in rw same (take-length bytes)

  tcp_sent :
      (service_tcp_tx to_string p bytes sending s).1.modem.sent
      ≡ asked (send_tcp p bytes sending) s ++ s.modem.sent
  unfolding service_tcp_tx asked
  tcp_sent = elim (Option-cases (lookup p s.modem.tcp_active)) [
    | inl e ↦ rw (tx-tcp_absent (callbacks to_string) bytes _ sending p s e, e, asked) refl
    | inr (i, e) ↦
        let up = (v.coherent.active_at p i e).0.in_status in
        let n = length bytes % 2 ^ 32 in
        let t = handed_over (callbacks to_string) bytes n sending i s in
        let logged : t.modem.sent ≡ to_peer i (take sending.accepted bytes) ∷ s.modem.sent =
          rw whole_vector refl in
        rw (tx-tcp (callbacks to_string) bytes n sending p i s e up, e, asked)
          (elim (Bool-cases (is_broken_pipe sending.error)) [
            | inl broken ↦ rw broken (
                disconnected-keeps {Q = Anywhere} (Sends-removal _) (callbacks to_string) i t tt
                  (log-IsSound v _) logged)
            | inr whole ↦ rw whole logged
          ])
  ]

  udp_sent :
      (callback_udp_tx to_string p bytes sending s).1.modem.sent
      ≡ asked (send_udp p bytes sending) s ++ s.modem.sent
  unfolding callback_udp_tx asked
  udp_sent = elim (Option-cases (lookup p s.modem.udp_active)) [
    | inl e ↦ rw (tx-udp_absent (callbacks to_string) bytes _ sending p s e, e, asked) refl
    | inr (i, e) ↦
        rw (tx-udp (callbacks to_string) bytes _ sending p i s e, e, asked, whole_vector)
          (elim (Bool-cases (is_no_error sending.error)) [
            | inl fine ↦ rw fine refl
            | inr failed ↦ rw failed refl
          ])
  ]

module _ (to_string : Address → Text) where
  set_remote_host_sent :
      (resolved : Option Address) (s : System Node)
      → IsSound s.modem
      → (set_remote_host resolved s).1.modem.sent ≡ s.modem.sent
  unfolding set_remote_host Driver.set_remote_host
  set_remote_host_sent none s v = refl
  set_remote_host_sent (some ip) s v =
      remove_all-keeps {Q = Anywhere} (Sends-removal s.modem.sent) (Sends-udp_removal s.modem.sent)
        (λ _. tt) (on_modem (λ d. record d { remote_ip = ip }) s) (readdress-IsSound s.modem ip v)
        refl

  serve_sent :
      (r : Request) (s : System Node)
      → Admissible r s
      → IsShort r
      → IsSound s.modem
      → (serve to_string r s).modem.sent ≡ asked r s ++ s.modem.sent
  unfolding serve asked service_set_remote_host service_add_tcp_connection
      service_add_udp_connection service_remove_connection service_remove_all_connections
      remove_all_connections add_tcp_connection add_udp_connection remove_connection
  serve_sent (set_host resolved) s h b v = set_remote_host_sent resolved s v
  serve_sent (add_tcp byte p setup) s h b v =
      ap (λ d. d.sent) (after_add_tcp-modem true _)
      ∙ add_tcp-keeps p (Sends-addition s.modem.sent p) (callbacks to_string) (role_of_byte byte)
          setup s v refl
  serve_sent (add_udp p setup) s h b v =
      ap (λ d. d.sent) (after_add_udp-modem p true _)
      ∙ add_udp-keeps p (Sends-udp_addition s.modem.sent p) setup s refl
  serve_sent (remove byte p) s h b v =
      ap (λ d. d.sent) (after_remove-modem (protocol_of_byte byte) p _)
      ∙ remove_connection-keeps {Q = Anywhere} (Sends-removal s.modem.sent)
          (Sends-udp_removal s.modem.sent) (protocol_of_byte byte) p s tt v refl
  serve_sent remove_all s h b v =
      remove_all-keeps {Q = Anywhere} (Sends-removal s.modem.sent) (Sends-udp_removal s.modem.sent)
        (λ _. tt) (on_app remove_all_topics s) v refl
  serve_sent (send_tcp p bytes sending) s h b v = tcp_sent to_string p bytes sending s v b
  serve_sent (send_udp p bytes sending) s h b v = udp_sent to_string p bytes sending s v b
  serve_sent (turn n k) s h b v =
      run_one-keeps (callbacks to_string) (Sends-writes s.modem.sent) (Sends-removal s.modem.sent)
        (Sends-connection s.modem.sent) n k s h v refl

  -- What the requests of a path are to send, the newest first.
  unfoldable pub called_for : {s t : System Node} → Reach to_string s t → List Sent
  called_for here = []
  called_for (next {t} path r h) = asked r t ++ called_for path

  -- From a consistent state, along any sequence of service calls, messages and turns of the event
  -- loop, what leaves through the sockets is exactly what the requests call for, in their order,
  -- and nothing else: a call of the tx service of a port calls for the bytes that the socket
  -- takes, by the connection object that the driver has active at that port, and a message for a
  -- UDP port for the whole vector as one datagram to the remote endpoint of the UDP connection
  -- there, unless the operating system reports an error. Transfers must be of fewer than 2^32
  -- bytes. The operating system must bind the ports that it is asked for, and must not let an
  -- accept succeed once its acceptor is closed.
  pub sends_all :
      {s t : System Node}
      → IsConsistent s
      → (path : Reach to_string s t) → AllOf IsShort path
      → t.modem.sent ≡ called_for path ++ s.modem.sent
  unfolding called_for
  sends_all c here bs = refl
  sends_all {s} c (next {t} path r h) bs =
      serve_sent r t h bs.1 (Reach-IsConsistent to_string c path).sound
      ∙ ap (λ ps. asked r t ++ ps) (sends_all c path bs.0)
      ∙ sym (append_assoc (asked r t) (called_for path) s.modem.sent)
