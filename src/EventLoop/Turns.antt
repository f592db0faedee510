-- ===== src/EventLoop/Turns.antt =====
-- One turn of the event loop (src/driver.cpp, start), against the handlers that the connections wait
-- for.
use ros_driver_modem.Prelude.{
  ℕ, ◌≡◌, refl, subst, sym, true, false, none, some, List, ◌∷◌, ◌++◌, arith, inl, inr, update,
  Option-cases,
}
use ros_driver_modem.Types.{
  ErrorCode, no_error, eof, connection_reset, connection_aborted, operation_aborted, broken_pipe,
  other_error,
}
use ros_driver_modem.Modem.{
  Handler, accept, connect, receive, receive_from, System, Client, on_modem,
}
use ros_driver_modem.TcpConnection.{object, is_error}
use ros_driver_modem.UdpConnection.{is_no_error}
use ros_driver_modem.Driver.Quiet.{QuietHandler, Quiet-pick}
use ros_driver_modem.Driver.Invariant.{IsSound}
use ros_driver_modem.Driver.Connecting.{queue-IsSound}
use ros_driver_modem.Driver.Attended.{AttendedBy, Attended, AttendedBy-writes}
use ros_driver_modem.Driver.Attending.{reordered, has_handler-pick_behind}
use ros_driver_modem.EventLoop.{
  Completion, accepted, received, received_from, pick, run_handler, run_one,
}
use ros_driver_modem.EventLoop.Keeping.{accepted-keeps, received-keeps, received_from-keeps}
use ros_driver_modem.EventLoop.Sound.{
  Cancels, Timely, accepted-IsSound, received-IsSound, received_from-IsSound,
}
use ros_driver_modem.EventLoop.Attending.{
  noted, connect-Attended, accept-Attended, rx-Attended, udp_rx-Attended,
}

succeeds : (e : ErrorCode) → is_error e ≡ false → is_no_error e ≡ true
succeeds no_error f = refl
succeeds eof f = cc
succeeds connection_reset f = cc
succeeds connection_aborted f = cc
succeeds operation_aborted f = cc
succeeds broken_pipe f = cc
succeeds (other_error c) f = cc

-- What completing an operation leaves.
module _ {N : Type 0} (k : Completion) (s : System N) (i : ℕ) where
  accepted_same : (accepted i k s).modem.handlers ≡ s.modem.handlers
  unfolding accepted
  accepted_same = ground arith

  accepted_opens : is_error k.error ≡ false → (object i (accepted i k s)).socket_open ≡ true
  unfolding accepted update
  accepted_opens f = let g = succeeds k.error f in ground arith

  received_same : (received i k s).modem.handlers ≡ s.modem.handlers
  unfolding received
  received_same = ground arith

  received_from_same : (received_from i k s).modem.handlers ≡ s.modem.handlers
  unfolding received_from
  received_from_same = ground arith

-- The handlers noted once a turn has run.
unfoldable pub noted_in : {N : Type 0} → ℕ → Completion → System N → List Handler → List Handler
noted_in n k s ks = elim (pick n s.modem.handlers) [
  | none ↦ ks
  | some (h, rest) ↦ noted h k.error k.has_peer ks
]

module _ {N : Type 0} (external : Client N) (k : Completion) (ks : List Handler) where
  run_handler-Attended :
      (s : System N) (h : Handler)
      → IsSound s.modem
      → QuietHandler s.modem.tcp_heap s.modem.tcp_count h
      → Cancels h k s.modem.tcp_heap
      → AttendedBy (h ∷ (ks ++ s.modem.handlers)) s.modem
      → Attended (noted h k.error k.has_peer ks) (run_handler external h k s).1.modem
  unfolding run_handler
  run_handler-Attended s (accept i) v q c w =
      let (a, _, d) = accepted-IsSound external k s v i q c in
      let kept =
        accepted-keeps external (AttendedBy-writes (accept i ∷ (ks ++ s.modem.handlers))) k s w i in
      accept-Attended external ks i (accepted i k s) a k.error k.has_peer (accepted_opens k s i) d (
        subst (λ hs. AttendedBy (accept i ∷ (ks ++ hs)) (accepted i k s).modem)
          (sym (accepted_same k s i)) kept)
  run_handler-Attended s (connect i) v q c w = connect-Attended external ks i s v k.error q w
  run_handler-Attended s (receive i) v q c w =
      let (a, _) = received-IsSound external k s v i q in
      let kept =
        received-keeps external (AttendedBy-writes (receive i ∷ (ks ++ s.modem.handlers))) k s w
          i in
      rx-Attended external ks i (received i k s) a k.error _ k.has_peer (
        subst (λ hs. AttendedBy (receive i ∷ (ks ++ hs)) (received i k s).modem)
          (sym (received_same k s i)) kept)
  run_handler-Attended s (receive_from i) v q c w =
      let kept =
        received_from-keeps external (AttendedBy-writes (receive_from i ∷ (ks ++ s.modem.handlers)))
          k s w i in
      udp_rx-Attended external ks i (received_from i k s) (received_from-IsSound external k s v i)
        k.error _ k.has_peer
        (subst (λ hs. AttendedBy (receive_from i ∷ (ks ++ hs)) (received_from i k s).modem)
          (sym (received_from_same k s i)) kept)

  pub run_one-Attended :
      (n : ℕ) (s : System N)
      → Timely n k s
      → IsSound s.modem
      → Attended ks s.modem
      → Attended (noted_in n k s ks) (run_one external n k s).1.modem
  unfolding run_one noted_in
  run_one-Attended n s c v w = elim (Option-cases (pick n s.modem.handlers)) [
    | inl nothing ↦ rw (nothing, run_one, noted_in) w
    | inr ((h, rest), e) ↦
        let d = s.modem in
        let (here, others) = Quiet-pick d.tcp_heap d.tcp_count n d.handlers h rest e v.quiet in
        let w' =
          reordered (ks ++ d.handlers) d (h ∷ (ks ++ rest))
            (λ g. has_handler-pick_behind g ks n d.handlers h rest e) w in
        rw (e, run_one, noted_in)
          (run_handler-Attended (on_modem (λ m. record m { handlers = rest }) s) h
            (queue-IsSound v rest others) here (c h rest e)
            ((AttendedBy-writes (h ∷ (ks ++ rest))).queue d rest w'))
  ]
