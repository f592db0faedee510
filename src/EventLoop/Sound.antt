-- ===== src/EventLoop/Sound.antt =====
-- What completes an operation, and one turn of the event loop, against the invariant of the driver.
use ros_driver_modem.Prelude.{
  ℕ, ◌≡◌, ◌≢◌, refl, true, some, List, inl, inr, arith, update, Bool-cases, Option-cases,
}
use ros_driver_modem.Types.{no_error, disconnected}
use ros_driver_modem.Modem.{
  TcpConnection, UdpConnection, Handler, accept, connect, receive, receive_from, System, Client,
}
use ros_driver_modem.TcpConnection.{object}
use ros_driver_modem.UdpConnection
use ros_driver_modem.UdpConnection.{is_no_error}
use ros_driver_modem.TcpConnection.Closing.{update_self}
use ros_driver_modem.Driver.Quiet.{QuietAt, QuietHandler, Quiet-pick}
use ros_driver_modem.Driver.Invariant.{IsSound, UdpCoherent}
use ros_driver_modem.Driver.Connecting.{touch-IsSound, queue-IsSound}
use ros_driver_modem.EventLoop.{
  Completion, accepted, received, received_from, pick, run_handler, run_one,
}
use ros_driver_modem.EventLoop.Handlers.{
  not_disconnected, connect-IsSound, accept-IsSound, rx-IsSound, udp_rx-IsSound,
}

-- An accept succeeds only while the acceptor is open: closing it cancels the accept.
abbrev pub Cancels : Handler → Completion → (ℕ → TcpConnection) → Type 0
Cancels (accept i) k h = k.error ≡ no_error → (h i).acceptor_open ≡ true
Cancels _ k h = Unit {0}

module _ {N : Type 0} (external : Client N) (k : Completion) (s : System N)
    (v : IsSound s.modem) where
  -- The peer socket of an accept, opened on an object that is not disconnected.
  pub accepted-IsSound :
      (i : ℕ)
      → QuietAt s.modem.tcp_count (object i s) i
      → Cancels (accept i) k s.modem.tcp_heap
      → IsSound (accepted i k s).modem
        × QuietAt (accepted i k s).modem.tcp_count (object i (accepted i k s)) i
        × ((object i (accepted i k s)).socket_open ≡ true
            → (object i (accepted i k s)).status ≢ disconnected)
  unfolding accepted
  accepted-IsSound i q c = elim (Bool-cases (is_no_error k.error)) [
    | inr failed ↦ rw failed (v, q, not_disconnected external i s v q)
    | inl fine ↦
        let here : QuietAt s.modem.tcp_count (object i s) i = q in
        let up : (object i s).acceptor_open ≡ true = c (ground arith) in
        let alive : (object i s).status ≢ disconnected = λ e. ground (arith, q.1 e) in
        rw (fine, update_self)
          (
            touch-IsSound v i _
                (record {
                  same_status = refl;
                  same_local = refl;
                  same_bound = refl;
                  same_connected = refl;
                  same_disconnected = refl;
                  same_rx = refl;
                  same_role = refl;
                  stays_open = λ _. refl;
                })
                (λ e. absurd (alive e)),
            (q.0, λ e. absurd (alive e)),
            λ _. alive,
          )
  ]

  pub received-IsSound :
      (i : ℕ)
      → QuietAt s.modem.tcp_count (object i s) i
      → IsSound (received i k s).modem
        × QuietAt (received i k s).modem.tcp_count (object i (received i k s)) i
  unfolding received
  received-IsSound i q = elim (Bool-cases (is_no_error k.error)) [
    | inr failed ↦ rw failed (v, q)
    | inl fine ↦
        rw (fine, update_self)
          (
            touch-IsSound v i _
                (record {
                  same_status = refl;
                  same_local = refl;
                  same_bound = refl;
                  same_connected = refl;
                  same_disconnected = refl;
                  same_rx = refl;
                  same_role = refl;
                  stays_open = λ o. o;
                })
                q.1,
            q,
          )
  ]

  -- A datagram writes to its UDP object, whose socket, port and callback stay.
  received_from-UdpCoherent :
      (i : ℕ) (o : UdpConnection)
      → o.socket_open ≡ (UdpConnection.object i s).socket_open
      → o.bound_port ≡ (UdpConnection.object i s).bound_port
      → o.has_rx ≡ (UdpConnection.object i s).has_rx
      → UdpCoherent (update s.modem.udp_heap i o) s.modem.udp_count s.modem.udp_active
  unfolding update
  received_from-UdpCoherent i o e f g = record {
    open_at = λ q j h. ground (arith, v.udp_coherent.open_at q j h);
  }

  pub received_from-IsSound : (i : ℕ) → IsSound (received_from i k s).modem
  unfolding received_from
  received_from-IsSound i = elim (Bool-cases (is_no_error k.error)) [
    | inr failed ↦ rw failed v
    | inl fine ↦ rw fine (record {
      coherent = v.coherent;
      udp_coherent = received_from-UdpCoherent i _ refl refl refl;
      quiet = v.quiet;
      pending_sorted = v.pending_sorted;
      active_sorted = v.active_sorted;
      udp_sorted = v.udp_sorted;
    })
  ]

  pub run_handler-IsSound :
      (h : Handler)
      → QuietHandler s.modem.tcp_heap s.modem.tcp_count h
      → Cancels h k s.modem.tcp_heap
      → IsSound (run_handler external h k s).1.modem
  unfolding run_handler
  run_handler-IsSound (accept i) q c =
      let (a, b, d) = accepted-IsSound i q c in
      accept-IsSound external i (accepted i k s) a k.error b d
  run_handler-IsSound (connect i) q c = connect-IsSound external i s v k.error q
  run_handler-IsSound (receive i) q c =
      let (a, b) = received-IsSound i q in
      rx-IsSound external i (received i k s) a k.error _ k.has_peer b
  run_handler-IsSound (receive_from i) q c =
      udp_rx-IsSound external i (received_from i k s) (received_from-IsSound i) k.error _

-- What holds of the handler that is run, where there is one, before it is run.
abbrev pub Timely : {N : Type 0} → ℕ → Completion → System N → Type 0
Timely n k s =
    (h : Handler) (rest : List Handler)
    → pick n s.modem.handlers ≡ some (h, rest)
    → Cancels h k s.modem.tcp_heap

-- One turn of the event loop keeps the state of the driver sound, whichever handler it runs and
-- however the operation ended, provided that an accept succeeds only while its acceptor is open:
-- each entry of a map is an object at that port in the map's status, each pending or connected
-- object is an entry, no port is both pending and active, the maps are in order, and leftover
-- handlers find closed sockets.
pub run_one-IsSound :
    {N : Type 0} (external : Client N) (n : ℕ) (k : Completion) (s : System N)
    → Timely n k s
    → IsSound s.modem
    → IsSound (run_one external n k s).1.modem
unfolding run_one
run_one-IsSound external n k s c v = elim (Option-cases (pick n s.modem.handlers)) [
  | inl nothing ↦ rw (nothing, run_one) v
  | inr ((h, rest), e) ↦
      let (here, others) =
        Quiet-pick s.modem.tcp_heap s.modem.tcp_count n s.modem.handlers h rest e v.quiet in
      rw (e, run_one)
        (run_handler-IsSound external k _ (queue-IsSound v rest others) h here (c h rest e))
]
