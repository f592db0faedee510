-- ===== src/Driver/Sending.antt =====
-- driver::tx (src/driver.cpp): its cases, and the invariant of the driver.
use ros_driver_modem.Prelude.{
  ℕ, ◌≡◌, refl, true, false, none, some, List, ◌∷◌, inl, inr, arith, take, Bool-cases, Option-cases,
  if◌then◌else◌,
}
use ros_driver_modem.StdMap.{lookup}
use ros_driver_modem.Types.{
  Protocol, disconnected, connected, ok, throws, undefined, system_error, SendOutcome,
}
use ros_driver_modem.Modem.{to_peer, datagram, System, Client, on_modem, log}
use ros_driver_modem.Driver.Callbacks.{hooks}
use ros_driver_modem.Driver.Adding.{tx}
use ros_driver_modem.Driver.Invariant.{IsSound}
use ros_driver_modem.Driver.Connecting.{log-IsSound}
use ros_driver_modem.TcpConnection
use ros_driver_modem.TcpConnection.{object, update_status, is_broken_pipe}
use ros_driver_modem.UdpConnection
use ros_driver_modem.UdpConnection.{is_no_error}
use ros_driver_modem.EventLoop.Status.{disconnected-IsSound}

module _ {N : Type 0} (external : Client N) (bytes : List ℕ) (n : ℕ) (sending : SendOutcome) where
  -- The system after a TCP connection handed its bytes to the socket.
  abbrev pub handed_over : ℕ → System N → System N
  handed_over i s = on_modem (log (to_peer i (take sending.accepted (take n bytes)))) s

  pub tx-tcp :
      (p i : ℕ) (s : System N)
      → lookup p s.modem.tcp_active ≡ some i
      → (object i s).status ≡ connected
      → tx external Protocol.tcp p bytes n sending s ≡ (
        ok true,
        if is_broken_pipe sending.error
            then update_status (hooks external) disconnected true i (handed_over i s)
            else handed_over i s,
      )
  unfolding tx TcpConnection.tx
  tx-tcp p i s e f = ground arith

  pub tx-tcp_absent :
      (p : ℕ) (s : System N)
      → lookup p s.modem.tcp_active ≡ none
      → tx external Protocol.tcp p bytes n sending s ≡ (ok false, s)
  unfolding tx
  tx-tcp_absent p s e = ground arith

  pub tx-udp :
      (p i : ℕ) (s : System N)
      → lookup p s.modem.udp_active ≡ some i
      → tx external Protocol.udp p bytes n sending s ≡ (
          if is_no_error sending.error
          then (
            ok true,
            on_modem (log (datagram (s.modem.udp_heap i).remote_endpoint (take n bytes))) s,
          )
          else (throws system_error, s))
  unfolding tx UdpConnection.tx
  tx-udp p i s e = elim (Bool-cases (is_no_error sending.error)) [
    | inl fine ↦ ground arith
    | inr failed ↦ ground arith
  ]

  pub tx-udp_absent :
      (p : ℕ) (s : System N)
      → lookup p s.modem.udp_active ≡ none
      → tx external Protocol.udp p bytes n sending s ≡ (ok false, s)
  unfolding tx
  tx-udp_absent p s e = ground arith

  pub tx-unknown :
      (c p : ℕ) (s : System N)
      → tx external (Protocol.unknown c) p bytes n sending s ≡ (undefined, s)
  unfolding tx
  tx-unknown c p s = refl

  -- Transmitting over any protocol and port keeps the state of the driver sound, also when the
  -- socket turns out to be broken and the connection is lost on the way.
  pub tx-IsSound :
      (type : Protocol) (p : ℕ) (s : System N)
      → IsSound s.modem
      → IsSound (tx external type p bytes n sending s).1.modem
  tx-IsSound Protocol.tcp p s v = elim (Option-cases (lookup p s.modem.tcp_active)) [
    | inl e ↦ rw (tx-tcp_absent p s e) v
    | inr (i, e) ↦
        let up = (v.coherent.active_at p i e).0.in_status in
        let sent =
          log-IsSound v (to_peer i (take sending.accepted (take n bytes)) ∷ s.modem.sent) in
        rw (tx-tcp p i s e up) (elim (Bool-cases (is_broken_pipe sending.error)) [
          | inl broken ↦ rw broken (disconnected-IsSound external i (handed_over i s) sent)
          | inr whole ↦ rw whole sent
        ])
  ]
  tx-IsSound Protocol.udp p s v = elim (Option-cases (lookup p s.modem.udp_active)) [
    | inl e ↦ rw (tx-udp_absent p s e) v
    | inr (i, e) ↦ rw (tx-udp p i s e) (elim (Bool-cases (is_no_error sending.error)) [
      | inl fine ↦ rw fine (log-IsSound v _)
      | inr failed ↦ rw failed v
    ])
  ]
  tx-IsSound (Protocol.unknown c) p s v = rw (tx-unknown c p s) v
