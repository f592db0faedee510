-- ===== src/EventLoop/Attending.antt =====
-- The callbacks of src/tcp_connection.cpp and src/udp_connection.cpp, against the handlers that the
-- connections wait for.
use ros_driver_modem.Prelude.{
  ℕ, ◌≡◌, ◌≢◌, Bool, true, false, not, List, ◌∷◌, ◌++◌, arith, inl, inr, update, Bool-cases,
  if◌then◌else◌,
}
use ros_driver_modem.Types.{
  ErrorCode, no_error, eof, connection_reset, connection_aborted, operation_aborted, broken_pipe,
  other_error, connected, disconnected,
}
use ros_driver_modem.Modem.{Handler, accept, connect, receive, receive_from, Modem, System, Client}
use ros_driver_modem.TcpConnection.{
  object, is_error, async_accept, async_rx, accept_callback, connect_callback, receive_result,
  rx_callback, update_status,
}
use ros_driver_modem.TcpConnection.Receiving.{receive_cases}
use ros_driver_modem.UdpConnection
use ros_driver_modem.Driver.Callbacks.{hooks}
use ros_driver_modem.Driver.Quiet.{QuietAt}
use ros_driver_modem.Driver.Invariant.{IsSound}
use ros_driver_modem.Driver.Removing.{without_pending-IsSound, without_active-IsSound}
use ros_driver_modem.Driver.Connecting.{with_active, with_active-IsSound}
use ros_driver_modem.Driver.Attended.{AttendedBy, Attended, AttendedBy-removal}
use ros_driver_modem.Driver.Attending.{
  Spare, unattend, attend_more, with_active-AttendedBy, posted, reposted, free_of_accept,
  free_of_connect, free_of_receive,
}
use ros_driver_modem.EventLoop.Failures.{closes}
use ros_driver_modem.EventLoop.Status.{disconnected_cases, connected_cases}
use ros_driver_modem.EventLoop.Handlers.{not_disconnected}

-- The operation of a handler ended so that its object does not start the next one: an accept or the
-- receive of a datagram with an error, a receive with an error by which no peer closes a connection,
-- or from a peer that is gone.
abbrev pub ends_badly : Handler → ErrorCode → Bool → Bool
ends_badly (accept i) e has_peer = is_error e
ends_badly (connect i) e has_peer = false
ends_badly (receive i) e has_peer = if is_error e then not (closes e) else not has_peer
ends_badly (receive_from i) e has_peer = is_error e

-- The handlers of such operations are taken note of.
abbrev pub noted : Handler → ErrorCode → Bool → List Handler → List Handler
noted h e has_peer ks = if ends_badly h e has_peer then h ∷ ks else ks

module _ {N : Type 0} (external : Client N) (ks : List Handler) (i : ℕ) (s : System N)
    (v : IsSound s.modem) where
  -- A handler that an object needs only while it is pending or connected.
  lost-Attended :
      (h : Handler)
      → ((d : Modem) → IsSound d → (d.tcp_heap i).status ≡ disconnected → Spare h d)
      → AttendedBy (h ∷ (ks ++ s.modem.handlers)) s.modem
      → Attended ks (update_status (hooks external) disconnected true i s).modem
  unfolding update
  lost-Attended h free w =
      let hs = h ∷ (ks ++ s.modem.handlers) in
      let p = (object i s).local_endpoint.port in
      disconnected_cases external i s v (λ t. Attended ks t.modem)
        (λ e. unattend _ _ h (free s.modem v e) w)
        (λ _ e.
          unattend _ _ h (free _ (without_active-IsSound v p i e) (ground arith))
            ((AttendedBy-removal hs).drop_active s.modem p i tt v e w))
        (λ _ e.
          unattend _ _ h (free _ (without_pending-IsSound v p i e) (ground arith))
            ((AttendedBy-removal hs).drop_pending s.modem p i tt v e w))

  connected-Attended :
      (h : Handler)
      → ((d : Modem) → IsSound d → (d.tcp_heap i).status ≡ connected → Spare h d)
      → (object i s).status ≢ disconnected
      → (object i s).socket_open ≡ true
      → AttendedBy (h ∷ (ks ++ s.modem.handlers)) s.modem
      → Attended ks (async_rx i (update_status (hooks external) connected true i s)).modem
  unfolding update async_rx
  connected-Attended h free ne o w =
      let p = (object i s).local_endpoint.port in
      connected_cases external i s v (λ t. Attended ks (async_rx i t).modem) ne
        (λ e.
          posted ks (receive i) s.modem
            (attend_more _ _ (receive i) (unattend _ _ h (free s.modem v e) w)))
        (λ _ e. posted ks (receive i) (with_active p i s.modem) (
          unattend _ _ h (free _ (with_active-IsSound v p i e o) (ground arith))
            (with_active-AttendedBy (h ∷ (ks ++ s.modem.handlers)) s.modem p i v e w)))

  pub connect-Attended :
      (error : ErrorCode)
      → QuietAt s.modem.tcp_count (object i s) i
      → AttendedBy (connect i ∷ (ks ++ s.modem.handlers)) s.modem
      → Attended ks (connect_callback (hooks external) i error s).modem
  unfolding connect_callback
  connect-Attended error q w = elim (Bool-cases (object i s).socket_open) [
    | inr closed ↦ rw closed (unattend _ _ (connect i) (λ p e. closed) w)
    | inl open_socket ↦ elim (Bool-cases (is_error error)) [
      | inl failed ↦
          rw (open_socket, failed)
            (lost-Attended (connect i) (λ d u e. free_of_connect d u i (λ f. cc)) w)
      | inr fine ↦
          rw (open_socket, fine)
            (connected-Attended (connect i) (λ d u e. free_of_connect d u i (λ f. cc))
              (not_disconnected external i s v q open_socket) open_socket w)
    ]
  ]

  pub accept-Attended :
      (error : ErrorCode) (has_peer : Bool)
      → (is_error error ≡ false → (object i s).socket_open ≡ true)
      → ((object i s).socket_open ≡ true → (object i s).status ≢ disconnected)
      → AttendedBy (accept i ∷ (ks ++ s.modem.handlers)) s.modem
      → Attended
          (noted (accept i) error has_peer ks)
          (accept_callback (hooks external) i error s).modem
  unfolding accept_callback async_accept
  accept-Attended error has_peer opened ne w = elim (Bool-cases (object i s).socket_open) [
    | inr closed ↦ elim (Bool-cases (is_error error)) [
      | inl failed ↦ rw (closed, failed) w
      | inr fine ↦ let o = opened fine in cc
    ]
    | inl open_socket ↦ elim (Bool-cases (is_error error)) [
      | inl failed ↦
          rw (open_socket, failed)
            (posted (accept i ∷ ks) (accept i) s.modem (attend_more _ _ (accept i) w))
      | inr fine ↦
          rw (open_socket, fine)
            (connected-Attended (accept i) (λ d u e. free_of_accept d u i (λ f. cc))
              (ne open_socket) open_socket w)
    ]
  ]

  pub rx-Attended :
      (error : ErrorCode) (n : ℕ) (has_peer : Bool)
      → AttendedBy (receive i ∷ (ks ++ s.modem.handlers)) s.modem
      → Attended
          (noted (receive i) error has_peer ks)
          (rx_callback (hooks external) i error n has_peer s).1.modem
  unfolding rx_callback receive_result async_rx closes
  rx-Attended error n has_peer w = elim (Bool-cases (object i s).socket_open) [
    | inr closed ↦ rw closed (whatever error has_peer closed)
    | inl open_socket ↦ rw open_socket (by_error error)
  ]
    where
      lost : Attended ks (update_status (hooks external) disconnected true i s).modem
      lost = lost-Attended (receive i) (λ d u e. free_of_receive d u i (λ f. cc)) w

      whatever :
          (e : ErrorCode) (peer : Bool)
          → (object i s).socket_open ≡ false
          → Attended (noted (receive i) e peer ks) s.modem
      whatever e peer closed = elim (Bool-cases (ends_badly (receive i) e peer)) [
        | inl bad ↦ rw bad w
        | inr good ↦
            rw good (unattend _ _ (receive i) (λ p f. let o = v.coherent.open_at p i f in cc) w)
      ]

      delivered :
          (peer : Bool)
          → Attended
              (if not peer then receive i ∷ ks else ks)
              (receive_result (hooks external) i no_error n peer s).1.modem
      delivered true =
          receive_cases (hooks external) i n true s (λ x. Attended ks x.1.modem)
            (λ _ _. reposted ks (receive i) s.modem w) (λ _. reposted ks (receive i) s.modem w)
            (λ _ e. cc)
      delivered false =
          receive_cases (hooks external) i n false s (λ x. Attended (receive i ∷ ks) x.1.modem)
            (λ _ e. cc)
            (λ _. posted (receive i ∷ ks) (receive i) s.modem (attend_more _ _ (receive i) w))
            (λ _ _. w)

      by_error :
          (e : ErrorCode)
          → Attended
              (noted (receive i) e has_peer ks)
              (receive_result (hooks external) i e n has_peer s).1.modem
      by_error no_error = delivered has_peer
      by_error eof = lost
      by_error connection_reset = lost
      by_error connection_aborted = lost
      by_error operation_aborted = w
      by_error broken_pipe = w
      by_error (other_error e) = w

  pub udp_rx-Attended :
      (error : ErrorCode) (n : ℕ) (has_peer : Bool)
      → AttendedBy (receive_from i ∷ (ks ++ s.modem.handlers)) s.modem
      → Attended
          (noted (receive_from i) error has_peer ks)
          (UdpConnection.rx_callback (hooks external) i error n s).1.modem
  unfolding UdpConnection.rx_callback UdpConnection.deliver UdpConnection.async_rx
  udp_rx-Attended error n has_peer w = by_error error
    where
      dropped : Spare (receive_from i) s.modem → Attended ks s.modem
      dropped free = unattend _ _ (receive_from i) free w

      by_error :
          (e : ErrorCode)
          → Attended
              (noted (receive_from i) e has_peer ks)
              (UdpConnection.rx_callback (hooks external) i e n s).1.modem
      by_error no_error = elim (Bool-cases (UdpConnection.object i s).has_rx) [
        | inr detached ↦
            rw detached (dropped (λ p e. let u = v.udp_coherent.open_at p i e in ground arith))
        | inl attached ↦ elim (Bool-cases (UdpConnection.object i s).socket_open) [
          | inr closed ↦
              rw (attached, closed)
                (dropped (λ p e. let u = v.udp_coherent.open_at p i e in ground arith))
          | inl open_socket ↦ rw (attached, open_socket) (reposted ks (receive_from i) s.modem w)
        ]
      ]
      by_error eof = w
      by_error connection_reset = w
      by_error connection_aborted = w
      by_error operation_aborted = w
      by_error broken_pipe = w
      by_error (other_error c) = w
