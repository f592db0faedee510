-- ===== src/EventLoop/Keeping.antt =====
-- One turn of the event loop on a property that survives the elementary changes.
use ros_driver_modem.Prelude.{
  Bool, ℕ, ◌≡◌, ◌≢◌, refl, true, List, arith, length, take, drop, inl, inr, ◌&&◌, Bool-cases,
  Option-cases, length-append, length-take_le, length-drop,
}
use ros_driver_modem.Types.{
  ErrorCode, no_error, eof, connection_reset, connection_aborted, operation_aborted, broken_pipe,
  other_error, connected, disconnected,
}
use ros_driver_modem.Modem.{Handler, accept, connect, receive, receive_from, Modem, System, Client}
use ros_driver_modem.TcpConnection.{
  object, is_error, async_accept, async_rx, accept_callback, connect_callback, receive_result,
  rx_callback, update_status, fill_buffer,
}
use ros_driver_modem.TcpConnection.Receiving.{receive_cases}
use ros_driver_modem.UdpConnection
use ros_driver_modem.UdpConnection.{is_no_error}
use ros_driver_modem.Driver.Callbacks.{hooks}
use ros_driver_modem.Driver.Coherent.{IsSized}
use ros_driver_modem.Driver.Quiet.{QuietAt, QuietHandler, Quiet-pick}
use ros_driver_modem.Driver.Invariant.{IsSound}
use ros_driver_modem.Driver.Connecting.{queue-IsSound}
use ros_driver_modem.Driver.Keeping.{Anywhere, KeptByWrites, KeptByRemoval, KeptByConnection}
use ros_driver_modem.Driver.Operations.{disconnected-keeps}
use ros_driver_modem.EventLoop.{
  Completion, accepted, received, received_from, pick, run_handler, run_one,
}
use ros_driver_modem.EventLoop.Status.{connected_cases}
use ros_driver_modem.EventLoop.Handlers.{not_disconnected}
use ros_driver_modem.EventLoop.Sound.{
  Cancels, Timely, accepted-IsSound, received-IsSound, received_from-IsSound,
}

-- What arrives does not change the size of a buffer.
fill_buffer-IsSized :
    (arrived : List ℕ) (size : ℕ) (buffer : List ℕ)
    → IsSized size buffer
    → IsSized size (fill_buffer arrived size buffer)
unfolding fill_buffer
fill_buffer-IsSized arrived size buffer h =
    let filled = take size arrived in
    ground (
      arith,
      length-append filled (drop (length filled) buffer),
      length-take_le size arrived,
      length-drop (length filled) buffer,
    )

module _ {N : Type 0} (external : Client N) {P : Modem → Type 0} (writes : KeptByWrites P) where
  module _ (k : Completion) (s : System N) (w : P s.modem) where
    pub accepted-keeps : (i : ℕ) → P (accepted i k s).modem
    unfolding accepted
    accepted-keeps i = elim (Bool-cases (is_no_error k.error)) [
      | inr failed ↦ rw failed w
      | inl fine ↦ rw fine (
          writes.tcp_write s.modem i _
            (record {
              same_status = refl;
              same_local = refl;
              same_bound = refl;
              same_connected = refl;
              same_disconnected = refl;
              same_rx = refl;
              same_role = refl;
              stays_open = λ _. refl;
            })
            (refl, λ z. z) w)
    ]

    pub received-keeps : (i : ℕ) → P (received i k s).modem
    unfolding received
    received-keeps i = elim (Bool-cases (is_no_error k.error)) [
      | inr failed ↦ rw failed w
      | inl fine ↦ rw fine (
          writes.tcp_write s.modem i _
            (record {
              same_status = refl;
              same_local = refl;
              same_bound = refl;
              same_connected = refl;
              same_disconnected = refl;
              same_rx = refl;
              same_role = refl;
              stays_open = λ o. o;
            })
            (refl, fill_buffer-IsSized k.bytes _ _) w)
    ]

    pub received_from-keeps : (i : ℕ) → P (received_from i k s).modem
    unfolding received_from
    received_from-keeps i = elim (Bool-cases (is_no_error k.error)) [
      | inr failed ↦ rw failed w
      | inl fine ↦ rw fine (writes.udp_write s.modem i _ (refl, fill_buffer-IsSized k.bytes _ _) w)
    ]

  module _ (drops : KeptByRemoval Anywhere P) (connections : KeptByConnection P) where
    module _ (i : ℕ) (s : System N) (v : IsSound s.modem) (w : P s.modem) where
      connected-keeps :
          (object i s).status ≢ disconnected
          → P (async_rx i (update_status (hooks external) connected true i s)).modem
      unfolding async_rx
      connected-keeps ne =
          connected_cases external i s v (λ t. P (async_rx i t).modem) ne (λ _. writes.queue _ _ w)
            (λ _ listed. writes.queue _ _ (connections.connects s.modem _ i v listed w))

      connect-keeps :
          (error : ErrorCode)
          → QuietAt s.modem.tcp_count (object i s) i
          → P (connect_callback (hooks external) i error s).modem
      unfolding connect_callback
      connect-keeps error q = elim (Bool-cases (object i s).socket_open) [
        | inr closed ↦ rw closed w
        | inl open_socket ↦ elim (Bool-cases (is_error error)) [
          | inl failed ↦ rw (open_socket, failed) (disconnected-keeps drops external i s tt v w)
          | inr fine ↦
              rw (open_socket, fine)
                (connected-keeps (not_disconnected external i s v q open_socket))
        ]
      ]

      accept-keeps :
          (error : ErrorCode)
          → ((object i s).socket_open ≡ true → (object i s).status ≢ disconnected)
          → P (accept_callback (hooks external) i error s).modem
      unfolding accept_callback async_accept
      accept-keeps error ne = elim (Bool-cases (object i s).socket_open) [
        | inr closed ↦ rw closed w
        | inl open_socket ↦ elim (Bool-cases (is_error error)) [
          | inl failed ↦ rw (open_socket, failed) (writes.queue _ _ w)
          | inr fine ↦ rw (open_socket, fine) (connected-keeps (ne open_socket))
        ]
      ]

      rx-keeps :
          (error : ErrorCode) (n : ℕ) (has_peer : Bool)
          → P (rx_callback (hooks external) i error n has_peer s).1.modem
      unfolding rx_callback receive_result async_rx
      rx-keeps error n has_peer = elim (Bool-cases (object i s).socket_open) [
        | inr closed ↦ rw closed w
        | inl open_socket ↦ rw open_socket (by_error error)
      ]
        where
          by_error : (e : ErrorCode) → P (receive_result (hooks external) i e n has_peer s).1.modem
          by_error no_error =
              receive_cases (hooks external) i n has_peer s (λ x. P x.1.modem)
                (λ _ _. writes.queue _ _ w) (λ _. writes.queue _ _ w) (λ _ _. w)
          by_error eof = disconnected-keeps drops external i s tt v w
          by_error connection_reset = disconnected-keeps drops external i s tt v w
          by_error connection_aborted = disconnected-keeps drops external i s tt v w
          by_error operation_aborted = w
          by_error broken_pipe = w
          by_error (other_error e) = w

      udp_rx-keeps :
          (error : ErrorCode) (n : ℕ)
          → P (UdpConnection.rx_callback (hooks external) i error n s).1.modem
      unfolding UdpConnection.rx_callback UdpConnection.deliver UdpConnection.async_rx
      udp_rx-keeps error n =
          elim (Bool-cases (is_no_error error && (UdpConnection.object i s).has_rx)) [
            | inr no_data ↦ elim (Bool-cases (UdpConnection.is_aborted error)) [
              | inl aborted ↦ rw (no_data, aborted) w
              | inr other ↦ rw (no_data, other) w
            ]
            | inl arrived ↦ elim (Bool-cases (UdpConnection.object i s).socket_open) [
              | inr closed ↦ rw (arrived, closed) w
              | inl open_socket ↦ rw (arrived, open_socket) (writes.queue _ _ w)
            ]
          ]

    module _ (k : Completion) (s : System N) (v : IsSound s.modem) (w : P s.modem) where
      run_handler-keeps :
          (h : Handler)
          → QuietHandler s.modem.tcp_heap s.modem.tcp_count h
          → Cancels h k s.modem.tcp_heap
          → P (run_handler external h k s).1.modem
      unfolding run_handler
      run_handler-keeps (accept i) q c =
          let (a, b, d) = accepted-IsSound external k s v i q c in
          accept-keeps i (accepted i k s) a (accepted-keeps k s w i) k.error d
      run_handler-keeps (connect i) q c = connect-keeps i s v w k.error q
      run_handler-keeps (receive i) q c =
          let (a, b) = received-IsSound external k s v i q in
          rx-keeps i (received i k s) a (received-keeps k s w i) k.error _ k.has_peer
      run_handler-keeps (receive_from i) q c =
          udp_rx-keeps i (received_from i k s) (received_from-IsSound external k s v i)
            (received_from-keeps k s w i) k.error _

    pub run_one-keeps :
        (n : ℕ) (k : Completion) (s : System N)
        → Timely n k s
        → IsSound s.modem
        → P s.modem
        → P (run_one external n k s).1.modem
    unfolding run_one
    run_one-keeps n k s c v w = elim (Option-cases (pick n s.modem.handlers)) [
      | inl nothing ↦ rw (nothing, run_one) w
      | inr ((h, rest), e) ↦
          let (here, others) =
            Quiet-pick s.modem.tcp_heap s.modem.tcp_count n s.modem.handlers h rest e v.quiet in
          rw (e, run_one)
            (run_handler-keeps k _ (queue-IsSound v rest others) (writes.queue s.modem rest w) h
              here (c h rest e))
    ]
