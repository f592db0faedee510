-- ===== src/EventLoop/Handlers.antt =====
-- The callbacks of src/tcp_connection.cpp and src/udp_connection.cpp, against the invariant of the
-- driver.
use ros_driver_modem.Prelude.{Bool, ℕ, ◌≡◌, ◌≢◌, true, inl, inr, arith, ◌&&◌, Bool-cases}
use ros_driver_modem.Types.{
  ErrorCode, no_error, eof, connection_reset, connection_aborted, operation_aborted, broken_pipe,
  other_error, disconnected,
}
use ros_driver_modem.Modem.{accept, receive, receive_from, System, Client}
use ros_driver_modem.TcpConnection.{
  object, is_error, async_accept, async_rx, accept_callback, connect_callback, receive_result,
  rx_callback,
}
use ros_driver_modem.TcpConnection.Receiving.{receive_cases}
use ros_driver_modem.UdpConnection
use ros_driver_modem.UdpConnection.{is_no_error}
use ros_driver_modem.Driver.Callbacks.{hooks}
use ros_driver_modem.Driver.Quiet.{QuietAt}
use ros_driver_modem.Driver.Invariant.{IsSound}
use ros_driver_modem.Driver.Connecting.{post-IsSound}
use ros_driver_modem.EventLoop.Status.{disconnected-IsSound, connected-IsSound}

module _ {N : Type 0} (external : Client N) (i : ℕ) (s : System N) (v : IsSound s.modem) where
  -- A handler of an object with an open socket is not a leftover.
  pub not_disconnected :
      QuietAt s.modem.tcp_count (object i s) i
      → (object i s).socket_open ≡ true
      → (object i s).status ≢ disconnected
  not_disconnected q o e = ground (arith, q.1 e)

  pub connect-IsSound :
      (error : ErrorCode)
      → QuietAt s.modem.tcp_count (object i s) i
      → IsSound (connect_callback (hooks external) i error s).modem
  unfolding connect_callback
  connect-IsSound error q = elim (Bool-cases (object i s).socket_open) [
    | inr closed ↦ rw closed v
    | inl open_socket ↦ elim (Bool-cases (is_error error)) [
      | inl failed ↦ rw (open_socket, failed) (disconnected-IsSound external i s v)
      | inr fine ↦
          rw (open_socket, fine)
            (connected-IsSound external i s v (not_disconnected q open_socket) open_socket q.0)
    ]
  ]

  pub accept-IsSound :
      (error : ErrorCode)
      → QuietAt s.modem.tcp_count (object i s) i
      → ((object i s).socket_open ≡ true → (object i s).status ≢ disconnected)
      → IsSound (accept_callback (hooks external) i error s).modem
  unfolding accept_callback async_accept
  accept-IsSound error q ne = elim (Bool-cases (object i s).socket_open) [
    | inr closed ↦ rw closed v
    | inl open_socket ↦ elim (Bool-cases (is_error error)) [
      | inl failed ↦ rw (open_socket, failed) (post-IsSound v (accept i) q)
      | inr fine ↦
          rw (open_socket, fine) (connected-IsSound external i s v (ne open_socket) open_socket q.0)
    ]
  ]

  pub rx-IsSound :
      (error : ErrorCode) (n : ℕ) (has_peer : Bool)
      → QuietAt s.modem.tcp_count (object i s) i
      → IsSound (rx_callback (hooks external) i error n has_peer s).1.modem
  unfolding rx_callback receive_result async_rx
  rx-IsSound error n has_peer q = elim (Bool-cases (object i s).socket_open) [
    | inr closed ↦ rw closed v
    | inl open_socket ↦ rw open_socket (by_error error)
  ]
    where
      by_error :
          (e : ErrorCode) → IsSound (receive_result (hooks external) i e n has_peer s).1.modem
      by_error no_error =
          receive_cases (hooks external) i n has_peer s (λ x. IsSound x.1.modem)
            (λ _ _. post-IsSound v (receive i) q) (λ _. post-IsSound v (receive i) q) (λ _ _. v)
      by_error eof = disconnected-IsSound external i s v
      by_error connection_reset = disconnected-IsSound external i s v
      by_error connection_aborted = disconnected-IsSound external i s v
      by_error operation_aborted = v
      by_error broken_pipe = v
      by_error (other_error e) = v

  pub udp_rx-IsSound :
      (error : ErrorCode) (n : ℕ)
      → IsSound (UdpConnection.rx_callback (hooks external) i error n s).1.modem
  unfolding UdpConnection.rx_callback UdpConnection.deliver UdpConnection.async_rx
  udp_rx-IsSound error n =
      elim (Bool-cases (is_no_error error && (UdpConnection.object i s).has_rx)) [
        | inr no_data ↦ elim (Bool-cases (UdpConnection.is_aborted error)) [
          | inl aborted ↦ rw (no_data, aborted) v
          | inr other ↦ rw (no_data, other) v
        ]
        | inl arrived ↦ elim (Bool-cases (UdpConnection.object i s).socket_open) [
          | inr closed ↦ rw (arrived, closed) v
          | inl open_socket ↦ rw (arrived, open_socket) (post-IsSound v (receive_from i) tt)
        ]
      ]
