-- ===== src/RosNode/Hearing.antt =====
-- What the io thread reads from the sockets (src/tcp_connection.cpp, src/udp_connection.cpp) against
-- what the node (src/ros_node.cpp) publishes.
use ros_driver_modem.Prelude.{
  Bool, ℕ, ◌≡◌, ◌≢◌, refl, true, false, List, inl, inr, Bool-cases, Option-cases,
}
use ros_driver_modem.StdMap.{lookup}
use ros_driver_modem.Types.{
  Address, Protocol, SendOutcome, disconnected, ErrorCode, no_error, eof, connection_reset,
  connection_aborted, operation_aborted, broken_pipe, other_error,
}
use ros_driver_modem.Modem.{System}
use ros_driver_modem.Topics.{Text}
use ros_driver_modem.TcpConnection.{
  object, update_status, is_error, is_broken_pipe, async_accept, async_rx, accept_callback,
  connect_callback, receive_result, rx_callback,
}
use ros_driver_modem.UdpConnection
use ros_driver_modem.UdpConnection.{is_no_error}
use ros_driver_modem.Driver.Adding
use ros_driver_modem.Driver.Callbacks.{hooks}
use ros_driver_modem.Driver.Connecting.{log-IsSound}
use ros_driver_modem.Driver.Invariant.{IsSound}
use ros_driver_modem.Driver.Quiet.{QuietAt}
use ros_driver_modem.Driver.Sending.{
  handed_over, tx-tcp, tx-tcp_absent, tx-udp, tx-udp_absent, tx-unknown,
}
use ros_driver_modem.EventLoop.Handlers.{not_disconnected}
use ros_driver_modem.EventLoop.Status.{disconnected_cases, connected_cases}
use ros_driver_modem.RosNode.{Node, callbacks}
use ros_driver_modem.RosNode.Packets.{Mute, connected-Mute, disconnected-Mute}

module _ (to_string : Address → Text) where
  -- An object that is found disconnected publishes no packet.
  found_disconnected-Mute :
      (i : ℕ) (s : System Node)
      → IsSound s.modem
      → Mute s.app (update_status (hooks (callbacks to_string)) disconnected true i s).app
  found_disconnected-Mute i s v =
      disconnected_cases (callbacks to_string) i s v (λ t. Mute s.app t.app) (λ _. refl)
        (λ _ _. disconnected-Mute _ _ s.app) (λ _ _. disconnected-Mute _ _ s.app)

  pub tx-Mute :
      (bytes : List ℕ) (n : ℕ) (sending : SendOutcome) (s : System Node) (type : Protocol) (p : ℕ)
      → IsSound s.modem
      → Mute s.app (Adding.tx (callbacks to_string) type p bytes n sending s).1.app
  tx-Mute bytes n sending s Protocol.tcp p v = elim (Option-cases (lookup p s.modem.tcp_active)) [
    | inl e ↦ rw (tx-tcp_absent (callbacks to_string) bytes n sending p s e) refl
    | inr (i, e) ↦
        let up = (v.coherent.active_at p i e).0.in_status in
        let sent = handed_over (callbacks to_string) bytes n sending i s in
        rw (tx-tcp (callbacks to_string) bytes n sending p i s e up)
          (elim (Bool-cases (is_broken_pipe sending.error)) [
            | inl broken ↦ rw broken (found_disconnected-Mute i sent (log-IsSound v _))
            | inr whole ↦ rw whole refl
          ])
  ]
  tx-Mute bytes n sending s Protocol.udp p v = elim (Option-cases (lookup p s.modem.udp_active)) [
    | inl e ↦ rw (tx-udp_absent (callbacks to_string) bytes n sending p s e) refl
    | inr (i, e) ↦
        rw (tx-udp (callbacks to_string) bytes n sending p i s e)
          (elim (Bool-cases (is_no_error sending.error)) [
            | inl fine ↦ rw fine refl
            | inr failed ↦ rw failed refl
          ])
  ]
  tx-Mute bytes n sending s (Protocol.unknown c) p v =
      rw (tx-unknown (callbacks to_string) bytes n sending c p s) refl

  module _ (i : ℕ) (s : System Node) (v : IsSound s.modem) where
    pub connect-Mute :
        (error : ErrorCode)
        → QuietAt s.modem.tcp_count (object i s) i
        → Mute s.app (connect_callback (hooks (callbacks to_string)) i error s).app
    unfolding connect_callback async_rx
    connect-Mute error q = elim (Bool-cases (object i s).socket_open) [
      | inr closed ↦ rw closed refl
      | inl open_socket ↦ elim (Bool-cases (is_error error)) [
        | inl failed ↦ rw (open_socket, failed) (found_disconnected-Mute i s v)
        | inr fine ↦
            let ne = not_disconnected (callbacks to_string) i s v q open_socket in
            rw (open_socket, fine)
              (connected_cases (callbacks to_string) i s v (λ t. Mute s.app t.app) ne (λ _. refl)
                (λ _ _. connected-Mute _ _ s.app))
      ]
    ]

    pub accept-Mute :
        (error : ErrorCode)
        → ((object i s).socket_open ≡ true → (object i s).status ≢ disconnected)
        → Mute s.app (accept_callback (hooks (callbacks to_string)) i error s).app
    unfolding accept_callback async_accept async_rx
    accept-Mute error ne = elim (Bool-cases (object i s).socket_open) [
      | inr closed ↦ rw closed refl
      | inl open_socket ↦ elim (Bool-cases (is_error error)) [
        | inl failed ↦ rw (open_socket, failed) refl
        | inr fine ↦
            rw (open_socket, fine)
              (connected_cases (callbacks to_string) i s v (λ t. Mute s.app t.app) (ne open_socket)
                (λ _. refl) (λ _ _. connected-Mute _ _ s.app))
      ]
    ]

    -- A receive that failed.
    pub failed_rx-Mute :
        (error : ErrorCode) (n : ℕ) (has_peer : Bool)
        → is_no_error error ≡ false
        → Mute s.app (rx_callback (hooks (callbacks to_string)) i error n has_peer s).1.app
    unfolding rx_callback receive_result
    failed_rx-Mute error n has_peer f = elim (Bool-cases (object i s).socket_open) [
      | inr closed ↦ rw closed refl
      | inl open_socket ↦ rw open_socket (by_error error f)
    ]
      where
        by_error :
            (e : ErrorCode)
            → is_no_error e ≡ false
            → Mute s.app (receive_result (hooks (callbacks to_string)) i e n has_peer s).1.app
        by_error no_error f = cc
        by_error eof f = found_disconnected-Mute i s v
        by_error connection_reset f = found_disconnected-Mute i s v
        by_error connection_aborted f = found_disconnected-Mute i s v
        by_error operation_aborted f = refl
        by_error broken_pipe f = refl
        by_error (other_error e) f = refl

    pub failed_udp_rx-Mute :
        (error : ErrorCode) (n : ℕ)
        → is_no_error error ≡ false
        → Mute s.app (UdpConnection.rx_callback (hooks (callbacks to_string)) i error n s).1.app
    unfolding UdpConnection.rx_callback
    failed_udp_rx-Mute error n f = elim (Bool-cases (UdpConnection.is_aborted error)) [
      | inl aborted ↦ rw (f, aborted) refl
      | inr other ↦ rw (f, other) refl
    ]
