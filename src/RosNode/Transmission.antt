-- ===== src/RosNode/Transmission.antt =====
-- Data from a service call or a topic to a peer: ros_node::service_tcp_tx and
-- ros_node::callback_udp_tx, driver::tx and the connections' tx.
use ros_driver_modem.Prelude.{
  ℕ, ◌<◌, ◌%◌, ◌^◌, ◌≡◌, refl, false, true, some, List, arith, length, take, take-length,
}
use ros_driver_modem.StdMap.{lookup}
use ros_driver_modem.Types.{Address, ok, SendOutcome}
use ros_driver_modem.Modem.{to_peer, datagram, System, on_modem, log}
use ros_driver_modem.TcpConnection.{is_broken_pipe}
use ros_driver_modem.UdpConnection.{is_no_error}
use ros_driver_modem.Driver.Sending.{tx-tcp, tx-udp}
use ros_driver_modem.Driver.Invariant.{IsSound}
use ros_driver_modem.Topics.{Text}
use ros_driver_modem.RosNode.{Node, callbacks}
use ros_driver_modem.RosNode.Requests.{service_tcp_tx, callback_udp_tx}

-- A vector shorter than 2^32 is handed over whole.
whole_vector : (bytes : List ℕ) → length bytes < 2 ^ 32 → take (length bytes % 2 ^ 32) bytes ≡ bytes
whole_vector bytes h = rw (modulo (length bytes) h) (take-length bytes)
  where
    modulo : (n : ℕ) → n < 2 ^ 32 → n % 2 ^ 32 ≡ n
    modulo n h = omega arith

module _ (to_string : Address → Text) (p i : ℕ) (bytes : List ℕ) (sending : SendOutcome)
    (s : System Node) (short : length bytes < 2 ^ 32) where
  -- In a sound state, the tx service of an active TCP connection, for fewer than 2^32 bytes and
  -- without a broken pipe, hands the whole vector to the socket, of which the bytes that the
  -- socket takes are sent, and answers true; nothing else changes.
  pub tcp_tx_sends :
      IsSound s.modem
      → lookup p s.modem.tcp_active ≡ some i
      → is_broken_pipe sending.error ≡ false
      → service_tcp_tx to_string p bytes sending s
        ≡ (ok true, on_modem (log (to_peer i (take sending.accepted bytes))) s)
  unfolding service_tcp_tx
  tcp_tx_sends v e whole =
      let up = (v.coherent.active_at p i e).0.in_status in
      rw
        (
          tx-tcp (callbacks to_string) bytes (length bytes % 2 ^ 32) sending p i s e up,
          whole,
          whole_vector bytes short,
        )
        refl

  -- A message on the tx topic of a UDP connection, of fewer than 2^32 bytes and without an error
  -- of the send, leaves whole as one datagram to the object's remote endpoint; nothing else
  -- changes.
  pub udp_tx_sends :
      lookup p s.modem.udp_active ≡ some i
      → is_no_error sending.error ≡ true
      → callback_udp_tx to_string p bytes sending s
        ≡ (ok true, on_modem (log (datagram (s.modem.udp_heap i).remote_endpoint bytes)) s)
  unfolding callback_udp_tx
  udp_tx_sends e fine =
      rw
        (
          tx-udp (callbacks to_string) bytes (length bytes % 2 ^ 32) sending p i s e,
          fine,
          whole_vector bytes short,
        )
        refl
