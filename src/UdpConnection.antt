-- ===== src/UdpConnection.antt =====
-- src/udp_connection.cpp. A method takes the number of its object and the system, and returns the
-- new system. What the operating system answers is an argument.
use ros_driver_modem.Prelude.{ℕ, ◌%◌, ◌^◌, Bool, true, false, ◌&&◌, not, List, take, if◌then◌else◌}
use ros_driver_modem.Types.{
  Protocol, ErrorCode, no_error, operation_aborted, system_error, runtime_error, Result, ok, throws,
}
use ros_driver_modem.Modem.{
  UdpConnection, receive_from, datagram, System, Hooks, put_udp, post, log, on_modem,
}

abbrev pub is_no_error : ErrorCode → Bool
is_no_error no_error = true
is_no_error _ = false

abbrev pub is_aborted : ErrorCode → Bool
is_aborted operation_aborted = true
is_aborted _ = false

module _ {N : Type 0} where
  abbrev pub object : ℕ → System N → UdpConnection
  object i s = s.modem.udp_heap i

  abbrev pub write : ℕ → UdpConnection → System N → System N
  write i c s = on_modem (put_udp i c) s

  unfoldable pub async_rx : ℕ → System N → System N
  async_rx i s = on_modem (post (receive_from i)) s

  unfoldable pub connect : ℕ → System N → System N
  connect i s = async_rx i s

  unfoldable pub disconnect : ℕ → System N → System N
  disconnect i s = write i (record (object i s) { socket_open = false }) s

  unfoldable pub attach_rx_callback : ℕ → System N → System N
  attach_rx_callback i s = write i (record (object i s) { has_rx = true }) s

  -- `send_to` throws where the operating system reports an error.
  unfoldable pub tx : ℕ → List ℕ → ℕ → ErrorCode → System N → Result (Unit {0}) × System N
  tx i bytes count error s =
      if is_no_error error
      then (ok tt, on_modem (log (datagram (object i s).remote_endpoint (take count bytes))) s)
      else (throws system_error, s)

module _ {N : Type 0} (hooks : Hooks (System N)) where
  -- The local endpoint of a closed socket cannot be read: asking for it throws.
  unfoldable pub deliver : ℕ → ℕ → System N → Result (Unit {0}) × System N
  deliver i bytes_read s =
      let c = object i s in
      let raised =
        hooks.on_rx Protocol.udp c.bound_port (take bytes_read c.buffer) (bytes_read % 2 ^ 32)
          c.remote_endpoint.address s in
      if c.socket_open then (ok tt, async_rx i raised) else (throws system_error, s)

  unfoldable pub rx_callback : ℕ → ErrorCode → ℕ → System N → Result (Unit {0}) × System N
  rx_callback i error bytes_read s =
      if is_no_error error && (object i s).has_rx
      then deliver i bytes_read s
      else if not (is_aborted error)
      then (throws (runtime_error error), s)
      else (ok tt, s)
