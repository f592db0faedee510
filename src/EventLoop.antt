-- ===== src/EventLoop.antt =====
-- The io_service that runs in the driver's thread (src/driver.cpp, start): it takes a handler
-- that has completed out of the queue and calls the member function that the handler is bound to.
pub mod Status
pub mod Handlers
pub mod Sound
pub mod Keeping
pub mod Failures
pub mod Attending
pub mod Turns
use ros_driver_modem.Prelude.{
  ℕ, zero, suc, Bool, true, Option, none, some, List, [], ◌∷◌, length, take, if◌then◌else◌,
}
use ros_driver_modem.Types.{Endpoint, ErrorCode, Result, ok}
use ros_driver_modem.Modem.{
  Handler, accept, connect, receive, receive_from, System, Client, on_modem,
}
use ros_driver_modem.TcpConnection
use ros_driver_modem.TcpConnection.{fill_buffer}
use ros_driver_modem.UdpConnection
use ros_driver_modem.UdpConnection.{is_no_error}
use ros_driver_modem.Driver.Callbacks.{hooks}

-- How an asynchronous operation ended: the error code, the endpoint that was accepted or that a
-- datagram came from, the bytes that arrived, and whether the operating system still knows the peer
-- of a TCP socket when the handler runs, which it does not if the peer has reset the connection.
pub record Completion : Type 0 where
  pub error : ErrorCode
  pub endpoint : Endpoint
  pub bytes : List ℕ
  pub has_peer : Bool

-- The handler at a position of the queue, and the queue without it.
unfoldable pub pick : ℕ → List Handler → Option (Handler × List Handler)
pick n [] = none
pick zero (h ∷ hs) = some (h, hs)
pick (suc n) (h ∷ hs) = elim (pick n hs) [ none ↦ none | some (k, ks) ↦ some (k, h ∷ ks) ]

module _ {N : Type 0} where
  -- What the operation itself does before its handler is called: a successful accept opens the
  -- peer socket, a successful receive fills the buffer.
  unfoldable pub accepted : ℕ → Completion → System N → System N
  accepted i k s =
      if is_no_error k.error
      then TcpConnection.write i
          (record (TcpConnection.object i s) { socket_open = true; remote_endpoint = k.endpoint }) s
      else s

  unfoldable pub received : ℕ → Completion → System N → System N
  received i k s =
      let c = TcpConnection.object i s in
      if is_no_error k.error
      then TcpConnection.write i (record c { buffer = fill_buffer k.bytes c.buffer_size c.buffer })
          s
      else s

  unfoldable pub received_from : ℕ → Completion → System N → System N
  received_from i k s =
      let c = UdpConnection.object i s in
      if is_no_error k.error
      then UdpConnection.write i
          (record c {
            remote_endpoint = k.endpoint;
            buffer = fill_buffer k.bytes c.buffer_size c.buffer;
          })
          s
      else s

module _ {N : Type 0} (external : Client N) where
  unfoldable pub run_handler : Handler → Completion → System N → Result (Unit {0}) × System N
  run_handler (accept i) k s =
      (ok tt, TcpConnection.accept_callback (hooks external) i k.error (accepted i k s))
  run_handler (connect i) k s = (ok tt, TcpConnection.connect_callback (hooks external) i k.error s)
  run_handler (receive i) k s =
      let count = length (take (TcpConnection.object i s).buffer_size k.bytes) in
      TcpConnection.rx_callback (hooks external) i k.error count k.has_peer (received i k s)
  run_handler (receive_from i) k s =
      let count = length (take (UdpConnection.object i s).buffer_size k.bytes) in
      UdpConnection.rx_callback (hooks external) i k.error count (received_from i k s)

  -- One turn of the loop, on the handler at the given position of the queue.
  unfoldable pub run_one : ℕ → Completion → System N → Result (Unit {0}) × System N
  run_one n k s = elim (pick n s.modem.handlers) [
    | none ↦ (ok tt, s)
    | some (h, rest) ↦ run_handler h k (on_modem (λ d. record d { handlers = rest }) s)
  ]
