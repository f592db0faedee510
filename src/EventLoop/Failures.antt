-- ===== src/EventLoop/Failures.antt =====
-- Receives that end with an error: rx_callback of src/tcp_connection.cpp.
use ros_driver_modem.Prelude.{
  ℕ, ◌≡◌, refl, Bool, true, false, some, List, if◌then◌else◌, length, take,
}
use ros_driver_modem.StdMap.{lookup}
use ros_driver_modem.Types.{
  ErrorCode, no_error, eof, connection_reset, connection_aborted, operation_aborted, broken_pipe,
  other_error, Result, ok, throws, runtime_error, disconnected,
}
use ros_driver_modem.Modem.{Handler, receive, System, Client, on_modem}
use ros_driver_modem.TcpConnection.{object, is_error, receive_result, rx_callback, update_status}
use ros_driver_modem.UdpConnection.{is_no_error, is_aborted}
use ros_driver_modem.Driver.Callbacks.{hooks}
use ros_driver_modem.Driver.Coherent.{not_pending}
use ros_driver_modem.Driver.Invariant.{IsSound}
use ros_driver_modem.Driver.Losing.{without_active, reported, lose_active}
use ros_driver_modem.EventLoop.{Completion, pick, received, run_handler, run_one}

-- The errors by which a peer closes a connection.
unfoldable pub closes : ErrorCode → Bool
closes eof = true
closes connection_reset = true
closes connection_aborted = true
closes _ = false

-- How the handler of a receive ends that did not find its connection closed.
unfoldable pub failure : ErrorCode → Result (Unit {0})
failure error = if is_aborted error then ok tt else throws (runtime_error error)

module _ {N : Type 0} (external : Client N) (k : Completion) (n i : ℕ) (s : System N)
    (rest : List Handler) where
  -- The system without the handler that is run.
  abbrev pub dequeued : System N
  dequeued = on_modem (λ d. record d { handlers = rest }) s

  by_error :
      (error : ErrorCode) (count : ℕ) (has_peer : Bool) (t : System N)
      → is_error error ≡ true
      → receive_result (hooks external) i error count has_peer t ≡ (
          if closes error
          then (ok tt, update_status (hooks external) disconnected true i t)
          else (failure error, t))
  unfolding receive_result closes failure
  by_error no_error count has_peer t e = cc
  by_error eof count has_peer t e = refl
  by_error connection_reset count has_peer t e = refl
  by_error connection_aborted count has_peer t e = refl
  by_error operation_aborted count has_peer t e = refl
  by_error broken_pipe count has_peer t e = refl
  by_error (other_error c) count has_peer t e = refl

  no_success : (error : ErrorCode) → is_error error ≡ true → is_no_error error ≡ false
  no_success no_error e = cc
  no_success eof e = refl
  no_success connection_reset e = refl
  no_success connection_aborted e = refl
  no_success operation_aborted e = refl
  no_success broken_pipe e = refl
  no_success (other_error c) e = refl

  module _ (p : ℕ) (v : IsSound s.modem) where
    -- In a sound state, a receive on an active TCP connection that fails has one of three ends: by
    -- end of file, a reset or an abort the connection leaves the active map, its object is closed
    -- and reset and the external disconnected callback is raised once; when it was cancelled
    -- nothing changes; any other error is thrown. In the last two cases the connection stays
    -- active and the receive is not posted again.
    pub receive_fails :
        is_error k.error ≡ true
        → pick n s.modem.handlers ≡ some (receive i, rest)
        → lookup p s.modem.tcp_active ≡ some i
        → run_one external n k s ≡ (
            if closes k.error
            then (ok tt, reported external i p dequeued (without_active p i dequeued.modem))
            else (failure k.error, dequeued))
    unfolding run_one run_handler rx_callback received
    receive_fails e f g =
        let at = (v.coherent.active_at p i g).0 in
        let lost : update_status (hooks external) disconnected true i dequeued
            ≡ reported external i p dequeued (without_active p i dequeued.modem) =
          lose_active external i p dequeued at (not_pending v.coherent p i g) g in
        rw
          (
            f,
            run_one,
            no_success k.error e,
            v.coherent.open_at p i g,
            by_error k.error (length (take (object i s).buffer_size k.bytes)) k.has_peer dequeued e,
            lost,
          )
          refl
