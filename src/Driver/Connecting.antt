-- ===== src/Driver/Connecting.antt =====
-- driver::callback_tcp_connected (src/driver.cpp) and the writes of the connections to their
-- objects and to the queue, against the invariant of the driver.
use ros_driver_modem.Prelude.{ℕ, ◌≡◌, ◌∙◌, true, some, List, arith, update}
use ros_driver_modem.StdMap.{lookup, insert, erase}
use ros_driver_modem.StdMap.Order.{insert-IsSorted, erase-IsSorted}
use ros_driver_modem.Types.{disconnected, connected, pending}
use ros_driver_modem.Modem.{TcpConnection, Handler, Sent, Modem, System, Client, post}
use ros_driver_modem.TcpConnection.{object, update_status}
use ros_driver_modem.TcpConnection.Signals.{update_status-connected}
use ros_driver_modem.Driver.Callbacks.{activate, hooks, callback_tcp_connected}
use ros_driver_modem.Driver.Coherent.{IsAt, Resembles, activate-Coherent, touch-Coherent}
use ros_driver_modem.Driver.Quiet.{IsClosed, QuietHandler, Quiet, Quiet-post, Quiet-update}
use ros_driver_modem.Driver.Invariant.{IsSound}

-- The driver once the pending connection at `p` is active.
abbrev pub with_active : ℕ → ℕ → Modem → Modem
with_active p i d = record d {
  tcp_active = insert p i d.tcp_active;
  tcp_pending = erase p d.tcp_pending;
  tcp_heap = update d.tcp_heap i (record (d.tcp_heap i) { status = connected });
}

module _ {N : Type 0} (external : Client N) (i p : ℕ) (s : System N) where
  open external use {connected_callback}

  -- When a pending connection object that is bound to its port becomes connected, the driver moves
  -- the port from the pending to the active map and raises the external connected callback once,
  -- for that port and with the state already updated.
  pub connect_pending :
      IsAt pending p (object i s)
      → lookup p s.modem.tcp_pending ≡ some i
      → update_status (hooks external) connected true i s ≡ (
          let d = with_active p i s.modem in
          record { modem = d; app = connected_callback p d s.app })
  unfolding callback_tcp_connected activate
  connect_pending at e =
      update_status-connected (hooks external) i s (ground arith) at.says_connected
      ∙ rw at.bound_to (ground arith)

module _ {d : Modem} (v : IsSound d) where
  pub with_active-IsSound :
      (p i : ℕ)
      → lookup p d.tcp_pending ≡ some i
      → (d.tcp_heap i).socket_open ≡ true
      → IsSound (with_active p i d)
  with_active-IsSound p i e o = record {
    coherent = activate-Coherent v.coherent p i e o;
    udp_coherent = v.udp_coherent;
    quiet = Quiet-update _ _ i _ d.handlers (λ h. cc) v.quiet;
    pending_sorted = erase-IsSorted p d.tcp_pending v.pending_sorted;
    active_sorted = insert-IsSorted p i d.tcp_active v.active_sorted;
    udp_sorted = v.udp_sorted;
  }

  -- A write to an object that leaves alone what the maps say of it.
  pub touch-IsSound :
      (i : ℕ) (o : TcpConnection)
      → Resembles (d.tcp_heap i) o
      → (o.status ≡ disconnected → IsClosed o)
      → IsSound (record d { tcp_heap = update d.tcp_heap i o })
  touch-IsSound i o r f = record {
    coherent = touch-Coherent v.coherent i o r;
    udp_coherent = v.udp_coherent;
    quiet = Quiet-update _ _ i o d.handlers f v.quiet;
    pending_sorted = v.pending_sorted;
    active_sorted = v.active_sorted;
    udp_sorted = v.udp_sorted;
  }

  -- A change of the queue.
  pub queue-IsSound :
      (ks : List Handler) → Quiet d.tcp_heap d.tcp_count ks → IsSound (record d { handlers = ks })
  queue-IsSound ks q = record {
    coherent = v.coherent;
    udp_coherent = v.udp_coherent;
    quiet = q;
    pending_sorted = v.pending_sorted;
    active_sorted = v.active_sorted;
    udp_sorted = v.udp_sorted;
  }

  pub post-IsSound : (k : Handler) → QuietHandler d.tcp_heap d.tcp_count k → IsSound (post k d)
  post-IsSound k q = queue-IsSound _ (Quiet-post d.tcp_heap d.tcp_count d.handlers k v.quiet q)

  -- A packet that is sent.
  pub log-IsSound : (ps : List Sent) → IsSound (record d { sent = ps })
  log-IsSound ps = record {
    coherent = v.coherent;
    udp_coherent = v.udp_coherent;
    quiet = v.quiet;
    pending_sorted = v.pending_sorted;
    active_sorted = v.active_sorted;
    udp_sorted = v.udp_sorted;
  }
