-- ===== src/Driver/Losing.antt =====
-- driver::remove_connection and driver::callback_tcp_disconnected (src/driver.cpp) for TCP, in
-- closed form.
use ros_driver_modem.Prelude.{ℕ, ◌≡◌, ◌∙◌, true, none, some, arith, update}
use ros_driver_modem.StdMap.{lookup, erase}
use ros_driver_modem.Types.{unassigned, disconnected, connected, pending}
use ros_driver_modem.Modem.{Modem, System, Client, on_modem}
use ros_driver_modem.TcpConnection.{object, write, update_status}
use ros_driver_modem.TcpConnection.Signals.{update_status-disconnected}
use ros_driver_modem.Driver.Coherent.{IsAt}
use ros_driver_modem.TcpConnection.Closing.{shut, disconnect_lem, update_self, update-update}
use ros_driver_modem.Driver.{remove_tcp, remove_connection}
use ros_driver_modem.Driver.Callbacks.{hooks, callback_tcp_disconnected}

-- The driver without a pending, or without an active, connection, whose object is shut.
abbrev pub without_pending : ℕ → ℕ → Modem → Modem
without_pending p i d = record d {
  tcp_pending = erase p d.tcp_pending;
  tcp_heap = update d.tcp_heap i (shut (d.tcp_heap i));
}

abbrev pub without_active : ℕ → ℕ → Modem → Modem
without_active p i d = record d {
  tcp_active = erase p d.tcp_active;
  tcp_heap = update d.tcp_heap i (shut (d.tcp_heap i));
}

module _ {N : Type 0} (p : ℕ) (s : System N) where
  pub remove_tcp-pending :
      (i : ℕ)
      → lookup p s.modem.tcp_pending ≡ some i
      → remove_tcp p s ≡ on_modem (without_pending p i) s
  unfolding remove_tcp
  remove_tcp-pending i e = ground (arith, disconnect_lem i s)

  pub remove_tcp-active :
      (i : ℕ)
      → lookup p s.modem.tcp_pending ≡ none
      → lookup p s.modem.tcp_active ≡ some i
      → remove_tcp p s ≡ on_modem (without_active p i) s
  unfolding remove_tcp
  remove_tcp-active i e f = ground (arith, disconnect_lem i s)

  pub remove_tcp-absent :
      lookup p s.modem.tcp_pending ≡ none → lookup p s.modem.tcp_active ≡ none → remove_tcp p s ≡ s
  unfolding remove_tcp
  remove_tcp-absent e f = ground arith

module _ {N : Type 0} (external : Client N) (i p : ℕ) (s : System N) where
  open external use {disconnected_callback}

  -- After `d`, the external disconnected callback for the port.
  abbrev pub reported : Modem → System N
  reported d = record { modem = d; app = disconnected_callback p d s.app }

  -- The object as update_status leaves it before it calls back.
  abbrev lowered : System N
  lowered = write i (record (object i s) { status = disconnected; role = unassigned }) s

  -- When a connection object that is active at a port is found disconnected, the driver removes
  -- the port from the active map, closes and resets the object, and raises the external
  -- disconnected callback once, for that port and with the state already updated.
  pub lose_active :
      IsAt connected p (object i s)
      → lookup p s.modem.tcp_pending ≡ none
      → lookup p s.modem.tcp_active ≡ some i
      → update_status (hooks external) disconnected true i s ≡ reported (without_active p i s.modem)
  unfolding callback_tcp_disconnected remove_connection
  lose_active at e f =
      update_status-disconnected (hooks external) i s (ground arith) at.says_disconnected
      ∙ rw (at.at_port, remove_tcp-active p lowered i e f)
          (simp (update_self, update-update) (ground arith))

  -- When a connection object that is pending at a port fails, the driver removes the port from the
  -- pending map, closes and resets the object, and raises the external disconnected callback once,
  -- for that port and with the state already updated.
  pub lose_pending :
      IsAt pending p (object i s)
      → lookup p s.modem.tcp_pending ≡ some i
      → update_status (hooks external) disconnected true i s
        ≡ reported (without_pending p i s.modem)
  unfolding callback_tcp_disconnected remove_connection
  lose_pending at e =
      update_status-disconnected (hooks external) i s (ground arith) at.says_disconnected
      ∙ rw (at.at_port, remove_tcp-pending p lowered i e)
          (simp (update_self, update-update) (ground arith))
