-- ===== src/TcpConnection/Signals.antt =====
-- tcp_connection::update_status (src/tcp_connection.cpp) in closed form.
use ros_driver_modem.Prelude.{ℕ, ◌≡◌, ◌≢◌, true, arith}
use ros_driver_modem.Types.{Status, unassigned, disconnected, connected, pending}
use ros_driver_modem.Modem.{System, Hooks}
use ros_driver_modem.TcpConnection.{object, write, entered, update_status}
use ros_driver_modem.TcpConnection.Closing.{update_self, update-update}

module _ {N : Type 0} (hooks : Hooks (System N)) (i : ℕ) (s : System N) where
  -- No change of status, no callback.
  pub update_status-same :
      (st : Status) → (object i s).status ≡ st → update_status hooks st true i s ≡ s
  unfolding update_status
  update_status-same st e = ground arith

  -- Leaving another status for DISCONNECTED resets the role, then reports the local port.
  pub update_status-disconnected :
      (object i s).status ≢ disconnected
      → (object i s).has_disconnected ≡ true
      → update_status hooks disconnected true i s
        ≡ hooks.on_disconnected
            (object i s).local_endpoint.port
            (write i (record (object i s) { status = disconnected; role = unassigned }) s)
  unfolding update_status entered
  update_status-disconnected h e = simp (update_self, update-update) (ground arith)

  -- Reaching CONNECTED reports the port of the socket.
  pub update_status-connected :
      (object i s).status ≢ connected
      → (object i s).has_connected ≡ true
      → update_status hooks connected true i s
        ≡ hooks.on_connected
            (object i s).bound_port
            (write i (record (object i s) { status = connected }) s)
  unfolding update_status entered
  update_status-connected h e = simp update_self (ground arith)

  -- PENDING is set without a callback.
  pub update_status-pending :
      (object i s).status ≢ pending
      → update_status hooks pending true i s ≡ write i (record (object i s) { status = pending }) s
  unfolding update_status entered
  update_status-pending h = ground arith
