-- ===== src/Driver/Starting.antt =====
-- driver::add_tcp_connection (src/driver.cpp) in closed form, by role and by what the operating
-- system answers.
use ros_driver_modem.Prelude.{ℕ, suc, ◌≡◌, true, false, none, [], ◌∷◌, ◌++◌, arith, update}
use ros_driver_modem.StdMap.{lookup, insert}
use ros_driver_modem.Types.{
  TcpRole, server, client, pending, Endpoint, ok, throws, system_error, Setup, fails_to_open,
  fails_after_open, binds,
}
use ros_driver_modem.Modem.{
  TcpConnection, Handler, accept, connect, Modem, System, Client, new_tcp, on_modem,
}
use ros_driver_modem.TcpConnection.{
  attach_connected_callback, attach_disconnected_callback, attach_rx_callback, async_accept, listen,
  start_server, dial, start_client, update_status, entered, object,
}
use ros_driver_modem.TcpConnection.Closing.{update_self, update-update}
use ros_driver_modem.Driver.Callbacks.{hooks}
use ros_driver_modem.Driver.Adding.{
  buffer_size, local_endpoint, remote_endpoint, create_tcp, keep_started, start_role,
  add_tcp_connection,
}

-- A new object with its callbacks attached, then as a started server or client.
abbrev pub ready : Endpoint → TcpConnection
ready local = record (new_tcp local buffer_size) {
  has_connected = true;
  has_disconnected = true;
  has_rx = true;
}

abbrev pub listening : ℕ → Endpoint → TcpConnection
listening q local = record (ready local) {
  acceptor_open = true;
  bound_port = q;
  role = server;
  status = pending;
}

abbrev pub dialling : ℕ → Endpoint → Endpoint → TcpConnection
dialling q local remote = record (ready local) {
  socket_open = true;
  bound_port = q;
  remote_endpoint = remote;
  role = client;
  status = pending;
}

-- The driver with one more object, and with one more object that is pending.
abbrev pub with_object : TcpConnection → Modem → Modem
with_object o d = record d {
  tcp_heap = update d.tcp_heap d.tcp_count o;
  tcp_count = suc d.tcp_count;
}

abbrev pub with_pending : ℕ → TcpConnection → Handler → Modem → Modem
with_pending p o k d = record (with_object o d) {
  tcp_pending = insert p d.tcp_count d.tcp_pending;
  handlers = d.handlers ++ k ∷ [];
}

module _ {N : Type 0} (external : Client N) (p : ℕ) (s : System N) where
  pub create_tcp_lem : create_tcp p s ≡ on_modem (with_object (ready (local_endpoint p s))) s
  unfolding create_tcp attach_connected_callback attach_disconnected_callback attach_rx_callback
  create_tcp_lem = simp (update_self, update-update)

  start_server_lem :
      (i q : ℕ) (t : System N) (local : Endpoint)
      → object i t ≡ ready local
      → start_server (hooks external) i (binds q) t ≡ (
        ok true,
        on_modem
            (λ d. record d {
              tcp_heap = update d.tcp_heap i (listening q local);
              handlers = d.handlers ++ accept i ∷ [];
            })
            t,
      )
  unfolding start_server listen async_accept new_tcp update_status entered
  start_server_lem i q t local e = simp (e, update_self, update-update)

  start_client_lem :
      (i q : ℕ) (t : System N) (local remote : Endpoint)
      → object i t ≡ ready local
      → start_client (hooks external) i remote (binds q) t ≡ (
        true,
        on_modem
            (λ d. record d {
              tcp_heap = update d.tcp_heap i (dialling q local remote);
              handlers = d.handlers ++ connect i ∷ [];
            })
            t,
      )
  unfolding start_client dial new_tcp update_status entered
  start_client_lem i q t local remote e = simp (e, update_self, update-update)

  module _ (free : lookup p s.modem.tcp_pending ≡ none)
      (idle : lookup p s.modem.tcp_active ≡ none) where
    -- Adding a TCP server at a port that is neither pending nor active, when the operating system
    -- binds it, answers true and leaves a new object that listens with its callbacks attached, is
    -- pending at that port, and has its accept posted; nothing else changes.
    pub add_server :
        (q : ℕ)
        → add_tcp_connection external server p (binds q) s ≡ (
          ok true,
          on_modem
              (λ d. with_pending p (listening q (local_endpoint p s)) (accept d.tcp_count) d)
              s,
        )
    unfolding add_tcp_connection start_role keep_started
    add_server q = rw create_tcp_lem (
        ground (
          arith,
          start_server_lem s.modem.tcp_count q
              (on_modem (with_object (ready (local_endpoint p s))) s) (local_endpoint p s)
              (update_self s.modem.tcp_heap s.modem.tcp_count (ready (local_endpoint p s))),
          update-update s.modem.tcp_heap s.modem.tcp_count (ready (local_endpoint p s))
              (listening q (local_endpoint p s)),
        ))

    -- Adding a TCP client at a port that is neither pending nor active, when the operating system
    -- binds it, answers true and leaves a new object that connects to the same port of the remote
    -- host with its callbacks attached, is pending at that port, and has its connect posted;
    -- nothing else changes.
    pub add_client :
        (q : ℕ)
        → add_tcp_connection external client p (binds q) s ≡ (
          ok true,
          on_modem
              (λ d.
                with_pending p
                  (dialling q (local_endpoint p s) (remote_endpoint p s))
                  (connect d.tcp_count)
                  d)
              s,
        )
    unfolding add_tcp_connection start_role keep_started
    add_client q = rw create_tcp_lem (
        ground (
          arith,
          start_client_lem s.modem.tcp_count q
              (on_modem (with_object (ready (local_endpoint p s))) s) (local_endpoint p s)
              (remote_endpoint p s)
              (update_self s.modem.tcp_heap s.modem.tcp_count (ready (local_endpoint p s))),
          update-update s.modem.tcp_heap s.modem.tcp_count (ready (local_endpoint p s))
              (dialling q (local_endpoint p s) (remote_endpoint p s)),
        ))

    -- A server that cannot be set up throws, and leaves an object in no map.
    pub add_server_fails_to_open :
        add_tcp_connection external server p fails_to_open s
        ≡ (throws system_error, on_modem (with_object (ready (local_endpoint p s))) s)
    unfolding add_tcp_connection start_role keep_started start_server listen new_tcp
    add_server_fails_to_open = rw create_tcp_lem (simp update_self (ground arith))

    pub add_server_fails_after_open : add_tcp_connection external server p fails_after_open s ≡ (
      throws system_error,
      on_modem (with_object (record (ready (local_endpoint p s)) { acceptor_open = true })) s,
    )
    unfolding add_tcp_connection start_role keep_started start_server listen new_tcp
    add_server_fails_after_open =
        rw create_tcp_lem (simp (update_self, update-update) (ground arith))

    -- A client that cannot be set up is answered with false.
    pub add_client_fails_to_open :
        add_tcp_connection external client p fails_to_open s
        ≡ (ok false, on_modem (with_object (ready (local_endpoint p s))) s)
    unfolding add_tcp_connection start_role keep_started start_client dial new_tcp update_status
    add_client_fails_to_open = rw create_tcp_lem (simp update_self (ground arith))

    pub add_client_fails_after_open : add_tcp_connection external client p fails_after_open s ≡ (
      ok false,
      on_modem (with_object (record (ready (local_endpoint p s)) { socket_open = true })) s,
    )
    unfolding add_tcp_connection start_role keep_started start_client dial new_tcp update_status
    add_client_fails_after_open =
        rw create_tcp_lem (simp (update_self, update-update) (ground arith))

    -- A value outside the enumerators makes an object and starts nothing.
    pub add_unknown_role :
        (n : ℕ) (setup : Setup)
        → add_tcp_connection external (TcpRole.unknown (suc n)) p setup s
          ≡ (ok false, on_modem (with_object (ready (local_endpoint p s))) s)
    unfolding add_tcp_connection start_role keep_started
    add_unknown_role n setup = rw create_tcp_lem (ground arith)
