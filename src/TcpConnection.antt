-- ===== src/TcpConnection.antt =====
-- src/tcp_connection.cpp. A method takes the number of its object and the system, and returns
-- the new system. What the operating system answers is an argument.
pub mod Closing
pub mod Signals
pub mod Receiving
use ros_driver_modem.Prelude.{
  ℕ, ◌%◌, ◌^◌, Bool, true, false, ◌&&◌, List, ◌++◌, length, take, drop, if◌then◌else◌,
}
use ros_driver_modem.Types.{
  Protocol, TcpRole, server, client, unassigned, Status, disconnected, connected, pending,
  same_status, Endpoint, ErrorCode, no_error, eof, connection_reset, connection_aborted,
  operation_aborted, broken_pipe, other_error, system_error, runtime_error, Result, ok, throws,
  undefined, Setup, fails_to_open, fails_after_open, binds, SendOutcome,
}
use ros_driver_modem.Modem.{
  TcpConnection, accept, connect, receive, to_peer, System, Hooks, silent, put_tcp, post, log,
  on_modem,
}

abbrev pub is_broken_pipe : ErrorCode → Bool
is_broken_pipe broken_pipe = true
is_broken_pipe _ = false

abbrev pub is_error : ErrorCode → Bool
is_error no_error = false
is_error _ = true

module _ {N : Type 0} where
  abbrev pub object : ℕ → System N → TcpConnection
  object i s = s.modem.tcp_heap i

  abbrev pub write : ℕ → TcpConnection → System N → System N
  write i c s = on_modem (put_tcp i c) s

  unfoldable pub attach_connected_callback : ℕ → System N → System N
  attach_connected_callback i s = write i (record (object i s) { has_connected = true }) s

  unfoldable pub attach_disconnected_callback : ℕ → System N → System N
  attach_disconnected_callback i s = write i (record (object i s) { has_disconnected = true }) s

  unfoldable pub attach_rx_callback : ℕ → System N → System N
  attach_rx_callback i s = write i (record (object i s) { has_rx = true }) s

  unfoldable pub async_accept : ℕ → System N → System N
  async_accept i s = on_modem (post (accept i)) s

  unfoldable pub async_rx : ℕ → System N → System N
  async_rx i s = on_modem (post (receive i)) s

  -- The switch of update_status, after the flag is set.
  unfoldable pub entered : Hooks (System N) → Status → Bool → ℕ → System N → System N
  entered hooks disconnected signal i s =
      let s' = write i (record (object i s) { role = unassigned }) s in
      if signal && (object i s').has_disconnected
      then hooks.on_disconnected (object i s').local_endpoint.port s'
      else s'
  entered hooks connected signal i s =
      if signal && (object i s).has_connected
      then hooks.on_connected (object i s).bound_port s
      else s
  entered hooks pending signal i s = s

  unfoldable pub update_status : Hooks (System N) → Status → Bool → ℕ → System N → System N
  update_status hooks new_status signal i s =
      if same_status new_status (object i s).status
      then s
      else entered hooks new_status signal i
          (write i (record (object i s) { status = new_status }) s)

  -- The callbacks are not raised, so none is passed.
  unfoldable pub disconnect : ℕ → System N → System N
  disconnect i s =
      let s' = write i (record (object i s) { acceptor_open = false; socket_open = false }) s in
      update_status silent disconnected false i s'

module _ {N : Type 0} (hooks : Hooks (System N)) where
  -- The listening part of start_server, once the status has been checked.
  unfoldable pub listen : ℕ → Setup → System N → Result Bool × System N
  listen i fails_to_open s = (throws system_error, s)
  listen i fails_after_open s =
      (throws system_error, write i (record (object i s) { acceptor_open = true }) s)
  listen i (binds q) s =
      let opened = write i (record (object i s) { acceptor_open = true; bound_port = q }) s in
      let waiting = async_accept i opened in
      let named = write i (record (object i waiting) { role = server }) waiting in
      (ok true, update_status hooks pending true i named)

  unfoldable pub start_server : ℕ → Setup → System N → Result Bool × System N
  start_server i setup s =
      if same_status (object i s).status disconnected then listen i setup s else (ok false, s)

  -- The try block of start_client and its handler.
  unfoldable pub dial : ℕ → Endpoint → Setup → System N → Bool × System N
  dial i remote fails_to_open s = (false, update_status hooks disconnected true i s)
  dial i remote fails_after_open s =
      let opened = write i (record (object i s) { socket_open = true }) s in
      (false, update_status hooks disconnected true i opened)
  dial i remote (binds q) s =
      let opened =
        write i
          (record (object i s) { socket_open = true; bound_port = q; remote_endpoint = remote })
          s in
      let waiting = on_modem (post (connect i)) opened in
      let named = write i (record (object i waiting) { role = client }) waiting in
      (true, update_status hooks pending true i named)

  unfoldable pub start_client : ℕ → Endpoint → Setup → System N → Bool × System N
  start_client i remote setup s =
      if same_status (object i s).status disconnected then dial i remote setup s else (false, s)

  -- The socket takes `sending.accepted` of the bytes.
  unfoldable pub tx : ℕ → List ℕ → ℕ → SendOutcome → System N → Bool × System N
  tx i bytes count sending s =
      if same_status (object i s).status connected
      then (let s' = on_modem (log (to_peer i (take sending.accepted (take count bytes)))) s in
          let broken = update_status hooks disconnected true i s' in
          (true, if is_broken_pipe sending.error then broken else s'))
      else (false, s)

  -- A successful accept has already opened the socket.
  unfoldable pub accept_callback : ℕ → ErrorCode → System N → System N
  accept_callback i error s =
      if (object i s).socket_open
      then (if is_error error
          then async_accept i s
          else async_rx i (update_status hooks connected true i s))
      else s

  unfoldable pub connect_callback : ℕ → ErrorCode → System N → System N
  connect_callback i error s =
      if (object i s).socket_open
      then (if is_error error
          then update_status hooks disconnected true i s
          else async_rx i (update_status hooks connected true i s))
      else s

  -- The deep copy of the first bytes of the buffer, handed to the attached callback. The remote
  -- endpoint of a socket that has no peer any more cannot be read: asking for it throws.
  unfoldable pub deliver : ℕ → ℕ → Bool → System N → Result (Unit {0}) × System N
  deliver i bytes_read has_peer s =
      let c = object i s in
      let raised =
        hooks.on_rx Protocol.tcp c.bound_port (take bytes_read c.buffer) (bytes_read % 2 ^ 32)
          c.remote_endpoint.address s in
      if c.has_rx
      then (if has_peer then (ok tt, raised) else (throws system_error, s))
      else (ok tt, s)

  -- What follows in rx_callback, unless an exception leaves it.
  abbrev pub receive_more : ℕ → Result (Unit {0}) × System N → Result (Unit {0}) × System N
  receive_more i (ok _, s) = (ok tt, async_rx i s)
  receive_more i (throws e, s) = (throws e, s)
  receive_more i (undefined, s) = (undefined, s)

  -- The branches of rx_callback on an open socket.
  unfoldable pub receive_result : ℕ → ErrorCode → ℕ → Bool → System N → Result (Unit {0}) × System N
  receive_result i no_error bytes_read has_peer s = receive_more i (deliver i bytes_read has_peer s)
  receive_result i eof _ _ s = (ok tt, update_status hooks disconnected true i s)
  receive_result i connection_reset _ _ s = (ok tt, update_status hooks disconnected true i s)
  receive_result i connection_aborted _ _ s = (ok tt, update_status hooks disconnected true i s)
  receive_result i operation_aborted _ _ s = (ok tt, s)
  receive_result i broken_pipe _ _ s = (throws (runtime_error broken_pipe), s)
  receive_result i (other_error e) _ _ s = (throws (runtime_error (other_error e)), s)

  unfoldable pub rx_callback : ℕ → ErrorCode → ℕ → Bool → System N → Result (Unit {0}) × System N
  rx_callback i error bytes_read has_peer s =
      if (object i s).socket_open then receive_result i error bytes_read has_peer s else (ok tt, s)

-- p_role and p_status; p_remote_endpoint throws where the socket has no peer.
abbrev pub p_role : TcpConnection → TcpRole
p_role c = c.role

abbrev pub p_status : TcpConnection → Status
p_status c = c.status

abbrev pub p_remote_endpoint : Bool → TcpConnection → Result Endpoint
p_remote_endpoint has_peer c = if has_peer then ok c.remote_endpoint else throws system_error

-- async_receive writes what arrived to the front of the buffer, as much as fits.
unfoldable pub fill_buffer : List ℕ → ℕ → List ℕ → List ℕ
fill_buffer arrived size buffer = take size arrived ++ drop (length (take size arrived)) buffer
