-- ===== src/Driver/Adding.antt =====
-- src/driver.cpp: adding connections and transmitting.
use ros_driver_modem.Prelude.{ℕ, suc, Bool, true, false, ◌&&◌, not, List, if◌then◌else◌}
use ros_driver_modem.StdMap.{contains, insert}
use ros_driver_modem.Types.{
  Protocol, TcpRole, unassigned, server, client, same_role, Endpoint, Result, ok, throws, undefined,
  system_error, Setup, fails_to_open, fails_after_open, binds, SendOutcome,
}
use ros_driver_modem.Modem.{System, Client, put_tcp, put_udp, on_modem, new_tcp, new_udp}
use ros_driver_modem.TcpConnection
use ros_driver_modem.UdpConnection
use ros_driver_modem.Driver.{entry, set_pending, set_udp}
use ros_driver_modem.Driver.Callbacks.{hooks}

-- The default size of a receive buffer.
abbrev pub buffer_size : ℕ
buffer_size = 1024

module _ {N : Type 0} where
  -- The endpoint of the driver's own address, or the remote one, at a port.
  abbrev pub local_endpoint : ℕ → System N → Endpoint
  local_endpoint port s = record { address = s.modem.local_ip; port = port }

  abbrev pub remote_endpoint : ℕ → System N → Endpoint
  remote_endpoint port s = record { address = s.modem.remote_ip; port = port }

  -- The new tcp_connection with its three callbacks attached; its number is the old count.
  unfoldable pub create_tcp : ℕ → System N → System N
  create_tcp port s =
      let i = s.modem.tcp_count in
      let c = new_tcp (local_endpoint port s) buffer_size in
      let s1 = on_modem (λ d. record (put_tcp i c d) { tcp_count = suc i }) s in
      let s2 = TcpConnection.attach_connected_callback i s1 in
      let s3 = TcpConnection.attach_disconnected_callback i s2 in
      TcpConnection.attach_rx_callback i s3

  -- The new udp_connection on a bound socket, with its callback attached.
  unfoldable pub create_udp : ℕ → ℕ → System N → System N
  create_udp port q s =
      let i = s.modem.udp_count in
      let c = new_udp q (remote_endpoint port s) buffer_size in
      let s1 = on_modem (λ d. record (put_udp i c d) { udp_count = suc i }) s in
      UdpConnection.attach_rx_callback i s1

  -- A connection that started becomes pending; an exception passes.
  unfoldable pub keep_started : ℕ → ℕ → Result Bool × System N → Result Bool × System N
  keep_started port i (ok true, s) = (ok true, set_pending (insert port i s.modem.tcp_pending) s)
  keep_started port i (ok false, s) = (ok false, s)
  keep_started port i (throws e, s) = (throws e, s)
  keep_started port i (undefined, s) = (undefined, s)

  -- The answer for a port that has a connection already: does its role match?
  unfoldable pub existing_role : TcpRole → ℕ → System N → Bool
  unfolding contains
  existing_role role port s =
      if contains port s.modem.tcp_active
      then same_role (s.modem.tcp_heap (entry port s.modem.tcp_active)).role role
      else same_role (s.modem.tcp_heap (entry port s.modem.tcp_pending)).role role

  unfoldable pub add_udp_connection : ℕ → Setup → System N → Result Bool × System N
  unfolding contains
  add_udp_connection port fails_to_open s =
      if not (contains port s.modem.udp_active) then (throws system_error, s) else (ok true, s)
  add_udp_connection port fails_after_open s =
      if not (contains port s.modem.udp_active) then (throws system_error, s) else (ok true, s)
  add_udp_connection port (binds q) s =
      let i = s.modem.udp_count in
      let s1 = UdpConnection.connect i (create_udp port q s) in
      if not (contains port s.modem.udp_active)
      then (ok true, set_udp (insert port i s1.modem.udp_active) s1)
      else (ok true, s)

module _ {N : Type 0} (external : Client N) where
  -- The switch over the role: a value outside the enumerators starts nothing.
  unfoldable pub start_role : TcpRole → ℕ → ℕ → Setup → System N → Result Bool × System N
  start_role unassigned port i setup s = (ok false, s)
  start_role server port i setup s = TcpConnection.start_server (hooks external) i setup s
  start_role client port i setup s =
      let (started, s') =
        TcpConnection.start_client (hooks external) i (remote_endpoint port s) setup s in
      (ok started, s')
  start_role (TcpRole.unknown _) port i setup s = (ok false, s)

  unfoldable pub add_tcp_connection : TcpRole → ℕ → Setup → System N → Result Bool × System N
  unfolding contains
  add_tcp_connection role port setup s =
      let i = s.modem.tcp_count in
      if not (same_role role unassigned)
      then (if not (contains port s.modem.tcp_pending) && not (contains port s.modem.tcp_active)
          then keep_started port i (start_role role port i setup (create_tcp port s))
          else (ok (existing_role role port s), s))
      else (ok false, s)

  abbrev pub sent_datagram : Result (Unit {0}) × System N → Result Bool × System N
  sent_datagram (ok _, s) = (ok true, s)
  sent_datagram (throws e, s) = (throws e, s)
  sent_datagram (undefined, s) = (undefined, s)

  unfoldable pub tx : Protocol → ℕ → List ℕ → ℕ → SendOutcome → System N → Result Bool × System N
  unfolding contains
  tx Protocol.tcp port bytes count sending s =
      let (done, s') =
        TcpConnection.tx (hooks external) (entry port s.modem.tcp_active) bytes count sending s in
      if contains port s.modem.tcp_active then (ok done, s') else (ok false, s)
  tx Protocol.udp port bytes count sending s =
      let i = entry port s.modem.udp_active in
      if contains port s.modem.udp_active
      then sent_datagram (UdpConnection.tx i bytes count sending.error s)
      else (ok false, s)
  tx (Protocol.unknown _) port bytes count sending s = (undefined, s)
