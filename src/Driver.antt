-- ===== src/Driver.antt =====
-- src/driver.cpp. The external callbacks of the driver are a `Client`; the operating system's
-- and the resolver's answers are arguments.
pub mod Callbacks
pub mod Adding
pub mod Coherent
pub mod Quiet
pub mod Invariant
pub mod Losing
pub mod Removing
pub mod Connecting
pub mod Starting
pub mod Repeating
pub mod Admitting
pub mod AdmittingUdp
pub mod Sending
pub mod RemovingAll
pub mod Keeping
pub mod Operations
pub mod Buffers
pub mod Ports
pub mod Lifecycle
pub mod Attended
pub mod Attending
use ros_driver_modem.Prelude.{
  ℕ, Bool, true, false, Option, none, some, List, [], ◌∷◌, if◌then◌else◌,
}
use ros_driver_modem.StdMap.{Map, lookup, contains, erase, keys}
use ros_driver_modem.Types.{
  Protocol, TcpRole, unassigned, client, server, Address, Result, ok, undefined,
}
use ros_driver_modem.Modem.{Modem, System, on_modem, new_tcp, new_udp}
use ros_driver_modem.Topics.{Text, codes}
use ros_driver_modem.TcpConnection
use ros_driver_modem.UdpConnection

-- The entry that `at` finds, for a port that is in the map.
abbrev pub entry : ℕ → Map ℕ → ℕ
entry port m = elim (lookup port m) [ none ↦ 0 | some i ↦ i ]

-- `none` is falling off the end, for a value that is not an enumerator.
unfoldable pub protocol_string : Protocol → Option Text
protocol_string Protocol.tcp = some (codes "TCP")
protocol_string Protocol.udp = some (codes "UDP")
protocol_string (Protocol.unknown _) = none

unfoldable pub tcp_role_string : TcpRole → Option Text
tcp_role_string unassigned = some (codes "Unassigned")
tcp_role_string client = some (codes "Client")
tcp_role_string server = some (codes "Server")
tcp_role_string (TcpRole.unknown _) = none

-- The text of an address is boost's.
unfoldable pub p_remote_host : (Address → Text) → Modem → Text
p_remote_host to_string d = to_string d.remote_ip

-- p_pending_tcp_connections, p_active_tcp_connections and p_active_udp_connections.
unfoldable pub p_pending_tcp_connections : Modem → List ℕ
p_pending_tcp_connections d = keys d.tcp_pending

unfoldable pub p_active_tcp_connections : Modem → List ℕ
p_active_tcp_connections d = keys d.tcp_active

unfoldable pub p_active_udp_connections : Modem → List ℕ
p_active_udp_connections d = keys d.udp_active

module _ {N : Type 0} where
  abbrev pub set_pending : Map ℕ → System N → System N
  set_pending m s = on_modem (λ d. record d { tcp_pending = m }) s

  abbrev pub set_active : Map ℕ → System N → System N
  set_active m s = on_modem (λ d. record d { tcp_active = m }) s

  abbrev pub set_udp : Map ℕ → System N → System N
  set_udp m s = on_modem (λ d. record d { udp_active = m }) s

  -- The TCP case of remove_connection.
  unfoldable pub remove_tcp : ℕ → System N → System N
  unfolding contains
  remove_tcp port s =
      let stopped_pending = TcpConnection.disconnect (entry port s.modem.tcp_pending) s in
      let stopped_active = TcpConnection.disconnect (entry port s.modem.tcp_active) s in
      if contains port s.modem.tcp_pending
      then set_pending (erase port stopped_pending.modem.tcp_pending) stopped_pending
      else if contains port s.modem.tcp_active
      then set_active (erase port stopped_active.modem.tcp_active) stopped_active
      else s

  -- The UDP case.
  unfoldable pub remove_udp : ℕ → System N → System N
  unfolding contains
  remove_udp port s =
      let stopped = UdpConnection.disconnect (entry port s.modem.udp_active) s in
      if contains port s.modem.udp_active
      then set_udp (erase port stopped.modem.udp_active) stopped
      else s

  -- A value outside the enumerators falls off the end of the function.
  unfoldable pub remove_connection : Protocol → ℕ → System N → Result Bool × System N
  remove_connection Protocol.tcp port s = (ok true, remove_tcp port s)
  remove_connection Protocol.udp port s = (ok true, remove_udp port s)
  remove_connection (Protocol.unknown _) port s = (undefined, s)

  -- The loop over a list of ports, which ignores what remove_connection returns.
  unfoldable pub remove_ports : Protocol → List ℕ → System N → System N
  remove_ports type [] s = s
  remove_ports type (port ∷ ports) s = remove_ports type ports (remove_connection type port s).1

  unfoldable pub remove_all_connections : System N → System N
  remove_all_connections s =
      let no_pending = remove_ports Protocol.tcp (keys s.modem.tcp_pending) s in
      let no_tcp = remove_ports Protocol.tcp (keys no_pending.modem.tcp_active) no_pending in
      remove_ports Protocol.udp (keys no_tcp.modem.udp_active) no_tcp

  -- The resolver gives an address, or throws.
  unfoldable pub set_remote_host : Option Address → System N → Bool × System N
  set_remote_host none s = (false, s)
  set_remote_host (some ip) s =
      (true, remove_all_connections (on_modem (λ d. record d { remote_ip = ip }) s))

  unfoldable pub start : System N → System N
  start s = on_modem (λ d. record d { service_work = some true }) s

  unfoldable pub stop : System N → System N
  stop s = on_modem (λ d. record d { service_work = some false }) s

  -- driver::~driver tests the pointer m_service_work, which only start and stop set.
  unfoldable pub destroy : System N → Result (Unit {0}) × System N
  destroy s =
      let closed = remove_all_connections s in
      elim closed.modem.service_work [
        | none ↦ (undefined, closed)
        | some _ ↦ (ok tt, on_modem (λ d. record d { service_work = some false }) closed)
      ]

-- driver::driver, up to the body: the maps are empty and m_service_work is not initialised.
abbrev pub blank : Address → Modem
blank ip = record {
  local_ip = ip;
  remote_ip = 0;
  service_work = none;
  tcp_pending = [];
  tcp_active = [];
  udp_active = [];
  tcp_heap = λ _. new_tcp (record { address = 0; port = 0 }) 0;
  tcp_count = 0;
  udp_heap = λ _. new_udp 0 (record { address = 0; port = 0 }) 0;
  udp_count = 0;
  handlers = [];
  sent = [];
}

-- driver::driver: `none` is an exception, because the local address does not parse or the remote
-- host does not resolve.
unfoldable pub construct : {N : Type 0} → Option Address → Option Address → N → Option (System N)
construct none resolved app = none
construct (some ip) resolved app =
    let (found, s) = set_remote_host resolved (record { modem = blank ip; app = app }) in
    if found then some s else none
