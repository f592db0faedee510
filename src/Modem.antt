-- ===== src/Modem.antt =====
-- The state that the classes driver, tcp_connection and udp_connection keep (src/driver.h,
-- src/tcp_connection.h, src/udp_connection.h), with the connection objects on a heap that is
-- indexed by object numbers, and the io_service as the list of the handlers that it holds.
use ros_driver_modem.Prelude.{ℕ, Bool, true, false, Option, List, [], ◌∷◌, ◌++◌, replicate, update}
use ros_driver_modem.StdMap.{Map}
use ros_driver_modem.Types.{Protocol, TcpRole, Status, Address, Endpoint, unassigned, disconnected}

-- class tcp_connection. `bound_port` is the port of the bound socket or acceptor, and
-- `remote_endpoint` the peer of the socket; the three flags say whether a callback is attached.
pub record TcpConnection : Type 0 where
  pub local_endpoint : Endpoint
  pub socket_open : Bool
  pub acceptor_open : Bool
  pub bound_port : ℕ
  pub remote_endpoint : Endpoint
  pub buffer_size : ℕ
  pub buffer : List ℕ
  pub role : TcpRole
  pub status : Status
  pub has_connected : Bool
  pub has_disconnected : Bool
  pub has_rx : Bool

-- class udp_connection. Its `remote_endpoint` is a member that receiving overwrites.
pub record UdpConnection : Type 0 where
  pub socket_open : Bool
  pub bound_port : ℕ
  pub remote_endpoint : Endpoint
  pub buffer_size : ℕ
  pub buffer : List ℕ
  pub has_rx : Bool

-- An asynchronous operation that is outstanding or whose handler is queued, with the number of
-- the object that it is bound to by shared_from_this.
pub data Handler : Type 0 where
  accept connect receive receive_from : ℕ → Handler

-- What has left the program through a socket.
pub data Sent : Type 0 where
  to_peer : ℕ → List ℕ → Sent
  datagram : Endpoint → List ℕ → Sent

-- class driver, the heap of its connection objects and its io_service. `service_work` is the
-- pointer m_service_work: not initialised, null or allocated.
pub record Modem : Type 0 where
  pub local_ip : Address
  pub remote_ip : Address
  pub service_work : Option Bool
  pub tcp_pending : Map ℕ
  pub tcp_active : Map ℕ
  pub udp_active : Map ℕ
  pub tcp_heap : ℕ → TcpConnection
  pub tcp_count : ℕ
  pub udp_heap : ℕ → UdpConnection
  pub udp_count : ℕ
  pub handlers : List Handler
  pub sent : List Sent

-- The modem and the state of the object that its external callbacks belong to.
pub record System (N : Type 0) : Type 0 where
  pub modem : Modem
  pub app : N

-- The functions behind the std::function members of a connection.
pub record Hooks (S : Type 0) : Type 0 where
  pub on_connected : ℕ → S → S
  pub on_disconnected : ℕ → S → S
  pub on_rx : Protocol → ℕ → List ℕ → ℕ → Address → S → S

-- The external callbacks of a driver. They may read the driver, and change only their own state.
pub record Client (N : Type 0) : Type 0 where
  pub connected_callback : ℕ → Modem → N → N
  pub disconnected_callback : ℕ → Modem → N → N
  pub rx_callback : Protocol → ℕ → List ℕ → ℕ → Address → Modem → N → N

abbrev pub silent : {S : Type 0} → Hooks S
silent = record { on_connected = λ p s. s; on_disconnected = λ p s. s; on_rx = λ t p d n a s. s }

-- Writes to an object, a new handler and a sent packet.
abbrev pub put_tcp : ℕ → TcpConnection → Modem → Modem
put_tcp i c m = record m { tcp_heap = update m.tcp_heap i c }

abbrev pub put_udp : ℕ → UdpConnection → Modem → Modem
put_udp i c m = record m { udp_heap = update m.udp_heap i c }

abbrev pub post : Handler → Modem → Modem
post h m = record m { handlers = m.handlers ++ h ∷ [] }

abbrev pub log : Sent → Modem → Modem
log p m = record m { sent = p ∷ m.sent }

abbrev pub on_modem : {N : Type 0} → (Modem → Modem) → System N → System N
on_modem f s = record s { modem = f s.modem }

-- tcp_connection::tcp_connection.
unfoldable pub new_tcp : Endpoint → ℕ → TcpConnection
new_tcp local size = record {
  local_endpoint = local;
  socket_open = false;
  acceptor_open = false;
  bound_port = 0;
  remote_endpoint = record { address = 0; port = 0 };
  buffer_size = size;
  buffer = replicate size 0;
  role = unassigned;
  status = disconnected;
  has_connected = false;
  has_disconnected = false;
  has_rx = false;
}

-- udp_connection::udp_connection, once the socket is bound to the port.
unfoldable pub new_udp : ℕ → Endpoint → ℕ → UdpConnection
new_udp port remote size = record {
  socket_open = true;
  bound_port = port;
  remote_endpoint = remote;
  buffer_size = size;
  buffer = replicate size 0;
  has_rx = false;
}
