-- ===== src/Tests.antt =====
-- Concrete systems, on which the theorems of the driver and of the node are applied.
pub mod Driving
pub mod Serving
pub mod Following
pub mod Running
pub mod Failing
pub mod Waiting
pub mod Linked
pub mod Configured
pub mod Streaming
use ros_driver_modem.Prelude.{ℕ, Bool, true, false, List, [], ◌∷◌, replicate}
use ros_driver_modem.StdMap.{Map}
use ros_driver_modem.Types.{
  Protocol, server, Status, connected, pending, Endpoint, ErrorCode, no_error, SendOutcome,
}
use ros_driver_modem.Modem.{TcpConnection, UdpConnection, Modem, System, Client, Handler}
use ros_driver_modem.Driver
use ros_driver_modem.EventLoop.{Completion}

-- What a client of the driver was told, the newest first.
pub data Event : Type 0 where
  came went : ℕ → Event
  read : ℕ → List ℕ → Event

abbrev pub watcher : Client (List Event)
watcher = record {
  connected_callback = λ port d events. came port ∷ events;
  disconnected_callback = λ port d events. went port ∷ events;
  rx_callback = λ type port bytes count source d events. read port bytes ∷ events;
}

abbrev pub peer : Endpoint
peer = record { address = 7; port = 4000 }

-- A driver without connections.
abbrev pub empty : System (List Event)
empty = record { modem = record (Driver.blank 1) { remote_ip = 2 }; app = [] }

-- A started server on port 5000.
abbrev pub server_at : Status → TcpConnection
server_at status = record {
  local_endpoint = record { address = 1; port = 5000 };
  socket_open = true;
  acceptor_open = true;
  bound_port = 5000;
  remote_endpoint = peer;
  buffer_size = 4;
  buffer = replicate 4 0;
  role = server;
  status = status;
  has_connected = true;
  has_disconnected = true;
  has_rx = true;
}

abbrev pub with_server : Status → Map ℕ → Map ℕ → System (List Event)
with_server status pending_map active_map = record empty {
  modem = record empty.modem {
    tcp_pending = pending_map;
    tcp_active = active_map;
    tcp_heap = λ _. server_at status;
    tcp_count = 1;
  };
}

-- The server while it waits, and once its peer is there.
abbrev pub waiting : System (List Event)
waiting = with_server pending ((5000, 0) ∷ []) []

abbrev pub active : System (List Event)
active = with_server connected [] ((5000, 0) ∷ [])

-- A peer is accepted, or its bytes arrive.
abbrev pub arrival : List ℕ → Completion
arrival bytes = record { error = no_error; endpoint = peer; bytes = bytes; has_peer = true }

abbrev pub all_sent : SendOutcome
all_sent = record { error = no_error; accepted = 3 }

-- An operation that ended with an error.
abbrev pub ended : ErrorCode → Completion
ended error = record { error = error; endpoint = peer; bytes = []; has_peer = true }
