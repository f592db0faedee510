-- ===== src/ModemInterface/Management.antt =====
-- src/modem_interface.cpp: connection management by service calls. ROS delivers a call: what comes
-- back is a parameter, `none` where the call fails.
use ros_driver_modem.Prelude.{ℕ, ◌%◌, ◌^◌, Bool, true, false, Option, none, some}
use ros_driver_modem.Types.{Protocol, protocol_code, TcpRole, role_code}
use ros_driver_modem.Topics.{Text}
use ros_driver_modem.ModemInterface.Sending.{answered}

-- `static_cast<uint8_t>` of an enumerator.
unfoldable role_byte : TcpRole → ℕ
role_byte role = role_code role % 2 ^ 8

unfoldable protocol_byte : Protocol → ℕ
protocol_byte type = protocol_code type % 2 ^ 8

-- The services' types. A client of one type may be called with a request of another.
data ServiceType : Type 0 where
  for_set_remote_host for_get_remote_host for_add_tcp for_add_udp for_remove for_remove_all :
      ServiceType

unfoldable set_remote_host : (Text → Option Bool) → Text → Bool
set_remote_host call host = answered (call host)

-- The reference that the caller passes is written if the call succeeds.
unfoldable get_remote_host : Option Text → Text → Bool × Text
get_remote_host none remote_host = (false, remote_host)
get_remote_host (some host) remote_host = (true, host)

unfoldable add_tcp_connection : (ℕ → ℕ → Option Bool) → TcpRole → ℕ → Bool
add_tcp_connection call role port = answered (call (role_byte role) port)

unfoldable add_udp_connection : (ℕ → Option Bool) → ℕ → Bool
add_udp_connection call port = answered (call port)

unfoldable remove_connection : (ℕ → ℕ → Option Bool) → Protocol → ℕ → Bool
remove_connection call type port = answered (call (protocol_byte type) port)

-- The client is that of the remove_connection service, the request that of another.
unfoldable remove_all_connections : (ServiceType → ServiceType → Option Bool) → Bool
remove_all_connections call = answered (call for_remove for_remove_all)
