-- ===== src/Types.antt =====
-- The enumerations of include/driver_modem/protocol.h, include/driver_modem/tcp_role.h and
-- src/tcp_connection.h, and the values that pass between the program and boost::asio.
use ros_driver_modem.Prelude.{
  ℤ, pos, negsuc, ◌-◌, ◌%◌, ◌^◌, ◌<◌, arith, ℕ, Bool, ◌==◌, if◌then◌else◌,
}

-- `unknown n` is a value outside the enumerators, as a cast from a message's byte can make it.
pub data Protocol : Type 0 where
  tcp udp : Protocol
  unknown : ℕ → Protocol

pub data TcpRole : Type 0 where
  unassigned server client : TcpRole
  unknown : ℕ → TcpRole

pub data Status : Type 0 where
  disconnected connected pending : Status

-- The values of the enumerators, by which `==` compares.
abbrev pub protocol_code : Protocol → ℕ
protocol_code Protocol.tcp = 0
protocol_code Protocol.udp = 1
protocol_code (Protocol.unknown n) = n

abbrev pub role_code : TcpRole → ℕ
role_code unassigned = 0
role_code server = 1
role_code client = 2
role_code (TcpRole.unknown n) = n

abbrev pub status_code : Status → ℕ
status_code disconnected = 0
status_code connected = 1
status_code pending = 2

abbrev pub same_role : TcpRole → TcpRole → Bool
same_role a b = role_code a == role_code b

abbrev pub same_status : Status → Status → Bool
same_status a b = status_code a == status_code b

-- `static_cast<protocol>` and `static_cast<tcp_role>` of a byte.
unfoldable pub protocol_of_byte : ℕ → Protocol
protocol_of_byte n =
    if n == 0 then Protocol.tcp else if n == 1 then Protocol.udp else Protocol.unknown n

unfoldable pub role_of_byte : ℕ → TcpRole
role_of_byte n =
    if n == 0
    then unassigned
    else if n == 1
    then server
    else if n == 2
    then client
    else TcpRole.unknown n

-- boost::asio::ip::address, by a number.
abbrev pub Address : Type 0
Address = ℕ

pub record Endpoint : Type 0 where
  pub address : Address
  pub port : ℕ

-- boost::system::error_code: the values that the program tells apart, and any other.
pub data ErrorCode : Type 0 where
  no_error eof connection_reset connection_aborted operation_aborted broken_pipe : ErrorCode
  other_error : ℕ → ErrorCode

pub data Exception : Type 0 where
  system_error out_of_range bad_function_call : Exception
  runtime_error : ErrorCode → Exception

-- How a call ends: `undefined` is undefined behaviour.
pub data Result (A : Type 0) : Type 0 where
  ok : A → Result A
  throws : Exception → Result A
  undefined : Result A

-- What the operating system answers to open, set_option, bind and listen on a socket: the first
-- call fails, a later one fails, or all succeed and the socket is bound to a port.
pub data Setup : Type 0 where
  fails_to_open fails_after_open : Setup
  binds : ℕ → Setup

-- What it answers to a send: the error code, and how many bytes it took.
pub record SendOutcome : Type 0 where
  pub error : ErrorCode
  pub accepted : ℕ

-- `static_cast<uint16_t>` of an int: modulo 2^16, also below zero.
abbrev pub as_port : ℤ → ℕ
as_port (pos n) = n % 2 ^ 16
as_port (negsuc n) = 65535 - n % 2 ^ 16

pub as_port-lt : (n : ℤ) → as_port n < 2 ^ 16
as_port-lt (pos n) = omega arith
as_port-lt (negsuc n) = omega arith
