-- ===== src/RosNode/Logging.antt =====
-- The log lines of src/ros_node.cpp, which ask the driver for the text of an enumerator
-- (src/driver.cpp).
use ros_driver_modem.Prelude.{
  ℕ, zero, suc, ◌<◌, ◌≡◌, refl, Bool, true, false, none, inl, inr, Option-cases, arith,
}
use ros_driver_modem.StdMap.{lookup}
use ros_driver_modem.Types.{
  Address, Protocol, protocol_of_byte, TcpRole, server, client, unassigned, role_of_byte, Result,
  ok, undefined, Setup,
}
use ros_driver_modem.Modem.{Modem, System}
use ros_driver_modem.Topics.{Text}
use ros_driver_modem.Driver
use ros_driver_modem.Driver.Admitting.{add_existing}
use ros_driver_modem.Driver.Starting.{add_unknown_role}
use ros_driver_modem.RosNode.{Node, callbacks}
use ros_driver_modem.RosNode.Gaining.{asked, Into}
use ros_driver_modem.RosNode.Requests.{
  after_add_tcp, after_remove, with_log, logged, add_tcp_connection, remove_connection,
  service_add_tcp_connection, service_remove_connection,
}

-- The log line of an enumerator changes nothing.
pub with_log-Into :
    (role : TcpRole) (d : Modem) (test udp_test : ℕ → Bool) (certain : Bool)
    (x : Result Bool × System Node)
    → asked role ≡ true
    → Into d test udp_test certain x
    → Into d test udp_test certain (with_log (Driver.tcp_role_string role) x)
unfolding Driver.tcp_role_string
with_log-Into server d test udp_test certain x a g = g
with_log-Into client d test udp_test certain x a g = g
with_log-Into unassigned d test udp_test certain x a g = cc
with_log-Into (TcpRole.unknown n) d test udp_test certain x a g = cc

after_ok : (b : Bool) (s : System Node) → logged none (after_add_tcp true (ok b, s)).0 ≡ undefined
unfolding after_add_tcp
after_ok true s = refl
after_ok false s = refl

unknown_role : (byte : ℕ) → 2 < byte → role_of_byte byte ≡ TcpRole.unknown byte
unfolding role_of_byte
unknown_role byte h = ground arith

unknown_protocol : (byte : ℕ) → 2 < byte → protocol_of_byte byte ≡ Protocol.unknown byte
unfolding protocol_of_byte
unknown_protocol byte h = ground arith

module _ (to_string : Address → Text) (port : ℕ) (setup : Setup) (s : System Node) where
  adding_unknown :
      (n : ℕ)
      → (add_tcp_connection to_string (TcpRole.unknown (suc n)) port true setup s).0 ≡ undefined
  unfolding add_tcp_connection Driver.tcp_role_string
  adding_unknown n = elim (Option-cases (lookup port s.modem.tcp_pending)) [
    | inr (i, e) ↦
        rw
          (add_existing (callbacks to_string) port s (TcpRole.unknown (suc n)) setup (ground arith)
            (inl (ground arith)))
          (after_ok _ _)
    | inl e ↦ elim (Option-cases (lookup port s.modem.tcp_active)) [
      | inr (i, f) ↦
          rw
            (add_existing (callbacks to_string) port s (TcpRole.unknown (suc n)) setup
              (ground arith) (inr (ground arith)))
            (after_ok _ _)
      | inl f ↦ rw (add_unknown_role (callbacks to_string) port s e f n setup) (after_ok _ _)
    ]
  ]

  removing_unknown : (n : ℕ) → (remove_connection (Protocol.unknown n) port true s).0 ≡ undefined
  unfolding remove_connection after_remove Driver.remove_connection Driver.protocol_string
  removing_unknown n = refl

  -- The services that add a TCP connection and remove a connection, called with a byte above 2 for
  -- the role or the protocol, which is no enumerator, fall off the end of a function that returns
  -- a value, in every state and whatever the operating system answers.
  pub unknown_bytes_are_undefined :
      (byte : ℕ)
      → 2 < byte
      → ((service_add_tcp_connection to_string byte port setup s).0 ≡ undefined)
        × ((service_remove_connection byte port s).0 ≡ undefined)
  unfolding service_add_tcp_connection service_remove_connection
  unknown_bytes_are_undefined zero h = absurd (omega (arith, h))
  unknown_bytes_are_undefined (suc n) h = (
    rw (unknown_role (suc n) h) (adding_unknown n),
    rw (unknown_protocol (suc n) h) (removing_unknown (suc n)),
  )
