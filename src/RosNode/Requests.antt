-- ===== src/RosNode/Requests.antt =====
-- src/ros_node.cpp: connection management, the services, the udp subscriber, the constructor.
use ros_driver_modem.Prelude.{
  ℤ, ℕ, ◌%◌, ◌^◌, Bool, true, false, Option, none, some, List, [], ◌∷◌, length, if◌then◌else◌,
}
use ros_driver_modem.Types.{
  as_port, Protocol, protocol_of_byte, TcpRole, server, client, role_of_byte, Address, Result, ok,
  throws, undefined, Setup, SendOutcome,
}
use ros_driver_modem.Modem.{System}
use ros_driver_modem.Topics.{Text}
use ros_driver_modem.Driver
use ros_driver_modem.Driver.Adding
use ros_driver_modem.RosNode.{
  Node, add_connection_topics, remove_connection_topics, remove_all_topics,
  publish_active_connections, callbacks,
}

-- A node before anything is advertised for a connection.
abbrev pub blank : Node
blank = record { tcp_rx = []; tcp_tx = []; udp_rx = []; udp_tx = []; output = [] }

abbrev pub on_app : (Node → Node) → System Node → System Node
on_app f s = record s { app = f s.app }

abbrev pub publish : System Node → System Node
publish s = on_app (publish_active_connections s.modem) s

abbrev pub publish_if : Bool → System Node → System Node
publish_if wanted s = if wanted then publish s else s

unfoldable pub set_remote_host : Option Address → System Node → Bool × System Node
set_remote_host resolved s =
    let (found, s') = Driver.set_remote_host resolved s in
    if found then (true, publish (on_app remove_all_topics s')) else (false, s')

-- What follows each of the driver's answers; an exception of the driver passes through.
unfoldable pub after_add_tcp : Bool → Result Bool × System Node → Result Bool × System Node
after_add_tcp wanted (ok true, s) = (ok true, publish_if wanted s)
after_add_tcp wanted (ok false, s) = (ok false, s)
after_add_tcp wanted (throws e, s) = (throws e, s)
after_add_tcp wanted (undefined, s) = (undefined, s)

unfoldable pub after_add_udp : ℕ → Bool → Result Bool × System Node → Result Bool × System Node
after_add_udp port wanted (ok true, s) =
    (ok true, publish_if wanted (on_app (add_connection_topics Protocol.udp port) s))
after_add_udp port wanted (ok false, s) = (ok false, s)
after_add_udp port wanted (throws e, s) = (throws e, s)
after_add_udp port wanted (undefined, s) = (undefined, s)

unfoldable pub after_remove :
    Protocol → ℕ → Bool → Result Bool × System Node → Result Bool × System Node
after_remove type port wanted (ok true, s) =
    (ok true, publish_if wanted (on_app (remove_connection_topics type port) s))
after_remove type port wanted (ok false, s) = (ok false, s)
after_remove type port wanted (throws e, s) = (throws e, s)
after_remove type port wanted (undefined, s) = (undefined, s)

-- A log line with a text: where the function that makes it falls off its end, all is undefined.
abbrev pub logged : Option Text → Result Bool → Result Bool
logged (some text) r = r
logged none (ok b) = undefined
logged none (throws e) = throws e
logged none undefined = undefined

abbrev pub with_log : Option Text → Result Bool × System Node → Result Bool × System Node
with_log text x = (logged text x.0, x.1)

unfoldable pub add_udp_connection : ℕ → Bool → Setup → System Node → Result Bool × System Node
add_udp_connection port wanted setup s =
    after_add_udp port wanted (Adding.add_udp_connection port setup s)

unfoldable pub remove_connection : Protocol → ℕ → Bool → System Node → Result Bool × System Node
remove_connection type port wanted s =
    with_log (Driver.protocol_string type)
      (after_remove type port wanted (Driver.remove_connection type port s))

unfoldable pub remove_all_connections : Bool → System Node → System Node
remove_all_connections wanted s =
    publish_if wanted (Driver.remove_all_connections (on_app remove_all_topics s))

-- The services; the Boolean is the response's `success`, and the handlers themselves return true.
unfoldable pub service_set_remote_host : Option Address → System Node → Bool × System Node
service_set_remote_host resolved s = set_remote_host resolved s

unfoldable pub service_add_udp_connection : ℕ → Setup → System Node → Result Bool × System Node
service_add_udp_connection port setup s = add_udp_connection port true setup s

unfoldable pub service_remove_connection : ℕ → ℕ → System Node → Result Bool × System Node
service_remove_connection byte port s = remove_connection (protocol_of_byte byte) port true s

unfoldable pub service_remove_all_connections : System Node → Bool × System Node
service_remove_all_connections s = (true, remove_all_connections true s)

-- What is not caught ends the constructor.
abbrev pub on_success :
    {A : Type 0}
    → Result A
    → System Node
    → Result (Unit {0}) × System Node
    → Result (Unit {0}) × System Node
on_success (ok _) s rest = rest
on_success (throws e) s rest = (throws e, s)
on_success undefined s rest = (undefined, s)

module _ (to_string : Address → Text) where
  unfoldable pub service_get_remote_host : System Node → Text
  service_get_remote_host s = Driver.p_remote_host to_string s.modem

  unfoldable pub add_tcp_connection :
      TcpRole → ℕ → Bool → Setup → System Node → Result Bool × System Node
  add_tcp_connection role port wanted setup s =
      with_log (Driver.tcp_role_string role)
        (after_add_tcp wanted (Adding.add_tcp_connection (callbacks to_string) role port setup s))

  unfoldable pub service_add_tcp_connection :
      ℕ → ℕ → Setup → System Node → Result Bool × System Node
  service_add_tcp_connection byte port setup s =
      add_tcp_connection (role_of_byte byte) port true setup s

  unfoldable pub service_tcp_tx : ℕ → List ℕ → SendOutcome → System Node → Result Bool × System Node
  service_tcp_tx port bytes sending s =
      Adding.tx (callbacks to_string) Protocol.tcp port bytes (length bytes % 2 ^ 32) sending s

  unfoldable pub callback_udp_tx :
      ℕ → List ℕ → SendOutcome → System Node → Result Bool × System Node
  callback_udp_tx port bytes sending s =
      Adding.tx (callbacks to_string) Protocol.udp port bytes (length bytes % 2 ^ 32) sending s

  -- The loops of the constructor over the port parameters, each with the operating system's
  -- answer; a parameter is an int, cast to uint16_t. An exception ends them.
  unfoldable pub add_tcp_ports :
      TcpRole → List (ℤ × Setup) → System Node → Result (Unit {0}) × System Node
  add_tcp_ports role [] s = (ok tt, s)
  add_tcp_ports role ((param, setup) ∷ params) s =
      let (r, s') = add_tcp_connection role (as_port param) false setup s in
      let rest = add_tcp_ports role params s' in on_success r s' rest

  unfoldable pub add_udp_ports : List (ℤ × Setup) → System Node → Result (Unit {0}) × System Node
  add_udp_ports [] s = (ok tt, s)
  add_udp_ports ((param, setup) ∷ params) s =
      let (r, s') = add_udp_connection (as_port param) false setup s in
      let rest = add_udp_ports params s' in on_success r s' rest

  -- The part of the constructor after the driver is there; what throws is not caught.
  unfoldable pub open_ports :
      List (ℤ × Setup)
      → List (ℤ × Setup)
      → List (ℤ × Setup)
      → System Node
      → Result (Unit {0}) × System Node
  open_ports servers clients udps s =
      let (r, s1) = add_tcp_ports server servers s in
      let (q, s2) = add_tcp_ports client clients s1 in
      let (t, s3) = add_udp_ports udps s2 in
      on_success r s1 (on_success q s2 (on_success t s3 (ok tt, publish s3)))

  -- ros_node::ros_node: `none` is the exit after a driver that could not be made.
  unfoldable pub construct :
      Option Address
      → Option Address
      → List (ℤ × Setup)
      → List (ℤ × Setup)
      → List (ℤ × Setup)
      → Option (Result (Unit {0}) × System Node)
  construct local resolved servers clients udps = elim (Driver.construct local resolved blank) [
    | none ↦ none
    | some s ↦ some (open_ports servers clients udps s)
  ]
