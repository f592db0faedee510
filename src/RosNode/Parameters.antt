-- ===== src/RosNode/Parameters.antt =====
-- src/ros_node.cpp: the constructor from the parameters of the node on. ROS answers what the
-- parameter server holds, boost parses and resolves addresses.
use ros_driver_modem.Prelude.{ℕ, suc, ℤ, Option, none, some, List, [], ◌∷◌}
use ros_driver_modem.Types.{Address, Result, Setup}
use ros_driver_modem.Modem.{System}
use ros_driver_modem.Topics.{Text, codes}
use ros_driver_modem.RosNode.{Node}
use ros_driver_modem.RosNode.Requests.{construct}

-- What the parameter server holds, `none` where it has no value of the parameter's type.
pub record Parameters : Type 0 where
  pub local_ip : Option Text
  pub remote_host : Option Text
  pub tcp_server_ports : Option (List ℤ)
  pub tcp_client_ports : Option (List ℤ)
  pub udp_ports : Option (List ℤ)

-- `param` with a default, and `getParam` into a vector that is empty before.
unfoldable pub param : {A : Type 0} → Option A → A → A
param none default = default
param (some value) default = value

-- The operating system's answer for each port of a list.
unfoldable pub answered_by : (ℕ → Setup) → ℕ → List ℤ → List (ℤ × Setup)
answered_by opens n [] = []
answered_by opens n (port ∷ ports) = (port, opens n) ∷ answered_by opens (suc n) ports

-- `opens` tells how the operating system answers, for each list by position.
unfoldable pub ros_node :
    (to_string : Address → Text) (from_string resolve : Text → Option Address)
    (opens_server opens_client opens_udp : ℕ → Setup)
    → Parameters
    → Option (Result (Unit {0}) × System Node)
unfolding param answered_by
ros_node to_string from_string resolve opens_server opens_client opens_udp parameters =
    construct to_string (from_string (param parameters.local_ip (codes "192.168.1.2")))
      (resolve (param parameters.remote_host (codes "192.168.1.3")))
      (answered_by opens_server 0 (param parameters.tcp_server_ports []))
      (answered_by opens_client 0 (param parameters.tcp_client_ports []))
      (answered_by opens_udp 0 (param parameters.udp_ports []))
