-- ===== src/RosNode/Agreement.antt =====
-- The consistency of the node (src/ros_node.h) with its driver: topics and services of exactly the
-- active connections, under the right names, and a latched message that is up to date.
use ros_driver_modem.Prelude.{ℕ, ◌≡◌, none, some, if◌then◌else◌}
use ros_driver_modem.StdMap.{Map, lookup, contains}
use ros_driver_modem.Types.{Protocol}
use ros_driver_modem.Modem.{Modem, System}
use ros_driver_modem.Topics.{Text, rx_topic, tx_topic}
use ros_driver_modem.Driver.Invariant.{IsSound}
use ros_driver_modem.RosNode.{Node}
use ros_driver_modem.RosNode.Tables.{IsCurrent}

-- The map holds the name for exactly the ports of the other map.
pub record Mirrors (m : Map Text) (name : ℕ → Text) (active : Map ℕ) : Type 0 where
  pub at_port : (p : ℕ) → lookup p m ≡ (if contains p active then some (name p) else none)

pub record Agrees (d : Modem) (n : Node) : Type 0 where
  pub tcp_rx_at : Mirrors n.tcp_rx (rx_topic Protocol.tcp) d.tcp_active
  pub tcp_tx_at : Mirrors n.tcp_tx (tx_topic Protocol.tcp) d.tcp_active
  pub udp_rx_at : Mirrors n.udp_rx (rx_topic Protocol.udp) d.udp_active
  pub udp_tx_at : Mirrors n.udp_tx (tx_topic Protocol.udp) d.udp_active

pub record IsConsistent (s : System Node) : Type 0 where
  pub sound : IsSound s.modem
  pub agrees : Agrees s.modem s.app
  pub current : IsCurrent s.modem s.app
