-- ===== src/RosNode/Tables.antt =====
-- The four maps of a node after topics are added and removed, and the last published message.
use ros_driver_modem.Prelude.{ℕ, ◌≡◌, refl, Option, none, some, List, [], ◌∷◌, arith}
use ros_driver_modem.StdMap.{Map, insert, erase}
use ros_driver_modem.StdMap.Laws.{erase_absent}
use ros_driver_modem.Types.{Protocol, Address}
use ros_driver_modem.Modem.{Modem}
use ros_driver_modem.Topics.{Text, rx_topic, tx_topic}
use ros_driver_modem.RosNode.{
  ActiveConnections, Output, connections, packet, shutdown, advertise, advertise_service, subscribe,
  Node, add_connection_topics, drop_tcp_rx, drop_tcp_tx, drop_udp_rx, drop_udp_tx,
  remove_connection_topics, active_connections, publish_active_connections, callback_rx,
}

-- The maps of one node against four maps.
abbrev pub HasTables : Node → Map Text → Map Text → Map Text → Map Text → Type 0
HasTables n a b c d = (n.tcp_rx ≡ a) × (n.tcp_tx ≡ b) × (n.udp_rx ≡ c) × (n.udp_tx ≡ d)

module _ (p : ℕ) (n : Node) where
  pub add_tcp_tables :
      HasTables
        (add_connection_topics Protocol.tcp p n)
        (insert p (rx_topic Protocol.tcp p) n.tcp_rx)
        (insert p (tx_topic Protocol.tcp p) n.tcp_tx)
        n.udp_rx
        n.udp_tx
  unfolding add_connection_topics
  add_tcp_tables = (refl, refl, refl, refl)

  pub add_udp_tables :
      HasTables
        (add_connection_topics Protocol.udp p n)
        n.tcp_rx
        n.tcp_tx
        (insert p (rx_topic Protocol.udp p) n.udp_rx)
        (insert p (tx_topic Protocol.udp p) n.udp_tx)
  unfolding add_connection_topics
  add_udp_tables = (refl, refl, refl, refl)

  pub remove_tcp_tables :
      HasTables
        (remove_connection_topics Protocol.tcp p n)
        (erase p n.tcp_rx)
        (erase p n.tcp_tx)
        n.udp_rx
        n.udp_tx
  unfolding remove_connection_topics drop_tcp_rx drop_tcp_tx
  remove_tcp_tables = ground (arith, erase_absent p n.tcp_rx, erase_absent p n.tcp_tx)

  pub remove_udp_tables :
      HasTables
        (remove_connection_topics Protocol.udp p n)
        n.tcp_rx
        n.tcp_tx
        (erase p n.udp_rx)
        (erase p n.udp_tx)
  unfolding remove_connection_topics drop_udp_rx drop_udp_tx
  remove_udp_tables = ground (arith, erase_absent p n.udp_rx, erase_absent p n.udp_tx)

-- The message that a new subscriber of the latched topic gets.
unfoldable pub latched : List Output → Option ActiveConnections
latched [] = none
latched (connections m ∷ os) = some m
latched (packet _ _ ∷ os) = latched os
latched (advertise _ ∷ os) = latched os
latched (advertise_service _ ∷ os) = latched os
latched (subscribe _ ∷ os) = latched os
latched (shutdown _ ∷ os) = latched os

-- The latched message lists the connections of the driver.
abbrev pub IsCurrent : Modem → Node → Type 0
IsCurrent d n = latched n.output ≡ some (active_connections d)

pub publish-IsCurrent : (d : Modem) (n : Node) → IsCurrent d (publish_active_connections d n)
unfolding publish_active_connections latched
publish-IsCurrent d n = refl

pub publish_tables :
    (d : Modem) (n : Node)
    → HasTables (publish_active_connections d n) n.tcp_rx n.tcp_tx n.udp_rx n.udp_tx
unfolding publish_active_connections
publish_tables d n = (refl, refl, refl, refl)

module _ (to_string : Address → Text) (type : Protocol) (p count : ℕ) (bytes : List ℕ)
    (source : Address) (n : Node) where
  -- Forwarding data changes no map, and leaves the latched message.
  pub callback_rx_tables :
      HasTables
        (callback_rx to_string type p bytes count source n)
        n.tcp_rx
        n.tcp_tx
        n.udp_rx
        n.udp_tx
  unfolding callback_rx
  callback_rx_tables = ground arith

  pub callback_rx-latched :
      latched (callback_rx to_string type p bytes count source n).output ≡ latched n.output
  unfolding callback_rx latched
  callback_rx-latched = ground arith
