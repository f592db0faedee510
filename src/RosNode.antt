-- ===== src/RosNode.antt =====
-- src/ros_node.cpp: the maps of topics and services, the callbacks from the driver.
pub mod Requests
pub mod Tables
pub mod Agreement
pub mod Changes
pub mod Tracking
pub mod Handling
pub mod Serving
pub mod Clearing
pub mod Relaying
pub mod Reachable
pub mod Keeping
pub mod Phases
pub mod Lifecycle
pub mod Startup
pub mod Opening
pub mod Arrays
pub mod Bounds
pub mod Listening
pub mod Delivery
pub mod Transmission
pub mod RemoteHost
pub mod Parameters
pub mod Gaining
pub mod Logging
pub mod Configured
pub mod ComingUp
pub mod Packets
pub mod Hearing
pub mod Heard
pub mod Stream
pub mod Outgoing
pub mod UdpPorts
use ros_driver_modem.Prelude.{
  ℕ, Bool, true, false, Option, none, some, List, [], ◌∷◌, ◌++◌, take, map, if◌then◌else◌,
}
use ros_driver_modem.StdMap.{Map, lookup, contains, insert, erase}
use ros_driver_modem.Types.{Protocol, Address}
use ros_driver_modem.Modem.{Modem, Client}
use ros_driver_modem.Topics.{Text, rx_topic, tx_topic}
use ros_driver_modem.Driver.{
  p_pending_tcp_connections, p_active_tcp_connections, p_active_udp_connections,
}

-- driver_modem_msgs::active_connections and driver_modem_msgs::data_packet, the fields that the
-- node sets.
pub record ActiveConnections : Type 0 where
  pub tcp_pending : List ℕ
  pub tcp_active : List ℕ
  pub udp_active : List ℕ

pub record DataPacket : Type 0 where
  pub source_ip : Text
  pub bytes : List ℕ

-- What the node asks of ROS: to publish, to advertise a topic or a service, to subscribe, and to
-- shut one of these down.
pub data Output : Type 0 where
  connections : ActiveConnections → Output
  packet : Text → DataPacket → Output
  advertise advertise_service subscribe shutdown : Text → Output

-- class ros_node. A publisher, subscriber or service server is known by its name; `output` is
-- what was asked of ROS, the newest first.
pub record Node : Type 0 where
  pub tcp_rx : Map Text
  pub tcp_tx : Map Text
  pub udp_rx : Map Text
  pub udp_tx : Map Text
  pub output : List Output

abbrev pub emit : Output → Node → Node
emit o n = record n { output = o ∷ n.output }

-- The name of the publisher, subscriber or server that `at` finds.
abbrev pub name_at : ℕ → Map Text → Text
name_at port m = elim (lookup port m) [ none ↦ [] | some name ↦ name ]

unfoldable pub add_connection_topics : Protocol → ℕ → Node → Node
add_connection_topics Protocol.tcp port n =
    let rx = rx_topic Protocol.tcp port in
    let n1 = emit (advertise rx) (record n { tcp_rx = insert port rx n.tcp_rx }) in
    let tx = tx_topic Protocol.tcp port in
    emit (advertise_service tx) (record n1 { tcp_tx = insert port tx n1.tcp_tx })
add_connection_topics Protocol.udp port n =
    let rx = rx_topic Protocol.udp port in
    let n1 = emit (advertise rx) (record n { udp_rx = insert port rx n.udp_rx }) in
    let tx = tx_topic Protocol.udp port in
    emit (subscribe tx) (record n1 { udp_tx = insert port tx n1.udp_tx })
add_connection_topics (Protocol.unknown _) port n = n

-- Each map in turn: shut down what `at` finds, then erase it.
unfoldable pub drop_tcp_rx : ℕ → Node → Node
unfolding contains
drop_tcp_rx port n =
    if contains port n.tcp_rx
    then emit (shutdown (name_at port n.tcp_rx)) (record n { tcp_rx = erase port n.tcp_rx })
    else n

unfoldable pub drop_tcp_tx : ℕ → Node → Node
unfolding contains
drop_tcp_tx port n =
    if contains port n.tcp_tx
    then emit (shutdown (name_at port n.tcp_tx)) (record n { tcp_tx = erase port n.tcp_tx })
    else n

unfoldable pub drop_udp_rx : ℕ → Node → Node
unfolding contains
drop_udp_rx port n =
    if contains port n.udp_rx
    then emit (shutdown (name_at port n.udp_rx)) (record n { udp_rx = erase port n.udp_rx })
    else n

unfoldable pub drop_udp_tx : ℕ → Node → Node
unfolding contains
drop_udp_tx port n =
    if contains port n.udp_tx
    then emit (shutdown (name_at port n.udp_tx)) (record n { udp_tx = erase port n.udp_tx })
    else n

-- remove_connection_topics(type, port).
unfoldable pub remove_connection_topics : Protocol → ℕ → Node → Node
remove_connection_topics Protocol.tcp port n = drop_tcp_tx port (drop_tcp_rx port n)
remove_connection_topics Protocol.udp port n = drop_udp_tx port (drop_udp_rx port n)
remove_connection_topics (Protocol.unknown _) port n = n

-- The loop that shuts every entry of a map down.
unfoldable pub shut_all : Map Text → List Output → List Output
shut_all [] output = output
shut_all ((_, name) ∷ m) output = shut_all m (shutdown name ∷ output)

-- remove_connection_topics().
unfoldable pub remove_all_topics : Node → Node
remove_all_topics n = record {
  tcp_rx = [];
  tcp_tx = [];
  udp_rx = [];
  udp_tx = [];
  output = shut_all n.udp_tx (shut_all n.udp_rx (shut_all n.tcp_tx (shut_all n.tcp_rx n.output)));
}

-- The message that lists the connections of the driver.
unfoldable pub active_connections : Modem → ActiveConnections
active_connections d = record {
  tcp_pending = p_pending_tcp_connections d;
  tcp_active = p_active_tcp_connections d;
  udp_active = p_active_udp_connections d;
}

unfoldable pub publish_active_connections : Modem → Node → Node
publish_active_connections d n = emit (connections (active_connections d)) n

unfoldable pub callback_tcp_connected : ℕ → Modem → Node → Node
callback_tcp_connected port d n =
    publish_active_connections d (add_connection_topics Protocol.tcp port n)

unfoldable pub callback_tcp_disconnected : ℕ → Modem → Node → Node
callback_tcp_disconnected port d n =
    publish_active_connections d (remove_connection_topics Protocol.tcp port n)

-- address::to_string is boost's.
module _ (to_string : Address → Text) where
  -- The loop copies `count` bytes of the array.
  unfoldable pub callback_rx : Protocol → ℕ → List ℕ → ℕ → Address → Node → Node
  unfolding contains
  callback_rx Protocol.tcp port bytes count source n =
      let message : DataPacket = record {
        source_ip = to_string source;
        bytes = take count bytes;
      } in
      if contains port n.tcp_rx then emit (packet (name_at port n.tcp_rx) message) n else n
  callback_rx Protocol.udp port bytes count source n =
      let message : DataPacket = record {
        source_ip = to_string source;
        bytes = take count bytes;
      } in
      if contains port n.udp_rx then emit (packet (name_at port n.udp_rx) message) n else n
  callback_rx (Protocol.unknown _) port bytes count source n = n

  -- The callbacks that the constructor gives to its driver.
  abbrev pub callbacks : Client Node
  callbacks = record {
    connected_callback = callback_tcp_connected;
    disconnected_callback = callback_tcp_disconnected;
    rx_callback = λ type port bytes count source d n. callback_rx type port bytes count source n;
  }
