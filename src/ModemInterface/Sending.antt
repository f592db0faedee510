-- ===== src/ModemInterface/Sending.antt =====
-- src/modem_interface.cpp: data transmission. Calling a service is ROS's: the answer to a call is a
-- parameter, `none` where the call fails.
use ros_driver_modem.Prelude.{
  ℕ, ◌≡◌, Bool, true, false, Option, none, some, List, [], arith, take, if◌then◌else◌,
}
use ros_driver_modem.StdMap.{contains}
use ros_driver_modem.Types.{Protocol}
use ros_driver_modem.Topics.{Text, tx_topic}
use ros_driver_modem.RosNode.{DataPacket, name_at}
use ros_driver_modem.ModemInterface.{ModemInterface, has_port}
use ros_driver_modem.ModemInterface.Following.{IsFollowing}

-- The answer of a service, or false if the call failed.
unfoldable pub answered : Option Bool → Bool
answered none = false
answered (some success) = success

-- The loop copies `count` bytes; the address is not set.
unfoldable pub packet_of : List ℕ → ℕ → DataPacket
packet_of bytes count = record { source_ip = []; bytes = take count bytes }

-- A call changes the world that the service is in.
unfoldable pub send_tcp :
    {W : Type 0}
    → (Text → DataPacket → W → Option Bool × W)
    → ℕ
    → List ℕ
    → ℕ
    → ModemInterface
    → W
    → Bool × W
unfolding contains
send_tcp call port bytes count m w =
    let (answer, w') = call (name_at port m.tcp_handles.senders) (packet_of bytes count) w in
    if contains port m.tcp_handles.senders then (answered answer, w') else (false, w)

-- The answer, with the topic and the packet that are published, if any.
unfoldable pub send_udp : ℕ → List ℕ → ℕ → ModemInterface → Bool × Option (Text × DataPacket)
unfolding contains
send_udp port bytes count m =
    if contains port m.udp_handles.senders
    then (true, some (name_at port m.udp_handles.senders, packet_of bytes count))
    else (false, none)

module _ (m : ModemInterface) (f : IsFollowing m) (port : ℕ) (bytes : List ℕ) (count : ℕ) where
  -- On an interface that holds handles for exactly the connections of its lists, send_tcp calls
  -- the service of the port, under the name that the node gives it and with the first bytes of the
  -- data, exactly if the port is an active TCP connection, and answers with the service's success,
  -- or false without a connection or an answer.
  pub send_tcp_lem :
      {W : Type 0} (call : Text → DataPacket → W → Option Bool × W) (w : W)
      → send_tcp call port bytes count m w ≡ (
          let (answer, w') = call (tx_topic Protocol.tcp port) (packet_of bytes count) w in
          if has_port port m.active_tcp_connections then (answered answer, w') else (false, w))
  unfolding send_tcp
  send_tcp_lem call w = ground (arith, f.tcp_follows.senders_at port)

  -- On an interface that holds handles for exactly the connections of its lists, send_udp
  -- publishes the first bytes of the data on the topic of the port, under the name that the node
  -- subscribes to, and answers true exactly if the port is a UDP connection, and else publishes
  -- nothing and answers false.
  pub send_udp_lem : send_udp port bytes count m ≡ (
      if has_port port m.active_udp_connections
      then (true, some (tx_topic Protocol.udp port, packet_of bytes count))
      else (false, none))
  unfolding send_udp
  send_udp_lem = ground (arith, f.udp_follows.senders_at port)
