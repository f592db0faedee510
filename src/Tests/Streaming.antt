-- ===== src/Tests/Streaming.antt =====
-- The data that passes through a node to which a peer connects.
use ros_driver_modem.Prelude.{◌≡◌, [], ◌++◌, arith}
use ros_driver_modem.Modem.{System, accept, connect, receive, receive_from}
use ros_driver_modem.Topics.{decimal}
use ros_driver_modem.EventLoop.Sound.{Timely}
use ros_driver_modem.RosNode.{Node}
use ros_driver_modem.RosNode.Keeping.{AllOf}
use ros_driver_modem.RosNode.Packets.{packets}
use ros_driver_modem.RosNode.Stream.{IsShort, heard, relays_all}
use ros_driver_modem.RosNode.Outgoing.{called_for, sends_all}
use ros_driver_modem.RosNode.Reachable.{turn, send_tcp, remove, serve, Reach, here, next}
use ros_driver_modem.RosNode.UdpPorts.{is_open, udp_after, serve-udp_ports}
use ros_driver_modem.Tests.{arrival, all_sent}
use ros_driver_modem.Tests.Serving.{
  started, started-IsConsistent, accept_in_time, connected_once, tcp_pick, three,
}

receive_in_time : Timely 1 (arrival three) connected_once
receive_in_time (accept i) rest e = let f = tcp_pick in cc
receive_in_time (connect i) rest e = tt
receive_in_time (receive i) rest e = tt
receive_in_time (receive_from i) rest e = tt

-- The peer connects, sends three bytes, and is sent three bytes.
abbrev last : System Node
last =
    serve decimal (send_tcp 5000 three all_sent)
      (serve decimal (turn 1 (arrival three)) connected_once)

abbrev talk : Reach decimal started last
talk =
    next
      (next (next here (turn 0 (arrival [])) accept_in_time) (turn 1 (arrival three))
        receive_in_time)
      (send_tcp 5000 three all_sent) tt

talk-IsShort : AllOf IsShort talk
talk-IsShort = (((tt, omega arith), omega arith), omega arith)

relays_all_example : packets last.app.output ≡ heard decimal talk ++ packets started.app.output
relays_all_example = relays_all decimal started-IsConsistent talk talk-IsShort

sends_all_example : last.modem.sent ≡ called_for decimal talk ++ started.modem.sent
sends_all_example = sends_all decimal started-IsConsistent talk talk-IsShort

-- Removing a UDP port.
serve-udp_ports_example :
    is_open 6000 (serve decimal (remove 1 6000) started).modem
    ≡ udp_after (remove 1 6000) 6000 (is_open 6000 started.modem)
serve-udp_ports_example =
    serve-udp_ports decimal (remove 1 6000) started 6000 tt started-IsConsistent.sound
