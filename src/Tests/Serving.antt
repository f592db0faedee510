-- ===== src/Tests/Serving.antt =====
-- The node's theorems on a node that is set up and serves requests.
use ros_driver_modem.Prelude.{ℤ, pos, ℕ, ◌≡◌, refl, some, List, [], ◌∷◌, arith, update, take, ◌++◌}
use ros_driver_modem.StdMap.{lookup, contains, insert, place, erase, keys}
use ros_driver_modem.Types.{Protocol, Setup, ok, binds}
use ros_driver_modem.Modem.{accept, connect, receive, receive_from, System, new_tcp, new_udp}
use ros_driver_modem.TcpConnection
use ros_driver_modem.UdpConnection
use ros_driver_modem.Topics.{decimal}
use ros_driver_modem.Driver
use ros_driver_modem.Driver.Adding
use ros_driver_modem.EventLoop.{pick, accepted, run_handler, run_one}
use ros_driver_modem.Driver.Callbacks.{activate, callback_tcp_connected}
use ros_driver_modem.EventLoop.Sound.{Timely}
use ros_driver_modem.RosNode
use ros_driver_modem.RosNode.{Node, callbacks, add_connection_topics, publish_active_connections}
use ros_driver_modem.RosNode.Delivery.{relayed, tcp_bytes_published, udp_bytes_published}
use ros_driver_modem.RosNode.Requests.{
  after_add_tcp, after_add_udp, add_tcp_connection, add_udp_connection, add_tcp_ports,
  add_udp_ports, open_ports, construct,
}
use ros_driver_modem.RosNode.Agreement.{IsConsistent}
use ros_driver_modem.RosNode.Reachable.{
  turn, send_tcp, remove, serve, here, next, serve-IsConsistent, Reach-IsConsistent,
}
use ros_driver_modem.RosNode.Startup.{first_state, construct-IsConsistent}
use ros_driver_modem.Tests.{peer, arrival, all_sent}

-- A node with one TCP server and one UDP port.
abbrev pub servers : List (ℤ × Setup)
servers = (pos 5000, binds 5000) ∷ []

abbrev pub udps : List (ℤ × Setup)
udps = (pos 6000, binds 6000) ∷ []

abbrev pub started : System Node
started = (open_ports decimal servers [] udps (first_state 1 2)).1

pub started-construct : construct decimal (some 1) (some 2) servers [] udps ≡ some (ok tt, started)
unfolding construct open_ports add_tcp_ports add_udp_ports add_tcp_connection add_udp_connection
    after_add_tcp after_add_udp Driver.tcp_role_string Driver.construct Driver.set_remote_host
    Driver.remove_all_connections Driver.remove_ports keys Adding.add_tcp_connection
    Adding.create_tcp Adding.start_role Adding.keep_started Adding.add_udp_connection
    TcpConnection.start_server TcpConnection.listen TcpConnection.attach_connected_callback
    TcpConnection.attach_disconnected_callback TcpConnection.attach_rx_callback
    TcpConnection.async_accept TcpConnection.update_status TcpConnection.entered lookup contains
    update new_tcp
started-construct = refl

construct-IsConsistent_example : IsConsistent started
construct-IsConsistent_example =
    construct-IsConsistent decimal servers [] udps ((refl, tt), tt, (refl, tt)) (some 1) (some 2)
      started started-construct

pub started-IsConsistent : IsConsistent started
started-IsConsistent =
    construct-IsConsistent decimal servers [] udps ((refl, tt), tt, (refl, tt)) (some 1) (some 2)
      started started-construct

-- The server's accept is the first handler.
pub accept_in_time : Timely 0 (arrival []) started
unfolding construct open_ports add_tcp_ports add_udp_ports add_tcp_connection add_udp_connection
    after_add_tcp after_add_udp Driver.tcp_role_string Driver.construct Driver.set_remote_host
    Driver.remove_all_connections Driver.remove_ports keys Adding.add_tcp_connection
    Adding.create_tcp Adding.start_role Adding.keep_started Adding.add_udp_connection
    Adding.create_udp TcpConnection.start_server TcpConnection.listen
    TcpConnection.attach_connected_callback TcpConnection.attach_disconnected_callback
    TcpConnection.attach_rx_callback TcpConnection.async_accept TcpConnection.update_status
    TcpConnection.entered UdpConnection.connect UdpConnection.async_rx
    UdpConnection.attach_rx_callback lookup contains update new_tcp new_udp insert place pick
accept_in_time (accept i) rest e = λ f. ground (arith, e)
accept_in_time (connect i) rest e = tt
accept_in_time (receive i) rest e = tt
accept_in_time (receive_from i) rest e = tt

abbrev pub connected_once : System Node
connected_once = serve decimal (turn 0 (arrival [])) started

-- The peer connects, is sent three bytes, and the UDP port is removed.
Reach-IsConsistent_example : IsConsistent (
    serve decimal
      (remove 1 6000)
      (serve decimal (send_tcp 5000 (1 ∷ 2 ∷ 3 ∷ []) all_sent) connected_once))
Reach-IsConsistent_example = Reach-IsConsistent decimal started-IsConsistent (
    next
      (next (next here (turn 0 (arrival [])) accept_in_time)
        (send_tcp 5000 (1 ∷ 2 ∷ 3 ∷ []) all_sent) tt)
      (remove 1 6000) tt)

pub connected_once-IsConsistent : IsConsistent connected_once
connected_once-IsConsistent =
    serve-IsConsistent decimal (turn 0 (arrival [])) started accept_in_time started-IsConsistent

pub accept_pick : pick 0 started.modem.handlers ≡ some (accept 0, receive_from 0 ∷ [])
unfolding construct open_ports add_tcp_ports add_udp_ports add_tcp_connection add_udp_connection
    after_add_tcp after_add_udp Driver.tcp_role_string Driver.construct Driver.set_remote_host
    Driver.remove_all_connections Driver.remove_ports keys Adding.add_tcp_connection
    Adding.create_tcp Adding.start_role Adding.keep_started Adding.add_udp_connection
    Adding.create_udp TcpConnection.start_server TcpConnection.listen
    TcpConnection.attach_connected_callback TcpConnection.attach_disconnected_callback
    TcpConnection.attach_rx_callback TcpConnection.async_accept TcpConnection.update_status
    TcpConnection.entered UdpConnection.connect UdpConnection.async_rx
    UdpConnection.attach_rx_callback lookup contains update new_tcp new_udp insert place pick
accept_pick = refl

-- The receive of the UDP port is the second handler of the first state, and that of the TCP
-- connection the second of the next one.
pub udp_pick : pick 1 started.modem.handlers ≡ some (receive_from 0, accept 0 ∷ [])
unfolding construct open_ports add_tcp_ports add_udp_ports add_tcp_connection add_udp_connection
    after_add_tcp after_add_udp Driver.tcp_role_string Driver.construct Driver.set_remote_host
    Driver.remove_all_connections Driver.remove_ports keys Adding.add_tcp_connection
    Adding.create_tcp Adding.start_role Adding.keep_started Adding.add_udp_connection
    Adding.create_udp TcpConnection.start_server TcpConnection.listen
    TcpConnection.attach_connected_callback TcpConnection.attach_disconnected_callback
    TcpConnection.attach_rx_callback TcpConnection.async_accept TcpConnection.update_status
    TcpConnection.entered UdpConnection.connect UdpConnection.async_rx
    UdpConnection.attach_rx_callback lookup contains update new_tcp new_udp insert place pick
udp_pick = refl

pub udp_entry : lookup 6000 started.modem.udp_active ≡ some 0
unfolding construct open_ports add_tcp_ports add_udp_ports add_tcp_connection add_udp_connection
    after_add_tcp after_add_udp Driver.tcp_role_string Driver.construct Driver.set_remote_host
    Driver.remove_all_connections Driver.remove_ports keys Adding.add_tcp_connection
    Adding.create_tcp Adding.start_role Adding.keep_started Adding.add_udp_connection
    Adding.create_udp TcpConnection.start_server TcpConnection.listen
    TcpConnection.attach_connected_callback TcpConnection.attach_disconnected_callback
    TcpConnection.attach_rx_callback TcpConnection.async_accept TcpConnection.update_status
    TcpConnection.entered UdpConnection.connect UdpConnection.async_rx
    UdpConnection.attach_rx_callback lookup contains update new_tcp new_udp insert place pick
udp_entry = refl

pub udp_size : (started.modem.udp_heap 0).buffer_size ≡ 1024
unfolding construct open_ports add_tcp_ports add_udp_ports add_tcp_connection add_udp_connection
    after_add_tcp after_add_udp Driver.tcp_role_string Driver.construct Driver.set_remote_host
    Driver.remove_all_connections Driver.remove_ports keys Adding.add_tcp_connection
    Adding.create_tcp Adding.start_role Adding.keep_started Adding.add_udp_connection
    Adding.create_udp TcpConnection.start_server TcpConnection.listen
    TcpConnection.attach_connected_callback TcpConnection.attach_disconnected_callback
    TcpConnection.attach_rx_callback TcpConnection.async_accept TcpConnection.update_status
    TcpConnection.entered UdpConnection.connect UdpConnection.async_rx
    UdpConnection.attach_rx_callback lookup contains update new_tcp new_udp insert place pick
udp_size = refl

pub tcp_pick : pick 1 connected_once.modem.handlers ≡ some (receive 0, receive_from 0 ∷ [])
unfolding construct open_ports add_tcp_ports add_udp_ports add_tcp_connection add_udp_connection
    after_add_tcp after_add_udp Driver.tcp_role_string Driver.construct Driver.set_remote_host
    Driver.remove_all_connections Driver.remove_ports keys Adding.add_tcp_connection
    Adding.create_tcp Adding.start_role Adding.keep_started Adding.add_udp_connection
    Adding.create_udp TcpConnection.start_server TcpConnection.listen
    TcpConnection.attach_connected_callback TcpConnection.attach_disconnected_callback
    TcpConnection.attach_rx_callback TcpConnection.async_accept TcpConnection.update_status
    TcpConnection.entered UdpConnection.connect UdpConnection.async_rx
    UdpConnection.attach_rx_callback lookup contains update new_tcp new_udp insert place pick serve
    run_one run_handler accepted TcpConnection.accept_callback TcpConnection.async_rx
    callback_tcp_connected activate erase RosNode.callback_tcp_connected publish_active_connections
    add_connection_topics
tcp_pick = refl

pub tcp_entry : lookup 5000 connected_once.modem.tcp_active ≡ some 0
unfolding construct open_ports add_tcp_ports add_udp_ports add_tcp_connection add_udp_connection
    after_add_tcp after_add_udp Driver.tcp_role_string Driver.construct Driver.set_remote_host
    Driver.remove_all_connections Driver.remove_ports keys Adding.add_tcp_connection
    Adding.create_tcp Adding.start_role Adding.keep_started Adding.add_udp_connection
    Adding.create_udp TcpConnection.start_server TcpConnection.listen
    TcpConnection.attach_connected_callback TcpConnection.attach_disconnected_callback
    TcpConnection.attach_rx_callback TcpConnection.async_accept TcpConnection.update_status
    TcpConnection.entered UdpConnection.connect UdpConnection.async_rx
    UdpConnection.attach_rx_callback lookup contains update new_tcp new_udp insert place pick serve
    run_one run_handler accepted TcpConnection.accept_callback TcpConnection.async_rx
    callback_tcp_connected activate erase RosNode.callback_tcp_connected publish_active_connections
    add_connection_topics
tcp_entry = refl

pub tcp_ports : connected_once.modem.tcp_active ≡ (5000, 0) ∷ []
unfolding construct open_ports add_tcp_ports add_udp_ports add_tcp_connection add_udp_connection
    after_add_tcp after_add_udp Driver.tcp_role_string Driver.construct Driver.set_remote_host
    Driver.remove_all_connections Driver.remove_ports keys Adding.add_tcp_connection
    Adding.create_tcp Adding.start_role Adding.keep_started Adding.add_udp_connection
    Adding.create_udp TcpConnection.start_server TcpConnection.listen
    TcpConnection.attach_connected_callback TcpConnection.attach_disconnected_callback
    TcpConnection.attach_rx_callback TcpConnection.async_accept TcpConnection.update_status
    TcpConnection.entered UdpConnection.connect UdpConnection.async_rx
    UdpConnection.attach_rx_callback lookup contains update new_tcp new_udp insert place pick serve
    run_one run_handler accepted TcpConnection.accept_callback TcpConnection.async_rx
    callback_tcp_connected activate erase RosNode.callback_tcp_connected publish_active_connections
    add_connection_topics
tcp_ports = refl

pub tcp_size : (connected_once.modem.tcp_heap 0).buffer_size ≡ 1024
unfolding construct open_ports add_tcp_ports add_udp_ports add_tcp_connection add_udp_connection
    after_add_tcp after_add_udp Driver.tcp_role_string Driver.construct Driver.set_remote_host
    Driver.remove_all_connections Driver.remove_ports keys Adding.add_tcp_connection
    Adding.create_tcp Adding.start_role Adding.keep_started Adding.add_udp_connection
    Adding.create_udp TcpConnection.start_server TcpConnection.listen
    TcpConnection.attach_connected_callback TcpConnection.attach_disconnected_callback
    TcpConnection.attach_rx_callback TcpConnection.async_accept TcpConnection.update_status
    TcpConnection.entered UdpConnection.connect UdpConnection.async_rx
    UdpConnection.attach_rx_callback lookup contains update new_tcp new_udp insert place pick serve
    run_one run_handler accepted TcpConnection.accept_callback TcpConnection.async_rx
    callback_tcp_connected activate erase RosNode.callback_tcp_connected publish_active_connections
    add_connection_topics
tcp_size = refl

abbrev pub three : List ℕ
three = 1 ∷ 2 ∷ 3 ∷ []

tcp_bytes_published_example :
    (let x = run_one (callbacks decimal) 1 (arrival three) connected_once in
      (x.0 ≡ ok tt)
      × (x.1.modem.handlers ≡ (receive_from 0 ∷ []) ++ receive 0 ∷ [])
      × (x.1.app
          ≡ relayed decimal
              (arrival three)
              refl
              1
              0
              5000
              connected_once
              connected_once-IsConsistent
              Protocol.tcp
              (connected_once.modem.tcp_heap 0).remote_endpoint.address
              (take (connected_once.modem.tcp_heap 0).buffer_size three)))
tcp_bytes_published_example =
    tcp_bytes_published decimal (arrival three) refl 1 0 5000 connected_once
      connected_once-IsConsistent (receive_from 0 ∷ []) tcp_pick tcp_entry
      (rw tcp_size (omega arith))

udp_bytes_published_example :
    (let x = run_one (callbacks decimal) 1 (arrival three) started in
      (x.0 ≡ ok tt)
      × (x.1.modem.handlers ≡ (accept 0 ∷ []) ++ receive_from 0 ∷ [])
      × (x.1.app
          ≡ relayed decimal
              (arrival three)
              refl
              1
              0
              6000
              started
              started-IsConsistent
              Protocol.udp
              7
              (take (started.modem.udp_heap 0).buffer_size three))
      × ((x.1.modem.udp_heap 0).remote_endpoint ≡ peer))
udp_bytes_published_example =
    udp_bytes_published decimal (arrival three) refl 1 0 6000 started started-IsConsistent
      (accept 0 ∷ []) udp_pick udp_entry (rw udp_size (omega arith))
