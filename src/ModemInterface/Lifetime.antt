-- ===== src/ModemInterface/Lifetime.antt =====
-- src/modem_interface.cpp: the constructor and the destructor, and what is in between: the messages
-- of the node that the interface handles.
use ros_driver_modem.Prelude.{false, List, [], ◌∷◌}
use ros_driver_modem.StdMap.{Map}
use ros_driver_modem.Types.{Result, ok}
use ros_driver_modem.Topics.{Text, codes}
use ros_driver_modem.RosNode.{ActiveConnections}
use ros_driver_modem.ModemInterface.{
  Action, opens_sender, opens_subscriber, shuts_down, Handles, ModemInterface, and_then,
  callback_active_connections,
}

-- An interface with what was asked of ROS for the handles that do not depend on connections: the
-- subscriber of the node's message and the service clients.
pub record Session : Type 0 where
  pub interface : ModemInterface
  pub actions : List Action

abbrev no_handles : Handles
no_handles = record { senders = []; subscribers = []; actions = [] }

unfoldable pub construct : Session
construct = record {
  interface = record {
    pending_tcp_connections = [];
    active_tcp_connections = [];
    active_udp_connections = [];
    tcp_handles = no_handles;
    udp_handles = no_handles;
    callback_tcp_attached = false;
    callback_udp_attached = false;
    given = [];
  };
  actions =
      opens_sender (codes "remove_connection")
      ∷ opens_sender (codes "add_udp_connection")
      ∷ opens_sender (codes "add_tcp_connection")
      ∷ opens_sender (codes "get_remote_host")
      ∷ opens_sender (codes "set_remote_host")
      ∷ opens_subscriber (codes "active_connections")
      ∷ [];
}

-- The loop over a map of handles.
unfoldable pub shut_each : Map Text → List Action → List Action
shut_each [] actions = actions
shut_each ((_, name) ∷ m) actions = shut_each m (shuts_down name ∷ actions)

abbrev pub close_handles : Handles → Handles
close_handles h = record h { actions = shut_each h.subscribers (shut_each h.senders h.actions) }

-- What the destructor leaves of the object is gone, but for what was asked of ROS.
unfoldable pub destroy : Session → Session
unfolding shut_each
destroy s = record {
  interface = record s.interface {
    tcp_handles = close_handles s.interface.tcp_handles;
    udp_handles = close_handles s.interface.udp_handles;
  };
  actions =
      shuts_down (codes "remove_connection")
      ∷ shuts_down (codes "add_udp_connection")
      ∷ shuts_down (codes "add_tcp_connection")
      ∷ shuts_down (codes "get_remote_host")
      ∷ shuts_down (codes "set_remote_host")
      ∷ shuts_down (codes "active_connections")
      ∷ s.actions;
}

-- The messages of the node, one after the other.
unfoldable pub handle_all :
    List ActiveConnections → ModemInterface → Result (Unit {0}) × ModemInterface
handle_all [] m = (ok tt, m)
handle_all (message ∷ messages) m =
    let (r, m1) = callback_active_connections message m in
    let rest = handle_all messages m1 in and_then (r, m1) rest
