-- ===== src/ModemInterface/Meeting.antt =====
-- wait_for_connection of src/modem_interface.cpp, when the message of the node (src/ros_node.cpp)
-- arrives.
use ros_driver_modem.Prelude.{
  ℕ, ◌+◌, ◌≤◌, ◌<◌, ◌≡◌, refl, subst, ap, ◌∙◌, true, some, [], ◌∷◌, arith,
}
use ros_driver_modem.Types.{Protocol, ok}
use ros_driver_modem.Modem.{System}
use ros_driver_modem.RosNode.{Node, ActiveConnections}
use ros_driver_modem.RosNode.Tables.{latched}
use ros_driver_modem.RosNode.Agreement.{IsConsistent}
use ros_driver_modem.RosNode.Bounds.{connected_at}
use ros_driver_modem.ModemInterface.{ModemInterface, is_connected, callback_active_connections}
use ros_driver_modem.ModemInterface.Following.{IsFollowing}
use ros_driver_modem.ModemInterface.Agreement.{Knows, follow_node}
use ros_driver_modem.ModemInterface.Waiting.{
  Environment, connections_message, handle, spin_once, spin_rounds, wait_for_connection,
}
use ros_driver_modem.ModemInterface.Patience.{wait_connects}

-- Handling one message is one round.
spin_one :
    (env : Environment) (message : ActiveConnections) (m : ModemInterface)
    → env.inbox 0 ≡ connections_message message ∷ []
    → (callback_active_connections message m).0 ≡ ok tt
    → spin_rounds env 1 0 m ≡ (ok tt, (callback_active_connections message m).1)
unfolding spin_rounds spin_once handle
spin_one env message m e f = rw (e, f) refl

connected_there :
    (type : Protocol) (port : ℕ) (s : System Node) (m : ModemInterface)
    → Knows s m
    → connected_at type port s.modem ≡ true
    → is_connected type port m ≡ ok true
connected_there Protocol.tcp port s m w e = w.knows_tcp port ∙ ap ok e
connected_there Protocol.udp port s m w e = w.knows_udp port ∙ ap ok e
connected_there (Protocol.unknown _) port s m w e = cc

module _ (s : System Node) (c : IsConsistent s) (m : ModemInterface) (f : IsFollowing m)
    (message : ActiveConnections) (l : latched s.app.output ≡ some message) where
  -- A call of wait_for_connection in which ROS stays up, the latched message of a consistent node
  -- is the only thing that the first spinOnce finds, and the deadline has not passed before that,
  -- answers true for every port that the node's driver has connected, where the interface holds
  -- handles for exactly the connections of its old lists.
  pub wait_for_node :
      (env : Environment) (type : Protocol) (port timeout start fuel : ℕ)
      → env.inbox 0 ≡ connections_message message ∷ []
      → ((i : ℕ) → i ≤ 1 → env.is_ok i ≡ true)
      → env.now 0 < start + timeout
      → 1 < fuel
      → connected_at type port s.modem ≡ true
      → (m' : ModemInterface) × (wait_for_connection env fuel type port timeout start m
          ≡ some (ok true, m'))
  wait_for_node env type port timeout start fuel e up early h at =
      let (done, _, knows) = follow_node s c m f message l in
      let once = spin_one env message m e done in
      wait_connects env type port timeout start m 1 fuel h
        (
          λ i a b. up i (omega arith),
          λ i a b. subst (λ j. env.now j < start + timeout) (omega arith) early,
        )
        (ap (λ y. y.0) once)
        (ap (λ y. is_connected type port y.1) once ∙ connected_there type port s _ knows at)
