-- ===== src/ModemInterface/Agreement.antt =====
-- The interface (src/modem_interface.cpp) and the latched message of the node (src/ros_node.cpp).
use ros_driver_modem.Prelude.{ℕ, ◌<◌, ◌≡◌, refl, subst, ap, ◌∙◌, false, some, List, [], ◌∷◌, arith}
use ros_driver_modem.StdMap.{Map, lookup, contains, keys}
use ros_driver_modem.StdMap.Order.{Above, Ascends, Above-Ascends}
use ros_driver_modem.Types.{Protocol, ok}
use ros_driver_modem.Modem.{System}
use ros_driver_modem.Driver.{
  p_pending_tcp_connections, p_active_tcp_connections, p_active_udp_connections,
}
use ros_driver_modem.RosNode.{Node, ActiveConnections, active_connections}
use ros_driver_modem.RosNode.Tables.{latched}
use ros_driver_modem.RosNode.Agreement.{IsConsistent}
use ros_driver_modem.ModemInterface.{
  ModemInterface, has_port, is_connected, is_pending, callback_active_connections,
}
use ros_driver_modem.ModemInterface.Differences.{Distinct}
use ros_driver_modem.ModemInterface.Following.{IsFollowing, callback-IsFollowing}

has_port-Above : (b p : ℕ) (ps : List ℕ) → Above b ps → p < b → has_port p ps ≡ false
unfolding has_port
has_port-Above b p [] a h = refl
has_port-Above b p (q ∷ ps) a h = ground (arith, a.0, has_port-Above q p ps a.1)

has_port-bound : (p : ℕ) (ps : List ℕ) → Above p ps → has_port p ps ≡ false
unfolding has_port
has_port-bound p [] a = refl
has_port-bound p (q ∷ ps) a = ground (arith, a.0, has_port-Above q p ps a.1)

-- A list that ascends has no repetition.
pub Ascends-Distinct : (ps : List ℕ) → Ascends ps → Distinct ps
Ascends-Distinct [] a = tt
Ascends-Distinct (p ∷ ps) a = (has_port-bound p ps a, Ascends-Distinct ps (Above-Ascends p ps a))

has_port-keys : {V : Type 0} (p : ℕ) (m : Map V) → has_port p (keys m) ≡ contains p m
unfolding has_port keys contains lookup
has_port-keys p [] = refl
has_port-keys p (e ∷ m) = ground (arith, has_port-keys p m)

-- What an interface should know of a driver.
pub record Knows (s : System Node) (m : ModemInterface) : Type 0 where
  pub knows_tcp : (p : ℕ) → is_connected Protocol.tcp p m ≡ ok (contains p s.modem.tcp_active)
  pub knows_udp : (p : ℕ) → is_connected Protocol.udp p m ≡ ok (contains p s.modem.udp_active)
  pub knows_pending : (p : ℕ) → is_pending p m ≡ contains p s.modem.tcp_pending

module _ (s : System Node) (c : IsConsistent s) (m : ModemInterface) (f : IsFollowing m) where
  follow_current :
      (let x = callback_active_connections (active_connections s.modem) m in
        (x.0 ≡ ok tt) × IsFollowing x.1 × Knows s x.1)
  unfolding active_connections p_pending_tcp_connections p_active_tcp_connections
      p_active_udp_connections is_connected is_pending
  follow_current =
      let (done, follows, e, g, h) =
        callback-IsFollowing (active_connections s.modem) m f
          (Ascends-Distinct _ c.sound.active_sorted) (Ascends-Distinct _ c.sound.udp_sorted) in
      (
        done,
        follows,
        record {
          knows_tcp =
              λ p. ap (λ ps. ok (has_port p ps)) g ∙ ap ok (has_port-keys p s.modem.tcp_active);
          knows_udp =
              λ p. ap (λ ps. ok (has_port p ps)) h ∙ ap ok (has_port-keys p s.modem.udp_active);
          knows_pending = λ p. ap (has_port p) e ∙ has_port-keys p s.modem.tcp_pending;
        },
      )

  -- When an interface that holds handles for exactly the connections of its lists handles the
  -- latched message of a consistent node, nothing is thrown, the interface holds handles for
  -- exactly the connections of its new lists, and is_connected and is_pending answer for every
  -- port as the maps of the node's driver do.
  pub follow_node :
      (message : ActiveConnections)
      → latched s.app.output ≡ some message
      → (let x = callback_active_connections message m in
          (x.0 ≡ ok tt) × IsFollowing x.1 × Knows s x.1)
  follow_node message l =
      let same : active_connections s.modem ≡ message = ground (arith, c.current) in
      subst
        (λ a.
          (let x = callback_active_connections a m in
            (x.0 ≡ ok tt) × IsFollowing x.1 × Knows s x.1))
        same follow_current
