-- ===== src/Link/Joint.antt =====
-- The node (src/ros_node.cpp) and an interface (src/modem_interface.cpp) that run side by side: the
-- node serves requests, and ROS brings its messages to the interface, late or more than once.
use ros_driver_modem.Prelude.{
  ℕ, zero, suc, ◌≡◌, subst, ap, ◌∙◌, some, List, [], ◌∷◌, arith, get_elem?, inl, inr, Bool-cases,
}
use ros_driver_modem.Types.{Address, ok}
use ros_driver_modem.Modem.{System}
use ros_driver_modem.Driver.{
  p_pending_tcp_connections, p_active_tcp_connections, p_active_udp_connections,
}
use ros_driver_modem.Topics.{Text}
use ros_driver_modem.RosNode.{Node, ActiveConnections, DataPacket, active_connections}
use ros_driver_modem.RosNode.Tables.{latched}
use ros_driver_modem.RosNode.Agreement.{IsConsistent}
use ros_driver_modem.RosNode.Reachable.{Request, Admissible, serve, serve-IsConsistent}
use ros_driver_modem.ModemInterface
use ros_driver_modem.ModemInterface.{
  ModemInterface, callback_active_connections, callback_tcp_rx, callback_udp_rx,
}
use ros_driver_modem.ModemInterface.Differences.{Distinct}
use ros_driver_modem.ModemInterface.Following.{IsFollowing, callback-IsFollowing}
use ros_driver_modem.ModemInterface.Agreement.{Ascends-Distinct, Knows, follow_node}

module _ (to_string : Address → Text) where
  -- From a node and an interface, what they may become, with the messages that the node has latched
  -- since, the newest first. Any of them may be delivered, and packets come in between.
  pub data Joint (s : System Node) (m : ModemInterface)
      : System Node → ModemInterface → List ActiveConnections → Type 0 where
    begins :
        {message : ActiveConnections}
        → latched s.app.output ≡ some message
        → Joint s m s m (message ∷ [])
    serves :
        {t : System Node} {n : ModemInterface} {past : List ActiveConnections}
        {message : ActiveConnections}
        → Joint s m t n past
        → (r : Request) → Admissible r t
        → latched (serve to_string r t).app.output ≡ some message
        → Joint s m (serve to_string r t) n (message ∷ past)
    delivers :
        {t : System Node} {n : ModemInterface} {past : List ActiveConnections}
        {message : ActiveConnections}
        → Joint s m t n past
        → (k : ℕ) → get_elem? past k ≡ some message
        → Joint s m t (callback_active_connections message n).1 past
    hears_tcp :
        {t : System Node} {n : ModemInterface} {past : List ActiveConnections}
        → Joint s m t n past
        → (port : ℕ) (packet : DataPacket) → Joint s m t (callback_tcp_rx port packet n).1 past
    hears_udp :
        {t : System Node} {n : ModemInterface} {past : List ActiveConnections}
        → Joint s m t n past
        → (port : ℕ) (packet : DataPacket) → Joint s m t (callback_udp_rx port packet n).1 past

-- A message that lists no active connection twice.
abbrev pub LacksRepetition : ActiveConnections → Type 0
LacksRepetition message = Distinct message.tcp_active × Distinct message.udp_active

latched-Distinct :
    (s : System Node) (message : ActiveConnections)
    → IsConsistent s
    → latched s.app.output ≡ some message
    → LacksRepetition message
unfolding active_connections p_active_tcp_connections p_active_udp_connections
latched-Distinct s message c l =
    let same : active_connections s.modem ≡ message = ground (arith, c.current) in
    subst LacksRepetition same
      (Ascends-Distinct _ c.sound.active_sorted, Ascends-Distinct _ c.sound.udp_sorted)

-- The lists of an interface are those of the node's driver, in the same order.
pub record SameLists (s : System Node) (m : ModemInterface) : Type 0 where
  pub same_pending : ModemInterface.p_pending_tcp_connections m ≡ p_pending_tcp_connections s.modem
  pub same_active : ModemInterface.p_active_tcp_connections m ≡ p_active_tcp_connections s.modem
  pub same_udp : ModemInterface.p_active_udp_connections m ≡ p_active_udp_connections s.modem

SameLists-latched :
    (s : System Node) (message : ActiveConnections) (m : ModemInterface)
    → IsConsistent s
    → latched s.app.output ≡ some message
    → m.pending_tcp_connections ≡ message.tcp_pending
    → m.active_tcp_connections ≡ message.tcp_active
    → m.active_udp_connections ≡ message.udp_active
    → SameLists s m
unfolding active_connections ModemInterface.p_pending_tcp_connections
    ModemInterface.p_active_tcp_connections ModemInterface.p_active_udp_connections
SameLists-latched s message m c l a b e =
    let same : message ≡ active_connections s.modem = ground (arith, c.current) in
    record {
      same_pending = a ∙ ap (λ x. x.tcp_pending) same;
      same_active = b ∙ ap (λ x. x.tcp_active) same;
      same_udp = e ∙ ap (λ x. x.udp_active) same;
    }

-- What an interface gives to the attached callbacks does not concern its handles.
tcp_rx-IsFollowing :
    (port : ℕ) (packet : DataPacket) (m : ModemInterface)
    → IsFollowing m
    → IsFollowing (callback_tcp_rx port packet m).1
unfolding callback_tcp_rx
tcp_rx-IsFollowing port packet m f = elim (Bool-cases m.callback_tcp_attached) [
  | inl attached ↦ rw attached (record {
    tcp_follows = f.tcp_follows;
    udp_follows = f.udp_follows;
    tcp_distinct = f.tcp_distinct;
    udp_distinct = f.udp_distinct;
  })
  | inr detached ↦ simp detached f
]

udp_rx-IsFollowing :
    (port : ℕ) (packet : DataPacket) (m : ModemInterface)
    → IsFollowing m
    → IsFollowing (callback_udp_rx port packet m).1
unfolding callback_udp_rx
udp_rx-IsFollowing port packet m f = elim (Bool-cases m.callback_udp_attached) [
  | inl attached ↦ rw attached (record {
    tcp_follows = f.tcp_follows;
    udp_follows = f.udp_follows;
    tcp_distinct = f.tcp_distinct;
    udp_distinct = f.udp_distinct;
  })
  | inr detached ↦ simp detached f
]

module _ (to_string : Address → Text) {s : System Node} {m : ModemInterface} (c : IsConsistent s)
    (f : IsFollowing m) where
  Joint-IsConsistent :
      {t : System Node} {n : ModemInterface} {past : List ActiveConnections}
      → Joint to_string s m t n past
      → IsConsistent t
  Joint-IsConsistent (begins l) = c
  Joint-IsConsistent (serves {t} j r h l) =
      serve-IsConsistent to_string r t h (Joint-IsConsistent j)
  Joint-IsConsistent (delivers j k e) = Joint-IsConsistent j
  Joint-IsConsistent (hears_tcp j port packet) = Joint-IsConsistent j
  Joint-IsConsistent (hears_udp j port packet) = Joint-IsConsistent j

  -- Every message of the past.
  Joint-LacksRepetition :
      {t : System Node} {n : ModemInterface} {past : List ActiveConnections}
      {message : ActiveConnections}
      → Joint to_string s m t n past
      → (k : ℕ) → get_elem? past k ≡ some message
      → LacksRepetition message
  unfolding get_elem?
  Joint-LacksRepetition {message} (begins l) zero e =
      latched-Distinct s message c (ground (arith, l))
  Joint-LacksRepetition (begins l) (suc k) e = cc
  Joint-LacksRepetition {message} (serves {t} j r h l) zero e =
      latched-Distinct (serve to_string r t) message (Joint-IsConsistent (serves j r h l))
        (ground (arith, l))
  Joint-LacksRepetition (serves j r h l) (suc k) e = Joint-LacksRepetition j k e
  Joint-LacksRepetition (delivers j i g) k e = Joint-LacksRepetition j k e
  Joint-LacksRepetition (hears_tcp j port packet) k e = Joint-LacksRepetition j k e
  Joint-LacksRepetition (hears_udp j port packet) k e = Joint-LacksRepetition j k e

  Joint-IsFollowing :
      {t : System Node} {n : ModemInterface} {past : List ActiveConnections}
      → Joint to_string s m t n past
      → IsFollowing n
  Joint-IsFollowing (begins l) = f
  Joint-IsFollowing (serves j r h l) = Joint-IsFollowing j
  Joint-IsFollowing (delivers {n} {message} j k e) =
      let (d, u) = Joint-LacksRepetition j k e in
      (callback-IsFollowing message n (Joint-IsFollowing j) d u).1
  Joint-IsFollowing (hears_tcp {n} j port packet) =
      tcp_rx-IsFollowing port packet n (Joint-IsFollowing j)
  Joint-IsFollowing (hears_udp {n} j port packet) =
      udp_rx-IsFollowing port packet n (Joint-IsFollowing j)

  -- The newest message is the one that is latched.
  Joint-newest :
      {t : System Node} {n : ModemInterface} {newest : ActiveConnections}
      {older : List ActiveConnections}
      → Joint to_string s m t n (newest ∷ older)
      → latched t.app.output ≡ some newest
  Joint-newest (begins l) = l
  Joint-newest (serves j r h l) = l
  Joint-newest (delivers j k e) = Joint-newest j
  Joint-newest (hears_tcp j port packet) = Joint-newest j
  Joint-newest (hears_udp j port packet) = Joint-newest j

  -- A consistent node and an interface run side by side: the node serves any requests, and ROS
  -- brings any of the messages that the node has latched since, late or more than once, and any
  -- packets. Whichever of those messages is delivered next, nothing is thrown, the interface takes
  -- over its lists of active connections, and it holds handles for exactly the connections of its
  -- lists, provided that it did so at the start. The operating system must bind the ports that it
  -- is asked for, and must not let an accept succeed once its acceptor is closed.
  pub any_message_is_safe :
      {t : System Node} {n : ModemInterface} {past : List ActiveConnections}
      {message : ActiveConnections}
      → Joint to_string s m t n past
      → (k : ℕ) → get_elem? past k ≡ some message
      → (let x = callback_active_connections message n in
          (x.0 ≡ ok tt)
          × IsFollowing x.1
          × (x.1.active_tcp_connections ≡ message.tcp_active)
          × (x.1.active_udp_connections ≡ message.udp_active))
  any_message_is_safe {n} {message} j k e =
      let (d, u) = Joint-LacksRepetition j k e in
      let (done, follows, _, g, h) = callback-IsFollowing message n (Joint-IsFollowing j) d u in
      (done, follows, g, h)

  -- A consistent node and an interface run side by side: the node serves any requests, and ROS
  -- brings any of the messages that the node has latched since, late or more than once, and any
  -- packets. Whenever then the newest message is delivered, nothing is thrown, the interface holds
  -- handles for exactly the connections of its lists, is_connected and is_pending answer for every
  -- port as the maps of the node's driver do, and the lists that it tells of are those of the
  -- driver, in the same order, provided that the interface held handles for exactly the
  -- connections of its lists at the start. The operating system must bind the ports that it is
  -- asked for, and must not let an accept succeed once its acceptor is closed.
  pub newest_message_agrees :
      {t : System Node} {n : ModemInterface} {newest : ActiveConnections}
      {older : List ActiveConnections}
      → Joint to_string s m t n (newest ∷ older)
      → (let x = callback_active_connections newest n in
          (x.0 ≡ ok tt) × IsFollowing x.1 × Knows t x.1 × SameLists t x.1)
  newest_message_agrees {t} {n} {newest} j =
      let c = Joint-IsConsistent j in
      let f = Joint-IsFollowing j in
      let l = Joint-newest j in
      let (d, u) = latched-Distinct t newest c l in
      let (done, follows, knows) = follow_node t c n f newest l in
      let (_, _, a, b, e) = callback-IsFollowing newest n f d u in
      (done, follows, knows, SameLists-latched t newest _ c l a b e)
