-- ===== src/ModemInterface.antt =====
-- src/modem_interface.cpp: the client library's view of the node, which follows the node's latched
-- message with the handles that it holds for each connection.
pub mod Differences
pub mod Handling
pub mod Following
pub mod Agreement
pub mod Sending
pub mod Management
pub mod Waiting
pub mod Rounds
pub mod Patience
pub mod Meeting
pub mod Lifetime
pub mod Balance
pub mod Release
use ros_driver_modem.Prelude.{ℕ, Bool, true, false, List, [], ◌∷◌, ◌++◌, ◌==◌, ◌||◌, if◌then◌else◌}
use ros_driver_modem.StdMap.{Map, contains, insert, erase}
use ros_driver_modem.Types.{
  Protocol, Result, ok, throws, undefined, out_of_range, bad_function_call,
}
use ros_driver_modem.Topics.{Text, rx_topic, tx_topic}
use ros_driver_modem.RosNode.{ActiveConnections, DataPacket, name_at}

-- What is asked of ROS: a handle to send (a service client or a publisher), a subscriber, and to
-- shut one of these down.
pub data Action : Type 0 where
  opens_sender opens_subscriber shuts_down : Text → Action

-- The two maps of a protocol: m_services_send_tcp and m_subscribers_tcp_rx, or m_publishers_udp
-- and m_subscribers_udp_rx. `actions` is what was asked of ROS for them, the newest first.
pub record Handles : Type 0 where
  pub senders : Map Text
  pub subscribers : Map Text
  pub actions : List Action

-- class modem_interface, and the packets that were given to the attached callbacks.
pub record ModemInterface : Type 0 where
  pub pending_tcp_connections : List ℕ
  pub active_tcp_connections : List ℕ
  pub active_udp_connections : List ℕ
  pub tcp_handles : Handles
  pub udp_handles : Handles
  pub callback_tcp_attached : Bool
  pub callback_udp_attached : Bool
  pub given : List (Protocol × ℕ × DataPacket)

-- The loop of is_connected and is_pending.
unfoldable pub has_port : ℕ → List ℕ → Bool
has_port port [] = false
has_port port (p ∷ ps) = port == p || has_port port ps

unfoldable pub is_connected : Protocol → ℕ → ModemInterface → Result Bool
is_connected Protocol.tcp port m = ok (has_port port m.active_tcp_connections)
is_connected Protocol.udp port m = ok (has_port port m.active_udp_connections)
is_connected (Protocol.unknown _) port m = undefined

unfoldable pub is_pending : ℕ → ModemInterface → Bool
is_pending port m = has_port port m.pending_tcp_connections

-- The inner loop of remove_duplicates: the first match is erased.
unfoldable pub erase_match : ℕ → List ℕ → List ℕ
erase_match port [] = []
erase_match port (p ∷ ps) = if port == p then ps else p ∷ erase_match port ps

-- What is left of both lists.
unfoldable pub remove_duplicates : List ℕ → List ℕ → List ℕ × List ℕ
remove_duplicates [] b = ([], b)
remove_duplicates (p ∷ a) b =
    let (a', b') = remove_duplicates a (erase_match p b) in
    if has_port p b then (a', b') else (p ∷ a', b')

-- One turn of the loop over the removed connections: `at` throws for a port that is not there.
unfoldable pub drop_handles : ℕ → Handles → Result (Unit {0}) × Handles
unfolding contains
drop_handles port h =
    let h1 : Handles = record h {
      senders = erase port h.senders;
      actions = shuts_down (name_at port h.senders) ∷ h.actions;
    } in
    let h2 : Handles = record h1 {
      subscribers = erase port h1.subscribers;
      actions = shuts_down (name_at port h1.subscribers) ∷ h1.actions;
    } in
    if contains port h.senders
    then (if contains port h.subscribers then (ok tt, h2) else (throws out_of_range, h1))
    else (throws out_of_range, h)

-- What throws ends the callback.
abbrev pub and_then :
    {S : Type 0} → Result (Unit {0}) × S → Result (Unit {0}) × S → Result (Unit {0}) × S
and_then (ok _, h) rest = rest
and_then (throws e, h) rest = (throws e, h)
and_then (undefined, h) rest = (undefined, h)

unfoldable pub drop_all : List ℕ → Handles → Result (Unit {0}) × Handles
drop_all [] h = (ok tt, h)
drop_all (port ∷ ports) h =
    let (r, h1) = drop_handles port h in let rest = drop_all ports h1 in and_then (r, h1) rest

-- One turn of the loop over the added connections: an entry already there stays.
unfoldable pub add_handles : Protocol → ℕ → Handles → Handles
add_handles type port h = record {
  senders = insert port (tx_topic type port) h.senders;
  subscribers = insert port (rx_topic type port) h.subscribers;
  actions = opens_subscriber (rx_topic type port) ∷ opens_sender (tx_topic type port) ∷ h.actions;
}

unfoldable pub add_all : Protocol → List ℕ → Handles → Handles
add_all type [] h = h
add_all type (port ∷ ports) h = add_all type ports (add_handles type port h)

-- The handles of a protocol once its list of active ports changes from the first to the second.
unfoldable pub change_handles : Protocol → List ℕ → List ℕ → Handles → Result (Unit {0}) × Handles
change_handles type before after h =
    let (removed, added) = remove_duplicates before after in
    let (r, h1) = drop_all removed h in and_then (r, h1) (ok tt, add_all type added h1)

unfoldable pub callback_active_connections :
    ActiveConnections → ModemInterface → Result (Unit {0}) × ModemInterface
callback_active_connections message m =
    let (r, t) =
      change_handles Protocol.tcp m.active_tcp_connections message.tcp_active m.tcp_handles in
    let (q, u) =
      change_handles Protocol.udp m.active_udp_connections message.udp_active m.udp_handles in
    let m1 : ModemInterface = record m { tcp_handles = t } in
    let m2 : ModemInterface = record m1 { udp_handles = u } in
    and_then (r, m1)
      (and_then (q, m2)
        (
          ok tt,
          record m2 {
            pending_tcp_connections = message.tcp_pending;
            active_tcp_connections = message.tcp_active;
            active_udp_connections = message.udp_active;
          },
        ))

unfoldable pub p_active_tcp_connections : ModemInterface → List ℕ
p_active_tcp_connections m = m.active_tcp_connections

unfoldable pub p_pending_tcp_connections : ModemInterface → List ℕ
p_pending_tcp_connections m = m.pending_tcp_connections

unfoldable pub p_active_udp_connections : ModemInterface → List ℕ
p_active_udp_connections m = m.active_udp_connections

-- Calling a std::function that is empty throws.
unfoldable pub callback_tcp_rx :
    ℕ → DataPacket → ModemInterface → Result (Unit {0}) × ModemInterface
callback_tcp_rx port message m =
    if m.callback_tcp_attached
    then (ok tt, record m { given = (Protocol.tcp, port, message) ∷ m.given })
    else (throws bad_function_call, m)

unfoldable pub callback_udp_rx :
    ℕ → DataPacket → ModemInterface → Result (Unit {0}) × ModemInterface
callback_udp_rx port message m =
    if m.callback_udp_attached
    then (ok tt, record m { given = (Protocol.udp, port, message) ∷ m.given })
    else (throws bad_function_call, m)

unfoldable pub attach_callback_tcp_rx : ModemInterface → ModemInterface
attach_callback_tcp_rx m = record m { callback_tcp_attached = true }

unfoldable pub detach_callback_tcp_rx : ModemInterface → ModemInterface
detach_callback_tcp_rx m = record m { callback_tcp_attached = false }

unfoldable pub attach_callback_udp_rx : ModemInterface → ModemInterface
attach_callback_udp_rx m = record m { callback_udp_attached = true }

unfoldable pub detach_callback_udp_rx : ModemInterface → ModemInterface
detach_callback_udp_rx m = record m { callback_udp_attached = false }
