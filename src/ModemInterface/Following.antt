-- ===== src/ModemInterface/Following.antt =====
-- modem_interface::callback_active_connections (src/modem_interface.cpp) and the handles that it
-- keeps.
use ros_driver_modem.Prelude.{ℕ, ◌≡◌, refl, none, some, List, arith, if◌then◌else◌}
use ros_driver_modem.StdMap.{lookup, contains}
use ros_driver_modem.Types.{Protocol, ok}
use ros_driver_modem.Topics.{rx_topic, tx_topic}
use ros_driver_modem.RosNode.{ActiveConnections}
use ros_driver_modem.ModemInterface.{
  Handles, ModemInterface, has_port, and_then, remove_duplicates, drop_all, add_all, change_handles,
  callback_active_connections,
}
use ros_driver_modem.ModemInterface.Differences.{Distinct, removed_lem, added_lem, removed-Distinct}
use ros_driver_modem.ModemInterface.Handling.{
  AllThere, IsWithout, and_then-ok, drop_all_lem, add_all-senders, add_all-subscribers,
}

-- A sender and a subscriber of the right name for exactly the listed ports.
pub record Follows (type : Protocol) (ports : List ℕ) (h : Handles) : Type 0 where
  pub senders_at :
      (p : ℕ) → lookup p h.senders ≡ (if has_port p ports then some (tx_topic type p) else none)
  pub subscribers_at :
      (p : ℕ) → lookup p h.subscribers ≡ (if has_port p ports then some (rx_topic type p) else none)

module _ (type : Protocol) (before after : List ℕ) (h : Handles) where
  abbrev removed : List ℕ
  removed = (remove_duplicates before after).0

  abbrev added : List ℕ
  added = (remove_duplicates before after).1

  pub change_handles_lem :
      Follows type before h
      → Distinct before
      → Distinct after
      → ((change_handles type before after h).0 ≡ ok tt)
        × Follows type after (change_handles type before after h).1
  unfolding change_handles contains
  change_handles_lem f d e =
      let there : AllThere removed h =
        λ p g. ground (arith, removed_lem p before after d e, f.senders_at p, f.subscribers_at p) in
      let h1 : Handles = (drop_all removed h).1 in
      let dropping = drop_all_lem removed h (removed-Distinct before after d e) there in
      let w : IsWithout removed h h1 = dropping.1 in
      rw (and_then-ok (drop_all removed h).0 h1 (ok tt, add_all type added h1) dropping.0) (
        refl,
        record {
          senders_at = λ p. ground (
            arith,
            add_all-senders type p added h1,
            w.senders_at p,
            f.senders_at p,
            removed_lem p before after d e,
            added_lem p before after d e,
          );
          subscribers_at = λ p. ground (
            arith,
            add_all-subscribers type p added h1,
            w.subscribers_at p,
            f.subscribers_at p,
            removed_lem p before after d e,
            added_lem p before after d e,
          );
        },
      )

-- The interface holds handles for exactly the connections of its lists, which have no repetition.
pub record IsFollowing (m : ModemInterface) : Type 0 where
  pub tcp_follows : Follows Protocol.tcp m.active_tcp_connections m.tcp_handles
  pub udp_follows : Follows Protocol.udp m.active_udp_connections m.udp_handles
  pub tcp_distinct : Distinct m.active_tcp_connections
  pub udp_distinct : Distinct m.active_udp_connections

module _ (message : ActiveConnections) (m : ModemInterface) where
  -- Handling a message whose lists of active connections have no repetition keeps an interface in
  -- step: nothing is thrown, it takes over the lists of the message, and it has a sender and a
  -- subscriber of the right name for exactly the active connections of each protocol, where it had
  -- them for its old lists.
  pub callback-IsFollowing :
      IsFollowing m
      → Distinct message.tcp_active
      → Distinct message.udp_active
      → (let x = callback_active_connections message m in
          (x.0 ≡ ok tt)
          × IsFollowing x.1
          × (x.1.pending_tcp_connections ≡ message.tcp_pending)
          × (x.1.active_tcp_connections ≡ message.tcp_active)
          × (x.1.active_udp_connections ≡ message.udp_active))
  unfolding callback_active_connections
  callback-IsFollowing f d e =
      let t =
        change_handles_lem Protocol.tcp m.active_tcp_connections message.tcp_active m.tcp_handles
          f.tcp_follows f.tcp_distinct d in
      let u =
        change_handles_lem Protocol.udp m.active_udp_connections message.udp_active m.udp_handles
          f.udp_follows f.udp_distinct e in
      rw (t.0, u.0, and_then)
        (
          refl,
          record { tcp_follows = t.1; udp_follows = u.1; tcp_distinct = d; udp_distinct = e },
          refl,
          refl,
          refl,
        )
