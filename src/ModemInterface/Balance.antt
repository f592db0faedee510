-- ===== src/ModemInterface/Balance.antt =====
-- The handles that an interface (src/modem_interface.cpp) has opened and not shut are those of its
-- maps.
use ros_driver_modem.Prelude.{
  ℕ, ◌+◌, ◌≡◌, Bool, true, false, List, [], ◌∷◌, arith, inl, inr, Option-cases,
}
use ros_driver_modem.StdMap.{lookup, contains, erase}
use ros_driver_modem.StdMap.Laws.{lookup-insert}
use ros_driver_modem.StdMap.Order.{IsSorted, insert-IsSorted, erase-IsSorted}
use ros_driver_modem.StdMap.Counting.{one_if, count, count-insert_new, count-erase}
use ros_driver_modem.Types.{Protocol, ok}
use ros_driver_modem.Topics.{Text, rx_topic, tx_topic}
use ros_driver_modem.RosNode.{name_at}
use ros_driver_modem.ModemInterface.{
  Action, opens_sender, opens_subscriber, shuts_down, Handles, has_port, drop_handles, drop_all,
  add_handles, add_all, remove_duplicates, change_handles,
}
use ros_driver_modem.ModemInterface.Differences.{
  Distinct, removed_lem, added_lem, removed-Distinct, added-Distinct,
}
use ros_driver_modem.ModemInterface.Handling.{
  AllThere, dropped, still_there, drop_handles-ok, drop_all_lem, and_then-ok,
}
use ros_driver_modem.ModemInterface.Following.{Follows}

-- Dropping the handles of a port that has both.
dropped_lem :
    (p : ℕ) (h : Handles)
    → contains p h.senders ≡ true
    → contains p h.subscribers ≡ true
    → dropped p h ≡ record {
      senders = erase p h.senders;
      subscribers = erase p h.subscribers;
      actions = shuts_down (name_at p h.subscribers) ∷ shuts_down (name_at p h.senders) ∷ h.actions;
    }
unfolding drop_handles
dropped_lem p h e f = ground arith

module _ (q : Text → Bool) where
  -- How many handles with a name that satisfies the test were opened, and shut.
  unfoldable pub opened : List Action → ℕ
  opened [] = 0
  opened (opens_sender name ∷ actions) = one_if (q name) + opened actions
  opened (opens_subscriber name ∷ actions) = one_if (q name) + opened actions
  opened (shuts_down name ∷ actions) = opened actions

  unfoldable pub shut : List Action → ℕ
  shut [] = 0
  shut (opens_sender name ∷ actions) = shut actions
  shut (opens_subscriber name ∷ actions) = shut actions
  shut (shuts_down name ∷ actions) = one_if (q name) + shut actions

  pub record IsBalanced (h : Handles) : Type 0 where
    pub balance : opened h.actions ≡ shut h.actions + (count q h.senders + count q h.subscribers)
    pub senders_sorted : IsSorted h.senders
    pub subscribers_sorted : IsSorted h.subscribers

  drop_handles-IsBalanced :
      (p : ℕ) (h : Handles)
      → contains p h.senders ≡ true
      → contains p h.subscribers ≡ true
      → IsBalanced h
      → IsBalanced (dropped p h)
  unfolding drop_handles opened shut contains
  drop_handles-IsBalanced p h e f b = elim (Option-cases (lookup p h.senders)) [
    | inl g ↦ ground arith
    | inr (name, g) ↦ elim (Option-cases (lookup p h.subscribers)) [
      | inl g' ↦ ground arith
      | inr (name', g') ↦ rw (dropped_lem p h e f) (record {
        balance = ground (
          arith,
          b.balance,
          count-erase q p name h.senders b.senders_sorted g,
          count-erase q p name' h.subscribers b.subscribers_sorted g',
        );
        senders_sorted = erase-IsSorted p h.senders b.senders_sorted;
        subscribers_sorted = erase-IsSorted p h.subscribers b.subscribers_sorted;
      })
    ]
  ]

  drop_all-IsBalanced :
      (ports : List ℕ) (h : Handles)
      → Distinct ports
      → AllThere ports h
      → IsBalanced h
      → IsBalanced (drop_all ports h).1
  unfolding drop_all has_port
  drop_all-IsBalanced [] h d a b = b
  drop_all-IsBalanced (p ∷ ports) h d a b =
      let refl_there : has_port p (p ∷ ports) ≡ true = ground arith in
      let (e, f) = a p refl_there in
      let there : AllThere ports (dropped p h) =
        λ r g. still_there p r ports h (a p refl_there) (a r (ground arith)) d.0 g in
      rw (and_then-ok _ (dropped p h) (drop_all ports (dropped p h)) (drop_handles-ok p h e f))
        (drop_all-IsBalanced ports (dropped p h) d.1 there (drop_handles-IsBalanced p h e f b))

  -- No listed port has a handle.
  abbrev NoneThere : List ℕ → Handles → Type 0
  NoneThere ports h =
      (p : ℕ)
      → has_port p ports ≡ true
      → (contains p h.senders ≡ false) × (contains p h.subscribers ≡ false)

  add_all-IsBalanced :
      (type : Protocol) (ports : List ℕ) (h : Handles)
      → Distinct ports
      → NoneThere ports h
      → IsBalanced h
      → IsBalanced (add_all type ports h)
  unfolding add_all add_handles opened shut has_port contains
  add_all-IsBalanced type [] h d a b = b
  add_all-IsBalanced type (p ∷ ports) h d a b =
      let (e, f) = a p (ground arith) in
      add_all-IsBalanced type ports (add_handles type p h) d.1
        (λ r g.
          let (e', f') = a r (ground arith) in
          ground (
            arith,
            d.0,
            lookup-insert r p (tx_topic type p) h.senders,
            lookup-insert r p (rx_topic type p) h.subscribers,
          ))
        (record {
          balance = ground (
            arith,
            b.balance,
            count-insert_new q p (tx_topic type p) h.senders e,
            count-insert_new q p (rx_topic type p) h.subscribers f,
          );
          senders_sorted = insert-IsSorted p (tx_topic type p) h.senders b.senders_sorted;
          subscribers_sorted =
              insert-IsSorted p (rx_topic type p) h.subscribers b.subscribers_sorted;
        })

  -- A new list of connections.
  pub change_handles-IsBalanced :
      (type : Protocol) (before after : List ℕ) (h : Handles)
      → Follows type before h
      → Distinct before
      → Distinct after
      → IsBalanced h
      → IsBalanced (change_handles type before after h).1
  unfolding change_handles contains
  change_handles-IsBalanced type before after h f d e b =
      let (removed, added) = remove_duplicates before after in
      let there : AllThere removed h =
        λ p g. ground (arith, removed_lem p before after d e, f.senders_at p, f.subscribers_at p) in
      let once = removed-Distinct before after d e in
      let h1 : Handles = (drop_all removed h).1 in
      let (done, w) = drop_all_lem removed h once there in
      rw (and_then-ok (drop_all removed h).0 h1 (ok tt, add_all type added h1) done) (
        add_all-IsBalanced type added h1 (added-Distinct before after e)
          (λ p g. ground (
            arith,
            w.senders_at p,
            w.subscribers_at p,
            f.senders_at p,
            f.subscribers_at p,
            removed_lem p before after d e,
            added_lem p before after d e,
          ))
          (drop_all-IsBalanced removed h once there b))
