-- ===== src/ModemInterface/Handling.antt =====
-- The handles of src/modem_interface.cpp after connections are dropped and added.
use ros_driver_modem.Prelude.{
  ℕ, ◌≡◌, refl, true, false, none, some, List, [], ◌∷◌, arith, ◌==◌, if◌then◌else◌,
}
use ros_driver_modem.StdMap.{lookup, contains}
use ros_driver_modem.StdMap.Laws.{lookup-insert, lookup-erase}
use ros_driver_modem.Types.{Protocol, Result, ok, throws, undefined}
use ros_driver_modem.Topics.{rx_topic, tx_topic}
use ros_driver_modem.ModemInterface.{
  Handles, has_port, and_then, drop_handles, drop_all, add_handles, add_all,
}
use ros_driver_modem.ModemInterface.Differences.{Distinct}

-- Every listed port has both of its handles.
abbrev pub AllThere : List ℕ → Handles → Type 0
AllThere ports h =
    (p : ℕ)
    → has_port p ports ≡ true
    → (contains p h.senders ≡ true) × (contains p h.subscribers ≡ true)

-- The handles of the first, without the listed ports.
pub record IsWithout (ports : List ℕ) (h h' : Handles) : Type 0 where
  pub senders_at :
      (q : ℕ) → lookup q h'.senders ≡ (if has_port q ports then none else lookup q h.senders)
  pub subscribers_at :
      (q : ℕ)
      → lookup q h'.subscribers ≡ (if has_port q ports then none else lookup q h.subscribers)

-- A port that is there.
abbrev pub dropped : ℕ → Handles → Handles
dropped p h = (drop_handles p h).1

pub drop_handles-ok :
    (p : ℕ) (h : Handles)
    → contains p h.senders ≡ true
    → contains p h.subscribers ≡ true
    → (drop_handles p h).0 ≡ ok tt
unfolding drop_handles
drop_handles-ok p h e f = ground arith

drop_handles-senders :
    (p q : ℕ) (h : Handles)
    → contains p h.senders ≡ true
    → contains p h.subscribers ≡ true
    → lookup q (dropped p h).senders ≡ (if q == p then none else lookup q h.senders)
unfolding drop_handles
drop_handles-senders p q h e f = ground (arith, lookup-erase q p h.senders)

drop_handles-subscribers :
    (p q : ℕ) (h : Handles)
    → contains p h.senders ≡ true
    → contains p h.subscribers ≡ true
    → lookup q (dropped p h).subscribers ≡ (if q == p then none else lookup q h.subscribers)
unfolding drop_handles
drop_handles-subscribers p q h e f = ground (arith, lookup-erase q p h.subscribers)

-- Whether or not the first part is an exception.
pub and_then-either :
    {S : Type 0} (P : S → Type 0) (x : Result (Unit {0})) (s : S) (rest : Result (Unit {0}) × S)
    → P s
    → P rest.1
    → P (and_then (x, s) rest).1
and_then-either P (ok _) s rest f g = g
and_then-either P (throws e) s rest f g = f
and_then-either P undefined s rest f g = f

pub and_then-ok :
    {S : Type 0} (x : Result (Unit {0})) (s : S) (rest : Result (Unit {0}) × S)
    → x ≡ ok tt
    → and_then (x, s) rest ≡ rest
and_then-ok (ok _) s rest e = refl
and_then-ok (throws _) s rest e = cc
and_then-ok undefined s rest e = cc

pub still_there :
    (p q : ℕ) (ports : List ℕ) (h : Handles)
    → (contains p h.senders ≡ true) × (contains p h.subscribers ≡ true)
    → (contains q h.senders ≡ true) × (contains q h.subscribers ≡ true)
    → has_port p ports ≡ false
    → has_port q ports ≡ true
    → (contains q (dropped p h).senders ≡ true) × (contains q (dropped p h).subscribers ≡ true)
unfolding contains
still_there p q ports h (e, f) b n g =
    ground (arith, drop_handles-senders p q h e f, drop_handles-subscribers p q h e f)

-- Dropping ports that are there, each once, does not throw.
pub drop_all_lem :
    (ports : List ℕ) (h : Handles)
    → Distinct ports
    → AllThere ports h
    → ((drop_all ports h).0 ≡ ok tt) × IsWithout ports h (drop_all ports h).1
unfolding drop_all has_port
drop_all_lem [] h d a = (refl, record { senders_at = λ q. refl; subscribers_at = λ q. refl })
drop_all_lem (p ∷ ports) h d a =
    let refl_there : has_port p (p ∷ ports) ≡ true = ground arith in
    let (e, f) = a p refl_there in
    let there : AllThere ports (dropped p h) =
      λ q g. still_there p q ports h (a p refl_there) (a q (ground arith)) d.0 g in
    let (done, w) = drop_all_lem ports (dropped p h) d.1 there in
    rw (and_then-ok _ (dropped p h) (drop_all ports (dropped p h)) (drop_handles-ok p h e f)) (
      done,
      record {
        senders_at = λ q. ground (arith, w.senders_at q, drop_handles-senders p q h e f);
        subscribers_at =
            λ q. ground (arith, w.subscribers_at q, drop_handles-subscribers p q h e f);
      },
    )

-- Added ports have the handles that they had, or new ones under the right names.
pub add_all-senders :
    (type : Protocol) (q : ℕ) (ports : List ℕ) (h : Handles)
    → lookup q (add_all type ports h).senders ≡ (
        if contains q h.senders
        then lookup q h.senders
        else if has_port q ports
        then some (tx_topic type q)
        else none)
unfolding add_all add_handles has_port contains
add_all-senders type q [] h = ground arith
add_all-senders type q (p ∷ ports) h = ground (
  arith,
  add_all-senders type q ports (add_handles type p h),
  lookup-insert q p (tx_topic type p) h.senders,
)

pub add_all-subscribers :
    (type : Protocol) (q : ℕ) (ports : List ℕ) (h : Handles)
    → lookup q (add_all type ports h).subscribers ≡ (
        if contains q h.subscribers
        then lookup q h.subscribers
        else if has_port q ports
        then some (rx_topic type q)
        else none)
unfolding add_all add_handles has_port contains
add_all-subscribers type q [] h = ground arith
add_all-subscribers type q (p ∷ ports) h = ground (
  arith,
  add_all-subscribers type q ports (add_handles type p h),
  lookup-insert q p (rx_topic type p) h.subscribers,
)
