-- ===== src/ModemInterface/Differences.antt =====
-- modem_interface::remove_duplicates (src/modem_interface.cpp) on lists without repetition.
use ros_driver_modem.Prelude.{
  ℕ, ◌≡◌, refl, false, not, ◌&&◌, List, [], ◌∷◌, arith, ◌==◌, if◌then◌else◌,
}
use ros_driver_modem.ModemInterface.{has_port, erase_match, remove_duplicates}

-- No port is listed twice.
abbrev pub Distinct : List ℕ → Type 0
Distinct [] = Unit {0}
Distinct (p ∷ ps) = (has_port p ps ≡ false) × Distinct ps

has_port-erase_match :
    (q p : ℕ) (b : List ℕ)
    → Distinct b
    → has_port q (erase_match p b) ≡ (if q == p then false else has_port q b)
unfolding has_port erase_match
has_port-erase_match q p [] d = ground arith
has_port-erase_match q p (x ∷ b) d = ground (arith, d.0, has_port-erase_match q p b d.1)

erase_match-Distinct : (p : ℕ) (b : List ℕ) → Distinct b → Distinct (erase_match p b)
unfolding has_port erase_match
erase_match-Distinct p [] d = tt
erase_match-Distinct p (x ∷ b) d =
    ground (arith, d.0, d.1, erase_match-Distinct p b d.1, has_port-erase_match x p b d.1)

-- For lists without repetition, remove_duplicates leaves a port in the first list exactly if the
-- first list had it and the second had not.
pub removed_lem :
    (q : ℕ) (a b : List ℕ)
    → Distinct a
    → Distinct b
    → has_port q (remove_duplicates a b).0 ≡ (has_port q a && not (has_port q b))
unfolding has_port remove_duplicates
removed_lem q [] b d e = refl
removed_lem q (p ∷ a) b d e = ground (
  arith,
  d.0,
  removed_lem q a (erase_match p b) d.1 (erase_match-Distinct p b e),
  has_port-erase_match q p b e,
)

-- For lists without repetition, remove_duplicates leaves a port in the second list exactly if the
-- second list had it and the first had not.
pub added_lem :
    (q : ℕ) (a b : List ℕ)
    → Distinct a
    → Distinct b
    → has_port q (remove_duplicates a b).1 ≡ (has_port q b && not (has_port q a))
unfolding has_port remove_duplicates
added_lem q [] b d e = ground arith
added_lem q (p ∷ a) b d e = ground (
  arith,
  d.0,
  added_lem q a (erase_match p b) d.1 (erase_match-Distinct p b e),
  has_port-erase_match q p b e,
)

-- For lists without repetition, remove_duplicates leaves a port in the first list exactly if the
-- first list had it and the second had not, and in the second list exactly if the second list had
-- it and the first had not.
pub remove_duplicates_lem :
    (q : ℕ) (a b : List ℕ)
    → Distinct a
    → Distinct b
    → (has_port q (remove_duplicates a b).0 ≡ (has_port q a && not (has_port q b)))
      × (has_port q (remove_duplicates a b).1 ≡ (has_port q b && not (has_port q a)))
remove_duplicates_lem q a b d e = (removed_lem q a b d e, added_lem q a b d e)

pub removed-Distinct : (a b : List ℕ) → Distinct a → Distinct b → Distinct (remove_duplicates a b).0
unfolding remove_duplicates
removed-Distinct [] b d e = tt
removed-Distinct (p ∷ a) b d e = ground (
  arith,
  d.0,
  removed-Distinct a (erase_match p b) d.1 (erase_match-Distinct p b e),
  removed_lem p a (erase_match p b) d.1 (erase_match-Distinct p b e),
)

pub added-Distinct : (a b : List ℕ) → Distinct b → Distinct (remove_duplicates a b).1
unfolding remove_duplicates
added-Distinct [] b e = e
added-Distinct (p ∷ a) b e =
    ground (arith, added-Distinct a (erase_match p b) (erase_match-Distinct p b e))
