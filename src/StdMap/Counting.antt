-- ===== src/StdMap/Counting.antt =====
-- How many values of a std::map satisfy a test.
use ros_driver_modem.Prelude.{
  ℕ, ◌+◌, ◌≡◌, refl, Bool, false, none, some, [], ◌∷◌, arith, if◌then◌else◌,
}
use ros_driver_modem.StdMap.{Map, lookup, contains, place, insert, erase, keys}
use ros_driver_modem.StdMap.Laws.{erase_absent}
use ros_driver_modem.StdMap.Order.{Above, Above-mono, Above-Ascends, IsSorted}

-- One, if the test holds.
abbrev pub one_if : Bool → ℕ
one_if b = if b then 1 else 0

module _ {V : Type 0} (q : V → Bool) where
  unfoldable pub count : Map V → ℕ
  count [] = 0
  count ((k, v) ∷ m) = one_if (q v) + count m

  count-place : (k : ℕ) (v : V) (m : Map V) → count (place k v m) ≡ one_if (q v) + count m
  unfolding count place
  count-place k v [] = refl
  count-place k v ((j, w) ∷ m) = ground (arith, count-place k v m)

  pub count-insert_new :
      (k : ℕ) (v : V) (m : Map V)
      → contains k m ≡ false
      → count (insert k v m) ≡ one_if (q v) + count m
  unfolding insert
  count-insert_new k v m e = ground (arith, count-place k v m)

  lookup-Above : (k : ℕ) (m : Map V) → Above k (keys m) → lookup k m ≡ none
  unfolding lookup keys
  lookup-Above k [] h = refl
  lookup-Above k ((j, w) ∷ m) h = ground (arith, lookup-Above k m (Above-mono k j (keys m) h.0 h.1))

  pub count-erase :
      (k : ℕ) (v : V) (m : Map V)
      → IsSorted m
      → lookup k m ≡ some v
      → count (erase k m) + one_if (q v) ≡ count m
  unfolding count erase lookup keys
  count-erase k v [] s e = cc
  count-erase k v ((j, w) ∷ m) s e =
      ground (
        arith,
        erase_absent j m (lookup-Above j m s),
        count-erase k v m (Above-Ascends j (keys m) s),
      )
