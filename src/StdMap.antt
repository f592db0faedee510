-- ===== src/StdMap.antt =====
-- std::map<uint16_t, T> as the program uses it: entries in ascending order of the port, `insert`
-- that keeps an entry already there, `erase` by key, and the iteration over the keys.
pub mod Laws
pub mod Order
pub mod Counting
use ros_driver_modem.Prelude.{
  ℕ, Bool, true, false, Option, none, some, List, [], ◌∷◌, ltb, ◌==◌, if◌then◌else◌,
}

abbrev pub Map {ℓ} : Type ℓ → Type ℓ
Map V = List (ℕ × V)

module _ {ℓ} {V : Type ℓ} where
  -- `find`, and `at` on a key that is there.
  unfoldable pub lookup : ℕ → Map V → Option V
  lookup k [] = none
  lookup k ((j, v) ∷ m) = if k == j then some v else lookup k m

  -- `count(k) > 0`.
  unfoldable pub contains : ℕ → Map V → Bool
  contains k m = elim (lookup k m) [ none ↦ false | some _ ↦ true ]

  -- A new entry at its place in the order of the keys.
  unfoldable pub place : ℕ → V → Map V → Map V
  place k v [] = (k, v) ∷ []
  place k v ((j, w) ∷ m) = if ltb k j then (k, v) ∷ (j, w) ∷ m else (j, w) ∷ place k v m

  -- `insert`: an entry with the same key stays as it is.
  unfoldable pub insert : ℕ → V → Map V → Map V
  unfolding place contains
  insert k v m = if contains k m then m else place k v m

  -- `erase(k)`.
  unfoldable pub erase : ℕ → Map V → Map V
  erase k [] = []
  erase k ((j, v) ∷ m) = if k == j then erase k m else (j, v) ∷ erase k m

  -- The keys in the order of the iterator.
  unfoldable pub keys : Map V → List ℕ
  keys [] = []
  keys ((k, _) ∷ m) = k ∷ keys m
