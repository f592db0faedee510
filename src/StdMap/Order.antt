-- ===== src/StdMap/Order.antt =====
-- The order of the keys of a std::map.
use ros_driver_modem.Prelude.{ℕ, ◌<◌, ◌≡◌, none, List, [], ◌∷◌, arith}
use ros_driver_modem.StdMap.{Map, lookup, contains, place, insert, erase, keys}

-- Ascending, and every element above the bound.
abbrev pub Above : ℕ → List ℕ → Type 0
Above b [] = Unit {0}
Above b (k ∷ ks) = (b < k) × Above k ks

abbrev pub Ascends : List ℕ → Type 0
Ascends [] = Unit {0}
Ascends (k ∷ ks) = Above k ks

pub Above-mono : (a b : ℕ) (ks : List ℕ) → a < b → Above b ks → Above a ks
Above-mono a b [] h s = tt
Above-mono a b (k ∷ ks) h s = (omega arith, s.1)

pub Above-Ascends : (b : ℕ) (ks : List ℕ) → Above b ks → Ascends ks
Above-Ascends b [] s = tt
Above-Ascends b (k ∷ ks) s = s.1

module _ {ℓ} {V : Type ℓ} where
  abbrev pub IsSorted : Map V → Type 0
  IsSorted m = Ascends (keys m)

  place-Above :
      (b k : ℕ) (v : V) (m : Map V)
      → lookup k m ≡ none
      → b < k
      → Above b (keys m)
      → Above b (keys (place k v m))
  unfolding place keys lookup
  place-Above b k v [] h p a = (p, tt)
  place-Above b k v ((j, w) ∷ m) h p a = ground (arith, place-Above j k v m)

  pub insert-IsSorted : (k : ℕ) (v : V) (m : Map V) → IsSorted m → IsSorted (insert k v m)
  unfolding insert contains keys lookup
  insert-IsSorted k v [] s = tt
  insert-IsSorted k v ((j, w) ∷ m) s = ground (arith, place-Above j k v m)

  erase-Above : (b k : ℕ) (m : Map V) → Above b (keys m) → Above b (keys (erase k m))
  unfolding erase keys
  erase-Above b k [] a = tt
  erase-Above b k ((j, w) ∷ m) a =
      ground (arith, erase-Above j k m a.1, Above-mono b j (keys (erase k m)))

  pub erase-IsSorted : (k : ℕ) (m : Map V) → IsSorted m → IsSorted (erase k m)
  unfolding erase keys
  erase-IsSorted k [] s = tt
  erase-IsSorted k ((j, w) ∷ m) s =
      ground (arith, erase-Above j k m s, Above-Ascends j (keys (erase k m)))
