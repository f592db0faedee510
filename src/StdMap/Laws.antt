-- ===== src/StdMap/Laws.antt =====
-- Lookups in a std::map after `insert` and `erase`, and its list of keys.
use ros_driver_modem.Prelude.{
  ℕ, ◌≡◌, refl, Bool, true, false, none, some, List, [], ◌∷◌, arith, ◌==◌, if◌then◌else◌, ◌||◌,
}
use ros_driver_modem.StdMap.{Map, lookup, contains, place, insert, erase, keys}

-- Is the port in the list?
unfoldable pub listed : ℕ → List ℕ → Bool
listed k [] = false
listed k (j ∷ js) = k == j || listed k js

module _ {ℓ} {V : Type ℓ} where
  lookup-place :
      (j k : ℕ) (v : V) (m : Map V)
      → lookup k m ≡ none
      → lookup j (place k v m) ≡ (if j == k then some v else lookup j m)
  unfolding lookup place
  lookup-place j k v [] h = refl
  lookup-place j k v (e ∷ m) h = ground (arith, lookup-place j k v m)

  pub lookup-insert :
      (j k : ℕ) (v : V) (m : Map V)
      → lookup j (insert k v m)
        ≡ (if contains k m then lookup j m else if j == k then some v else lookup j m)
  unfolding insert contains
  lookup-insert j k v m = ground (arith, lookup-place j k v m)

  -- The usual case: the key is new.
  pub lookup-insert_new :
      (j k : ℕ) (v : V) (m : Map V)
      → lookup k m ≡ none
      → lookup j (insert k v m) ≡ (if j == k then some v else lookup j m)
  unfolding contains
  lookup-insert_new j k v m h = ground (arith, lookup-insert j k v m)

  pub lookup-contains : (k : ℕ) (v : V) (m : Map V) → lookup k m ≡ some v → contains k m ≡ true
  unfolding contains
  lookup-contains k v m e = rw (contains, e) refl

  pub lookup-contains-none : (k : ℕ) (m : Map V) → lookup k m ≡ none → contains k m ≡ false
  unfolding contains
  lookup-contains-none k m e = rw (contains, e) refl

  pub insert_present : (k : ℕ) (v : V) (m : Map V) → contains k m ≡ true → insert k v m ≡ m
  unfolding insert
  insert_present k v m h = ground arith

  pub lookup-erase :
      (j k : ℕ) (m : Map V) → lookup j (erase k m) ≡ (if j == k then none else lookup j m)
  unfolding lookup erase
  lookup-erase j k [] = ground arith
  lookup-erase j k (e ∷ m) = ground (arith, lookup-erase j k m)

  pub erase_absent : (k : ℕ) (m : Map V) → lookup k m ≡ none → erase k m ≡ m
  unfolding lookup erase
  erase_absent k [] h = refl
  erase_absent k (e ∷ m) h = ground (arith, erase_absent k m)

  -- A key is found exactly when it is listed.
  pub listed-keys : (k : ℕ) (m : Map V) → listed k (keys m) ≡ contains k m
  unfolding listed keys contains lookup
  listed-keys k [] = refl
  listed-keys k (e ∷ m) = ground (arith, listed-keys k m)

  pub lookup-nil : (k : ℕ) → lookup k (let e : Map V = [] in e) ≡ none
  unfolding lookup
  lookup-nil k = refl

  -- A map in which nothing is found is empty.
  pub eq-nil_of_lookup : (m : Map V) → ((k : ℕ) → lookup k m ≡ none) → m ≡ []
  unfolding lookup
  eq-nil_of_lookup [] h = refl
  eq-nil_of_lookup (e ∷ m) h = ground (arith, h e.0)
