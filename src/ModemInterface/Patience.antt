-- ===== src/ModemInterface/Patience.antt =====
-- How wait_for_connection of src/modem_interface.cpp ends.
use ros_driver_modem.Prelude.{
  ℕ, zero, suc, ◌+◌, ◌≤◌, ◌<◌, ◌≡◌, refl, Bool, true, false, Option, some, arith, inl, inr, subst,
  sym, ap, ◌∙◌,
}
use ros_driver_modem.Types.{Protocol, Result, ok, throws, undefined}
use ros_driver_modem.ModemInterface.{ModemInterface, is_connected}
use ros_driver_modem.ModemInterface.Handling.{and_then-ok}
use ros_driver_modem.ModemInterface.Rounds.{ok_of_and_then, unknown_for_all, round_cases}
use ros_driver_modem.ModemInterface.Waiting.{
  Environment, spin_once, wait_loop, wait_for_connection, spin_rounds, Waited, EndsIn, IsJustified,
}

module _ (env : Environment) (deadline : ℕ) (type : Protocol) (port : ℕ) where
  open env use {is_ok, now, inbox}

  abbrev Answer : Type 0
  Answer = Result Bool × ModemInterface

  -- The loop ends when the clock reaches the deadline.
  wait_loop-terminates :
      (k fuel n j : ℕ) (m : ModemInterface)
      → n + k ≡ j
      → k < fuel
      → deadline ≤ now j
      → (x : Answer) × (wait_loop env deadline type port fuel n m ≡ some x)
  wait_loop-terminates k zero n j m e h t = absurd (omega arith)
  wait_loop-terminates zero (suc fuel) n j m e h t =
      let late : deadline ≤ now n = subst (λ i. deadline ≤ now i) (omega arith) t in
      round_cases env deadline type port fuel n m (λ o. (x : Answer) × (o ≡ some x))
        (λ _. (_, refl)) (λ _ _. (_, refl)) (λ _ _ _. (_, refl)) (λ _. (_, refl))
        (λ _ early _ _. absurd (omega arith)) (λ _ _ _ _ _. (_, refl)) (λ _ _. (_, refl))
  wait_loop-terminates (suc k) (suc fuel) n j m e h t =
      round_cases env deadline type port fuel n m (λ o. (x : Answer) × (o ≡ some x))
        (λ _. (_, refl)) (λ _ _. (_, refl)) (λ _ _ _. (_, refl)) (λ _. (_, refl))
        (λ _ _ _ _. wait_loop-terminates k fuel (suc n) j _ (omega arith) (omega arith) t)
        (λ _ _ _ _ _. (_, refl)) (λ _ _. (_, refl))

  -- A round whose spin throws nothing comes before the rounds that follow it.
  module _ (n : ℕ) (m : ModemInterface) (fine : (spin_once (inbox n) m).0 ≡ ok tt) where
    abbrev later : ModemInterface
    later = (spin_once (inbox n) m).1

    spin_rounds-suc : (k : ℕ) → spin_rounds env (suc k) n m ≡ spin_rounds env k (suc n) later
    unfolding spin_rounds
    spin_rounds-suc k = and_then-ok (spin_once (inbox n) m).0 later _ fine

    Waited-suc :
        (k : ℕ)
        → is_ok n ≡ true
        → now n < deadline
        → is_connected type port m ≡ ok false
        → Waited env deadline type port k (suc n) later
        → Waited env deadline type port (suc k) n m
    unfolding spin_rounds
    Waited-suc k e f g w zero h = (
      subst (λ i. is_ok i ≡ true) (omega arith) e,
      subst (λ i. now i < deadline) (omega arith) f,
      g,
    )
    Waited-suc k e f g w (suc i) h =
        let (a, b, c) = w i (omega arith) in
        (
          subst (λ j. is_ok j ≡ true) (omega arith) a,
          subst (λ j. now j < deadline) (omega arith) b,
          ap (λ y. is_connected type port y.1) (spin_rounds-suc i) ∙ c,
        )

    EndsIn-suc :
        (k : ℕ) (x : Answer)
        → is_connected type port m ≡ ok false
        → EndsIn env deadline type port k (suc n) later x
        → EndsIn env deadline type port (suc k) n m x
    EndsIn-suc k (ok true, m') g (a, b, c) =
        (spin_rounds-suc k ∙ a, subst (λ j. is_ok j ≡ true) (omega arith) b, c)
    EndsIn-suc k (ok false, m') g (a, inl b) =
        (spin_rounds-suc k ∙ a, inl (subst (λ j. is_ok j ≡ false) (omega arith) b))
    EndsIn-suc k (ok false, m') g (a, inr (b, c, d)) = (
      spin_rounds-suc k ∙ a,
      inr (
        subst (λ j. is_ok j ≡ true) (omega arith) b,
        subst (λ j. deadline ≤ now j) (omega arith) c,
        d,
      ),
    )
    EndsIn-suc k (throws e, m') g (a, b, c) = (
      subst (λ j. is_ok j ≡ true) (omega arith) a,
      subst (λ j. now j < deadline) (omega arith) b,
      spin_rounds-suc (suc k) ∙ c,
    )
    EndsIn-suc k (undefined, m') g (inl a) = let lost = unknown_for_all type port later m a in cc
    EndsIn-suc k (undefined, m') g (inr a) = inr (spin_rounds-suc (suc k) ∙ a)

  spun_once :
      (n : ℕ) (m : ModemInterface) (r : Result (Unit {0}))
      → (spin_once (inbox n) m).0 ≡ r
      → spin_rounds env 1 n m ≡ (r, (spin_once (inbox n) m).1)
  unfolding spin_rounds
  spun_once n m (ok _) e = rw e refl
  spun_once n m (throws _) e = rw e refl
  spun_once n m undefined e = rw e refl

  pub wait_loop-IsJustified :
      (fuel n : ℕ) (m : ModemInterface) (x : Answer)
      → wait_loop env deadline type port fuel n m ≡ some x
      → IsJustified env deadline type port n m x
  unfolding wait_loop spin_rounds
  wait_loop-IsJustified zero n m x e = cc
  wait_loop-IsJustified (suc fuel) n m x e =
      round_cases env deadline type port fuel n m
        (λ o. o ≡ some x → IsJustified env deadline type port n m x)
        (λ a g. at_once (refl, inl (at is_ok a)) g) (λ a b g. at_once (refl, at is_ok a, b) g)
        (λ a b c g. at_once (refl, inr (at is_ok a, subst (λ i. deadline ≤ now i) here b, c)) g)
        (λ a g. at_once (inl a) g)
        (λ a b c f g.
          let (k, w, t) = wait_loop-IsJustified fuel (suc n) _ x g in
          (suc k, Waited-suc n m f k a b c w, EndsIn-suc n m f k x c t))
        (λ y a b c f g.
          at_once (at is_ok a, subst (λ i. now i < deadline) here b, spun_once n m (throws y) f) g)
        (λ c f g. at_once (inr (spun_once n m undefined f)) g) e
    where
      here : n ≡ n + 0
      here = omega arith

      at : {b : Bool} (f : ℕ → Bool) → f n ≡ b → f (n + 0) ≡ b
      at {b} f a = subst (λ i. f i ≡ b) here a

      at_once :
          {y : Answer}
          → EndsIn env deadline type port 0 n m y
          → ◌≡◌ {A = Option Answer} (some y) (some x)
          → IsJustified env deadline type port n m x
      at_once {y} j g =
          subst (IsJustified env deadline type port n m) (ground arith)
            (0, (λ i h. absurd (omega arith)), j)

  -- The rounds of a wait in which nothing goes wrong before the last.
  abbrev pub Undisturbed : ℕ → ℕ → Type 0
  Undisturbed n j =
      ((i : ℕ) → n ≤ i → i ≤ n + j → is_ok i ≡ true)
      × ((i : ℕ) → n ≤ i → i < n + j → now i < deadline)

  wait_loop-connects :
      (j fuel n : ℕ) (m : ModemInterface)
      → j < fuel
      → Undisturbed n j
      → (spin_rounds env j n m).0 ≡ ok tt
      → is_connected type port (spin_rounds env j n m).1 ≡ ok true
      → (m' : ModemInterface) × (wait_loop env deadline type port fuel n m ≡ some (ok true, m'))
  unfolding spin_rounds
  wait_loop-connects j zero n m h u e f = absurd (omega arith)
  wait_loop-connects zero (suc fuel) n m h u e f =
      round_cases env deadline type port fuel n m
        (λ o. (m' : ModemInterface) × (o ≡ some (ok true, m')))
        (λ g. let up = u.0 n (omega arith) (omega arith) in cc) (λ _ _. (m, refl)) (λ _ _ g. cc)
        (λ g. cc) (λ _ _ g _. cc) (λ _ _ _ g _. cc) (λ g _. cc)
  wait_loop-connects (suc j) (suc fuel) n m h u e f =
      let (r, m1) = spin_once (inbox n) m in
      let rest = spin_rounds env j (suc n) m1 in
      round_cases env deadline type port fuel n m
        (λ o. (m' : ModemInterface) × (o ≡ some (ok true, m')))
        (λ g. let up = u.0 n (omega arith) (omega arith) in cc) (λ _ _. (m, refl))
        (λ _ g _. let early = u.1 n (omega arith) (omega arith) in absurd (omega arith))
        (λ g. let lost = unknown_for_all type port m (spin_rounds env (suc j) n m).1 g in cc)
        (λ _ _ _ g.
          let same = and_then-ok r m1 rest g in
          wait_loop-connects j fuel (suc n) m1 (omega arith)
            (λ i a b. u.0 i (omega arith) (omega arith), λ i a b. u.1 i (omega arith) (omega arith))
            (sym (ap (λ y. y.0) same) ∙ e) (ap (λ y. is_connected type port y.1) (sym same) ∙ f))
        (λ _ _ _ _ g. let fine = ok_of_and_then r m1 rest e in cc)
        (λ _ g. let fine = ok_of_and_then r m1 rest e in cc)

module _ (env : Environment) (type : Protocol) (port timeout start : ℕ) (m : ModemInterface) where
  -- A call of wait_for_connection returns, at the latest in the round in which the clock is at the
  -- deadline, and its answer is that of a round before which it has waited: in each earlier round
  -- ROS was up, the deadline had not passed and there was no connection, and the interface is as
  -- that many rounds of spinOnce leave it. An answer true means that in this round ROS is up and
  -- the interface has the connection, an answer false that ROS is no longer up, or that the
  -- deadline has passed and the connection is not there, and an exception is that of this round's
  -- spinOnce, before the deadline. The answer is undefined only for a protocol that is no
  -- enumerator or where the rounds of spinOnce are.
  pub wait_terminates :
      (j fuel : ℕ)
      → j < fuel
      → start + timeout ≤ env.now j
      → (x : Result Bool × ModemInterface) × (wait_for_connection env fuel type port timeout start m
          ≡ some x)
        × IsJustified env (start + timeout) type port 0 m x
  unfolding wait_for_connection
  wait_terminates j fuel h t =
      let (x, e) =
        wait_loop-terminates env (start + timeout) type port j fuel 0 j m (omega arith) h t in
      (x, e, wait_loop-IsJustified env (start + timeout) type port fuel 0 m x e)

  -- A call of wait_for_connection answers true if, after some number of rounds of spinOnce that
  -- throw nothing, the interface has the connection, ROS is up in all those rounds and the one
  -- after, and the deadline has not passed before that one.
  pub wait_connects :
      (j fuel : ℕ)
      → j < fuel
      → Undisturbed env (start + timeout) type port 0 j
      → (spin_rounds env j 0 m).0 ≡ ok tt
      → is_connected type port (spin_rounds env j 0 m).1 ≡ ok true
      → (m' : ModemInterface) × (wait_for_connection env fuel type port timeout start m
          ≡ some (ok true, m'))
  unfolding wait_for_connection
  wait_connects j fuel h u e f =
      wait_loop-connects env (start + timeout) type port j fuel 0 m h u e f
