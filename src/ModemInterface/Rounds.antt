-- ===== src/ModemInterface/Rounds.antt =====
-- The rounds of the loop of wait_for_connection in src/modem_interface.cpp.
use ros_driver_modem.Prelude.{
  ℕ, suc, ◌≤◌, ◌<◌, ◌≡◌, refl, Bool, true, false, Option, some, arith, leb, inl, inr, ◌⊎◌,
  Bool-cases,
}
use ros_driver_modem.Types.{Protocol, Exception, Result, ok, throws, undefined}
use ros_driver_modem.ModemInterface.{ModemInterface, and_then, is_connected}
use ros_driver_modem.ModemInterface.Waiting.{Environment, spin_once, wait_loop}

Result-cases :
    {A : Type 0} (r : Result A)
    → ((a : A) × (r ≡ ok a)) ⊎ ((e : Exception) × (r ≡ throws e)) ⊎ (r ≡ undefined)
Result-cases (ok a) = inl (a, refl)
Result-cases (throws e) = inr (inl (e, refl))
Result-cases undefined = inr (inr refl)

-- Asking for a connection does not throw.
is_connected-cases :
    (type : Protocol) (port : ℕ) (m : ModemInterface)
    → ((b : Bool) × (is_connected type port m ≡ ok b)) ⊎ (is_connected type port m ≡ undefined)
unfolding is_connected
is_connected-cases Protocol.tcp port m = inl (_, refl)
is_connected-cases Protocol.udp port m = inl (_, refl)
is_connected-cases (Protocol.unknown _) port m = inr refl

-- An exception ends what follows.
pub ok_of_and_then :
    {S : Type 0} (r : Result (Unit {0})) (s : S) (rest : Result (Unit {0}) × S)
    → (and_then (r, s) rest).0 ≡ ok tt
    → r ≡ ok tt
ok_of_and_then (ok _) s rest e = refl
ok_of_and_then (throws _) s rest e = e
ok_of_and_then undefined s rest e = e

-- A protocol that is no enumerator is so for every interface.
pub unknown_for_all :
    (type : Protocol) (port : ℕ) (m m' : ModemInterface)
    → is_connected type port m ≡ undefined
    → is_connected type port m' ≡ undefined
unfolding is_connected
unknown_for_all Protocol.tcp port m m' e = cc
unknown_for_all Protocol.udp port m m' e = cc
unknown_for_all (Protocol.unknown _) port m m' e = refl

module _ (env : Environment) (deadline : ℕ) (type : Protocol) (port : ℕ) where
  open env use {is_ok, now, inbox}

  abbrev Answer : Type 0
  Answer = Result Bool × ModemInterface

  module _ (fuel n : ℕ) (m : ModemInterface) where
    -- The system after the round's spin.
    abbrev spun : Result (Unit {0}) × ModemInterface
    spun = spin_once (inbox n) m

    -- One round in cases.
    pub round_cases {ℓ} :
        (P : Option Answer → Type ℓ)
        → (is_ok n ≡ false → P (some (ok false, m)))
        → (is_ok n ≡ true → is_connected type port m ≡ ok true → P (some (ok true, m)))
        → (is_ok n ≡ true
            → deadline ≤ now n
            → is_connected type port m ≡ ok false
            → P (some (ok false, m)))
        → (is_connected type port m ≡ undefined → P (some (undefined, m)))
        → (is_ok n ≡ true
            → now n < deadline
            → is_connected type port m ≡ ok false
            → spun.0 ≡ ok tt
            → P (wait_loop env deadline type port fuel (suc n) spun.1))
        → ((e : Exception)
            → is_ok n ≡ true
            → now n < deadline
            → is_connected type port m ≡ ok false
            → spun.0 ≡ throws e
            → P (some (throws e, spun.1)))
        → (is_connected type port m ≡ ok false → spun.0 ≡ undefined → P (some (undefined, spun.1)))
        → P (wait_loop env deadline type port (suc fuel) n m)
    unfolding wait_loop
    round_cases P stopped there late unknown again threw broke = elim (Bool-cases (is_ok n)) [
      | inr e ↦ rw e (stopped e)
      | inl e ↦ elim (is_connected-cases type port m) [
        | inr f ↦ rw (e, f) (unknown f)
        | inl (true, f) ↦ rw (e, f) (there e f)
        | inl (false, f) ↦ elim (Bool-cases (leb deadline (now n))) [
          | inl g ↦ rw (e, f, g) (late e (ground arith) f)
          | inr g ↦ elim (Result-cases spun.0) [
            | inl (a, h) ↦ rw (e, f, g, h) (again e (ground arith) f h)
            | inr (inl (x, h)) ↦ rw (e, f, g, h) (threw x e (ground arith) f h)
            | inr (inr h) ↦ rw (e, f, g, h) (broke f h)
          ]
        ]
      ]
    ]
