-- ===== src/Driver/Lifecycle.antt =====
-- The life of a TCP connection as an abstract machine: what the maps m_tcp_pending and m_tcp_active
-- of src/driver.h say of a port.
use ros_driver_modem.Prelude.{
  ℕ, ◌≡◌, refl, Bool, true, false, some, arith, ◌==◌, ◌||◌, if◌then◌else◌,
}
use ros_driver_modem.StdMap.{lookup, contains}
use ros_driver_modem.StdMap.Laws.{lookup-insert_new, lookup-erase}
use ros_driver_modem.Modem.{Modem}
use ros_driver_modem.Driver.Coherent.{not_pending}
use ros_driver_modem.Driver.Losing.{without_pending, without_active}
use ros_driver_modem.Driver.Connecting.{with_active}
use ros_driver_modem.Driver.Invariant.{IsSound}
use ros_driver_modem.Driver.Keeping.{
  KeptByRequests, KeptByWrites, KeptByRemoval, KeptByConnection, KeptByUdpAddition,
}

pub data Phase : Type 0 where
  absent waiting established : Phase

unfoldable pub phase : Modem → ℕ → Phase
unfolding contains
phase d p =
    if contains p d.tcp_active
    then established
    else if contains p d.tcp_pending
    then waiting
    else absent

abbrev pub same_phase : Phase → Phase → Bool
same_phase absent absent = true
same_phase waiting waiting = true
same_phase established established = true
same_phase _ _ = false

-- What may happen to a connection: nothing, or one of the steps of the machine.
abbrev may_leave : Phase → Phase → Bool
may_leave a b = same_phase a b || same_phase b absent

abbrev pub may_connect : Phase → Phase → Bool
may_connect waiting established = true
may_connect a b = may_leave a b

pub same_phase_refl : (a : Phase) → same_phase a a ≡ true
same_phase_refl absent = refl
same_phase_refl waiting = refl
same_phase_refl established = refl

-- The phases after each elementary change.
pub phase-drop_pending :
    (d : Modem) (q p i : ℕ)
    → IsSound d
    → lookup p d.tcp_pending ≡ some i
    → phase (without_pending p i d) q ≡ (if q == p then absent else phase d q)
unfolding phase contains
phase-drop_pending d q p i v e =
    ground (arith, lookup-erase q p d.tcp_pending, v.coherent.apart p i e)

pub phase-drop_active :
    (d : Modem) (q p i : ℕ)
    → IsSound d
    → lookup p d.tcp_active ≡ some i
    → phase (without_active p i d) q ≡ (if q == p then absent else phase d q)
unfolding phase contains
phase-drop_active d q p i v e =
    ground (arith, lookup-erase q p d.tcp_active, not_pending v.coherent p i e)

phase-connects :
    (d : Modem) (q p i : ℕ)
    → IsSound d
    → lookup p d.tcp_pending ≡ some i
    → phase (with_active p i d) q ≡ (if q == p then established else phase d q)
unfolding phase contains
phase-connects d q p i v e = ground (
  arith,
  lookup-erase q p d.tcp_pending,
  lookup-insert_new q p i d.tcp_active (v.coherent.apart p i e),
)

phase-waiting :
    (d : Modem) (p i : ℕ) → IsSound d → lookup p d.tcp_pending ≡ some i → phase d p ≡ waiting
unfolding phase contains
phase-waiting d p i v e = ground (arith, v.coherent.apart p i e)

-- The phases that a state has reached from given ones, port by port.
abbrev pub Moved : (ℕ → Phase → Phase → Bool) → (ℕ → Phase) → Modem → Type 0
Moved may a d = (q : ℕ) → may q (a q) (phase d q) ≡ true

module _ (may : ℕ → Phase → Phase → Bool) (a : ℕ → Phase) where
  pub Moved-writes : KeptByWrites (Moved may a)
  unfolding phase
  Moved-writes = record {
    tcp_write = λ d i o _ _ w. w;
    udp_write = λ d i o _ w. w;
    queue = λ d ks w. w;
  }

  pub Moved-requests : KeptByRequests (Moved may a)
  unfolding phase
  Moved-requests = record { sends = λ d ps w. w; readdress = λ d ip w. w }

  pub Moved-udp_addition : (p : ℕ) → KeptByUdpAddition p (Moved may a)
  unfolding phase
  Moved-udp_addition p = record { adds_udp = λ d o _ _ w. w }

  pub Moved-removal :
      (Q : ℕ → Type 0)
      → ((q : ℕ) (b : Phase) → Q q → may q b absent ≡ true)
      → KeptByRemoval Q (Moved may a)
  Moved-removal Q leaves = record {
    drop_pending =
        λ d p i z v e w q. ground (arith, w q, phase-drop_pending d q p i v e, leaves p (a p) z);
    drop_active =
        λ d p i z v e w q. ground (arith, w q, phase-drop_active d q p i v e, leaves p (a p) z);
  }

  pub Moved-connection :
      ((q : ℕ) (b : Phase) → may q b waiting ≡ true → may q b established ≡ true)
      → KeptByConnection (Moved may a)
  Moved-connection connects = record {
    connects = λ d p i v e w q.
        ground (arith, w q, phase-connects d q p i v e, phase-waiting d p i v e, connects p (a p));
  }
