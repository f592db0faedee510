-- ===== src/Driver/Coherent.antt =====
-- The agreement of the maps of a driver (src/driver.h) with its connection objects, and the
-- changes of state that concern it: an object leaves the maps and is shut, a new one becomes
-- pending, a pending one active.
use ros_driver_modem.Prelude.{
  List, length, ℕ, suc, ◌<◌, ◌≡◌, true, false, none, some, inl, inr, Option-cases, arith, update,
}
use ros_driver_modem.StdMap.{Map, lookup, insert, erase}
use ros_driver_modem.StdMap.Laws.{lookup-insert_new, lookup-erase}
use ros_driver_modem.Types.{
  Status, disconnected, connected, pending, unassigned, same_role as equal_roles,
}
use ros_driver_modem.Modem.{TcpConnection}
use ros_driver_modem.TcpConnection.Closing.{shut}

-- A started object at its port, with its callbacks attached and a role.
pub record IsAt (st : Status) (p : ℕ) (c : TcpConnection) : Type 0 where
  pub in_status : c.status ≡ st
  pub at_port : c.local_endpoint.port ≡ p
  pub bound_to : c.bound_port ≡ p
  pub says_connected : c.has_connected ≡ true
  pub says_disconnected : c.has_disconnected ≡ true
  pub says_rx : c.has_rx ≡ true
  pub has_role : equal_roles c.role unassigned ≡ false

-- The second object differs from the first in its buffer and its peer at most, or has an open
-- socket where the first has not.
pub record Resembles (c o : TcpConnection) : Type 0 where
  pub same_status : o.status ≡ c.status
  pub same_local : o.local_endpoint ≡ c.local_endpoint
  pub same_bound : o.bound_port ≡ c.bound_port
  pub same_connected : o.has_connected ≡ c.has_connected
  pub same_disconnected : o.has_disconnected ≡ c.has_disconnected
  pub same_rx : o.has_rx ≡ c.has_rx
  pub same_role : o.role ≡ c.role
  pub stays_open : c.socket_open ≡ true → o.socket_open ≡ true

-- A buffer of the size that the object says it has.
abbrev pub IsSized : ℕ → List ℕ → Type 0
IsSized size buffer = length buffer ≡ size

-- A write to the buffer of an object leaves its size.
abbrev pub Refills : ℕ → List ℕ → ℕ → List ℕ → Type 0
Refills size buffer size' buffer' = (size' ≡ size) × (IsSized size buffer → IsSized size buffer')

-- Each entry of a map is an object at that port in the map's status, each pending or connected
-- object is an entry, and no port is in both maps.
pub record Coherent (h : ℕ → TcpConnection) (n : ℕ) (ps as' : Map ℕ) : Type 0 where
  pub pending_at : (p i : ℕ) → lookup p ps ≡ some i → IsAt pending p (h i) × (i < n)
  pub active_at : (p i : ℕ) → lookup p as' ≡ some i → IsAt connected p (h i) × (i < n)
  pub pending_in : (i : ℕ) → (h i).status ≡ pending → lookup (h i).local_endpoint.port ps ≡ some i
  pub active_in : (i : ℕ) → (h i).status ≡ connected → lookup (h i).local_endpoint.port as' ≡ some i
  pub open_at : (p i : ℕ) → lookup p as' ≡ some i → (h i).socket_open ≡ true
  pub apart : (p i : ℕ) → lookup p ps ≡ some i → lookup p as' ≡ none

module _ {h : ℕ → TcpConnection} {n : ℕ} {ps as' : Map ℕ} (c : Coherent h n ps as') where
  pub drop_pending-Coherent :
      (p i : ℕ) → lookup p ps ≡ some i → Coherent (update h i (shut (h i))) n (erase p ps) as'
  unfolding update
  drop_pending-Coherent p i e = record {
    pending_at = λ q j f. ground (arith, lookup-erase q p ps, c.pending_at q j, c.pending_at p i e);
    active_at = λ q j f. ground (arith, c.active_at q j f, c.pending_at p i e);
    pending_in = λ j f.
        ground
          (arith, c.pending_in j, lookup-erase (h j).local_endpoint.port p ps, c.pending_at p i e);
    active_in = λ j f. ground (arith, c.active_in j);
    open_at = λ q j f. ground (arith, c.open_at q j f, c.active_at q j f, c.pending_at p i e);
    apart = λ q j f. ground (arith, lookup-erase q p ps, c.apart q j);
  }

  pub drop_active-Coherent :
      (p i : ℕ) → lookup p as' ≡ some i → Coherent (update h i (shut (h i))) n ps (erase p as')
  unfolding update
  drop_active-Coherent p i e = record {
    pending_at = λ q j f. ground (arith, c.pending_at q j f, c.active_at p i e);
    active_at = λ q j f. ground (arith, lookup-erase q p as', c.active_at q j, c.active_at p i e);
    pending_in = λ j f. ground (arith, c.pending_in j);
    active_in = λ j f.
        ground
          (arith, c.active_in j, lookup-erase (h j).local_endpoint.port p as', c.active_at p i e);
    open_at = λ q j f.
        ground (arith, lookup-erase q p as', c.open_at q j, c.active_at q j, c.active_at p i e);
    apart = λ q j f. ground (arith, lookup-erase q p as', c.apart q j f);
  }

  -- The object that is made pending has a number of its own.
  pub add_pending-Coherent :
      (p : ℕ) (o : TcpConnection)
      → IsAt pending p o
      → lookup p ps ≡ none
      → lookup p as' ≡ none
      → Coherent (update h n o) (suc n) (insert p n ps) as'
  unfolding update
  add_pending-Coherent p o v e f = record {
    pending_at = λ q j g. ground (arith, lookup-insert_new q p n ps e, c.pending_at q j);
    active_at = λ q j g. ground (arith, c.active_at q j g);
    pending_in = λ j g. ground (
      arith,
      c.pending_in j,
      lookup-insert_new (h j).local_endpoint.port p n ps e,
      lookup-insert_new p p n ps e,
    );
    active_in = λ j g. ground (arith, c.active_in j);
    open_at = λ q j g. ground (arith, c.open_at q j g, c.active_at q j g);
    apart = λ q j g. ground (arith, lookup-insert_new q p n ps e, c.apart q j);
  }

  -- An object that did not start is in no map.
  pub add_failed-Coherent :
      (o : TcpConnection) → o.status ≡ disconnected → Coherent (update h n o) (suc n) ps as'
  unfolding update
  add_failed-Coherent o e = record {
    pending_at = λ q j g. ground (arith, c.pending_at q j g);
    active_at = λ q j g. ground (arith, c.active_at q j g);
    pending_in = λ j g. ground (arith, c.pending_in j);
    active_in = λ j g. ground (arith, c.active_in j);
    open_at = λ q j g. ground (arith, c.open_at q j g, c.active_at q j g);
    apart = c.apart;
  }

  pub activate-Coherent :
      (p i : ℕ)
      → lookup p ps ≡ some i
      → (h i).socket_open ≡ true
      → Coherent (update h i (record (h i) { status = connected })) n (erase p ps) (insert p i as')
  unfolding update
  activate-Coherent p i e o = record {
    pending_at = λ q j g. ground (arith, lookup-erase q p ps, c.pending_at q j, c.pending_at p i e);
    active_at = λ q j g.
        ground
          (arith, lookup-insert_new q p i as' (c.apart p i e), c.active_at q j, c.pending_at p i e);
    pending_in = λ j g.
        ground
          (arith, c.pending_in j, lookup-erase (h j).local_endpoint.port p ps, c.pending_at p i e);
    active_in = λ j g. ground (
      arith,
      c.active_in j,
      c.pending_at p i e,
      c.apart p i e,
      lookup-insert_new (h j).local_endpoint.port p i as' (c.apart p i e),
    );
    open_at = λ q j g.
        ground (arith, lookup-insert_new q p i as' (c.apart p i e), c.open_at q j, c.active_at q j);
    apart = λ q j g.
        ground
          (arith, lookup-erase q p ps, lookup-insert_new q p i as' (c.apart p i e), c.apart q j);
  }

  -- A write that leaves the status, the ports, the callbacks and the role of an object alone.
  pub touch-Coherent :
      (i : ℕ) (o : TcpConnection) → Resembles (h i) o → Coherent (update h i o) n ps as'
  unfolding update
  touch-Coherent i o r = record {
    pending_at = λ q j g. ground (arith, c.pending_at q j g);
    active_at = λ q j g. ground (arith, c.active_at q j g);
    pending_in = λ j g. ground (arith, c.pending_in j);
    active_in = λ j g. ground (arith, c.active_in j);
    open_at = λ q j g. ground (arith, c.open_at q j g);
    apart = c.apart;
  }

  -- A port of the active map is not in the pending map.
  pub not_pending : (p i : ℕ) → lookup p as' ≡ some i → lookup p ps ≡ none
  not_pending p i e = elim (Option-cases (lookup p ps)) [
    | inl free ↦ free
    | inr (j, f) ↦ ground (arith, c.apart p j f)
  ]
