-- ===== src/Driver/RemovingAll.antt =====
-- driver::remove_all_connections (src/driver.cpp), which driver::set_remote_host calls.
use ros_driver_modem.Prelude.{ℕ, ◌≡◌, refl, none, List, [], ◌∷◌, arith, ◌==◌, if◌then◌else◌, ◌∙◌}
use ros_driver_modem.StdMap.{Map, lookup, contains, keys}
use ros_driver_modem.StdMap.Laws.{listed, listed-keys, lookup-erase, eq-nil_of_lookup}
use ros_driver_modem.Types.{Protocol, disconnected}
use ros_driver_modem.Modem.{TcpConnection, System}
use ros_driver_modem.Driver.Coherent.{Coherent}
use ros_driver_modem.Driver.{
  remove_tcp, remove_udp, remove_connection, remove_ports, remove_all_connections,
}
use ros_driver_modem.Driver.Invariant.{IsSound}
use ros_driver_modem.Driver.Removing.{remove_tcp_cases, remove_udp_cases, remove_connection-IsSound}

-- A map of which every listed port was removed is empty.
gone :
    {V : Type 0} (q : ℕ) (m n : Map V)
    → lookup q n ≡ (if listed q (keys m) then none else lookup q m)
    → lookup q n ≡ none
unfolding contains
gone q m n h = ground (arith, listed-keys q m)

module _ {N : Type 0} where
  -- The port is gone from the pending map, and the other ports are as before.
  pub pending-remove_tcp :
      (q p : ℕ) (s : System N)
      → lookup q (remove_tcp p s).modem.tcp_pending
        ≡ (if q == p then none else lookup q s.modem.tcp_pending)
  pending-remove_tcp q p s =
      remove_tcp_cases p s
        (λ t.
          lookup q t.modem.tcp_pending ≡ (if q == p then none else lookup q s.modem.tcp_pending))
        (λ i e. lookup-erase q p s.modem.tcp_pending) (λ i e _. ground arith) (λ e _. ground arith)

  pub active-remove_tcp :
      (q p : ℕ) (s : System N)
      → lookup p s.modem.tcp_pending ≡ none
      → lookup q (remove_tcp p s).modem.tcp_active
        ≡ (if q == p then none else lookup q s.modem.tcp_active)
  active-remove_tcp q p s h =
      remove_tcp_cases p s
        (λ t. lookup q t.modem.tcp_active ≡ (if q == p then none else lookup q s.modem.tcp_active))
        (λ i e. cc) (λ i e f. lookup-erase q p s.modem.tcp_active) (λ e f. ground arith)

  pub udp-remove_udp :
      (q p : ℕ) (s : System N)
      → lookup q (remove_udp p s).modem.udp_active
        ≡ (if q == p then none else lookup q s.modem.udp_active)
  udp-remove_udp q p s =
      remove_udp_cases p s
        (λ t. lookup q t.modem.udp_active ≡ (if q == p then none else lookup q s.modem.udp_active))
        (λ i e. lookup-erase q p s.modem.udp_active) (λ e. ground arith)

  pending-remove_ports :
      (q : ℕ) (ps : List ℕ) (s : System N)
      → lookup q (remove_ports Protocol.tcp ps s).modem.tcp_pending
        ≡ (if listed q ps then none else lookup q s.modem.tcp_pending)
  unfolding remove_ports remove_connection listed
  pending-remove_ports q [] s = refl
  pending-remove_ports q (p ∷ ps) s =
      ground (arith, pending-remove_ports q ps (remove_tcp p s), pending-remove_tcp q p s)

  active-remove_ports :
      (q : ℕ) (ps : List ℕ) (s : System N)
      → ((r : ℕ) → lookup r s.modem.tcp_pending ≡ none)
      → lookup q (remove_ports Protocol.tcp ps s).modem.tcp_active
        ≡ (if listed q ps then none else lookup q s.modem.tcp_active)
  unfolding remove_ports remove_connection listed
  active-remove_ports q [] s h = refl
  active-remove_ports q (p ∷ ps) s h =
      let still_none : (r : ℕ) → lookup r (remove_tcp p s).modem.tcp_pending ≡ none =
        λ r. ground (arith, pending-remove_tcp r p s, h r) in
      ground
        (arith, active-remove_ports q ps (remove_tcp p s) still_none, active-remove_tcp q p s (h p))

  udp-remove_ports :
      (q : ℕ) (ps : List ℕ) (s : System N)
      → lookup q (remove_ports Protocol.udp ps s).modem.udp_active
        ≡ (if listed q ps then none else lookup q s.modem.udp_active)
  unfolding remove_ports remove_connection listed
  udp-remove_ports q [] s = refl
  udp-remove_ports q (p ∷ ps) s =
      ground (arith, udp-remove_ports q ps (remove_udp p s), udp-remove_udp q p s)

  -- Removing a UDP connection touches nothing of TCP.
  abbrev SameTcp : System N → System N → Type 0
  SameTcp s t =
      (t.modem.tcp_pending ≡ s.modem.tcp_pending)
      × (t.modem.tcp_active ≡ s.modem.tcp_active)
      × (t.modem.tcp_heap ≡ s.modem.tcp_heap)

  tcp-remove_udp_ports : (ps : List ℕ) (s : System N) → SameTcp s (remove_ports Protocol.udp ps s)
  unfolding remove_ports remove_connection
  tcp-remove_udp_ports [] s = (refl, refl, refl)
  tcp-remove_udp_ports (p ∷ ps) s =
      let later = tcp-remove_udp_ports ps (remove_udp p s) in
      let first : SameTcp s (remove_udp p s) =
        remove_udp_cases p s (SameTcp s) (λ i e. (refl, refl, refl)) (λ e. (refl, refl, refl)) in
      (later.0 ∙ first.0, later.1 ∙ first.1, later.2 ∙ first.2)

  pub remove_ports-IsSound :
      (type : Protocol) (ps : List ℕ) (s : System N)
      → IsSound s.modem
      → IsSound (remove_ports type ps s).modem
  unfolding remove_ports
  remove_ports-IsSound type [] s v = v
  remove_ports-IsSound type (p ∷ ps) s v =
      remove_ports-IsSound type ps _ (remove_connection-IsSound type p s v)

  -- No external callback runs, and the remote address stays.
  abbrev pub Silent : System N → System N → Type 0
  Silent s t = (t.app ≡ s.app) × (t.modem.remote_ip ≡ s.modem.remote_ip)

  pub remove_connection-Silent :
      (type : Protocol) (p : ℕ) (s : System N) → Silent s (remove_connection type p s).1
  unfolding remove_connection
  remove_connection-Silent Protocol.tcp p s =
      remove_tcp_cases p s (Silent s) (λ i e. (refl, refl)) (λ i e f. (refl, refl))
        (λ e f. (refl, refl))
  remove_connection-Silent Protocol.udp p s =
      remove_udp_cases p s (Silent s) (λ i e. (refl, refl)) (λ e. (refl, refl))
  remove_connection-Silent (Protocol.unknown _) p s = (refl, refl)

  remove_ports-Silent :
      (type : Protocol) (ps : List ℕ) (s : System N) → Silent s (remove_ports type ps s)
  unfolding remove_ports
  remove_ports-Silent type [] s = (refl, refl)
  remove_ports-Silent type (p ∷ ps) s =
      let later = remove_ports-Silent type ps (remove_connection type p s).1 in
      let first = remove_connection-Silent type p s in (later.0 ∙ first.0, later.1 ∙ first.1)

-- With empty maps no object is pending or connected.
idle_of_empty :
    (h : ℕ → TcpConnection) (n : ℕ) (ps as' : Map ℕ)
    → Coherent h n ps as'
    → ps ≡ []
    → as' ≡ []
    → (i : ℕ) → (h i).status ≡ disconnected
unfolding lookup
idle_of_empty h n ps as' c e f i = ground (arith, c.pending_in i, c.active_in i)

module _ {N : Type 0} (s : System N) where
  abbrev no_pending : System N
  no_pending = remove_ports Protocol.tcp (keys s.modem.tcp_pending) s

  no_pending_lookup : (r : ℕ) → lookup r no_pending.modem.tcp_pending ≡ none
  no_pending_lookup r =
      gone r s.modem.tcp_pending _ (pending-remove_ports r (keys s.modem.tcp_pending) s)

  abbrev no_tcp : System N
  no_tcp = remove_ports Protocol.tcp (keys no_pending.modem.tcp_active) no_pending

  no_tcp_pending : (r : ℕ) → lookup r no_tcp.modem.tcp_pending ≡ none
  no_tcp_pending r = ground (
    arith,
    pending-remove_ports r (keys no_pending.modem.tcp_active) no_pending,
    no_pending_lookup r,
  )

  no_tcp_active : (r : ℕ) → lookup r no_tcp.modem.tcp_active ≡ none
  no_tcp_active r =
      gone r no_pending.modem.tcp_active _
        (active-remove_ports r (keys no_pending.modem.tcp_active) no_pending no_pending_lookup)

  pub remove_all-IsSound : IsSound s.modem → IsSound (remove_all_connections s).modem
  unfolding remove_all_connections
  remove_all-IsSound v =
      remove_ports-IsSound Protocol.udp _ no_tcp
        (remove_ports-IsSound Protocol.tcp _ no_pending (remove_ports-IsSound Protocol.tcp _ s v))

  -- Removing all connections leaves the pending, the active and the UDP map empty, whatever they
  -- held.
  pub remove_all_empties :
      ((remove_all_connections s).modem.tcp_pending ≡ [])
      × ((remove_all_connections s).modem.tcp_active ≡ [])
      × ((remove_all_connections s).modem.udp_active ≡ [])
  unfolding remove_all_connections
  remove_all_empties =
      let same = tcp-remove_udp_ports (keys no_tcp.modem.udp_active) no_tcp in
      (
        same.0 ∙ eq-nil_of_lookup _ no_tcp_pending,
        same.1 ∙ eq-nil_of_lookup _ no_tcp_active,
        eq-nil_of_lookup _ (λ r.
            gone r no_tcp.modem.udp_active _
              (udp-remove_ports r (keys no_tcp.modem.udp_active) no_tcp)),
      )

  -- Removing all connections raises no external callback and leaves the remote address as it is.
  pub remove_all-Silent : Silent s (remove_all_connections s)
  unfolding remove_all_connections
  remove_all-Silent =
      let a = remove_ports-Silent Protocol.tcp (keys s.modem.tcp_pending) s in
      let b = remove_ports-Silent Protocol.tcp (keys no_pending.modem.tcp_active) no_pending in
      let c = remove_ports-Silent Protocol.udp (keys no_tcp.modem.udp_active) no_tcp in
      (c.0 ∙ b.0 ∙ a.0, c.1 ∙ b.1 ∙ a.1)

  -- From a sound state, after all connections are removed every TCP connection object is
  -- disconnected, whether or not a map listed it.
  pub remove_all_disconnects :
      IsSound s.modem
      → (i : ℕ) → ((remove_all_connections s).modem.tcp_heap i).status ≡ disconnected
  unfolding lookup
  remove_all_disconnects v i =
      let after = (remove_all-IsSound v).coherent in
      idle_of_empty (remove_all_connections s).modem.tcp_heap _ _ _ after remove_all_empties.0
        remove_all_empties.1 i
