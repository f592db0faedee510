-- ===== src/RosNode/Configured.antt =====
-- The connections with which a node comes up: the constructor of src/ros_node.cpp against the port
-- parameters.
use ros_driver_modem.Prelude.{
  ℕ, ℤ, ◌≡◌, refl, subst, ap, ◌∙◌, Bool, true, false, ◌&&◌, ◌||◌, Option, none, some, List, [], ◌∷◌,
  arith, ◌==◌,
}
use ros_driver_modem.StdMap.{lookup, contains, keys}
use ros_driver_modem.Types.{
  as_port, Address, TcpRole, server, client, Result, ok, throws, undefined, Setup,
}
use ros_driver_modem.Modem.{Modem, System}
use ros_driver_modem.Topics.{Text}
use ros_driver_modem.Driver
use ros_driver_modem.RosNode.{Node, callbacks}
use ros_driver_modem.RosNode.Requests.{
  on_success, publish, add_tcp_ports, add_udp_ports, open_ports, construct, add_tcp_connection,
  add_udp_connection,
}
use ros_driver_modem.RosNode.Gaining.{
  has_bound, is_kept, is_started, asked, Gains, Into, nowhere, add_tcp-Into, after_add_tcp-Into,
  add_udp-Into, after_add_udp-Into,
}
use ros_driver_modem.RosNode.Logging.{with_log-Into}
use ros_driver_modem.RosNode.Startup.{first_state}

-- Does a list of port parameters open the port?
unfoldable pub opens : TcpRole → ℕ → List (ℤ × Setup) → Bool
opens role p [] = false
opens role p ((param, setup) ∷ params) =
    (p == as_port param && is_kept role setup) || opens role p params

unfoldable pub names : ℕ → List (ℤ × Setup) → Bool
names p [] = false
names p ((param, setup) ∷ params) = p == as_port param || names p params

-- Does the operating system bind all ports of a list?
unfoldable pub all_bound : List (ℤ × Setup) → Bool
all_bound [] = true
all_bound ((param, setup) ∷ params) = has_bound setup && all_bound params

-- Will no port of a list end the constructor?
all_started : TcpRole → List (ℤ × Setup) → Bool
all_started role [] = true
all_started role ((param, setup) ∷ params) = is_started role setup && all_started role params

servers_started : (servers : List (ℤ × Setup)) → all_started server servers ≡ all_bound servers
unfolding all_started all_bound
servers_started [] = refl
servers_started ((param, setup) ∷ params) = ap (λ b. has_bound setup && b) (servers_started params)

clients_started : (clients : List (ℤ × Setup)) → all_started client clients ≡ true
unfolding all_started
clients_started [] = refl
clients_started ((param, setup) ∷ params) = clients_started params

module _ (d : Modem) (first first_udp second second_udp : ℕ → Bool) (certain certain' : Bool) where
  Into-trans :
      {A : Type 0} (e : Modem) (rest : Result A × System Node)
      → Gains d e first first_udp
      → Into e second second_udp certain' rest
      → Into d
          (λ q. first q || second q)
          (λ q. first_udp q || second_udp q)
          (certain && certain')
          rest
  Into-trans e (ok _, t) g h = record {
    pending_at = λ q. ground (arith, g.pending_at q, h.pending_at q);
    udp_at = λ q. ground (arith, g.udp_at q, h.udp_at q);
    same_active = h.same_active ∙ g.same_active;
  }
  Into-trans e (throws _, t) g h = ground (arith, h)
  Into-trans e (undefined, t) g h = ground (arith, h)

  on_success-Into :
      {A : Type 0} (r : Result A) (s : System Node) (rest : Result (Unit {0}) × System Node)
      → Into d first first_udp certain (r, s)
      → (Gains d s.modem first first_udp → Into s.modem second second_udp certain' rest)
      → Into d
          (λ q. first q || second q)
          (λ q. first_udp q || second_udp q)
          (certain && certain')
          (on_success r s rest)
  on_success-Into (ok _) s rest g h = Into-trans s.modem rest g (h g)
  on_success-Into (throws _) s rest g h = ground (arith, g)
  on_success-Into undefined s rest g h = ground (arith, g)

no_entry : (p : ℕ) (d : Modem) → d.tcp_active ≡ [] → lookup p d.tcp_active ≡ none
unfolding lookup
no_entry p d e = rw e refl

published-Into : (s : System Node) → Gains s.modem (publish s).modem nowhere nowhere
published-Into s = record {
  pending_at = λ q. ground arith;
  udp_at = λ q. ground arith;
  same_active = refl;
}

module _ (to_string : Address → Text) where
  add_tcp_ports-Into :
      (role : TcpRole) (params : List (ℤ × Setup)) (s : System Node)
      → asked role ≡ true
      → s.modem.tcp_active ≡ []
      → Into s.modem
          (λ q. opens role q params)
          nowhere
          (all_started role params)
          (add_tcp_ports to_string role params s)
  unfolding add_tcp_ports add_tcp_connection opens all_started
  add_tcp_ports-Into role [] s a e = record {
    pending_at = λ q. ground arith;
    udp_at = λ q. ground arith;
    same_active = refl;
  }
  add_tcp_ports-Into role ((param, setup) ∷ params) s a e =
      let p = as_port param in
      let x = add_tcp_connection to_string role p false setup s in
      on_success-Into s.modem (λ q. q == p && is_kept role setup) nowhere (λ q. opens role q params)
        nowhere (is_started role setup) (all_started role params) x.0 x.1
        (add_tcp_ports to_string role params x.1)
        (with_log-Into role s.modem (λ q. q == p && is_kept role setup) nowhere
          (is_started role setup) _ a
          (after_add_tcp-Into s.modem (λ q. q == p && is_kept role setup) nowhere
            (is_started role setup) _
            (add_tcp-Into (callbacks to_string) role p setup s a (no_entry p s.modem e))))
        (λ g. add_tcp_ports-Into role params x.1 a (g.same_active ∙ e))

  add_udp_ports-Into :
      (params : List (ℤ × Setup)) (s : System Node)
      → Into s.modem nowhere
          (λ q. names q params)
          (all_bound params)
          (add_udp_ports to_string params s)
  unfolding add_udp_ports add_udp_connection names all_bound
  add_udp_ports-Into [] s = record {
    pending_at = λ q. ground arith;
    udp_at = λ q. ground arith;
    same_active = refl;
  }
  add_udp_ports-Into ((param, setup) ∷ params) s =
      let p = as_port param in
      let x = add_udp_connection p false setup s in
      on_success-Into s.modem nowhere (λ q. q == p) nowhere (λ q. names q params) (has_bound setup)
        (all_bound params) x.0 x.1 (add_udp_ports to_string params x.1)
        (after_add_udp-Into p s.modem nowhere (λ q. q == p) (has_bound setup) _
          (add_udp-Into p setup s))
        (λ g. add_udp_ports-Into params x.1)

  module _ (servers clients udps : List (ℤ × Setup)) where
    abbrev opened : ℕ → Bool
    opened q = opens server q servers || (opens client q clients || (false || false))

    abbrev named : ℕ → Bool
    named q = false || (false || (names q udps || false))

    abbrev certain : Bool
    certain = all_started server servers && (all_started client clients && (all_bound udps && true))

    open_ports-Into :
        (s : System Node)
        → s.modem.tcp_active ≡ []
        → Into s.modem opened named certain (open_ports to_string servers clients udps s)
    unfolding open_ports
    open_ports-Into s e =
        let x = add_tcp_ports to_string server servers s in
        let y = add_tcp_ports to_string client clients x.1 in
        let z = add_udp_ports to_string udps y.1 in
        let last = on_success z.0 z.1 (ok tt, publish z.1) in
        on_success-Into s.modem (λ q. opens server q servers) nowhere
          (λ q. opens client q clients || (false || false)) (λ q. false || (names q udps || false))
          (all_started server servers) (all_started client clients && (all_bound udps && true)) x.0
          x.1 (on_success y.0 y.1 last) (add_tcp_ports-Into server servers s refl e)
          (λ g.
            on_success-Into x.1.modem (λ q. opens client q clients) nowhere (λ q. false || false)
              (λ q. names q udps || false) (all_started client clients) (all_bound udps && true) y.0
              y.1 last (add_tcp_ports-Into client clients x.1 refl (g.same_active ∙ e))
              (λ h.
                on_success-Into y.1.modem nowhere (λ q. names q udps) nowhere nowhere
                  (all_bound udps) true z.0 z.1 (ok tt, publish z.1) (add_udp_ports-Into udps y.1)
                  (λ k. published-Into z.1)))

    -- If the constructor returns without an exception, then the ports that wait for a peer are
    -- those of the server and of the client parameters, the latter only where the operating system
    -- could bind one, the UDP connections are those of the UDP parameters, and no TCP connection
    -- is active.
    pub started_ports :
        (local resolved : Option Address) (t : System Node) (p : ℕ)
        → construct to_string local resolved servers clients udps ≡ some (ok tt, t)
        → (contains p t.modem.tcp_pending ≡ (opens server p servers || opens client p clients))
          × (contains p t.modem.udp_active ≡ names p udps)
          × (t.modem.tcp_active ≡ [])
    unfolding construct Driver.construct Driver.set_remote_host Driver.remove_all_connections
        Driver.remove_ports keys contains lookup
    started_ports none resolved t p e = cc
    started_ports (some ip) none t p e = cc
    started_ports (some ip) (some remote) t p e =
        let s = first_state ip remote in
        let f : open_ports to_string servers clients udps s ≡ (ok tt, t) = ground (arith, e) in
        let g = subst (Into s.modem opened named certain) f (open_ports-Into s refl) in
        (ground (arith, g.pending_at p), ground (arith, g.udp_at p), g.same_active)

    succeeds :
        (d : Modem) (x : Result (Unit {0}) × System Node)
        → Into d opened named true x
        → (t : System Node) × (x ≡ (ok tt, t))
    succeeds d (ok tt, t) g = (t, refl)
    succeeds d (throws e, t) g = cc
    succeeds d (undefined, t) g = cc

    -- If the operating system binds every server port and every UDP port, then the constructor
    -- returns without an exception, whatever becomes of the clients.
    pub starts :
        (ip remote : Address)
        → all_bound servers ≡ true
        → all_bound udps ≡ true
        → (t : System Node) × (construct to_string (some ip) (some remote) servers clients udps
            ≡ some (ok tt, t))
    unfolding construct Driver.construct Driver.set_remote_host Driver.remove_all_connections
        Driver.remove_ports keys
    starts ip remote a b =
        let s = first_state ip remote in
        let sure : certain ≡ true =
          rw (servers_started servers, clients_started clients, a, b) refl in
        let g =
          subst (λ c. Into s.modem opened named c (open_ports to_string servers clients udps s))
            sure (open_ports-Into s refl) in
        let (t, e) = succeeds s.modem (open_ports to_string servers clients udps s) g in
        (t, ap some e)
