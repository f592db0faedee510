-- ===== src/RosNode/Gaining.antt =====
-- The ports that a driver (src/driver.cpp) gains when connections are added: add_tcp_connection and
-- add_udp_connection as the constructor of src/ros_node.cpp calls them.
use ros_driver_modem.Prelude.{
  ℕ, ◌≡◌, refl, Bool, true, false, ◌&&◌, ◌||◌, none, some, arith, inl, inr, Option-cases, ◌==◌,
}
use ros_driver_modem.StdMap.{lookup, contains, insert}
use ros_driver_modem.StdMap.Laws.{lookup-insert_new, lookup-contains}
use ros_driver_modem.Types.{
  TcpRole, server, client, unassigned, Result, ok, throws, undefined, Setup, binds, fails_to_open,
  fails_after_open,
}
use ros_driver_modem.Modem.{Modem, System, Client}
use ros_driver_modem.Driver.Adding
use ros_driver_modem.Driver.Admitting.{add_existing}
use ros_driver_modem.Driver.AdmittingUdp.{
  add_udp_existing, add_udp_new, add_udp_fails_to_open, add_udp_fails_after_open,
}
use ros_driver_modem.Driver.Starting.{
  add_server, add_client, add_server_fails_to_open, add_server_fails_after_open,
  add_client_fails_to_open, add_client_fails_after_open,
}
use ros_driver_modem.RosNode.{Node}
use ros_driver_modem.RosNode.Requests.{after_add_tcp, after_add_udp}

abbrev pub has_bound : Setup → Bool
has_bound (binds q) = true
has_bound _ = false

-- A client whose port cannot be bound is left out, a server ends the constructor.
abbrev pub is_kept : TcpRole → Setup → Bool
is_kept client setup = has_bound setup
is_kept _ setup = true

-- The driver after ports are added: those of the first test are pending as well, those of the
-- second are UDP connections.
pub record Gains (d e : Modem) (test udp_test : ℕ → Bool) : Type 0 where
  pub pending_at : (p : ℕ) → contains p e.tcp_pending ≡ (contains p d.tcp_pending || test p)
  pub udp_at : (p : ℕ) → contains p e.udp_active ≡ (contains p d.udp_active || udp_test p)
  pub same_active : e.tcp_active ≡ d.tcp_active

abbrev pub nowhere : ℕ → Bool
nowhere p = false

-- What holds of the state if the result is no exception, which it is not where that is certain.
abbrev IfDone : {A : Type 0} → (System Node → Type 0) → Bool → Result A × System Node → Type 0
IfDone P certain (ok _, s) = P s
IfDone P certain (throws _, s) = certain ≡ false
IfDone P certain (undefined, s) = certain ≡ false

abbrev pub Into :
    {A : Type 0} → Modem → (test udp_test : ℕ → Bool) → Bool → Result A × System Node → Type 0
Into d test udp_test certain = IfDone (λ t. Gains d t.modem test udp_test) certain

module _ (external : Client Node) (p : ℕ) (s : System Node)
    (idle : lookup p s.modem.tcp_active ≡ none) where
  found_again :
      (i : ℕ) (b : Bool)
      → lookup p s.modem.tcp_pending ≡ some i
      → Gains s.modem s.modem (λ q. q == p && b) nowhere
  found_again i b e = record {
    pending_at = λ q. ground (arith, lookup-contains p i s.modem.tcp_pending e);
    same_active = refl;
    udp_at = λ q. ground arith;
  }

  added :
      (i q : ℕ)
      → lookup p s.modem.tcp_pending ≡ none
      → contains q (insert p i s.modem.tcp_pending)
        ≡ (contains q s.modem.tcp_pending || (q == p && true))
  unfolding contains
  added i q e = ground (arith, lookup-insert_new q p i s.modem.tcp_pending e)

  server-Into :
      (setup : Setup)
      → Into s.modem
          (λ q. q == p && true)
          nowhere
          (has_bound setup)
          (Adding.add_tcp_connection external server p setup s)
  server-Into setup = elim (Option-cases (lookup p s.modem.tcp_pending)) [
    | inr (i, e) ↦
        rw (add_existing external p s server setup refl (inl (ground arith))) (found_again i true e)
    | inl e ↦ by_setup setup e
  ]
    where
      by_setup :
          (setup : Setup)
          → lookup p s.modem.tcp_pending ≡ none
          → Into s.modem
              (λ q. q == p && true)
              nowhere
              (has_bound setup)
              (Adding.add_tcp_connection external server p setup s)
      by_setup (binds r) e =
          rw (add_server external p s e idle r) (record {
            pending_at = λ q. added _ q e;
            udp_at = λ q. ground arith;
            same_active = refl;
          })
      by_setup fails_to_open e = rw (add_server_fails_to_open external p s e idle) refl
      by_setup fails_after_open e = rw (add_server_fails_after_open external p s e idle) refl

  client-Into :
      (setup : Setup)
      → Into s.modem
          (λ q. q == p && has_bound setup)
          nowhere
          true
          (Adding.add_tcp_connection external client p setup s)
  client-Into setup = elim (Option-cases (lookup p s.modem.tcp_pending)) [
    | inr (i, e) ↦
        rw (add_existing external p s client setup refl (inl (ground arith)))
          (found_again i (has_bound setup) e)
    | inl e ↦ by_setup setup e
  ]
    where
      by_setup :
          (setup : Setup)
          → lookup p s.modem.tcp_pending ≡ none
          → Into s.modem
              (λ q. q == p && has_bound setup)
              nowhere
              true
              (Adding.add_tcp_connection external client p setup s)
      by_setup (binds r) e =
          rw (add_client external p s e idle r) (record {
            pending_at = λ q. added _ q e;
            udp_at = λ q. ground arith;
            same_active = refl;
          })
      by_setup fails_to_open e = rw (add_client_fails_to_open external p s e idle) (record {
        pending_at = λ q. ground arith;
        udp_at = λ q. ground arith;
        same_active = refl;
      })
      by_setup fails_after_open e = rw (add_client_fails_after_open external p s e idle) (record {
        pending_at = λ q. ground arith;
        udp_at = λ q. ground arith;
        same_active = refl;
      })

-- The constructor catches that a client could not be opened.
abbrev pub is_started : TcpRole → Setup → Bool
is_started client setup = true
is_started _ setup = has_bound setup

-- The roles that the constructor asks for.
abbrev pub asked : TcpRole → Bool
asked server = true
asked client = true
asked _ = false

pub add_tcp-Into :
    (external : Client Node) (role : TcpRole) (p : ℕ) (setup : Setup) (s : System Node)
    → asked role ≡ true
    → lookup p s.modem.tcp_active ≡ none
    → Into s.modem
        (λ q. q == p && is_kept role setup)
        nowhere
        (is_started role setup)
        (Adding.add_tcp_connection external role p setup s)
add_tcp-Into external server p setup s a idle = server-Into external p s idle setup
add_tcp-Into external client p setup s a idle = client-Into external p s idle setup
add_tcp-Into external unassigned p setup s a idle = cc
add_tcp-Into external (TcpRole.unknown n) p setup s a idle = cc

pub after_add_tcp-Into :
    (d : Modem) (test udp_test : ℕ → Bool) (certain : Bool) (x : Result Bool × System Node)
    → Into d test udp_test certain x
    → Into d test udp_test certain (after_add_tcp false x)
unfolding after_add_tcp
after_add_tcp-Into d test udp_test certain (ok true, s) g = g
after_add_tcp-Into d test udp_test certain (ok false, s) g = g
after_add_tcp-Into d test udp_test certain (throws e, s) g = g
after_add_tcp-Into d test udp_test certain (undefined, s) g = g

pub after_add_udp-Into :
    (p : ℕ) (d : Modem) (test udp_test : ℕ → Bool) (certain : Bool) (x : Result Bool × System Node)
    → Into d test udp_test certain x
    → Into d test udp_test certain (after_add_udp p false x)
unfolding after_add_udp
after_add_udp-Into p d test udp_test certain (ok true, s) g = record {
  pending_at = g.pending_at;
  udp_at = g.udp_at;
  same_active = g.same_active;
}
after_add_udp-Into p d test udp_test certain (ok false, s) g = g
after_add_udp-Into p d test udp_test certain (throws e, s) g = g
after_add_udp-Into p d test udp_test certain (undefined, s) g = g

pub add_udp-Into :
    (p : ℕ) (setup : Setup) (s : System Node)
    → Into s.modem nowhere (λ q. q == p) (has_bound setup) (Adding.add_udp_connection p setup s)
unfolding contains
add_udp-Into p setup s = elim (Option-cases (lookup p s.modem.udp_active)) [
  | inr (i, e) ↦ rw (add_udp_existing p s setup (ground (arith, e))) (record {
    pending_at = λ q. ground arith;
    udp_at = λ q. ground (arith, lookup-contains p i s.modem.udp_active e);
    same_active = refl;
  })
  | inl e ↦ by_setup setup e
]
  where
    by_setup :
        (setup : Setup)
        → lookup p s.modem.udp_active ≡ none
        → Into s.modem nowhere (λ q. q == p) (has_bound setup) (Adding.add_udp_connection p setup s)
    by_setup fails_to_open e = rw (add_udp_fails_to_open p s e) refl
    by_setup fails_after_open e = rw (add_udp_fails_after_open p s e) refl
    by_setup (binds r) e = rw (add_udp_new p s r e) (record {
      pending_at = λ q. ground arith;
      udp_at = λ q. ground (arith, lookup-insert_new q p s.modem.udp_count s.modem.udp_active e);
      same_active = refl;
    })
