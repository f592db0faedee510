-- ===== src/Driver/Admitting.antt =====
-- driver::add_tcp_connection (src/driver.cpp): its cases, and the invariant of the driver.
use ros_driver_modem.Prelude.{
  ℕ, zero, suc, ◌≡◌, ◌≢◌, refl, Bool, true, false, none, inl, inr, ◌⊎◌, arith, update, Option-cases,
  Bool-cases, length-replicate,
}
use ros_driver_modem.StdMap.{lookup}
use ros_driver_modem.StdMap.Order.{insert-IsSorted}
use ros_driver_modem.Types.{
  Endpoint, TcpRole, unassigned, server, client, disconnected, pending, same_role, Result, ok,
  Setup, fails_to_open, fails_after_open, binds, throws, system_error,
}
use ros_driver_modem.Modem.{
  TcpConnection, Handler, accept, connect, Modem, System, Client, new_tcp, on_modem,
}
use ros_driver_modem.Driver.Adding.{buffer_size, local_endpoint, existing_role, add_tcp_connection}
use ros_driver_modem.Driver.Coherent.{IsSized, IsAt, add_pending-Coherent, add_failed-Coherent}
use ros_driver_modem.Driver.Quiet.{QuietHandler, Quiet-post, Quiet-fresh}
use ros_driver_modem.Driver.Invariant.{IsSound}
use ros_driver_modem.Driver.Starting.{
  ready, with_object, with_pending, add_server, add_client, add_server_fails_to_open,
  add_server_fails_after_open, add_client_fails_to_open, add_client_fails_after_open,
  add_unknown_role,
}

-- The operating system binds a socket to the port that is asked for, as bind documents for every
-- port but 0.
abbrev pub Honours : ℕ → Setup → Type 0
Honours p (binds q) = q ≡ p
Honours p _ = Unit {0}

-- The handler with which an object starts: a server waits for a peer, a client that has its socket
-- for the connection.
abbrev pub Starts : ℕ → TcpConnection → Handler → Type 0
Starts i o k = (k ≡ accept i) ⊎ ((k ≡ connect i) × (o.socket_open ≡ true))

-- A new object has a buffer of the size that it says.
ready-IsSized : (local : Endpoint) → IsSized buffer_size (ready local).buffer
unfolding new_tcp
ready-IsSized local = length-replicate buffer_size 0

module _ {d : Modem} (v : IsSound d) where
  pub with_object-IsSound :
      (o : TcpConnection) → o.status ≡ disconnected → IsSound (with_object o d)
  with_object-IsSound o e = record {
    coherent = add_failed-Coherent v.coherent o e;
    udp_coherent = v.udp_coherent;
    quiet = Quiet-fresh d.tcp_heap d.tcp_count o d.handlers v.quiet;
    pending_sorted = v.pending_sorted;
    active_sorted = v.active_sorted;
    udp_sorted = v.udp_sorted;
  }

  pub with_pending-IsSound :
      (p : ℕ) (o : TcpConnection) (k : Handler)
      → IsAt pending p o
      → lookup p d.tcp_pending ≡ none
      → lookup p d.tcp_active ≡ none
      → QuietHandler (update d.tcp_heap d.tcp_count o) (suc d.tcp_count) k
      → IsSound (with_pending p o k d)
  with_pending-IsSound p o k at e f q = record {
    coherent = add_pending-Coherent v.coherent p o at e f;
    udp_coherent = v.udp_coherent;
    quiet =
        Quiet-post (update d.tcp_heap d.tcp_count o) (suc d.tcp_count) d.handlers k
          (Quiet-fresh d.tcp_heap d.tcp_count o d.handlers v.quiet) q;
    pending_sorted = insert-IsSorted p d.tcp_count d.tcp_pending v.pending_sorted;
    active_sorted = v.active_sorted;
    udp_sorted = v.udp_sorted;
  }

module _ {N : Type 0} (external : Client N) (p : ℕ) (s : System N) where
  -- A port that is in use is answered by its role, and nothing changes.
  pub add_existing :
      (role : TcpRole) (setup : Setup)
      → same_role role unassigned ≡ false
      → (lookup p s.modem.tcp_pending ≢ none) ⊎ (lookup p s.modem.tcp_active ≢ none)
      → add_tcp_connection external role p setup s ≡ (ok (existing_role role p s), s)
  unfolding add_tcp_connection
  add_existing role setup r h = ground arith

  pub add_unassigned :
      (role : TcpRole) (setup : Setup)
      → same_role role unassigned ≡ true
      → add_tcp_connection external role p setup s ≡ (ok false, s)
  unfolding add_tcp_connection
  add_unassigned role setup r = ground arith

  module _ (v : IsSound s.modem) (free : lookup p s.modem.tcp_pending ≡ none)
      (idle : lookup p s.modem.tcp_active ≡ none) where
    add_new-IsSound :
        (role : TcpRole) (setup : Setup)
        → same_role role unassigned ≡ false
        → Honours p setup
        → IsSound (add_tcp_connection external role p setup s).1.modem
    unfolding new_tcp update
    add_new-IsSound unassigned setup r h = cc
    add_new-IsSound server (binds q) r h =
        rw (add_server external p s free idle q)
          (with_pending-IsSound v p _ _ (ground arith) free idle (ground arith))
    add_new-IsSound server fails_to_open r h =
        rw (add_server_fails_to_open external p s free idle) (with_object-IsSound v _ refl)
    add_new-IsSound server fails_after_open r h =
        rw (add_server_fails_after_open external p s free idle) (with_object-IsSound v _ refl)
    add_new-IsSound client (binds q) r h =
        rw (add_client external p s free idle q)
          (with_pending-IsSound v p _ _ (ground arith) free idle (ground arith))
    add_new-IsSound client fails_to_open r h =
        rw (add_client_fails_to_open external p s free idle) (with_object-IsSound v _ refl)
    add_new-IsSound client fails_after_open r h =
        rw (add_client_fails_after_open external p s free idle) (with_object-IsSound v _ refl)
    add_new-IsSound (TcpRole.unknown zero) setup r h = cc
    add_new-IsSound (TcpRole.unknown (suc n)) setup r h =
        rw (add_unknown_role external p s free idle n setup) (with_object-IsSound v _ refl)

  -- Adding a TCP connection keeps the state of the driver sound, for every role, for a port in use
  -- or free, and however the operating system answers, provided that it binds the port that it is
  -- asked for.
  pub add_tcp-IsSound :
      (role : TcpRole) (setup : Setup)
      → Honours p setup
      → IsSound s.modem
      → IsSound (add_tcp_connection external role p setup s).1.modem
  add_tcp-IsSound role setup h v = elim (Bool-cases (same_role role unassigned)) [
    | inl none_given ↦ rw (add_unassigned role setup none_given) v
    | inr r ↦ elim (Option-cases (lookup p s.modem.tcp_pending)) [
      | inr (i, e) ↦ rw (add_existing role setup r (inl (ground arith))) v
      | inl e ↦ elim (Option-cases (lookup p s.modem.tcp_active)) [
        | inr (i, f) ↦ rw (add_existing role setup r (inr (ground arith))) v
        | inl f ↦ add_new-IsSound v e f role setup r h
      ]
    ]
  ]

module _ {N : Type 0} (external : Client N) (p : ℕ) (s : System N) where
  -- What add_tcp_connection can come to: nothing changes; an object that did not start is left
  -- behind; or a started object is pending.
  module _ {ℓ} (P : Result Bool × System N → Type ℓ) (same : (b : Bool) → P (ok b, s))
      (refused : (o : TcpConnection)
        → IsSized o.buffer_size o.buffer
        → P (ok false, on_modem (with_object o) s))
      (threw : (o : TcpConnection)
        → IsSized o.buffer_size o.buffer
        → P (throws system_error, on_modem (with_object o) s))
      (started : (o : TcpConnection) (k : Handler)
        → IsSized o.buffer_size o.buffer
        → Starts s.modem.tcp_count o k
        → lookup p s.modem.tcp_pending ≡ none
        → lookup p s.modem.tcp_active ≡ none
        → P (ok true, on_modem (with_pending p o k) s)) where
    add_new_cases :
        (role : TcpRole) (setup : Setup)
        → same_role role unassigned ≡ false
        → lookup p s.modem.tcp_pending ≡ none
        → lookup p s.modem.tcp_active ≡ none
        → P (add_tcp_connection external role p setup s)
    unfolding new_tcp
    add_new_cases unassigned setup r e f = cc
    add_new_cases server (binds q) r e f =
        rw (add_server external p s e f q)
          (started _ _ (ready-IsSized (local_endpoint p s)) (inl refl) e f)
    add_new_cases server fails_to_open r e f =
        rw (add_server_fails_to_open external p s e f)
          (threw _ (ready-IsSized (local_endpoint p s)))
    add_new_cases server fails_after_open r e f =
        rw (add_server_fails_after_open external p s e f)
          (threw _ (ready-IsSized (local_endpoint p s)))
    add_new_cases client (binds q) r e f =
        rw (add_client external p s e f q)
          (started _ _ (ready-IsSized (local_endpoint p s)) (inr (refl, refl)) e f)
    add_new_cases client fails_to_open r e f =
        rw (add_client_fails_to_open external p s e f)
          (refused _ (ready-IsSized (local_endpoint p s)))
    add_new_cases client fails_after_open r e f =
        rw (add_client_fails_after_open external p s e f)
          (refused _ (ready-IsSized (local_endpoint p s)))
    add_new_cases (TcpRole.unknown zero) setup r e f = cc
    add_new_cases (TcpRole.unknown (suc n)) setup r e f =
        rw (add_unknown_role external p s e f n setup)
          (refused _ (ready-IsSized (local_endpoint p s)))

    pub add_tcp_cases :
        (role : TcpRole) (setup : Setup) → P (add_tcp_connection external role p setup s)
    add_tcp_cases role setup = elim (Bool-cases (same_role role unassigned)) [
      | inl none_given ↦ rw (add_unassigned external p s role setup none_given) (same false)
      | inr r ↦ elim (Option-cases (lookup p s.modem.tcp_pending)) [
        | inr (i, e) ↦ rw (add_existing external p s role setup r (inl (ground arith))) (same _)
        | inl e ↦ elim (Option-cases (lookup p s.modem.tcp_active)) [
          | inr (i, f) ↦ rw (add_existing external p s role setup r (inr (ground arith))) (same _)
          | inl f ↦ add_new_cases role setup r e f
        ]
      ]
    ]
