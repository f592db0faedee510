-- ===== src/RosNode/Phases.antt =====
-- The phase of a TCP connection after the driver (src/driver.cpp) has removed connections, sent on
-- one, or added one.
use ros_driver_modem.Prelude.{
  ℕ, zero, suc, ◌≡◌, refl, Bool, true, false, none, arith, ◌==◌, ◌&&◌, if◌then◌else◌, inl, inr,
  Bool-cases, Option-cases, List, length, ◌%◌, ◌^◌,
}
use ros_driver_modem.StdMap.{lookup, contains}
use ros_driver_modem.Types.{
  Address, Protocol, SendOutcome, TcpRole, unassigned, server, client, same_role, Setup, binds,
  fails_to_open, fails_after_open,
}
use ros_driver_modem.Modem.{Modem, Client, System}
use ros_driver_modem.Topics.{Text}
use ros_driver_modem.Driver
use ros_driver_modem.TcpConnection.{is_broken_pipe}
use ros_driver_modem.Driver.Coherent.{not_pending}
use ros_driver_modem.Driver.Connecting.{log-IsSound}
use ros_driver_modem.Driver.Losing.{lose_active}
use ros_driver_modem.Driver.Sending.{handed_over, tx-tcp, tx-tcp_absent}
use ros_driver_modem.StdMap.Laws.{lookup-insert_new}
use ros_driver_modem.Driver.Adding
use ros_driver_modem.Driver.Admitting.{add_existing, add_unassigned}
use ros_driver_modem.Driver.Starting.{
  add_server, add_client, add_server_fails_to_open, add_server_fails_after_open,
  add_client_fails_to_open, add_client_fails_after_open, add_unknown_role,
}
use ros_driver_modem.RosNode.Gaining.{has_bound}
use ros_driver_modem.Driver.Removing.{remove_tcp_cases, remove_udp_cases}
use ros_driver_modem.Driver.RemovingAll.{remove_all_empties}
use ros_driver_modem.Driver.Invariant.{IsSound}
use ros_driver_modem.Driver.Lifecycle.{
  Phase, absent, waiting, established, phase, same_phase, phase-drop_pending, phase-drop_active,
}
use ros_driver_modem.RosNode.{Node, callbacks}
use ros_driver_modem.RosNode.Requests.{service_tcp_tx}

abbrev pub is_tcp : Protocol → Bool
is_tcp Protocol.tcp = true
is_tcp _ = false

abbrev pub is_established : Phase → Bool
is_established established = true
is_established _ = false

abbrev pub is_absent : Phase → Bool
is_absent absent = true
is_absent _ = false

-- A server or a client whose port the operating system binds.
abbrev pub starts : TcpRole → Setup → Bool
starts server setup = has_bound setup
starts client setup = has_bound setup
starts _ setup = false

module _ (to_string : Address → Text) (s : System Node) (v : IsSound s.modem) where
  pub removed_phase :
      (type : Protocol) (p q : ℕ)
      → phase (Driver.remove_connection type p s).1.modem q
        ≡ (if q == p && is_tcp type then absent else phase s.modem q)
  unfolding Driver.remove_connection phase contains
  removed_phase Protocol.tcp p q =
      remove_tcp_cases p s
        (λ t. phase t.modem q ≡ (if q == p && true then absent else phase s.modem q))
        (λ i e. ground (arith, phase-drop_pending s.modem q p i v e))
        (λ i _ e. ground (arith, phase-drop_active s.modem q p i v e)) (λ e f. ground (arith, e, f))
  removed_phase Protocol.udp p q =
      remove_udp_cases p s
        (λ t. phase t.modem q ≡ (if q == p && false then absent else phase s.modem q))
        (λ i e. ground arith) (λ e. ground arith)
  removed_phase (Protocol.unknown c) p q = ground arith

  pub sent_phase :
      (p : ℕ) (bytes : List ℕ) (sending : SendOutcome) (q : ℕ)
      → phase (service_tcp_tx to_string p bytes sending s).1.modem q ≡ (
          if q == p && (is_broken_pipe sending.error && is_established (phase s.modem q))
          then absent
          else phase s.modem q)
  unfolding service_tcp_tx phase contains
  sent_phase p bytes sending q = elim (Option-cases (lookup p s.modem.tcp_active)) [
    | inl e ↦ rw (tx-tcp_absent (callbacks to_string) bytes _ sending p s e) (ground (arith, e))
    | inr (i, e) ↦
        let at = (v.coherent.active_at p i e).0 in
        let n = length bytes % 2 ^ 32 in
        let t = handed_over (callbacks to_string) bytes n sending i s in
        rw (tx-tcp (callbacks to_string) bytes n sending p i s e at.in_status)
          (elim (Bool-cases (is_broken_pipe sending.error)) [
            | inr whole ↦ rw whole (ground (arith, e))
            | inl broken ↦
                rw
                  (
                    broken,
                    lose_active (callbacks to_string) i p t at (not_pending v.coherent p i e) e,
                  )
                  (ground (arith, e, phase-drop_active t.modem q p i (log-IsSound v _) e))
          ])
  ]

-- Adding a TCP connection at a port.
module _ (external : Client Node) (p : ℕ) (s : System Node) (q : ℕ) where
  -- The phases after the driver has added a connection, or not.
  abbrev PhaseAdded : TcpRole → Setup → Modem → Type 0
  PhaseAdded role setup d = phase d q ≡ (
      if q == p && (is_absent (phase s.modem q) && starts role setup)
      then waiting
      else phase s.modem q)

  idle_role :
      (role : TcpRole) (setup : Setup)
      → same_role role unassigned ≡ true
      → starts role setup ≡ false
  idle_role unassigned setup r = refl
  idle_role server setup r = cc
  idle_role client setup r = cc
  idle_role (TcpRole.unknown n) setup r = refl

  add_new_phase :
      (role : TcpRole) (setup : Setup)
      → lookup p s.modem.tcp_pending ≡ none
      → lookup p s.modem.tcp_active ≡ none
      → same_role role unassigned ≡ false
      → PhaseAdded role setup (Driver.Adding.add_tcp_connection external role p setup s).1.modem
  unfolding phase contains
  add_new_phase unassigned setup e f r = cc
  add_new_phase server (binds b) e f r =
      rw (add_server external p s e f b)
        (ground (arith, lookup-insert_new q p s.modem.tcp_count s.modem.tcp_pending e, e, f))
  add_new_phase server fails_to_open e f r =
      rw (add_server_fails_to_open external p s e f) (ground arith)
  add_new_phase server fails_after_open e f r =
      rw (add_server_fails_after_open external p s e f) (ground arith)
  add_new_phase client (binds b) e f r =
      rw (add_client external p s e f b)
        (ground (arith, lookup-insert_new q p s.modem.tcp_count s.modem.tcp_pending e, e, f))
  add_new_phase client fails_to_open e f r =
      rw (add_client_fails_to_open external p s e f) (ground arith)
  add_new_phase client fails_after_open e f r =
      rw (add_client_fails_after_open external p s e f) (ground arith)
  add_new_phase (TcpRole.unknown zero) setup e f r = cc
  add_new_phase (TcpRole.unknown (suc n)) setup e f r =
      rw (add_unknown_role external p s e f n setup) (ground arith)

  pub phase_after_adding :
      (role : TcpRole) (setup : Setup)
      → PhaseAdded role setup (Driver.Adding.add_tcp_connection external role p setup s).1.modem
  unfolding phase contains
  phase_after_adding role setup = elim (Bool-cases (same_role role unassigned)) [
    | inl r ↦ rw (add_unassigned external p s role setup r) (ground (arith, idle_role role setup r))
    | inr r ↦ elim (Option-cases (lookup p s.modem.tcp_pending)) [
      | inr (i, e) ↦
          rw (add_existing external p s role setup r (inl (ground arith))) (ground (arith, e))
      | inl e ↦ elim (Option-cases (lookup p s.modem.tcp_active)) [
        | inr (i, f) ↦
            rw (add_existing external p s role setup r (inr (ground arith))) (ground (arith, f))
        | inl f ↦ add_new_phase role setup e f r
      ]
    ]
  ]

pub all_absent :
    (q : ℕ) (s : System Node)
    → same_phase (phase (Driver.remove_all_connections s).modem q) absent ≡ true
unfolding phase contains lookup
all_absent q s = let empty = remove_all_empties s in rw (empty.0, empty.1) refl
