-- ===== src/Driver/Operations.antt =====
-- The operations of the driver (src/driver.cpp) on a property that survives the elementary changes.
use ros_driver_modem.Prelude.{
  ℕ, ◌≡◌, refl, subst, sym, true, List, [], ◌∷◌, inl, inr, Bool-cases, Option-cases,
  length-replicate,
}
use ros_driver_modem.StdMap.{lookup, keys}
use ros_driver_modem.Types.{Protocol, TcpRole, disconnected, Setup, SendOutcome}
use ros_driver_modem.Modem.{Modem, System, Client, new_udp}
use ros_driver_modem.TcpConnection.{object, update_status, is_broken_pipe}
use ros_driver_modem.UdpConnection.{is_no_error}
use ros_driver_modem.Driver.{remove_tcp, remove_connection, remove_ports, remove_all_connections}
use ros_driver_modem.Driver.Adding.{buffer_size, add_tcp_connection, add_udp_connection, tx}
use ros_driver_modem.Driver.Callbacks.{hooks}
use ros_driver_modem.Driver.Coherent.{IsSized}
use ros_driver_modem.Driver.Invariant.{IsSound}
use ros_driver_modem.Driver.Keeping.{
  KeptByRequests, KeptByRemoval, KeptByUdpRemoval, KeptByAddition, KeptByUdpAddition,
}
use ros_driver_modem.Driver.Removing.{remove_tcp_cases, remove_udp_cases, remove_connection-IsSound}
use ros_driver_modem.Driver.RemovingAll.{remove_ports-IsSound}
use ros_driver_modem.Driver.Connecting.{log-IsSound}
use ros_driver_modem.Driver.Admitting.{add_tcp_cases}
use ros_driver_modem.Driver.AdmittingUdp.{udp_ready, add_udp_cases}
use ros_driver_modem.Driver.Sending.{
  handed_over, tx-tcp, tx-tcp_absent, tx-udp, tx-udp_absent, tx-unknown,
}
use ros_driver_modem.EventLoop.Status.{disconnected_cases}

module _ {N : Type 0} {Q : ℕ → Type 0} {P : Modem → Type 0} (drops : KeptByRemoval Q P) where
  remove_tcp-keeps :
      (p : ℕ) (s : System N) → Q p → IsSound s.modem → P s.modem → P (remove_tcp p s).modem
  remove_tcp-keeps p s z v w =
      remove_tcp_cases p s (λ t. P t.modem) (λ i e. drops.drop_pending s.modem p i z v e w)
        (λ i _ e. drops.drop_active s.modem p i z v e w) (λ _ _. w)

  -- An object that is found disconnected.
  pub disconnected-keeps :
      (external : Client N) (i : ℕ) (s : System N)
      → Q (object i s).local_endpoint.port
      → IsSound s.modem
      → P s.modem
      → P (update_status (hooks external) disconnected true i s).modem
  disconnected-keeps external i s z v w =
      disconnected_cases external i s v (λ t. P t.modem) (λ _. w)
        (λ _ e. drops.drop_active s.modem _ i z v e w)
        (λ _ e. drops.drop_pending s.modem _ i z v e w)

  module _ (drops_udp : KeptByUdpRemoval Q P) where
    pub remove_connection-keeps :
        (type : Protocol) (p : ℕ) (s : System N)
        → Q p
        → IsSound s.modem
        → P s.modem
        → P (remove_connection type p s).1.modem
    unfolding remove_connection
    remove_connection-keeps Protocol.tcp p s z v w = remove_tcp-keeps p s z v w
    remove_connection-keeps Protocol.udp p s z v w =
        remove_udp_cases p s (λ t. P t.modem) (λ i e. drops_udp.drop_udp s.modem p i z v e w)
          (λ _. w)
    remove_connection-keeps (Protocol.unknown _) p s z v w = w

    module _ (everywhere : (p : ℕ) → Q p) where
      remove_ports-keeps :
          (type : Protocol) (ps : List ℕ) (s : System N)
          → IsSound s.modem
          → P s.modem
          → P (remove_ports type ps s).modem
      unfolding remove_ports
      remove_ports-keeps type [] s v w = w
      remove_ports-keeps type (p ∷ ps) s v w =
          remove_ports-keeps type ps _ (remove_connection-IsSound type p s v)
            (remove_connection-keeps type p s (everywhere p) v w)

      pub remove_all-keeps :
          (s : System N) → IsSound s.modem → P s.modem → P (remove_all_connections s).modem
      unfolding remove_all_connections
      remove_all-keeps s v w =
          let v1 = remove_ports-IsSound Protocol.tcp (keys s.modem.tcp_pending) s v in
          let s1 = remove_ports Protocol.tcp (keys s.modem.tcp_pending) s in
          let w1 = remove_ports-keeps Protocol.tcp (keys s.modem.tcp_pending) s v w in
          let v2 = remove_ports-IsSound Protocol.tcp (keys s1.modem.tcp_active) s1 v1 in
          let w2 = remove_ports-keeps Protocol.tcp (keys s1.modem.tcp_active) s1 v1 w1 in
          remove_ports-keeps Protocol.udp _ _ v2 w2

  pub tx-keeps :
      (external : Client N) (bytes : List ℕ) (n : ℕ) (sending : SendOutcome) (type : Protocol)
      (p : ℕ) (s : System N)
      → KeptByRequests P
      → (type ≡ Protocol.tcp → Q p)
      → IsSound s.modem
      → P s.modem
      → P (tx external type p bytes n sending s).1.modem
  tx-keeps external bytes n sending Protocol.tcp p s writes z v w =
      elim (Option-cases (lookup p s.modem.tcp_active)) [
        | inl e ↦ rw (tx-tcp_absent external bytes n sending p s e) w
        | inr (i, e) ↦
            let up = (v.coherent.active_at p i e).0.in_status in
            let here = subst Q (sym (v.coherent.active_at p i e).0.at_port) (z refl) in
            let kept = writes.sends s.modem _ w in
            rw (tx-tcp external bytes n sending p i s e up)
              (elim (Bool-cases (is_broken_pipe sending.error)) [
                | inl broken ↦ rw broken (
                    disconnected-keeps external i (handed_over external bytes n sending i s) here
                      (log-IsSound v _) kept)
                | inr whole ↦ rw whole kept
              ])
      ]
  tx-keeps external bytes n sending Protocol.udp p s writes z v w =
      elim (Option-cases (lookup p s.modem.udp_active)) [
        | inl e ↦ rw (tx-udp_absent external bytes n sending p s e) w
        | inr (i, e) ↦
            rw (tx-udp external bytes n sending p i s e)
              (elim (Bool-cases (is_no_error sending.error)) [
                | inl fine ↦ rw fine (writes.sends s.modem _ w)
                | inr failed ↦ rw failed w
              ])
      ]
  tx-keeps external bytes n sending (Protocol.unknown c) p s writes z v w =
      rw (tx-unknown external bytes n sending c p s) w

module _ {N : Type 0} {P : Modem → Type 0} (p : ℕ) (additions : KeptByAddition p P) where
  pub add_tcp-keeps :
      (external : Client N) (role : TcpRole) (setup : Setup) (s : System N)
      → IsSound s.modem
      → P s.modem
      → P (add_tcp_connection external role p setup s).1.modem
  add_tcp-keeps external role setup s v w =
      add_tcp_cases external p s (λ x. P x.1.modem) (λ _. w)
        (λ o z. additions.leaves s.modem o v z w) (λ o z. additions.leaves s.modem o v z w)
        (λ o k z g e f. additions.adds s.modem o k v z g e f w) role setup

udp_ready-IsSized :
    {N : Type 0} (p : ℕ) (s : System N) (q : ℕ) → IsSized buffer_size (udp_ready p s q).buffer
unfolding new_udp
udp_ready-IsSized p s q = length-replicate buffer_size 0

module _ {N : Type 0} {P : Modem → Type 0} (p : ℕ) (additions : KeptByUdpAddition p P) where
  pub add_udp-keeps :
      (setup : Setup) (s : System N) → P s.modem → P (add_udp_connection p setup s).1.modem
  unfolding new_udp
  add_udp-keeps setup s w =
      add_udp_cases p s (λ x. P x.1.modem)
        (λ q e. additions.adds_udp s.modem (udp_ready p s q) (udp_ready-IsSized p s q) e w)
        (λ _ _. w) w setup
