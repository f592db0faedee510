-- ===== src/EventLoop/Status.antt =====
-- The changes of status that the handlers of src/tcp_connection.cpp make in a sound state.
use ros_driver_modem.Prelude.{ℕ, ◌<◌, ◌≡◌, ◌≢◌, refl, true, some, inl, inr, ◌⊎◌, arith, update}
use ros_driver_modem.StdMap.{lookup}
use ros_driver_modem.Types.{Status, disconnected, connected, pending}
use ros_driver_modem.Modem.{receive, System, Client}
use ros_driver_modem.TcpConnection.{object, update_status, async_rx}
use ros_driver_modem.TcpConnection.Signals.{update_status-same}
use ros_driver_modem.Driver.Callbacks.{hooks}
use ros_driver_modem.Driver.Coherent.{not_pending}
use ros_driver_modem.Driver.Invariant.{IsSound}
use ros_driver_modem.Driver.Losing.{
  without_pending, without_active, reported, lose_pending, lose_active,
}
use ros_driver_modem.Driver.Removing.{without_pending-IsSound, without_active-IsSound}
use ros_driver_modem.Driver.Connecting.{
  with_active, connect_pending, with_active-IsSound, post-IsSound,
}

pub Status-cases : (st : Status) → (st ≡ disconnected) ⊎ (st ≡ connected) ⊎ (st ≡ pending)
Status-cases disconnected = inl refl
Status-cases connected = inr (inl refl)
Status-cases pending = inr (inr refl)

module _ {N : Type 0} (external : Client N) (i : ℕ) (s : System N) (v : IsSound s.modem) where
  -- The port of the object.
  abbrev port : ℕ
  port = (object i s).local_endpoint.port

  -- The three ways in which DISCONNECTED is entered.
  pub disconnected_cases {ℓ} :
      (P : System N → Type ℓ)
      → ((object i s).status ≡ disconnected → P s)
      → ((object i s).status ≡ connected
          → lookup port s.modem.tcp_active ≡ some i
          → P (reported external i port s (without_active port i s.modem)))
      → ((object i s).status ≡ pending
          → lookup port s.modem.tcp_pending ≡ some i
          → P (reported external i port s (without_pending port i s.modem)))
      → P (update_status (hooks external) disconnected true i s)
  disconnected_cases P f g h = elim (Status-cases (object i s).status) [
    | inl e ↦ rw (update_status-same (hooks external) i s disconnected e) (f e)
    | inr (inl e) ↦
        let listed = v.coherent.active_in i e in
        let at = (v.coherent.active_at port i listed).0 in
        rw (lose_active external i port s at (not_pending v.coherent port i listed) listed)
          (g e listed)
    | inr (inr e) ↦
        let listed = v.coherent.pending_in i e in
        let at = (v.coherent.pending_at port i listed).0 in
        rw (lose_pending external i port s at listed) (h e listed)
  ]

  pub disconnected-IsSound : IsSound (update_status (hooks external) disconnected true i s).modem
  disconnected-IsSound =
      disconnected_cases (λ t. IsSound t.modem) (λ _. v) (λ _ e. without_active-IsSound v port i e)
        (λ _ e. without_pending-IsSound v port i e)

  -- The two ways in which an object with an open socket enters CONNECTED.
  pub connected_cases {ℓ} :
      (P : System N → Type ℓ)
      → (object i s).status ≢ disconnected
      → ((object i s).status ≡ connected → P s)
      → ((object i s).status ≡ pending
          → lookup port s.modem.tcp_pending ≡ some i
          → P (
              let d = with_active port i s.modem in
              record { modem = d; app = external.connected_callback port d s.app }))
      → P (update_status (hooks external) connected true i s)
  connected_cases P ne f g = elim (Status-cases (object i s).status) [
    | inl e ↦ absurd (ne e)
    | inr (inl e) ↦ rw (update_status-same (hooks external) i s connected e) (f e)
    | inr (inr e) ↦
        let listed = v.coherent.pending_in i e in
        let at = (v.coherent.pending_at port i listed).0 in
        rw (connect_pending external i port s at listed) (g e listed)
  ]

  -- Connecting and then waiting for data.
  pub connected-IsSound :
      (object i s).status ≢ disconnected
      → (object i s).socket_open ≡ true
      → i < s.modem.tcp_count
      → IsSound (async_rx i (update_status (hooks external) connected true i s)).modem
  unfolding async_rx update
  connected-IsSound ne o b =
      connected_cases (λ t. IsSound (async_rx i t).modem) ne
        (λ e. post-IsSound v (receive i) (b, λ f. absurd (ne f)))
        (λ e listed.
          post-IsSound (with_active-IsSound v port i listed o) (receive i) (b, ground arith))
