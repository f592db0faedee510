-- ===== src/Driver/AdmittingUdp.antt =====
-- driver::add_udp_connection (src/driver.cpp): its cases, and the invariant of the driver.
use ros_driver_modem.Prelude.{
  ℕ, suc, ◌≡◌, ◌≢◌, Bool, true, none, some, inl, inr, arith, update, Option-cases, [], ◌∷◌, ◌++◌,
}
use ros_driver_modem.StdMap.{lookup, insert}
use ros_driver_modem.StdMap.Laws.{lookup-insert_new}
use ros_driver_modem.StdMap.Order.{insert-IsSorted}
use ros_driver_modem.Types.{
  Result, ok, throws, system_error, Setup, fails_to_open, fails_after_open, binds,
}
use ros_driver_modem.Modem.{
  UdpConnection as UdpObject, receive_from, Modem, System, new_udp, on_modem,
}
use ros_driver_modem.Driver.Adding.{buffer_size, remote_endpoint, create_udp, add_udp_connection}
use ros_driver_modem.Driver.Admitting.{Honours}
use ros_driver_modem.UdpConnection
use ros_driver_modem.TcpConnection.Closing.{update_self, update-update}
use ros_driver_modem.Driver.Quiet.{Quiet-post}
use ros_driver_modem.Driver.Invariant.{IsSound, UdpCoherent}

-- The driver with one more UDP connection, which receives.
abbrev pub with_udp : ℕ → UdpObject → Modem → Modem
with_udp p o d = record d {
  udp_heap = update d.udp_heap d.udp_count o;
  udp_count = suc d.udp_count;
  handlers = d.handlers ++ receive_from d.udp_count ∷ [];
  udp_active = insert p d.udp_count d.udp_active;
}

module _ {N : Type 0} (p : ℕ) (s : System N) where
  -- The object of a new UDP connection: its peer is the remote host, at the same port.
  abbrev pub udp_ready : ℕ → UdpObject
  udp_ready q = record (new_udp q (remote_endpoint p s) buffer_size) { has_rx = true }

  pub add_udp_new :
      (q : ℕ)
      → lookup p s.modem.udp_active ≡ none
      → add_udp_connection p (binds q) s ≡ (ok true, on_modem (with_udp p (udp_ready q)) s)
  unfolding add_udp_connection create_udp UdpConnection.connect UdpConnection.async_rx
      UdpConnection.attach_rx_callback
  add_udp_new q e = simp (update_self, update-update) (ground arith)

  pub add_udp_existing :
      (setup : Setup)
      → lookup p s.modem.udp_active ≢ none
      → add_udp_connection p setup s ≡ (ok true, s)
  unfolding add_udp_connection
  add_udp_existing fails_to_open h = ground arith
  add_udp_existing fails_after_open h = ground arith
  add_udp_existing (binds q) h = ground arith

  pub add_udp_fails_to_open :
      lookup p s.modem.udp_active ≡ none
      → add_udp_connection p fails_to_open s ≡ (throws system_error, s)
  unfolding add_udp_connection
  add_udp_fails_to_open e = ground arith

  pub add_udp_fails_after_open :
      lookup p s.modem.udp_active ≡ none
      → add_udp_connection p fails_after_open s ≡ (throws system_error, s)
  unfolding add_udp_connection
  add_udp_fails_after_open e = ground arith

  with_udp-UdpCoherent :
      IsSound s.modem
      → lookup p s.modem.udp_active ≡ none
      → UdpCoherent
          (update s.modem.udp_heap s.modem.udp_count (udp_ready p))
          (suc s.modem.udp_count)
          (insert p s.modem.udp_count s.modem.udp_active)
  unfolding update new_udp
  with_udp-UdpCoherent v e = record {
    open_at = λ q j f. ground (
      arith,
      lookup-insert_new q p s.modem.udp_count s.modem.udp_active e,
      v.udp_coherent.open_at q j,
    );
  }

  with_udp-IsSound :
      IsSound s.modem
      → lookup p s.modem.udp_active ≡ none
      → IsSound (with_udp p (udp_ready p) s.modem)
  with_udp-IsSound v e = record {
    coherent = v.coherent;
    udp_coherent = with_udp-UdpCoherent v e;
    quiet =
        Quiet-post s.modem.tcp_heap s.modem.tcp_count s.modem.handlers
          (receive_from s.modem.udp_count) v.quiet tt;
    pending_sorted = v.pending_sorted;
    active_sorted = v.active_sorted;
    udp_sorted = insert-IsSorted p s.modem.udp_count s.modem.udp_active v.udp_sorted;
  }

  -- What add_udp_connection can come to: a new connection, one that was there, or an exception.
  pub add_udp_cases {ℓ} :
      (P : Result Bool × System N → Type ℓ)
      → ((q : ℕ)
          → lookup p s.modem.udp_active ≡ none
          → P (ok true, on_modem (with_udp p (udp_ready q)) s))
      → ((i : ℕ) → lookup p s.modem.udp_active ≡ some i → P (ok true, s))
      → P (throws system_error, s)
      → (setup : Setup) → P (add_udp_connection p setup s)
  add_udp_cases P new old threw setup = elim (Option-cases (lookup p s.modem.udp_active)) [
    | inr (i, e) ↦ rw (add_udp_existing setup (ground arith)) (old i e)
    | inl e ↦ by_setup setup e
  ]
    where
      by_setup :
          (setup : Setup) → lookup p s.modem.udp_active ≡ none → P (add_udp_connection p setup s)
      by_setup fails_to_open e = rw (add_udp_fails_to_open e) threw
      by_setup fails_after_open e = rw (add_udp_fails_after_open e) threw
      by_setup (binds q) e = rw (add_udp_new q e) (new q e)

  -- Adding a UDP connection keeps the state of the driver sound, for a port in use or free, and
  -- however the operating system answers, provided that it binds the port that it is asked for.
  pub add_udp-IsSound :
      (setup : Setup)
      → Honours p setup
      → IsSound s.modem
      → IsSound (add_udp_connection p setup s).1.modem
  add_udp-IsSound setup h v = elim (Option-cases (lookup p s.modem.udp_active)) [
    | inr (i, e) ↦ rw (add_udp_existing setup (ground arith)) v
    | inl e ↦ by_setup setup h e
  ]
    where
      by_setup :
          (setup : Setup)
          → Honours p setup
          → lookup p s.modem.udp_active ≡ none
          → IsSound (add_udp_connection p setup s).1.modem
      by_setup fails_to_open h e = rw (add_udp_fails_to_open e) v
      by_setup fails_after_open h e = rw (add_udp_fails_after_open e) v
      by_setup (binds q) h e = rw (add_udp_new q e, h) (with_udp-IsSound v e)
