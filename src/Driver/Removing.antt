-- ===== src/Driver/Removing.antt =====
-- driver::remove_connection (src/driver.cpp): its cases, and the invariant of the driver.
use ros_driver_modem.Prelude.{
  ℕ, ◌≡◌, refl, false, none, some, inl, inr, arith, update, Option-cases,
}
use ros_driver_modem.StdMap.{lookup, erase}
use ros_driver_modem.StdMap.Laws.{lookup-erase}
use ros_driver_modem.StdMap.Order.{erase-IsSorted}
use ros_driver_modem.Types.{Protocol}
use ros_driver_modem.Modem.{Modem, System, on_modem}
use ros_driver_modem.Driver.{remove_tcp, remove_udp, remove_connection}
use ros_driver_modem.UdpConnection
use ros_driver_modem.TcpConnection.Closing.{shut}
use ros_driver_modem.Driver.Coherent.{drop_pending-Coherent, drop_active-Coherent}
use ros_driver_modem.Driver.Quiet.{Quiet-update}
use ros_driver_modem.Driver.Invariant.{IsSound, UdpCoherent}
use ros_driver_modem.Driver.Losing.{
  without_pending, without_active, remove_tcp-pending, remove_tcp-active, remove_tcp-absent,
}

module _ {d : Modem} (v : IsSound d) (p i : ℕ) where
  pub without_pending-IsSound : lookup p d.tcp_pending ≡ some i → IsSound (without_pending p i d)
  without_pending-IsSound e = record {
    coherent = drop_pending-Coherent v.coherent p i e;
    udp_coherent = v.udp_coherent;
    quiet = Quiet-update _ _ i (shut (d.tcp_heap i)) d.handlers (λ _. (refl, refl)) v.quiet;
    pending_sorted = erase-IsSorted p d.tcp_pending v.pending_sorted;
    active_sorted = v.active_sorted;
    udp_sorted = v.udp_sorted;
  }

  pub without_active-IsSound : lookup p d.tcp_active ≡ some i → IsSound (without_active p i d)
  without_active-IsSound e = record {
    coherent = drop_active-Coherent v.coherent p i e;
    udp_coherent = v.udp_coherent;
    quiet = Quiet-update _ _ i (shut (d.tcp_heap i)) d.handlers (λ _. (refl, refl)) v.quiet;
    pending_sorted = v.pending_sorted;
    active_sorted = erase-IsSorted p d.tcp_active v.active_sorted;
    udp_sorted = v.udp_sorted;
  }

-- The driver without a UDP connection, whose socket is closed.
abbrev pub without_udp : ℕ → ℕ → Modem → Modem
without_udp p i d = record d {
  udp_active = erase p d.udp_active;
  udp_heap = update d.udp_heap i (record (d.udp_heap i) { socket_open = false });
}

module _ {N : Type 0} (p : ℕ) (s : System N) where
  pub remove_udp-present :
      (i : ℕ) → lookup p s.modem.udp_active ≡ some i → remove_udp p s ≡ on_modem (without_udp p i) s
  unfolding remove_udp UdpConnection.disconnect
  remove_udp-present i e = ground arith

  pub remove_udp-absent : lookup p s.modem.udp_active ≡ none → remove_udp p s ≡ s
  unfolding remove_udp
  remove_udp-absent e = ground arith

  -- A step that holds in each of the three cases of remove_tcp.
  pub remove_tcp_cases {ℓ} :
      (P : System N → Type ℓ)
      → ((i : ℕ) → lookup p s.modem.tcp_pending ≡ some i → P (on_modem (without_pending p i) s))
      → ((i : ℕ)
          → lookup p s.modem.tcp_pending ≡ none
          → lookup p s.modem.tcp_active ≡ some i
          → P (on_modem (without_active p i) s))
      → (lookup p s.modem.tcp_pending ≡ none → lookup p s.modem.tcp_active ≡ none → P s)
      → P (remove_tcp p s)
  remove_tcp_cases P f g h = elim (Option-cases (lookup p s.modem.tcp_pending)) [
    | inr (i, e) ↦ rw (remove_tcp-pending p s i e) (f i e)
    | inl e ↦ elim (Option-cases (lookup p s.modem.tcp_active)) [
      | inr (i, e') ↦ rw (remove_tcp-active p s i e e') (g i e e')
      | inl e' ↦ rw (remove_tcp-absent p s e e') (h e e')
    ]
  ]

  pub remove_udp_cases {ℓ} :
      (P : System N → Type ℓ)
      → ((i : ℕ) → lookup p s.modem.udp_active ≡ some i → P (on_modem (without_udp p i) s))
      → (lookup p s.modem.udp_active ≡ none → P s)
      → P (remove_udp p s)
  remove_udp_cases P f g = elim (Option-cases (lookup p s.modem.udp_active)) [
    | inr (i, e) ↦ rw (remove_udp-present i e) (f i e)
    | inl e ↦ rw (remove_udp-absent e) (g e)
  ]

  pub remove_tcp-IsSound : IsSound s.modem → IsSound (remove_tcp p s).modem
  remove_tcp-IsSound v =
      remove_tcp_cases (λ t. IsSound t.modem) (without_pending-IsSound v p)
        (λ i _. without_active-IsSound v p i) (λ _ _. v)

  without_udp-UdpCoherent :
      (i : ℕ)
      → IsSound s.modem
      → lookup p s.modem.udp_active ≡ some i
      → UdpCoherent
          (without_udp p i s.modem).udp_heap
          s.modem.udp_count
          (erase p s.modem.udp_active)
  unfolding update
  without_udp-UdpCoherent i v e = record {
    open_at = λ q j f. ground (
      arith,
      lookup-erase q p s.modem.udp_active,
      v.udp_coherent.open_at q j,
      v.udp_coherent.open_at p i e,
    );
  }

  pub remove_udp-IsSound : IsSound s.modem → IsSound (remove_udp p s).modem
  remove_udp-IsSound v =
      remove_udp_cases (λ t. IsSound t.modem)
        (λ i e. record {
          coherent = v.coherent;
          udp_coherent = without_udp-UdpCoherent i v e;
          quiet = v.quiet;
          pending_sorted = v.pending_sorted;
          active_sorted = v.active_sorted;
          udp_sorted = erase-IsSorted p s.modem.udp_active v.udp_sorted;
        })
        (λ _. v)

-- Removing a connection keeps the state of the driver sound, for every protocol value and every
-- port.
pub remove_connection-IsSound :
    {N : Type 0} (type : Protocol) (p : ℕ) (s : System N)
    → IsSound s.modem
    → IsSound (remove_connection type p s).1.modem
unfolding remove_connection
remove_connection-IsSound Protocol.tcp p s v = remove_tcp-IsSound p s v
remove_connection-IsSound Protocol.udp p s v = remove_udp-IsSound p s v
remove_connection-IsSound (Protocol.unknown _) p s v = v
