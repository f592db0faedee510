-- ===== src/Driver/Attending.antt =====
-- The handlers that a driver can do without, and those it needs again: what a turn of the io_service
-- (src/driver.cpp, start) may do to them.
use ros_driver_modem.Prelude.{
  ℕ, zero, suc, ◌≡◌, ◌≢◌, false, some, List, [], ◌∷◌, ◌++◌, arith, inl, inr, update, Option-cases,
}
use ros_driver_modem.StdMap.{lookup}
use ros_driver_modem.StdMap.Laws.{lookup-insert_new, lookup-erase}
use ros_driver_modem.Types.{connected, pending}
use ros_driver_modem.Modem.{Handler, accept, connect, receive, receive_from, Modem, post}
use ros_driver_modem.EventLoop.{pick}
use ros_driver_modem.Driver.Invariant.{IsSound}
use ros_driver_modem.Driver.Connecting.{with_active}
use ros_driver_modem.Driver.Attended.{
  has_handler, has_handler-append, has_handler-join, has_handler-added, AttendedBy, Attended,
  AttendedBy-writes,
}

-- Nothing waits for the handler any more.
abbrev pub Spare : Handler → Modem → Type 0
Spare (accept i) d = (p : ℕ) → lookup p d.tcp_pending ≢ some i
Spare (connect i) d = (p : ℕ) → lookup p d.tcp_pending ≡ some i → (d.tcp_heap i).socket_open ≡ false
Spare (receive i) d = (p : ℕ) → lookup p d.tcp_active ≢ some i
Spare (receive_from i) d = (p : ℕ) → lookup p d.udp_active ≢ some i

module _ (hs : List Handler) (d : Modem) where
  -- A handler that is spare can go.
  pub unattend : (h : Handler) → Spare h d → AttendedBy (h ∷ hs) d → AttendedBy hs d
  unfolding has_handler
  unattend (accept i) free w = record {
    pending_waits = λ q j f. ground (arith, w.pending_waits q j f, free q);
    active_waits = w.active_waits;
    udp_waits = w.udp_waits;
  }
  unattend (connect i) free w = record {
    pending_waits = λ q j f. ground (arith, w.pending_waits q j f, free q);
    active_waits = w.active_waits;
    udp_waits = w.udp_waits;
  }
  unattend (receive i) free w = record {
    pending_waits = w.pending_waits;
    active_waits = λ q j f. ground (arith, w.active_waits q j f, free q);
    udp_waits = w.udp_waits;
  }
  unattend (receive_from i) free w = record {
    pending_waits = w.pending_waits;
    active_waits = w.active_waits;
    udp_waits = λ q j f. ground (arith, w.udp_waits q j f, free q);
  }

  -- The order of the queue does not matter.
  pub reordered :
      (ks : List Handler)
      → ((g : Handler) → has_handler g hs ≡ has_handler g ks)
      → AttendedBy hs d
      → AttendedBy ks d
  reordered ks same w = record {
    pending_waits =
        λ q j f. ground (arith, w.pending_waits q j f, same (accept j), same (connect j));
    active_waits = λ q j f. ground (arith, w.active_waits q j f, same (receive j));
    udp_waits = λ q j f. ground (arith, w.udp_waits q j f, same (receive_from j));
  }

  pub attend_more : (k : Handler) → AttendedBy hs d → AttendedBy (hs ++ k ∷ []) d
  attend_more k w = record {
    pending_waits = λ q j f. ground (
      arith,
      w.pending_waits q j f,
      has_handler-append (accept j) k hs,
      has_handler-append (connect j) k hs,
    );
    active_waits =
        λ q j f. ground (arith, w.active_waits q j f, has_handler-append (receive j) k hs);
    udp_waits =
        λ q j f. ground (arith, w.udp_waits q j f, has_handler-append (receive_from j) k hs);
  }

  -- A connection that becomes active needs a receive.
  pub with_active-AttendedBy :
      (p i : ℕ)
      → IsSound d
      → lookup p d.tcp_pending ≡ some i
      → AttendedBy hs d
      → AttendedBy (hs ++ receive i ∷ []) (with_active p i d)
  unfolding update
  with_active-AttendedBy p i v e w = record {
    pending_waits = λ q j f. ground (
      arith,
      lookup-erase q p d.tcp_pending,
      w.pending_waits q j,
      v.coherent.pending_at q j,
      v.coherent.pending_at p i e,
      has_handler-append (accept j) (receive i) hs,
      has_handler-append (connect j) (receive i) hs,
    );
    active_waits = λ q j f. ground (
      arith,
      lookup-insert_new q p i d.tcp_active (v.coherent.apart p i e),
      w.active_waits q j,
      has_handler-append (receive j) (receive i) hs,
    );
    udp_waits = λ q j f.
        ground (arith, w.udp_waits q j f, has_handler-append (receive_from j) (receive i) hs);
  }

-- A handler is posted, and one that was run is posted again.
module _ (ks : List Handler) (k : Handler) (d : Modem) where
  pub posted : AttendedBy ((ks ++ d.handlers) ++ k ∷ []) d → Attended ks (post k d)
  posted w =
      let hs = ks ++ (d.handlers ++ k ∷ []) in
      (AttendedBy-writes hs).queue d (d.handlers ++ k ∷ []) (
        reordered ((ks ++ d.handlers) ++ k ∷ []) d hs
          (λ g.
            ground (
              arith,
              has_handler-append g k (ks ++ d.handlers),
              has_handler-added g ks k d.handlers,
            ))
          w)

  pub reposted : AttendedBy (k ∷ (ks ++ d.handlers)) d → Attended ks (post k d)
  unfolding has_handler
  reposted w = posted (
      reordered (k ∷ (ks ++ d.handlers)) d ((ks ++ d.handlers) ++ k ∷ [])
        (λ g. ground (arith, has_handler-append g k (ks ++ d.handlers))) w)

-- Taking a handler out of the queue and putting it in front.
has_handler-pick :
    (g : Handler) (n : ℕ) (ks : List Handler) (h : Handler) (rest : List Handler)
    → pick n ks ≡ some (h, rest)
    → has_handler g ks ≡ has_handler g (h ∷ rest)
unfolding pick has_handler
has_handler-pick g n [] h rest e = cc
has_handler-pick g zero (k ∷ ks) h rest e = ground arith
has_handler-pick g (suc n) (k ∷ ks) h rest e = elim (Option-cases (pick n ks)) [
  | inl none_left ↦ ground arith
  | inr ((h', rest'), f) ↦ ground (arith, has_handler-pick g n ks h' rest' f)
]

pub has_handler-pick_behind :
    (g : Handler) (ms : List Handler) (n : ℕ) (ks : List Handler) (h : Handler)
    (rest : List Handler)
    → pick n ks ≡ some (h, rest)
    → has_handler g (ms ++ ks) ≡ has_handler g (h ∷ (ms ++ rest))
unfolding has_handler
has_handler-pick_behind g ms n ks h rest e =
    ground (
      arith,
      has_handler-join g ms ks,
      has_handler-join g ms rest,
      has_handler-pick g n ks h rest e,
    )

-- An object whose status is another does not need the handler.
module _ (d : Modem) (v : IsSound d) (i : ℕ) where
  pub free_of_accept : (d.tcp_heap i).status ≢ pending → Spare (accept i) d
  free_of_accept ne p e = ne (v.coherent.pending_at p i e).0.in_status

  pub free_of_connect : (d.tcp_heap i).status ≢ pending → Spare (connect i) d
  free_of_connect ne p e = absurd (ne (v.coherent.pending_at p i e).0.in_status)

  pub free_of_receive : (d.tcp_heap i).status ≢ connected → Spare (receive i) d
  free_of_receive ne p e = ne (v.coherent.active_at p i e).0.in_status
