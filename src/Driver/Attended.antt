-- ===== src/Driver/Attended.antt =====
-- The handlers that the connections of src/tcp_connection.cpp and src/udp_connection.cpp wait for:
-- a connection whose handler is not on the io_service hears nothing any more.
use ros_driver_modem.Prelude.{
  ℕ, ◌≡◌, Bool, true, false, ◌&&◌, ◌||◌, some, List, [], ◌∷◌, ◌++◌, arith, inl, inr, update, ◌==◌,
}
use ros_driver_modem.StdMap.{lookup}
use ros_driver_modem.StdMap.Laws.{lookup-insert_new, lookup-erase}
use ros_driver_modem.Modem.{TcpConnection, Handler, accept, connect, receive, receive_from, Modem}
use ros_driver_modem.Driver.Keeping.{
  Anywhere, KeptByRequests, KeptByWrites, KeptByRemoval, KeptByUdpRemoval, KeptByAddition,
  KeptByUdpAddition,
}
use ros_driver_modem.Driver.Admitting.{Starts}

abbrev pub same_handler : Handler → Handler → Bool
same_handler (accept i) (accept j) = i == j
same_handler (connect i) (connect j) = i == j
same_handler (receive i) (receive j) = i == j
same_handler (receive_from i) (receive_from j) = i == j
same_handler _ _ = false

unfoldable pub has_handler : Handler → List Handler → Bool
has_handler g [] = false
has_handler g (k ∷ ks) = same_handler g k || has_handler g ks

pub has_handler-append :
    (g k : Handler) (ks : List Handler)
    → has_handler g (ks ++ k ∷ []) ≡ (has_handler g ks || same_handler g k)
unfolding has_handler
has_handler-append g k [] = ground arith
has_handler-append g k (j ∷ ks) = ground (arith, has_handler-append g k ks)

pub has_handler-join :
    (g : Handler) (ks hs : List Handler)
    → has_handler g (ks ++ hs) ≡ (has_handler g ks || has_handler g hs)
unfolding has_handler
has_handler-join g [] hs = ground arith
has_handler-join g (j ∷ ks) hs = ground (arith, has_handler-join g ks hs)

-- A queue that a handler is added to, behind others.
pub has_handler-added :
    (g : Handler) (ks : List Handler) (k : Handler) (hs : List Handler)
    → has_handler g (ks ++ (hs ++ k ∷ [])) ≡ (has_handler g (ks ++ hs) || same_handler g k)
has_handler-added g ks k hs = ground (
  arith,
  has_handler-join g ks (hs ++ k ∷ []),
  has_handler-join g ks hs,
  has_handler-append g k hs,
)

-- A pending server waits for its accept, a pending client with an open socket for its connect, an
-- active connection and a UDP connection for data.
pub record AttendedBy (hs : List Handler) (d : Modem) : Type 0 where
  pub pending_waits :
      (p i : ℕ)
      → lookup p d.tcp_pending ≡ some i
      → (has_handler (accept i) hs || (has_handler (connect i) hs && (d.tcp_heap i).socket_open))
        ≡ true
  pub active_waits : (p i : ℕ) → lookup p d.tcp_active ≡ some i → has_handler (receive i) hs ≡ true
  pub udp_waits :
      (p i : ℕ) → lookup p d.udp_active ≡ some i → has_handler (receive_from i) hs ≡ true

-- Where the handlers of a list count as if they were on the io_service.
abbrev pub Attended : List Handler → Modem → Type 0
Attended ks d = AttendedBy (ks ++ d.handlers) d

-- The handlers are those of the state or others: removal touches neither.
module _ (hs : List Handler) where
  pub AttendedBy-removal : KeptByRemoval Anywhere (AttendedBy hs)
  unfolding update
  AttendedBy-removal = record {
    drop_pending = λ d p i _ v e w. record {
      pending_waits = λ q j f. ground (
        arith,
        lookup-erase q p d.tcp_pending,
        w.pending_waits q j,
        v.coherent.pending_at q j,
        v.coherent.pending_at p i e,
      );
      active_waits = w.active_waits;
      udp_waits = w.udp_waits;
    };
    drop_active = λ d p i _ v e w. record {
      pending_waits = λ q j f.
          ground
            (arith, w.pending_waits q j f, v.coherent.pending_at q j f, v.coherent.active_at p i e);
      active_waits = λ q j f. ground (arith, lookup-erase q p d.tcp_active, w.active_waits q j);
      udp_waits = w.udp_waits;
    };
  }

  pub AttendedBy-udp_removal : KeptByUdpRemoval Anywhere (AttendedBy hs)
  AttendedBy-udp_removal = record {
    drop_udp = λ d p i _ _ _ w. record {
      pending_waits = w.pending_waits;
      active_waits = w.active_waits;
      udp_waits = λ q j f. ground (arith, lookup-erase q p d.udp_active, w.udp_waits q j);
    };
  }

  pub AttendedBy-writes : KeptByWrites (AttendedBy hs)
  unfolding update
  AttendedBy-writes = record {
    tcp_write = λ d i o r _ w. record {
      pending_waits = λ q j f. ground (arith, w.pending_waits q j f, r.stays_open);
      active_waits = w.active_waits;
      udp_waits = w.udp_waits;
    };
    udp_write = λ d i o _ w. record {
      pending_waits = w.pending_waits;
      active_waits = w.active_waits;
      udp_waits = w.udp_waits;
    };
    queue = λ d ks w. record {
      pending_waits = w.pending_waits;
      active_waits = w.active_waits;
      udp_waits = w.udp_waits;
    };
  }

begins_waiting :
    (i : ℕ) (o : TcpConnection) (k : Handler)
    → Starts i o k
    → (same_handler (accept i) k || (same_handler (connect i) k && o.socket_open)) ≡ true
begins_waiting i o k (inl e) = rw e (ground arith)
begins_waiting i o k (inr (e, f)) = rw (e, f) (ground arith)

module _ (ks : List Handler) where
  pub Attended-requests : KeptByRequests (Attended ks)
  Attended-requests = record {
    sends = λ d ps w. record {
      pending_waits = w.pending_waits;
      active_waits = w.active_waits;
      udp_waits = w.udp_waits;
    };
    readdress = λ d ip w. record {
      pending_waits = w.pending_waits;
      active_waits = w.active_waits;
      udp_waits = w.udp_waits;
    };
  }

  pub Attended-removal : KeptByRemoval Anywhere (Attended ks)
  Attended-removal = record {
    drop_pending = λ d. (AttendedBy-removal (ks ++ d.handlers)).drop_pending d;
    drop_active = λ d. (AttendedBy-removal (ks ++ d.handlers)).drop_active d;
  }

  pub Attended-udp_removal : KeptByUdpRemoval Anywhere (Attended ks)
  Attended-udp_removal = record {
    drop_udp = λ d. (AttendedBy-udp_removal (ks ++ d.handlers)).drop_udp d;
  }

module _ (ks : List Handler) (p : ℕ) where
  pub Attended-addition : KeptByAddition p (Attended ks)
  unfolding update
  Attended-addition = record {
    leaves = λ d o v _ w. record {
      pending_waits = λ q j f. ground (arith, w.pending_waits q j f, v.coherent.pending_at q j f);
      active_waits = w.active_waits;
      udp_waits = w.udp_waits;
    };
    adds = λ d o k v _ starts e f w. record {
      pending_waits = λ q j g. ground (
        arith,
        lookup-insert_new q p d.tcp_count d.tcp_pending e,
        w.pending_waits q j,
        v.coherent.pending_at q j,
        has_handler-added (accept j) ks k d.handlers,
        has_handler-added (connect j) ks k d.handlers,
        begins_waiting d.tcp_count o k starts,
      );
      active_waits = λ q j g.
          ground (arith, w.active_waits q j g, has_handler-added (receive j) ks k d.handlers);
      udp_waits = λ q j g.
          ground (arith, w.udp_waits q j g, has_handler-added (receive_from j) ks k d.handlers);
    };
  }

  pub Attended-udp_addition : KeptByUdpAddition p (Attended ks)
  Attended-udp_addition = record {
    adds_udp = λ d o _ e w. record {
      pending_waits = λ q j g. ground (
        arith,
        w.pending_waits q j g,
        has_handler-added (accept j) ks (receive_from d.udp_count) d.handlers,
        has_handler-added (connect j) ks (receive_from d.udp_count) d.handlers,
      );
      active_waits = λ q j g. ground (
        arith,
        w.active_waits q j g,
        has_handler-added (receive j) ks (receive_from d.udp_count) d.handlers,
      );
      udp_waits = λ q j g. ground (
        arith,
        lookup-insert_new q p d.udp_count d.udp_active e,
        w.udp_waits q j,
        has_handler-added (receive_from j) ks (receive_from d.udp_count) d.handlers,
      );
    };
  }
