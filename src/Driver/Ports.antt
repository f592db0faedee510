-- ===== src/Driver/Ports.antt =====
-- The keys of the maps of the driver (src/driver.h), which are of type uint16_t.
use ros_driver_modem.Prelude.{ℕ, ◌^◌, ◌<◌, ◌≡◌, none, some, arith}
use ros_driver_modem.StdMap.{Map, lookup, insert, erase}
use ros_driver_modem.StdMap.Laws.{lookup-insert_new, lookup-erase}
use ros_driver_modem.Modem.{Modem}
use ros_driver_modem.Driver.Keeping.{
  Anywhere, KeptByRequests, KeptByWrites, KeptByRemoval, KeptByUdpRemoval, KeptByConnection,
  KeptByAddition, KeptByUdpAddition,
}

-- Every key fits into 16 bits.
pub record InRange (m : Map ℕ) : Type 0 where
  pub at_key : (p i : ℕ) → lookup p m ≡ some i → p < 2 ^ 16

pub record HasPorts (d : Modem) : Type 0 where
  pub pending_ports : InRange d.tcp_pending
  pub active_ports : InRange d.tcp_active
  pub udp_ports : InRange d.udp_active

erase-InRange : (p : ℕ) (m : Map ℕ) → InRange m → InRange (erase p m)
erase-InRange p m w = record { at_key = λ q i e. ground (arith, lookup-erase q p m, w.at_key q i) }

insert-InRange :
    (p i : ℕ) (m : Map ℕ) → p < 2 ^ 16 → lookup p m ≡ none → InRange m → InRange (insert p i m)
insert-InRange p i m h f w = record {
  at_key = λ q j e. ground (arith, lookup-insert_new q p i m f, w.at_key q j);
}

pub HasPorts-writes : KeptByWrites HasPorts
HasPorts-writes = record {
  tcp_write = λ d i o _ _ w. record {
    pending_ports = w.pending_ports;
    active_ports = w.active_ports;
    udp_ports = w.udp_ports;
  };
  udp_write = λ d i o _ w. record {
    pending_ports = w.pending_ports;
    active_ports = w.active_ports;
    udp_ports = w.udp_ports;
  };
  queue = λ d ks w. record {
    pending_ports = w.pending_ports;
    active_ports = w.active_ports;
    udp_ports = w.udp_ports;
  };
}

pub HasPorts-requests : KeptByRequests HasPorts
HasPorts-requests = record {
  sends = λ d ps w. record {
    pending_ports = w.pending_ports;
    active_ports = w.active_ports;
    udp_ports = w.udp_ports;
  };
  readdress = λ d ip w. record {
    pending_ports = w.pending_ports;
    active_ports = w.active_ports;
    udp_ports = w.udp_ports;
  };
}

pub HasPorts-removal : KeptByRemoval Anywhere HasPorts
HasPorts-removal = record {
  drop_pending = λ d p i _ _ _ w. record {
    pending_ports = erase-InRange p d.tcp_pending w.pending_ports;
    active_ports = w.active_ports;
    udp_ports = w.udp_ports;
  };
  drop_active = λ d p i _ _ _ w. record {
    pending_ports = w.pending_ports;
    active_ports = erase-InRange p d.tcp_active w.active_ports;
    udp_ports = w.udp_ports;
  };
}

pub HasPorts-udp_removal : KeptByUdpRemoval Anywhere HasPorts
HasPorts-udp_removal = record {
  drop_udp = λ d p i _ _ _ w. record {
    pending_ports = w.pending_ports;
    active_ports = w.active_ports;
    udp_ports = erase-InRange p d.udp_active w.udp_ports;
  };
}

pub HasPorts-connection : KeptByConnection HasPorts
HasPorts-connection = record {
  connects = λ d p i v e w. record {
    pending_ports = erase-InRange p d.tcp_pending w.pending_ports;
    active_ports =
        insert-InRange p i d.tcp_active (w.pending_ports.at_key p i e) (v.coherent.apart p i e)
          w.active_ports;
    udp_ports = w.udp_ports;
  };
}

module _ (p : ℕ) (small : p < 2 ^ 16) where
  pub HasPorts-addition : KeptByAddition p HasPorts
  HasPorts-addition = record {
    leaves = λ d o _ _ w. record {
      pending_ports = w.pending_ports;
      active_ports = w.active_ports;
      udp_ports = w.udp_ports;
    };
    adds = λ d o k _ _ _ e f w. record {
      pending_ports = insert-InRange p d.tcp_count d.tcp_pending small e w.pending_ports;
      active_ports = w.active_ports;
      udp_ports = w.udp_ports;
    };
  }

  pub HasPorts-udp_addition : KeptByUdpAddition p HasPorts
  HasPorts-udp_addition = record {
    adds_udp = λ d o _ e w. record {
      pending_ports = w.pending_ports;
      active_ports = w.active_ports;
      udp_ports = insert-InRange p d.udp_count d.udp_active small e w.udp_ports;
    };
  }
