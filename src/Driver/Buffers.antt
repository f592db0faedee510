-- ===== src/Driver/Buffers.antt =====
-- The receive buffers of the connections (m_buffer and m_buffer_size of src/tcp_connection.h and
-- src/udp_connection.h).
use ros_driver_modem.Prelude.{ℕ, List, arith, update}
use ros_driver_modem.Modem.{TcpConnection, UdpConnection, Modem}
use ros_driver_modem.Driver.Coherent.{IsSized, Refills}
use ros_driver_modem.Driver.Keeping.{
  Anywhere, KeptByRequests, KeptByWrites, KeptByRemoval, KeptByUdpRemoval, KeptByConnection,
  KeptByAddition, KeptByUdpAddition,
}

-- Every object has a buffer of the size that it says.
pub record HasBuffers (d : Modem) : Type 0 where
  pub tcp_sized : (i : ℕ) → IsSized (d.tcp_heap i).buffer_size (d.tcp_heap i).buffer
  pub udp_sized : (i : ℕ) → IsSized (d.udp_heap i).buffer_size (d.udp_heap i).buffer

tcp_update :
    (h : ℕ → TcpConnection) (i : ℕ) (o : TcpConnection)
    → ((j : ℕ) → IsSized (h j).buffer_size (h j).buffer)
    → IsSized o.buffer_size o.buffer
    → (j : ℕ) → IsSized (update h i o j).buffer_size (update h i o j).buffer
unfolding update
tcp_update h i o w z j = ground (arith, w j)

udp_update :
    (h : ℕ → UdpConnection) (i : ℕ) (o : UdpConnection)
    → ((j : ℕ) → IsSized (h j).buffer_size (h j).buffer)
    → IsSized o.buffer_size o.buffer
    → (j : ℕ) → IsSized (update h i o j).buffer_size (update h i o j).buffer
unfolding update
udp_update h i o w z j = ground (arith, w j)

refilled :
    (size : ℕ) (buffer : List ℕ) (size' : ℕ) (buffer' : List ℕ)
    → Refills size buffer size' buffer'
    → IsSized size buffer
    → IsSized size' buffer'
refilled size buffer size' buffer' (e, f) z = rw e (f z)

pub HasBuffers-writes : KeptByWrites HasBuffers
HasBuffers-writes = record {
  tcp_write = λ d i o _ r w. record {
    tcp_sized = tcp_update d.tcp_heap i o w.tcp_sized (refilled _ _ _ _ r (w.tcp_sized i));
    udp_sized = w.udp_sized;
  };
  udp_write = λ d i o r w. record {
    tcp_sized = w.tcp_sized;
    udp_sized = udp_update d.udp_heap i o w.udp_sized (refilled _ _ _ _ r (w.udp_sized i));
  };
  queue = λ d ks w. record { tcp_sized = w.tcp_sized; udp_sized = w.udp_sized };
}

pub HasBuffers-requests : KeptByRequests HasBuffers
HasBuffers-requests = record {
  sends = λ d ps w. record { tcp_sized = w.tcp_sized; udp_sized = w.udp_sized };
  readdress = λ d ip w. record { tcp_sized = w.tcp_sized; udp_sized = w.udp_sized };
}

pub HasBuffers-removal : KeptByRemoval Anywhere HasBuffers
HasBuffers-removal = record {
  drop_pending = λ d p i _ _ _ w. record {
    tcp_sized = tcp_update d.tcp_heap i _ w.tcp_sized (w.tcp_sized i);
    udp_sized = w.udp_sized;
  };
  drop_active = λ d p i _ _ _ w. record {
    tcp_sized = tcp_update d.tcp_heap i _ w.tcp_sized (w.tcp_sized i);
    udp_sized = w.udp_sized;
  };
}

pub HasBuffers-udp_removal : KeptByUdpRemoval Anywhere HasBuffers
HasBuffers-udp_removal = record {
  drop_udp = λ d p i _ _ _ w. record {
    tcp_sized = w.tcp_sized;
    udp_sized = udp_update d.udp_heap i _ w.udp_sized (w.udp_sized i);
  };
}

pub HasBuffers-connection : KeptByConnection HasBuffers
HasBuffers-connection = record {
  connects = λ d p i _ _ w. record {
    tcp_sized = tcp_update d.tcp_heap i _ w.tcp_sized (w.tcp_sized i);
    udp_sized = w.udp_sized;
  };
}

module _ (p : ℕ) where
  pub HasBuffers-addition : KeptByAddition p HasBuffers
  HasBuffers-addition = record {
    leaves = λ d o _ z w. record {
      tcp_sized = tcp_update d.tcp_heap d.tcp_count o w.tcp_sized z;
      udp_sized = w.udp_sized;
    };
    adds = λ d o k _ z _ _ _ w. record {
      tcp_sized = tcp_update d.tcp_heap d.tcp_count o w.tcp_sized z;
      udp_sized = w.udp_sized;
    };
  }

  pub HasBuffers-udp_addition : KeptByUdpAddition p HasBuffers
  HasBuffers-udp_addition = record {
    adds_udp = λ d o z _ w. record {
      tcp_sized = w.tcp_sized;
      udp_sized = udp_update d.udp_heap d.udp_count o w.udp_sized z;
    };
  }
