-- ===== src/Driver/Invariant.antt =====
-- The invariant of the state of the driver (src/driver.h).
use ros_driver_modem.Prelude.{ℕ, ◌<◌, ◌≡◌, true, some}
use ros_driver_modem.StdMap.{Map, lookup}
use ros_driver_modem.StdMap.Order.{IsSorted}
use ros_driver_modem.Modem.{UdpConnection, Modem}
use ros_driver_modem.Driver.Coherent.{Coherent}
use ros_driver_modem.Driver.Quiet.{Quiet}

-- Each entry of the UDP map is an open object that listens at that port.
pub record UdpCoherent (h : ℕ → UdpConnection) (n : ℕ) (us : Map ℕ) : Type 0 where
  pub open_at :
      (p i : ℕ)
      → lookup p us ≡ some i
      → ((h i).socket_open ≡ true) × ((h i).bound_port ≡ p) × ((h i).has_rx ≡ true) × (i < n)

-- The TCP maps and objects agree, so do the UDP map and objects, queued handlers of disconnected
-- objects find closed sockets, and the maps are in the order of their ports.
pub record IsSound (d : Modem) : Type 0 where
  pub coherent : Coherent d.tcp_heap d.tcp_count d.tcp_pending d.tcp_active
  pub udp_coherent : UdpCoherent d.udp_heap d.udp_count d.udp_active
  pub quiet : Quiet d.tcp_heap d.tcp_count d.handlers
  pub pending_sorted : IsSorted d.tcp_pending
  pub active_sorted : IsSorted d.tcp_active
  pub udp_sorted : IsSorted d.udp_active
