-- ===== src/Driver/Keeping.antt =====
-- The elementary changes that the operations of the driver (src/driver.cpp) are made of, as an
-- interface: a property of the state that survives them survives the operations.
use ros_driver_modem.Prelude.{ℕ, ◌≡◌, none, some, List, update}
use ros_driver_modem.StdMap.{lookup}
use ros_driver_modem.Types.{Address}
use ros_driver_modem.Modem.{TcpConnection, UdpConnection, Handler, Sent, Modem}
use ros_driver_modem.Driver.Coherent.{IsSized, Refills, Resembles}
use ros_driver_modem.Driver.Invariant.{IsSound}
use ros_driver_modem.Driver.Losing.{without_pending, without_active}
use ros_driver_modem.Driver.Removing.{without_udp}
use ros_driver_modem.Driver.Connecting.{with_active}
use ros_driver_modem.Driver.Starting.{with_object, with_pending}
use ros_driver_modem.Driver.Admitting.{Starts}
use ros_driver_modem.Driver.AdmittingUdp.{with_udp}

-- Any port.
abbrev pub Anywhere : ℕ → Type 0
Anywhere p = Unit {0}

-- Another remote address, and a packet in the log.
pub record KeptByRequests (P : Modem → Type 0) : Type 0 where
  pub sends : (d : Modem) (ps : List Sent) → P d → P (record d { sent = ps })
  pub readdress : (d : Modem) (ip : Address) → P d → P (record d { remote_ip = ip })

-- Writes to an object that leave what the maps say of it, and to the queue.
pub record KeptByWrites (P : Modem → Type 0) : Type 0 where
  pub tcp_write :
      (d : Modem) (i : ℕ) (o : TcpConnection)
      → Resembles (d.tcp_heap i) o
      → Refills (d.tcp_heap i).buffer_size (d.tcp_heap i).buffer o.buffer_size o.buffer
      → P d
      → P (record d { tcp_heap = update d.tcp_heap i o })
  pub udp_write :
      (d : Modem) (i : ℕ) (o : UdpConnection)
      → Refills (d.udp_heap i).buffer_size (d.udp_heap i).buffer o.buffer_size o.buffer
      → P d
      → P (record d { udp_heap = update d.udp_heap i o })
  pub queue : (d : Modem) (ks : List Handler) → P d → P (record d { handlers = ks })

-- A TCP connection at one of the given ports leaves its map.
pub record KeptByRemoval (Q : ℕ → Type 0) (P : Modem → Type 0) : Type 0 where
  pub drop_pending :
      (d : Modem) (p i : ℕ)
      → Q p
      → IsSound d
      → lookup p d.tcp_pending ≡ some i
      → P d
      → P (without_pending p i d)
  pub drop_active :
      (d : Modem) (p i : ℕ)
      → Q p
      → IsSound d
      → lookup p d.tcp_active ≡ some i
      → P d
      → P (without_active p i d)

-- And a UDP connection.
pub record KeptByUdpRemoval (Q : ℕ → Type 0) (P : Modem → Type 0) : Type 0 where
  pub drop_udp :
      (d : Modem) (p i : ℕ)
      → Q p
      → IsSound d
      → lookup p d.udp_active ≡ some i
      → P d
      → P (without_udp p i d)

-- A pending connection becomes active.
pub record KeptByConnection (P : Modem → Type 0) : Type 0 where
  pub connects :
      (d : Modem) (p i : ℕ)
      → IsSound d
      → lookup p d.tcp_pending ≡ some i
      → P d
      → P (with_active p i d)

-- A TCP connection is added at a port, or an object that did not start is left behind.
pub record KeptByAddition (p : ℕ) (P : Modem → Type 0) : Type 0 where
  pub leaves :
      (d : Modem) (o : TcpConnection)
      → IsSound d
      → IsSized o.buffer_size o.buffer
      → P d
      → P (with_object o d)
  pub adds :
      (d : Modem) (o : TcpConnection) (k : Handler)
      → IsSound d
      → IsSized o.buffer_size o.buffer
      → Starts d.tcp_count o k
      → lookup p d.tcp_pending ≡ none
      → lookup p d.tcp_active ≡ none
      → P d
      → P (with_pending p o k d)

-- A UDP connection is added at a port.
pub record KeptByUdpAddition (p : ℕ) (P : Modem → Type 0) : Type 0 where
  pub adds_udp :
      (d : Modem) (o : UdpConnection)
      → IsSized o.buffer_size o.buffer
      → lookup p d.udp_active ≡ none
      → P d
      → P (with_udp p o d)
