-- ===== src/Driver/Repeating.antt =====
-- driver::add_tcp_connection (src/driver.cpp) at a port that has a connection.
use ros_driver_modem.Prelude.{ℕ, ◌≡◌, false, some, arith, inl, inr, ◌⊎◌}
use ros_driver_modem.StdMap.{lookup, contains}
use ros_driver_modem.Types.{TcpRole, unassigned, same_role, ok, Setup}
use ros_driver_modem.Modem.{System, Client}
use ros_driver_modem.Driver.Adding.{existing_role, add_tcp_connection}
use ros_driver_modem.Driver.Coherent.{not_pending}
use ros_driver_modem.Driver.Invariant.{IsSound}

module _ {N : Type 0} (external : Client N) (role : TcpRole) (port i : ℕ) (setup : Setup)
    (s : System N) where
  -- Adding a TCP connection, in any role but unassigned, at a port whose connection object is
  -- pending or active changes nothing, and answers true exactly if that object has the same role.
  pub add_again :
      IsSound s.modem
      → same_role role unassigned ≡ false
      → (lookup port s.modem.tcp_pending ≡ some i) ⊎ (lookup port s.modem.tcp_active ≡ some i)
      → add_tcp_connection external role port setup s
        ≡ (ok (same_role (s.modem.tcp_heap i).role role), s)
  unfolding add_tcp_connection existing_role contains
  add_again v e (inl f) = let free = v.coherent.apart port i f in ground arith
  add_again v e (inr f) = let free = not_pending v.coherent port i f in ground arith
