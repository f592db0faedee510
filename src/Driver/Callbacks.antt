-- ===== src/Driver/Callbacks.antt =====
-- src/driver.cpp, the callbacks: what the driver binds to the std::function members of its
-- connections, and the external callbacks that it passes them on to.
use ros_driver_modem.Prelude.{ℕ, if◌then◌else◌}
use ros_driver_modem.StdMap.{contains, insert, erase}
use ros_driver_modem.Types.{Protocol}
use ros_driver_modem.Modem.{Modem, System, Hooks, Client}
use ros_driver_modem.Driver.{entry, remove_connection}

-- The move from the pending to the active map.
unfoldable pub activate : ℕ → Modem → Modem
unfolding contains
activate port d =
    if contains port d.tcp_pending
    then record d {
      tcp_active = insert port (entry port d.tcp_pending) d.tcp_active;
      tcp_pending = erase port d.tcp_pending;
    }
    else d

module _ {N : Type 0} (external : Client N) where
  open external use {connected_callback, disconnected_callback, rx_callback}

  unfoldable pub callback_tcp_connected : ℕ → System N → System N
  callback_tcp_connected port s =
      let d = activate port s.modem in record { modem = d; app = connected_callback port d s.app }

  unfoldable pub callback_tcp_disconnected : ℕ → System N → System N
  callback_tcp_disconnected port s =
      let s' = (remove_connection Protocol.tcp port s).1 in
      record s' { app = disconnected_callback port s'.modem s'.app }

  -- The three callbacks that a connection is given; the rx callback is the external one.
  abbrev pub hooks : Hooks (System N)
  hooks = record {
    on_connected = callback_tcp_connected;
    on_disconnected = callback_tcp_disconnected;
    on_rx = λ type port bytes count source s. record s {
      app = rx_callback type port bytes count source s.modem s.app;
    };
  }
