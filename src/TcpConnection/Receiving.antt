-- ===== src/TcpConnection/Receiving.antt =====
-- tcp_connection::rx_callback (src/tcp_connection.cpp) on a receive without an error.
use ros_driver_modem.Prelude.{ℕ, ◌≡◌, true, false, Bool, ◌%◌, ◌^◌, take, inl, inr, Bool-cases}
use ros_driver_modem.Types.{Protocol, Result, ok, throws, no_error, system_error}
use ros_driver_modem.Modem.{System, Hooks}
use ros_driver_modem.TcpConnection.{object, async_rx, deliver, receive_result}

module _ {N : Type 0} (hooks : Hooks (System N)) (i n : ℕ) (has_peer : Bool) (s : System N) where
  -- The system after the attached callback.
  abbrev pub raised : System N
  raised =
      hooks.on_rx Protocol.tcp (object i s).bound_port (take n (object i s).buffer) (n % 2 ^ 32)
        (object i s).remote_endpoint.address s

  -- The callback is raised, or there is none, or the peer is gone.
  pub receive_cases {ℓ} :
      (P : Result (Unit {0}) × System N → Type ℓ)
      → ((object i s).has_rx ≡ true → has_peer ≡ true → P (ok tt, async_rx i raised))
      → ((object i s).has_rx ≡ false → P (ok tt, async_rx i s))
      → ((object i s).has_rx ≡ true → has_peer ≡ false → P (throws system_error, s))
      → P (receive_result hooks i no_error n has_peer s)
  unfolding receive_result deliver
  receive_cases P f g h = elim (Bool-cases (object i s).has_rx) [
    | inr detached ↦ rw detached (g detached)
    | inl attached ↦ elim (Bool-cases has_peer) [
      | inl there ↦ rw (attached, there) (f attached there)
      | inr gone ↦ rw (attached, gone) (h attached gone)
    ]
  ]
