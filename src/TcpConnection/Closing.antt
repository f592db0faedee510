-- ===== src/TcpConnection/Closing.antt =====
-- tcp_connection::disconnect (src/tcp_connection.cpp) in closed form.
use ros_driver_modem.Prelude.{ℕ, ◌≡◌, refl, false, arith, if◌then◌else◌, update, fun_ext}
use ros_driver_modem.Types.{unassigned, disconnected, same_status}
use ros_driver_modem.Modem.{TcpConnection, System, Hooks}
use ros_driver_modem.TcpConnection.{object, write, entered, update_status, disconnect}

pub update-update {ℓ} :
    {A : Type ℓ} (h : ℕ → A) (i : ℕ) (a b : A) → update (update h i a) i b ≡ update h i b
unfolding update
update-update h i a b = fun_ext (λ j. ground arith)

pub update_self {ℓ} : {A : Type ℓ} (h : ℕ → A) (i : ℕ) (a : A) → update h i a i ≡ a
unfolding update
update_self h i a = ground arith

-- An object after disconnect: both sockets closed, and no role if it was not disconnected before.
abbrev pub shut : TcpConnection → TcpConnection
shut c = record c {
  socket_open = false;
  acceptor_open = false;
  status = disconnected;
  role = if same_status disconnected c.status then c.role else unassigned;
}

module _ {N : Type 0} where
  pub disconnect_lem : (i : ℕ) (s : System N) → disconnect i s ≡ write i (shut (object i s)) s
  unfolding disconnect update_status entered
  disconnect_lem i s = simp (update_self, update-update) (ground arith)

  -- Whatever callbacks are attached, disconnecting raises none of them.
  pub disconnect-hooks :
      (hooks : Hooks (System N)) (i : ℕ) (s : System N)
      → update_status hooks disconnected false i
          (write i (record (object i s) { acceptor_open = false; socket_open = false }) s)
        ≡ disconnect i s
  unfolding disconnect update_status entered
  disconnect-hooks hooks i s = refl
