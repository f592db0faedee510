-- ===== src/ModemInterface/Waiting.antt =====
-- src/modem_interface.cpp: wait_for_connection, which spins ROS until a connection is there or the
-- time is over. The clock, ros::ok and what arrives are parameters, by the round of the loop.
use ros_driver_modem.Prelude.{
  ℕ, zero, suc, ◌+◌, ◌≤◌, ◌<◌, ◌≡◌, Bool, true, false, Option, none, some, List, [], ◌∷◌, leb, ◌⊎◌,
  if◌then◌else◌,
}
use ros_driver_modem.Types.{Protocol, Result, ok, throws, undefined}
use ros_driver_modem.RosNode.{ActiveConnections, DataPacket}
use ros_driver_modem.ModemInterface.{
  ModemInterface, and_then, is_connected, callback_active_connections, callback_tcp_rx,
  callback_udp_rx,
}

-- What a subscriber of the interface receives.
pub data Incoming : Type 0 where
  connections_message : ActiveConnections → Incoming
  tcp_packet udp_packet : ℕ → DataPacket → Incoming

unfoldable pub handle : Incoming → ModemInterface → Result (Unit {0}) × ModemInterface
handle (connections_message message) m = callback_active_connections message m
handle (tcp_packet port packet) m = callback_tcp_rx port packet m
handle (udp_packet port packet) m = callback_udp_rx port packet m

-- ros::spinOnce calls the callbacks of what has arrived; an exception of one ends it.
unfoldable pub spin_once : List Incoming → ModemInterface → Result (Unit {0}) × ModemInterface
spin_once [] m = (ok tt, m)
spin_once (message ∷ messages) m =
    let (r, m1) = handle message m in let rest = spin_once messages m1 in and_then (r, m1) rest

-- In the round: whether ROS is ok, the time, and what spinOnce finds.
pub record Environment : Type 0 where
  pub is_ok : ℕ → Bool
  pub now : ℕ → ℕ
  pub inbox : ℕ → List Incoming

module _ (env : Environment) (deadline : ℕ) (type : Protocol) (port : ℕ) where
  open env use {is_ok, now, inbox}

  -- The loop from a round on, where `none` says that the rounds given do not suffice.
  unfoldable pub wait_loop : ℕ → ℕ → ModemInterface → Option (Result Bool × ModemInterface)
  wait_loop zero n m = none
  wait_loop (suc fuel) n m =
      let (r, m1) = spin_once (inbox n) m in
      let again = wait_loop fuel (suc n) m1 in
      let spun : Option (Result Bool × ModemInterface) = elim r [
        | ok _ ↦ again
        | throws e ↦ some (throws e, m1)
        | undefined ↦ some (undefined, m1)
      ] in
      let timed : Option (Result Bool × ModemInterface) =
        if leb deadline (now n) then some (ok false, m) else spun in
      let tested : Option (Result Bool × ModemInterface) = elim (is_connected type port m) [
        | ok connected ↦ if connected then some (ok true, m) else timed
        | throws e ↦ some (throws e, m)
        | undefined ↦ some (undefined, m)
      ] in
      if is_ok n then tested else some (ok false, m)

-- The call, with the time at which it is made.
unfoldable pub wait_for_connection :
    Environment → ℕ → Protocol → ℕ → ℕ → ℕ → ModemInterface → Option (Result Bool × ModemInterface)
wait_for_connection env fuel type port timeout start m =
    wait_loop env (start + timeout) type port fuel 0 m

-- A number of rounds of spinOnce.
unfoldable pub spin_rounds :
    Environment → ℕ → ℕ → ModemInterface → Result (Unit {0}) × ModemInterface
spin_rounds env zero n m = (ok tt, m)
spin_rounds env (suc rounds) n m =
    let (r, m1) = spin_once (env.inbox n) m in
    let rest = spin_rounds env rounds (suc n) m1 in and_then (r, m1) rest

module _ (env : Environment) (deadline : ℕ) (type : Protocol) (port : ℕ) where
  open env use {is_ok, now}

  -- The wait from a round on has gone through a number of rounds: ROS was ok in each, the deadline
  -- had not passed, and the interface, as the spins before had left it, had no connection.
  abbrev pub Waited : ℕ → ℕ → ModemInterface → Type 0
  Waited k n m =
      (i : ℕ)
      → i < k
      → (is_ok (n + i) ≡ true)
        × (now (n + i) < deadline)
        × (is_connected type port (spin_rounds env i n m).1 ≡ ok false)

  -- What then ends it, with the answer and the interface that it leaves.
  abbrev pub EndsIn : ℕ → ℕ → ModemInterface → Result Bool × ModemInterface → Type 0
  EndsIn k n m (ok true, m') =
      (spin_rounds env k n m ≡ (ok tt, m'))
      × (is_ok (n + k) ≡ true)
      × (is_connected type port m' ≡ ok true)
  EndsIn k n m (ok false, m') =
      (spin_rounds env k n m ≡ (ok tt, m'))
      × ((is_ok (n + k) ≡ false)
          ⊎ ((is_ok (n + k) ≡ true)
              × (deadline ≤ now (n + k))
              × (is_connected type port m' ≡ ok false)))
  EndsIn k n m (throws e, m') =
      (is_ok (n + k) ≡ true)
      × (now (n + k) < deadline)
      × (spin_rounds env (suc k) n m ≡ (throws e, m'))
  EndsIn k n m (undefined, m') =
      (is_connected type port m ≡ undefined) ⊎ (spin_rounds env (suc k) n m ≡ (undefined, m'))

  -- What the answer says of the wait from a round on.
  abbrev pub IsJustified : ℕ → ModemInterface → Result Bool × ModemInterface → Type 0
  IsJustified n m x = (k : ℕ) × Waited k n m × EndsIn k n m x
