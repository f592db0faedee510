-- ===== src/RosNode/Relaying.antt =====
-- The transmissions of the node (src/ros_node.cpp), against its consistency.
use ros_driver_modem.Prelude.{ℕ, refl, List, inl, inr, Bool-cases, Option-cases}
use ros_driver_modem.StdMap.{lookup}
use ros_driver_modem.Types.{Protocol, Address, SendOutcome}
use ros_driver_modem.Modem.{System}
use ros_driver_modem.Topics.{Text}
use ros_driver_modem.TcpConnection.{is_broken_pipe}
use ros_driver_modem.UdpConnection.{is_no_error}
use ros_driver_modem.Driver.Adding
use ros_driver_modem.Driver.Invariant.{IsSound}
use ros_driver_modem.Driver.Connecting.{log-IsSound}
use ros_driver_modem.Driver.Sending.{
  handed_over, tx-tcp, tx-tcp_absent, tx-udp, tx-udp_absent, tx-unknown,
}
use ros_driver_modem.RosNode.{Node, callbacks}
use ros_driver_modem.RosNode.Tracking.{Tracks, SameView-Tracks, disconnected-Tracks}
use ros_driver_modem.RosNode.Handling.{same_view}

module _ (to_string : Address → Text) (bytes : List ℕ) (n : ℕ) (sending : SendOutcome)
    (s : System Node) where
  -- A send that finds its connection broken goes through the disconnected callback.
  pub tx-Tracks :
      (type : Protocol) (p : ℕ)
      → IsSound s.modem
      → Tracks s
      → Tracks (Adding.tx (callbacks to_string) type p bytes n sending s).1
  tx-Tracks Protocol.tcp p v w = elim (Option-cases (lookup p s.modem.tcp_active)) [
    | inl e ↦ rw (tx-tcp_absent (callbacks to_string) bytes n sending p s e) w
    | inr (i, e) ↦
        let up = (v.coherent.active_at p i e).0.in_status in
        let sent = handed_over (callbacks to_string) bytes n sending i s in
        let kept : Tracks sent = SameView-Tracks (same_view refl refl refl refl) w in
        rw (tx-tcp (callbacks to_string) bytes n sending p i s e up)
          (elim (Bool-cases (is_broken_pipe sending.error)) [
            | inl broken ↦ rw broken (disconnected-Tracks to_string i sent (log-IsSound v _) kept)
            | inr whole ↦ rw whole kept
          ])
  ]
  tx-Tracks Protocol.udp p v w = elim (Option-cases (lookup p s.modem.udp_active)) [
    | inl e ↦ rw (tx-udp_absent (callbacks to_string) bytes n sending p s e) w
    | inr (i, e) ↦
        rw (tx-udp (callbacks to_string) bytes n sending p i s e)
          (elim (Bool-cases (is_no_error sending.error)) [
            | inl fine ↦ rw fine (SameView-Tracks (same_view refl refl refl refl) w)
            | inr failed ↦ rw failed w
          ])
  ]
  tx-Tracks (Protocol.unknown c) p v w =
      rw (tx-unknown (callbacks to_string) bytes n sending c p s) w
