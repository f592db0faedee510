-- ===== src/RosNode/Lifecycle.antt =====
-- The requests to the node (src/ros_node.cpp) against the abstract machine of a TCP connection.
use ros_driver_modem.Prelude.{
  ℕ, ◌≡◌, refl, ap, ◌∙◌, Bool, true, false, none, some, ◌==◌, ◌&&◌, if◌then◌else◌,
}
use ros_driver_modem.Types.{Address, protocol_of_byte, role_of_byte}
use ros_driver_modem.Modem.{System, on_modem}
use ros_driver_modem.Topics.{Text}
use ros_driver_modem.Driver
use ros_driver_modem.TcpConnection.{is_broken_pipe}
use ros_driver_modem.Driver.Invariant.{IsSound}
use ros_driver_modem.Driver.Keeping.{Anywhere}
use ros_driver_modem.Driver.Lifecycle.{
  Phase, absent, waiting, established, phase, same_phase, may_connect, Moved, same_phase_refl,
  Moved-requests, Moved-writes, Moved-removal, Moved-connection, Moved-udp_addition,
}
use ros_driver_modem.RosNode.{Node, callbacks, remove_all_topics}
use ros_driver_modem.RosNode.Reachable.{
  Request, set_host, add_tcp, add_udp, remove, remove_all, send_tcp, send_udp, turn, Admissible,
  serve, after_add_tcp-modem, after_remove-modem,
}
use ros_driver_modem.RosNode.Requests.{
  on_app, set_remote_host, remove_connection, remove_all_connections, service_set_remote_host,
  service_remove_connection, service_remove_all_connections, add_tcp_connection,
  service_add_tcp_connection,
}
use ros_driver_modem.RosNode.Keeping.{KeptBy, serve-keeps}
use ros_driver_modem.RosNode.Phases.{
  is_tcp, is_established, is_absent, starts, removed_phase, sent_phase, phase_after_adding,
  all_absent,
}

-- The steps of the machine that a request allows at a port.
abbrev pub may : Request → ℕ → Phase → Phase → Bool
may (set_host none) q a b = same_phase a b
may (set_host (some ip)) q a b = same_phase b absent
may (add_tcp byte p setup) q a b =
    if q == p && (is_absent a && starts (role_of_byte byte) setup)
    then same_phase b waiting
    else same_phase a b
may (add_udp p setup) q a b = same_phase a b
may (remove byte p) q a b =
    if q == p && is_tcp (protocol_of_byte byte) then same_phase b absent else same_phase a b
may remove_all q a b = same_phase b absent
may (send_tcp p bytes sending) q a b =
    if q == p && (is_broken_pipe sending.error && is_established a)
    then same_phase b absent
    else same_phase a b
may (send_udp p bytes sending) q a b = same_phase a b
may (turn n k) q a b = may_connect a b

disconnects : (b : Phase) → may_connect b absent ≡ true
disconnects absent = refl
disconnects waiting = refl
disconnects established = refl

connects : (b : Phase) → may_connect b waiting ≡ true → may_connect b established ≡ true
connects absent h = cc
connects waiting h = refl
connects established h = refl

stays_connected : (b : Phase) → may_connect b b ≡ true
stays_connected absent = refl
stays_connected waiting = refl
stays_connected established = refl

module _ (to_string : Address → Text) (s : System Node) (v : IsSound s.modem) where
  -- A request that may leave a port as it is, and whose elementary changes are all allowed.
  allows :
      (r : Request)
      → Admissible r s
      → ((q : ℕ) (a : Phase) → may r q a a ≡ true)
      → KeptBy r (Moved (may r) (phase s.modem))
      → (q : ℕ) → may r q (phase s.modem q) (phase (serve to_string r s).modem q) ≡ true
  allows r h same kept q =
      serve-keeps to_string (Moved-requests (may r) (phase s.modem)) r s kept h v
        (λ p. same p (phase s.modem p)) q

-- A port that is brought to a phase, or left as it is.
brought :
    (here : Bool) (a b c : Phase)
    → b ≡ (if here then c else a)
    → (if here then same_phase b c else same_phase a b) ≡ true
brought true a b c e = rw e (same_phase_refl c)
brought false a b c e = rw e (same_phase_refl a)

module _ (to_string : Address → Text) where
  -- The node refines an abstract machine for the TCP connection of each port, which is absent,
  -- waiting or established, whatever request it serves in a sound state: a new remote host that
  -- resolves and the removal of all make every port absent, a request to remove a connection makes
  -- its port absent if its byte is that of TCP, adding a TCP connection at an absent port makes it
  -- waiting if the byte of its role is that of a server or a client and the operating system binds
  -- the port, sending on a port makes it absent if it is established and the pipe is broken, a
  -- turn of the event loop can take ports to absent or from waiting to established, and nothing
  -- else changes the phase of any port. The operating system must bind the ports that it is asked
  -- for, and must not let an accept succeed once its acceptor is closed.
  pub serve-lifecycle :
      (r : Request) (s : System Node) (q : ℕ)
      → Admissible r s
      → IsSound s.modem
      → may r q (phase s.modem q) (phase (serve to_string r s).modem q) ≡ true
  unfolding serve service_set_remote_host service_add_tcp_connection add_tcp_connection
      service_remove_connection service_remove_all_connections set_remote_host
      Driver.set_remote_host remove_all_connections remove_connection
  serve-lifecycle (set_host none) s q h v = same_phase_refl (phase s.modem q)
  serve-lifecycle (set_host (some ip)) s q h v =
      all_absent q (on_modem (λ d. record d { remote_ip = ip }) s)
  serve-lifecycle remove_all s q h v = all_absent q (on_app remove_all_topics s)
  serve-lifecycle (remove byte p) s q h v =
      let type = protocol_of_byte byte in
      brought (q == p && is_tcp type) (phase s.modem q) _ absent
        (ap (λ d. phase d q) (after_remove-modem type p _) ∙ removed_phase to_string s v type p q)
  serve-lifecycle (add_tcp byte p setup) s q h v =
      let role = role_of_byte byte in
      brought (q == p && (is_absent (phase s.modem q) && starts role setup)) (phase s.modem q) _
        waiting
        (ap (λ d. phase d q) (after_add_tcp-modem true _)
          ∙ phase_after_adding (callbacks to_string) p s q role setup)
  serve-lifecycle (add_udp p setup) s q h v =
      allows to_string s v (add_udp p setup) h (λ r a. same_phase_refl a)
        (Moved-udp_addition (may (add_udp p setup)) (phase s.modem) p) q
  serve-lifecycle (send_tcp p bytes sending) s q h v =
      brought (q == p && (is_broken_pipe sending.error && is_established (phase s.modem q)))
        (phase s.modem q) _ absent (sent_phase to_string s v p bytes sending q)
  serve-lifecycle (send_udp p bytes sending) s q h v =
      allows to_string s v (send_udp p bytes sending) h (λ r a. same_phase_refl a) tt q
  serve-lifecycle (turn n k) s q h v =
      let m = may (turn n k) in
      let a = phase s.modem in
      allows to_string s v (turn n k) h (λ r b. stays_connected b)
        (
          Moved-removal m a Anywhere (λ r b _. disconnects b),
          Moved-connection m a (λ r b g. connects b g),
          Moved-writes m a,
        )
        q
