-- ===== src/RosNode/Bounds.antt =====
-- The ports and the buffers of a node that comes up and serves requests (src/ros_node.cpp,
-- src/driver.cpp, src/tcp_connection.cpp, src/udp_connection.cpp).
use ros_driver_modem.Prelude.{
  ℤ, ℕ, ◌^◌, ◌<◌, ◌≡◌, subst, Bool, true, false, Option, some, List, arith, length, inl, inr,
  Option-cases, refl, length-replicate,
}
use ros_driver_modem.StdMap.{lookup, contains}
use ros_driver_modem.Types.{Address, Protocol, ok, no_error, Setup}
use ros_driver_modem.Modem.{Handler, receive, receive_from, Modem, System, new_tcp, new_udp}
use ros_driver_modem.Topics.{Text, rx_topic}
use ros_driver_modem.Topics.Names.{is_known, rx_topic-injective}
use ros_driver_modem.Driver.Buffers.{
  HasBuffers, HasBuffers-requests, HasBuffers-writes, HasBuffers-removal, HasBuffers-udp_removal,
  HasBuffers-connection, HasBuffers-addition, HasBuffers-udp_addition,
}
use ros_driver_modem.Driver.Ports.{
  HasPorts, HasPorts-requests, HasPorts-writes, HasPorts-removal, HasPorts-udp_removal,
  HasPorts-connection, HasPorts-addition, HasPorts-udp_addition,
}
use ros_driver_modem.EventLoop.{Completion, run_handler}
use ros_driver_modem.RosNode.{Node}
use ros_driver_modem.RosNode.Arrays.{
  keeper, nothing_given, Within, receive-Within, receive_from-Within,
}
use ros_driver_modem.RosNode.Requests.{construct}
use ros_driver_modem.RosNode.Reachable.{Request, add_tcp, add_udp, Reach, here, next}
use ros_driver_modem.RosNode.Startup.{AllHonoured, first_state, construct-IsConsistent}
use ros_driver_modem.RosNode.Opening.{construct-keeps}
use ros_driver_modem.RosNode.Keeping.{KeptBy, kept_by_all, AllOf, Reach-keeps}

first-HasBuffers : (ip remote : Address) → HasBuffers (first_state ip remote).modem
unfolding new_tcp new_udp
first-HasBuffers ip remote = record {
  tcp_sized = λ i. length-replicate 0 0;
  udp_sized = λ i. length-replicate 0 0;
}

first-HasPorts : (ip remote : Address) → HasPorts (first_state ip remote).modem
unfolding lookup
first-HasPorts ip remote = record {
  pending_ports = record { at_key = λ p i e. cc };
  active_ports = record { at_key = λ p i e. cc };
  udp_ports = record { at_key = λ p i e. cc };
}

-- A request names a port of 16 bits.
abbrev pub NamesPort : Request → Type 0
NamesPort (add_tcp byte p setup) = p < 2 ^ 16
NamesPort (add_udp p setup) = p < 2 ^ 16
NamesPort _ = Unit {0}

abbrev pub AnyRequest : Request → Type 0
AnyRequest r = Unit {0}

HasBuffers-kept : (r : Request) → AnyRequest r → KeptBy r HasBuffers
HasBuffers-kept r _ =
    kept_by_all HasBuffers-removal HasBuffers-udp_removal HasBuffers-connection HasBuffers-writes r
      (λ p _ _ _. HasBuffers-addition p) (λ p _ _. HasBuffers-udp_addition p)

HasPorts-kept : (r : Request) → NamesPort r → KeptBy r HasPorts
HasPorts-kept r h =
    kept_by_all HasPorts-removal HasPorts-udp_removal HasPorts-connection HasPorts-writes r
      (λ p _ byte e. HasPorts-addition p (subst NamesPort e h))
      (λ p _ e. HasPorts-udp_addition p (subst NamesPort e h))

-- Does the driver have an active connection there?
abbrev pub connected_at : Protocol → ℕ → Modem → Bool
connected_at Protocol.tcp p d = contains p d.tcp_active
connected_at Protocol.udp p d = contains p d.udp_active
connected_at (Protocol.unknown _) p d = false

any_request :
    {to_string : Address → Text} {s t : System Node} (path : Reach to_string s t)
    → AllOf AnyRequest path
any_request here = tt
any_request (next path r h) = (any_request path, tt)

module _ (to_string : Address → Text) (servers clients udps : List (ℤ × Setup))
    (honoured : AllHonoured servers × AllHonoured clients × AllHonoured udps)
    (local resolved : Option Address) (s t : System Node)
    (comes_up : construct to_string local resolved servers clients udps ≡ some (ok tt, s))
    (path : Reach to_string s t) where
  reached-HasBuffers : HasBuffers t.modem
  reached-HasBuffers =
      (Reach-keeps to_string HasBuffers-requests AnyRequest HasBuffers-kept
        (construct-IsConsistent to_string servers clients udps honoured local resolved s comes_up)
        (construct-keeps to_string HasBuffers
          (λ p _. (HasBuffers-addition p, HasBuffers-udp_addition p)) servers clients udps honoured
          first-HasBuffers local resolved s comes_up)
        path (any_request path)).0

  reached-HasPorts : AllOf NamesPort path → HasPorts t.modem
  reached-HasPorts named =
      (Reach-keeps to_string HasPorts-requests NamesPort HasPorts-kept
        (construct-IsConsistent to_string servers clients udps honoured local resolved s comes_up)
        (construct-keeps to_string HasPorts
          (λ p h. (HasPorts-addition p h, HasPorts-udp_addition p h)) servers clients udps honoured
          first-HasPorts local resolved s comes_up)
        path named).0

  -- In every state that a node reaches from its constructor by requests and turns of the event
  -- loop, a receive handler that runs after a receive without an error, on any connection object,
  -- gives the attached callback only arrays within the object's buffer as it was allocated, each
  -- with a count of bytes that lie within the array. The operating system must bind the ports that
  -- it is asked for, and must not let an accept succeed once its acceptor is closed.
  pub receives_in_bounds :
      (k : Completion) (i : ℕ)
      → k.error ≡ no_error
      → (let given = λ (h : Handler). (run_handler keeper h k (nothing_given t.modem)).1.app in
          Within (length (t.modem.tcp_heap i).buffer) (given (receive i))
          × Within (length (t.modem.udp_heap i).buffer) (given (receive_from i)))
  receives_in_bounds k i fine =
      let w = reached-HasBuffers in
      rw (w.tcp_sized i, w.udp_sized i)
        (receive-Within k fine i t.modem, receive_from-Within k fine i t.modem)

  small_port :
      (a : Protocol) (p : ℕ) → HasPorts t.modem → connected_at a p t.modem ≡ true → p < 2 ^ 16
  unfolding contains
  small_port Protocol.tcp p w e = elim (Option-cases (lookup p t.modem.tcp_active)) [
    | inl f ↦ ground arith
    | inr (i, f) ↦ w.active_ports.at_key p i f
  ]
  small_port Protocol.udp p w e = elim (Option-cases (lookup p t.modem.udp_active)) [
    | inl f ↦ ground arith
    | inr (i, f) ↦ w.udp_ports.at_key p i f
  ]
  small_port (Protocol.unknown _) p w e = cc

  connected_known : (a : Protocol) (p : ℕ) → connected_at a p t.modem ≡ true → is_known a ≡ true
  connected_known Protocol.tcp p e = refl
  connected_known Protocol.udp p e = refl
  connected_known (Protocol.unknown _) p e = cc

  -- In every state that a node reaches from its constructor by requests, each of which names a
  -- port below 2^16, and by turns of the event loop, two active connections whose rx topics have
  -- the same name are the same connection. The operating system must bind the ports that it is
  -- asked for, and must not let an accept succeed once its acceptor is closed.
  pub rx_topics_differ :
      AllOf NamesPort path
      → (a b : Protocol) (p q : ℕ) → connected_at a p t.modem ≡ true
      → connected_at b q t.modem ≡ true
      → rx_topic a p ≡ rx_topic b q
      → (a ≡ b) × (p ≡ q)
  rx_topics_differ named a b p q e f =
      let w = reached-HasPorts named in
      rx_topic-injective a b p q (connected_known a p e) (connected_known b q f)
        (small_port a p w e) (small_port b q w f)
