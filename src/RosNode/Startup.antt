-- ===== src/RosNode/Startup.antt =====
-- ros_node::ros_node (src/ros_node.cpp): the state in which a node comes up.
use ros_driver_modem.Prelude.{
  ℤ, ℕ, ◌≡◌, refl, subst, ap, false, Option, none, some, List, [], ◌∷◌, arith,
}
use ros_driver_modem.StdMap.{lookup, contains, keys}
use ros_driver_modem.Types.{
  as_port, Address, TcpRole, server, client, Result, ok, throws, undefined, Setup, disconnected,
}
use ros_driver_modem.Modem.{TcpConnection, UdpConnection, System, new_tcp}
use ros_driver_modem.Topics.{Text}
use ros_driver_modem.Driver
use ros_driver_modem.Driver.Coherent.{Coherent}
use ros_driver_modem.Driver.Invariant.{UdpCoherent, IsSound}
use ros_driver_modem.Driver.Admitting.{Honours}
use ros_driver_modem.RosNode.{Node}
use ros_driver_modem.RosNode.Requests.{
  on_success, blank, publish, add_tcp_ports, add_udp_ports, open_ports, construct,
  add_tcp_connection, add_udp_connection,
}
use ros_driver_modem.RosNode.Agreement.{Mirrors, Agrees, IsConsistent}
use ros_driver_modem.RosNode.Serving.{publish-Tracks, add_tcp-Agrees, add_udp-Agrees}
use ros_driver_modem.RosNode.Reachable.{node_add_tcp-IsSound, node_add_udp-IsSound}

-- The operating system binds the ports that the parameters name, once cast to uint16_t.
abbrev pub AllHonoured : List (ℤ × Setup) → Type 0
AllHonoured [] = Unit {0}
AllHonoured ((param, setup) ∷ params) = Honours (as_port param) setup × AllHonoured params

-- Consistent, but perhaps not published yet.
abbrev Prepared : System Node → Type 0
Prepared s = IsSound s.modem × Agrees s.modem s.app

on_success-Prepared :
    {A : Type 0} (r : Result A) (s : System Node) (rest : Result (Unit {0}) × System Node)
    → Prepared s
    → Prepared rest.1
    → Prepared (on_success r s rest).1
on_success-Prepared (ok _) s rest w w' = w'
on_success-Prepared (throws e) s rest w w' = w
on_success-Prepared undefined s rest w w' = w

-- A constructor that succeeds has gone through all its parts.
pub on_success-ok :
    {A : Type 0} (r : Result A) (s t : System Node) (rest : Result (Unit {0}) × System Node)
    → on_success r s rest ≡ (ok tt, t)
    → rest ≡ (ok tt, t)
on_success-ok (ok _) s t rest e = e
on_success-ok (throws x) s t rest e = cc (ap (λ y. y.0) e)
on_success-ok undefined s t rest e = cc (ap (λ y. y.0) e)

published-IsSound : (s : System Node) → IsSound s.modem → IsSound (publish s).modem
published-IsSound s v = v

-- The state in which the constructor starts to open ports.
abbrev pub first_state : Address → Address → System Node
first_state ip remote = record {
  modem = record (Driver.blank ip) { remote_ip = remote };
  app = blank;
}

empty-Mirrors : (name : ℕ → Text) → Mirrors [] name []
unfolding lookup contains
empty-Mirrors name = record { at_port = λ p. refl }

empty-Coherent :
    (h : ℕ → TcpConnection) → ((i : ℕ) → (h i).status ≡ disconnected) → Coherent h 0 [] []
unfolding lookup
empty-Coherent h e = record {
  pending_at = λ p i f. cc;
  active_at = λ p i f. cc;
  pending_in = λ i f. ground (arith, e i);
  active_in = λ i f. ground (arith, e i);
  open_at = λ p i f. cc;
  apart = λ p i f. cc;
}

empty-UdpCoherent : (h : ℕ → UdpConnection) → UdpCoherent h 0 []
unfolding lookup
empty-UdpCoherent h = record { open_at = λ p i f. cc }

-- The driver before its first connection.
pub blank-IsSound :
    (ip remote : Address) → IsSound (record (Driver.blank ip) { remote_ip = remote })
unfolding new_tcp keys
blank-IsSound ip remote = record {
  coherent = empty-Coherent _ (λ i. refl);
  udp_coherent = empty-UdpCoherent _;
  quiet = tt;
  pending_sorted = tt;
  active_sorted = tt;
  udp_sorted = tt;
}

first_state-Prepared : (ip remote : Address) → Prepared (first_state ip remote)
first_state-Prepared ip remote = (
  blank-IsSound ip remote,
  record {
    tcp_rx_at = empty-Mirrors _;
    tcp_tx_at = empty-Mirrors _;
    udp_rx_at = empty-Mirrors _;
    udp_tx_at = empty-Mirrors _;
  },
)

module _ (to_string : Address → Text) where
  -- Whether the loop goes on or an exception ends it.
  add_tcp_ports-Prepared :
      (role : TcpRole) (params : List (ℤ × Setup)) (s : System Node)
      → AllHonoured params
      → Prepared s
      → Prepared (add_tcp_ports to_string role params s).1
  unfolding add_tcp_ports
  add_tcp_ports-Prepared role [] s h w = w
  add_tcp_ports-Prepared role ((param, setup) ∷ params) s h w =
      let p = as_port param in
      let s' = (add_tcp_connection to_string role p false setup s).1 in
      let w' : Prepared s' = (
        node_add_tcp-IsSound to_string role p false setup s h.0 w.0,
        add_tcp-Agrees to_string s role p setup w.1,
      ) in
      on_success-Prepared _ s' _ w' (add_tcp_ports-Prepared role params s' h.1 w')

  add_udp_ports-Prepared :
      (params : List (ℤ × Setup)) (s : System Node)
      → AllHonoured params
      → Prepared s
      → Prepared (add_udp_ports to_string params s).1
  unfolding add_udp_ports
  add_udp_ports-Prepared [] s h w = w
  add_udp_ports-Prepared ((param, setup) ∷ params) s h w =
      let p = as_port param in
      let s' = (add_udp_connection p false setup s).1 in
      let w' : Prepared s' =
        (node_add_udp-IsSound p false setup s h.0 w.0, add_udp-Agrees s p setup w.1) in
      on_success-Prepared _ s' _ w' (add_udp_ports-Prepared params s' h.1 w')

  module _ (servers clients udps : List (ℤ × Setup))
      (honoured : AllHonoured servers × AllHonoured clients × AllHonoured udps) where
    pub open_ports-IsConsistent :
        (s t : System Node)
        → Prepared s
        → open_ports to_string servers clients udps s ≡ (ok tt, t)
        → IsConsistent t
    unfolding open_ports
    open_ports-IsConsistent s t w e =
        let (r, s1) = add_tcp_ports to_string server servers s in
        let (q, s2) = add_tcp_ports to_string client clients s1 in
        let (u, s3) = add_udp_ports to_string udps s2 in
        let w1 = add_tcp_ports-Prepared server servers s honoured.0 w in
        let w2 = add_tcp_ports-Prepared client clients s1 honoured.1 w1 in
        let w3 = add_udp_ports-Prepared udps s2 honoured.2 w2 in
        let done = on_success-ok u s3 t _ (on_success-ok q s2 t _ (on_success-ok r s1 t _ e)) in
        let p = publish-Tracks s3 w3.1 in
        subst IsConsistent (ap (λ y. y.1) done)
          (record { sound = published-IsSound s3 w3.0; agrees = p.agrees; current = p.current })

    -- A node whose constructor returns without an exception is consistent, whatever ports its
    -- parameters name, provided that the operating system binds those ports.
    pub construct-IsConsistent :
        (local resolved : Option Address) (t : System Node)
        → construct to_string local resolved servers clients udps ≡ some (ok tt, t)
        → IsConsistent t
    unfolding construct Driver.construct Driver.set_remote_host Driver.remove_all_connections
        Driver.remove_ports keys
    construct-IsConsistent none resolved t e = cc
    construct-IsConsistent (some ip) none t e = cc
    construct-IsConsistent (some ip) (some remote) t e =
        open_ports-IsConsistent (first_state ip remote) t (first_state-Prepared ip remote)
          (ground (arith, e))
