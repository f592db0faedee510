-- ===== src/RosNode/Opening.antt =====
-- ros_node::ros_node (src/ros_node.cpp) on a property of the state of the driver that survives the
-- addition of connections.
use ros_driver_modem.Prelude.{
  ℤ, ℕ, ◌^◌, ◌<◌, ◌≡◌, subst, sym, ap, false, Option, none, some, List, [], ◌∷◌, arith,
}
use ros_driver_modem.StdMap.{keys}
use ros_driver_modem.Types.{
  as_port, as_port-lt, Address, TcpRole, server, client, Result, ok, throws, undefined, Setup,
}
use ros_driver_modem.Modem.{Modem, System}
use ros_driver_modem.Topics.{Text}
use ros_driver_modem.Driver
use ros_driver_modem.Driver.Invariant.{IsSound}
use ros_driver_modem.Driver.Keeping.{KeptByAddition, KeptByUdpAddition}
use ros_driver_modem.Driver.Operations.{add_tcp-keeps, add_udp-keeps}
use ros_driver_modem.RosNode.{Node, callbacks}
use ros_driver_modem.RosNode.Requests.{
  on_success, add_tcp_ports, add_udp_ports, open_ports, construct, add_tcp_connection,
  add_udp_connection,
}
use ros_driver_modem.RosNode.Reachable.{
  node_add_tcp-IsSound, node_add_udp-IsSound, after_add_tcp-modem, after_add_udp-modem,
}
use ros_driver_modem.RosNode.Startup.{AllHonoured, first_state, blank-IsSound, on_success-ok}

on_success_keeps :
    (Q : System Node → Type 0) {A : Type 0} (r : Result A) (s : System Node)
    (rest : Result (Unit {0}) × System Node)
    → Q s
    → Q rest.1
    → Q (on_success r s rest).1
on_success_keeps Q (ok _) s rest w w' = w'
on_success_keeps Q (throws e) s rest w w' = w
on_success_keeps Q undefined s rest w w' = w

module _ (to_string : Address → Text) (P : Modem → Type 0)
    (additions : (p : ℕ) → p < 2 ^ 16 → KeptByAddition p P × KeptByUdpAddition p P) where
  abbrev Q : System Node → Type 0
  Q s = IsSound s.modem × P s.modem

  add_tcp_ports-keeps :
      (role : TcpRole) (params : List (ℤ × Setup)) (s : System Node)
      → AllHonoured params
      → Q s
      → Q (add_tcp_ports to_string role params s).1
  unfolding add_tcp_ports add_tcp_connection
  add_tcp_ports-keeps role [] s h w = w
  add_tcp_ports-keeps role ((param, setup) ∷ params) s h w =
      let p = as_port param in
      let s' = (add_tcp_connection to_string role p false setup s).1 in
      let w' : Q s' = (
        node_add_tcp-IsSound to_string role p false setup s h.0 w.0,
        subst P (sym (after_add_tcp-modem false _)) (
            add_tcp-keeps p (additions p (as_port-lt param)).0 (callbacks to_string) role setup s
              w.0 w.1),
      ) in
      on_success_keeps Q _ s' _ w' (add_tcp_ports-keeps role params s' h.1 w')

  add_udp_ports-keeps :
      (params : List (ℤ × Setup)) (s : System Node)
      → AllHonoured params
      → Q s
      → Q (add_udp_ports to_string params s).1
  unfolding add_udp_ports add_udp_connection
  add_udp_ports-keeps [] s h w = w
  add_udp_ports-keeps ((param, setup) ∷ params) s h w =
      let p = as_port param in
      let s' = (add_udp_connection p false setup s).1 in
      let w' : Q s' = (
        node_add_udp-IsSound p false setup s h.0 w.0,
        subst P (sym (after_add_udp-modem p false _))
            (add_udp-keeps p (additions p (as_port-lt param)).1 setup s w.1),
      ) in
      on_success_keeps Q _ s' _ w' (add_udp_ports-keeps params s' h.1 w')

  module _ (servers clients udps : List (ℤ × Setup))
      (honoured : AllHonoured servers × AllHonoured clients × AllHonoured udps) where
    open_ports-keeps :
        (s t : System Node)
        → Q s
        → open_ports to_string servers clients udps s ≡ (ok tt, t)
        → P t.modem
    unfolding open_ports
    open_ports-keeps s t w e =
        let (r, s1) = add_tcp_ports to_string server servers s in
        let (q, s2) = add_tcp_ports to_string client clients s1 in
        let (u, s3) = add_udp_ports to_string udps s2 in
        let w1 = add_tcp_ports-keeps server servers s honoured.0 w in
        let w2 = add_tcp_ports-keeps client clients s1 honoured.1 w1 in
        let w3 = add_udp_ports-keeps udps s2 honoured.2 w2 in
        let done = on_success-ok u s3 t _ (on_success-ok q s2 t _ (on_success-ok r s1 t _ e)) in
        subst (λ (x : System Node). P x.modem) (ap (λ y. y.1) done) w3.1

    pub construct-keeps :
        ((ip remote : Address) → P (first_state ip remote).modem)
        → (local resolved : Option Address) (t : System Node)
        → construct to_string local resolved servers clients udps ≡ some (ok tt, t)
        → P t.modem
    unfolding construct Driver.construct Driver.set_remote_host Driver.remove_all_connections
        Driver.remove_ports keys
    construct-keeps first none resolved t e = cc
    construct-keeps first (some ip) none t e = cc
    construct-keeps first (some ip) (some remote) t e =
        open_ports-keeps (first_state ip remote) t (blank-IsSound ip remote, first ip remote)
          (ground (arith, e))
