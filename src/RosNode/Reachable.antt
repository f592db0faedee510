-- ===== src/RosNode/Reachable.antt =====
-- The requests that the node (src/ros_node.cpp) serves, the turns of the event loop between them,
-- and the states that they lead to.
use ros_driver_modem.Prelude.{ℕ, ◌≡◌, refl, subst, sym, Bool, true, false, Option, none, some, List}
use ros_driver_modem.Types.{
  Address, TcpRole, Protocol, role_of_byte, protocol_of_byte, Result, ok, throws, undefined, Setup,
  SendOutcome,
}
use ros_driver_modem.Modem.{Modem, System, on_modem}
use ros_driver_modem.Topics.{Text}
use ros_driver_modem.Driver
use ros_driver_modem.Driver.Invariant.{IsSound}
use ros_driver_modem.Driver.Admitting.{Honours, add_tcp-IsSound}
use ros_driver_modem.Driver.AdmittingUdp.{add_udp-IsSound}
use ros_driver_modem.Driver.Removing.{remove_connection-IsSound}
use ros_driver_modem.Driver.RemovingAll.{remove_all-IsSound}
use ros_driver_modem.Driver.Sending.{tx-IsSound}
use ros_driver_modem.EventLoop.{Completion, run_one}
use ros_driver_modem.EventLoop.Sound.{Timely, run_one-IsSound}
use ros_driver_modem.RosNode.{Node, callbacks, remove_all_topics}
use ros_driver_modem.RosNode.Requests.{
  on_app, after_add_tcp, after_add_udp, after_remove, set_remote_host, add_tcp_connection,
  add_udp_connection, remove_connection, remove_all_connections, service_set_remote_host,
  service_add_tcp_connection, service_add_udp_connection, service_remove_connection,
  service_remove_all_connections, service_tcp_tx, callback_udp_tx,
}
use ros_driver_modem.RosNode.Agreement.{IsConsistent}
use ros_driver_modem.RosNode.Tracking.{Tracks}
use ros_driver_modem.RosNode.Handling.{run_one-Tracks}
use ros_driver_modem.RosNode.Serving.{add_tcp-Tracks, add_udp-Tracks}
use ros_driver_modem.RosNode.Clearing.{
  remove_connection-Tracks, remove_all-Tracks, set_remote_host-Tracks,
}
use ros_driver_modem.RosNode.Relaying.{tx-Tracks}

-- What the node does after the driver's part of a request leaves the modem alone.
pub after_add_tcp-modem :
    (wanted : Bool) (x : Result Bool × System Node) → (after_add_tcp wanted x).1.modem ≡ x.1.modem
unfolding after_add_tcp
after_add_tcp-modem true (ok true, s) = refl
after_add_tcp-modem false (ok true, s) = refl
after_add_tcp-modem wanted (ok false, s) = refl
after_add_tcp-modem wanted (throws e, s) = refl
after_add_tcp-modem wanted (undefined, s) = refl

pub after_add_udp-modem :
    (p : ℕ) (wanted : Bool) (x : Result Bool × System Node)
    → (after_add_udp p wanted x).1.modem ≡ x.1.modem
unfolding after_add_udp
after_add_udp-modem p true (ok true, s) = refl
after_add_udp-modem p false (ok true, s) = refl
after_add_udp-modem p wanted (ok false, s) = refl
after_add_udp-modem p wanted (throws e, s) = refl
after_add_udp-modem p wanted (undefined, s) = refl

pub after_remove-modem :
    (type : Protocol) (p : ℕ) (x : Result Bool × System Node)
    → (after_remove type p true x).1.modem ≡ x.1.modem
unfolding after_remove
after_remove-modem type p (ok true, s) = refl
after_remove-modem type p (ok false, s) = refl
after_remove-modem type p (throws e, s) = refl
after_remove-modem type p (undefined, s) = refl

pub readdress-IsSound :
    (d : Modem) (ip : Address) → IsSound d → IsSound (record d { remote_ip = ip })
readdress-IsSound d ip v = record {
  coherent = v.coherent;
  udp_coherent = v.udp_coherent;
  quiet = v.quiet;
  pending_sorted = v.pending_sorted;
  active_sorted = v.active_sorted;
  udp_sorted = v.udp_sorted;
}

set_remote_host-IsSound :
    (resolved : Option Address) (s : System Node)
    → IsSound s.modem
    → IsSound (set_remote_host resolved s).1.modem
unfolding set_remote_host Driver.set_remote_host
set_remote_host-IsSound none s v = v
set_remote_host-IsSound (some ip) s v =
    remove_all-IsSound (on_modem (λ d. record d { remote_ip = ip }) s)
      (readdress-IsSound s.modem ip v)

pub node_add_tcp-IsSound :
    (to_string : Address → Text) (role : TcpRole) (p : ℕ) (wanted : Bool) (setup : Setup)
    (s : System Node)
    → Honours p setup
    → IsSound s.modem
    → IsSound (add_tcp_connection to_string role p wanted setup s).1.modem
unfolding add_tcp_connection
node_add_tcp-IsSound to_string role p wanted setup s h v =
    subst IsSound (sym (after_add_tcp-modem wanted _))
      (add_tcp-IsSound (callbacks to_string) p s role setup h v)

pub node_add_udp-IsSound :
    (p : ℕ) (wanted : Bool) (setup : Setup) (s : System Node)
    → Honours p setup
    → IsSound s.modem
    → IsSound (add_udp_connection p wanted setup s).1.modem
unfolding add_udp_connection
node_add_udp-IsSound p wanted setup s h v =
    subst IsSound (sym (after_add_udp-modem p wanted _)) (add_udp-IsSound p s setup h v)

node_remove-IsSound :
    (type : Protocol) (p : ℕ) (s : System Node)
    → IsSound s.modem
    → IsSound (remove_connection type p true s).1.modem
unfolding remove_connection
node_remove-IsSound type p s v =
    subst IsSound (sym (after_remove-modem type p _)) (remove_connection-IsSound type p s v)

-- What the node is asked to do, with the answers of the operating system and the resolver.
pub data Request : Type 0 where
  set_host : Option Address → Request
  add_tcp : ℕ → ℕ → Setup → Request
  add_udp : ℕ → Setup → Request
  remove : ℕ → ℕ → Request
  remove_all : Request
  send_tcp send_udp : ℕ → List ℕ → SendOutcome → Request
  turn : ℕ → Completion → Request

-- The documented behaviour of the operating system and of boost that the theorems rest on.
abbrev pub Admissible : Request → System Node → Type 0
Admissible (add_tcp byte p setup) s = Honours p setup
Admissible (add_udp p setup) s = Honours p setup
Admissible (turn n k) s = Timely n k s
Admissible _ s = Unit {0}

module _ (to_string : Address → Text) where
  -- The state after a request; what it answers is left out.
  unfoldable pub serve : Request → System Node → System Node
  serve (set_host resolved) s = (service_set_remote_host resolved s).1
  serve (add_tcp byte p setup) s = (service_add_tcp_connection to_string byte p setup s).1
  serve (add_udp p setup) s = (service_add_udp_connection p setup s).1
  serve (remove byte p) s = (service_remove_connection byte p s).1
  serve remove_all s = (service_remove_all_connections s).1
  serve (send_tcp p bytes sending) s = (service_tcp_tx to_string p bytes sending s).1
  serve (send_udp p bytes sending) s = (callback_udp_tx to_string p bytes sending s).1
  serve (turn n k) s = (run_one (callbacks to_string) n k s).1

  -- Each request keeps the driver's state sound.
  pub serve-IsSound :
      (r : Request) (s : System Node) → Admissible r s → IsSound s.modem → IsSound (serve r s).modem
  unfolding serve service_set_remote_host service_add_tcp_connection service_add_udp_connection
      service_remove_connection service_remove_all_connections remove_all_connections service_tcp_tx
      callback_udp_tx
  serve-IsSound (set_host resolved) s h v = set_remote_host-IsSound resolved s v
  serve-IsSound (add_tcp byte p setup) s h v =
      node_add_tcp-IsSound to_string (role_of_byte byte) p true setup s h v
  serve-IsSound (add_udp p setup) s h v = node_add_udp-IsSound p true setup s h v
  serve-IsSound (remove byte p) s h v = node_remove-IsSound (protocol_of_byte byte) p s v
  serve-IsSound remove_all s h v = remove_all-IsSound (on_app remove_all_topics s) v
  serve-IsSound (send_tcp p bytes sending) s h v =
      tx-IsSound (callbacks to_string) bytes _ sending Protocol.tcp p s v
  serve-IsSound (send_udp p bytes sending) s h v =
      tx-IsSound (callbacks to_string) bytes _ sending Protocol.udp p s v
  serve-IsSound (turn n k) s h v = run_one-IsSound (callbacks to_string) n k s h v

  -- And keeps the node's topics and its latched message in step with the driver.
  pub serve-Tracks :
      (r : Request) (s : System Node)
      → Admissible r s
      → IsSound s.modem
      → Tracks s
      → Tracks (serve r s)
  unfolding serve service_set_remote_host service_add_tcp_connection service_add_udp_connection
      service_remove_connection service_remove_all_connections service_tcp_tx callback_udp_tx
  serve-Tracks (set_host resolved) s h v w = set_remote_host-Tracks s resolved w
  serve-Tracks (add_tcp byte p setup) s h v w =
      add_tcp-Tracks to_string s (role_of_byte byte) p setup w
  serve-Tracks (add_udp p setup) s h v w = add_udp-Tracks s p setup w
  serve-Tracks (remove byte p) s h v w = remove_connection-Tracks s (protocol_of_byte byte) p v w
  serve-Tracks remove_all s h v w = remove_all-Tracks s
  serve-Tracks (send_tcp p bytes sending) s h v w =
      tx-Tracks to_string bytes _ sending s Protocol.tcp p v w
  serve-Tracks (send_udp p bytes sending) s h v w =
      tx-Tracks to_string bytes _ sending s Protocol.udp p v w
  serve-Tracks (turn n k) s h v w = run_one-Tracks to_string n k s h v w

  -- One request keeps the node consistent.
  pub serve-IsConsistent :
      (r : Request) (s : System Node) → Admissible r s → IsConsistent s → IsConsistent (serve r s)
  serve-IsConsistent r s h c =
      let w = serve-Tracks r s h c.sound (record { agrees = c.agrees; current = c.current }) in
      record { sound = serve-IsSound r s h c.sound; agrees = w.agrees; current = w.current }

  -- The states that requests lead to.
  pub data Reach (s : System Node) : System Node → Type 0 where
    here : Reach s s
    next : {t : System Node} → Reach s t → (r : Request) → Admissible r t → Reach s (serve r t)

  -- From a consistent state of the node and its driver, every state that is reached by any
  -- sequence of service calls, messages and turns of the event loop is consistent again: the maps
  -- of the driver agree with its connection objects, the node has a topic and a service of the
  -- right name for exactly the active connections, and its latched message lists the connections
  -- as they are. The operating system must bind the ports that it is asked for, and must not let
  -- an accept succeed once its acceptor is closed.
  pub Reach-IsConsistent : {s t : System Node} → IsConsistent s → Reach s t → IsConsistent t
  Reach-IsConsistent c here = c
  Reach-IsConsistent c (next {t} path r h) = serve-IsConsistent r t h (Reach-IsConsistent c path)
