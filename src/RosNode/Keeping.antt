-- ===== src/RosNode/Keeping.antt =====
-- The requests of the node (src/ros_node.cpp) on a property of the driver's state that survives the
-- elementary changes.
use ros_driver_modem.Prelude.{ℕ, ◌≡◌, refl, subst, sym, true, Option, none, some}
use ros_driver_modem.Types.{Address, Protocol, role_of_byte, protocol_of_byte, Setup}
use ros_driver_modem.Modem.{Modem, System, on_modem}
use ros_driver_modem.Topics.{Text}
use ros_driver_modem.Driver
use ros_driver_modem.Driver.Invariant.{IsSound}
use ros_driver_modem.Driver.Keeping.{
  Anywhere, KeptByRequests, KeptByWrites, KeptByRemoval, KeptByUdpRemoval, KeptByConnection,
  KeptByAddition, KeptByUdpAddition,
}
use ros_driver_modem.Driver.Operations.{
  remove_connection-keeps, remove_all-keeps, tx-keeps, add_tcp-keeps, add_udp-keeps,
}
use ros_driver_modem.EventLoop.Keeping.{run_one-keeps}
use ros_driver_modem.RosNode.{Node, callbacks, remove_all_topics}
use ros_driver_modem.RosNode.Requests.{
  on_app, set_remote_host, add_tcp_connection, add_udp_connection, remove_connection,
  remove_all_connections, service_set_remote_host, service_add_tcp_connection,
  service_add_udp_connection, service_remove_connection, service_remove_all_connections,
  service_tcp_tx, callback_udp_tx,
}
use ros_driver_modem.RosNode.Agreement.{IsConsistent}
use ros_driver_modem.RosNode.Reachable.{
  Request, set_host, add_tcp, add_udp, remove, remove_all, send_tcp, send_udp, turn, Admissible,
  serve, serve-IsConsistent, after_add_tcp-modem, after_add_udp-modem, after_remove-modem,
  readdress-IsSound, Reach, here, next,
}

-- What a property has to survive for a request to keep it.
abbrev pub KeptBy : Request → (Modem → Type 0) → Type 0
KeptBy (set_host resolved) P = KeptByRemoval Anywhere P × KeptByUdpRemoval Anywhere P
KeptBy (add_tcp byte p setup) P = KeptByAddition p P
KeptBy (add_udp p setup) P = KeptByUdpAddition p P
KeptBy (remove byte p) P = KeptByRemoval (λ q. q ≡ p) P × KeptByUdpRemoval (λ q. q ≡ p) P
KeptBy remove_all P = KeptByRemoval Anywhere P × KeptByUdpRemoval Anywhere P
KeptBy (send_tcp p bytes sending) P = KeptByRemoval (λ q. q ≡ p) P
KeptBy (send_udp p bytes sending) P = Unit {0}
KeptBy (turn n k) P = KeptByRemoval Anywhere P × KeptByConnection P × KeptByWrites P

-- A property that survives the removal of any connection survives that of one.
pub fewer : {Q : ℕ → Type 0} {P : Modem → Type 0} → KeptByRemoval Anywhere P → KeptByRemoval Q P
fewer k = record {
  drop_pending = λ d p i _. k.drop_pending d p i tt;
  drop_active = λ d p i _. k.drop_active d p i tt;
}

pub fewer_udp :
    {Q : ℕ → Type 0} {P : Modem → Type 0} → KeptByUdpRemoval Anywhere P → KeptByUdpRemoval Q P
fewer_udp k = record { drop_udp = λ d p i _. k.drop_udp d p i tt }

-- And nothing.
none_removed : {P : Modem → Type 0} → KeptByRemoval (λ q. ⊥) P
none_removed = record { drop_pending = λ d p i z. absurd z; drop_active = λ d p i z. absurd z }

-- A property that survives everything.
pub kept_by_all :
    {P : Modem → Type 0}
    → KeptByRemoval Anywhere P
    → KeptByUdpRemoval Anywhere P
    → KeptByConnection P
    → KeptByWrites P
    → (r : Request)
    → ((p : ℕ) (setup : Setup) (byte : ℕ) → r ≡ add_tcp byte p setup → KeptByAddition p P)
    → ((p : ℕ) (setup : Setup) → r ≡ add_udp p setup → KeptByUdpAddition p P)
    → KeptBy r P
kept_by_all drops drops_udp connections writes (set_host resolved) f g = (drops, drops_udp)
kept_by_all drops drops_udp connections writes (add_tcp byte p setup) f g = f p setup byte refl
kept_by_all drops drops_udp connections writes (add_udp p setup) f g = g p setup refl
kept_by_all drops drops_udp connections writes (remove byte p) f g =
    (fewer drops, fewer_udp drops_udp)
kept_by_all drops drops_udp connections writes remove_all f g = (drops, drops_udp)
kept_by_all drops drops_udp connections writes (send_tcp p bytes sending) f g = fewer drops
kept_by_all drops drops_udp connections writes (send_udp p bytes sending) f g = tt
kept_by_all drops drops_udp connections writes (turn n k) f g = (drops, connections, writes)

-- Every request of a path.
abbrev pub AllOf :
    {to_string : Address → Text} {s t : System Node}
    → (Request → Type 0)
    → Reach to_string s t
    → Type 0
AllOf B here = Unit {0}
AllOf B (next path r h) = AllOf B path × B r

module _ (to_string : Address → Text) {P : Modem → Type 0} (requests : KeptByRequests P) where
  set_remote_host-keeps :
      (resolved : Option Address) (s : System Node)
      → KeptByRemoval Anywhere P
      → KeptByUdpRemoval Anywhere P
      → IsSound s.modem
      → P s.modem
      → P (set_remote_host resolved s).1.modem
  unfolding set_remote_host Driver.set_remote_host
  set_remote_host-keeps none s drops drops_udp v w = w
  set_remote_host-keeps (some ip) s drops drops_udp v w =
      remove_all-keeps drops drops_udp (λ _. tt) (on_modem (λ d. record d { remote_ip = ip }) s)
        (readdress-IsSound s.modem ip v) (requests.readdress s.modem ip w)

  pub serve-keeps :
      (r : Request) (s : System Node)
      → KeptBy r P
      → Admissible r s
      → IsSound s.modem
      → P s.modem
      → P (serve to_string r s).modem
  unfolding serve service_set_remote_host service_add_tcp_connection service_add_udp_connection
      service_remove_connection service_remove_all_connections remove_all_connections service_tcp_tx
      callback_udp_tx add_tcp_connection add_udp_connection remove_connection
  serve-keeps (set_host resolved) s k h v w = set_remote_host-keeps resolved s k.0 k.1 v w
  serve-keeps (add_tcp byte p setup) s k h v w =
      subst P (sym (after_add_tcp-modem true _))
        (add_tcp-keeps p k (callbacks to_string) (role_of_byte byte) setup s v w)
  serve-keeps (add_udp p setup) s k h v w =
      subst P (sym (after_add_udp-modem p true _)) (add_udp-keeps p k setup s w)
  serve-keeps (remove byte p) s k h v w =
      subst P (sym (after_remove-modem (protocol_of_byte byte) p _))
        (remove_connection-keeps k.0 k.1 (protocol_of_byte byte) p s refl v w)
  serve-keeps remove_all s k h v w =
      remove_all-keeps k.0 k.1 (λ _. tt) (on_app remove_all_topics s) v w
  serve-keeps (send_tcp p bytes sending) s k h v w =
      tx-keeps k (callbacks to_string) bytes _ sending Protocol.tcp p s requests (λ _. refl) v w
  serve-keeps (send_udp p bytes sending) s k h v w =
      tx-keeps none_removed (callbacks to_string) bytes _ sending Protocol.udp p s requests
        (λ e. cc) v w
  serve-keeps (turn n c) s k h v w = run_one-keeps (callbacks to_string) k.2 k.0 k.1 n c s h v w

  -- A property that survives the requests of a path holds at its end.
  pub Reach-keeps :
      {s t : System Node} (B : Request → Type 0)
      → ((r : Request) → B r → KeptBy r P)
      → IsConsistent s
      → P s.modem
      → (path : Reach to_string s t) → AllOf B path
      → P t.modem × IsConsistent t
  Reach-keeps B kept c w here bs = (w, c)
  Reach-keeps B kept c w (next {t} path r h) bs =
      let (w', c') = Reach-keeps B kept c w path bs.0 in
      (serve-keeps r t (kept r bs.1) h c'.sound w', serve-IsConsistent to_string r t h c')
