-- ===== src/Program/Ending.antt =====
-- How the program of src/main.cpp ends.
use ros_driver_modem.Prelude.{
  ℤ, ℕ, ◌≡◌, refl, ap, true, false, Bool, Option, some, List, [], ◌∷◌, arith,
}
use ros_driver_modem.Types.{Address, Result, ok, throws, undefined, Setup, disconnected}
use ros_driver_modem.Modem.{Modem, System, on_modem}
use ros_driver_modem.Topics.{Text}
use ros_driver_modem.Driver.{
  start, stop, destroy, remove_all_connections, p_pending_tcp_connections, p_active_tcp_connections,
  p_active_udp_connections,
}
use ros_driver_modem.Driver.Invariant.{IsSound}
use ros_driver_modem.Driver.Keeping.{Anywhere, KeptByRemoval, KeptByUdpRemoval}
use ros_driver_modem.Driver.Operations.{remove_all-keeps}
use ros_driver_modem.Driver.RemovingAll.{
  remove_all_empties, remove_all-Silent, remove_all_disconnects,
}
use ros_driver_modem.RosNode.{Node, active_connections}
use ros_driver_modem.RosNode.Requests.{construct}
use ros_driver_modem.RosNode.Agreement.{IsConsistent}
use ros_driver_modem.RosNode.Reachable.{Request, serve, Admissible, serve-IsConsistent}
use ros_driver_modem.RosNode.Startup.{AllHonoured, construct-IsConsistent}
use ros_driver_modem.Program.{destroy_node, finish, leave, outcome, serve_all, spin, run_node, main}
use ros_driver_modem.ModemInterface.{and_then}

-- The pointer m_service_work as it was.
HasWork : Option Bool → Modem → Type 0
HasWork w d = d.service_work ≡ w

HasWork-removal : (w : Option Bool) → KeptByRemoval Anywhere (HasWork w)
unfolding HasWork
HasWork-removal w = record { drop_pending = λ d p i _ _ _ e. e; drop_active = λ d p i _ _ _ e. e }

HasWork-udp_removal : (w : Option Bool) → KeptByUdpRemoval Anywhere (HasWork w)
unfolding HasWork
HasWork-udp_removal w = record { drop_udp = λ d p i _ _ _ e. e }

-- The worker is the driver's own affair.
work-IsSound : (d : Modem) (w : Option Bool) → IsSound d → IsSound (record d { service_work = w })
work-IsSound d w v = record {
  coherent = v.coherent;
  udp_coherent = v.udp_coherent;
  quiet = v.quiet;
  pending_sorted = v.pending_sorted;
  active_sorted = v.active_sorted;
  udp_sorted = v.udp_sorted;
}

start-IsConsistent : (s : System Node) → IsConsistent s → IsConsistent (start s)
unfolding start active_connections p_pending_tcp_connections p_active_tcp_connections
    p_active_udp_connections
start-IsConsistent s c = record {
  sound = work-IsSound s.modem (some true) c.sound;
  agrees = record {
    tcp_rx_at = c.agrees.tcp_rx_at;
    tcp_tx_at = c.agrees.tcp_tx_at;
    udp_rx_at = c.agrees.udp_rx_at;
    udp_tx_at = c.agrees.udp_tx_at;
  };
  current = c.current;
}

module _ (to_string : Address → Text) where
  -- Each request finds the documented behaviour that it rests on.
  abbrev pub AllAdmissible : List Request → System Node → Type 0
  AllAdmissible [] s = Unit {0}
  AllAdmissible (r ∷ rs) s = Admissible r s × AllAdmissible rs (serve to_string r s)

  -- Whether the rest is done or not.
  and_then-IsConsistent :
      (o : Result (Unit {0})) (s1 : System Node) (rest : Result (Unit {0}) × System Node)
      → IsConsistent s1
      → IsConsistent rest.1
      → IsConsistent (and_then (o, s1) rest).1
  and_then-IsConsistent (ok _) s1 rest c d = d
  and_then-IsConsistent (throws e) s1 rest c d = c
  and_then-IsConsistent undefined s1 rest c d = c

  serve_all-IsConsistent :
      (rs : List Request) (s : System Node)
      → AllAdmissible rs s
      → IsConsistent s
      → IsConsistent (serve_all to_string rs s).1
  unfolding serve_all
  serve_all-IsConsistent [] s h c = c
  serve_all-IsConsistent (r ∷ rs) s h c =
      let s1 = serve to_string r s in
      let c1 = serve-IsConsistent to_string r s h.0 c in
      and_then-IsConsistent (outcome to_string r s) s1 (serve_all to_string rs s1) c1
        (serve_all-IsConsistent rs s1 h.1 c1)

leave-finish :
    (x : Result (Unit {0}) × System Node)
    → x.0 ≡ ok tt
    → (destroy_node (stop x.1)).0 ≡ ok tt
    → leave (finish x) ≡ (ok tt, (destroy_node (stop x.1)).1)
unfolding leave finish
leave-finish (ok _, s) f done = ap (λ r. (r, (destroy_node (stop s)).1)) done
leave-finish (throws e, s) f done = cc
leave-finish (undefined, s) f done = cc

-- Nothing is left of the driver's connections, and nothing is asked of ROS any more.
pub record IsOver (before after : System Node) : Type 0 where
  pub no_pending : after.modem.tcp_pending ≡ []
  pub no_active : after.modem.tcp_active ≡ []
  pub no_udp : after.modem.udp_active ≡ []
  pub all_disconnected : (i : ℕ) → (after.modem.tcp_heap i).status ≡ disconnected
  pub no_work : after.modem.service_work ≡ some false
  pub silent : after.app ≡ before.app

module _ (s : System Node) (v : IsSound s.modem) where
  abbrev stopped : System Node
  stopped = on_modem (λ d. record d { service_work = some false }) s

  abbrev closed : System Node
  closed = remove_all_connections stopped

  stopped_work : closed.modem.service_work ≡ some false
  unfolding HasWork
  stopped_work =
      remove_all-keeps (HasWork-removal (some false)) (HasWork-udp_removal (some false)) (λ _. tt)
        stopped (work-IsSound s.modem (some false) v) refl

  destroy_lem :
      destroy_node (stop s) ≡ (ok tt, on_modem (λ d. record d { service_work = some false }) closed)
  unfolding destroy_node stop destroy
  destroy_lem = ground (arith, stopped_work)

  destroy_stopped : ((destroy_node (stop s)).0 ≡ ok tt) × IsOver s (destroy_node (stop s)).1
  destroy_stopped =
      let e = remove_all_empties stopped in
      rw destroy_lem (
        refl,
        record {
          no_pending = e.0;
          no_active = e.1;
          no_udp = e.2;
          all_disconnected = remove_all_disconnects stopped (work-IsSound s.modem (some false) v);
          no_work = refl;
          silent = (remove_all-Silent stopped).0;
        },
      )

module _ (to_string : Address → Text) (local resolved : Option Address)
    (servers clients udps : List (ℤ × Setup))
    (honoured : AllHonoured servers × AllHonoured clients × AllHonoured udps) where
  -- A run of the program whose constructor returns without an exception, and in which ros::spin
  -- returns after any requests and turns, none of which throws out of its callback or the driver's
  -- thread or is undefined, ends without an exception and without undefined behaviour: the maps of
  -- the driver are then empty, every TCP connection object is disconnected, the worker of the io
  -- thread is gone, and nothing has been asked of ROS since ros::spin returned. The operating
  -- system must bind the ports that it is asked for, and must not let an accept succeed once its
  -- acceptor is closed.
  pub main_ends :
      (requests : List Request) (s : System Node)
      → construct to_string local resolved servers clients udps ≡ some (ok tt, s)
      → AllAdmissible to_string requests (start s)
      → (serve_all to_string requests (start s)).0 ≡ ok tt
      → (t : System Node) × (main to_string local resolved servers clients udps requests
          ≡ some (ok tt, t))
        × IsOver (serve_all to_string requests (start s)).1 t
  unfolding main run_node spin
  main_ends requests s e h f =
      let c = construct-IsConsistent to_string servers clients udps honoured local resolved s e in
      let served = serve_all to_string requests (start s) in
      let c' = serve_all-IsConsistent to_string requests (start s) h (start-IsConsistent s c) in
      let (done, over) = destroy_stopped served.1 c'.sound in
      ((destroy_node (stop served.1)).1, rw (e, main) (ap some (leave-finish served f done)), over)
