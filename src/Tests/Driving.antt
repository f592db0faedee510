-- ===== src/Tests/Driving.antt =====
-- The driver's theorems on a driver without connections and on one with a server.
use ros_driver_modem.Prelude.{ℕ, ◌≡◌, refl, none, List, [], ◌∷◌, true, arith, subst, update}
use ros_driver_modem.StdMap.{lookup}
use ros_driver_modem.Types.{server, client, disconnected, connected, ok, binds}
use ros_driver_modem.Modem.{accept, connect, receive, receive_from, System, on_modem}
use ros_driver_modem.TcpConnection.{update_status}
use ros_driver_modem.Driver.{remove_all_connections}
use ros_driver_modem.Driver.Adding.{local_endpoint, remote_endpoint, add_tcp_connection}
use ros_driver_modem.Driver.Callbacks.{hooks}
use ros_driver_modem.Driver.Invariant.{IsSound}
use ros_driver_modem.Driver.Losing.{without_active, reported, lose_active}
use ros_driver_modem.Driver.Connecting.{with_active, connect_pending}
use ros_driver_modem.Driver.Starting.{listening, dialling, with_pending, add_server, add_client}
use ros_driver_modem.Driver.Admitting.{add_tcp-IsSound}
use ros_driver_modem.Driver.RemovingAll.{remove_all_disconnects}
use ros_driver_modem.EventLoop.{pick, run_one}
use ros_driver_modem.EventLoop.Sound.{Timely, run_one-IsSound}
use ros_driver_modem.RosNode.Startup.{blank-IsSound}
use ros_driver_modem.Tests.{Event, watcher, empty, waiting, active, arrival}

empty-IsSound : IsSound empty.modem
empty-IsSound = blank-IsSound 1 2

-- That server is pending.
abbrev pub listening_one : System (List Event)
listening_one =
    on_modem
      (λ d. with_pending 5000 (listening 5000 (local_endpoint 5000 empty)) (accept d.tcp_count) d)
      empty

no_port : {V : Type 0} (p : ℕ) → lookup {V = V} p [] ≡ none
unfolding lookup
no_port p = refl

pub listening_one-IsSound : IsSound listening_one.modem
listening_one-IsSound =
    subst (λ r. IsSound r.1.modem)
      (add_server watcher 5000 empty (no_port 5000) (no_port 5000) 5000)
      (add_tcp-IsSound watcher 5000 empty server (binds 5000) refl empty-IsSound)

remove_all_disconnects_example :
    ((remove_all_connections listening_one).modem.tcp_heap 0).status ≡ disconnected
remove_all_disconnects_example = remove_all_disconnects listening_one listening_one-IsSound 0

lose_active_example :
    update_status (hooks watcher) disconnected true 0 active
    ≡ reported watcher 0 5000 active (without_active 5000 0 active.modem)
unfolding lookup
lose_active_example =
    lose_active watcher 0 5000 active
      (record {
        in_status = refl;
        at_port = refl;
        bound_to = refl;
        says_connected = refl;
        says_disconnected = refl;
        says_rx = refl;
        has_role = refl;
      })
      refl refl

connect_pending_example :
    update_status (hooks watcher) connected true 0 waiting
    ≡ (let d = with_active 5000 0 waiting.modem in record { modem = d; app = Event.came 5000 ∷ [] })
unfolding lookup
connect_pending_example =
    connect_pending watcher 0 5000 waiting
      (record {
        in_status = refl;
        at_port = refl;
        bound_to = refl;
        says_connected = refl;
        says_disconnected = refl;
        says_rx = refl;
        has_role = refl;
      })
      refl

add_server_example : add_tcp_connection watcher server 5000 (binds 5000) empty ≡ (
  ok true,
  on_modem
      (λ d. with_pending 5000 (listening 5000 (local_endpoint 5000 empty)) (accept d.tcp_count) d)
      empty,
)
unfolding lookup
add_server_example = add_server watcher 5000 empty refl refl 5000

add_client_example : add_tcp_connection watcher client 5000 (binds 5000) empty ≡ (
  ok true,
  on_modem
      (λ d.
        with_pending 5000
          (dialling 5000 (local_endpoint 5000 empty) (remote_endpoint 5000 empty))
          (connect d.tcp_count)
          d)
      empty,
)
unfolding lookup
add_client_example = add_client watcher 5000 empty refl refl 5000

-- The accept that a server waits for is the only handler, and its acceptor is open.
accept_in_time : Timely 0 (arrival []) listening_one
unfolding pick update
accept_in_time (accept i) rest e = λ f. ground (arith, e)
accept_in_time (connect i) rest e = tt
accept_in_time (receive i) rest e = tt
accept_in_time (receive_from i) rest e = tt

run_one-IsSound_example : IsSound (run_one watcher 0 (arrival []) listening_one).1.modem
run_one-IsSound_example =
    run_one-IsSound watcher 0 (arrival []) listening_one accept_in_time listening_one-IsSound
