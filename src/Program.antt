-- ===== src/Program.antt =====
-- src/main.cpp, and ros_node::spin and ros_node::~ros_node of src/ros_node.cpp. While the node
-- spins, the thread of the driver runs: what the two do is a list of requests and turns.
pub mod Ending
use ros_driver_modem.Prelude.{ℤ, ℕ, Bool, Option, none, some, List, [], ◌∷◌}
use ros_driver_modem.Types.{Address, Result, ok, throws, undefined, Setup}
use ros_driver_modem.Modem.{System}
use ros_driver_modem.Topics.{Text}
use ros_driver_modem.Driver.{start, stop, destroy}
use ros_driver_modem.EventLoop.{run_one}
use ros_driver_modem.RosNode.{Node, callbacks}
use ros_driver_modem.RosNode.Requests.{
  construct, service_add_tcp_connection, service_add_udp_connection, service_remove_connection,
  service_tcp_tx, callback_udp_tx,
}
use ros_driver_modem.RosNode.Reachable.{
  Request, set_host, add_tcp, add_udp, remove, remove_all, send_tcp, send_udp, turn, serve,
}
use ros_driver_modem.ModemInterface.{and_then}

-- ros_node::~ros_node: the node handle first, then the driver.
unfoldable pub destroy_node : System Node → Result (Unit {0}) × System Node
destroy_node s = destroy s

-- roscpp catches what a service throws, and answers that the call has failed.
unfoldable pub caught : Result Bool → Result (Unit {0})
caught (ok _) = ok tt
caught (throws e) = ok tt
caught undefined = undefined

-- What the callback of a message throws leaves ros::spin.
unfoldable pub passed_on : Result Bool → Result (Unit {0})
passed_on (ok _) = ok tt
passed_on (throws e) = throws e
passed_on undefined = undefined

-- The thread is joined when ros::spin returns, but not when it throws.
unfoldable pub finish : Result (Unit {0}) × System Node → Result (Unit {0}) × System Node
finish (ok _, s) = (ok tt, stop s)
finish (throws e, s) = (throws e, s)
finish (undefined, s) = (undefined, s)

-- Nothing catches in main: an exception ends the program.
unfoldable pub leave : Result (Unit {0}) × System Node → Result (Unit {0}) × System Node
leave (ok _, s) = destroy_node s
leave (throws e, s) = (throws e, s)
leave (undefined, s) = (undefined, s)

module _ (to_string : Address → Text) where
  -- How a request ends for the program; nothing catches what leaves the driver's thread.
  unfoldable pub outcome : Request → System Node → Result (Unit {0})
  outcome (set_host resolved) s = ok tt
  outcome (add_tcp byte p setup) s = caught (service_add_tcp_connection to_string byte p setup s).0
  outcome (add_udp p setup) s = caught (service_add_udp_connection p setup s).0
  outcome (remove byte p) s = caught (service_remove_connection byte p s).0
  outcome remove_all s = ok tt
  outcome (send_tcp p bytes sending) s = caught (service_tcp_tx to_string p bytes sending s).0
  outcome (send_udp p bytes sending) s = passed_on (callback_udp_tx to_string p bytes sending s).0
  outcome (turn n k) s = (run_one (callbacks to_string) n k s).0

  -- What happens until ros::spin returns, or the program ends before that.
  unfoldable pub serve_all : List Request → System Node → Result (Unit {0}) × System Node
  serve_all [] s = (ok tt, s)
  serve_all (r ∷ rs) s =
      let s1 = serve to_string r s in let rest = serve_all rs s1 in and_then (outcome r s, s1) rest

  unfoldable pub spin : List Request → System Node → Result (Unit {0}) × System Node
  spin requests s = finish (serve_all requests (start s))

  -- The rest of main, after the node is there; an exception of the constructor ends the program.
  unfoldable pub run_node :
      List Request → Result (Unit {0}) × System Node → Result (Unit {0}) × System Node
  run_node requests (ok _, s) = leave (spin requests s)
  run_node requests (throws e, s) = (throws e, s)
  run_node requests (undefined, s) = (undefined, s)

  -- `none` is exit(1) of a constructor that has no driver.
  unfoldable pub main :
      Option Address
      → Option Address
      → List (ℤ × Setup)
      → List (ℤ × Setup)
      → List (ℤ × Setup)
      → List Request
      → Option (Result (Unit {0}) × System Node)
  main local resolved servers clients udps requests =
      elim (construct to_string local resolved servers clients udps) [
        | none ↦ none
        | some x ↦ some (run_node requests x)
      ]
