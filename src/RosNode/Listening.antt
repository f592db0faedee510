-- ===== src/RosNode/Listening.antt =====
-- The handlers that the connections of a node wait for (src/ros_node.cpp, src/driver.cpp), from its
-- constructor on.
use ros_driver_modem.Prelude.{ℤ, ◌≡◌, some, Option, List, [], ◌++◌}
use ros_driver_modem.StdMap.{lookup}
use ros_driver_modem.Types.{Address, ok, Setup}
use ros_driver_modem.Modem.{Handler, System}
use ros_driver_modem.Topics.{Text}
use ros_driver_modem.Driver.Attended.{
  AttendedBy, Attended, Attended-requests, Attended-removal, Attended-udp_removal,
  Attended-addition, Attended-udp_addition,
}
use ros_driver_modem.Driver.Invariant.{IsSound}
use ros_driver_modem.EventLoop.Turns.{noted_in, run_one-Attended}
use ros_driver_modem.RosNode.{Node, callbacks}
use ros_driver_modem.RosNode.Requests.{construct}
use ros_driver_modem.RosNode.Agreement.{IsConsistent}
use ros_driver_modem.RosNode.Reachable.{
  Request, set_host, add_tcp, add_udp, remove, remove_all, send_tcp, send_udp, turn, Admissible,
  serve, Reach, here, next, Reach-IsConsistent,
}
use ros_driver_modem.RosNode.Startup.{AllHonoured, first_state, construct-IsConsistent}
use ros_driver_modem.RosNode.Opening.{construct-keeps}
use ros_driver_modem.RosNode.Keeping.{fewer, fewer_udp, serve-keeps}

-- The handlers noted once a request is served: only a turn notes any.
unfoldable pub noted_by : Request → System Node → List Handler → List Handler
noted_by (turn n k) s ks = noted_in n k s ks
noted_by _ s ks = ks

-- The handlers whose operations ended badly along a path, so that their objects did not start the
-- next ones.
unfoldable pub missing :
    {to_string : Address → Text} {s t : System Node} → Reach to_string s t → List Handler
missing here = []
missing (next {t} path r h) = noted_by r t (missing path)

first-Attended : (ip remote : Address) → Attended [] (first_state ip remote).modem
unfolding lookup
first-Attended ip remote = record {
  pending_waits = λ p i e. cc;
  active_waits = λ p i e. cc;
  udp_waits = λ p i e. cc;
}

module _ (to_string : Address → Text) where
  serve-Attended :
      (ks : List Handler) (r : Request) (s : System Node)
      → Admissible r s
      → IsSound s.modem
      → Attended ks s.modem
      → Attended (noted_by r s ks) (serve to_string r s).modem
  unfolding serve noted_by
  serve-Attended ks (set_host resolved) s h v w =
      serve-keeps to_string (Attended-requests ks) (set_host resolved) s
        (Attended-removal ks, Attended-udp_removal ks) h v w
  serve-Attended ks (add_tcp byte p setup) s h v w =
      serve-keeps to_string (Attended-requests ks) (add_tcp byte p setup) s (Attended-addition ks p)
        h v w
  serve-Attended ks (add_udp p setup) s h v w =
      serve-keeps to_string (Attended-requests ks) (add_udp p setup) s (Attended-udp_addition ks p)
        h v w
  serve-Attended ks (remove byte p) s h v w =
      serve-keeps to_string (Attended-requests ks) (remove byte p) s
        (fewer (Attended-removal ks), fewer_udp (Attended-udp_removal ks)) h v w
  serve-Attended ks remove_all s h v w =
      serve-keeps to_string (Attended-requests ks) remove_all s
        (Attended-removal ks, Attended-udp_removal ks) h v w
  serve-Attended ks (send_tcp p bytes sending) s h v w =
      serve-keeps to_string (Attended-requests ks) (send_tcp p bytes sending) s
        (fewer (Attended-removal ks)) h v w
  serve-Attended ks (send_udp p bytes sending) s h v w =
      serve-keeps to_string (Attended-requests ks) (send_udp p bytes sending) s tt h v w
  serve-Attended ks (turn n k) s h v w = run_one-Attended (callbacks to_string) k ks n s h v w

  reached-Attended :
      {s t : System Node}
      → IsConsistent s
      → Attended [] s.modem
      → (path : Reach to_string s t) → Attended (missing path) t.modem
  unfolding missing
  reached-Attended c w here = w
  reached-Attended c w (next {t} path r h) =
      serve-Attended (missing path) r t h (Reach-IsConsistent to_string c path).sound
        (reached-Attended c w path)

module _ (to_string : Address → Text) (servers clients udps : List (ℤ × Setup))
    (honoured : AllHonoured servers × AllHonoured clients × AllHonoured udps) where
  -- In every state that a node reaches from its constructor by requests and turns of the event
  -- loop, every connection has the handler that it waits for on the io_service, unless a turn took
  -- that handler for an operation that ended badly: a pending TCP connection its accept, or its
  -- connect with the socket open, an active TCP connection and a UDP connection their receive. An
  -- accept and the receive of a datagram end badly with an error, a receive on a TCP connection
  -- with an error other than end of file, a reset or an abort, or without an error where the
  -- socket has no peer any more. The operating system must bind the ports that it is asked for,
  -- and must not let an accept succeed once its acceptor is closed.
  pub no_connection_goes_deaf :
      (local resolved : Option Address) (s t : System Node)
      → construct to_string local resolved servers clients udps ≡ some (ok tt, s)
      → (path : Reach to_string s t) → AttendedBy (missing path ++ t.modem.handlers) t.modem
  no_connection_goes_deaf local resolved s t e path =
      reached-Attended to_string
        (construct-IsConsistent to_string servers clients udps honoured local resolved s e)
        (construct-keeps to_string (Attended [])
          (λ p _. (Attended-addition [] p, Attended-udp_addition [] p)) servers clients udps
          honoured first-Attended local resolved s e)
        path
