-- ===== src/RosNode/Handling.antt =====
-- One turn of the event loop, against the consistency of the node (src/ros_node.cpp).
use ros_driver_modem.Prelude.{
  Bool, ℕ, ◌≡◌, ◌≢◌, ap, refl, true, inl, inr, ◌&&◌, Bool-cases, Option-cases,
}
use ros_driver_modem.Types.{
  Address, Protocol, ErrorCode, no_error, eof, connection_reset, connection_aborted,
  operation_aborted, broken_pipe, other_error, disconnected,
}
use ros_driver_modem.Modem.{Handler, accept, connect, receive, receive_from, System, Hooks}
use ros_driver_modem.Topics.{Text}
use ros_driver_modem.TcpConnection.{
  object, is_error, async_accept, async_rx, accept_callback, connect_callback, receive_result,
  rx_callback,
}
use ros_driver_modem.TcpConnection.Receiving.{receive_cases}
use ros_driver_modem.UdpConnection
use ros_driver_modem.UdpConnection.{is_no_error}
use ros_driver_modem.Driver.Callbacks.{hooks}
use ros_driver_modem.Driver.Quiet.{QuietAt, QuietHandler, Quiet-pick}
use ros_driver_modem.Driver.Invariant.{IsSound}
use ros_driver_modem.Driver.Connecting.{queue-IsSound}
use ros_driver_modem.EventLoop.{
  Completion, accepted, received, received_from, pick, run_handler, run_one,
}
use ros_driver_modem.EventLoop.Handlers.{not_disconnected}
use ros_driver_modem.EventLoop.Sound.{
  Cancels, Timely, accepted-IsSound, received-IsSound, received_from-IsSound,
}
use ros_driver_modem.RosNode.{Node, callbacks}
use ros_driver_modem.RosNode.Tables.{callback_rx_tables, callback_rx-latched, latched}
use ros_driver_modem.RosNode.Tracking.{
  Tracks, SameView, SameView-Tracks, disconnected-Tracks, connected-Tracks,
}

-- Writes to the heap, to the queue and to the log leave the view as it is.
pub same_view :
    {s t : System Node}
    → t.app ≡ s.app
    → t.modem.tcp_pending ≡ s.modem.tcp_pending
    → t.modem.tcp_active ≡ s.modem.tcp_active
    → t.modem.udp_active ≡ s.modem.udp_active
    → SameView s t
same_view a b c d = record {
  same_pending = b;
  same_active = c;
  same_udp = d;
  same_tables =
      (ap (λ n. n.tcp_rx) a, ap (λ n. n.tcp_tx) a, ap (λ n. n.udp_rx) a, ap (λ n. n.udp_tx) a);
  same_latched = ap (λ n. latched n.output) a;
}

module _ (to_string : Address → Text) (i : ℕ) (s : System Node) (v : IsSound s.modem)
    (w : Tracks s) where
  abbrev node_hooks : Hooks (System Node)
  node_hooks = hooks (callbacks to_string)

  connect-Tracks :
      (error : ErrorCode)
      → QuietAt s.modem.tcp_count (object i s) i
      → Tracks (connect_callback node_hooks i error s)
  unfolding connect_callback async_rx
  connect-Tracks error q = elim (Bool-cases (object i s).socket_open) [
    | inr closed ↦ rw closed w
    | inl open_socket ↦ elim (Bool-cases (is_error error)) [
      | inl failed ↦ rw (open_socket, failed) (disconnected-Tracks to_string i s v w)
      | inr fine ↦
          let ne = not_disconnected (callbacks to_string) i s v q open_socket in
          rw (open_socket, fine)
            (SameView-Tracks (same_view refl refl refl refl)
              (connected-Tracks to_string i s v w ne))
    ]
  ]

  accept-Tracks :
      (error : ErrorCode)
      → ((object i s).socket_open ≡ true → (object i s).status ≢ disconnected)
      → Tracks (accept_callback node_hooks i error s)
  unfolding accept_callback async_accept async_rx
  accept-Tracks error ne = elim (Bool-cases (object i s).socket_open) [
    | inr closed ↦ rw closed w
    | inl open_socket ↦ elim (Bool-cases (is_error error)) [
      | inl failed ↦ rw (open_socket, failed) (SameView-Tracks (same_view refl refl refl refl) w)
      | inr fine ↦
          rw (open_socket, fine)
            (SameView-Tracks (same_view refl refl refl refl)
              (connected-Tracks to_string i s v w (ne open_socket)))
    ]
  ]

  rx-Tracks :
      (error : ErrorCode) (n : ℕ) (has_peer : Bool)
      → Tracks (rx_callback node_hooks i error n has_peer s).1
  unfolding rx_callback receive_result async_rx
  rx-Tracks error n has_peer = elim (Bool-cases (object i s).socket_open) [
    | inr closed ↦ rw closed w
    | inl open_socket ↦ rw open_socket (by_error error)
  ]
    where
      by_error : (e : ErrorCode) → Tracks (receive_result node_hooks i e n has_peer s).1
      by_error no_error =
          receive_cases node_hooks i n has_peer s (λ x. Tracks x.1)
            (λ _ _.
              SameView-Tracks
                (record {
                  same_pending = refl;
                  same_active = refl;
                  same_udp = refl;
                  same_tables = callback_rx_tables to_string Protocol.tcp _ _ _ _ s.app;
                  same_latched = callback_rx-latched to_string Protocol.tcp _ _ _ _ s.app;
                })
                w)
            (λ _. SameView-Tracks (same_view refl refl refl refl) w) (λ _ _. w)
      by_error eof = disconnected-Tracks to_string i s v w
      by_error connection_reset = disconnected-Tracks to_string i s v w
      by_error connection_aborted = disconnected-Tracks to_string i s v w
      by_error operation_aborted = w
      by_error broken_pipe = w
      by_error (other_error e) = w

  udp_rx-Tracks :
      (error : ErrorCode) (n : ℕ) → Tracks (UdpConnection.rx_callback node_hooks i error n s).1
  unfolding UdpConnection.rx_callback UdpConnection.deliver UdpConnection.async_rx
  udp_rx-Tracks error n =
      elim (Bool-cases (is_no_error error && (UdpConnection.object i s).has_rx)) [
        | inr no_data ↦ elim (Bool-cases (UdpConnection.is_aborted error)) [
          | inl aborted ↦ rw (no_data, aborted) w
          | inr other ↦ rw (no_data, other) w
        ]
        | inl arrived ↦ elim (Bool-cases (UdpConnection.object i s).socket_open) [
          | inr closed ↦ rw (arrived, closed) w
          | inl open_socket ↦
              rw (arrived, open_socket)
                (SameView-Tracks
                  (record {
                    same_pending = refl;
                    same_active = refl;
                    same_udp = refl;
                    same_tables = callback_rx_tables to_string Protocol.udp _ _ _ _ s.app;
                    same_latched = callback_rx-latched to_string Protocol.udp _ _ _ _ s.app;
                  })
                  w)
        ]
      ]

module _ (to_string : Address → Text) (k : Completion) (s : System Node) (v : IsSound s.modem)
    (w : Tracks s) where
  -- What an operation does before its handler leaves the view as it is.
  accepted-view : (i : ℕ) → SameView s (accepted i k s)
  unfolding accepted
  accepted-view i = elim (Bool-cases (is_no_error k.error)) [
    | inl fine ↦ rw fine (same_view refl refl refl refl)
    | inr failed ↦ rw failed (same_view refl refl refl refl)
  ]

  received-view : (i : ℕ) → SameView s (received i k s)
  unfolding received
  received-view i = elim (Bool-cases (is_no_error k.error)) [
    | inl fine ↦ rw fine (same_view refl refl refl refl)
    | inr failed ↦ rw failed (same_view refl refl refl refl)
  ]

  received_from-view : (i : ℕ) → SameView s (received_from i k s)
  unfolding received_from
  received_from-view i = elim (Bool-cases (is_no_error k.error)) [
    | inl fine ↦ rw fine (same_view refl refl refl refl)
    | inr failed ↦ rw failed (same_view refl refl refl refl)
  ]

  run_handler-Tracks :
      (h : Handler)
      → QuietHandler s.modem.tcp_heap s.modem.tcp_count h
      → Cancels h k s.modem.tcp_heap
      → Tracks (run_handler (callbacks to_string) h k s).1
  unfolding run_handler
  run_handler-Tracks (accept i) q c =
      let (a, b, d) = accepted-IsSound (callbacks to_string) k s v i q c in
      accept-Tracks to_string i (accepted i k s) a (SameView-Tracks (accepted-view i) w) k.error d
  run_handler-Tracks (connect i) q c = connect-Tracks to_string i s v w k.error q
  run_handler-Tracks (receive i) q c =
      let (a, b) = received-IsSound (callbacks to_string) k s v i q in
      rx-Tracks to_string i (received i k s) a (SameView-Tracks (received-view i) w) k.error _
        k.has_peer
  run_handler-Tracks (receive_from i) q c =
      udp_rx-Tracks to_string i (received_from i k s)
        (received_from-IsSound (callbacks to_string) k s v i)
        (SameView-Tracks (received_from-view i) w) k.error _

pub run_one-Tracks :
    (to_string : Address → Text) (n : ℕ) (k : Completion) (s : System Node)
    → Timely n k s
    → IsSound s.modem
    → Tracks s
    → Tracks (run_one (callbacks to_string) n k s).1
unfolding run_one
run_one-Tracks to_string n k s c v w = elim (Option-cases (pick n s.modem.handlers)) [
  | inl nothing ↦ rw (nothing, run_one) w
  | inr ((h, rest), e) ↦
      let (here, others) =
        Quiet-pick s.modem.tcp_heap s.modem.tcp_count n s.modem.handlers h rest e v.quiet in
      rw (e, run_one)
        (run_handler-Tracks to_string k _ (queue-IsSound v rest others)
          (SameView-Tracks (same_view refl refl refl refl) w) h here (c h rest e))
]
