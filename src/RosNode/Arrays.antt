-- ===== src/RosNode/Arrays.antt =====
-- The arrays that the receive handlers of src/tcp_connection.cpp and src/udp_connection.cpp give to
-- the callback that is attached to a driver (src/driver.cpp).
use ros_driver_modem.Prelude.{
  ℕ, ◌≤◌, ◌≡◌, List, [], ◌∷◌, arith, length, take, length-take_le, ◌%◌, ◌^◌, inl, inr, Bool-cases,
}
use ros_driver_modem.Types.{no_error}
use ros_driver_modem.Modem.{receive, receive_from, Modem, System, Client}
use ros_driver_modem.TcpConnection
use ros_driver_modem.TcpConnection.Closing.{update_self}
use ros_driver_modem.UdpConnection
use ros_driver_modem.EventLoop.{Completion, received, received_from, run_handler}
use ros_driver_modem.RosNode.Delivery.{
  run_handler-receive, run_handler-lost, run_handler-receive_from,
}

-- A client that keeps each array with the count that it is given of it.
abbrev pub keeper : Client (List (ℕ × List ℕ))
keeper = record {
  connected_callback = λ port d given. given;
  disconnected_callback = λ port d given. given;
  rx_callback = λ type port bytes count source d given. (count, bytes) ∷ given;
}

abbrev pub nothing_given : Modem → System (List (ℕ × List ℕ))
nothing_given d = record { modem = d; app = [] }

-- Each count is within its array, and each array within a buffer.
abbrev pub Within : ℕ → List (ℕ × List ℕ) → Type 0
Within size [] = Unit {0}
Within size ((count, bytes) ∷ given) =
    (count ≤ length bytes) × (length bytes ≤ size) × Within size given

count_within : (n : ℕ) → n % 2 ^ 32 ≤ n
count_within n = omega arith

module _ (k : Completion) (fine : k.error ≡ no_error) (i : ℕ) (d : Modem) where
  abbrev start : System (List (ℕ × List ℕ))
  start = nothing_given d

  arrived : (size : ℕ) → Within size ((length (take size k.bytes) % 2 ^ 32, take size k.bytes) ∷ [])
  arrived size = (count_within (length (take size k.bytes)), length-take_le size k.bytes, tt)

  pub receive-Within :
      Within (d.tcp_heap i).buffer_size (run_handler keeper (receive i) k start).1.app
  unfolding run_handler received TcpConnection.rx_callback TcpConnection.receive_result
      TcpConnection.deliver TcpConnection.async_rx
  receive-Within = elim (Bool-cases (d.tcp_heap i).socket_open) [
    | inr closed ↦ simp (fine, update_self, closed) tt
    | inl open_socket ↦ elim (Bool-cases (d.tcp_heap i).has_rx) [
      | inr detached ↦ simp (fine, update_self, open_socket, detached) tt
      | inl attached ↦ elim (Bool-cases k.has_peer) [
        | inl there ↦
            rw (run_handler-receive keeper k fine i start open_socket attached there)
              (arrived (d.tcp_heap i).buffer_size)
        | inr gone ↦ rw (run_handler-lost keeper k fine i start open_socket attached gone, fine) tt
      ]
    ]
  ]

  pub receive_from-Within :
      Within (d.udp_heap i).buffer_size (run_handler keeper (receive_from i) k start).1.app
  unfolding run_handler received_from UdpConnection.rx_callback UdpConnection.deliver
      UdpConnection.async_rx
  receive_from-Within = elim (Bool-cases (d.udp_heap i).has_rx) [
    | inr detached ↦ simp (fine, update_self, detached) tt
    | inl attached ↦ elim (Bool-cases (d.udp_heap i).socket_open) [
      | inr closed ↦ simp (fine, update_self, attached, closed) tt
      | inl open_socket ↦
          rw (run_handler-receive_from keeper k fine i start open_socket attached)
            (arrived (d.udp_heap i).buffer_size)
    ]
  ]
