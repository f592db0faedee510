-- ===== src/RosNode/UdpPorts.antt =====
-- The UDP ports that a node (src/ros_node.cpp) has open, as a set that its requests change: the map
-- m_udp_active of src/driver.h without its objects.
use ros_driver_modem.Prelude.{
  ℕ, ◌≡◌, refl, ap, ◌∙◌, Bool, true, false, none, some, arith, inl, inr, ◌==◌, ◌&&◌, ◌||◌, not,
  Option-cases,
}
use ros_driver_modem.StdMap.{lookup, contains}
use ros_driver_modem.StdMap.Laws.{lookup-insert_new, lookup-erase, lookup-contains}
use ros_driver_modem.Types.{
  Address, Protocol, protocol_of_byte, Setup, binds, fails_to_open, fails_after_open,
}
use ros_driver_modem.Modem.{Modem, System, on_modem}
use ros_driver_modem.Topics.{Text}
use ros_driver_modem.Driver
use ros_driver_modem.Driver.Invariant.{IsSound}
use ros_driver_modem.Driver.Keeping.{
  KeptByRequests, KeptByWrites, KeptByRemoval, KeptByConnection, KeptByAddition,
}
use ros_driver_modem.Driver.Removing.{remove_tcp_cases, remove_udp_cases}
use ros_driver_modem.Driver.RemovingAll.{remove_all_empties}
use ros_driver_modem.Driver.AdmittingUdp.{
  add_udp_existing, add_udp_new, add_udp_fails_to_open, add_udp_fails_after_open,
}
use ros_driver_modem.RosNode.{Node, remove_all_topics}
use ros_driver_modem.RosNode.Gaining.{has_bound}
use ros_driver_modem.RosNode.Keeping.{serve-keeps}
use ros_driver_modem.RosNode.Requests.{
  on_app, set_remote_host, add_udp_connection, remove_connection, remove_all_connections,
  service_set_remote_host, service_add_udp_connection, service_remove_connection,
  service_remove_all_connections,
}
use ros_driver_modem.RosNode.Reachable.{
  Request, set_host, add_tcp, add_udp, remove, remove_all, send_tcp, send_udp, turn, Admissible,
  serve, after_add_udp-modem, after_remove-modem,
}

abbrev pub is_open : ℕ → Modem → Bool
is_open q d = contains q d.udp_active

abbrev is_udp : Protocol → Bool
is_udp Protocol.udp = true
is_udp _ = false

-- Whether a port is open after a request, if it is before or not.
abbrev pub udp_after : Request → ℕ → Bool → Bool
udp_after (set_host none) q b = b
udp_after (set_host (some ip)) q b = false
udp_after (add_udp p setup) q b = b || (q == p && has_bound setup)
udp_after (remove byte p) q b = b && not (q == p && is_udp (protocol_of_byte byte))
udp_after remove_all q b = false
udp_after (add_tcp byte p setup) q b = b
udp_after (send_tcp p bytes sending) q b = b
udp_after (send_udp p bytes sending) q b = b
udp_after (turn n k) q b = b

-- What TCP connections do is no business of the map.
abbrev Opens : ℕ → Bool → Modem → Type 0
Opens q b d = is_open q d ≡ b

module _ (q : ℕ) (b : Bool) where
  Opens-requests : KeptByRequests (Opens q b)
  Opens-requests = record { sends = λ d ps w. w; readdress = λ d ip w. w }

  Opens-writes : KeptByWrites (Opens q b)
  Opens-writes = record {
    tcp_write = λ d i o _ _ w. w;
    udp_write = λ d i o _ w. w;
    queue = λ d ks w. w;
  }

  Opens-removal : {Q : ℕ → Type 0} → KeptByRemoval Q (Opens q b)
  Opens-removal = record { drop_pending = λ d p i _ _ _ w. w; drop_active = λ d p i _ _ _ w. w }

  Opens-connection : KeptByConnection (Opens q b)
  Opens-connection = record { connects = λ d p i _ _ w. w }

  Opens-addition : (p : ℕ) → KeptByAddition p (Opens q b)
  Opens-addition p = record { leaves = λ d o _ _ w. w; adds = λ d o k _ _ _ _ _ w. w }

module _ (q p : ℕ) (s : System Node) where
  added_udp :
      (setup : Setup)
      → is_open q (Driver.Adding.add_udp_connection p setup s).1.modem
        ≡ (is_open q s.modem || (q == p && has_bound setup))
  unfolding contains
  added_udp setup = elim (Option-cases (lookup p s.modem.udp_active)) [
    | inr (i, e) ↦
        rw (add_udp_existing p s setup (ground (arith, e)))
          (ground (arith, lookup-contains p i s.modem.udp_active e))
    | inl e ↦ by_setup setup e
  ]
    where
      by_setup :
          (setup : Setup)
          → lookup p s.modem.udp_active ≡ none
          → is_open q (Driver.Adding.add_udp_connection p setup s).1.modem
            ≡ (is_open q s.modem || (q == p && has_bound setup))
      by_setup fails_to_open e = rw (add_udp_fails_to_open p s e) (ground arith)
      by_setup fails_after_open e = rw (add_udp_fails_after_open p s e) (ground arith)
      by_setup (binds r) e =
          rw (add_udp_new p s r e)
            (ground (arith, lookup-insert_new q p s.modem.udp_count s.modem.udp_active e))

  removed :
      (type : Protocol)
      → is_open q (Driver.remove_connection type p s).1.modem
        ≡ (is_open q s.modem && not (q == p && is_udp type))
  unfolding Driver.remove_connection contains
  removed Protocol.tcp =
      remove_tcp_cases p s (λ t. is_open q t.modem ≡ (is_open q s.modem && not (q == p && false)))
        (λ i e. ground arith) (λ i e f. ground arith) (λ e f. ground arith)
  removed Protocol.udp =
      remove_udp_cases p s (λ t. is_open q t.modem ≡ (is_open q s.modem && not (q == p && true)))
        (λ i e. ground (arith, lookup-erase q p s.modem.udp_active)) (λ e. ground (arith, e))
  removed (Protocol.unknown c) = ground arith

none_open : (q : ℕ) (s : System Node) → is_open q (Driver.remove_all_connections s).modem ≡ false
unfolding contains lookup
none_open q s = rw (remove_all_empties s).2 refl

module _ (to_string : Address → Text) where
  -- The UDP connections of the driver refine a set of ports, whatever request the node serves in a
  -- sound state: adding a UDP connection at a port adds that port if the operating system binds
  -- it, and nothing else if not, a request to remove a connection takes the port out if its byte
  -- is that of UDP, a new remote host that resolves and the removal of all take every port out,
  -- and no other request, nor a turn of the event loop, changes the set. The operating system must
  -- bind the ports that it is asked for, and must not let an accept succeed once its acceptor is
  -- closed.
  pub serve-udp_ports :
      (r : Request) (s : System Node) (q : ℕ)
      → Admissible r s
      → IsSound s.modem
      → is_open q (serve to_string r s).modem ≡ udp_after r q (is_open q s.modem)
  unfolding serve service_set_remote_host service_add_udp_connection service_remove_connection
      service_remove_all_connections set_remote_host Driver.set_remote_host remove_all_connections
      add_udp_connection remove_connection
  serve-udp_ports (set_host none) s q h v = refl
  serve-udp_ports (set_host (some ip)) s q h v =
      none_open q (on_modem (λ d. record d { remote_ip = ip }) s)
  serve-udp_ports (add_udp p setup) s q h v =
      ap (is_open q) (after_add_udp-modem p true _) ∙ added_udp q p s setup
  serve-udp_ports (remove byte p) s q h v =
      ap (is_open q) (after_remove-modem (protocol_of_byte byte) p _)
      ∙ removed q p s (protocol_of_byte byte)
  serve-udp_ports remove_all s q h v = none_open q (on_app remove_all_topics s)
  serve-udp_ports (add_tcp byte p setup) s q h v =
      let b = is_open q s.modem in
      serve-keeps to_string (Opens-requests q b) (add_tcp byte p setup) s (Opens-addition q b p) h v
        refl
  serve-udp_ports (send_tcp p bytes sending) s q h v =
      let b = is_open q s.modem in
      serve-keeps to_string (Opens-requests q b) (send_tcp p bytes sending) s (Opens-removal q b) h
        v refl
  serve-udp_ports (send_udp p bytes sending) s q h v =
      let b = is_open q s.modem in
      serve-keeps to_string (Opens-requests q b) (send_udp p bytes sending) s tt h v refl
  serve-udp_ports (turn n k) s q h v =
      let b = is_open q s.modem in
      serve-keeps to_string (Opens-requests q b) (turn n k) s
        (Opens-removal q b, Opens-connection q b, Opens-writes q b) h v refl
