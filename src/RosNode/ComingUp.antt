-- ===== src/RosNode/ComingUp.antt =====
-- ros_node::ros_node (src/ros_node.cpp) from the parameters of the node to the ports that it has
-- open once it is up.
use ros_driver_modem.Prelude.{
  ℕ, suc, ℤ, ◌≡◌, refl, ap, ◌∙◌, Bool, true, false, ◌||◌, Option, some, List, [], ◌∷◌, arith, ◌==◌,
}
use ros_driver_modem.StdMap.{contains}
use ros_driver_modem.Types.{as_port, Address, server, client, ok, Setup}
use ros_driver_modem.Modem.{System}
use ros_driver_modem.Topics.{Text, codes}
use ros_driver_modem.RosNode.{Node}
use ros_driver_modem.RosNode.Gaining.{has_bound}
use ros_driver_modem.RosNode.Configured.{opens, names, all_bound, started_ports, starts}
use ros_driver_modem.RosNode.Parameters.{Parameters, param, answered_by, ros_node}

-- Is the port in a list of parameters, each cast to uint16_t?
unfoldable pub is_listed : ℕ → List ℤ → Bool
is_listed p [] = false
is_listed p (port ∷ ports) = p == as_port port || is_listed p ports

module _ (answer : ℕ → Setup) where
  all_answered :
      ((n : ℕ) → has_bound (answer n) ≡ true)
      → (n : ℕ) (ports : List ℤ) → all_bound (answered_by answer n ports) ≡ true
  unfolding answered_by all_bound
  all_answered a n [] = refl
  all_answered a n (port ∷ ports) = rw (a n, all_answered a (suc n) ports) refl

  servers_listed :
      (p n : ℕ) (ports : List ℤ) → opens server p (answered_by answer n ports) ≡ is_listed p ports
  unfolding answered_by opens is_listed
  servers_listed p n [] = refl
  servers_listed p n (port ∷ ports) = ground (arith, servers_listed p (suc n) ports)

  names_listed :
      (p n : ℕ) (ports : List ℤ) → names p (answered_by answer n ports) ≡ is_listed p ports
  unfolding answered_by names is_listed
  names_listed p n [] = refl
  names_listed p n (port ∷ ports) = ground (arith, names_listed p (suc n) ports)

module _ (to_string : Address → Text) (from_string resolve : Text → Option Address)
    (opens_server opens_client opens_udp : ℕ → Setup) (parameters : Parameters)
    (ip remote : Address) where
  -- If the local address can be parsed and the remote host resolved, and the operating system
  -- binds every server port and every UDP port, then the constructor of the node returns without
  -- an exception, whatever becomes of its clients: the TCP connections that wait are those of the
  -- listed server ports and of the listed client ports that could be bound, the UDP connections
  -- are those of the listed UDP ports, each port cast to uint16_t, and no TCP connection is
  -- active.
  pub comes_up :
      from_string (param parameters.local_ip (codes "192.168.1.2")) ≡ some ip
      → resolve (param parameters.remote_host (codes "192.168.1.3")) ≡ some remote
      → ((n : ℕ) → has_bound (opens_server n) ≡ true)
      → ((n : ℕ) → has_bound (opens_udp n) ≡ true)
      → (t : System Node) × (ros_node to_string from_string resolve opens_server opens_client
            opens_udp parameters
          ≡ some (ok tt, t))
        × ((p : ℕ)
            → (contains p t.modem.tcp_pending ≡ (
                is_listed p (param parameters.tcp_server_ports [])
                || opens client p
                    (answered_by opens_client 0 (param parameters.tcp_client_ports []))))
              × (contains p t.modem.udp_active ≡ is_listed p (param parameters.udp_ports [])))
        × (t.modem.tcp_active ≡ [])
  unfolding ros_node
  comes_up l r a b =
      let servers = param parameters.tcp_server_ports [] in
      let clients = answered_by opens_client 0 (param parameters.tcp_client_ports []) in
      let udps = param parameters.udp_ports [] in
      let s = answered_by opens_server 0 servers in
      let u = answered_by opens_udp 0 udps in
      let (t, e) =
        starts to_string s clients u ip remote (all_answered opens_server a 0 servers)
          (all_answered opens_udp b 0 udps) in
      let has = λ (p : ℕ). started_ports to_string s clients u (some ip) (some remote) t p e in
      (
        t,
        rw (l, r) e,
        λ p. (
          (has p).0
              ∙ ap (λ b. b || opens client p clients) (servers_listed opens_server p 0 servers),
          (has p).1 ∙ names_listed opens_udp p 0 udps,
        ),
        (has 0).2,
      )
