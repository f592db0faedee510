-- ===== src/ModemInterface/Release.antt =====
-- What the destructor of src/modem_interface.cpp has shut once it is done.
use ros_driver_modem.Prelude.{ℕ, ◌+◌, ◌≡◌, refl, Bool, List, [], ◌∷◌, arith}
use ros_driver_modem.StdMap.{Map, lookup, keys}
use ros_driver_modem.StdMap.Counting.{count}
use ros_driver_modem.Types.{Protocol, ok}
use ros_driver_modem.Topics.{Text}
use ros_driver_modem.RosNode.{ActiveConnections}
use ros_driver_modem.ModemInterface.{
  Action, shuts_down, Handles, ModemInterface, has_port, and_then, callback_active_connections,
}
use ros_driver_modem.ModemInterface.Differences.{Distinct}
use ros_driver_modem.ModemInterface.Handling.{and_then-ok}
use ros_driver_modem.ModemInterface.Following.{
  IsFollowing, change_handles_lem, callback-IsFollowing,
}
use ros_driver_modem.ModemInterface.Balance.{opened, shut, IsBalanced, change_handles-IsBalanced}
use ros_driver_modem.ModemInterface.Lifetime.{
  Session, construct, shut_each, close_handles, destroy, handle_all,
}

pub construct-IsFollowing : IsFollowing construct.interface
unfolding construct lookup has_port
construct-IsFollowing = record {
  tcp_follows = record { senders_at = λ p. refl; subscribers_at = λ p. refl };
  udp_follows = record { senders_at = λ p. refl; subscribers_at = λ p. refl };
  tcp_distinct = tt;
  udp_distinct = tt;
}

-- No list of active connections has a repetition.
abbrev pub AllDistinct : List ActiveConnections → Type 0
AllDistinct [] = Unit {0}
AllDistinct (message ∷ messages) =
    Distinct message.tcp_active × Distinct message.udp_active × AllDistinct messages

module _ (q : Text → Bool) where
  abbrev pub opened_by : Session → ℕ
  opened_by s =
      opened q s.actions
      + (opened q s.interface.tcp_handles.actions + opened q s.interface.udp_handles.actions)

  abbrev pub shut_by : Session → ℕ
  shut_by s =
      shut q s.actions
      + (shut q s.interface.tcp_handles.actions + shut q s.interface.udp_handles.actions)

  opened-shut_each :
      (m : Map Text) (actions : List Action) → opened q (shut_each m actions) ≡ opened q actions
  unfolding opened shut_each
  opened-shut_each [] actions = refl
  opened-shut_each ((_, name) ∷ m) actions = opened-shut_each m _

  shut-shut_each :
      (m : Map Text) (actions : List Action)
      → shut q (shut_each m actions) ≡ count q m + shut q actions
  unfolding shut shut_each count
  shut-shut_each [] actions = omega arith
  shut-shut_each ((_, name) ∷ m) actions =
      ground (arith, shut-shut_each m (shuts_down name ∷ actions))

  -- Once the handles of the maps are shut, all are.
  close_handles_lem :
      (h : Handles)
      → IsBalanced q h
      → opened q (close_handles h).actions ≡ shut q (close_handles h).actions
  close_handles_lem h b =
      let senders = shut_each h.senders h.actions in
      ground (
        arith,
        b.balance,
        opened-shut_each h.subscribers senders,
        opened-shut_each h.senders h.actions,
        shut-shut_each h.subscribers senders,
        shut-shut_each h.senders h.actions,
      )

  abbrev BothBalanced : ModemInterface → Type 0
  BothBalanced m = IsBalanced q m.tcp_handles × IsBalanced q m.udp_handles

  construct-BothBalanced : BothBalanced construct.interface
  unfolding construct opened shut count keys
  construct-BothBalanced = (
    record { balance = refl; senders_sorted = tt; subscribers_sorted = tt },
    record { balance = refl; senders_sorted = tt; subscribers_sorted = tt },
  )

  callback-BothBalanced :
      (message : ActiveConnections) (m : ModemInterface)
      → IsFollowing m
      → Distinct message.tcp_active
      → Distinct message.udp_active
      → BothBalanced m
      → BothBalanced (callback_active_connections message m).1
  unfolding callback_active_connections
  callback-BothBalanced message m f d e b =
      let t =
        change_handles_lem Protocol.tcp m.active_tcp_connections message.tcp_active m.tcp_handles
          f.tcp_follows f.tcp_distinct d in
      let u =
        change_handles_lem Protocol.udp m.active_udp_connections message.udp_active m.udp_handles
          f.udp_follows f.udp_distinct e in
      rw (t.0, u.0, and_then)
        (
          change_handles-IsBalanced q Protocol.tcp m.active_tcp_connections message.tcp_active
              m.tcp_handles f.tcp_follows f.tcp_distinct d b.0,
          change_handles-IsBalanced q Protocol.udp m.active_udp_connections message.udp_active
              m.udp_handles f.udp_follows f.udp_distinct e b.1,
        )

  handle_all-BothBalanced :
      (messages : List ActiveConnections) (m : ModemInterface)
      → AllDistinct messages
      → IsFollowing m
      → BothBalanced m
      → ((handle_all messages m).0 ≡ ok tt) × BothBalanced (handle_all messages m).1
  unfolding handle_all
  handle_all-BothBalanced [] m d f b = (refl, b)
  handle_all-BothBalanced (message ∷ messages) m d f b =
      let (r, m1) = callback_active_connections message m in
      let (done, follows, _, _, _) = callback-IsFollowing message m f d.0 d.1 in
      rw (and_then-ok r m1 (handle_all messages m1) done) (
        handle_all-BothBalanced messages m1 d.2 follows
          (callback-BothBalanced message m f d.0 d.1 b))

  abbrev session : ModemInterface → Session
  session m = record construct { interface = m }

  own_handles :
      (m : ModemInterface)
      → opened q (destroy (session m)).actions ≡ shut q (destroy (session m)).actions
  unfolding destroy opened shut construct
  own_handles m = refl

  destroy-handles :
      (m : ModemInterface)
      → BothBalanced m
      → opened_by (destroy (session m)) ≡ shut_by (destroy (session m))
  unfolding destroy
  destroy-handles m b = ground (
    arith,
    own_handles m,
    close_handles_lem m.tcp_handles b.0,
    close_handles_lem m.udp_handles b.1,
  )

  -- An interface that is constructed, handles any messages whose lists of active connections have
  -- no repetition, and is destroyed, throws nothing, and has shut as many handles as it has opened
  -- under the names of any set of names.
  pub every_handle_is_shut :
      (messages : List ActiveConnections)
      → AllDistinct messages
      → (let x = handle_all messages construct.interface in
          let s = destroy (record construct { interface = x.1 }) in
          (x.0 ≡ ok tt) × (opened_by s ≡ shut_by s))
  every_handle_is_shut messages d =
      let (done, b) =
        handle_all-BothBalanced messages construct.interface d construct-IsFollowing
          construct-BothBalanced in
      (done, destroy-handles _ b)
