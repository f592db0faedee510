-- ===== src/Tests/Following.antt =====
-- The theorems of the client library on an interface with a stale UDP connection.
use ros_driver_modem.Prelude.{ℕ, ◌≡◌, refl, false, not, ◌&&◌, List, [], ◌∷◌, arith}
use ros_driver_modem.StdMap.{lookup}
use ros_driver_modem.Types.{Protocol, ok}
use ros_driver_modem.Topics.{rx_topic, tx_topic}
use ros_driver_modem.RosNode.{ActiveConnections}
use ros_driver_modem.ModemInterface.{
  ModemInterface, has_port, remove_duplicates, callback_active_connections,
}
use ros_driver_modem.ModemInterface.Differences.{remove_duplicates_lem}
use ros_driver_modem.ModemInterface.Following.{IsFollowing, callback-IsFollowing}

abbrev pub stale : ModemInterface
stale = record {
  pending_tcp_connections = [];
  active_tcp_connections = [];
  active_udp_connections = 7000 ∷ [];
  tcp_handles = record { senders = []; subscribers = []; actions = [] };
  udp_handles = record {
    senders = (7000, tx_topic Protocol.udp 7000) ∷ [];
    subscribers = (7000, rx_topic Protocol.udp 7000) ∷ [];
    actions = [];
  };
  callback_tcp_attached = false;
  callback_udp_attached = false;
  given = [];
}

pub stale-IsFollowing : IsFollowing stale
unfolding lookup has_port
stale-IsFollowing = record {
  tcp_follows = record { senders_at = λ p. refl; subscribers_at = λ p. refl };
  udp_follows = record { senders_at = λ p. ground arith; subscribers_at = λ p. ground arith };
  tcp_distinct = tt;
  udp_distinct = (refl, tt);
}

abbrev message : ActiveConnections
message = record { tcp_pending = []; tcp_active = 5000 ∷ []; udp_active = 6000 ∷ 7000 ∷ [] }

callback-IsFollowing_example :
    (let x = callback_active_connections message stale in
      (x.0 ≡ ok tt)
      × IsFollowing x.1
      × (x.1.pending_tcp_connections ≡ message.tcp_pending)
      × (x.1.active_tcp_connections ≡ message.tcp_active)
      × (x.1.active_udp_connections ≡ message.udp_active))
unfolding has_port
callback-IsFollowing_example =
    callback-IsFollowing message stale stale-IsFollowing (refl, tt) (refl, (refl, tt))

abbrev before : List ℕ
before = 5000 ∷ 6000 ∷ []

abbrev after : List ℕ
after = 6000 ∷ 7000 ∷ []

remove_duplicates_lem_example :
    (has_port 5000 (remove_duplicates before after).0
      ≡ (has_port 5000 before && not (has_port 5000 after)))
    × (has_port 5000 (remove_duplicates before after).1
        ≡ (has_port 5000 after && not (has_port 5000 before)))
unfolding has_port
remove_duplicates_lem_example =
    remove_duplicates_lem 5000 before after (refl, (refl, tt)) (refl, (refl, tt))
