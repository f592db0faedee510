-- ===== src/RosNode/Changes.antt =====
-- The topics of src/ros_node.cpp as the maps of the driver change.
use ros_driver_modem.Prelude.{ℕ, ◌≡◌, ◌∙◌, subst, sym, refl, none, arith}
use ros_driver_modem.StdMap.{Map, lookup, contains, insert, erase}
use ros_driver_modem.StdMap.Laws.{lookup-insert, lookup-erase}
use ros_driver_modem.Types.{Protocol}
use ros_driver_modem.Modem.{Modem}
use ros_driver_modem.Topics.{Text, rx_topic, tx_topic}
use ros_driver_modem.RosNode.{
  Node, add_connection_topics, remove_connection_topics, publish_active_connections,
}
use ros_driver_modem.RosNode.Tables.{
  HasTables, add_tcp_tables, add_udp_tables, remove_tcp_tables, remove_udp_tables, publish_tables,
}
use ros_driver_modem.RosNode.Agreement.{Mirrors, Agrees}

module _ {m : Map Text} {name : ℕ → Text} {active : Map ℕ} (h : Mirrors m name active) (p : ℕ) where
  pub erase-Mirrors : Mirrors (erase p m) name (erase p active)
  unfolding contains
  erase-Mirrors = record {
    at_port = λ q. ground (arith, h.at_port q, lookup-erase q p m, lookup-erase q p active);
  }

  pub insert-Mirrors : (i : ℕ) → Mirrors (insert p (name p) m) name (insert p i active)
  unfolding contains
  insert-Mirrors i = record {
    at_port = λ q.
        ground (
          arith,
          h.at_port q,
          h.at_port p,
          lookup-insert q p (name p) m,
          lookup-insert q p i active,
        );
  }

  -- Erasing a port that is not active.
  pub erase_absent-Mirrors : lookup p active ≡ none → Mirrors (erase p m) name active
  unfolding contains
  erase_absent-Mirrors e = record {
    at_port = λ q. ground (arith, h.at_port q, h.at_port p, lookup-erase q p m);
  }

-- The agreement is one of the four maps with the driver's two.
pub tables_agree :
    {d : Modem} {n : Node} {a b c e : Map Text}
    → HasTables n a b c e
    → Mirrors a (rx_topic Protocol.tcp) d.tcp_active
    → Mirrors b (tx_topic Protocol.tcp) d.tcp_active
    → Mirrors c (rx_topic Protocol.udp) d.udp_active
    → Mirrors e (tx_topic Protocol.udp) d.udp_active
    → Agrees d n
tables_agree {d} {n} h a b c e = record {
  tcp_rx_at = subst (λ m. Mirrors m (rx_topic Protocol.tcp) d.tcp_active) (sym h.0) a;
  tcp_tx_at = subst (λ m. Mirrors m (tx_topic Protocol.tcp) d.tcp_active) (sym h.1) b;
  udp_rx_at = subst (λ m. Mirrors m (rx_topic Protocol.udp) d.udp_active) (sym h.2) c;
  udp_tx_at = subst (λ m. Mirrors m (tx_topic Protocol.udp) d.udp_active) (sym h.3) e;
}

-- The tables of a node are unchanged by publishing.
pub published_tables :
    (d : Modem) (n : Node) {a b c e : Map Text}
    → HasTables n a b c e
    → HasTables (publish_active_connections d n) a b c e
published_tables d n h = let t = publish_tables d n in (t.0 ∙ h.0, t.1 ∙ h.1, t.2 ∙ h.2, t.3 ∙ h.3)

module _ {d d' : Modem} {n : Node} (a : Agrees d n) (p : ℕ) where
  -- A TCP connection that becomes active, with its topics.
  pub Agrees-add_tcp :
      (i : ℕ)
      → d'.tcp_active ≡ insert p i d.tcp_active
      → d'.udp_active ≡ d.udp_active
      → Agrees d' (add_connection_topics Protocol.tcp p n)
  Agrees-add_tcp i e f =
      tables_agree (add_tcp_tables p n) (rw e (insert-Mirrors a.tcp_rx_at p i))
        (rw e (insert-Mirrors a.tcp_tx_at p i)) (rw f a.udp_rx_at) (rw f a.udp_tx_at)

  pub Agrees-add_udp :
      (i : ℕ)
      → d'.tcp_active ≡ d.tcp_active
      → d'.udp_active ≡ insert p i d.udp_active
      → Agrees d' (add_connection_topics Protocol.udp p n)
  Agrees-add_udp i e f =
      tables_agree (add_udp_tables p n) (rw e a.tcp_rx_at) (rw e a.tcp_tx_at)
        (rw f (insert-Mirrors a.udp_rx_at p i)) (rw f (insert-Mirrors a.udp_tx_at p i))

  -- One that leaves, with its topics.
  pub Agrees-remove_tcp :
      d'.tcp_active ≡ erase p d.tcp_active
      → d'.udp_active ≡ d.udp_active
      → Agrees d' (remove_connection_topics Protocol.tcp p n)
  Agrees-remove_tcp e f =
      tables_agree (remove_tcp_tables p n) (rw e (erase-Mirrors a.tcp_rx_at p))
        (rw e (erase-Mirrors a.tcp_tx_at p)) (rw f a.udp_rx_at) (rw f a.udp_tx_at)

  pub Agrees-remove_udp :
      d'.tcp_active ≡ d.tcp_active
      → d'.udp_active ≡ erase p d.udp_active
      → Agrees d' (remove_connection_topics Protocol.udp p n)
  Agrees-remove_udp e f =
      tables_agree (remove_udp_tables p n) (rw e a.tcp_rx_at) (rw e a.tcp_tx_at)
        (rw f (erase-Mirrors a.udp_rx_at p)) (rw f (erase-Mirrors a.udp_tx_at p))

-- Other nodes with the same tables, over drivers with the same active maps.
pub Agrees-same :
    {d d' : Modem} {n n' : Node}
    → Agrees d n
    → HasTables n' n.tcp_rx n.tcp_tx n.udp_rx n.udp_tx
    → d'.tcp_active ≡ d.tcp_active
    → d'.udp_active ≡ d.udp_active
    → Agrees d' n'
Agrees-same a h e f =
    tables_agree h (rw e a.tcp_rx_at) (rw e a.tcp_tx_at) (rw f a.udp_rx_at) (rw f a.udp_tx_at)

pub publish-Agrees :
    {d : Modem} {n : Node} (e : Modem) → Agrees d n → Agrees d (publish_active_connections e n)
publish-Agrees {d} {n} e a = Agrees-same {d' = d} a (publish_tables e n) refl refl
