-- ===== src/Driver/Quiet.antt =====
-- The handlers of src/tcp_connection.cpp that are still queued when their object is disconnected:
-- they are to find both of its sockets closed.
use ros_driver_modem.Prelude.{
  ℕ, zero, suc, subst, inl, inr, Option-cases, ◌<◌, ◌≡◌, false, some, List, [], ◌∷◌, ◌++◌, arith,
  update,
}
use ros_driver_modem.Types.{disconnected}
use ros_driver_modem.Modem.{TcpConnection, Handler, accept, connect, receive, receive_from}
use ros_driver_modem.EventLoop.{pick}

abbrev pub IsClosed : TcpConnection → Type 0
IsClosed c = (c.socket_open ≡ false) × (c.acceptor_open ≡ false)

abbrev pub QuietAt : ℕ → TcpConnection → ℕ → Type 0
QuietAt n c i = (i < n) × (c.status ≡ disconnected → IsClosed c)

module _ (h : ℕ → TcpConnection) (n : ℕ) where
  abbrev pub QuietHandler : Handler → Type 0
  QuietHandler (accept i) = QuietAt n (h i) i
  QuietHandler (connect i) = QuietAt n (h i) i
  QuietHandler (receive i) = QuietAt n (h i) i
  QuietHandler (receive_from i) = Unit {0}

  abbrev pub Quiet : List Handler → Type 0
  Quiet [] = Unit {0}
  Quiet (k ∷ ks) = QuietHandler k × Quiet ks

  pub Quiet-post :
      (ks : List Handler) (k : Handler) → Quiet ks → QuietHandler k → Quiet (ks ++ k ∷ [])
  Quiet-post [] k q r = (r, tt)
  Quiet-post (j ∷ ks) k q r = (q.0, Quiet-post ks k q.1 r)

  QuietParts :
      (j : Handler) (js : List Handler) (k : Handler) (ks : List Handler)
      → QuietHandler j × Quiet js
      → j ≡ k
      → js ≡ ks
      → QuietHandler k × Quiet ks
  QuietParts j js k ks q e f = (subst QuietHandler e q.0, subst Quiet f q.1)

  -- Taking a handler out of the queue.
  pub Quiet-pick :
      (m : ℕ) (ks : List Handler) (k : Handler) (rest : List Handler)
      → pick m ks ≡ some (k, rest)
      → Quiet ks
      → QuietHandler k × Quiet rest
  unfolding pick
  Quiet-pick m [] k rest e q = cc
  Quiet-pick zero (j ∷ ks) k rest e q = QuietParts j ks k rest q (ground arith) (ground arith)
  Quiet-pick (suc m) (j ∷ ks) k rest e q = elim (Option-cases (pick m ks)) [
    | inl none_left ↦ ground arith
    | inr ((k', rest'), f) ↦
        let ih = Quiet-pick m ks k' rest' f q.1 in
        QuietParts k' (j ∷ rest') k rest (ih.0, (q.0, ih.1)) (ground arith) (ground arith)
  ]

module _ (h : ℕ → TcpConnection) (n : ℕ) (i : ℕ) (o : TcpConnection) where
  QuietHandler-update :
      (k : Handler)
      → (o.status ≡ disconnected → IsClosed o)
      → QuietHandler h n k
      → QuietHandler (update h i o) n k
  unfolding update
  QuietHandler-update (accept j) f q = ground (arith, f)
  QuietHandler-update (connect j) f q = ground (arith, f)
  QuietHandler-update (receive j) f q = ground (arith, f)
  QuietHandler-update (receive_from j) f q = tt

  -- A write to an object that is closed if it is disconnected.
  pub Quiet-update :
      (ks : List Handler)
      → (o.status ≡ disconnected → IsClosed o)
      → Quiet h n ks
      → Quiet (update h i o) n ks
  Quiet-update [] f q = tt
  Quiet-update (k ∷ ks) f q = (QuietHandler-update k f q.0, Quiet-update ks f q.1)

module _ (h : ℕ → TcpConnection) (n : ℕ) (o : TcpConnection) where
  QuietHandler-fresh : (k : Handler) → QuietHandler h n k → QuietHandler (update h n o) (suc n) k
  unfolding update
  QuietHandler-fresh (accept j) q = ground (arith, q.1)
  QuietHandler-fresh (connect j) q = ground (arith, q.1)
  QuietHandler-fresh (receive j) q = ground (arith, q.1)
  QuietHandler-fresh (receive_from j) q = tt

  -- A new object has no handlers yet.
  pub Quiet-fresh : (ks : List Handler) → Quiet h n ks → Quiet (update h n o) (suc n) ks
  Quiet-fresh [] q = tt
  Quiet-fresh (k ∷ ks) q = (QuietHandler-fresh k q.0, Quiet-fresh ks q.1)
