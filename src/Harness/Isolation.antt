-- ===== src/Harness/Isolation.antt =====
-- raft/config.go: a peer that is disconnected gets no request and no reply.
use m2i8t.Prelude.{
  ℕ, ◌+◌, ◌≤◌, ◌<◌, ◌≡◌, refl, sym, ◌≢◌, ◌⊎◌, inl, inr, false, some, List, arith, length, set, ok,
  store-eq, eq_nat, eq_string,
}
use m2i8t.Labrpc.Network.{ReqMsg, Network}
use m2i8t.Labrpc.Request.{Tick, process_req}
use m2i8t.Harness.Ends.{
  EndNames, all_from, Among, OnlyEnabled, length-all_from, all_from-Among, Among-all_from,
}
use m2i8t.Harness.Kv.{outgoing, incoming, outgoing_if}
use m2i8t.Harness.Wiring.{IsNamed, Link, all-IsRead, named, links-Sets}
use m2i8t.Labrpc.Delivery.{disabled-process_req}
use m2i8t.Harness.Peers.{RaftConfig, incoming_if_named, disconnect_peer}

-- An end between two other servers is none of the server's.
not_linked :
    (names : EndNames) (n : ℕ) (w : IsNamed names n) (i x y : ℕ) (xs : List ℕ)
    → i < n
    → x < n
    → y < n
    → ((z : ℕ) → Among z xs → z < n)
    → x ≢ i
    → y ≢ i
    → ¬ Link names n w i xs (w.name x y)
not_linked names n w i x y xs l lx ly inside nx ny (inl (z, a, e)) =
    let (same, _) = w.apart i z x y l (inside z a) lx ly e in nx (sym same)
not_linked names n w i x y xs l lx ly inside nx ny (inr (z, a, e)) =
    let (_, same) = w.apart z i x y (inside z a) l lx ly e in ny (sym same)

module _ {C Args Reply State : Type 0} where
  -- No request from or to the peer gets a reply; the ends between the others are as they were, and so is
  -- all else but the mark that the peer is connected.
  pub record Isolated (i : ℕ) (cfg cfg' : RaftConfig C Args Reply State)
      (w : IsNamed cfg.endnames cfg.n) : Type 0 where
    pub no_reply :
        (x : ℕ) (req : ReqMsg Args) (draw draw' : ℕ) (ticks : List (Tick Args Reply State))
        (rn : Network Args Reply State) (r : Reply)
        → x < cfg.n
        → (req.endname ≡ w.name i x) ⊎ (req.endname ≡ w.name x i)
        → process_req draw draw' req cfg'.net ticks rn ≢ some (some r)
    pub others :
        (a b : ℕ)
        → a < cfg.n
        → b < cfg.n
        → a ≢ i
        → b ≢ i
        → cfg'.net.enabled (w.name a b) ≡ cfg.net.enabled (w.name a b)
    pub network : OnlyEnabled cfg.net cfg'.net
    pub rest : cfg' ≡ record cfg { net = cfg'.net; connected = set cfg.connected i false }

  -- Disconnecting a peer of the configuration does not panic and isolates it: no request from it or to it
  -- gets a reply, and nothing changes between the others.
  pub disconnect_peer-Isolated :
      (i : ℕ) (cfg : RaftConfig C Args Reply State) (w : IsNamed cfg.endnames cfg.n)
      → i < cfg.n
      → length cfg.connected ≡ cfg.n
      → (cfg' : RaftConfig C Args Reply State) × (disconnect_peer i cfg ≡ ok cfg')
        × Isolated i cfg cfg' w
  unfolding disconnect_peer outgoing_if incoming_if_named outgoing incoming
  disconnect_peer-Isolated i cfg w l whole =
      let n = cfg.n in
      let names = cfg.endnames in
      let xs = all_from 0 n in
      let fits : 0 + length xs ≤ n = omega (arith, length-all_from 0 n) in
      let inside : (x : ℕ) → Among x xs → x < n = λ x a. omega (arith, all_from-Among 0 n x a) in
      let r =
        all-IsRead n (outgoing_if names i) (λ x. w.name i x) 0 xs
          (λ j x lj lx. rw ((w.row i l).1, named names n w i x l lx)) fits inside in
      let s =
        all-IsRead n (incoming_if_named names i) (λ x. w.name x i) 0 xs
          (λ j x lj lx. rw ((w.row x lx).1, named names n w x i lx l)) fits inside in
      let (net₁, net₂, a, b, c) =
        links-Sets names n w false (outgoing_if names i) (incoming_if_named names i) i xs cfg.net r
          s in
      let e = store-eq cfg.connected i false (omega (arith, l, whole)) in
      (
        record cfg { net = net₂; connected = set cfg.connected i false },
        rw (e, a, b),
        record {
          no_reply = λ x req draw draw' ticks rn m lx f.
              let at = Among-all_from 0 n x (omega arith) (omega (arith, lx)) in
              disabled-process_req draw draw' req net₂ ticks rn m (elim f [
                | inl u ↦ c.set req.endname (inl (x, at, sym u))
                | inr u ↦ c.set req.endname (inr (x, at, sym u))
              ]);
          others = λ x y lx ly nx ny. elim (c.only (w.name x y)) [
            | inl q ↦ q
            | inr q ↦ absurd (not_linked names n w i x y xs l lx ly inside nx ny q.0)
          ];
          network = c.rest;
          rest = refl;
        },
      )
