-- ===== src/Labrpc/Delivery.antt =====
-- labrpc/labrpc.go: when a request gets a reply.
use m2i8t.Prelude.{
  ℕ, ◌%◌, ◌≤◌, ◌≡◌, sym, ap, ◌∙◌, subst, ◌≢◌, ◌⊎◌, inl, inr, Bool, true, false, none, some, List,
  [], ◌∷◌, arith, Bool-cases, Option-cases, eq_nat, eq_string,
}
use m2i8t.Labrpc.Network.{ReqMsg, ReplyMsg, Network, is_server_dead}
use m2i8t.Labrpc.Request.{Tick, handled, passed, wait_reply, send_reply, process_req}

module _ {Args Reply State : Type 0} where
  -- The end is enabled and its server, of this name, is at this address.
  pub record Reaches (rn : Network Args Reply State) (endname servername address : ℕ) : Type 0 where
    pub enabled : rn.enabled endname ≡ true
    pub connected : rn.connections endname ≡ some servername
    pub there : rn.servers servername ≡ some address

  -- The handler has returned the reply, and each time the loop looked before it the server lived.
  pub data Handled (endname servername address : ℕ) (r : Reply)
      : List (Tick Args Reply State) → Type 0 where
    now :
        {ticks : List (Tick Args Reply State)}
        → Handled endname servername address r (handled r ∷ ticks)
    later :
        {rn : Network Args Reply State} {ticks : List (Tick Args Reply State)}
        → is_server_dead endname servername address rn ≡ false
        → Handled endname servername address r ticks
        → Handled endname servername address r (passed rn ∷ ticks)

  Handled-wait_reply :
      (endname servername address : ℕ) (ticks : List (Tick Args Reply State)) (r : Reply)
      → wait_reply endname servername address ticks ≡ some (some r)
      → Handled endname servername address r ticks
  unfolding wait_reply
  Handled-wait_reply endname servername address [] r e = absurd (cc e)
  Handled-wait_reply endname servername address (handled q ∷ ticks) r e =
      let same : q ≡ r = cc e in
      subst (λ x. Handled endname servername address r (handled x ∷ ticks)) (sym same) now
  Handled-wait_reply endname servername address (passed rn ∷ ticks) r e =
      elim (Bool-cases (is_server_dead endname servername address rn)) [
        | inl dead ↦ absurd (ground (arith, dead, e))
        | inr lives ↦
            later lives
              (Handled-wait_reply endname servername address ticks r (ground (arith, lives, e)))
      ]

  -- All that a reply needs.
  pub record Delivers (draw draw' : ℕ) (req : ReqMsg Args) (rn : Network Args Reply State)
      (ticks : List (Tick Args Reply State)) (rn' : Network Args Reply State) (r : Reply)
      : Type 0 where
    pub servername : ℕ
    pub address : ℕ
    pub reaches : Reaches rn req.endname servername address
    pub request_kept : (rn.reliable ≡ true) ⊎ (100 ≤ draw % 1000)
    pub answered : Handled req.endname servername address r ticks
    pub reply_kept : (rn.reliable ≡ true) ⊎ (100 ≤ draw' % 1000)
    pub lives : is_server_dead req.endname servername address rn' ≡ false

  send_reply-some :
      (draw' endname servername address : ℕ) (reliable : Bool) (got : ReplyMsg Reply)
      (rn' : Network Args Reply State) (r : Reply)
      → send_reply draw' endname servername address reliable got rn' ≡ some r
      → (got ≡ some r)
        × (is_server_dead endname servername address rn' ≡ false)
        × ((reliable ≡ true) ⊎ (100 ≤ draw' % 1000))
  unfolding send_reply
  send_reply-some draw' endname servername address reliable none rn' r e = absurd (cc e)
  send_reply-some draw' endname servername address reliable (some q) rn' r e =
      elim (Bool-cases (is_server_dead endname servername address rn')) [
        | inl dead ↦ absurd (ground (arith, dead, e))
        | inr lives ↦ ground (arith, lives, e)
      ]

  process_req-Delivers :
      (draw draw' : ℕ) (req : ReqMsg Args) (rn : Network Args Reply State)
      (ticks : List (Tick Args Reply State)) (rn' : Network Args Reply State) (r : Reply)
      → process_req draw draw' req rn ticks rn' ≡ some (some r)
      → Delivers draw draw' req rn ticks rn' r
  unfolding process_req
  process_req-Delivers draw draw' req rn ticks rn' r e =
      elim (Option-cases (rn.connections req.endname)) [
        | inl c ↦ absurd (ground (arith, c, e))
        | inr (servername, c) ↦ elim (Option-cases (rn.servers servername)) [
          | inl s ↦ absurd (ground (arith, c, s, e))
          | inr (address, s) ↦
              elim (Option-cases (wait_reply req.endname servername address ticks)) [
                | inl w ↦ absurd (ground (arith, c, s, w, e))
                | inr (got, w) ↦
                    let kept : (rn.enabled req.endname ≡ true)
                        × ((rn.reliable ≡ true) ⊎ (100 ≤ draw % 1000)) =
                      ground (arith, c, s, w, e) in
                    let sent : send_reply draw' req.endname servername address rn.reliable got rn'
                        ≡ some r =
                      ground (arith, c, s, w, e, kept) in
                    let (same, alive, kept') =
                      send_reply-some draw' req.endname servername address rn.reliable got rn' r
                        sent in
                    record {
                      servername = servername;
                      address = address;
                      reaches = record { enabled = kept.0; connected = c; there = s };
                      request_kept = kept.1;
                      answered =
                          Handled-wait_reply req.endname servername address ticks r
                            (w ∙ ap some same);
                      reply_kept = kept';
                      lives = alive;
                    }
              ]
        ]
      ]

  -- No reply is delivered through an end that is disabled.
  pub disabled-process_req :
      (draw draw' : ℕ) (req : ReqMsg Args) (rn : Network Args Reply State)
      (ticks : List (Tick Args Reply State)) (rn' : Network Args Reply State) (r : Reply)
      → rn.enabled req.endname ≡ false
      → process_req draw draw' req rn ticks rn' ≢ some (some r)
  disabled-process_req draw draw' req rn ticks rn' r off e =
      let d = process_req-Delivers draw draw' req rn ticks rn' r e in
      absurd (cc (off, d.reaches.enabled))
