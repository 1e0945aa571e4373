-- ===== src/Harness/Accepted.antt =====
-- raft/config.go and raft/raft.go: the tests' reader of applyCh takes what the apply loop sends.
use m2i8t.Prelude.{
  ℕ, zero, suc, ◌+◌, ◌-◌, ◌≤◌, ◌<◌, ◌≡◌, refl, sym, ap, ◌∙◌, subst, ◌⊎◌, inl, inr, true, false,
  ◌&&◌, not, Option, none, some, List, [], ◌∷◌, arith, ltb, ◌==◌, if◌then◌else◌, ==_iff, Bool-cases,
  Option-cases, length, get_elem?, set, take, drop, get_elem?_lt, get_elem?-set_self,
  get_elem?-set_ne, length-take, length-drop, get_elem?-drop, ok, ◌>>=◌, index-eq, store-eq, Eq,
  eq_nat, eq_string, Dict, update, update_self, update_ne,
}
use m2i8t.Raft.Types.{LogEntry, Raft, ApplyMsg}
use m2i8t.Raft.Apply.{message, check_apply}
use m2i8t.Raft.Applied.{number_from, check_apply-number_from}
use m2i8t.Harness.Peers.{RaftConfig}
use m2i8t.Harness.Committed.{same_command, conflicts, has_previous, read_message, read_messages}

get_elem?-take_of :
    {A : Type 0} (m : ℕ) (xs : List A) (j : ℕ) (x : A)
    → get_elem? (take m xs) j ≡ some x
    → get_elem? xs j ≡ some x
get_elem?-take_of zero xs j x f = absurd (ground (arith, f))
get_elem?-take_of (suc m) [] j x f = absurd (ground (arith, f))
get_elem?-take_of (suc m) (y ∷ ys) zero x f = f
get_elem?-take_of (suc m) (y ∷ ys) (suc j) x f = get_elem?-take_of m ys j x f

module _ {C : Type 0} where
  -- Every copy has at an index only the command that the log has there.
  abbrev pub Mirrors : List (LogEntry C) → List (Dict ℕ (Option C)) → Type 0
  Mirrors log logs =
      (j i : ℕ) (copy : Dict ℕ (Option C)) (v : Option C)
      → get_elem? logs j ≡ some copy
      → copy i ≡ some v
      → (x : LogEntry C) × (get_elem? log i ≡ some x) × (x.command ≡ v)

  -- The copy is there up to the index.
  abbrev pub Known : Dict ℕ (Option C) → ℕ → Type 0
  Known copy k = (k ≡ 0) ⊎ ((v : Option C) × (copy k ≡ some v))

  written :
      (copy copy' : Dict ℕ (Option C)) (k i : ℕ) (u v : Option C)
      → update copy k u ≡ copy'
      → i ≡ k
      → copy' i ≡ some v
      → u ≡ v
  written copy copy' k i u v c q g =
      let h : update copy k u i ≡ some v = ap (λ z. z i) c ∙ g in
      let f : update copy k u i ≡ some u = ap (update copy k u) q ∙ update_self copy k u in
      cc (h, f)

  unwritten :
      (copy copy' : Dict ℕ (Option C)) (k i : ℕ) (u v : Option C)
      → update copy k u ≡ copy'
      → (k == i) ≡ false
      → copy' i ≡ some v
      → copy i ≡ some v
  unwritten copy copy' k i u v c ne g =
      sym (update_ne copy k i u (λ z. ground arith)) ∙ ap (λ z. z i) c ∙ g

  Mirrors-set :
      (log : List (LogEntry C)) (logs : List (Dict ℕ (Option C))) (n k : ℕ)
      (copy : Dict ℕ (Option C)) (x : LogEntry C)
      → Mirrors log logs
      → get_elem? logs n ≡ some copy
      → get_elem? log k ≡ some x
      → n < length logs
      → Mirrors log (set logs n (update copy k x.command))
  Mirrors-set log logs n k copy x m at here l j i copy' v f g = elim (Bool-cases (j == n)) [
    | inl same ↦
        let s : j ≡ n = (==_iff j n).0 same in
        let c : update copy k x.command ≡ copy' =
          cc (s, f, get_elem?-set_self logs n (update copy k x.command) l) in
        elim (Bool-cases (k == i)) [
          | inl e ↦
              let q : i ≡ k = sym ((==_iff k i).0 e) in
              (x, ap (λ z. get_elem? log z) q ∙ here, written copy copy' k i x.command v c q g)
          | inr ne ↦ m n i copy v at (unwritten copy copy' k i x.command v c ne g)
        ]
    | inr other ↦
        m j i copy' v
          (sym (get_elem?-set_ne logs n j (update copy k x.command) (λ z. ground arith)) ∙ f) g
  ]

module _ {C : Type 0} ⦃e : Eq C⦄ where
  same_command_refl : (v : Option C) → same_command v v ≡ true
  unfolding same_command
  same_command_refl none = refl
  same_command_refl (some a) = (e.beq_iff a a).1 refl

  no_conflicts :
      (log : List (LogEntry C)) (logs : List (Dict ℕ (Option C))) (i : ℕ) (x : LogEntry C)
      → Mirrors log logs
      → get_elem? log i ≡ some x
      → conflicts logs i x.command ≡ false
  unfolding conflicts
  no_conflicts log [] i x m at = refl
  no_conflicts log (copy ∷ logs) i x m at =
      let rest = no_conflicts log logs i x (λ j k c v f g. m (suc j) k c v f g) at in
      elim (Option-cases (copy i)) [
        | inl q ↦ ground (arith, q, rest)
        | inr (old, q) ↦
            let (y, f, g) = m 0 i copy old refl q in
            let same : old ≡ x.command = cc (at, f, g) in
            ground (arith, q, rest, same, same_command_refl x.command)
      ]

  has_previous-Known :
      (copy : Dict ℕ (Option C)) (k : ℕ)
      → Known copy k
      → (ltb 1 (suc k) && not (has_previous copy (suc k))) ≡ false
  unfolding has_previous
  has_previous-Known copy k (inl z) = ground (arith, z)
  has_previous-Known copy k (inr (v, f)) = ground (arith, f)

  module _ {Args Reply State : Type 0} where
    -- What reading the messages of entries of the log, from the index `k + 1` on, leads to.
    pub record IsTaken (log : List (LogEntry C)) (n k : ℕ) (cfg : RaftConfig C Args Reply State)
        : Type 0 where
      pub mirrors : Mirrors log cfg.logs
      pub copy : Dict ℕ (Option C)
      pub own : get_elem? cfg.logs n ≡ some copy
      pub known : Known copy k

    read_message-IsTaken :
        (log : List (LogEntry C)) (n k : ℕ) (x : LogEntry C) (cfg : RaftConfig C Args Reply State)
        → IsTaken log n k cfg
        → get_elem? log (suc k) ≡ some x
        → (cfg' : RaftConfig C Args Reply State) × (read_message n (message x (suc k)) cfg
            ≡ ok cfg')
          × IsTaken log n (suc k) cfg'
    unfolding read_message
    read_message-IsTaken log n k x cfg t at =
        let u = update t.copy (suc k) x.command in
        let l = get_elem?_lt cfg.logs n t.own in
        let a = index-eq cfg.logs n t.own in
        let b = store-eq cfg.logs n u l in
        let c = no_conflicts log cfg.logs (suc k) x t.mirrors at in
        let d = has_previous-Known t.copy k t.known in
        (
          record cfg {
            logs = set cfg.logs n u;
            max_index = if ltb cfg.max_index (suc k) then suc k else cfg.max_index;
          },
          rw (a, b, c, d),
          record {
            mirrors = Mirrors-set log cfg.logs n (suc k) t.copy x t.mirrors t.own at l;
            copy = u;
            own = get_elem?-set_self cfg.logs n u l;
            known = inr (x.command, update_self t.copy (suc k) x.command);
          },
        )

    read_messages-IsTaken :
        (log : List (LogEntry C)) (n k : ℕ) (es : List (LogEntry C))
        (cfg : RaftConfig C Args Reply State)
        → IsTaken log n k cfg
        → ((j : ℕ) (x : LogEntry C) → get_elem? es j ≡ some x → get_elem? log (suc k + j) ≡ some x)
        → (cfg' : RaftConfig C Args Reply State) × (read_messages n (number_from (suc k) es) cfg
            ≡ ok cfg')
          × IsTaken log n (k + length es) cfg'
    unfolding read_messages number_from
    read_messages-IsTaken log n k [] cfg t f =
        (cfg, refl, subst (λ z. IsTaken log n z cfg) {x = k} (omega arith) t)
    read_messages-IsTaken log n k (x ∷ es) cfg t f =
        let at : get_elem? log (suc k) ≡ some x =
          ap (λ z. get_elem? log z) (omega arith) ∙ f 0 x refl in
        let (cfg₁, p, t₁) = read_message-IsTaken log n k x cfg t at in
        let later : (j : ℕ) (y : LogEntry C)
            → get_elem? es j ≡ some y
            → get_elem? log (suc (suc k) + j) ≡ some y =
          λ j y g. ap (λ z. get_elem? log z) (omega arith) ∙ f (suc j) y g in
        let (cfg₂, q, t₂) = read_messages-IsTaken log n (suc k) es cfg₁ t₁ later in
        (
          cfg₂,
          ap (λ o. o >>= (λ c. read_messages n (number_from (suc k + 1) es) c)) p
              ∙ ap (λ z. read_messages n (number_from z es) cfg₁) {x = suc k + 1} (omega arith)
              ∙ q,
          subst (λ z. IsTaken log n z cfg₂) {x = suc k + length es} (omega arith) t₂,
        )

    -- A round of a peer's apply loop is taken by the tests' reader of its channel with no error: where no
    -- copy differs from the peer's log, and the peer's own is there up to lastApplied, the messages sent
    -- end no test, and the same holds after them, with the new lastApplied.
    pub check_apply-read_messages :
        (rf : Raft C) (n : ℕ) (cfg : RaftConfig C Args Reply State)
        → rf.last_applied ≤ rf.commit_index
        → rf.commit_index < length rf.log
        → IsTaken rf.log n rf.last_applied cfg
        → (rf' : Raft C) × (sent : List (ApplyMsg C)) × (cfg' : RaftConfig C Args Reply State)
          × (check_apply rf ≡ ok (rf', sent))
          × (read_messages n sent cfg ≡ ok cfg')
          × (rf'.last_applied ≡ rf.commit_index)
          × IsTaken rf.log n rf.commit_index cfg'
    check_apply-read_messages rf n cfg le lt t =
        let m = rf.commit_index - rf.last_applied in
        let es = take m (drop (rf.last_applied + 1) rf.log) in
        let f : (j : ℕ) (x : LogEntry C)
            → get_elem? es j ≡ some x
            → get_elem? rf.log (suc rf.last_applied + j) ≡ some x =
          λ j x g.
            ap (λ z. get_elem? rf.log z) (omega arith)
            ∙ sym (get_elem?-drop (rf.last_applied + 1) j rf.log)
            ∙ get_elem?-take_of m (drop (rf.last_applied + 1) rf.log) j x g in
        let (cfg', e, t') = read_messages-IsTaken rf.log n rf.last_applied es cfg t f in
        let all : rf.last_applied + length es ≡ rf.commit_index = omega (
          arith,
          length-take m (drop (rf.last_applied + 1) rf.log),
          length-drop (rf.last_applied + 1) rf.log,
          le,
          lt,
        ) in
        (
          record rf { last_applied = rf.commit_index },
          number_from (rf.last_applied + 1) es,
          cfg',
          check_apply-number_from rf le lt,
          ap (λ z. read_messages n (number_from z es) cfg) {x = rf.last_applied + 1} (omega arith)
              ∙ e,
          refl,
          subst (λ z. IsTaken rf.log n z cfg') all t',
        )
