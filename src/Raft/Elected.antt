-- ===== src/Raft/Elected.antt =====
-- raft/raft.go, `checkElection` and RequestVote: who gets a vote, and who becomes the leader.
use m2i8t.Prelude.{
  ℕ, zero, suc, ◌+◌, ◌*◌, ◌≤◌, ◌<◌, ◌≡◌, refl, ◌∙◌, ◌≢◌, ◌↔◌, ◌⊎◌, inl, inr, true, Option, none,
  some, List, [], ◌∷◌, arith, ◌==◌, if◌then◌else◌, ==_iff, Bool-cases, length, get_elem?, set,
  length-set, get_elem?-set_self, get_elem?-set_ne, ok, eq_nat, eq_string, pos, minus_one,
  int_eq_iff,
}
use m2i8t.Raft.Types.{LogEntry, Raft, leader, candidate, RequestVoteArgs, RequestVoteReply}
use m2i8t.Raft.RequestVote.{request_vote, last_entry}
use m2i8t.Raft.Node.{fill}
use m2i8t.Raft.Election.{handle_vote_reply, check_election}
use m2i8t.Raft.Votes.{HasVoted, Reach-HasVoted, HasVoted-granted, granted-HasVoted}
use m2i8t.Raft.Steps.{Reach}

-- The loop writes `v` at every index below `n` and nothing elsewhere.
get_elem?-fill_ge : (n v i : ℕ) (xs : List ℕ) → n ≤ i → get_elem? (fill n v xs) i ≡ get_elem? xs i
unfolding fill
get_elem?-fill_ge zero v i xs h = refl
get_elem?-fill_ge (suc j) v i xs h =
    get_elem?-fill_ge j v i (set xs j v) (omega arith)
    ∙ get_elem?-set_ne xs j i v (λ e. absurd (omega arith))

get_elem?-fill :
    (n v i : ℕ) (xs : List ℕ) → i < n → i < length xs → get_elem? (fill n v xs) i ≡ some v
unfolding fill
get_elem?-fill zero v i xs h h' = absurd (omega arith)
get_elem?-fill (suc j) v i xs h h' = elim (Bool-cases (i == j)) [
  | inl e ↦
      let e' : i ≡ j = (==_iff i j).0 e in
      rw (get_elem?-fill_ge j v i (set xs j v) (omega arith), e')
        (get_elem?-set_self xs j v (omega arith))
  | inr ne ↦ get_elem?-fill j v i (set xs j v) (ground arith) (omega (arith, length-set xs j v))
]

abbrev pub grants : Option RequestVoteReply → ℕ
grants none = 0
grants (some reply) = if reply.vote_granted then 1 else 0

-- The number `n` of votes that an election got, and its count `cnt`, once its goroutines have handled
-- some replies. Whatever else happens to the peer between them, each is handled in a state `rf`.
pub data Polled (C : Type 0) : ℕ → ℕ → Type 0 where
  starts : Polled C 0 1
  handles :
      {n cnt : ℕ} (now : ℕ) (args : RequestVoteArgs) (reply : Option RequestVoteReply) (rf : Raft C)
      → Polled C n cnt
      → Polled C (n + grants reply) (handle_vote_reply now args reply cnt rf).0

module _ {C : Type 0} where
  -- A vote is granted exactly when the request's term is not old, the peer has not voted for
  -- another candidate in that same term, and the candidate's last entry has a greater term than the
  -- peer's, or the same term and an index that is at least as great.
  pub vote_granted_iff :
      (now : ℕ) (args : RequestVoteArgs) (rf : Raft C) (e : LogEntry C) {rf' : Raft C}
      {reply : RequestVoteReply}
      → last_entry rf.log ≡ ok e
      → request_vote now args rf ≡ ok (rf', reply)
      → (reply.vote_granted ≡ true) ↔ (
          (rf.current_term ≤ args.term)
          × (rf.current_term ≡ args.term
              → (rf.voted_for ≡ minus_one) ⊎ (rf.voted_for ≡ pos args.candidate_id))
          × ((e.term < args.last_log_term)
              ⊎ ((e.term ≡ args.last_log_term) × (length rf.log ≤ args.last_log_index + 1))))
  unfolding request_vote
  vote_granted_iff now args rf e last h = (
    ground
        (arith, int_eq_iff rf.voted_for minus_one, int_eq_iff rf.voted_for (pos args.candidate_id)),
    ground
        (arith, int_eq_iff rf.voted_for minus_one, int_eq_iff rf.voted_for (pos args.candidate_id)),
  )

  -- Two votes of one peer in one term, with any critical sections between them, go to one candidate.
  pub one_vote_per_term :
      (now now' : ℕ) (args args' : RequestVoteArgs) (rf : Raft C) {rf₁ : Raft C} (rf₂ : Raft C)
      {rf₃ : Raft C} {reply reply' : RequestVoteReply}
      → request_vote now args rf ≡ ok (rf₁, reply)
      → reply.vote_granted ≡ true
      → Reach rf₁ rf₂
      → request_vote now' args' rf₂ ≡ ok (rf₃, reply')
      → reply'.vote_granted ≡ true
      → args'.term ≡ args.term
      → args'.candidate_id ≡ args.candidate_id
  one_vote_per_term now now' args args' rf rf₂ h g reach h' g' e =
      HasVoted-granted args.term args.candidate_id now' args' rf₂
        (Reach-HasVoted args.term args.candidate_id (granted-HasVoted now args rf h g) reach) h' g'
        e

  -- A peer that started an election in a term gives no vote of that term to another candidate.
  pub candidate_votes_for_itself :
      (now now' r : ℕ) (args : RequestVoteArgs) (rf rf₂ : Raft C) {rf₃ : Raft C}
      {reply : RequestVoteReply}
      → (check_election now r rf).1 ≡ true
      → Reach (check_election now r rf).0 rf₂
      → request_vote now' args rf₂ ≡ ok (rf₃, reply)
      → reply.vote_granted ≡ true
      → args.term ≡ (check_election now r rf).0.current_term
      → args.candidate_id ≡ rf.me
  candidate_votes_for_itself now now' r args rf rf₂ started reach h g e =
      HasVoted-granted (check_election now r rf).0.current_term rf.me now' args rf₂
        (Reach-HasVoted _ _ (self_vote now r rf started) reach) h g e
    where
      self_vote :
          (now r : ℕ) (rf : Raft C)
          → (check_election now r rf).1 ≡ true
          → HasVoted (check_election now r rf).0.current_term rf.me (check_election now r rf).0
      self_vote now r rf s = unfold check_election in ground arith

  handle_vote_reply-count :
      (now : ℕ) (args : RequestVoteArgs) (reply : Option RequestVoteReply) (cnt : ℕ) (rf : Raft C)
      → (handle_vote_reply now args reply cnt rf).0 ≤ cnt + grants reply
  unfolding handle_vote_reply
  handle_vote_reply-count now args none cnt rf = omega arith
  handle_vote_reply-count now args (some reply) cnt rf = ground arith

  Polled-count : {n cnt : ℕ} → Polled C n cnt → cnt ≤ n + 1
  Polled-count starts = omega arith
  Polled-count (handles {cnt = cnt} now args reply rf p) =
      omega (arith, Polled-count p, handle_vote_reply-count now args reply cnt rf)

  reply_elects :
      (now : ℕ) (args : RequestVoteArgs) (reply : Option RequestVoteReply) (cnt : ℕ) (rf : Raft C)
      → rf.state ≢ leader
      → (handle_vote_reply now args reply cnt rf).1.state ≡ leader
      → (rf.state ≡ candidate)
        × (args.term ≡ rf.current_term)
        × (rf.peers < 2 * (handle_vote_reply now args reply cnt rf).0)
        × ((handle_vote_reply now args reply cnt rf).1.current_term ≡ rf.current_term)
  unfolding handle_vote_reply
  reply_elects now args none cnt rf ne h = absurd (ne h)
  reply_elects now args (some reply) cnt rf ne h = ground (arith, int_eq_iff rf.state candidate)

  -- A reply, after replies to the same election of which `n` granted a vote, makes the peer the leader only
  -- as a candidate of the request's term, and only if its own vote and the granted ones, this reply's
  -- included, are more than half of the peers; its term does not change.
  pub leader_needs_majority :
      (n cnt now : ℕ) (args : RequestVoteArgs) (reply : Option RequestVoteReply) (rf : Raft C)
      → Polled C n cnt
      → rf.state ≢ leader
      → (handle_vote_reply now args reply cnt rf).1.state ≡ leader
      → (rf.state ≡ candidate)
        × (args.term ≡ rf.current_term)
        × (rf.peers < 2 * (1 + n + grants reply))
        × ((handle_vote_reply now args reply cnt rf).1.current_term ≡ rf.current_term)
  leader_needs_majority n cnt now args reply rf polled ne h =
      let (stands, same, most, kept) = reply_elects now args reply cnt rf ne h in
      (
        stands,
        same,
        omega (arith, most, Polled-count polled, handle_vote_reply-count now args reply cnt rf),
        kept,
      )

  -- Where a reply makes the peer the leader, every nextIndex is the length of the log and every matchIndex is 0.
  pub new_leader_indices :
      (now : ℕ) (args : RequestVoteArgs) (reply : Option RequestVoteReply) (cnt i : ℕ) (rf : Raft C)
      → rf.state ≢ leader
      → (handle_vote_reply now args reply cnt rf).1.state ≡ leader
      → i < rf.peers
      → length rf.next_index ≡ rf.peers
      → length rf.match_index ≡ rf.peers
      → (get_elem? (handle_vote_reply now args reply cnt rf).1.next_index i ≡ some (length rf.log))
        × (get_elem? (handle_vote_reply now args reply cnt rf).1.match_index i ≡ some 0)
  unfolding handle_vote_reply
  new_leader_indices now args none cnt i rf ne h lt e e' = absurd (ne h)
  new_leader_indices now args (some reply) cnt i rf ne h lt e e' = ground (
    arith,
    int_eq_iff rf.state candidate,
    get_elem?-fill rf.peers (length rf.log) i rf.next_index,
    get_elem?-fill rf.peers 0 i rf.match_index,
  )

  -- The replies of an election, in the order in which they are handled.
  pub handle_all : List (ℕ × RequestVoteArgs × Option RequestVoteReply) → ℕ → Raft C → ℕ × Raft C
  handle_all [] cnt rf = (cnt, rf)
  handle_all ((now, args, reply) ∷ rest) cnt rf =
      let (cnt', rf') = handle_vote_reply now args reply cnt rf in handle_all rest cnt' rf'

  handle_vote_reply-ne-leader :
      (now : ℕ) (args : RequestVoteArgs) (reply : Option RequestVoteReply) (cnt : ℕ) (rf : Raft C)
      → (rf.state ≢ leader) × (rf.state ≢ candidate)
      → ((handle_vote_reply now args reply cnt rf).1.state ≢ leader)
        × ((handle_vote_reply now args reply cnt rf).1.state ≢ candidate)
  unfolding handle_vote_reply
  handle_vote_reply-ne-leader now args none cnt rf h = h
  handle_vote_reply-ne-leader now args (some reply) cnt rf h =
      ground (arith, int_eq_iff rf.state candidate)

  handle_all-ne-leader :
      (replies : List (ℕ × RequestVoteArgs × Option RequestVoteReply)) (cnt : ℕ) (rf : Raft C)
      → (rf.state ≢ leader) × (rf.state ≢ candidate)
      → (handle_all replies cnt rf).1.state ≢ leader
  unfolding handle_all
  handle_all-ne-leader [] cnt rf h = h.0
  handle_all-ne-leader ((now, args, reply) ∷ rest) cnt rf h =
      let (cnt', rf') = handle_vote_reply now args reply cnt rf in
      handle_all-ne-leader rest cnt' rf' (handle_vote_reply-ne-leader now args reply cnt rf h)

  refused_state :
      (now : ℕ) (args : RequestVoteArgs) (reply : RequestVoteReply) (cnt : ℕ) (rf : Raft C)
      → reply.term < args.term
      → (handle_vote_reply now args (some reply) cnt rf).1.state ≡ minus_one
  unfolding handle_vote_reply
  refused_state now args reply cnt rf h = ground arith

  -- One reply with a lower term than the request's sets the state to -1 whatever the peer's state
  -- and term are by then, a leader's included; and no later replies make the peer the leader,
  -- however many grant their vote.
  pub refusal_ends_election :
      (now : ℕ) (args : RequestVoteArgs) (reply : RequestVoteReply) (cnt : ℕ) (rf : Raft C)
      (later : List (ℕ × RequestVoteArgs × Option RequestVoteReply))
      → reply.term < args.term
      → ((handle_vote_reply now args (some reply) cnt rf).1.state ≡ minus_one)
        × ((handle_all ((now, args, some reply) ∷ later) cnt rf).1.state ≢ leader)
  unfolding handle_all
  refusal_ends_election now args reply cnt rf later h =
      let (cnt', rf') = handle_vote_reply now args (some reply) cnt rf in
      let down : rf'.state ≡ minus_one = refused_state now args reply cnt rf h in
      (down, handle_all-ne-leader later cnt' rf' ((λ e. cc (down, e)), (λ e. cc (down, e))))
