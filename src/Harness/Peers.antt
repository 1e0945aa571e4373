-- ===== src/Harness/Peers.antt =====
-- raft/config.go: connecting peers, looking for a leader, and counting what they have committed.
use m2i8t.Prelude.{
  ℕ, Bool, true, false, Option, none, some, List, [], ◌∷◌, ◌++◌, ltb, ◌==◌, if◌then◌else◌, length,
  Outcome, ok, panic, ◌>>=◌, index, store, eq_nat, eq_string, Dict, of_option,
}
use m2i8t.Labrpc.Network.{Network}
use m2i8t.Raft.Types.{Raft}
use m2i8t.Raft.Node.{get_state}
use m2i8t.Harness.Ends.{EndNames, all_from, set_each}
use m2i8t.Harness.Kv.{outgoing, incoming, outgoing_if}

-- `logs` are the copies of what each server has committed, from an index to a command.
pub record RaftConfig (C Args Reply State : Type 0) : Type 0 where
  pub net : Network Args Reply State
  pub n : ℕ
  pub rafts : List (Option (Raft C))
  pub connected : List Bool
  pub endnames : EndNames
  pub logs : List (Dict ℕ (Option C))
  pub max_index : ℕ

-- The test of a loop of connect, and of the second loop of disconnect.
unfoldable pub if_connected : List Bool → (ℕ → ℕ → Outcome (Option ℕ)) → ℕ → ℕ → Outcome (Option ℕ)
if_connected connected name j x = do c ← index connected x; if c then name j x else ok none

unfoldable pub incoming_if_named : EndNames → ℕ → ℕ → ℕ → Outcome (Option ℕ)
unfolding incoming
incoming_if_named endnames i j x = do
  row ← index endnames x
  elim row [ none ↦ ok none | some _ ↦ incoming endnames i j x ]

module _ {C Args Reply State : Type 0} where
  unfoldable pub connect_peer :
      ℕ → RaftConfig C Args Reply State → Outcome (RaftConfig C Args Reply State)
  unfolding store if_connected outgoing incoming set_each all_from
  connect_peer i cfg = do
    connected ← store cfg.connected i true
    net₁ ←
        set_each true (if_connected connected (outgoing cfg.endnames i)) 0 (all_from 0 cfg.n)
          cfg.net
    net₂ ←
        set_each true (if_connected connected (incoming cfg.endnames i)) 0 (all_from 0 cfg.n) net₁
    ok record cfg { connected = connected; net = net₂ }

  unfoldable pub disconnect_peer :
      ℕ → RaftConfig C Args Reply State → Outcome (RaftConfig C Args Reply State)
  unfolding store outgoing_if incoming_if_named set_each all_from
  disconnect_peer i cfg = do
    connected ← store cfg.connected i false
    net₁ ← set_each false (outgoing_if cfg.endnames i) 0 (all_from 0 cfg.n) cfg.net
    net₂ ← set_each false (incoming_if_named cfg.endnames i) 0 (all_from 0 cfg.n) net₁
    ok record cfg { connected = connected; net = net₂ }

-- `leaders[term] = append(leaders[term], i)`, on the map as a list of its entries.
unfoldable pub add_leader : ℕ → ℕ → List (ℕ × List ℕ) → List (ℕ × List ℕ)
add_leader term i [] = (term, i ∷ []) ∷ []
add_leader term i ((t, is) ∷ rest) =
    if t == term then (t, is ++ i ∷ []) ∷ rest else (t, is) ∷ add_leader term i rest

-- The loop over the map; `last` is lastTermWithLeader, where none is -1.
unfoldable pub newest : Option ℕ → List (ℕ × List ℕ) → Outcome (Option ℕ)
newest last [] = ok last
newest last ((term, leaders) ∷ rest) =
    if ltb 1 (length leaders)
    then panic
    else newest (elim last [ none ↦ some term | some t ↦ if ltb t term then some term else some t ])
        rest

-- `leaders[term]`
unfoldable pub leaders_in : ℕ → List (ℕ × List ℕ) → List ℕ
leaders_in term [] = []
leaders_in term ((t, is) ∷ rest) = if t == term then is else leaders_in term rest

unfoldable pub collect_leaders : List (ℕ × ℕ × Bool) → List (ℕ × List ℕ) → List (ℕ × List ℕ)
unfolding add_leader
collect_leaders [] leaders = leaders
collect_leaders ((i, term, is_leader) ∷ rest) leaders =
    collect_leaders rest (if is_leader then add_leader term i leaders else leaders)

-- The loop of checkTerms; none is -1, and a disagreement is fatal.
unfoldable pub agree_on : Option ℕ → List (ℕ × ℕ × Bool) → Outcome (Option ℕ)
agree_on term [] = ok term
agree_on term ((i, xterm, is_leader) ∷ rest) = elim term [
  | none ↦ agree_on (some xterm) rest
  | some t ↦ if t == xterm then agree_on (some t) rest else panic
]

unfoldable pub none_leads : List (ℕ × ℕ × Bool) → Outcome {0} Unit
none_leads [] = ok tt
none_leads ((i, term, is_leader) ∷ rest) = if is_leader then panic else none_leads rest

module _ {C : Type 0} where
  -- GetState of each connected server, in order; `rafts` has each server as it is then.
  unfoldable pub states_of :
      List Bool → List (Option (Raft C)) → List ℕ → Outcome (List (ℕ × ℕ × Bool))
  unfolding get_state
  states_of connected rafts [] = ok []
  states_of connected rafts (i ∷ is) = do
    rest ← states_of connected rafts is
    c ← index connected i
    (if c
        then (do
          found ← index rafts i
          rf ← of_option found
          let (term, is_leader) = get_state rf
          ok ((i, term, is_leader) ∷ rest))
        else ok rest)

  -- A try of checkOneLeader: none is that there is no leader.
  unfoldable pub find_one_leader : List Bool → ℕ → List (Option (Raft C)) → Outcome (Option ℕ)
  unfolding states_of collect_leaders newest leaders_in all_from
  find_one_leader connected n rafts = do
    states ← states_of connected rafts (all_from 0 n)
    let leaders = collect_leaders states []
    last ← newest none leaders
    elim last [ none ↦ ok none | some term ↦ do i ← index (leaders_in term leaders) 0; ok (some i) ]

  -- The peers at each of the tries.
  unfoldable pub check_one_leader : List Bool → ℕ → List (List (Option (Raft C))) → Outcome ℕ
  unfolding find_one_leader
  check_one_leader connected n [] = panic
  check_one_leader connected n (rafts ∷ later) = do
    found ← find_one_leader connected n rafts
    elim found [ some i ↦ ok i | none ↦ check_one_leader connected n later ]

  unfoldable pub check_terms : List Bool → ℕ → List (Option (Raft C)) → Outcome (Option ℕ)
  unfolding states_of agree_on all_from
  check_terms connected n rafts = do
    states ← states_of connected rafts (all_from 0 n)
    agree_on none states

  unfoldable pub check_no_leader : List Bool → ℕ → List (Option (Raft C)) → Outcome {0} Unit
  unfolding states_of none_leads all_from
  check_no_leader connected n rafts = do
    states ← states_of connected rafts (all_from 0 n)
    none_leads states
