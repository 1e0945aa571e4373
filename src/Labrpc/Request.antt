-- ===== src/Labrpc/Request.antt =====
-- labrpc/labrpc.go: `processReq` and the loop that takes requests. Other goroutines change the network
-- between its stages, so that each stage has the network that it reads.
use m2i8t.Prelude.{
  ℕ, ◌+◌, ◌%◌, Bool, ◌&&◌, not, Option, none, some, List, [], ◌∷◌, ltb, if◌then◌else◌, eq_nat,
  eq_string,
}
use m2i8t.Labrpc.Network.{ReqMsg, ReplyMsg, Network, read_endname_info, is_server_dead}

-- What the select of the waiting loop receives: the handler's reply, or 100 milliseconds have passed.
pub data Tick (Args Reply State : Type 0) : Type 0 where
  handled : Reply → Tick Args Reply State
  passed : Network Args Reply State → Tick Args Reply State

module _ {Args Reply State : Type 0} where
  -- The loop of MakeNetwork on a request of `size` bytes, but for the goroutine that it starts.
  unfoldable pub take_request : ℕ → Network Args Reply State → Network Args Reply State
  take_request size rn = record rn { count = rn.count + 1; bytes = rn.bytes + size }

  -- The waiting loop: none is that it waits still, `some none` that the server is dead.
  unfoldable pub wait_reply : ℕ → ℕ → ℕ → List (Tick Args Reply State) → Option (ReplyMsg Reply)
  unfolding is_server_dead
  wait_reply endname servername address [] = none
  wait_reply endname servername address (handled r ∷ ticks) = some (some r)
  wait_reply endname servername address (passed rn ∷ ticks) =
      if is_server_dead endname servername address rn
      then some none
      else wait_reply endname servername address ticks

  -- The rest of processReq, on the network `rn`; `draw` is rand.Int(). A reply that is delayed for long
  -- is the same reply; the count of its bytes is left out.
  unfoldable pub send_reply :
      ℕ → ℕ → ℕ → ℕ → Bool → ReplyMsg Reply → Network Args Reply State → ReplyMsg Reply
  unfolding is_server_dead
  send_reply draw endname servername address reliable none rn = none
  send_reply draw endname servername address reliable (some r) rn =
      if is_server_dead endname servername address rn
      then none
      else if not reliable && ltb (draw % 1000) 100
      then none
      else some r

  -- `draw` and `draw'` are the two draws of rand.Int(). None is that the handler has not returned.
  unfoldable pub process_req :
      ℕ
      → ℕ
      → ReqMsg Args
      → Network Args Reply State
      → List (Tick Args Reply State)
      → Network Args Reply State
      → Option (ReplyMsg Reply)
  unfolding read_endname_info wait_reply send_reply
  process_req draw draw' req rn ticks rn' =
      let (enabled, found) = read_endname_info req.endname rn in
      elim found [
        | none ↦ some none
        | some (servername, address) ↦
            if not enabled
            then some none
            else if not rn.reliable && ltb (draw % 1000) 100
            then some none
            else elim (wait_reply req.endname servername address ticks) [
              | none ↦ none
              | some got ↦
                  some (send_reply draw' req.endname servername address rn.reliable got rn')
            ]
      ]
