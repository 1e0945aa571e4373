-- ===== src/Labrpc/Network.antt =====
-- labrpc/labrpc.go: the network, its ends and its servers. The names of ends and servers are numbers.
-- `Args` and `Reply` are the encoded arguments and replies. A method's full name stands split at its
-- last dot.
use m2i8t.Prelude.{
  ℕ, ◌+◌, String, Bool, true, false, not, Option, none, some, ◌==◌, if◌then◌else◌, Outcome, ok,
  panic, ◌>>=◌, eq_nat, eq_string, Dict, empty_dict, update,
}

pub record ReqMsg (Args : Type 0) : Type 0 where
  pub endname : ℕ
  pub service : String
  pub method : String
  pub args : Args

-- replyMsg: none is `{false, nil}`.
abbrev pub ReplyMsg : Type 0 → Type 0
ReplyMsg Reply = Option Reply

-- A service: its methods by name. A handler takes the arguments and the state it works on.
pub record Service (Args Reply State : Type 0) : Type 0 where
  pub name : String
  pub methods : Dict String (Args → State → State × Reply)

pub record Server (Args Reply State : Type 0) : Type 0 where
  pub services : Dict String (Service Args Reply State)
  pub count : ℕ

-- `servers` maps a name to the address of a server, and `heap` an address to the server there.
pub record Network (Args Reply State : Type 0) : Type 0 where
  pub reliable : Bool
  pub long_delays : Bool
  pub long_reordering : Bool
  pub ends : Dict ℕ ℕ
  pub enabled : ℕ → Bool
  pub servers : Dict ℕ ℕ
  pub connections : Dict ℕ ℕ
  pub heap : ℕ → Server Args Reply State
  pub count : ℕ
  pub bytes : ℕ

-- The maps, with a name set to a Boolean, or to nil.
abbrev pub put_enabled : ℕ → Bool → (ℕ → Bool) → ℕ → Bool
put_enabled e b f x = if e == x then b else f x

abbrev pub delete : ℕ → Dict ℕ ℕ → Dict ℕ ℕ
delete k d x = if k == x then none else d x

module _ {Args Reply State : Type 0} where
  unfoldable pub make_server : Server Args Reply State
  make_server = record { services = empty_dict; count = 0 }

  unfoldable pub add_service :
      Service Args Reply State → Server Args Reply State → Server Args Reply State
  add_service svc rs = record rs { services = update rs.services svc.name svc }

  unfoldable pub make_network : Network Args Reply State
  make_network = record {
    reliable = true;
    long_delays = false;
    long_reordering = false;
    ends = empty_dict;
    enabled = λ e. false;
    servers = empty_dict;
    connections = empty_dict;
    heap = λ a. record { services = empty_dict; count = 0 };
    count = 0;
    bytes = 0;
  }

  unfoldable pub set_reliable : Bool → Network Args Reply State → Network Args Reply State
  set_reliable yes_it rn = record rn { reliable = yes_it }

  unfoldable pub set_long_reordering : Bool → Network Args Reply State → Network Args Reply State
  set_long_reordering yes_it rn = record rn { long_reordering = yes_it }

  unfoldable pub set_long_delays : Bool → Network Args Reply State → Network Args Reply State
  set_long_delays yes_it rn = record rn { long_delays = yes_it }

  -- log.Fatalf on a name that is taken.
  unfoldable pub make_end : ℕ → Network Args Reply State → Outcome (Network Args Reply State)
  make_end endname rn = elim (rn.ends endname) [
    | some _ ↦ panic
    | none ↦ ok record rn {
      ends = update rn.ends endname endname;
      enabled = put_enabled endname false rn.enabled;
      connections = delete endname rn.connections;
    }
  ]

  unfoldable pub add_server : ℕ → ℕ → Network Args Reply State → Network Args Reply State
  add_server servername address rn = record rn { servers = update rn.servers servername address }

  unfoldable pub delete_server : ℕ → Network Args Reply State → Network Args Reply State
  delete_server servername rn = record rn { servers = delete servername rn.servers }

  unfoldable pub connect : ℕ → ℕ → Network Args Reply State → Network Args Reply State
  connect endname servername rn = record rn {
    connections = update rn.connections endname servername;
  }

  unfoldable pub enable : ℕ → Bool → Network Args Reply State → Network Args Reply State
  enable endname b rn = record rn { enabled = put_enabled endname b rn.enabled }

  -- The address of the server that the end reaches, and the server's name.
  unfoldable pub read_endname_info : ℕ → Network Args Reply State → Bool × Option (ℕ × ℕ)
  read_endname_info endname rn = (
    rn.enabled endname,
    elim (rn.connections endname) [
      | none ↦ none
      | some servername ↦ elim (rn.servers servername) [
        | none ↦ none
        | some address ↦ some (servername, address)
      ]
    ],
  )

  unfoldable pub is_server_dead : ℕ → ℕ → ℕ → Network Args Reply State → Bool
  is_server_dead endname servername address rn =
      if not (rn.enabled endname)
      then true
      else elim (rn.servers servername) [ none ↦ true | some now ↦ not (now == address) ]

  -- Service.dispatch: log.Fatalf on an unknown method.
  unfoldable pub call_method :
      Service Args Reply State → ReqMsg Args → State → Outcome (State × ReplyMsg Reply)
  call_method svc req st = elim (svc.methods req.method) [
    | none ↦ panic
    | some function ↦ let r : State × Reply = function req.args st in ok (r.0, some r.1)
  ]

  -- Server.dispatch.
  unfoldable pub dispatch :
      ReqMsg Args
      → Server Args Reply State
      → State
      → Outcome (Server Args Reply State × State × ReplyMsg Reply)
  unfolding call_method
  dispatch req rs st = elim (rs.services req.service) [
    | none ↦ panic
    | some svc ↦ do
      (st', reply) ← call_method svc req st
      ok (record rs { count = rs.count + 1 }, st', reply)
  ]

  unfoldable pub get_count : ℕ → Network Args Reply State → Outcome ℕ
  get_count servername rn = elim (rn.servers servername) [
    | none ↦ panic
    | some address ↦ ok (rn.heap address).count
  ]
