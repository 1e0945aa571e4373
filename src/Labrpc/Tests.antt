-- ===== src/Labrpc/Tests.antt =====
-- labrpc/labrpc.go: one end, one server, and a handler that adds to a number.
use m2i8t.Prelude.{
  ℕ, ◌+◌, ◌≡◌, refl, true, some, List, [], ◌∷◌, ok, eq_nat, eq_string, empty_dict, update,
}
use m2i8t.Labrpc.Network.{
  ReqMsg, Service, Server, Network, make_network, make_server, add_service, add_server, connect,
  enable, dispatch, is_server_dead,
}
use m2i8t.Labrpc.Request.{Tick, handled, passed, process_req}

abbrev counter : Service ℕ ℕ ℕ
counter = record { name = "Counter"; methods = update empty_dict "Add" (λ n st. (st + n, st + n)) }

abbrev server : Server ℕ ℕ ℕ
server = add_service counter make_server

abbrev request : ReqMsg ℕ
request = record { endname = 4; service = "Counter"; method = "Add"; args = 3 }

-- MakeEnd has let the end 4 stand, disabled and not connected.
abbrev ready : Network ℕ ℕ ℕ
ready = enable 4 true (connect 4 1 (add_server 1 9 make_network))

dispatch_adds : dispatch request server 10 ≡ ok (record server { count = 1 }, 13, some 13)
unfolding dispatch add_service make_server
dispatch_adds = refl

abbrev ticks : List (Tick ℕ ℕ ℕ)
ticks = passed ready ∷ handled 13 ∷ []

process_req_replies : process_req 5 5 request ready ticks ready ≡ some (some 13)
unfolding process_req enable connect add_server make_network is_server_dead
process_req_replies = refl
