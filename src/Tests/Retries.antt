-- ===== src/Tests/Retries.antt =====
-- A client of two servers, of which the second leads; what is outside counts the requests.
use my_raft_kvdb.Base.{
  ℕ, suc, ◌+◌, ◌*◌, ◌≤◌, ◌≡◌, refl, true, false, some, [], ◌∷◌, ℤ, if◌then◌else◌, arith, inl, inr,
}
use my_raft_kvdb.Client.Attempts.{session_of, execute_operation_bound}
use my_raft_kvdb.Client.Stable.{Follows, Accepts, Leads, execute_operation_stable}
use my_raft_kvdb.Client.Success.{Promise, execute_operation-Promise}
use my_raft_kvdb.Client.{
  RpcResult, replied, KvClient, new_client, probe, make_request, Session, returned,
  execute_operation,
}
use my_raft_kvdb.Command.{put}
use my_raft_kvdb.Service.{ClientRequest, ClientResponse}
use my_raft_kvdb.Text.{Bytes, codes, same_bytes}

abbrev accepted : ClientResponse
accepted = record {
  success = true;
  is_leader = true;
  value = codes "1";
  error = [];
  leader_address = [];
}

abbrev redirect : ClientResponse
redirect = record {
  success = false;
  is_leader = false;
  value = [];
  error = codes "Not leader";
  leader_address = codes "b:2";
}

abbrev call_pair : Bytes → ClientRequest → ℤ → ℕ → ℕ × RpcResult
call_pair address request timeout sent =
    (suc sent, if same_bytes address (codes "b:2") then replied accepted else replied redirect)

abbrev pair : KvClient
pair = new_client (codes "a:1" ∷ codes "b:2" ∷ [])

abbrev fresh_session : Session ℕ
fresh_session = record { client = pair; result = []; world = 0 }

abbrev stale_session : Session ℕ
stale_session = record {
  client = record pair { current_leader = codes "a:1" };
  result = [];
  world = 0;
}

execute_operation_bound_example :
    (session_of call_pair
      (λ w. w)
      (λ a r t w. omega arith)
      (execute_operation call_pair (codes "GET") (codes "x") [] fresh_session)).world
    ≤ 0 + (2 + 3 * (2 + 2))
execute_operation_bound_example =
    execute_operation_bound call_pair (λ w. w) (λ a r t w. omega arith) (codes "GET") (codes "x") []
      fresh_session

execute_operation-Promise_example :
    Promise call_pair
      (codes "GET")
      (codes "x")
      []
      []
      (execute_operation call_pair (codes "GET") (codes "x") [] fresh_session)
execute_operation-Promise_example =
    execute_operation-Promise call_pair (codes "GET") (codes "x") [] [] fresh_session refl

-- The second server as the program answers: it takes a PUT and has nothing for a GET.
abbrev no_key : ClientResponse
no_key = record accepted { success = false; value = []; error = codes "Key not found" }

abbrev answer_of : ClientRequest → ClientResponse
answer_of request = elim request.operation [
  | some put ↦ record accepted { value = [] }
  | _ ↦ no_key
]

abbrev call_empty : Bytes → ClientRequest → ℤ → ℕ → ℕ × RpcResult
call_empty address request timeout sent = (
  suc sent,
  if same_bytes address (codes "b:2") then replied (answer_of request) else replied redirect,
)

abbrev put_x : ClientRequest
put_x = record { operation = some put; key = codes "x"; value = codes "1" }

empty-Leads : (t : ℤ) (w : ℕ) → Leads (call_empty (codes "b:2") probe t w).1
unfolding same_bytes
empty-Leads t w = refl

empty-Accepts : (t : ℤ) (w : ℕ) → Accepts (call_empty (codes "b:2") put_x t w).1
unfolding same_bytes
empty-Accepts t w = (refl, refl)

empty-Follows :
    (address : Bytes)
    → same_bytes address (codes "b:2") ≡ false
    → (t : ℤ) (w : ℕ) → Follows (codes "b:2") (call_empty address probe t w).1
empty-Follows address e t w = rw e (refl, inr refl)

execute_operation_stable_example :
    (s : Session ℕ) × (execute_operation call_empty
        (codes "PUT")
        (codes "x")
        (codes "1")
        fresh_session
      ≡ returned true s)
    × (s.client.current_leader ≡ codes "b:2")
unfolding make_request same_bytes
execute_operation_stable_example =
    execute_operation_stable call_empty (codes "b:2") refl put_x empty-Leads empty-Accepts
      empty-Follows (codes "PUT") (codes "x") (codes "1") fresh_session refl (inr (inl refl))
      (inl refl) (omega arith)
