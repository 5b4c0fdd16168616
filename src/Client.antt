-- ===== src/Client.antt =====
-- src/client/kv_client.cpp and include/client/kv_client.h: the class KVClient, over a transport that
-- is a parameter: `call` sends a request to ClientService::HandleRequest of the server at an address,
-- with a timeout in milliseconds, on a state of whatever is outside the client. The channel and the
-- stub that each request makes are part of the call.
pub mod Attempts
pub mod Success
pub mod Start
pub mod Stable
use my_raft_kvdb.Base.{
  ℕ, zero, suc, Bool, true, false, not, Option, none, some, List, [], ◌∷◌, ◌++◌, if◌then◌else◌, ℤ,
  pos, pos_part,
}
use my_raft_kvdb.Command.{CommandType, put, get, delete}
use my_raft_kvdb.Service.{ClientRequest, ClientResponse}
use my_raft_kvdb.Text.{Bytes, codes, same_bytes, print_int}

-- grpc::Status with its message, or the response.
pub data RpcResult : Type 0 where
  rpc_failed : Bytes → RpcResult
  replied : ClientResponse → RpcResult

-- The fields but for the mutex, which no call holds at its start.
pub record KvClient : Type 0 where
  pub server_addresses : List Bytes
  pub current_leader : Bytes
  pub timeout_ms : ℤ
  pub max_retries : ℤ
  pub last_error : Bytes

-- KVClient(server_addresses)
abbrev pub new_client : List Bytes → KvClient
new_client addresses = record {
  server_addresses = addresses;
  current_leader = [];
  timeout_ms = pos 5000;
  max_retries = pos 3;
  last_error = [];
}

-- disconnect()
abbrev pub disconnect : KvClient → KvClient
disconnect c = record c { current_leader = [] }

-- setTimeout and setMaxRetries
abbrev pub set_timeout : ℤ → KvClient → KvClient
set_timeout timeout_ms c = record c { timeout_ms = timeout_ms }

abbrev pub set_max_retries : ℤ → KvClient → KvClient
set_max_retries max_retries c = record c { max_retries = max_retries }

abbrev pub is_empty : Bytes → Bool
is_empty [] = true
is_empty (b ∷ s) = false

-- The request of findLeader.
abbrev pub probe : ClientRequest
probe = record { operation = some get; key = codes "__probe__"; value = [] }

-- The request of sendRequest, where `none` is an unknown operation.
unfoldable pub make_request : Bytes → Bytes → Bytes → Option ClientRequest
make_request operation key value =
    if same_bytes operation (codes "PUT")
    then some (record { operation = some put; key = key; value = value })
    else (if same_bytes operation (codes "GET")
        then some (record { operation = some get; key = key; value = [] })
        else (if same_bytes operation (codes "DELETE")
            then some (record { operation = some delete; key = key; value = [] })
            else none))

abbrev pub set_error : Bytes → KvClient → KvClient
set_error text c = record c { last_error = text }

abbrev pub set_leader : Bytes → KvClient → KvClient
set_leader address c = record c { current_leader = address }

-- The client, the variable for the result, and what is outside, while a call runs.
pub record Session (W : Type 0) : Type 0 where
  pub client : KvClient
  pub result : Bytes
  pub world : W

-- A call returns, or its thread locks the mutex that it holds already.
pub data Outcome (W : Type 0) : Type 0 where
  returned : Bool → Session W → Outcome W
  blocked : Session W → Outcome W

-- What sendRequest makes of a response, for a caller that holds the mutex.
unfoldable pub take_response : {W : Type 0} → Bytes → ClientResponse → Session W → Outcome W
take_response operation response s =
    if not response.is_leader
    then (if not (is_empty response.leader_address)
        then blocked s
        else returned false (record s {
          client =
              set_error (codes "Not leader, redirect to: " ++ response.leader_address) s.client;
        }))
    else (if not response.success
        then returned false (record s { client = set_error response.error s.client })
        else (if same_bytes operation (codes "GET")
            then returned true (record s { result = response.value })
            else returned true s))

unfoldable pub take_result : {W : Type 0} → Bytes → RpcResult → Session W → Outcome W
take_result operation (rpc_failed text) s =
    returned false (record s { client = set_error (codes "RPC failed: " ++ text) s.client })
take_result operation (replied response) s = take_response operation response s

-- What follows a request that did not succeed.
abbrev pub or_else : {W : Type 0} → Outcome W → (Session W → Outcome W) → Outcome W
or_else (returned true s) f = returned true s
or_else (returned false s) f = f s
or_else (blocked s) f = blocked s

-- What findLeader makes of an answer, where `rest` is what the servers behind give.
abbrev pub probed : {W : Type 0} → Bytes → RpcResult → W → W × Bytes → W × Bytes
probed address (rpc_failed text) w rest = rest
probed address (replied response) w rest =
    if response.is_leader
    then (w, address)
    else (if not (is_empty response.leader_address) then (w, response.leader_address) else rest)

module _ {W : Type 0} (call : Bytes → ClientRequest → ℤ → W → W × RpcResult) where
  -- findLeader(), where an empty address is none.
  unfoldable pub find_leader : List Bytes → W → W × Bytes
  find_leader [] w = (w, [])
  find_leader (address ∷ addresses) w =
      let (w', r) = call address probe (pos 1000) w in
      probed address r w' (find_leader addresses w')

  -- connect()
  unfoldable pub connect : KvClient → W → (KvClient × W) × Bool
  connect c w = elim c.server_addresses [
    | [] ↦ ((set_error (codes "No server addresses provided") c, w), false)
    | address ∷ addresses ↦
        let (w', leader) = find_leader (address ∷ addresses) w in
        ((set_leader leader c, w'), not (is_empty leader))
  ]

  -- sendRequest, from the call on.
  unfoldable pub send_made : Bytes → Bytes → Option ClientRequest → Session W → Outcome W
  send_made address operation none s =
      returned false
        (record s { client = set_error (codes "Unknown operation: " ++ operation) s.client })
  send_made address operation (some request) s =
      let (w, r) = call address request s.client.timeout_ms s.world in
      take_result operation r (record s { world = w })

  -- sendRequest(server_address, operation, key, value, result)
  unfoldable pub send_request : Bytes → Bytes → Bytes → Bytes → Session W → Outcome W
  send_request address operation key value s =
      send_made address operation (make_request operation key value) s

  -- The loop of executeOperation, with the turns that are left and the number of the turn.
  unfoldable pub retries : Bytes → Bytes → Bytes → ℕ → ℕ → Session W → Outcome W
  retries operation key value zero retry s =
      returned false (record s { client = set_error (codes "Max retries exceeded") s.client })
  retries operation key value (suc left) retry s =
      or_else (send_request s.client.current_leader operation key value s) (λ s1.
        let (w, leader) = find_leader s1.client.server_addresses s1.world in
        elim (is_empty leader) [
          | true ↦ retries operation key value left (suc retry) (record s1 {
            client =
                set_error (codes "Cannot find leader after retry " ++ print_int (pos (suc retry)))
                  s1.client;
            world = w;
          })
          | false ↦
              let s2 : Session W = record s1 { client = set_leader leader s1.client; world = w } in
              or_else (send_request leader operation key value s2)
                (retries operation key value left (suc retry))
        ])

  -- executeOperation
  unfoldable pub execute_operation : Bytes → Bytes → Bytes → Session W → Outcome W
  execute_operation operation key value s = elim (is_empty s.client.current_leader) [
    | false ↦ retries operation key value (pos_part s.client.max_retries) 0 s
    | true ↦
        let (w, leader) = find_leader s.client.server_addresses s.world in
        let s1 : Session W = record s { client = set_leader leader s.client; world = w } in
        elim (is_empty leader) [
          | true ↦
              returned false
                (record s1 { client = set_error (codes "Cannot find leader") s1.client })
          | false ↦ retries operation key value (pos_part s1.client.max_retries) 0 s1
        ]
  ]

  -- put(key, value)
  unfoldable pub put_key : Bytes → Bytes → KvClient → W → Outcome W
  put_key key value c w =
      execute_operation (codes "PUT") key value (record { client = c; result = []; world = w })

  -- get(key, value), with what the variable `value` held.
  unfoldable pub get_key : Bytes → Bytes → KvClient → W → Outcome W
  get_key key value c w =
      execute_operation (codes "GET") key [] (record { client = c; result = value; world = w })

  -- remove(key)
  unfoldable pub remove_key : Bytes → KvClient → W → Outcome W
  remove_key key c w =
      execute_operation (codes "DELETE") key [] (record { client = c; result = []; world = w })
