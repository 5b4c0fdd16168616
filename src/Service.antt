-- ===== src/Service.antt =====
-- src/network/grpc_rpc_server.cpp: ClientServiceImpl::HandleRequest, with RaftNode::getLeaderAddress
-- of src/raft/raft_node.cpp. The service has its node (the program never makes one without), so that
-- the test for a null pointer is left out.
pub mod Single
pub mod Poison
use my_raft_kvdb.Base.{
  ℕ, zero, suc, Bool, true, false, not, ◌&&◌, Option, none, some, List, [], ◌∷◌, ◌++◌, length, take,
  drop, if◌then◌else◌, ℤ, pos, ◌==ℤ◌, leb_ℤ,
}
use my_raft_kvdb.Command.{CommandType, put, get, delete}
use my_raft_kvdb.Node.{RaftNode, is_leader}
use my_raft_kvdb.Node.Submit.{Submitted, answered, gave_up, raised, submit_command}
use my_raft_kvdb.Text.{Bytes, codes, same_bytes}

-- ClientRequest: `none` is a number that names no operation, which the protocol lets through.
pub record ClientRequest : Type 0 where
  pub operation : Option CommandType
  pub key : Bytes
  pub value : Bytes

pub record ClientResponse : Type 0 where
  pub success : Bool
  pub is_leader : Bool
  pub value : Bytes
  pub error : Bytes
  pub leader_address : Bytes

-- nodeAddress_ and peerAddresses_, which the server sets once.
pub record Addresses : Type 0 where
  pub own : Bytes
  pub peers : List (ℤ × Bytes)

find_address : ℤ → List (ℤ × Bytes) → Bytes
find_address id [] = []
find_address id ((peer, address) ∷ rest) =
    let other = find_address id rest in if peer ==ℤ id then address else other

-- The text that HandleRequest makes of a request.
unfoldable pub command_text : CommandType → Bytes → Bytes → Bytes
command_text put key value = codes "PUT:" ++ key ++ codes ":" ++ value
command_text get key value = codes "GET:" ++ key
command_text delete key value = codes "DELETE:" ++ key

abbrev empty_response : ClientResponse
empty_response = record {
  success = false;
  is_leader = false;
  value = [];
  error = [];
  leader_address = [];
}

abbrev prefix : Bytes
prefix = codes "VALUE:"

-- What a GET makes of the result.
get_response : Bytes → ClientResponse
get_response result =
    if same_bytes (take 6 result) prefix
    then record empty_response { success = true; is_leader = true; value = drop 6 result }
    else (if same_bytes result (codes "NOT_FOUND")
        then record empty_response { is_leader = true; error = codes "Key not found" }
        else record empty_response { success = true; is_leader = true; value = result })

-- The response to what submitCommand did; `none` is an exception that leaves the handler.
unfoldable pub response : CommandType → Submitted → Option ClientResponse
unfolding get_response
response get (answered result) = some (get_response result)
response put (answered result) = some (record empty_response { success = true; is_leader = true })
response delete (answered result) =
    some (record empty_response { success = true; is_leader = true })
response _ gave_up = some (record empty_response {
  is_leader = true;
  error = codes "Command execution failed or timeout";
})
response _ raised = none

module _ {S : Type 0} where
  -- getLeaderAddress()
  unfoldable pub get_leader_address : Addresses → RaftNode S → Bytes
  unfolding find_address
  get_leader_address a n =
      if is_leader n.state
      then a.own
      else (if leb_ℤ (pos 0) n.leader_id then find_address n.leader_id a.peers else [])

  -- HandleRequest, with submitCommand in one piece.
  unfoldable pub handle_request :
      Addresses → ClientRequest → RaftNode S → RaftNode S × Option ClientResponse
  handle_request a request n =
      if not (is_leader n.state)
      then (
        n,
        some (record empty_response {
          error = codes "Not leader";
          leader_address = get_leader_address a n;
        }),
      )
      else elim request.operation [
        | none ↦ (
          n,
          some (record empty_response { is_leader = true; error = codes "Unknown operation" }),
        )
        | some op ↦
            let (n', result) = submit_command (command_text op request.key request.value) n in
            (n', response op result)
      ]
