-- ===== src/Rpc.antt =====
-- src/network/simple_rpc_server.cpp: handleClient and processRequest; and
-- src/network/simple_rpc_client.cpp: sendRequestVote and sendAppendEntries, over a transport that
-- stands for the sockets. The server has its node (the program never makes one without), so that the
-- test for a null pointer is left out.
pub mod Exchange
use my_raft_kvdb.Base.{
  ℕ, zero, suc, Bool, true, false, Option, none, some, List, [], ◌∷◌, ◌++◌, take, drop,
  if◌then◌else◌,
}
use my_raft_kvdb.Command.{split_at}
use my_raft_kvdb.Messages.{RequestVoteArgs, RequestVoteReply, AppendEntriesArgs, AppendEntriesReply}
use my_raft_kvdb.Messages.Codec.{
  serialize_vote_args, deserialize_vote_args, serialize_vote_reply, deserialize_vote_reply,
  serialize_append_args, deserialize_append_args, serialize_append_reply, deserialize_append_reply,
}
use my_raft_kvdb.Node.{Env, RaftNode}
use my_raft_kvdb.Node.Append.{handle_append_entries}
use my_raft_kvdb.Node.Election.{handle_request_vote}
use my_raft_kvdb.Text.{Bytes, codes, same_bytes}
use my_raft_kvdb.Text.Scan.{Memory}

-- BUFFER_SIZE - 1
abbrev pub buffer_limit : ℕ
buffer_limit = 65535

-- "ERROR:" + e.what()
abbrev failure : Bytes → Bytes
failure text = codes "ERROR:" ++ text

-- `what` is the text of the exception that a request ends in.
module _ {S : Type 0} (memory : Memory) (what : Bytes → Bytes) where
  unfoldable pub serve_vote : Env → Bytes → RaftNode S → RaftNode S × Bytes
  serve_vote env payload n = elim (deserialize_vote_args payload) [
    | none ↦ (n, failure (what payload))
    | some args ↦
        let (n', reply) = handle_request_vote env args n in
        (n', codes "OK|" ++ serialize_vote_reply reply)
  ]

  -- An exception of the callback behind handleAppendEntries is caught as well.
  unfoldable pub serve_append : Env → Bytes → RaftNode S → RaftNode S × Bytes
  serve_append env payload n = elim (deserialize_append_args memory payload) [
    | none ↦ (n, failure (what payload))
    | some args ↦
        let (n', reply) = handle_append_entries env args n in
        elim reply [
          | none ↦ (n', failure (what payload))
          | some r ↦ (n', codes "OK|" ++ serialize_append_reply r)
        ]
  ]

  -- processRequest(request)
  unfoldable pub process_request : Env → Bytes → RaftNode S → RaftNode S × Bytes
  process_request env request n = elim (split_at b'|' request) [
    | none ↦ (n, codes "ERROR:Invalid request format")
    | some (method, payload) ↦
        if same_bytes method (codes "RequestVote")
        then serve_vote env payload n
        else (if same_bytes method (codes "AppendEntries")
            then serve_append env payload n
            else (n, codes "ERROR:Unknown method: " ++ method))
  ]

  -- handleClient(client_socket), for a request that arrives as one piece: a single recv of at most
  -- BUFFER_SIZE - 1 bytes.
  unfoldable pub handle_client : Env → Bytes → RaftNode S → RaftNode S × Bytes
  handle_client env request n = process_request env (take buffer_limit request) n

-- The payload of a response "OK|payload".
unfoldable pub ok_payload : Bytes → Option Bytes
ok_payload response =
    if same_bytes (take 3 response) (codes "OK|") then some (drop 3 response) else none

-- What an attempt makes of what the transport brought.
unfoldable pub parse_response {ℓ} : {R : Type ℓ} → (Bytes → Option R) → Option Bytes → Option R
unfolding ok_payload
parse_response parse none = none
parse_response parse (some response) = elim (ok_payload response) [
  | none ↦ none
  | some payload ↦ parse payload
]

-- `send` is sendRequest and `hang_up` is disconnect, on the state of the connection and of what is
-- behind it.
module _ {T : Type 0} (send : Bytes → T → T × Option Bytes) (hang_up : T → T) where
  -- The loop of both calls, with the attempts that are left behind this one.
  unfoldable pub attempts {ℓ} : {R : Type ℓ} → (Bytes → Option R) → Bytes → ℕ → T → T × Option R
  attempts parse request zero t =
      let (t', response) = send request t in (t', parse_response parse response)
  attempts parse request (suc left) t =
      let (t', response) = send request t in
      elim (parse_response parse response) [
        | none ↦ attempts parse request left (hang_up t')
        | some r ↦ (t', some r)
      ]

  -- sendRequestVote(args, reply), where `none` is the result false.
  unfoldable pub send_request_vote : ℕ → RequestVoteArgs → T → T × Option RequestVoteReply
  send_request_vote retries args t =
      attempts deserialize_vote_reply (codes "RequestVote|" ++ serialize_vote_args args) retries t

  -- sendAppendEntries(args, reply)
  unfoldable pub send_append_entries : ℕ → AppendEntriesArgs → T → T × Option AppendEntriesReply
  send_append_entries retries args t =
      attempts deserialize_append_reply (codes "AppendEntries|" ++ serialize_append_args args)
        retries t
