-- ===== src/Rpc/Exchange.antt =====
-- src/network/simple_rpc_client.cpp and src/network/simple_rpc_server.cpp together: a call over a
-- transport that loses requests, brings the others in one piece, and cuts what does not fit the
-- buffer of a side.
use my_raft_kvdb.Base.{
  ℕ, zero, suc, ◌≤◌, ◌≡◌, refl, ap, ◌∙◌, Option, none, some, ◌++◌, arith, length, take, take_all,
}
use my_raft_kvdb.Command.{split_at}
use my_raft_kvdb.Messages.{RequestVoteArgs, RequestVoteReply, AppendEntriesArgs, AppendEntriesReply}
use my_raft_kvdb.Messages.Codec.{
  serialize_vote_args, serialize_vote_reply, deserialize_vote_reply, serialize_append_args,
  serialize_append_reply, deserialize_append_reply,
}
use my_raft_kvdb.Messages.RoundTrip.{
  IsIntVote, vote_args_roundtrip, vote_reply_roundtrip, IsSendable, append_args_roundtrip,
  IsIntReply, append_reply_roundtrip,
}
use my_raft_kvdb.Node.{Env, RaftNode}
use my_raft_kvdb.Node.Append.{handle_append_entries}
use my_raft_kvdb.Node.Election.{handle_request_vote}
use my_raft_kvdb.Rpc.{
  buffer_limit, serve_vote, serve_append, process_request, handle_client, parse_response, attempts,
  send_request_vote, send_append_entries,
}
use my_raft_kvdb.Text.{Bytes, codes, same_bytes}
use my_raft_kvdb.Text.Numbers.{IsInt}
use my_raft_kvdb.Text.Scan.{Memory}

vote_response :
    (r : RequestVoteReply)
    → IsInt r.term
    → parse_response deserialize_vote_reply (some (codes "OK|" ++ serialize_vote_reply r)) ≡ some r
unfolding parse_response same_bytes
vote_response r h = vote_reply_roundtrip r h

append_response :
    (r : AppendEntriesReply)
    → IsIntReply r
    → parse_response deserialize_append_reply (some (codes "OK|" ++ serialize_append_reply r))
      ≡ some r
unfolding parse_response same_bytes
append_response r h = append_reply_roundtrip r h

-- An attempt that brings a response, and one that brings none.
module _ {T R : Type 0} (send : Bytes → T → T × Option Bytes) (parse : Bytes → Option R)
    (request : Bytes) where
  abbrev after : ℕ → T × Option Bytes → T × Option R
  after left (u, o) = elim (parse_response parse o) [
    | none ↦ attempts send (λ t. t) parse request left u
    | some r ↦ (u, some r)
  ]

  attempts_now :
      (response : Bytes) (r : R) (retries : ℕ) (t t' : T)
      → send request t ≡ (t', some response)
      → parse_response parse (some response) ≡ some r
      → attempts send (λ t. t) parse request retries t ≡ (t', some r)
  unfolding attempts
  attempts_now response r zero t t' e p =
      ap (λ (x : T × Option Bytes). (x.0, parse_response parse x.1)) e ∙ ap (λ o. (t', o)) p
  attempts_now response r (suc retries) t t' e p =
      ap (after retries) e
      ∙ ap
          (λ o. elim o [
            | none ↦ attempts send (λ t. t) parse request retries t'
            | some r ↦ (t', some r)
          ])
          p

  attempts_again :
      (retries : ℕ) (t t' : T)
      → send request t ≡ (t', none)
      → attempts send (λ t. t) parse request (suc retries) t
        ≡ attempts send (λ t. t) parse request retries t'
  unfolding attempts parse_response
  attempts_again retries t t' e = ap (after retries) e

module _ {S : Type 0} (memory : Memory) (what : Bytes → Bytes) where
  -- sendRequest over a connection to a server whose first requests are lost, with the number of those
  -- still to be lost. What the server sends arrives as one piece, of which one recv takes at most
  -- BUFFER_SIZE - 1 bytes.
  unfoldable pub transport : Env → Bytes → ℕ × RaftNode S → (ℕ × RaftNode S) × Option Bytes
  transport env request (zero, n) =
      let (n', response) = handle_client memory what env request n in
      ((zero, n'), some (take buffer_limit response))
  transport env request (suc lost, n) = ((lost, n), none)

  serve_vote_lem :
      (env : Env) (args : RequestVoteArgs) (n : RaftNode S)
      → IsIntVote args
      → serve_vote memory what env (serialize_vote_args args) n ≡ (
        (handle_request_vote env args n).0,
        codes "OK|" ++ serialize_vote_reply (handle_request_vote env args n).1,
      )
  unfolding serve_vote
  serve_vote_lem env args n h = rw (vote_args_roundtrip args h, serve_vote) refl

  serve_append_lem :
      (env : Env) (args : AppendEntriesArgs) (n n' : RaftNode S) (reply : AppendEntriesReply)
      → IsSendable memory args
      → handle_append_entries env args n ≡ (n', some reply)
      → serve_append memory what env (serialize_append_args args) n
        ≡ (n', codes "OK|" ++ serialize_append_reply reply)
  unfolding serve_append
  serve_append_lem env args n n' reply h e =
      rw (append_args_roundtrip memory args h, e, serve_append)
        (ap (λ r. (r.0, codes "OK|" ++ serialize_append_reply reply)) e)

  process_vote :
      (env : Env) (args : RequestVoteArgs) (n : RaftNode S)
      → IsIntVote args
      → process_request memory what env (codes "RequestVote|" ++ serialize_vote_args args) n ≡ (
        (handle_request_vote env args n).0,
        codes "OK|" ++ serialize_vote_reply (handle_request_vote env args n).1,
      )
  unfolding process_request split_at same_bytes
  process_vote env args n h = serve_vote_lem env args n h

  process_append :
      (env : Env) (args : AppendEntriesArgs) (n n' : RaftNode S) (reply : AppendEntriesReply)
      → IsSendable memory args
      → handle_append_entries env args n ≡ (n', some reply)
      → process_request memory what env (codes "AppendEntries|" ++ serialize_append_args args) n
        ≡ (n', codes "OK|" ++ serialize_append_reply reply)
  unfolding process_request split_at same_bytes
  process_append env args n n' reply h e = serve_append_lem env args n n' reply h e

  transport_lem :
      (env : Env) (request response : Bytes) (n n' : RaftNode S)
      → length request ≤ buffer_limit
      → length response ≤ buffer_limit
      → process_request memory what env request n ≡ (n', response)
      → transport env request (0, n) ≡ ((0, n'), some response)
  unfolding transport handle_client
  transport_lem env request response n n' lr ls e =
      rw (take_all buffer_limit request lr)
        (rw e (ap (λ s. ((0, n'), some s)) (take_all buffer_limit response ls)))

  transport_lost :
      (env : Env) (request : Bytes) (lost : ℕ) (n : RaftNode S)
      → transport env request (suc lost, n) ≡ ((lost, n), none)
  unfolding transport
  transport_lost env request lost n = refl

  -- Where enough attempts are left, the request reaches the server once, and its response is parsed.
  attempts_lem :
      {R : Type 0} (parse : Bytes → Option R) (env : Env) (request response : Bytes) (r : R)
      (retries lost : ℕ) (n n' : RaftNode S)
      → lost ≤ retries
      → transport env request (0, n) ≡ ((0, n'), some response)
      → parse_response parse (some response) ≡ some r
      → attempts (transport env) (λ t. t) parse request retries (lost, n) ≡ ((0, n'), some r)
  attempts_lem parse env request response r retries zero n n' h e p =
      attempts_now (transport env) parse request response r retries (0, n) (0, n') e p
  attempts_lem parse env request response r zero (suc lost) n n' h e p = elim h [ ]
  attempts_lem parse env request response r (suc retries) (suc lost) n n' h e p =
      attempts_again (transport env) parse request retries (suc lost, n) (lost, n)
        (transport_lost env request lost n)
      ∙ attempts_lem parse env request response r retries lost n n' (omega arith) e p

  -- A RequestVote whose integers and whose reply's term fit an int, sent with at least as many retries
  -- as the transport loses requests, has the effect and the reply of one call of handleRequestVote.
  send_request_vote_lem :
      (env : Env) (args : RequestVoteArgs) (n : RaftNode S) (retries lost : ℕ)
      → IsIntVote args
      → IsInt (handle_request_vote env args n).1.term
      → length (codes "RequestVote|" ++ serialize_vote_args args) ≤ buffer_limit
      → length (codes "OK|" ++ serialize_vote_reply (handle_request_vote env args n).1)
        ≤ buffer_limit
      → lost ≤ retries
      → let (n', reply) = handle_request_vote env args n in
        send_request_vote (transport env) (λ t. t) retries args (lost, n) ≡ ((0, n'), some reply)
  unfolding send_request_vote
  send_request_vote_lem env args n retries lost h r lr ls l =
      attempts_lem deserialize_vote_reply env _ _ _ retries lost n _ l
        (transport_lem env _ _ n _ lr ls (process_vote env args n h))
        (vote_response (handle_request_vote env args n).1 r)

  -- An AppendEntries that fits its types and the memory is sent with at least as many retries as
  -- the transport loses requests, to a server whose handleAppendEntries returns a reply of int
  -- values; the texts of the request and of the response fit the buffers of 65535 bytes and arrive
  -- in one piece. The call then has the effect and the reply of one call of that handler.
  pub send_append_entries_lem :
      (env : Env) (args : AppendEntriesArgs) (n n' : RaftNode S) (reply : AppendEntriesReply)
      (retries lost : ℕ)
      → IsSendable memory args
      → handle_append_entries env args n ≡ (n', some reply)
      → IsIntReply reply
      → length (codes "AppendEntries|" ++ serialize_append_args args) ≤ buffer_limit
      → length (codes "OK|" ++ serialize_append_reply reply) ≤ buffer_limit
      → lost ≤ retries
      → send_append_entries (transport env) (λ t. t) retries args (lost, n) ≡ ((0, n'), some reply)
  unfolding send_append_entries
  send_append_entries_lem env args n n' reply retries lost h e r lr ls l =
      attempts_lem deserialize_append_reply env _ _ reply retries lost n n' l
        (transport_lem env _ _ n n' lr ls (process_append env args n n' reply h e))
        (append_response reply r)
