-- ===== src/Service/Single.antt =====
-- src/network/grpc_rpc_server.cpp, src/raft/raft_node.cpp and src/storage/kv_store.cpp together: what
-- a client of a cluster of one gets from a store with given contents.
use my_raft_kvdb.Base.{
  ◌≡◌, refl, ap, ◌∙◌, true, false, Option, none, some, [], ◌++◌, length, ℕ, suc, pos, append_assoc,
}
use my_raft_kvdb.Command.{Command, CommandType, put, get, delete, print_command}
use my_raft_kvdb.Command.RoundTrip.{IsPrintable, parse_command-print_command}
use my_raft_kvdb.KvStore.{SkipListOps, apply_command_with_result}
use my_raft_kvdb.KvStore.Refine.{
  IsSortedMap, Contents, contents, spec_answer, spec_apply, spec_command,
  apply_command_with_result_lem,
}
use my_raft_kvdb.Node.{RaftNode, leader}
use my_raft_kvdb.Node.Apply.{run_callback}
use my_raft_kvdb.Node.Submit.{answered, submit_command}
use my_raft_kvdb.Node.Submit.Single.{submitted, submit_command_single}
use my_raft_kvdb.Service.{Addresses, ClientResponse, command_text, response, handle_request}
use my_raft_kvdb.Text.{Bytes, codes, same_bytes}

-- The handler writes the text of the command.
command_text-print_command :
    (op : CommandType) (key value : Bytes)
    → command_text op key value ≡ print_command (record { type = op; key = key; value = value })
unfolding command_text print_command
command_text-print_command put key value = append_assoc (codes "PUT:" ++ key) (codes ":") value
command_text-print_command get key value = refl
command_text-print_command delete key value = refl

abbrev pub done : ClientResponse
done = record { success = true; is_leader = true; value = []; error = []; leader_address = [] }

abbrev pub found_response : Option Bytes → ClientResponse
found_response none = record done { success = false; error = codes "Key not found" }
found_response (some value) = record done { value = value }

-- The response to a command on a store with the given contents.
abbrev pub spec_response : Command → Contents → ClientResponse
spec_response c f = elim c.type [ put ↦ done | get ↦ found_response (f c.key) | delete ↦ done ]

get_response_lem :
    (o : Option Bytes) → response get (answered (spec_answer o)) ≡ some (found_response o)
unfolding response same_bytes
get_response_lem none = refl
get_response_lem (some v) = refl

response_lem :
    (op : CommandType) (key value : Bytes) (f : Contents)
    → let c : Command = record { type = op; key = key; value = value } in
      response op (submitted (spec_command c f).0) ≡ some (spec_response c f)
unfolding response
response_lem put key value f = refl
response_lem get key value f = get_response_lem (f key)
response_lem delete key value f = refl

-- A printable command has on the map the effect that its type says.
spec_apply-text :
    (op : CommandType) (key value : Bytes) (f : Contents)
    → let c : Command = record { type = op; key = key; value = value } in
      IsPrintable c → spec_apply (command_text op key value) f ≡ spec_command c f
unfolding spec_apply
spec_apply-text op key value f h =
    let c : Command = record { type = op; key = key; value = value } in
    rw (command_text-print_command op key value) (rw (parse_command-print_command c h) refl)

module _ {M : Type 0} (ops : SkipListOps M) (laws : IsSortedMap ops) where
  handle_request_leader :
      (a : Addresses) (op : CommandType) (key value : Bytes) (n : RaftNode M)
      → n.state ≡ leader
      → let (m, result) = submit_command (command_text op key value) n in
        handle_request a (record { operation = some op; key = key; value = value }) n
        ≡ (m, response op result)
  unfolding handle_request
  handle_request_leader a op key value n e = rw e refl

  callback_lem :
      (n : RaftNode M) (text : Bytes)
      → n.apply_callback ≡ some (apply_command_with_result ops)
      → run_callback n.apply_callback text n.machine ≡ apply_command_with_result ops text n.machine
  unfolding run_callback
  callback_lem n text e = rw e refl

  -- Over a lawful skip list: in a cluster of one whose leader has applied its whole log, a request
  -- for a command that can be read back (a key that is not empty and, for a PUT, has no colon; no
  -- value but for a PUT) gets the response, and has the effect on the store, that its command has
  -- on a map with the same contents.
  pub handle_request_lem :
      (a : Addresses) (op : CommandType) (key value : Bytes) (n : RaftNode M) (k : ℕ)
      → IsPrintable (record { type = op; key = key; value = value })
      → n.apply_callback ≡ some (apply_command_with_result ops)
      → n.state ≡ leader
      → n.peer_ids ≡ []
      → n.last_applied ≡ pos k
      → length n.log ≡ suc k
      → let c : Command = record { type = op; key = key; value = value } in
        let (m, r) =
          handle_request a (record { operation = some op; key = key; value = value }) n in
        (r ≡ some (spec_response c (contents ops laws n.machine)))
        × ((x : Bytes)
            → ops.search x m.machine ≡ (spec_command c (contents ops laws n.machine)).1 x)
  handle_request_lem a op key value n k h cb e p l s =
      let text = command_text op key value in
      let (result, machine, _, _, _) = submit_command_single text n k e p l s in
      let (answer, effect) = apply_command_with_result_lem ops laws text n.machine in
      let called = callback_lem n text cb in
      let spec = spec_apply-text op key value (contents ops laws n.machine) h in
      let f = contents ops laws n.machine in
      rw (handle_request_leader a op key value n e) (
        ap (response op) (
              result
              ∙ ap (λ r. submitted r.0) called
              ∙ ap submitted answer
              ∙ ap (λ r. submitted r.0) spec)
            ∙ response_lem op key value f,
        λ x. ap (ops.search x) (machine ∙ ap (λ r. r.1) called) ∙ effect x ∙ ap (λ r. r.1 x) spec,
      )
