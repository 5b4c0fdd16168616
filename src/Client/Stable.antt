-- ===== src/Client/Stable.antt =====
-- src/client/kv_client.cpp: operations on a cluster with a leader that answers.
use my_raft_kvdb.Base.{
  ℕ, zero, suc, ◌<◌, ◌≡◌, refl, ap, sym, subst, ◌∙◌, true, false, some, List, [], ◌∷◌, ◌++◌, ℤ, pos,
  pos_part, arith, inl, inr, Bool-cases, ◌⊎◌,
}
use my_raft_kvdb.Client.{
  RpcResult, rpc_failed, replied, KvClient, is_empty, probe, probed, make_request, set_error,
  set_leader, find_leader, Session, Outcome, returned, take_response, take_result, send_made,
  send_request, or_else, retries, execute_operation,
}
use my_raft_kvdb.Client.Start.{execute_known, execute_unknown}
use my_raft_kvdb.Service.{ClientRequest}
use my_raft_kvdb.SkipList.Order.{same_bytes_lem, same_bytes_refl}
use my_raft_kvdb.Text.{Bytes, codes, same_bytes}

-- A request that fails, or is answered by a server that is not the leader and names no other than
-- `leader`.
abbrev pub Follows : Bytes → RpcResult → Type 0
Follows leader (rpc_failed text) = Unit {0}
Follows leader (replied response) =
    (response.is_leader ≡ false)
    × ((response.leader_address ≡ []) ⊎ (response.leader_address ≡ leader))

abbrev pub Accepts : RpcResult → Type 0
Accepts (rpc_failed text) = ⊥
Accepts (replied response) = (response.is_leader ≡ true) × (response.success ≡ true)

abbrev pub Leads : RpcResult → Type 0
Leads (rpc_failed text) = ⊥
Leads (replied response) = response.is_leader ≡ true

abbrev pub Fails : RpcResult → Type 0
Fails (rpc_failed text) = Unit {0}
Fails (replied response) = ⊥

abbrev pub HasAddress : Bytes → List Bytes → Type 0
HasAddress leader [] = ⊥
HasAddress leader (address ∷ addresses) = (address ≡ leader) ⊎ HasAddress leader addresses

module _ {W : Type 0} (call : Bytes → ClientRequest → ℤ → W → W × RpcResult) (leader : Bytes)
    (named : is_empty leader ≡ false) (request : ClientRequest)
    (leads : (t : ℤ) (w : W) → Leads (call leader probe t w).1)
    (accepts : (t : ℤ) (w : W) → Accepts (call leader request t w).1) where
  take_accepted :
      (operation : Bytes) (r : RpcResult) (s : Session W)
      → Accepts r
      → (s' : Session W) × (take_result operation r s ≡ returned true s') × (s'.client ≡ s.client)
  unfolding take_result take_response
  take_accepted operation (replied response) s (l, g) =
      elim (Bool-cases (same_bytes operation (codes "GET"))) [
        | inl e ↦ (record s { result = response.value }, rw (l, g, e) refl, refl)
        | inr e ↦ (s, rw (l, g, e) refl, refl)
      ]
  take_accepted operation (rpc_failed text) s a = elim a [ ]

  send_accepted :
      (operation key value : Bytes) (s : Session W)
      → make_request operation key value ≡ some request
      → (s' : Session W) × (send_request call leader operation key value s ≡ returned true s')
        × (s'.client ≡ s.client)
  unfolding send_request send_made
  send_accepted operation key value s m =
      let (w, r) = call leader request s.client.timeout_ms s.world in
      let (s', e, c) =
        take_accepted operation r (record s { world = w }) (accepts s.client.timeout_ms s.world) in
      (s', rw m e, c)

  send_to_leader :
      (address operation key value : Bytes) (s : Session W)
      → make_request operation key value ≡ some request
      → address ≡ leader
      → (s' : Session W) × (send_request call address operation key value s ≡ returned true s')
        × (s'.client ≡ s.client)
  send_to_leader address operation key value s m a =
      let (s', e, c) = send_accepted operation key value s m in
      (s', ap (λ k. send_request call k operation key value s) a ∙ e, c)

  stops :
      (o : Outcome W) (s' : Session W) (f : Session W → Outcome W)
      → o ≡ returned true s'
      → or_else o f ≡ returned true s'
  stops o s' f e = rw e refl

  -- A server that is known to lead gets the operation at once.
  first_turn :
      (operation key value : Bytes) (left : ℕ) (s : Session W)
      → make_request operation key value ≡ some request
      → s.client.current_leader ≡ leader
      → 0 < left
      → (s' : Session W) × (retries call operation key value left 0 s ≡ returned true s')
        × (s'.client.current_leader ≡ leader)
  unfolding retries
  first_turn operation key value zero s m c l = elim l [ ]
  first_turn operation key value (suc left) s m c l =
      let (s', e, same) = send_to_leader s.client.current_leader operation key value s m c in
      (
        s',
        stops (send_request call s.client.current_leader operation key value s) s' _ e,
        ap (λ (k : KvClient). k.current_leader) same ∙ c,
      )

  module _
      (follow : (address : Bytes)
        → same_bytes address leader ≡ false
        → (t : ℤ) (w : W) → Follows leader (call address probe t w).1) where
    found_leader :
        (address : Bytes) (r : RpcResult) (w : W) (rest : W × Bytes)
        → address ≡ leader
        → Leads r
        → (probed address r w rest).1 ≡ leader
    found_leader address (rpc_failed text) w rest e a = elim a [ ]
    found_leader address (replied response) w rest e l = rw l e

    passed_follower :
        (address : Bytes) (r : RpcResult) (w : W) (rest : W × Bytes)
        → Follows leader r
        → rest.1 ≡ leader
        → (probed address r w rest).1 ≡ leader
    passed_follower address (rpc_failed text) w rest f e = e
    passed_follower address (replied response) w rest (l, inl f) e = rw (l, f) e
    passed_follower address (replied response) w rest (l, inr f) e = rw (l, f, named) refl

    behind :
        (address : Bytes) (addresses : List Bytes)
        → HasAddress leader (address ∷ addresses)
        → same_bytes address leader ≡ false
        → HasAddress leader addresses
    behind address addresses (inl e) other =
        let same = same_bytes_refl leader in
        let differs : same_bytes leader leader ≡ false = rw e at other in ground arith
    behind address addresses (inr h) other = h

    find_leader-HasAddress :
        (addresses : List Bytes) (w : W)
        → HasAddress leader addresses
        → (find_leader call addresses w).1 ≡ leader
    unfolding find_leader
    find_leader-HasAddress [] w h = elim h [ ]
    find_leader-HasAddress (address ∷ addresses) w h =
        let (w', r) = call address probe (pos 1000) w in
        elim (Bool-cases (same_bytes address leader)) [
          | inl same ↦
              let e = same_bytes_lem address leader same in
              found_leader address r w' _ e
                (subst (λ a. Leads (call a probe (pos 1000) w).1) (sym e) (leads (pos 1000) w))
          | inr other ↦
              passed_follower address r w' _ (follow address other (pos 1000) w)
                (find_leader-HasAddress addresses w' (behind address addresses h other))
        ]

    Fails-first :
        (r : RpcResult) (operation : Bytes) (s : Session W)
        → Fails r
        → (text : Bytes) × (take_result operation r s
            ≡ returned false (record s { client = set_error text s.client }))
    unfolding take_result
    Fails-first (rpc_failed text) operation s f = (codes "RPC failed: " ++ text, refl)
    Fails-first (replied response) operation s f = elim f [ ]

    -- A known leader that is down is replaced.
    second_turn :
        (operation key value : Bytes) (left : ℕ) (s : Session W)
        → make_request operation key value ≡ some request
        → HasAddress leader s.client.server_addresses
        → ((t : ℤ) (w : W) → Fails (call s.client.current_leader request t w).1)
        → 0 < left
        → (s' : Session W) × (retries call operation key value left 0 s ≡ returned true s')
          × (s'.client.current_leader ≡ leader)
    unfolding retries send_request send_made
    second_turn operation key value zero s m h f l = elim l [ ]
    second_turn operation key value (suc left) s m h f l =
        let (w1, r1) = call s.client.current_leader request s.client.timeout_ms s.world in
        let (text, e) =
          Fails-first r1 operation (record s { world = w1 }) (f s.client.timeout_ms s.world) in
        let c1 = set_error text s.client in
        let (w2, new) = find_leader call s.client.server_addresses w1 in
        let found : new ≡ leader = find_leader-HasAddress s.client.server_addresses w1 h in
        let s2 : Session W = record { client = set_leader new c1; result = s.result; world = w2 } in
        let (s', e2, same) = send_to_leader new operation key value s2 m found in
        let there : is_empty new ≡ false = ap is_empty found ∙ named in
        (
          s',
          rw m (
              rw e (
                rw (there, or_else)
                  (stops (send_request call new operation key value s2) s' _ e2))),
          ap (λ (k : KvClient). k.current_leader) same ∙ found,
        )

    known_leader :
        (operation key value : Bytes) (left : ℕ) (s : Session W)
        → make_request operation key value ≡ some request
        → HasAddress leader s.client.server_addresses
        → (s.client.current_leader ≡ [])
          ⊎ (s.client.current_leader ≡ leader)
          ⊎ ((t : ℤ) (w : W) → Fails (call s.client.current_leader request t w).1)
        → is_empty s.client.current_leader ≡ false
        → 0 < left
        → (s' : Session W) × (retries call operation key value left 0 s ≡ returned true s')
          × (s'.client.current_leader ≡ leader)
    known_leader operation key value left s m h (inl k) e l =
        let bad : true ≡ false = rw k at e in ground arith
    known_leader operation key value left s m h (inr (inl k)) e l =
        first_turn operation key value left s m k l
    known_leader operation key value left s m h (inr (inr k)) e l =
        second_turn operation key value left s m h k l

    -- Where a named server answers every probe as leader and the request of an operation as leader
    -- and with success, and every other answers a probe with a failure or as a follower that names
    -- no third: that operation, with a retry left, of a client that has the named server in its
    -- list, and that knows no leader, this one, or one to which the request always fails, returns
    -- true, and the client then knows the leader.
    pub execute_operation_stable :
        (operation key value : Bytes) (s : Session W)
        → make_request operation key value ≡ some request
        → HasAddress leader s.client.server_addresses
        → (s.client.current_leader ≡ [])
          ⊎ (s.client.current_leader ≡ leader)
          ⊎ ((t : ℤ) (w : W) → Fails (call s.client.current_leader request t w).1)
        → 0 < pos_part s.client.max_retries
        → (s' : Session W) × (execute_operation call operation key value s ≡ returned true s')
          × (s'.client.current_leader ≡ leader)
    unfolding execute_operation
    execute_operation_stable operation key value s m h k l =
        let (w, new) = find_leader call s.client.server_addresses s.world in
        let found : new ≡ leader = find_leader-HasAddress s.client.server_addresses s.world h in
        let there : is_empty new ≡ false = ap is_empty found ∙ named in
        let s1 : Session W = record s { client = set_leader new s.client; world = w } in
        let left = pos_part s.client.max_retries in
        elim (Bool-cases (is_empty s.client.current_leader)) [
          | inl unknown ↦
              let (s', e, c) = first_turn operation key value left s1 m found l in
              (s', execute_unknown call operation key value s unknown there ∙ e, c)
          | inr known ↦
              let (s', e, c) = known_leader operation key value left s m h k known l in
              (s', execute_known call operation key value s known ∙ e, c)
        ]
