-- ===== src/Client/Attempts.antt =====
-- src/client/kv_client.cpp: how many requests an operation sends.
use my_raft_kvdb.Base.{
  ℕ, zero, suc, ◌+◌, ◌*◌, ◌≤◌, ◌≡◌, refl, ap, ◌∙◌, Bool, true, false, Option, none, some, List, [],
  ◌∷◌, ◌++◌, length, ℤ, pos, pos_part, arith, inl, inr, Bool-cases,
}
use my_raft_kvdb.Client.{
  RpcResult, rpc_failed, replied, KvClient, is_empty, probe, make_request, set_error, set_leader,
  find_leader, Session, Outcome, returned, blocked, take_response, take_result, send_made,
  send_request, or_else, retries, execute_operation,
}
use my_raft_kvdb.Service.{ClientRequest, ClientResponse}
use my_raft_kvdb.Text.{Bytes, codes, print_int}

module _ {W : Type 0} (call : Bytes → ClientRequest → ℤ → W → W × RpcResult) (sent : W → ℕ)
    (call_counts : (address : Bytes) (r : ClientRequest) (t : ℤ) (w : W)
      → sent (call address r t w).0 ≤ suc (sent w)) where
  -- Where a call stands when it returns or is blocked.
  abbrev pub session_of : Outcome W → Session W
  session_of (returned b s) = s
  session_of (blocked s) = s

  -- At most `n` requests later, with the settings of the client as they were.
  record Within (n : ℕ) (s : Session W) (s' : Session W) : Type 0 where
    counted : sent s'.world ≤ sent s.world + n
    same_servers : s'.client.server_addresses ≡ s.client.server_addresses
    same_retries : s'.client.max_retries ≡ s.client.max_retries

  Within-trans :
      (m n : ℕ) (s s1 s2 : Session W) → Within m s s1 → Within n s1 s2 → Within (m + n) s s2
  Within-trans m n s s1 s2 a b = record {
    counted = omega (arith, a.counted, b.counted);
    same_servers = b.same_servers ∙ a.same_servers;
    same_retries = b.same_retries ∙ a.same_retries;
  }

  Within-weaken : (m n : ℕ) (s s1 : Session W) → m ≤ n → Within m s s1 → Within n s s1
  Within-weaken m n s s1 l a = record {
    counted = omega (arith, a.counted);
    same_servers = a.same_servers;
    same_retries = a.same_retries;
  }

  find_leader_counts :
      (addresses : List Bytes) (w : W)
      → sent (find_leader call addresses w).0 ≤ sent w + length addresses
  unfolding find_leader
  find_leader_counts [] w = omega arith
  find_leader_counts (address ∷ addresses) w = ground (
    arith,
    call_counts address probe (pos 1000) w,
    find_leader_counts addresses (call address probe (pos 1000) w).0,
  )

  take_response-Within :
      (operation : Bytes) (response : ClientResponse) (s s' : Session W)
      → Within 1 s s'
      → Within 1 s (session_of (take_response operation response s'))
  unfolding take_response
  take_response-Within operation response s s' a = record {
    counted = ground (arith, a.counted);
    same_servers = ground (arith, a.same_servers);
    same_retries = ground (arith, a.same_retries);
  }

  take_result-Within :
      (operation : Bytes) (r : RpcResult) (s s' : Session W)
      → Within 1 s s'
      → Within 1 s (session_of (take_result operation r s'))
  unfolding take_result
  take_result-Within operation (rpc_failed text) s s' a = record {
    counted = a.counted;
    same_servers = a.same_servers;
    same_retries = a.same_retries;
  }
  take_result-Within operation (replied response) s s' a =
      take_response-Within operation response s s' a

  send_made-Within :
      (address operation : Bytes) (o : Option ClientRequest) (s : Session W)
      → Within 1 s (session_of (send_made call address operation o s))
  unfolding send_made
  send_made-Within address operation none s = record {
    counted = omega arith;
    same_servers = refl;
    same_retries = refl;
  }
  send_made-Within address operation (some request) s =
      let counts = call_counts address request s.client.timeout_ms s.world in
      let (w, r) = call address request s.client.timeout_ms s.world in
      take_result-Within operation r s (record s { world = w })
        (record { counted = omega arith; same_servers = refl; same_retries = refl })

  -- One call, and then what follows it.
  or_else-Within :
      (m k : ℕ) (s : Session W) (o : Outcome W) (f : Session W → Outcome W)
      → m ≤ k
      → Within m s (session_of o)
      → ((s' : Session W) → Within m s s' → Within k s (session_of (f s')))
      → Within k s (session_of (or_else o f))
  or_else-Within m k s (returned true s') f l a rest = Within-weaken m k s s' l a
  or_else-Within m k s (returned false s') f l a rest = rest s' a
  or_else-Within m k s (blocked s') f l a rest = Within-weaken m k s s' l a

  -- What a turn of the loop and a search for the leader send.
  abbrev pub turn : List Bytes → ℕ
  turn addresses = length addresses + 2

  found-Within :
      (m : ℕ) (s s' : Session W) (client : KvClient)
      → Within m s s'
      → client.server_addresses ≡ s'.client.server_addresses
      → client.max_retries ≡ s'.client.max_retries
      → Within (m + length s.client.server_addresses) s (record {
        client = client;
        result = s'.result;
        world = (find_leader call s'.client.server_addresses s'.world).0;
      })
  found-Within m s s' client a e f =
      let counts = find_leader_counts s'.client.server_addresses s'.world in
      let same = ap length a.same_servers in
      record {
        counted = omega (arith, a.counted);
        same_servers = e ∙ a.same_servers;
        same_retries = f ∙ a.same_retries;
      }

  then-Within :
      (m n k : ℕ) (s s1 s2 : Session W) → m + n ≤ k → Within m s s1 → Within n s1 s2 → Within k s s2
  then-Within m n k s s1 s2 l a b = Within-weaken (m + n) k s s2 l (Within-trans m n s s1 s2 a b)

  choose-Within :
      (b : Bool) (k : ℕ) (s : Session W) (o p : Outcome W)
      → Within k s (session_of o)
      → Within k s (session_of p)
      → Within k s (session_of (elim b [ true ↦ o | false ↦ p ]))
  choose-Within true k s o p a b = a
  choose-Within false k s o p a b = b

  send_request-Within :
      (address operation key value : Bytes) (s : Session W)
      → Within 1 s (session_of (send_request call address operation key value s))
  unfolding send_request
  send_request-Within address operation key value s =
      send_made-Within address operation (make_request operation key value) s

  retries-Within :
      (operation key value : Bytes) (addresses : List Bytes) (left retry : ℕ) (s : Session W)
      → s.client.server_addresses ≡ addresses
      → Within
          (left * turn addresses)
          s
          (session_of (retries call operation key value left retry s))
  unfolding retries
  retries-Within operation key value addresses zero retry s e = record {
    counted = omega arith;
    same_servers = refl;
    same_retries = refl;
  }
  retries-Within operation key value addresses (suc left) retry s e =
      let same_length = ap length e in
      let more = λ (s2 : Session W) (t : s2.client.server_addresses ≡ s.client.server_addresses).
        retries-Within operation key value addresses left (suc retry) s2 (t ∙ e) in
      or_else-Within 1 (suc left * turn addresses) s
        (send_request call s.client.current_leader operation key value s) _ (omega arith)
        (send_request-Within s.client.current_leader operation key value s)
        (λ s1 a.
          let (w, leader) = find_leader call s1.client.server_addresses s1.world in
          let lost =
            set_error (codes "Cannot find leader after retry " ++ print_int (pos (suc retry)))
              s1.client in
          let s2 : Session W = record { client = lost; result = s1.result; world = w } in
          let s3 : Session W = record {
            client = set_leader leader s1.client;
            result = s1.result;
            world = w;
          } in
          let a2 = found-Within 1 s s1 lost a refl refl in
          let a3 = found-Within 1 s s1 (set_leader leader s1.client) a refl refl in
          choose-Within (is_empty leader) (suc left * turn addresses) s _ _
            (then-Within (1 + length s.client.server_addresses) (left * turn addresses)
              (suc left * turn addresses) s s2 _ (omega arith) a2 (more s2 a2.same_servers))
            (or_else-Within (2 + length s.client.server_addresses) (suc left * turn addresses) s
              (send_request call leader operation key value s3) _ (omega arith)
              (then-Within (1 + length s.client.server_addresses) 1
                (2 + length s.client.server_addresses) s s3 _ (omega arith) a3
                (send_request-Within leader operation key value s3))
              (λ s4 a4.
                then-Within (2 + length s.client.server_addresses) (left * turn addresses)
                  (suc left * turn addresses) s s4 _ (omega arith) a4 (more s4 a4.same_servers))))

  -- If a call of the transport raises a measure by at most one (it counts requests), an operation
  -- of a client with n servers and r retries raises it by at most n + r * (n + 2).
  pub execute_operation_bound :
      (operation key value : Bytes) (s : Session W)
      → let n = length s.client.server_addresses in
        sent (session_of (execute_operation call operation key value s)).world
        ≤ sent s.world + (n + pos_part s.client.max_retries * (n + 2))
  unfolding execute_operation
  execute_operation_bound operation key value s =
      let n = length s.client.server_addresses in
      let (w, leader) = find_leader call s.client.server_addresses s.world in
      let search = find_leader_counts s.client.server_addresses s.world in
      let s1 : Session W = record s { client = set_leader leader s.client; world = w } in
      let known =
        retries-Within operation key value s.client.server_addresses (pos_part s.client.max_retries)
          0 s refl in
      let new =
        retries-Within operation key value s.client.server_addresses (pos_part s.client.max_retries)
          0 s1 refl in
      elim (Bool-cases (is_empty s.client.current_leader)) [
        | inr there ↦ rw (there, session_of) (omega (arith, known.counted))
        | inl missing ↦
            rw (missing, session_of)
              (elim (Bool-cases (is_empty leader)) [
                | inl nobody ↦ rw (nobody, session_of) (omega arith)
                | inr found ↦ rw (found, session_of) (omega (arith, new.counted))
              ])
      ]
