-- ===== src/Client/Success.antt =====
-- src/client/kv_client.cpp: what the success of an operation says.
use my_raft_kvdb.Base.{
  ℕ, zero, suc, ◌≡◌, refl, subst, Bool, true, false, Option, none, some, if◌then◌else◌, ℤ, pos_part,
  inl, inr, Bool-cases,
}
use my_raft_kvdb.Client.{
  RpcResult, rpc_failed, replied, is_empty, make_request, set_leader, find_leader, Session, Outcome,
  returned, blocked, take_response, take_result, send_made, send_request, or_else, retries,
  execute_operation,
}
use my_raft_kvdb.Service.{ClientRequest, ClientResponse}
use my_raft_kvdb.Text.{Bytes, codes, same_bytes}

module _ {W : Type 0} (call : Bytes → ClientRequest → ℤ → W → W × RpcResult)
    (operation key value : Bytes) (before : Bytes) where
  -- The last request was the operation, the server that the client now takes for the leader
  -- accepted it, and the result of a GET is the value of its response.
  pub record Accepted (s : Session W) : Type 0 where
    pub request : ClientRequest
    pub made : make_request operation key value ≡ some request
    pub response : ClientResponse
    pub timeout : ℤ
    pub world : W
    pub answered : call s.client.current_leader request timeout world ≡ (s.world, replied response)
    pub by_leader : response.is_leader ≡ true
    pub success : response.success ≡ true
    pub result : s.result ≡ (if same_bytes operation (codes "GET") then response.value else before)

  -- Of a call that does not block: after a success the request was accepted, and after a failure the
  -- variable for the result is as it was.
  abbrev pub Promise : Outcome W → Type 0
  Promise (returned true s) = Accepted s
  Promise (returned false s) = s.result ≡ before
  Promise (blocked s) = Unit {0}

  accepted :
      (address : Bytes) (request : ClientRequest) (timeout : ℤ) (world : W)
      (response : ClientResponse) (s : Session W)
      → make_request operation key value ≡ some request
      → call address request timeout world ≡ (s.world, replied response)
      → s.client.current_leader ≡ address
      → response.is_leader ≡ true
      → response.success ≡ true
      → s.result ≡ (if same_bytes operation (codes "GET") then response.value else before)
      → Accepted s
  accepted address request timeout world response s m c a l g r = record {
    request = request;
    made = m;
    response = response;
    timeout = timeout;
    world = world;
    answered = rw a c;
    by_leader = l;
    success = g;
    result = r;
  }

  Promise-response :
      (address : Bytes) (request : ClientRequest) (timeout : ℤ) (world : W)
      (response : ClientResponse) (s : Session W)
      → make_request operation key value ≡ some request
      → call address request timeout world ≡ (s.world, replied response)
      → s.client.current_leader ≡ address
      → s.result ≡ before
      → Promise (take_response operation response s)
  unfolding take_response
  Promise-response address request timeout world response s m c a r =
      elim (Bool-cases response.is_leader) [
        | inr follows ↦
            rw (follows, Promise)
              (elim (Bool-cases (is_empty response.leader_address)) [
                | inl e ↦ rw (e, Promise) r
                | inr e ↦ rw (e, Promise) tt
              ])
        | inl leads ↦
            rw (leads, Promise)
              (elim (Bool-cases response.success) [
                | inr bad ↦ rw (bad, Promise) r
                | inl good ↦
                    rw (good, Promise)
                      (elim (Bool-cases (same_bytes operation (codes "GET"))) [
                        | inl g ↦
                            rw (g, Promise)
                              (accepted address request timeout world response
                                (record s { result = response.value }) m c a leads good (rw g refl))
                        | inr g ↦
                            rw (g, Promise)
                              (accepted address request timeout world response s m c a leads good
                                (rw g r))
                      ])
              ])
      ]

  Promise-result :
      (address : Bytes) (request : ClientRequest) (timeout : ℤ) (world : W) (r : RpcResult)
      (s : Session W)
      → make_request operation key value ≡ some request
      → call address request timeout world ≡ (s.world, r)
      → s.client.current_leader ≡ address
      → s.result ≡ before
      → Promise (take_result operation r s)
  unfolding take_result
  Promise-result address request timeout world (rpc_failed text) s m c a r = r
  Promise-result address request timeout world (replied response) s m c a r =
      Promise-response address request timeout world response s m c a r

  Promise-made :
      (o : Option ClientRequest) (s : Session W)
      → make_request operation key value ≡ o
      → s.result ≡ before
      → Promise (send_made call s.client.current_leader operation o s)
  unfolding send_made
  Promise-made none s m r = r
  Promise-made (some request) s m r =
      let (w, answer) = call s.client.current_leader request s.client.timeout_ms s.world in
      Promise-result s.client.current_leader request s.client.timeout_ms s.world answer
        (record s { world = w }) m refl refl r

  Promise-request :
      (address : Bytes) (s : Session W)
      → s.client.current_leader ≡ address
      → s.result ≡ before
      → Promise (send_request call address operation key value s)
  unfolding send_request
  Promise-request address s a r =
      subst (λ place. Promise (send_made call place operation (make_request operation key value) s))
        a (Promise-made (make_request operation key value) s refl r)

  Promise-or_else :
      (o : Outcome W) (f : Session W → Outcome W)
      → Promise o
      → ((s : Session W) → s.result ≡ before → Promise (f s))
      → Promise (or_else o f)
  Promise-or_else (returned true s) f p rest = p
  Promise-or_else (returned false s) f p rest = rest s p
  Promise-or_else (blocked s) f p rest = tt

  Promise-choose :
      (b : Bool) (o p : Outcome W)
      → Promise o
      → Promise p
      → Promise (elim b [ true ↦ o | false ↦ p ])
  Promise-choose true o p a b = a
  Promise-choose false o p a b = b

  Promise-retries :
      (left retry : ℕ) (s : Session W)
      → s.result ≡ before
      → Promise (retries call operation key value left retry s)
  unfolding retries
  Promise-retries zero retry s r = r
  Promise-retries (suc left) retry s r =
      Promise-or_else (send_request call s.client.current_leader operation key value s) _
        (Promise-request s.client.current_leader s refl r)
        (λ s1 r1.
          let (w, leader) = find_leader call s1.client.server_addresses s1.world in
          let s3 : Session W = record {
            client = set_leader leader s1.client;
            result = s1.result;
            world = w;
          } in
          Promise-choose (is_empty leader) _ _ (Promise-retries left (suc retry) _ r1) (
            Promise-or_else (send_request call leader operation key value s3) _
              (Promise-request leader s3 refl r1)
              (λ s4 r4. Promise-retries left (suc retry) s4 r4)))

  -- Where an operation returns true, its last request was the operation, the server that the client
  -- then takes for the leader answered it as leader and with success, and the result is the value
  -- of the response to a GET, else as it was; where it returns false, the result is as it was.
  -- Nothing is said of a call that blocks.
  pub execute_operation-Promise :
      (s : Session W) → s.result ≡ before → Promise (execute_operation call operation key value s)
  unfolding execute_operation
  execute_operation-Promise s r =
      let (w, leader) = find_leader call s.client.server_addresses s.world in
      let s1 : Session W = record s { client = set_leader leader s.client; world = w } in
      elim (Bool-cases (is_empty s.client.current_leader)) [
        | inr there ↦ rw (there, Promise) (Promise-retries (pos_part s.client.max_retries) 0 s r)
        | inl missing ↦
            rw (missing, Promise)
              (Promise-choose (is_empty leader) _ _ r
                (Promise-retries (pos_part s.client.max_retries) 0 s1 r))
      ]
