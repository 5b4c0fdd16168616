-- ===== src/Client/Start.antt =====
-- src/client/kv_client.cpp: how executeOperation starts, with and without a known leader.
use my_raft_kvdb.Base.{◌≡◌, refl, true, false, ℤ, pos_part}
use my_raft_kvdb.Client.{
  RpcResult, is_empty, set_leader, find_leader, Session, retries, execute_operation,
}
use my_raft_kvdb.Service.{ClientRequest}
use my_raft_kvdb.Text.{Bytes}

module _ {W : Type 0} (call : Bytes → ClientRequest → ℤ → W → W × RpcResult)
    (operation key value : Bytes) (s : Session W) where
  pub execute_known :
      is_empty s.client.current_leader ≡ false
      → execute_operation call operation key value s
        ≡ retries call operation key value (pos_part s.client.max_retries) 0 s
  unfolding execute_operation
  execute_known e = rw (e, execute_operation) refl

  pub execute_unknown :
      let (w, new) = find_leader call s.client.server_addresses s.world in
      is_empty s.client.current_leader ≡ true
      → is_empty new ≡ false
      → execute_operation call operation key value s
        ≡ retries call operation key value
            (pos_part s.client.max_retries)
            0
            (record s { client = set_leader new s.client; world = w })
  unfolding execute_operation
  execute_unknown e f = rw (e, execute_operation) (rw f refl)
