-- ===== src/Node/Election/Majority.antt =====
-- src/raft/raft_node.cpp: how a candidate becomes leader.
use my_raft_kvdb.Base.{
  ◌≡◌, arith, length, List, ℤ, leb_ℤ, ltb, ◌&&◌, ◌||◌, ◌+◌, ◌*◌, if◌then◌else◌, Bool-cases, inl,
  inr,
}
use my_raft_kvdb.Cluster.Members.{IsDistinct}
use my_raft_kvdb.Messages.{RequestVoteReply}
use my_raft_kvdb.Node.{Env, RaftNode, is_candidate, is_leader, set_insert, contains}
use my_raft_kvdb.Node.Election.{handle_vote_response, count_vote, become_leader, yield_to_term}

IsDistinct-set_insert : (x : ℤ) (xs : List ℤ) → IsDistinct xs → IsDistinct (set_insert x xs)
IsDistinct-set_insert x xs d = elim (Bool-cases (contains x xs)) [
  | inl there ↦ rw there d
  | inr new ↦ rw new (new, d)
]

module _ {S : Type 0} where
  -- Where no voter is recorded twice: handleVoteResponse reports an election won exactly where the
  -- node is candidate, the reply grants the vote, is of no newer term than the node's and of no
  -- older one than the election's, and the voters with this one, each counted once, are more than
  -- half of the node and its peers; the node leads after it exactly where it led before or the
  -- election was won; and again no voter is recorded twice.
  pub handle_vote_response-elected :
      (env : Env) (id : ℤ) (reply : RequestVoteReply) (n : RaftNode S)
      → IsDistinct n.votes_received
      → let (m, elected) = handle_vote_response env id reply n in
        let voters = length n.votes_received + (if contains id n.votes_received then 0 else 1) in
        (elected ≡ (
          is_candidate n.state
          && reply.vote_granted
          && (leb_ℤ reply.term n.current_term && leb_ℤ n.current_election_term reply.term)
          && ltb (length n.peer_ids + 1) (2 * voters)))
        × (is_leader m.state ≡ (is_leader n.state || elected))
        × IsDistinct m.votes_received
  unfolding handle_vote_response count_vote become_leader yield_to_term
  handle_vote_response-elected env id reply n d =
      (ground arith, ground arith, ground (arith, IsDistinct-set_insert id n.votes_received d))
