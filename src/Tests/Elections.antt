-- ===== src/Tests/Elections.antt =====
-- A cluster of three: two candidates for one term, one of which wins and sends a heartbeat to the other,
-- which then votes again in that term for the winner's other follower.
use my_raft_kvdb.Base.{ℕ, ◌≡◌, refl, true, List, [], ◌∷◌, ℤ, pos}
use my_raft_kvdb.Cluster.Ballots.{Unique}
use my_raft_kvdb.Cluster.Safety.{election_safety}
use my_raft_kvdb.Cluster.{
  Action, Cluster, time_out, ask, answer, tally, send, receive, start_again, run_actions,
  new_cluster, act, answer_request, take_answer, begin_election,
}
use my_raft_kvdb.Node.Election.{
  handle_vote_response, start_election, handle_request_vote, observe_vote_term, can_grant,
  count_vote, become_leader, yield_to_term,
}
use my_raft_kvdb.Node.{Env, is_leader, new_node, is_log_up_to_date, saved_persister}

abbrev clock : Env
clock = record { now = 0; draw = 200 }

abbrev three : List ℤ
three = pos 1 ∷ pos 2 ∷ pos 3 ∷ []

abbrev contest : List Action
contest =
    time_out (pos 1) clock
    ∷ time_out (pos 2) clock
    ∷ ask (pos 1) (pos 0) (pos 0)
    ∷ answer (pos 3) 0 clock
    ∷ start_again (pos 3) clock
    ∷ tally 0 clock
    ∷ send (pos 1) 0
    ∷ receive 0 clock
    ∷ time_out (pos 3) clock
    ∷ ask (pos 3) (pos 0) (pos 0)
    ∷ answer (pos 2) 0 clock
    ∷ tally 0 clock
    ∷ []

abbrev contested : Cluster ℕ
contested = run_actions three contest (new_cluster three clock 0)

abbrev first_actions : List Action
first_actions =
    time_out (pos 1) clock
    ∷ ask (pos 1) (pos 0) (pos 0)
    ∷ answer (pos 3) 0 clock
    ∷ tally 0 clock
    ∷ []

abbrev first_cluster : Cluster ℕ
first_cluster = run_actions three first_actions (new_cluster three clock 0)

first_election : first_cluster.elections ≡ record { term = pos 1; candidate = pos 1 } ∷ []
unfolding run_actions act answer_request take_answer handle_vote_response begin_election
    start_election new_node handle_request_vote observe_vote_term can_grant count_vote become_leader
    is_log_up_to_date saved_persister yield_to_term
first_election = refl

election_safety_example :
    Unique contested.elections
    × ((v w : ℤ)
        → is_leader (contested.node v).state ≡ true
        → is_leader (contested.node w).state ≡ true
        → (contested.node v).current_term ≡ (contested.node w).current_term
        → v ≡ w)
election_safety_example = election_safety three (refl, (refl, (refl, tt))) refl clock 0 contest
