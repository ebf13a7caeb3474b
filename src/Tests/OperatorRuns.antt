-- ===== src/Tests/OperatorRuns.antt =====
-- Runs of the operator's process, and the theorems on it at them.
use cabure.Base.{◌≡◌, refl, true, none, some, Error, canceled, ok, [], list_eq, nat_eq}
use cabure.Text.{codes, trim_space}
use cabure.Operator.{
  working, Process, begins, syncs, Reach, start, next, exit_status, fresh_process,
  leader_election_namespace, is_failure,
}
use cabure.Operator.Running.{Answers, readyz_reached}
use cabure.Operator.Election.{
  lost, offer, Election, fresh_election, ElectionReach, elects, moves, stopped_leading,
  answers_error, run_with_leader_election, exit_status-run_with_leader_election,
}

abbrev interrupted : Error
interrupted = record { cause = canceled; message = codes "context canceled" }

abbrev works : Process
works = record fresh_process { phase = working; ready = true; waiting = 1 }

works-Reach : Reach 1 interrupted works
works-Reach = next (next start (begins fresh_process refl)) (syncs _ refl)

readyz_reached_example : Answers working works
readyz_reached_example = readyz_reached works-Reach

abbrev works_on : Process
works_on = record works { cancelled = true }

abbrev lease_lost : Election
lease_lost = record fresh_election { buffer = some lost }

lost-Reach : ElectionReach interrupted (record fresh_election { answer = some lost })
unfolding offer
lost-Reach =
    moves (moves elects (stopped_leading fresh_election)) (answers_error lease_lost lost refl refl)

exit_status-run_with_leader_election_example :
    exit_status none (
      run_with_leader_election
        (leader_election_namespace (codes "cabure") (ok []))
        (ok (codes "node-1"))
        (λ namespace name. ok tt)
        (some lost))
    ≡ 1
exit_status-run_with_leader_election_example =
    exit_status-run_with_leader_election (codes "cabure") (ok []) (ok (codes "node-1"))
      (λ namespace name. ok tt) (λ x e. absurd cc) (λ namespace name x e. absurd cc) lost-Reach refl
      refl

namespace_of_file :
    leader_election_namespace (codes "  ") (ok (codes "cabure\n")) ≡ ok (codes "cabure")
unfolding leader_election_namespace trim_space list_eq nat_eq
namespace_of_file = refl

signal_is_success : exit_status none (some interrupted) ≡ 0
unfolding exit_status is_failure
signal_is_success = refl
