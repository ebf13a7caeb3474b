-- ===== src/Git/Follows/Locking.antt =====
-- Properties of `withLock` that follow from those of its calls (internal/git/repository.go).
use cabure.Base.{
  ℕ, zero, suc, ◌+◌, ltb, Option, none, some, ◌++◌, nat_eq, list_eq, Error, Cause, would_block,
  errorf, if◌then◌else◌,
}
use cabure.Text.{Text, codes}
use cabure.Effects.{
  M, on_disk, opened_lock, tried_lock, unlocked, slept, return, throw, perform, perform_only,
  attempt, ◌>>=◌, ◌>>◌,
}
use cabure.Effects.Logic.{Logic, chains, steps, branches}
use cabure.Git.Host.{Host}
use cabure.Git.Lock.{
  pause, out_of_rounds, lock_rounds, if_busy, close_file, wait_until, lock_round, lock_loop,
  run_locked, with_lock,
}

module _ (h : Host) (P : (A : Type 0) → M h.State A → Type 0) (logic : Logic P) (path : Text) where
  -- The property holds of each call of `withLock`.
  pub record LockCalls : Type 0 where
    pub opens : P h.File (perform (on_disk (opened_lock path)) (h.open_file path))
    pub tries :
        (file : h.File) → P (Unit {0}) (perform (on_disk (tried_lock path)) (h.try_lock file))
    pub unlocks :
        (file : h.File) → P (Unit {0}) (perform_only (on_disk (unlocked path)) (h.unlock file))
    pub closes : (file : h.File) → P (Unit {0}) (close_file h path file)
    pub sleeps : P (Unit {0}) (perform_only (on_disk (slept pause)) (h.sleep pause))

  module _ (calls : LockCalls) where
    wait_until-follows :
        (deadline : ℕ) (again : M h.State (Option h.File))
        → P (Option h.File) again
        → P (Option h.File) (wait_until h path deadline again)
    unfolding wait_until
    wait_until-follows deadline again ha =
        let late =
          throw {S = h.State} {A = Option h.File}
            (errorf (codes "timed out waiting for lock " ++ path)) in
        let sleep = perform_only (on_disk (slept pause)) (h.sleep pause) in
        let waits : ℕ → M h.State (Option h.File) =
          λ now. if ltb deadline now then late else (sleep >> again) in
        logic.looks waits h.now (λ now.
          branches logic (ltb deadline now) late (sleep >> again) (logic.throws _)
            (steps logic sleep again calls.sleeps ha))

    if_busy-follows :
        (c : Cause) (e : Error) (wait : M h.State (Option h.File))
        → P (Option h.File) wait
        → P (Option h.File) (if_busy h c e wait)
    if_busy-follows would_block e wait hw = hw
    if_busy-follows _ e wait hw = logic.throws e

    pub lock_loop-follows :
        (rounds deadline : ℕ) → P (Option h.File) (lock_loop h rounds path deadline)
    unfolding lock_loop lock_round
    lock_loop-follows zero deadline = logic.returns none
    lock_loop-follows (suc rounds) deadline =
        let again = lock_loop h rounds path deadline in
        let wait = wait_until h path deadline again in
        let busy =
          λ (file : h.File) (e : Error). close_file h path file >> if_busy h e.cause e wait in
        let try_lock = λ (file : h.File). perform (on_disk (tried_lock path)) (h.try_lock file) in
        chains logic (perform (on_disk (opened_lock path)) (h.open_file path))
          (λ file. attempt (try_lock file) (busy file) (λ _. return (some file))) calls.opens
          (λ file.
            logic.attempts (try_lock file) (busy file) (λ _. return (some file)) (calls.tries file)
              (λ e.
                steps logic (close_file h path file) (if_busy h e.cause e wait) (calls.closes file)
                  (if_busy-follows e.cause e wait
                    (wait_until-follows deadline again (lock_loop-follows rounds deadline))))
              (λ _. logic.returns (some file)))

    run_locked-follows :
        (fn : M h.State (Unit {0})) (o : Option h.File)
        → P (Unit {0}) fn
        → P (Unit {0}) (run_locked h path fn o)
    unfolding run_locked
    run_locked-follows fn none hf = logic.throws out_of_rounds
    run_locked-follows fn (some file) hf =
        let unlock = perform_only (on_disk (unlocked path)) (h.unlock file) in
        logic.finallys fn (unlock >> close_file h path file) hf
          (steps logic unlock (close_file h path file) (calls.unlocks file) (calls.closes file))

    pub with_lock-follows :
        (timeout : ℕ) (fn : M h.State (Unit {0}))
        → P (Unit {0}) fn
        → P (Unit {0}) (with_lock h path timeout fn)
    unfolding with_lock
    with_lock-follows timeout fn hf =
        let wait = λ (deadline : ℕ). lock_loop h (lock_rounds timeout) path deadline in
        logic.looks (λ now. wait (now + timeout) >>= run_locked h path fn) h.now
          (λ now.
            chains logic (wait (now + timeout)) (run_locked h path fn)
              (lock_loop-follows (lock_rounds timeout) (now + timeout))
              (λ o. run_locked-follows fn o hf))
