-- ===== src/Git/Lock.antt =====
-- `withLock` (internal/git/repository.go): a file lock that is tried until a deadline.
pub mod Waiting
pub mod Held
use cabure.Base.{
  ℕ, zero, suc, ◌+◌, ◌*◌, ◌/◌, ltb, Option, none, some, ◌++◌, if◌then◌else◌, ok, Error, Cause,
  errorf, would_block,
}
use cabure.Text.{Text, codes}
use cabure.Effects.{
  M, on_disk, opened_lock, tried_lock, unlocked, closed, slept, return, throw, perform,
  perform_only, finally, attempt, ◌>>=◌, ◌>>◌,
}
use cabure.Git.Host.{Host}

-- Nanoseconds
abbrev pub second : ℕ
second = 1000000000

-- How long a round sleeps: `100 * time.Millisecond`
abbrev pub pause : ℕ
pause = 100000000

-- Rounds enough for a timeout, since each but the last sleeps.
abbrev pub lock_rounds : ℕ → ℕ
lock_rounds timeout = suc (timeout / pause + 1)

-- What the loop below returns if its rounds run out, which they never do.
abbrev pub out_of_rounds : Error
out_of_rounds = errorf (codes "out of rounds")

module _ (h : Host) where
  abbrev pub close_file : Text → h.File → M h.State (Unit {0})
  close_file path file = perform_only (on_disk (closed path)) (h.close file)

  -- `errors.Is(err, syscall.EWOULDBLOCK)` or `EAGAIN`, which are one number.
  abbrev pub if_busy : Cause → Error → M h.State (Option h.File) → M h.State (Option h.File)
  if_busy would_block e wait = wait
  if_busy _ e wait = throw e

  -- The end of a round in which the lock was busy.
  unfoldable pub wait_until : Text → ℕ → M h.State (Option h.File) → M h.State (Option h.File)
  wait_until path deadline again s =
      (if ltb deadline (h.now s)
          then throw (errorf (codes "timed out waiting for lock " ++ path))
          else (perform_only (on_disk (slept pause)) (h.sleep pause) >> again))
        s

  -- One round of the loop of `withLock`, before the rest of them.
  unfoldable pub lock_round : Text → ℕ → M h.State (Option h.File) → M h.State (Option h.File)
  unfolding wait_until
  lock_round path deadline again =
      perform (on_disk (opened_lock path)) (h.open_file path) >>= λ file.
      attempt (perform (on_disk (tried_lock path)) (h.try_lock file))
        (λ e. close_file path file >> if_busy e.cause e (wait_until path deadline again))
        (λ _. return (some file))

  -- The loop of `withLock`: the locked file, or none when the rounds are used up.
  unfoldable pub lock_loop : ℕ → Text → ℕ → M h.State (Option h.File)
  unfolding lock_round
  lock_loop zero path deadline = return none
  lock_loop (suc rounds) path deadline = lock_round path deadline (lock_loop rounds path deadline)

  -- `fn` under the lock, which is released afterwards.
  unfoldable pub run_locked : Text → M h.State (Unit {0}) → Option h.File → M h.State (Unit {0})
  run_locked path fn none = throw out_of_rounds
  run_locked path fn (some file) =
      finally fn (perform_only (on_disk (unlocked path)) (h.unlock file) >> close_file path file)

  -- `withLock`
  unfoldable pub with_lock : Text → ℕ → M h.State (Unit {0}) → M h.State (Unit {0})
  unfolding lock_loop run_locked
  with_lock path timeout fn s =
      (lock_loop (lock_rounds timeout) path (h.now s + timeout) >>= run_locked path fn) s
