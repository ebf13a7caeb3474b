-- ===== src/Git/Lock/Waiting.antt =====
-- The loop of `withLock` ends.
use cabure.Base.{
  ℕ, zero, suc, ◌+◌, ◌*◌, ◌/◌, ◌≤◌, ◌<◌, ◌≢◌, Bool-cases, ltb, Option, none, inl, inr, ok,
  Result-cases, arith, Error, Cause, would_block,
}
use cabure.Text.{Text}
use cabure.Effects.{M, return}
use cabure.Git.Host.{Host}
use cabure.Git.Lock.{pause, lock_rounds, if_busy, wait_until, lock_round, lock_loop}

-- What package time and the kernel promise: the clock does not run backwards, and `time.Sleep`
-- pauses at least as long as it is told to.
pub record HasClock (h : Host) : Type 0 where
  pub opens : (path : Text) (s : h.State) → h.now s ≤ h.now (h.open_file path s).1
  pub tries : (file : h.File) (s : h.State) → h.now s ≤ h.now (h.try_lock file s).1
  pub closes : (file : h.File) (s : h.State) → h.now s ≤ h.now (h.close file s)
  pub sleeps : (d : ℕ) (s : h.State) → h.now s + d ≤ h.now (h.sleep d s)

module _ (h : Host) (clock : HasClock h) where
  -- Code that, from a time on, does not run out of rounds.
  abbrev Settles : ℕ → M h.State (Option h.File) → Type 0
  Settles t m = (s : h.State) → t ≤ h.now s → (m s).result ≢ ok none

  wait_until-Settles :
      (path : Text) (t deadline : ℕ) (again : M h.State (Option h.File))
      → (t ≤ deadline → Settles (t + pause) again)
      → Settles t (wait_until h path deadline again)
  unfolding wait_until
  wait_until-Settles path t deadline again next s le = elim (Bool-cases (ltb deadline (h.now s))) [
    | inl late ↦ rw late (λ e. cc)
    | inr early ↦
        rw early (next (ground arith) (h.sleep pause s) (omega (arith, clock.sleeps pause s, le)))
  ]

  if_busy-Settles :
      (c : Cause) (e : Error) (t : ℕ) (wait : M h.State (Option h.File))
      → Settles t wait
      → Settles t (if_busy h c e wait)
  if_busy-Settles would_block e t wait hw = hw
  if_busy-Settles _ e t wait hw = λ s le x. cc

  lock_round-Settles :
      (path : Text) (t deadline : ℕ) (again : M h.State (Option h.File))
      → Settles t (wait_until h path deadline again)
      → Settles t (lock_round h path deadline again)
  unfolding lock_round
  lock_round-Settles path t deadline again next s le = elim (Result-cases (h.open_file path s).0) [
    | inr (e, k) ↦ rw k (λ x. cc)
    | inl (file, k) ↦
        let s' = (h.open_file path s).1 in
        elim (Result-cases (h.try_lock file s').0) [
          | inl (_, locked) ↦ rw (k, locked) (λ x. cc)
          | inr (e, failed) ↦
              let s'' = h.close file (h.try_lock file s').1 in
              rw (k, failed)
                (if_busy-Settles e.cause e t (wait_until h path deadline again) next s'' (
                  omega (
                    arith,
                    le,
                    clock.opens path s,
                    clock.tries file s',
                    clock.closes file (h.try_lock file s').1,
                  )))
        ]
  ]

  lock_loop-Settles :
      (rounds : ℕ) (path : Text) (t deadline : ℕ)
      → deadline < t + rounds * pause
      → Settles t (lock_loop h (suc rounds) path deadline)
  unfolding lock_loop
  lock_loop-Settles zero path t deadline late =
      lock_round-Settles path t deadline (return none)
        (wait_until-Settles path t deadline (return none) (λ le. absurd (omega (arith, late, le))))
  lock_loop-Settles (suc rounds) path t deadline late =
      let again = lock_loop h (suc rounds) path deadline in
      lock_round-Settles path t deadline again (
        wait_until-Settles path t deadline again
          (λ le. lock_loop-Settles rounds path (t + pause) deadline (omega (arith, late))))

-- Waiting for a lock ends: on a machine whose clock does not run backwards and whose sleeps are not
-- short, the rounds of the loop are enough for the deadline, whatever else the calls return. The
-- loop has got the lock or failed before they are used up.
pub lock_loop-settles :
    (h : Host) (path : Text) (timeout : ℕ) (s : h.State)
    → HasClock h
    → (lock_loop h (lock_rounds timeout) path (h.now s + timeout) s).result ≢ ok none
lock_loop-settles h path timeout s clock =
    lock_loop-Settles h clock (timeout / pause + 1) path (h.now s) (h.now s + timeout) (omega arith)
      s (omega arith)
