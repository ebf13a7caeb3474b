-- ===== src/Git/Lock/Held.antt =====
-- What `withLock` runs under its lock, and that it releases it.
use cabure.Base.{
  ℕ, zero, suc, ◌+◌, ◌≡◌, refl, ap, Bool-cases, ltb, Option, none, some, List, [], ◌∷◌, ◌++◌,
  append-nil, ok, err, Error, Cause, would_block, Result-cases, inl, inr, ◌⊎◌,
}
use cabure.Text.{Text}
use cabure.Effects.{
  M, Call, Outcome, on_disk, opened_lock, tried_lock, unlocked, closed, slept, throw,
}
use cabure.Git.Host.{Host}
use cabure.Git.Lock.{
  pause, out_of_rounds, lock_rounds, if_busy, wait_until, lock_round, lock_loop, run_locked,
  with_lock,
}

module _ (h : Host) (path : Text) where
  -- The calls of rounds in which the lock was busy: each closes the file that it opened.
  pub data Rounds : List Call → Type 0 where
    nothing : Rounds []
    round :
        {calls : List Call}
        → Rounds calls
        → Rounds (
            on_disk (opened_lock path)
            ∷ on_disk (tried_lock path)
            ∷ on_disk (closed path)
            ∷ on_disk (slept pause)
            ∷ calls)

  -- The calls of the last round, in which the file was not opened, or not locked and closed.
  pub data GaveUp : List Call → Type 0 where
    not_opened : GaveUp (on_disk (opened_lock path) ∷ [])
    not_locked :
        GaveUp (on_disk (opened_lock path) ∷ on_disk (tried_lock path) ∷ on_disk (closed path) ∷ [])
    never : GaveUp []

  -- The last round got the lock, and left this state.
  pub record Got (calls : List Call) (file : h.File) (at : h.State) : Type 0 where
    pub waited : List Call
    pub rounds : Rounds waited
    pub calls_are : calls ≡ waited ++ (on_disk (opened_lock path) ∷ on_disk (tried_lock path) ∷ [])
    pub before : h.State
    pub locked : (h.try_lock file before).0 ≡ ok tt
    pub state : at ≡ (h.try_lock file before).1

  -- It did not, and there is no lock.
  pub record Failed (calls : List Call) : Type 0 where
    pub waited : List Call
    pub rounds : Rounds waited
    pub last : List Call
    pub gave_up : GaveUp last
    pub calls_are : calls ≡ waited ++ last

  -- How the loop ends.
  abbrev Ended : Outcome h.State (Option h.File) → Type 0
  Ended o =
      ((file : h.File) × (o.result ≡ ok (some file)) × Got o.calls file o.state)
      ⊎ (((o.result ≡ ok none) ⊎ ((e : Error) × (o.result ≡ err e))) × Failed o.calls)

  abbrev busy_calls : List Call
  busy_calls =
      on_disk (opened_lock path)
      ∷ on_disk (tried_lock path)
      ∷ on_disk (closed path)
      ∷ on_disk (slept pause)
      ∷ []

  after_busy :
      (o : Outcome h.State (Option h.File))
      → Ended o
      → Ended (record o { calls = busy_calls ++ o.calls })
  after_busy o (inl (file, e, got)) = inl (
    file,
    e,
    record {
      waited = busy_calls ++ got.waited;
      rounds = round got.rounds;
      calls_are = ap (busy_calls ++◌) got.calls_are;
      before = got.before;
      locked = got.locked;
      state = got.state;
    },
  )
  after_busy o (inr (e, failed)) = inr (
    e,
    record {
      waited = busy_calls ++ failed.waited;
      rounds = round failed.rounds;
      last = failed.last;
      gave_up = failed.gave_up;
      calls_are = ap (busy_calls ++◌) failed.calls_are;
    },
  )

  GaveUp-Failed : {calls : List Call} → GaveUp calls → Failed calls
  GaveUp-Failed {calls} g = record {
    waited = [];
    rounds = nothing;
    last = calls;
    gave_up = g;
    calls_are = refl;
  }

  -- Code that is run once the lock was busy and its file is closed.
  abbrev EndsRound : M h.State (Option h.File) → Type 0
  EndsRound m =
      (s : h.State)
      → Ended (record (m s) {
        calls =
            on_disk (opened_lock path)
            ∷ on_disk (tried_lock path)
            ∷ on_disk (closed path)
            ∷ (m s).calls;
      })

  throw-EndsRound : (e : Error) → EndsRound (throw e)
  throw-EndsRound e s = inr (inr (e, refl), GaveUp-Failed not_locked)

  wait_until-EndsRound :
      (deadline : ℕ) (again : M h.State (Option h.File))
      → ((s : h.State) → Ended (again s))
      → EndsRound (wait_until h path deadline again)
  unfolding wait_until
  wait_until-EndsRound deadline again ends s = elim (Bool-cases (ltb deadline (h.now s))) [
    | inl late ↦ rw late (throw-EndsRound _ s)
    | inr early ↦ rw early (after_busy (again (h.sleep pause s)) (ends (h.sleep pause s)))
  ]

  if_busy-EndsRound :
      (c : Cause) (e : Error) (wait : M h.State (Option h.File))
      → EndsRound wait
      → EndsRound (if_busy h c e wait)
  if_busy-EndsRound would_block e wait hw = hw
  if_busy-EndsRound _ e wait hw = throw-EndsRound e

  lock_round-Ended :
      (deadline : ℕ) (again : M h.State (Option h.File))
      → ((s : h.State) → Ended (again s))
      → (s : h.State) → Ended (lock_round h path deadline again s)
  unfolding lock_round
  lock_round-Ended deadline again ends s = elim (Result-cases (h.open_file path s).0) [
    | inr (e, k) ↦ rw k (inr (inr (e, refl), GaveUp-Failed not_opened))
    | inl (file, k) ↦
        let s' = (h.open_file path s).1 in
        elim (Result-cases (h.try_lock file s').0) [
          | inl (_, locked) ↦
              rw (k, locked)
                (inl (
                  file,
                  refl,
                  record {
                    waited = [];
                    rounds = nothing;
                    calls_are = refl;
                    before = s';
                    locked = locked;
                    state = refl;
                  },
                ))
          | inr (e, failed) ↦
              rw (k, failed)
                (if_busy-EndsRound e.cause e (wait_until h path deadline again)
                  (wait_until-EndsRound deadline again ends) (h.close file (h.try_lock file s').1))
        ]
  ]

  lock_loop-Ended : (rounds deadline : ℕ) (s : h.State) → Ended (lock_loop h rounds path deadline s)
  unfolding lock_loop
  lock_loop-Ended zero deadline s = inr (inl refl, GaveUp-Failed never)
  lock_loop-Ended (suc rounds) deadline s =
      lock_round-Ended deadline (lock_loop h rounds path deadline) (lock_loop-Ended rounds deadline)
        s

  -- The code ran once, from the state in which the lock was got, and the lock was released after it.
  pub record Ran (fn : M h.State (Unit {0})) (o : Outcome h.State (Unit {0})) : Type 0 where
    pub file : h.File
    pub at : h.State
    pub waiting : List Call
    pub got : Got waiting file at
    pub result : o.result ≡ (fn at).result
    pub calls_are :
        o.calls
        ≡ waiting ++ ((fn at).calls ++ (on_disk (unlocked path) ∷ on_disk (closed path) ∷ []))
    pub state : o.state ≡ h.close file (h.unlock file (fn at).state)

-- Code under a lock runs at most once, and only when the lock was got: in a last round that opened
-- and locked the file, after rounds that closed the file each time. Then what it returns is
-- returned, and the lock is released and its file closed right after it, whether it fails or not.
-- Otherwise an error is returned, the code has not run, and every file that was opened was closed.
pub with_lock-Ran :
    (h : Host) (path : Text) (timeout : ℕ) (fn : M h.State (Unit {0})) (s : h.State)
    → Ran h path fn (with_lock h path timeout fn s)
      ⊎ (((e : Error) × ((with_lock h path timeout fn s).result ≡ err e))
          × Failed h path (with_lock h path timeout fn s).calls)
unfolding with_lock run_locked
with_lock-Ran h path timeout fn s =
    let wait = lock_loop h (lock_rounds timeout) path (h.now s + timeout) in
    elim (lock_loop-Ended h path (lock_rounds timeout) (h.now s + timeout) s) [
      | inl (file, e, got) ↦ rw e (
          inl (record {
            file = file;
            at = (wait s).state;
            waiting = (wait s).calls;
            got = got;
            result = refl;
            calls_are = refl;
            state = refl;
          }))
      | inr (inl e, failed) ↦ rw (e, append-nil) (inr ((out_of_rounds, refl), failed))
      | inr (inr (x, e), failed) ↦ rw (e, append-nil) (inr ((x, refl), failed))
    ]
