-- ===== src/Effects.antt =====
-- Code that calls what lies outside the program: a function of the state of the outside, whose
-- outcome is Go's pair of a value and an error, the calls that were made, and the new state.
pub mod Calls
pub mod Logic
use cabure.Base.{ℕ, Bool, Option, none, some, List, [], ◌∷◌, ◌++◌, Result, ok, err, Error}
use cabure.Text.{Text}
use cabure.Api.{Gvr}
use cabure.Api.Types.{GitApplicationStatus, Credentials}

-- Calls of package os, and of `syscall.Flock` and `time.Sleep`: a new directory with its parent and
-- pattern, a file with its mode, an old name with the new one, a lock file by its path.
pub data DiskCall : Type 0 where
  made_dir : Text → DiskCall
  made_temp : Text → Text → DiskCall
  wrote_file : Text → ℕ → DiskCall
  renamed : Text → Text → DiskCall
  opened_lock tried_lock unlocked closed : Text → DiskCall
  slept : ℕ → DiskCall

-- Calls of the work queue, on a key.
pub data QueueCall : Type 0 where
  got forgot added_rate_limited finished : Text → QueueCall
  added_after : Text → ℕ → QueueCall

-- The calls that a reconciliation makes, those of a checkout and of the worker that runs it among
-- them. A request on one resource says its namespace, unless it goes to the cluster as a whole.
pub data Call : Type 0 where
  got_application : Text → Text → Call
  patched_status : GitApplicationStatus → GitApplicationStatus → Call
  got_secret : Text → Text → Call
  checked_out : Text → Text → Option Credentials → Call
  applied : Gvr → Option Text → Text → Text → Text → Bool → Call
  got_object : Gvr → Option Text → Text → Call
  deleted : Gvr → Option Text → Text → Call
  walked opened loaded_chart : Text → Call
  looked_for removed_all : Text → Call
  ran_git : Text → List Text → Call
  on_disk : DiskCall → Call
  on_queue : QueueCall → Call

pub record Outcome (S A : Type 0) : Type 0 where
  pub result : Result A
  pub calls : List Call
  pub state : S

abbrev pub M : Type 0 → Type 0 → Type 0
M S A = S → Outcome S A

module _ {S : Type 0} where
  abbrev pub return : {A : Type 0} → A → M S A
  return a s = record { result = ok a; calls = []; state = s }

  abbrev pub throw : {A : Type 0} → Error → M S A
  throw e s = record { result = err e; calls = []; state = s }

  -- A computation that calls nothing.
  abbrev pub lift : {A : Type 0} → Result A → M S A
  lift r s = record { result = r; calls = []; state = s }

  abbrev pub made_before : {A : Type 0} → List Call → Outcome S A → Outcome S A
  made_before calls o = record o { calls = calls ++ o.calls }

  -- What follows an outcome: a handler for its error, or the rest of the code for its value.
  abbrev pub follow : {A B : Type 0} → Outcome S A → (Error → M S B) → (A → M S B) → Outcome S B
  follow o handler rest = elim o.result [
    | ok a ↦ made_before o.calls (rest a o.state)
    | err e ↦ made_before o.calls (handler e o.state)
  ]

  -- `if a, err := m; err != nil { return handler(err) }`, and the rest.
  abbrev pub attempt : {A B : Type 0} → M S A → (Error → M S B) → (A → M S B) → M S B
  attempt m handler rest s = follow (m s) handler rest

  infixl 5 ◌>>=◌ ◌>>◌
  abbrev pub ◌>>=◌ : {A B : Type 0} → M S A → (A → M S B) → M S B
  m >>= f = attempt m throw f

  abbrev pub ◌>>◌ : {B : Type 0} → M S (Unit {0}) → M S B → M S B
  m >> k = m >>= λ _. k

  -- One call of an operation of the outside.
  abbrev pub perform : {A : Type 0} → Call → (S → Result A × S) → M S A
  perform call op s = record { result = (op s).0; calls = call ∷ []; state = (op s).1 }

  -- `defer cleanup()`, and the code after it: what the cleanup returns is ignored.
  abbrev pub finally : {A : Type 0} → M S A → M S (Unit {0}) → M S A
  finally m cleanup s = record {
    result = (m s).result;
    calls = (m s).calls ++ (cleanup (m s).state).calls;
    state = (cleanup (m s).state).state;
  }

  -- An operation that returns no error.
  abbrev pub perform_only : Call → (S → S) → M S (Unit {0})
  perform_only call op s = record { result = ok tt; calls = call ∷ []; state = op s }
