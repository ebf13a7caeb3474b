-- ===== src/Worker/Bracket.antt =====
-- What a worker does with the queue for each key (cmd/main.go).
use cabure.Base.{
  ℕ, zero, suc, ◌≡◌, refl, ap, sym, ◌∙◌, Bool, true, false, Option-cases, List, [], ◌∷◌, ◌++◌,
  append_assoc, ok, err, Cause, canceled, Result-cases, inl, inr, All, subst, if◌then◌else◌,
}
use cabure.Base.Int.{ℤ, pos, negsuc}
use cabure.Text.{Text}
use cabure.Effects.{
  Call, M, on_queue, got, forgot, added_rate_limited, added_after, finished, return, ◌>>=◌,
}
use cabure.Worker.{
  Queue, Ending, retry_later, returned, panicked, Attempt, requeue, is_over, after_reconcile,
  handle_name, handle_key, process_key, work_round, run_worker,
}

-- Not a call of the queue.
abbrev pub IsQuiet : Call → Type 0
IsQuiet (on_queue call) = true ≡ false
IsQuiet _ = Unit

-- How a key may be left before it is finished.
pub data Fate (key : Text) : List Call → Type 0 where
  dropped : Fate key []
  settled : Fate key (on_queue (forgot key) ∷ [])
  scheduled : {n : ℕ} → Fate key (on_queue (forgot key) ∷ on_queue (added_after key (suc n)) ∷ [])
  asked_again : Fate key (on_queue (forgot key) ∷ on_queue (added_rate_limited key) ∷ [])
  failed : Fate key (on_queue (added_rate_limited key) ∷ [])

-- The calls on one key after another: it is got, there are calls that leave the queue alone, its fate is
-- decided, and it is finished.
pub data Shifts : List Call → Type 0 where
  idle : Shifts []
  shift :
      (key : Text) (quiet fate rest : List Call)
      → All IsQuiet quiet
      → Fate key fate
      → Shifts rest
      → Shifts (on_queue (got key) ∷ (quiet ++ (fate ++ (on_queue (finished key) ∷ rest))))

module _ {S : Type 0} (q : Queue S) (reconcile : Text → Text → S → Attempt S)
    (quiet : (namespace name : Text) (s : S) → All IsQuiet (reconcile namespace name s).calls) where
  requeue-Fate :
      (key : Text) (again : Bool) (d : ℤ) (s : S)
      → Fate key (on_queue (forgot key) ∷ (requeue q reconcile key again d s).calls)
  unfolding requeue
  requeue-Fate key again (pos (suc n)) s = scheduled
  requeue-Fate key true (pos zero) s = asked_again
  requeue-Fate key true (negsuc n) s = asked_again
  requeue-Fate key false (pos zero) s = settled
  requeue-Fate key false (negsuc n) s = settled

  is_over-ok :
      (cause : Cause) (s : S)
      → (over : Bool) × ((is_over q reconcile cause s).result ≡ ok over)
        × ((is_over q reconcile cause s).calls ≡ [])
  unfolding is_over
  is_over-ok canceled s = (_, refl, refl)
  is_over-ok _ s = (_, refl, refl)

  decided-Fate :
      (key : Text) (m : M S Bool) (s : S) {over : Bool}
      → (m s).result ≡ ok over
      → (m s).calls ≡ []
      → Fate key ((m >>= λ over. if over then return tt else retry_later q reconcile key) s).calls
  decided-Fate key m s {over = true} r none_made = rw (r, none_made) dropped
  decided-Fate key m s {over = false} r none_made = rw (r, none_made) failed

  after_reconcile-Fate :
      (key : Text) (ending : Ending) (s : S)
      → Fate key (after_reconcile q reconcile key ending s).calls
  unfolding after_reconcile
  after_reconcile-Fate key panicked s = failed
  after_reconcile-Fate key (returned (ok answer)) s =
      requeue-Fate key answer.requeue answer.requeue_after (q.forget key s)
  after_reconcile-Fate key (returned (err e)) s =
      let (over, r, none_made) = is_over-ok e.cause s in
      decided-Fate key (is_over q reconcile e.cause) s r none_made

  -- The calls on a key before it is finished.
  abbrev Handled : Text → List Call → Type 0
  Handled key calls =
      (before fate : List Call) × All IsQuiet before × Fate key fate × (calls ≡ before ++ fate)

  handle_key-Handled : (key : Text) (s : S) → Handled key (handle_key q reconcile key s).calls
  unfolding handle_key handle_name
  handle_key-Handled key s = elim (Result-cases (q.split_key key)) [
    | inr (e, k) ↦ rw (k, handle_key) ([], _, tt, settled, refl)
    | inl (name, k) ↦
        let attempt = reconcile name.0 name.1 s in
        rw (k, handle_key)
          (
            attempt.calls,
            _,
            quiet name.0 name.1 s,
            after_reconcile-Fate key attempt.ending attempt.state,
            refl,
          )
  ]

  -- One key, before more of them.
  shift-Handled :
      (key : Text) (calls rest : List Call)
      → Handled key calls
      → Shifts rest
      → Shifts (on_queue (got key) ∷ ((calls ++ (on_queue (finished key) ∷ [])) ++ rest))
  shift-Handled key calls rest (before, fate, silent, decided, e) more =
      subst (λ l. Shifts (on_queue (got key) ∷ l))
        (sym (
          append_assoc calls (on_queue (finished key) ∷ []) rest
          ∙ ap (λ l. l ++ (on_queue (finished key) ∷ rest)) e
          ∙ append_assoc before fate (on_queue (finished key) ∷ rest)))
        (shift key before fate rest silent decided more)

  work_round-Shifts :
      (rest : M S Bool)
      → ((s : S) → Shifts (rest s).calls)
      → (s : S)
      → Shifts
          ((work_round q reconcile >>= λ goes_on. if goes_on then rest else return false) s).calls
  unfolding work_round process_key
  work_round-Shifts rest hr s = elim (Option-cases (q.get s).0) [
    | inl e ↦ rw (e, work_round) idle
    | inr (key, e) ↦
        let t = (q.get s).1 in
        let o = process_key q reconcile key t in
        let handled = handle_key-Handled key t in
        let calls = (handle_key q reconcile key t).calls in
        elim (Option-cases (q.context_error o.state).0) [
          | inl on ↦
              rw (e, on, work_round)
                (shift-Handled key calls _ handled (hr (q.context_error o.state).1))
          | inr (x, off) ↦ rw (e, off, work_round) (shift-Handled key calls [] handled idle)
        ]
  ]

  -- Whatever the queue and the reconciliations return, and if some of them panic, a worker handles one key
  -- after another: each key that it got is finished exactly once before the next one is got, and until
  -- then it is dropped, settled, or put back once, as no other key is. That reconciliations leave the queue
  -- alone is assumed.
  pub run_worker-Shifts : (rounds : ℕ) (s : S) → Shifts (run_worker q reconcile rounds s).calls
  unfolding run_worker
  run_worker-Shifts zero s = idle
  run_worker-Shifts (suc rounds) s =
      work_round-Shifts (run_worker q reconcile rounds) (run_worker-Shifts rounds) s
