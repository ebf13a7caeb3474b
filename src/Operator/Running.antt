-- ===== src/Operator/Running.antt =====
-- `run` (cmd/main.go): readiness, and that it returns.
use cabure.Base.{
  ℕ, suc, ◌+◌, ◌*◌, ◌≡◌, ◌≢◌, refl, sym, Bool, true, false, ◌⊎◌, inl, inr, Error, arith, subst,
}
use cabure.Text.{codes}
use cabure.Operator.{
  Phase, starting, syncing, working, returned, Process, Step, begins, cancels, stops_early,
  sync_fails, syncs, shuts_down, takes, finds_shutdown, goes_on, stops_after, returns, Reach, start,
  next, readyz,
}

-- No worker runs.
abbrev pub IsQuiet : Process → Type 0
IsQuiet p = (p.waiting ≡ 0) × (p.busy ≡ 0)

-- What the phase says of the rest: only a working process is ready, and has workers; its queue is open
-- until the context is done; once it returned, no worker runs and the queue is shut down.
abbrev InPhase : Phase → Process → Type 0
InPhase starting p = (p.ready ≡ false) × (p.queue_open ≡ true) × IsQuiet p
InPhase syncing p = (p.ready ≡ false) × (p.queue_open ≡ true) × IsQuiet p
InPhase working p = (p.ready ≡ true) × ((p.queue_open ≡ true) ⊎ (p.cancelled ≡ true))
InPhase (returned e) p = (p.ready ≡ false) × (p.queue_open ≡ false) × IsQuiet p

abbrev IsOrderly : Process → Type 0
IsOrderly p = InPhase p.phase p

at_phase : (p : Process) {phase : Phase} → IsOrderly p → p.phase ≡ phase → InPhase phase p
at_phase p h e = subst (λ x. InPhase x p) e h

cancelled-InPhase :
    (phase : Phase) (p : Process) → InPhase phase p → InPhase phase (record p { cancelled = true })
cancelled-InPhase starting p h = h
cancelled-InPhase syncing p h = h
cancelled-InPhase working p (ready, open_or_done) = (ready, inr refl)
cancelled-InPhase (returned e) p h = h

-- Workers that run leave the phase as it is.
moved-InPhase :
    (phase : Phase) (p : Process) (waiting busy k : ℕ)
    → (p.waiting ≡ suc k) ⊎ (p.busy ≡ suc k)
    → InPhase phase p
    → InPhase phase (record p { waiting = waiting; busy = busy })
moved-InPhase starting p waiting busy k w (_, _, none_run) = absurd (ground (arith, w, none_run))
moved-InPhase syncing p waiting busy k w (_, _, none_run) = absurd (ground (arith, w, none_run))
moved-InPhase working p waiting busy k w h = h
moved-InPhase (returned e) p waiting busy k w (_, _, none_run) =
    absurd (ground (arith, w, none_run))

Step-IsOrderly :
    {n : ℕ} {cause : Error} {p p' : Process} → Step n cause p p' → IsOrderly p → IsOrderly p'
Step-IsOrderly (begins p e) h =
    let (_, open_still, none_run) = at_phase p h e in (refl, open_still, none_run)
Step-IsOrderly (cancels p c) h = cancelled-InPhase p.phase p h
Step-IsOrderly (stops_early p e c) h =
    let (_, _, none_run) = at_phase p h e in (refl, refl, none_run)
Step-IsOrderly (sync_fails p e c) h =
    let (_, _, none_run) = at_phase p h e in (refl, refl, none_run)
Step-IsOrderly (syncs p e) h = let (_, open_still, _) = at_phase p h e in (refl, inl open_still)
Step-IsOrderly (shuts_down p e c o) h =
    let (ready, _) = at_phase p h e in
    subst (λ x. InPhase x (record p { queue_open = false })) (sym e) (ready, inr c)
Step-IsOrderly (takes p k w) h = moved-InPhase p.phase p k (suc p.busy) k (inl w) h
Step-IsOrderly (finds_shutdown p k w o) h = moved-InPhase p.phase p k p.busy k (inl w) h
Step-IsOrderly (goes_on p k b c) h = moved-InPhase p.phase p (suc p.waiting) k k (inr b) h
Step-IsOrderly (stops_after p k b c) h = moved-InPhase p.phase p p.waiting k k (inr b) h
Step-IsOrderly (returns p e c w b) h = (refl, refl, (w, b))

Reach-IsOrderly : {n : ℕ} {cause : Error} {p : Process} → Reach n cause p → IsOrderly p
Reach-IsOrderly start = (refl, refl, (refl, refl))
Reach-IsOrderly (next r st) = Step-IsOrderly st (Reach-IsOrderly r)

-- The probe as it is in a phase.
abbrev pub Answers : Phase → Process → Type 0
Answers phase p =
    ((phase ≡ working) × (readyz p.ready ≡ (200, codes "ok")))
    ⊎ ((phase ≢ working) × (readyz p.ready ≡ (503, codes "not ready\n")) × IsQuiet p)

phase-Answers : (phase : Phase) (p : Process) → InPhase phase p → Answers phase p
unfolding readyz
phase-Answers starting p (h, _, none_run) = inr ((λ e. cc), rw h refl, none_run)
phase-Answers syncing p (h, _, none_run) = inr ((λ e. cc), rw h refl, none_run)
phase-Answers working p (h, _) = inl (refl, rw h refl)
phase-Answers (returned e) p (h, _, none_run) = inr ((λ q. cc), rw h refl, none_run)

-- In every state that `run` reaches, in any order of its goroutines: while it works, which is after its cache
-- was synced and before `run` returned, the readiness probe answers 200 and `ok`; else it answers 503 and
-- `not ready`, and no worker runs, so that each of them has returned when `run` has.
pub readyz_reached : {n : ℕ} {cause : Error} {p : Process} → Reach n cause p → Answers p.phase p
readyz_reached {p = p} r = phase-Answers p.phase p (Reach-IsOrderly r)

-- Every order of steps ends, and where it ends the process has returned with the error of the context.
pub data Inevitable (n : ℕ) (cause : Error) : Process → Type 0 where
  now : {p : Process} → p.phase ≡ returned cause → Inevitable n cause p
  later :
      {p p' : Process}
      → Step n cause p p'
      → ((q : Process) → Step n cause p q → Inevitable n cause q)
      → Inevitable n cause p

open_weight : Bool → ℕ
open_weight true = 1
open_weight false = 0

-- How many steps may be left.
abbrev weight : Process → ℕ
weight p = 2 * p.waiting + p.busy + open_weight p.queue_open
