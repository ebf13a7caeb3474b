-- ===== src/Operator/Election.antt =====
-- `runWithLeaderElection` (cmd/main.go), its goroutine as the steps of ElectionStep, and the exit status of
-- `main`.
use cabure.Base.{
  ◌≡◌, refl, ap, ◌∙◌, Bool, true, false, Bool-cases, Option, none, some, [], ◌==◌, list_eq, nat_eq,
  ◌⊎◌, inl, inr, Result, ok, err, Result-cases, Error, errorf, wrap, if◌then◌else◌, subst,
}
use cabure.Text.{Text, codes, trim_space}
use cabure.Operator.{leader_election_namespace, is_failure, exit_status}

-- The context of the process, the buffer of `errCh`, and what the function has returned.
pub record Election : Type 0 where
  pub cancelled : Bool
  pub buffer : Option Error
  pub answer : Option Error

abbrev pub fresh_election : Election
fresh_election = record { cancelled = false; buffer = none; answer = none }

-- A send that is skipped when the buffer is full.
unfoldable pub offer : Error → Option Error → Option Error
offer e none = some e
offer e (some x) = some x

abbrev pub lost : Error
lost = errorf (codes "leader election lost")

-- A step: of a callback, of the context, or of the final `select`. The error of the context is `cause`.
pub data ElectionStep (cause : Error) : Election → Election → Type 0 where
  -- `run` returned, in `OnStartedLeading`.
  run_returned :
      (s : Election) (ended : Option Error) → is_failure ended ≡ false → ElectionStep cause s s
  run_failed :
      (s : Election) (e : Error)
      → is_failure (some e) ≡ true
      → ElectionStep cause s (record s { buffer = offer e s.buffer })
  -- `OnStoppedLeading`
  stopped_leading :
      (s : Election)
      → ElectionStep cause s
          (record s { buffer = if s.cancelled then s.buffer else offer lost s.buffer })
  signalled : (s : Election) → ElectionStep cause s (record s { cancelled = true })
  answers_context :
      (s : Election)
      → s.answer ≡ none
      → s.cancelled ≡ true
      → ElectionStep cause s (record s { answer = some cause })
  answers_error :
      (s : Election) (e : Error)
      → s.answer ≡ none
      → s.buffer ≡ some e
      → ElectionStep cause s (record s { answer = some e; buffer = none })

pub data ElectionReach (cause : Error) : Election → Type 0 where
  elects : ElectionReach cause fresh_election
  moves :
      {s s' : Election} → ElectionReach cause s → ElectionStep cause s s' → ElectionReach cause s'

-- Nothing there, or a failure.
abbrev Fails : Option Error → Type 0
Fails none = Unit
Fails (some e) = is_failure (some e) ≡ true

-- The buffer holds failures only, and an answer without a signal is one.
record IsFaithful (s : Election) : Type 0 where
  held : Fails s.buffer
  given : Fails s.answer ⊎ (s.cancelled ≡ true)

offer-Fails :
    (e : Error) (o : Option Error) → is_failure (some e) ≡ true → Fails o → Fails (offer e o)
unfolding offer
offer-Fails e none h ho = h
offer-Fails e (some x) h ho = ho

lost-Fails : is_failure (some lost) ≡ true
unfolding is_failure
lost-Fails = refl

unless-Fails : (b : Bool) (o : Option Error) → Fails o → Fails (if b then o else offer lost o)
unless-Fails true o ho = ho
unless-Fails false o ho = offer-Fails lost o lost-Fails ho

Step-IsFaithful :
    {cause : Error} {s s' : Election} → ElectionStep cause s s' → IsFaithful s → IsFaithful s'
Step-IsFaithful (run_returned s ended e) h = h
Step-IsFaithful (run_failed s e k) h = record {
  held = offer-Fails e s.buffer k h.held;
  given = h.given;
}
Step-IsFaithful (stopped_leading s) h = record {
  held = unless-Fails s.cancelled s.buffer h.held;
  given = h.given;
}
Step-IsFaithful (signalled s) h = record { held = h.held; given = inr refl }
Step-IsFaithful (answers_context s a c) h = record { held = h.held; given = inr c }
Step-IsFaithful (answers_error s e a b) h = record { held = tt; given = inl (subst Fails b h.held) }

Reach-IsFaithful : {cause : Error} {s : Election} → ElectionReach cause s → IsFaithful s
Reach-IsFaithful elects = record { held = tt; given = inl tt }
Reach-IsFaithful (moves r st) = Step-IsFaithful st (Reach-IsFaithful r)

-- `runWithLeaderElection`, of the namespace, the name of the host and the making of the lock, as far as each
-- is reached, and of the answer of the final `select`.
unfoldable pub run_with_leader_election :
    Result Text → Result Text → (Text → Text → Result (Unit {0})) → Option Error → Option Error
run_with_leader_election (err e) hostname new_lock answer = some e
run_with_leader_election (ok namespace) (err e) new_lock answer =
    some (wrap (codes "read hostname: ") e)
run_with_leader_election (ok namespace) (ok hostname) new_lock answer =
    elim (new_lock namespace hostname) [
      | err e ↦ some (wrap (codes "create leader election lock: ") e)
      | ok lock ↦ answer
    ]

-- The exit status is 1 once the election has answered and no signal came.
exit_status_unsignalled :
    {cause e : Error} {s : Election}
    → ElectionReach cause s
    → s.answer ≡ some e
    → s.cancelled ≡ false
    → exit_status none s.answer ≡ 1
unfolding exit_status
exit_status_unsignalled {e} {s} r a c = elim (Reach-IsFaithful r).given [
  | inr signal ↦ absurd cc
  | inl fails ↦
      ap (λ o. if is_failure o then 1 else 0) a
      ∙ ap (λ (b : Bool). if b then 1 else 0) (subst Fails a fails)
]

exit_status-Fails : (e : Error) → is_failure (some e) ≡ true → exit_status none (some e) ≡ 1
unfolding exit_status
exit_status-Fails e h = ap (λ (b : Bool). if b then 1 else 0) h

abbrev no_namespace : Error
no_namespace = errorf (codes "unable to determine leader election namespace")

-- The namespace is found, or the one error says that it is not.
namespace-cases :
    (pod_namespace : Text) (file : Result Text)
    → ((namespace : Text) × (leader_election_namespace pod_namespace file ≡ ok namespace))
      ⊎ (leader_election_namespace pod_namespace file ≡ err no_namespace)
unfolding leader_election_namespace
namespace-cases pod_namespace file = elim (Bool-cases (trim_space pod_namespace == [])) [
  | inr f ↦ inl (trim_space pod_namespace, rw f refl)
  | inl t ↦ elim (Result-cases file) [
    | inr (x, k) ↦ inr (rw (t, k) refl)
    | inl (text, k) ↦ elim (Bool-cases (trim_space text == [])) [
      | inl empty ↦ inr (rw (t, k, empty) refl)
      | inr full ↦ inl (trim_space text, rw (t, k, full) refl)
    ]
  ]
]

-- An operator that stops without a signal says so. If the errors of reading the host's name and of making the
-- lock are not cancellations, then once `runWithLeaderElection` has returned, from its setup or after the
-- callbacks in any order, and no signal came, the exit status of `main` is 1.
pub exit_status-run_with_leader_election :
    {cause e : Error} {s : Election} (pod_namespace : Text) (file hostname : Result Text)
    (new_lock : Text → Text → Result (Unit {0}))
    → ((x : Error) → hostname ≡ err x → is_failure (some x) ≡ true)
    → ((namespace name : Text) (x : Error)
        → new_lock namespace name ≡ err x
        → is_failure (some x) ≡ true)
    → ElectionReach cause s
    → s.answer ≡ some e
    → s.cancelled ≡ false
    → exit_status none (
        run_with_leader_election
          (leader_election_namespace pod_namespace file)
          hostname
          new_lock
          s.answer)
      ≡ 1
unfolding run_with_leader_election is_failure
exit_status-run_with_leader_election {s = s} pod_namespace file hostname new_lock hh hl r a c =
    elim (namespace-cases pod_namespace file) [
      | inr k ↦ rw k (exit_status-Fails no_namespace refl)
      | inl (namespace, k) ↦ elim (Result-cases hostname) [
        | inr (x, l) ↦ rw (k, l) (exit_status-Fails (wrap (codes "read hostname: ") x) (hh x l))
        | inl (name, l) ↦ elim (Result-cases (new_lock namespace name)) [
          | inr (x, q) ↦
              rw (k, l, q, run_with_leader_election)
                (exit_status-Fails (wrap (codes "create leader election lock: ") x)
                  (hl namespace name x q))
          | inl (lock, q) ↦ rw (k, l, q, run_with_leader_election) (exit_status_unsignalled r a c)
        ]
      ]
    ]
