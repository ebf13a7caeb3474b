-- ===== src/Controller/Reconcile/Reported.antt =====
-- What a failure leaves in the calls: `fail` has reported it
-- (internal/controller/gitapplication_controller.go).
use cabure.Base.{
  ◌≡◌, refl, sym, ap, ◌∙◌, Bool, true, false, Option, none, List, [], ◌∷◌, list_eq, nat_eq, ◌++◌,
  append_assoc, append-nil, some, err, Error, wrap, Result-cases, inl, inr, ◌⊎◌, if◌then◌else◌,
  arith,
}
use cabure.Text.{Text, codes}
use cabure.Api.Types.{GitApplication, OperatorConfig}
use cabure.Outside.{Outside}
use cabure.Effects.{Call, M, patched_status, return, attempt, ◌>>=◌}
use cabure.Controller.Conditions.{failure_status}
use cabure.Controller.Reconcile.{patch_status_of, fail}

module _ (c : Outside) (cfg : OperatorConfig) where
  -- The last call reports a failure of a stage, and the error is that failure; or it is the error of
  -- that call, if the server refuses the report.
  pub record IsReported (e : Error) (calls : List Call) : Type 0 where
    pub before : List Call
    pub app : GitApplication
    pub stage : Text
    pub failure : Error
    pub stalled : Bool
    pub state : c.State
    pub ends :
        calls
        ≡ before
          ++ (patched_status app.status (failure_status app (c.now state) stage failure stalled)
              ∷ [])
    pub told :
        (e ≡ failure)
        ⊎ ((refusal : Error) × ((patch_status_of c cfg app
                (failure_status app (c.now state) stage failure stalled)
                state).result
              ≡ err refusal)
            × (e ≡ wrap (stage ++ codes ": ") refusal))

  -- Each error that code returns is reported so.
  abbrev pub Reports : {A : Type 0} → M c.State A → Type 0
  Reports m = (s : c.State) (e : Error) → (m s).result ≡ err e → IsReported e (m s).calls

  after_calls :
      (first rest : List Call) {e : Error} → IsReported e rest → IsReported e (first ++ rest)
  after_calls first rest r = record {
    before = first ++ r.before;
    app = r.app;
    stage = r.stage;
    failure = r.failure;
    stalled = r.stalled;
    state = r.state;
    ends =
        ap (first ++◌) r.ends
        ∙ sym (
            append_assoc first r.before (
              patched_status r.app.status
                (failure_status r.app (c.now r.state) r.stage r.failure r.stalled)
              ∷ []));
    told = r.told;
  }

  pub attempt-Reports :
      {A B : Type 0} (m : M c.State A) (handler : Error → M c.State B) (rest : A → M c.State B)
      → ((e : Error) → Reports (handler e))
      → ((a : A) → Reports (rest a))
      → Reports (attempt m handler rest)
  attempt-Reports m handler rest hh hr s e h = elim (Result-cases (m s).result) [
    | inl (a, k) ↦
        rw (k, attempt)
          (after_calls (m s).calls (rest a (m s).state).calls (hr a (m s).state e (ground arith)))
    | inr (x, k) ↦
        rw (k, attempt)
          (after_calls (m s).calls (handler x (m s).state).calls
            (hh x (m s).state e (ground arith)))
  ]

  pub chain-Reports :
      {A B : Type 0} (m : M c.State A) (rest : A → M c.State B)
      → Reports m
      → ((a : A) → Reports (rest a))
      → Reports (m >>= rest)
  chain-Reports m rest hm hr s e h = elim (Result-cases (m s).result) [
    | inl (a, k) ↦
        rw (k, attempt)
          (after_calls (m s).calls (rest a (m s).state).calls (hr a (m s).state e (ground arith)))
    | inr (x, k) ↦ rw (k, attempt, append-nil) (hm s e (ground arith))
  ]

  pub return-Reports : {A : Type 0} (a : A) → Reports (return a)
  return-Reports a s e h = cc

  pub fail-Reports :
      (A : Type 0) (app : GitApplication) (stage : Text) (failure : Error) (stalled : Bool)
      → Reports (fail c cfg {A = A} app stage failure stalled)
  unfolding fail patch_status_of
  fail-Reports A app stage failure stalled s e h =
      let status = failure_status app (c.now s) stage failure stalled in
      let call = patched_status app.status status ∷ [] in
      elim (Result-cases (patch_status_of c cfg app status s).result) [
        | inl (b, k) ↦ rw (k, attempt) (report refl (inl (ground arith)))
        | inr (x, k) ↦ rw (k, attempt) (report refl (inr (x, k, ground arith)))
      ]
    where
      report :
          {calls : List Call}
          → calls
            ≡ patched_status app.status (failure_status app (c.now s) stage failure stalled) ∷ []
          → (e ≡ failure)
            ⊎ ((refusal : Error) × ((patch_status_of c cfg app
                    (failure_status app (c.now s) stage failure stalled)
                    s).result
                  ≡ err refusal)
                × (e ≡ wrap (stage ++ codes ": ") refusal))
          → IsReported e calls
      report ends told = record {
        before = [];
        app = app;
        stage = stage;
        failure = failure;
        stalled = stalled;
        state = s;
        ends = ends;
        told = told;
      }

  pub option-Reports :
      {X A : Type 0} (o : Option X) (m : M c.State A) (f : X → M c.State A)
      → Reports m
      → ((x : X) → Reports (f x))
      → Reports (elim o [ none ↦ m | some x ↦ f x ])
  option-Reports none m f hm hf = hm
  option-Reports (some x) m f hm hf = hf x

  pub if-Reports :
      {A : Type 0} (b : Bool) (m n : M c.State A)
      → Reports m
      → Reports n
      → Reports (if b then m else n)
  if-Reports true m n hm hn = hm
  if-Reports false m n hm hn = hn
