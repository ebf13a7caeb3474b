-- ===== src/Git/Retry.antt =====
-- How often `ensureMirror` runs git and removes the mirror.
use cabure.Base.{
  ℕ, ◌+◌, ◌*◌, ◌≤◌, ◌≡◌, Bool, true, false, Option, none, some, List, [], ◌∷◌, ◌++◌, ok, Error,
  Result-cases, inl, inr, if◌then◌else◌, arith,
}
use cabure.Text.{Text, codes, contains_text}
use cabure.Path.{join_path}
use cabure.Effects.{
  M, Call, got_application, patched_status, got_secret, checked_out, applied, got_object, deleted,
  walked, opened, loaded_chart, looked_for, removed_all, ran_git, on_disk, on_queue, return, throw,
  perform, attempt, ◌>>=◌,
}
use cabure.Git.{
  GitWorld, is_config_corruption_error, init_args, remove_args, add_args, fetch_args, run_git_in,
  recover, fetch_origin, set_origin, ensure_mirror_attempt, ensure_mirror,
}

abbrev pub total : (Call → ℕ) → List Call → ℕ
total weight [] = 0
total weight (call ∷ calls) = weight call + total weight calls

-- Weighs calls of git and removals, and nothing else.
abbrev pub git_weight : ℕ → ℕ → Call → ℕ
git_weight run removal (ran_git dir args) = run
git_weight run removal (removed_all p) = removal
git_weight run removal (looked_for p) = 0
git_weight run removal (got_application namespace name) = 0
git_weight run removal (patched_status before after) = 0
git_weight run removal (got_secret namespace name) = 0
git_weight run removal (checked_out repository revision creds) = 0
git_weight run removal (applied resource namespace name patch by force) = 0
git_weight run removal (got_object resource namespace name) = 0
git_weight run removal (deleted resource namespace name) = 0
git_weight run removal (walked p) = 0
git_weight run removal (opened p) = 0
git_weight run removal (loaded_chart p) = 0
git_weight run removal (on_disk call) = 0
git_weight run removal (on_queue call) = 0

total-append :
    (weight : Call → ℕ) (a b : List Call) → total weight (a ++ b) ≡ total weight a + total weight b
total-append weight [] b = omega arith
total-append weight (x ∷ a) b = omega (arith, total-append weight a b)

module _ (run removal : ℕ) (g : GitWorld) (mirror_dir repo_url : Text) (auth : g.Auth) where
  abbrev cost : List Call → ℕ
  cost calls = total (git_weight run removal) calls

  -- From every state, calls of at most this weight.
  abbrev Costs : {A : Type 0} → ℕ → M g.State A → Type 0
  Costs n m = (s : g.State) → cost (m s).calls ≤ n

  attempt-Costs :
      {A B : Type 0} (a b n : ℕ) (m : M g.State A) (handler : Error → M g.State B)
      (rest : A → M g.State B)
      → Costs a m
      → ((e : Error) → Costs b (handler e))
      → ((x : A) → Costs b (rest x))
      → a + b ≤ n
      → Costs n (attempt m handler rest)
  attempt-Costs a b n m handler rest hm hh hr le s = elim (Result-cases (m s).result) [
    | inl (x, e) ↦
        rw (e, attempt)
          (omega (
            arith,
            total-append (git_weight run removal) (m s).calls (rest x (m s).state).calls,
            hm s,
            hr x (m s).state,
          ))
    | inr (x, e) ↦
        rw (e, attempt)
          (omega (
            arith,
            total-append (git_weight run removal) (m s).calls (handler x (m s).state).calls,
            hm s,
            hh x (m s).state,
          ))
  ]

  run_git_in-Costs :
      (dir : Text) (args : List Text) → Costs run (run_git_in g mirror_dir repo_url auth dir args)
  unfolding run_git_in
  run_git_in-Costs dir args =
      attempt-Costs run 0 run (perform (ran_git dir args) (g.run_git dir auth args)) throw
        (λ _. return tt) (λ s. omega arith) (λ e s. omega arith) (λ _ s. omega arith) (omega arith)

  -- What a retry may cost, with the removal before it.
  abbrev allowance : Option (M g.State (Unit {0})) → ℕ → ℕ
  allowance none k = 0
  allowance (some again) k = removal + k

  abbrev AgainCosts : Option (M g.State (Unit {0})) → ℕ → Type 0
  AgainCosts none k = Unit
  AgainCosts (some again) k = Costs k again

  if-Costs :
      (n : ℕ) (b : Bool) (l r : M g.State (Unit {0}))
      → Costs n l
      → Costs n r
      → Costs n (if b then l else r)
  if-Costs n true l r hl hr = hl
  if-Costs n false l r hl hr = hr

  recover-Costs :
      (n k : ℕ) (again : Option (M g.State (Unit {0}))) (otherwise : Error → M g.State (Unit {0}))
      → AgainCosts again k
      → allowance again k ≤ n
      → ((e : Error) → Costs n (otherwise e))
      → (e : Error) → Costs n (recover g mirror_dir repo_url auth again otherwise e)
  unfolding recover
  recover-Costs n k none otherwise ha le ho e = ho e
  recover-Costs n k (some again) otherwise ha le ho e =
      if-Costs n (is_config_corruption_error e)
        (perform (removed_all mirror_dir) (g.remove_all mirror_dir) >>= λ _. again) (otherwise e)
        (attempt-Costs removal k n (perform (removed_all mirror_dir) (g.remove_all mirror_dir))
          throw (λ _. again) (λ s. omega arith) (λ e s. omega arith) (λ _. ha) le)
        (ho e)

  fetch_origin-Costs :
      (n k : ℕ) (again : Option (M g.State (Unit {0})))
      → AgainCosts again k
      → run + allowance again k ≤ n
      → Costs n (fetch_origin g mirror_dir repo_url auth again)
  unfolding fetch_origin
  fetch_origin-Costs n k again ha le =
      attempt-Costs run (allowance again k) n
        (run_git_in g mirror_dir repo_url auth mirror_dir fetch_args)
        (recover g mirror_dir repo_url auth again throw) return
        (run_git_in-Costs mirror_dir fetch_args)
        (recover-Costs (allowance again k) k again throw ha (omega arith) (λ e s. omega arith))
        (λ _ s. omega arith) le

  set_origin-Costs :
      (n k : ℕ) (again : Option (M g.State (Unit {0})))
      → AgainCosts again k
      → run + (run + allowance again k) ≤ n
      → Costs n (set_origin g mirror_dir repo_url auth again)
  unfolding set_origin
  set_origin-Costs n k again ha le =
      let b = run + allowance again k in
      let fetch = fetch_origin g mirror_dir repo_url auth again in
      let fetches = fetch_origin-Costs b k again ha (omega arith) in
      let otherwise = λ (e : Error).
        if contains_text e.message (codes "already exists") then fetch else throw e in
      attempt-Costs run b n (run_git_in g mirror_dir repo_url auth mirror_dir (add_args repo_url))
        (recover g mirror_dir repo_url auth again otherwise) (λ _. fetch)
        (run_git_in-Costs mirror_dir (add_args repo_url))
        (recover-Costs b k again otherwise ha (omega arith) (λ e.
          if-Costs b (contains_text e.message (codes "already exists")) fetch (throw e) fetches
            (λ s. omega arith)))
        (λ _. fetches) le

  ensure_mirror_attempt-Costs :
      (n k : ℕ) (again : Option (M g.State (Unit {0})))
      → AgainCosts again k
      → run + (run + (run + (run + allowance again k))) ≤ n
      → Costs n (ensure_mirror_attempt g mirror_dir repo_url auth again)
  unfolding ensure_mirror_attempt
  ensure_mirror_attempt-Costs n k again ha le =
      let b = run + (run + allowance again k) in
      let head = join_path mirror_dir (codes "HEAD") in
      let look : M g.State Bool =
        perform (looked_for head) (λ s. (ok (g.is_missing head s).0, (g.is_missing head s).1)) in
      let origin = set_origin g mirror_dir repo_url auth again in
      let sets = set_origin-Costs b k again ha (omega arith) in
      let remove = run_git_in g mirror_dir repo_url auth mirror_dir remove_args in
      let rest = λ (u : Unit {0}). attempt remove (λ _. origin) (λ _. origin) in
      let init = λ (missing : Bool).
        if missing
        then run_git_in g mirror_dir repo_url auth [] (init_args mirror_dir)
        else return tt in
      attempt-Costs 0 (run + (run + b)) n look throw
        (λ missing. attempt (init missing) (recover g mirror_dir repo_url auth again throw) rest)
        (λ s. omega arith) (λ e s. omega arith)
        (λ missing.
          attempt-Costs run (run + b) (run + (run + b)) (init missing)
            (recover g mirror_dir repo_url auth again throw) rest
            (if-Costs run missing (run_git_in g mirror_dir repo_url auth [] (init_args mirror_dir))
              (return tt) (run_git_in-Costs [] (init_args mirror_dir)) (λ s. omega arith))
            (recover-Costs (run + b) k again throw ha (omega arith) (λ e s. omega arith))
            (λ _.
              attempt-Costs run b (run + b) remove (λ _. origin) (λ _. origin)
                (run_git_in-Costs mirror_dir remove_args) (λ _. sets) (λ _. sets) (omega arith))
            (omega arith))
        (omega arith)

  ensure_mirror-Costs :
      Costs (4 * run + (removal + 4 * run)) (ensure_mirror g mirror_dir repo_url auth)
  unfolding ensure_mirror
  ensure_mirror-Costs =
      ensure_mirror_attempt-Costs (4 * run + (removal + 4 * run)) (4 * run)
        (some (ensure_mirror_attempt g mirror_dir repo_url auth none))
        (ensure_mirror_attempt-Costs (4 * run) 0 none tt (omega arith)) (omega arith)

-- Preparing a mirror runs git at most eight times, and removes the mirror at most once, whatever
-- fails.
pub ensure_mirror-bounded :
    (g : GitWorld) (mirror_dir repo_url : Text) (auth : g.Auth) (s : g.State)
    → (total (git_weight 1 0) (ensure_mirror g mirror_dir repo_url auth s).calls ≤ 8)
      × (total (git_weight 0 1) (ensure_mirror g mirror_dir repo_url auth s).calls ≤ 1)
ensure_mirror-bounded g mirror_dir repo_url auth s = (
  ensure_mirror-Costs 1 0 g mirror_dir repo_url auth s,
  ensure_mirror-Costs 0 1 g mirror_dir repo_url auth s,
)
