-- ===== src/Git/Mirror.antt =====
-- What `ensureMirror` does before it succeeds, and how often it runs git.
use cabure.Base.{
  ◌≡◌, refl, ap, sym, ◌∙◌, Bool, true, false, Option, none, some, List, [], ◌∷◌, ◌++◌, append_assoc,
  ok, Error, Result-cases, inl, inr, if◌then◌else◌,
}
use cabure.Text.{Text, codes, contains_text}
use cabure.Path.{join_path}
use cabure.Effects.{
  M, Call, looked_for, removed_all, ran_git, return, throw, perform, attempt, ◌>>=◌,
}
use cabure.Git.{
  GitWorld, is_config_corruption_error, init_args, remove_args, add_args, fetch_args, run_git_in,
  recover, fetch_origin, set_origin, ensure_mirror_attempt, ensure_mirror,
}

module _ (g : GitWorld) (mirror_dir repo_url : Text) (auth : g.Auth) where
  -- The last call was a fetch into the mirror, and git ran it without an error.
  pub record Fetched (calls : List Call) : Type 0 where
    pub before : List Call
    pub ends : calls ≡ before ++ (ran_git mirror_dir fetch_args ∷ [])
    pub state : g.State
    pub output : Text
    pub succeeded : (g.run_git mirror_dir auth fetch_args state).0 ≡ ok output

  -- Code that returns only after such a fetch.
  abbrev Fetches : M g.State (Unit {0}) → Type 0
  Fetches m = (s : g.State) → (m s).result ≡ ok tt → Fetched (m s).calls

  throw-Fetches : (e : Error) → Fetches (throw e)
  throw-Fetches e s h = cc

  later : (calls more : List Call) → Fetched more → Fetched (calls ++ more)
  later calls more f = record {
    before = calls ++ f.before;
    ends = ap (calls ++◌) f.ends ∙ sym (append_assoc calls f.before _);
    state = f.state;
    output = f.output;
    succeeded = f.succeeded;
  }

  attempt-Fetches :
      {A : Type 0} (m : M g.State A) (handler : Error → M g.State (Unit {0}))
      (rest : A → M g.State (Unit {0}))
      → ((e : Error) → Fetches (handler e))
      → ((a : A) → Fetches (rest a))
      → Fetches (attempt m handler rest)
  attempt-Fetches m handler rest hh hr s = elim (Result-cases (m s).result) [
    | inl (a, e) ↦
        rw (e, attempt) (λ h. later (m s).calls (rest a (m s).state).calls (hr a (m s).state h))
    | inr (x, e) ↦
        rw (e, attempt) (λ h. later (m s).calls (handler x (m s).state).calls (hh x (m s).state h))
  ]

  -- What is tried again, if anything, fetches too.
  abbrev AllFetch : Option (M g.State (Unit {0})) → Type 0
  AllFetch none = Unit
  AllFetch (some again) = Fetches again

  if-Fetches :
      (b : Bool) (m n : M g.State (Unit {0})) → Fetches m → Fetches n → Fetches (if b then m else n)
  if-Fetches true m n hm hn = hm
  if-Fetches false m n hm hn = hn

  recover-Fetches :
      (again : Option (M g.State (Unit {0}))) (otherwise : Error → M g.State (Unit {0}))
      → AllFetch again
      → ((e : Error) → Fetches (otherwise e))
      → (e : Error) → Fetches (recover g mirror_dir repo_url auth again otherwise e)
  unfolding recover
  recover-Fetches none otherwise ha ho e = ho e
  recover-Fetches (some again) otherwise ha ho e =
      if-Fetches (is_config_corruption_error e)
        (perform (removed_all mirror_dir) (g.remove_all mirror_dir) >>= λ _. again) (otherwise e)
        (attempt-Fetches (perform (removed_all mirror_dir) (g.remove_all mirror_dir)) throw
          (λ _. again) throw-Fetches (λ _. ha))
        (ho e)

  fetch_origin-Fetches :
      (again : Option (M g.State (Unit {0})))
      → AllFetch again
      → Fetches (fetch_origin g mirror_dir repo_url auth again)
  unfolding fetch_origin run_git_in
  fetch_origin-Fetches again ha s = elim (Result-cases (g.run_git mirror_dir auth fetch_args s).0) [
    | inl (out, e) ↦
        simp e (λ h. record { before = []; ends = refl; state = s; output = out; succeeded = e })
    | inr (x, e) ↦
        let s' = (g.run_git mirror_dir auth fetch_args s).1 in
        simp e (λ h.
          later (ran_git mirror_dir fetch_args ∷ [])
            (recover g mirror_dir repo_url auth again throw x s').calls
            (recover-Fetches again throw ha throw-Fetches x s' h))
  ]

  set_origin-Fetches :
      (again : Option (M g.State (Unit {0})))
      → AllFetch again
      → Fetches (set_origin g mirror_dir repo_url auth again)
  unfolding set_origin
  set_origin-Fetches again ha =
      let fetch = fetch_origin g mirror_dir repo_url auth again in
      let otherwise = λ (e : Error).
        if contains_text e.message (codes "already exists") then fetch else throw e in
      attempt-Fetches (run_git_in g mirror_dir repo_url auth mirror_dir (add_args repo_url))
        (recover g mirror_dir repo_url auth again otherwise) (λ _. fetch)
        (recover-Fetches again otherwise ha (λ e.
          if-Fetches (contains_text e.message (codes "already exists")) fetch (throw e)
            (fetch_origin-Fetches again ha) (throw-Fetches e)))
        (λ _. fetch_origin-Fetches again ha)

  ensure_mirror_attempt-Fetches :
      (again : Option (M g.State (Unit {0})))
      → AllFetch again
      → Fetches (ensure_mirror_attempt g mirror_dir repo_url auth again)
  unfolding ensure_mirror_attempt
  ensure_mirror_attempt-Fetches again ha =
      let head = join_path mirror_dir (codes "HEAD") in
      let look : M g.State Bool =
        perform (looked_for head) (λ s. (ok (g.is_missing head s).0, (g.is_missing head s).1)) in
      let origin = set_origin g mirror_dir repo_url auth again in
      let remove = run_git_in g mirror_dir repo_url auth mirror_dir remove_args in
      let rest = λ (u : Unit {0}). attempt remove (λ _. origin) (λ _. origin) in
      let init = λ (missing : Bool).
        if missing
        then run_git_in g mirror_dir repo_url auth [] (init_args mirror_dir)
        else return tt in
      attempt-Fetches look throw
        (λ missing. attempt (init missing) (recover g mirror_dir repo_url auth again throw) rest)
        throw-Fetches
        (λ missing.
          attempt-Fetches (init missing) (recover g mirror_dir repo_url auth again throw) rest
            (recover-Fetches again throw ha throw-Fetches)
            (λ _.
              attempt-Fetches remove (λ _. origin) (λ _. origin) (λ _. set_origin-Fetches again ha)
                (λ _. set_origin-Fetches again ha)))

-- A mirror is ready only after a fetch into it that git ran without an error, as the last call.
pub ensure_mirror-Fetched :
    (g : GitWorld) (mirror_dir repo_url : Text) (auth : g.Auth) (s : g.State)
    → (ensure_mirror g mirror_dir repo_url auth s).result ≡ ok tt
    → Fetched g mirror_dir repo_url auth (ensure_mirror g mirror_dir repo_url auth s).calls
unfolding ensure_mirror
ensure_mirror-Fetched g mirror_dir repo_url auth =
    ensure_mirror_attempt-Fetches g mirror_dir repo_url auth
      (some (ensure_mirror_attempt g mirror_dir repo_url auth none))
      (ensure_mirror_attempt-Fetches g mirror_dir repo_url auth none tt)
