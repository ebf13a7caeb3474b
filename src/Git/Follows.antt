-- ===== src/Git/Follows.antt =====
-- Properties of the code on a mirror, of `withLock` and of `Checkout` that follow from those of their
-- calls.
pub mod Locking
pub mod Serving
use cabure.Base.{
  ℕ, zero, suc, ◌+◌, ltb, Bool, true, false, Option, none, some, List, [], ◌∷◌, ◌++◌, ◌==◌, not,
  nat_eq, list_eq, Error, Cause, would_block, errorf, wrap, ok, if◌then◌else◌,
}
use cabure.Text.{Text, codes, contains_text, to_lower}
use cabure.Text.Format.{quoted}
use cabure.Path.{join_path}
use cabure.Effects.{
  M, on_disk, opened_lock, tried_lock, unlocked, closed, slept, looked_for, removed_all, ran_git,
  return, throw, perform, perform_only, finally, attempt, ◌>>=◌, ◌>>◌,
}
use cabure.Effects.Logic.{Logic, chains, steps, branches, options}
use cabure.Git.{
  GitWorld, is_config_corruption_error, init_args, remove_args, add_args, fetch_args, is_sha1,
  first_field, resolve_revision, run_git_in, recover, fetch_origin, set_origin,
  ensure_mirror_attempt, ensure_mirror,
}
use cabure.Git.Host.{Host}
use cabure.Git.Lock.{
  pause, out_of_rounds, lock_rounds, if_busy, close_file, wait_until, lock_round, lock_loop,
  run_locked, with_lock,
}

-- The directories and arguments that git runs with on a mirror.
pub data IsMirrorRun (mirror_dir repo_url revision : Text) : Text → List Text → Type 0 where
  inits : IsMirrorRun mirror_dir repo_url revision [] (init_args mirror_dir)
  removes_remote : IsMirrorRun mirror_dir repo_url revision mirror_dir remove_args
  adds_remote : IsMirrorRun mirror_dir repo_url revision mirror_dir (add_args repo_url)
  fetches : IsMirrorRun mirror_dir repo_url revision mirror_dir fetch_args
  verifies :
      IsMirrorRun mirror_dir repo_url revision mirror_dir
        (codes "rev-parse" ∷ codes "--verify" ∷ (revision ++ codes "^{commit}") ∷ [])
  lists :
      IsMirrorRun mirror_dir repo_url revision mirror_dir
        (codes "ls-remote" ∷ codes "--refs" ∷ codes "origin" ∷ revision ∷ [])

module _ (g : GitWorld) (P : (A : Type 0) → M g.State A → Type 0) (logic : Logic P)
    (mirror_dir repo_url revision : Text) (auth : g.Auth) where
  -- The property holds of each call on the mirror.
  pub record MirrorCalls : Type 0 where
    pub head : P Bool (
        perform (looked_for (join_path mirror_dir (codes "HEAD"))) (λ s. (
          ok (g.is_missing (join_path mirror_dir (codes "HEAD")) s).0,
          (g.is_missing (join_path mirror_dir (codes "HEAD")) s).1,
        )))
    pub removal : P (Unit {0}) (perform (removed_all mirror_dir) (g.remove_all mirror_dir))
    pub runs :
        (dir : Text) (args : List Text)
        → IsMirrorRun mirror_dir repo_url revision dir args
        → P Text (perform (ran_git dir args) (g.run_git dir auth args))

  module _ (calls : MirrorCalls) where
    git_in-follows :
        (dir : Text) (args : List Text)
        → IsMirrorRun mirror_dir repo_url revision dir args
        → P (Unit {0}) (run_git_in g mirror_dir repo_url auth dir args)
    unfolding run_git_in
    git_in-follows dir args run =
        chains logic (perform (ran_git dir args) (g.run_git dir auth args)) (λ _. return tt)
          (calls.runs dir args run) (λ _. logic.returns tt)

    -- What is tried again, if anything.
    abbrev AgainFollows : Option (M g.State (Unit {0})) → Type 0
    AgainFollows none = Unit
    AgainFollows (some again) = P (Unit {0}) again

    recover-follows :
        (again : Option (M g.State (Unit {0}))) (otherwise : Error → M g.State (Unit {0}))
        → AgainFollows again
        → ((e : Error) → P (Unit {0}) (otherwise e))
        → (e : Error) → P (Unit {0}) (recover g mirror_dir repo_url auth again otherwise e)
    unfolding recover
    recover-follows none otherwise ha ho e = ho e
    recover-follows (some again) otherwise ha ho e =
        branches logic (is_config_corruption_error e)
          (perform (removed_all mirror_dir) (g.remove_all mirror_dir) >>= λ _. again) (otherwise e)
          (chains logic (perform (removed_all mirror_dir) (g.remove_all mirror_dir)) (λ _. again)
            calls.removal (λ _. ha))
          (ho e)

    fetch_origin-follows :
        (again : Option (M g.State (Unit {0})))
        → AgainFollows again
        → P (Unit {0}) (fetch_origin g mirror_dir repo_url auth again)
    unfolding fetch_origin
    fetch_origin-follows again ha =
        logic.attempts (run_git_in g mirror_dir repo_url auth mirror_dir fetch_args)
          (recover g mirror_dir repo_url auth again throw) return
          (git_in-follows mirror_dir fetch_args fetches)
          (recover-follows again throw ha logic.throws) logic.returns

    set_origin-follows :
        (again : Option (M g.State (Unit {0})))
        → AgainFollows again
        → P (Unit {0}) (set_origin g mirror_dir repo_url auth again)
    unfolding set_origin
    set_origin-follows again ha =
        let fetch = fetch_origin g mirror_dir repo_url auth again in
        let otherwise = λ (e : Error).
          if contains_text e.message (codes "already exists") then fetch else throw e in
        logic.attempts (run_git_in g mirror_dir repo_url auth mirror_dir (add_args repo_url))
          (recover g mirror_dir repo_url auth again otherwise) (λ _. fetch)
          (git_in-follows mirror_dir (add_args repo_url) adds_remote)
          (recover-follows again otherwise ha (λ e.
            branches logic (contains_text e.message (codes "already exists")) fetch (throw e)
              (fetch_origin-follows again ha) (logic.throws e)))
          (λ _. fetch_origin-follows again ha)

    ensure_mirror_attempt-follows :
        (again : Option (M g.State (Unit {0})))
        → AgainFollows again
        → P (Unit {0}) (ensure_mirror_attempt g mirror_dir repo_url auth again)
    unfolding ensure_mirror_attempt
    ensure_mirror_attempt-follows again ha =
        let head = join_path mirror_dir (codes "HEAD") in
        let look : M g.State Bool =
          perform (looked_for head) (λ s. (ok (g.is_missing head s).0, (g.is_missing head s).1)) in
        let origin = set_origin g mirror_dir repo_url auth again in
        let remove = run_git_in g mirror_dir repo_url auth mirror_dir remove_args in
        let rest = λ (u : Unit {0}). attempt remove (λ _. origin) (λ _. origin) in
        let init = λ (missing : Bool).
          if missing
          then run_git_in g mirror_dir repo_url auth [] (init_args mirror_dir)
          else return tt in
        chains logic look
          (λ missing. attempt (init missing) (recover g mirror_dir repo_url auth again throw) rest)
          calls.head
          (λ missing.
            logic.attempts (init missing) (recover g mirror_dir repo_url auth again throw) rest
              (branches logic missing
                (run_git_in g mirror_dir repo_url auth [] (init_args mirror_dir)) (return tt)
                (git_in-follows [] (init_args mirror_dir) inits) (logic.returns tt))
              (recover-follows again throw ha logic.throws)
              (λ _.
                logic.attempts remove (λ _. origin) (λ _. origin)
                  (git_in-follows mirror_dir remove_args removes_remote)
                  (λ _. set_origin-follows again ha) (λ _. set_origin-follows again ha)))

    pub ensure_mirror-follows : P (Unit {0}) (ensure_mirror g mirror_dir repo_url auth)
    unfolding ensure_mirror
    ensure_mirror-follows =
        ensure_mirror_attempt-follows (some (ensure_mirror_attempt g mirror_dir repo_url auth none))
          (ensure_mirror_attempt-follows none tt)

    pub resolve_revision-follows : P Text (resolve_revision g mirror_dir revision auth)
    unfolding resolve_revision
    resolve_revision-follows =
        let verify_args =
          codes "rev-parse" ∷ codes "--verify" ∷ (revision ++ codes "^{commit}") ∷ [] in
        let list_args = codes "ls-remote" ∷ codes "--refs" ∷ codes "origin" ∷ revision ∷ [] in
        let verify =
          perform (ran_git mirror_dir verify_args) (g.run_git mirror_dir auth verify_args) in
        let list = perform (ran_git mirror_dir list_args) (g.run_git mirror_dir auth list_args) in
        let failed = λ (e : Error).
          throw {A = Text} (wrap (codes "verify commit " ++ (revision ++ codes ": ")) e) in
        let missing = errorf (codes "revision " ++ (quoted revision ++ codes " not found")) in
        let unexpected = errorf (codes "unexpected revision response for " ++ quoted revision) in
        let known : Text → M g.State Text = λ out.
          if not (is_sha1 (first_field out)) then throw unexpected else return (first_field out) in
        let pick : Text → M g.State Text =
          λ out. if first_field out == [] then throw missing else known out in
        branches logic (is_sha1 revision) (attempt verify failed (λ _. return (to_lower revision)))
          (list >>= pick)
          (logic.attempts verify failed (λ _. return (to_lower revision))
            (calls.runs mirror_dir verify_args verifies) (λ e. logic.throws _)
            (λ _. logic.returns (to_lower revision)))
          (chains logic list pick (calls.runs mirror_dir list_args lists) (λ out.
            branches logic (first_field out == []) (throw missing) (known out)
              (logic.throws missing)
              (branches logic (not (is_sha1 (first_field out))) (throw unexpected)
                (return (first_field out)) (logic.throws unexpected)
                (logic.returns (first_field out)))))
