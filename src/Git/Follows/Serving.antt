-- ===== src/Git/Follows/Serving.antt =====
-- Properties of the part of `Checkout` that runs git, from those of its calls.
use cabure.Base.{◌*◌, Bool, false, if◌then◌else◌, Error, Cause, exists, ◌++◌}
use cabure.Text.{Text, codes}
use cabure.Path.{join_path}
use cabure.Effects.{
  M, on_disk, made_temp, renamed, looked_for, ran_git, return, throw, perform, finally, attempt,
  ◌>>=◌, ◌>>◌,
}
use cabure.Effects.Logic.{Logic, chains, steps, branches}
use cabure.Git.{ensure_mirror, resolve_revision, run_git_in}
use cabure.Git.Host.{Host, GitAuth, run_git_command, git_world}
use cabure.Git.Lock.{second, with_lock}
use cabure.Git.Follows.{MirrorCalls, ensure_mirror-follows, resolve_revision-follows}
use cabure.Git.Follows.Locking.{LockCalls, with_lock-follows}
use cabure.Git.Checkout.{
  clone_args, checkout_args, remove_dir, or_remove, git_in, is_there, rename_failed, fill_dir,
  build_dir, provide, serve,
}
use cabure.Base.{Option, List}

module _ (h : Host) (P : (A : Type 0) → M h.State A → Type 0) (logic : Logic P)
    (mirror_dir checkout_dir repo_url : Text) (auth : Option GitAuth) where
  pub is_there-follows :
      (p : Text)
      → P Bool (perform (looked_for p) (h.stat p))
      → P Bool (is_there h mirror_dir checkout_dir repo_url auth p)
  unfolding is_there
  is_there-follows p look =
      logic.attempts (perform (looked_for p) (h.stat p)) (λ e. return false) return look
        (λ e. logic.returns false) logic.returns

  pub git_in-follows :
      (dir : Text) (args : List Text)
      → P Text (perform (ran_git dir args) (run_git_command h dir auth args))
      → P (Unit {0}) (git_in h mirror_dir checkout_dir repo_url auth dir args)
  unfolding run_git_in
  git_in-follows dir args run =
      chains logic (perform (ran_git dir args) (run_git_command h dir auth args)) (λ _. return tt)
        run (λ _. logic.returns tt)

  pub or_remove-follows :
      (dir : Text) (m : M h.State (Unit {0}))
      → P (Unit {0}) m
      → P (Unit {0}) (remove_dir h dir)
      → P (Unit {0}) (or_remove h dir m)
  unfolding or_remove
  or_remove-follows dir m hm removal =
      logic.attempts m (λ e. finally (throw e) (remove_dir h dir)) return hm
        (λ e. logic.finallys (throw e) (remove_dir h dir) (logic.throws e) removal) logic.returns

  pub rename_failed-follows :
      (final_dir : Text) (c : Cause) (e : Error)
      → P Bool (perform (looked_for final_dir) (h.stat final_dir))
      → P (Unit {0}) (rename_failed h mirror_dir checkout_dir repo_url auth final_dir c e)
  unfolding rename_failed
  rename_failed-follows final_dir exists e look = logic.returns tt
  rename_failed-follows final_dir _ e look =
      logic.attempts (perform (looked_for final_dir) (h.stat final_dir)) (λ _. throw e)
        (λ _. return tt) look (λ _. logic.throws e) (λ _. logic.returns tt)

  -- The property holds of each call that fills a directory.
  pub record FillCalls (final_dir sha : Text) : Type 0 where
    pub look : P Bool (perform (looked_for final_dir) (h.stat final_dir))
    pub temp : P Text (
        perform
          (on_disk (made_temp checkout_dir (codes "tmp-*")))
          (h.mkdir_temp checkout_dir (codes "tmp-*")))
    pub clones :
        (t : Text)
        → P Text (
            perform
              (ran_git mirror_dir (clone_args mirror_dir t))
              (run_git_command h mirror_dir auth (clone_args mirror_dir t)))
    pub checks_out :
        (t : Text)
        → P Text
            (perform (ran_git t (checkout_args sha)) (run_git_command h t auth (checkout_args sha)))
    pub renames :
        (t : Text) → P (Unit {0}) (perform (on_disk (renamed t final_dir)) (h.rename t final_dir))
    pub removes : (t : Text) → P (Unit {0}) (remove_dir h t)

  fill_dir-follows :
      (final_dir sha t : Text)
      → FillCalls final_dir sha
      → P (Unit {0}) (fill_dir h mirror_dir checkout_dir repo_url auth final_dir sha t)
  unfolding fill_dir
  fill_dir-follows final_dir sha t calls =
      let rename = perform (on_disk (renamed t final_dir)) (h.rename t final_dir) in
      let failed =
        λ (e : Error). rename_failed h mirror_dir checkout_dir repo_url auth final_dir e.cause e in
      let check = git_in h mirror_dir checkout_dir repo_url auth t (checkout_args sha) in
      steps logic
        (git_in h mirror_dir checkout_dir repo_url auth mirror_dir (clone_args mirror_dir t))
        (check >> attempt rename failed return)
        (git_in-follows mirror_dir (clone_args mirror_dir t) (calls.clones t))
        (steps logic check (attempt rename failed return)
          (git_in-follows t (checkout_args sha) (calls.checks_out t))
          (logic.attempts rename failed return (calls.renames t)
            (λ e. rename_failed-follows final_dir e.cause e calls.look) logic.returns))

  build_dir-follows :
      (final_dir sha : Text)
      → FillCalls final_dir sha
      → P (Unit {0}) (build_dir h mirror_dir checkout_dir repo_url auth final_dir sha)
  unfolding build_dir
  build_dir-follows final_dir sha calls =
      let temp =
        perform (on_disk (made_temp checkout_dir (codes "tmp-*")))
          (h.mkdir_temp checkout_dir (codes "tmp-*")) in
      let fill = λ (t : Text).
        or_remove h t (fill_dir h mirror_dir checkout_dir repo_url auth final_dir sha t) in
      let look = is_there h mirror_dir checkout_dir repo_url auth final_dir in
      let build : Bool → M h.State (Unit {0}) =
        λ there. if there then return tt else (temp >>= fill) in
      chains logic look build (is_there-follows final_dir calls.look) (λ there.
        branches logic there (return tt) (temp >>= fill) (logic.returns tt) (
          chains logic temp fill calls.temp (λ t.
            or_remove-follows t (fill_dir h mirror_dir checkout_dir repo_url auth final_dir sha t)
              (fill_dir-follows final_dir sha t calls) (calls.removes t))))

  provide-follows :
      (sha : Text)
      → FillCalls (join_path checkout_dir sha) sha
      → LockCalls h P logic (join_path checkout_dir sha ++ codes ".lockfile")
      → P (Text × Text) (provide h mirror_dir checkout_dir repo_url auth sha)
  unfolding provide
  provide-follows sha calls locks =
      let final_dir = join_path checkout_dir sha in
      let look = is_there h mirror_dir checkout_dir repo_url auth final_dir in
      let build = build_dir h mirror_dir checkout_dir repo_url auth final_dir sha in
      let lock = with_lock h (final_dir ++ codes ".lockfile") (30 * second) build in
      let pair : Text × Text = (final_dir, sha) in
      let finish : Bool → M h.State (Text × Text) =
        λ there. if there then return pair else (lock >> return pair) in
      chains logic look finish (is_there-follows final_dir calls.look) (λ there.
        branches logic there (return pair) (lock >> return pair) (logic.returns pair) (
          steps logic lock (return pair)
            (with_lock-follows h P logic (final_dir ++ codes ".lockfile") locks (30 * second) build
              (build_dir-follows final_dir sha calls))
            (logic.returns pair)))

  pub serve-follows :
      (revision : Text)
      → MirrorCalls (git_world h) P logic mirror_dir repo_url revision auth
      → ((path : Text) → LockCalls h P logic path)
      → ((sha : Text) → FillCalls (join_path checkout_dir sha) sha)
      → P (Text × Text) (serve h mirror_dir checkout_dir repo_url auth revision)
  unfolding serve
  serve-follows revision mirror locks fills =
      let ensure = ensure_mirror (git_world h) mirror_dir repo_url auth in
      let lock = with_lock h (mirror_dir ++ codes ".lockfile") (30 * second) ensure in
      let resolve = resolve_revision (git_world h) mirror_dir revision auth in
      let finish = provide h mirror_dir checkout_dir repo_url auth in
      steps logic lock (resolve >>= finish)
        (with_lock-follows h P logic (mirror_dir ++ codes ".lockfile")
          (locks (mirror_dir ++ codes ".lockfile")) (30 * second) ensure
          (ensure_mirror-follows (git_world h) P logic mirror_dir repo_url revision auth mirror))
        (chains logic resolve finish
          (resolve_revision-follows (git_world h) P logic mirror_dir repo_url revision auth mirror)
          (λ sha.
            provide-follows sha (fills sha)
              (locks (join_path checkout_dir sha ++ codes ".lockfile"))))
