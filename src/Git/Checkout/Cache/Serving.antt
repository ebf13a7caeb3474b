-- ===== src/Git/Checkout/Cache/Serving.antt =====
-- `Checkout` from the lock of the mirror on, as a cache (internal/git/repository.go).
use cabure.Base.{◌*◌, ◌≡◌, true, Option, some, ok, ap, ◌∙◌, sym, ◌++◌}
use cabure.Text.{Text, codes}
use cabure.Path.{join_path}
use cabure.Effects.{throw, ◌>>=◌}
use cabure.Effects.Logic.{Leads-Logic}
use cabure.Git.{is_sha1, ensure_mirror, resolve_revision}
use cabure.Git.Revision.{resolve_revision_lem}
use cabure.Git.Host.{Host, GitAuth, git_world}
use cabure.Git.Lock.{second, with_lock}
use cabure.Git.Follows.{ensure_mirror-follows, resolve_revision-follows}
use cabure.Git.Follows.Locking.{with_lock-follows}
use cabure.Git.Checkout.{provide, serve}
use cabure.Git.Checkout.Cache.{Later, IsSound, IsCacheDisk, Later-IsPreorder}
use cabure.Git.Checkout.Cache.Filling.{Leaves, attempt-Leaves, kept}
use cabure.Git.Checkout.Cache.Providing.{
  Spares, same, lock_calls, mirror_calls, provide-Brings, provide-names,
}

module _ (h : Host) (commit_at : Text → h.State → Option Text)
    (mirror_dir checkout_dir repo_url : Text) (auth : Option GitAuth)
    (disk : IsCacheDisk h commit_at mirror_dir checkout_dir auth) where
  -- What `Checkout` returns: a commit name, and the directory that holds the commit.
  abbrev IsServed : Text × Text → h.State → Type 0
  IsServed (dir, sha) t =
      (is_sha1 sha ≡ true) × (dir ≡ join_path checkout_dir sha) × (commit_at dir t ≡ some sha)

  provide-IsServed :
      (sha : Text) (s : h.State)
      → is_sha1 sha ≡ true
      → IsSound h commit_at mirror_dir checkout_dir s
      → Leaves h commit_at mirror_dir checkout_dir repo_url auth disk IsServed s
          (provide h mirror_dir checkout_dir repo_url auth sha s)
  provide-IsServed sha s named sound =
      let (later, brought) =
        provide-Brings h commit_at mirror_dir checkout_dir repo_url auth disk sha s named sound in
      (
        later,
        λ (dir, x) r.
            let (ex, ed) =
              provide-names h commit_at mirror_dir checkout_dir repo_url auth disk sha s r in
            (
              ap is_sha1 ex ∙ named,
              ed ∙ ap (join_path checkout_dir) (sym ex),
              ap (λ p. commit_at p (provide h mirror_dir checkout_dir repo_url auth sha s).state) ed
                  ∙ brought (dir, x) r
                  ∙ ap some (sym ex),
            ),
      )

  serve-Leaves :
      (revision : Text) (s : h.State)
      → IsSound h commit_at mirror_dir checkout_dir s
      → Leaves h commit_at mirror_dir checkout_dir repo_url auth disk IsServed s
          (serve h mirror_dir checkout_dir repo_url auth revision s)
  unfolding serve
  serve-Leaves revision s sound =
      let order = Later-IsPreorder h commit_at mirror_dir checkout_dir in
      let logic = Leads-Logic (Later h commit_at mirror_dir checkout_dir) order in
      let ensure = ensure_mirror (git_world h) mirror_dir repo_url auth in
      let path = mirror_dir ++ codes ".lockfile" in
      let lock = with_lock h path (30 * second) ensure in
      let resolve = resolve_revision (git_world h) mirror_dir revision auth in
      let finish = provide h mirror_dir checkout_dir repo_url auth in
      let t = (lock s).state in
      let u = (resolve t).state in
      let later1 =
        with_lock-follows h (Spares h commit_at mirror_dir checkout_dir repo_url auth disk) logic
          path (lock_calls h commit_at mirror_dir checkout_dir repo_url auth disk mirror_dir)
          (30 * second) ensure
          (ensure_mirror-follows (git_world h)
            (Spares h commit_at mirror_dir checkout_dir repo_url auth disk) logic mirror_dir
            repo_url revision auth
            (mirror_calls h commit_at mirror_dir checkout_dir repo_url auth disk revision))
          s in
      let later2 =
        resolve_revision-follows (git_world h)
          (Spares h commit_at mirror_dir checkout_dir repo_url auth disk) logic mirror_dir repo_url
          revision auth
          (mirror_calls h commit_at mirror_dir checkout_dir repo_url auth disk revision) t in
      let sound1 = kept h commit_at mirror_dir checkout_dir repo_url auth disk s t later1 sound in
      let sound2 = kept h commit_at mirror_dir checkout_dir repo_url auth disk t u later2 sound1 in
      attempt-Leaves h commit_at mirror_dir checkout_dir repo_url auth disk IsServed lock throw
        (λ _. resolve >>= finish) s later1
        (λ e r. (same h commit_at mirror_dir checkout_dir repo_url auth disk t, λ a q. absurd cc))
        (λ _ _.
          attempt-Leaves h commit_at mirror_dir checkout_dir repo_url auth disk IsServed resolve
            throw finish t later2
            (λ e r.
              (same h commit_at mirror_dir checkout_dir repo_url auth disk u, λ a q. absurd cc))
            (λ sha r.
              provide-IsServed sha u
                (resolve_revision_lem (git_world h) mirror_dir revision auth t r) sound2))

-- The cache of checkouts stays sound. Whatever fails, and at whatever call, no directory that is
-- named for a commit comes to hold another one, and a commit that is there stays there, if git, the
-- kernel and package os keep their promises.
pub serve-IsSound :
    (h : Host) (commit_at : Text → h.State → Option Text) (mirror_dir checkout_dir repo_url : Text)
    (auth : Option GitAuth) (revision : Text) (s : h.State)
    → IsCacheDisk h commit_at mirror_dir checkout_dir auth
    → IsSound h commit_at mirror_dir checkout_dir s
    → IsSound h commit_at mirror_dir checkout_dir
        (serve h mirror_dir checkout_dir repo_url auth revision s).state
      × Later h commit_at mirror_dir checkout_dir s
          (serve h mirror_dir checkout_dir repo_url auth revision s).state
serve-IsSound h commit_at mirror_dir checkout_dir repo_url auth revision s disk sound =
    let (later, _) =
      serve-Leaves h commit_at mirror_dir checkout_dir repo_url auth disk revision s sound in
    (kept h commit_at mirror_dir checkout_dir repo_url auth disk s _ later sound, later)

-- A checkout is what it says. From a sound cache, and if git, the kernel and package os keep their
-- promises, a commit and a directory that are returned are a full commit name, the directory of that
-- name, and a directory where git was last told to check out that commit; be it that it was there
-- before, that it was filled now, or that another process was faster.
pub serve-Holds :
    (h : Host) (commit_at : Text → h.State → Option Text) (mirror_dir checkout_dir repo_url : Text)
    (auth : Option GitAuth) (revision : Text) (s : h.State) {dir sha : Text}
    → IsCacheDisk h commit_at mirror_dir checkout_dir auth
    → IsSound h commit_at mirror_dir checkout_dir s
    → (serve h mirror_dir checkout_dir repo_url auth revision s).result ≡ ok (dir, sha)
    → (is_sha1 sha ≡ true)
      × (dir ≡ join_path checkout_dir sha)
      × (commit_at dir (serve h mirror_dir checkout_dir repo_url auth revision s).state ≡ some sha)
serve-Holds h commit_at mirror_dir checkout_dir repo_url auth revision s {dir} {sha} disk sound r =
    let (_, right) =
      serve-Leaves h commit_at mirror_dir checkout_dir repo_url auth disk revision s sound in
    right (dir, sha) r
