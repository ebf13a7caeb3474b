-- ===== src/Git/Checkout/Cache/Providing.antt =====
-- `Checkout` provides the directory of a commit (internal/git/repository.go).
use cabure.Base.{
  ◌+◌, ◌*◌, ◌≡◌, ℕ, Bool, true, Bool-cases, Option, some, none, inl, inr, ok, ok_injective, ap, ◌∙◌,
  sym, ◌++◌, if◌then◌else◌,
}
use cabure.Text.{Text, codes}
use cabure.Path.{join_path}
use cabure.Effects.{M, return, throw, ◌>>◌}
use cabure.Effects.Logic.{Leads, Leads-Logic}
use cabure.Git.{is_sha1}
use cabure.Git.Revision.{returned_by}
use cabure.Effects.Calls.{>>=-returned}
use cabure.Git.Host.{Host, GitAuth, git_world}
use cabure.Git.Lock.{second, lock_rounds, lock_loop, run_locked, with_lock}
use cabure.Git.Follows.{MirrorCalls}
use cabure.Git.Follows.Locking.{LockCalls, lock_loop-follows}
use cabure.Git.Checkout.{is_there, build_dir, provide}
use cabure.Git.Checkout.Cache.{Later, IsSound, IsCacheDisk, Later-IsPreorder, Later-Holds}
use cabure.Git.Checkout.Cache.Filling.{Brings, kept, attempt-Brings, is_there-Leads, is_there-Holds}
use cabure.Git.Checkout.Cache.Building.{build_dir-Brings}

names_of_pair : {a b c d : Text} → ◌≡◌ {A = Text × Text} (a, b) (c, d) → (d ≡ b) × (c ≡ a)
names_of_pair e = (sym (ap (λ p. p.1) e), sym (ap (λ p. p.0) e))

module _ (h : Host) (commit_at : Text → h.State → Option Text)
    (mirror_dir checkout_dir repo_url : Text) (auth : Option GitAuth)
    (disk : IsCacheDisk h commit_at mirror_dir checkout_dir auth) where
  -- No checkout is spoiled.
  abbrev pub Spares : (A : Type 0) → M h.State A → Type 0
  Spares A m = Leads (Later h commit_at mirror_dir checkout_dir) m

  pub same : (s : h.State) → Later h commit_at mirror_dir checkout_dir s s
  same s = (Later-IsPreorder h commit_at mirror_dir checkout_dir).same s

  after :
      (s t u : h.State)
      → Later h commit_at mirror_dir checkout_dir s t
      → Later h commit_at mirror_dir checkout_dir t u
      → Later h commit_at mirror_dir checkout_dir s u
  after s t u a b = (Later-IsPreorder h commit_at mirror_dir checkout_dir).after s t u a b

  pub lock_calls :
      (stem : Text)
      → LockCalls h Spares
          (Leads-Logic
            (Later h commit_at mirror_dir checkout_dir)
            (Later-IsPreorder h commit_at mirror_dir checkout_dir))
          (stem ++ codes ".lockfile")
  lock_calls stem = record {
    opens = disk.opens stem;
    tries = disk.tries;
    unlocks = disk.unlocks;
    closes = disk.closes;
    sleeps = disk.sleeps;
  }

  pub mirror_calls :
      (revision : Text)
      → MirrorCalls
          (git_world h)
          Spares
          (Leads-Logic
            (Later h commit_at mirror_dir checkout_dir)
            (Later-IsPreorder h commit_at mirror_dir checkout_dir))
          mirror_dir
          repo_url
          revision
          auth
  mirror_calls revision = record {
    head = disk.stats (join_path mirror_dir (codes "HEAD"));
    removal = disk.mirror_removal;
    runs = disk.mirror_runs repo_url revision;
  }

  run_locked-Brings :
      (sha path : Text) (fn : M h.State (Unit {0})) (o : Option h.File) (s : h.State)
      → is_sha1 sha ≡ true
      → Brings h commit_at mirror_dir checkout_dir repo_url auth disk sha s (fn s)
      → Brings h commit_at mirror_dir checkout_dir repo_url auth disk sha s
          (run_locked h path fn o s)
  unfolding run_locked
  run_locked-Brings sha path fn none s named b = (same s, λ a r. absurd cc)
  run_locked-Brings sha path fn (some file) s named (later, brought) =
      let t = (fn s).state in
      let u = h.unlock file t in
      let on = after t u (h.close file u) (disk.unlocks file t) (disk.closes file u) in
      (
        after s t (h.close file u) later on,
        λ a r. Later-Holds h commit_at mirror_dir checkout_dir sha named on (brought a r),
      )

  with_lock-Brings :
      (sha stem : Text) (timeout : ℕ) (fn : M h.State (Unit {0})) (s : h.State)
      → is_sha1 sha ≡ true
      → IsSound h commit_at mirror_dir checkout_dir s
      → ((t : h.State)
          → IsSound h commit_at mirror_dir checkout_dir t
          → Brings h commit_at mirror_dir checkout_dir repo_url auth disk sha t (fn t))
      → Brings h commit_at mirror_dir checkout_dir repo_url auth disk sha s
          (with_lock h (stem ++ codes ".lockfile") timeout fn s)
  unfolding with_lock
  with_lock-Brings sha stem timeout fn s named sound b =
      let path = stem ++ codes ".lockfile" in
      let wait = lock_loop h (lock_rounds timeout) path (h.now s + timeout) in
      let t = (wait s).state in
      let later =
        lock_loop-follows h Spares
          (Leads-Logic (Later h commit_at mirror_dir checkout_dir)
            (Later-IsPreorder h commit_at mirror_dir checkout_dir))
          path (lock_calls stem) (lock_rounds timeout) (h.now s + timeout) s in
      attempt-Brings h commit_at mirror_dir checkout_dir repo_url auth disk sha wait throw
        (run_locked h path fn) s later (λ e r. (same t, λ a q. absurd cc))
        (λ o r.
          run_locked-Brings sha path fn o t named
            (b t (kept h commit_at mirror_dir checkout_dir repo_url auth disk s t later sound)))

  pub provide-Brings :
      (sha : Text) (s : h.State)
      → is_sha1 sha ≡ true
      → IsSound h commit_at mirror_dir checkout_dir s
      → Brings h commit_at mirror_dir checkout_dir repo_url auth disk sha s
          (provide h mirror_dir checkout_dir repo_url auth sha s)
  unfolding provide
  provide-Brings sha s named sound =
      let final_dir = join_path checkout_dir sha in
      let look = is_there h mirror_dir checkout_dir repo_url auth final_dir in
      let build = build_dir h mirror_dir checkout_dir repo_url auth final_dir sha in
      let lock = with_lock h (final_dir ++ codes ".lockfile") (30 * second) build in
      let pair : Text × Text = (final_dir, sha) in
      let finish : Bool → M h.State (Text × Text) =
        λ there. if there then return pair else (lock >> return pair) in
      let t = (look s).state in
      let later =
        is_there-Leads h commit_at mirror_dir checkout_dir repo_url auth disk final_dir s in
      let sound' = kept h commit_at mirror_dir checkout_dir repo_url auth disk s t later sound in
      attempt-Brings h commit_at mirror_dir checkout_dir repo_url auth disk sha look throw finish s
        later (λ e r. (same t, λ a q. absurd cc))
        (λ there r. elim (Bool-cases there) [
          | inl y ↦ rw y (
            same t,
            λ _ _.
                is_there-Holds h commit_at mirror_dir checkout_dir repo_url auth disk sha s named
                  sound (r ∙ ap ok y),
          )
          | inr n ↦
              let (on, brought) =
                with_lock-Brings sha final_dir (30 * second) build t named sound' (
                  build_dir-Brings h commit_at mirror_dir checkout_dir repo_url auth disk sha
                    named) in
              rw n (
                attempt-Brings h commit_at mirror_dir checkout_dir repo_url auth disk sha lock throw
                  (λ _. return pair) t on (λ e q. (same (lock t).state, λ a q'. absurd cc))
                  (λ a q. (same (lock t).state, λ _ _. brought a q)))
        ])

  pub provide-names :
      (sha : Text) (s : h.State) {dir x : Text}
      → (provide h mirror_dir checkout_dir repo_url auth sha s).result ≡ ok (dir, x)
      → (x ≡ sha) × (dir ≡ join_path checkout_dir sha)
  unfolding provide
  provide-names sha s {dir} {x} r =
      let final_dir = join_path checkout_dir sha in
      let look = is_there h mirror_dir checkout_dir repo_url auth final_dir in
      let build = build_dir h mirror_dir checkout_dir repo_url auth final_dir sha in
      let lock = with_lock h (final_dir ++ codes ".lockfile") (30 * second) build in
      let pair : Text × Text = (final_dir, sha) in
      let finish : Bool → M h.State (Text × Text) =
        λ there. if there then return pair else (lock >> return pair) in
      let (there, _, e) = >>=-returned look finish s r in
      elim (returned_by there (return pair) (lock >> return pair) (look s).state e) [
        | inl (_, k) ↦ names_of_pair (ok_injective k)
        | inr (_, k) ↦
            let (u, _, e') = >>=-returned lock (λ _. return pair) (look s).state k in
            names_of_pair (ok_injective e')
      ]
