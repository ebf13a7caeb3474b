-- ===== src/Git/Checkout/Cache/Building.antt =====
-- A directory is filled: `Checkout` under the lock of a commit (internal/git/repository.go).
use cabure.Base.{
  ◌≡◌, ◌≢◌, refl, sym, ap, ◌∙◌, Bool, true, Bool-cases, Option, some, none, inl, inr, ok, Error,
  Cause, exists, Result-cases, ◌==◌, list_eq, nat_eq, ==_iff, if◌then◌else◌, arith,
}
use cabure.Text.{Text, codes}
use cabure.Path.{join_path}
use cabure.Path.Last.{join_path_injective}
use cabure.Effects.{
  M, on_disk, made_temp, renamed, looked_for, return, throw, perform, finally, attempt, ◌>>=◌, ◌>>◌,
}
use cabure.Git.{is_sha1}
use cabure.Git.Host.{Host, GitAuth}
use cabure.Git.Checkout.{
  clone_args, checkout_args, remove_dir, or_remove, git_in, is_there, rename_failed, fill_dir,
  build_dir,
}
use cabure.Git.Checkout.Cache.{
  Later, IsTemp, IsCacheDisk, Later-IsPreorder, Later-IsSound, there-Holds,
}
use cabure.Git.Checkout.Cache.Filling.{
  length_of_sha1, is_sha1-IsName, Sound, kept, attempt-Brings, Brings, git_in-Leads, git_in-ok,
  is_there-Leads, is_there-Holds,
}

module _ (h : Host) (commit_at : Text → h.State → Option Text)
    (mirror_dir checkout_dir repo_url : Text) (auth : Option GitAuth)
    (disk : IsCacheDisk h commit_at mirror_dir checkout_dir auth) where
  module _ (sha : Text) (named : is_sha1 sha ≡ true) where
    abbrev final_dir : Text
    final_dir = join_path checkout_dir sha

    -- A rename that succeeded gives the commit its directory, and leaves the others.
    moved :
        (t : Text) (s : h.State)
        → IsTemp h commit_at mirror_dir checkout_dir t
        → commit_at t s ≡ some sha
        → (h.rename t final_dir s).0 ≡ ok tt
        → Later h commit_at mirror_dir checkout_dir s (h.rename t final_dir s).1
    moved t s temp full e sha' k = elim (Bool-cases (join_path checkout_dir sha' == final_dir)) [
      | inr other ↦
          disk.spares t sha sha' s temp named k
            (λ q. ground (arith, other, (==_iff (join_path checkout_dir sha') final_dir).1 q))
      | inl same ↦
          let at = (==_iff (join_path checkout_dir sha') final_dir).0 same in
          let name : sha' ≡ sha =
            join_path_injective checkout_dir sha' sha (is_sha1-IsName sha' k)
              (is_sha1-IsName sha named) (length_of_sha1 sha' k ∙ sym (length_of_sha1 sha named))
              at in
          inr (
            ap (λ p. commit_at p (h.rename t final_dir s).1) at
            ∙ disk.moves t sha s temp named e
            ∙ full
            ∙ ap some (sym name))
    ]

    rename_failed-Brings :
        (c : Cause) (e : Error) (s : h.State)
        → Sound h commit_at mirror_dir checkout_dir repo_url auth disk s
        → (c ≡ exists → commit_at final_dir s ≢ none)
        → Brings h commit_at mirror_dir checkout_dir repo_url auth disk sha s
            (rename_failed h mirror_dir checkout_dir repo_url auth final_dir c e s)
    unfolding rename_failed
    rename_failed-Brings exists e s sound there = (
      (Later-IsPreorder h commit_at mirror_dir checkout_dir).same s,
      λ _ _. there-Holds h commit_at mirror_dir checkout_dir sha s named sound (there refl),
    )
    rename_failed-Brings _ e s sound there =
        attempt-Brings h commit_at mirror_dir checkout_dir repo_url auth disk sha
          (perform (looked_for final_dir) (h.stat final_dir)) (λ _. throw e) (λ _. return tt) s
          (disk.stats final_dir s)
          (λ _ _. ((Later-IsPreorder h commit_at mirror_dir checkout_dir).same _, λ a r. absurd cc))
          (λ is_dir r. (
            (Later-IsPreorder h commit_at mirror_dir checkout_dir).same _,
            λ _ _.
                there-Holds h commit_at mirror_dir checkout_dir sha _ named
                  (Later-IsSound h commit_at mirror_dir checkout_dir (disk.stats final_dir s) sound)
                  (disk.directories sha s is_dir named r),
          ))

    rename-Brings :
        (t : Text) (s : h.State)
        → IsTemp h commit_at mirror_dir checkout_dir t
        → Sound h commit_at mirror_dir checkout_dir repo_url auth disk s
        → commit_at t s ≡ some sha
        → Brings h commit_at mirror_dir checkout_dir repo_url auth disk sha s (
            attempt
              (perform (on_disk (renamed t final_dir)) (h.rename t final_dir))
              (λ e. rename_failed h mirror_dir checkout_dir repo_url auth final_dir e.cause e)
              return
              s)
    rename-Brings t s temp sound full = elim (Result-cases (h.rename t final_dir s).0) [
      | inl (_, e) ↦
          let later = moved t s temp full e in
          attempt-Brings h commit_at mirror_dir checkout_dir repo_url auth disk sha
            (perform (on_disk (renamed t final_dir)) (h.rename t final_dir))
            (λ e'. rename_failed h mirror_dir checkout_dir repo_url auth final_dir e'.cause e')
            return s later (λ e' r. absurd cc)
            (λ _ _. (
              (Later-IsPreorder h commit_at mirror_dir checkout_dir).same _,
              λ _ _. disk.moves t sha s temp named e ∙ full,
            ))
      | inr (x, e) ↦
          let later = disk.not_renamed t sha s x temp named e in
          attempt-Brings h commit_at mirror_dir checkout_dir repo_url auth disk sha
            (perform (on_disk (renamed t final_dir)) (h.rename t final_dir))
            (λ e'. rename_failed h mirror_dir checkout_dir repo_url auth final_dir e'.cause e')
            return s later
            (λ e' r.
              rename_failed-Brings e'.cause e' (h.rename t final_dir s).1
                (Later-IsSound h commit_at mirror_dir checkout_dir later sound)
                (disk.renamed_before t sha s e' temp named r))
            (λ _ r. absurd cc)
    ]

    fill_dir-Brings :
        (t : Text) (s : h.State)
        → IsTemp h commit_at mirror_dir checkout_dir t
        → Sound h commit_at mirror_dir checkout_dir repo_url auth disk s
        → Brings h commit_at mirror_dir checkout_dir repo_url auth disk sha s
            (fill_dir h mirror_dir checkout_dir repo_url auth final_dir sha t s)
    unfolding fill_dir
    fill_dir-Brings t s temp sound =
        let clone =
          git_in h mirror_dir checkout_dir repo_url auth mirror_dir (clone_args mirror_dir t) in
        let check = git_in h mirror_dir checkout_dir repo_url auth t (checkout_args sha) in
        let rename =
          attempt (perform (on_disk (renamed t final_dir)) (h.rename t final_dir))
            (λ e. rename_failed h mirror_dir checkout_dir repo_url auth final_dir e.cause e)
            return in
        let same = (Later-IsPreorder h commit_at mirror_dir checkout_dir).same in
        let s1 = (clone s).state in
        let s2 = (check s1).state in
        let later1 =
          git_in-Leads h commit_at mirror_dir checkout_dir repo_url auth disk mirror_dir
            (clone_args mirror_dir t) s (disk.clones t temp s) in
        let later2 =
          git_in-Leads h commit_at mirror_dir checkout_dir repo_url auth disk t (checkout_args sha)
            s1 (disk.checks_out t sha temp named s1) in
        attempt-Brings h commit_at mirror_dir checkout_dir repo_url auth disk sha clone throw
          (λ _. check >> rename) s later1 (λ e r. (same s1, λ a q. absurd cc))
          (λ _ _.
            attempt-Brings h commit_at mirror_dir checkout_dir repo_url auth disk sha check throw
              (λ _. rename) s1 later2 (λ e r. (same s2, λ a q. absurd cc))
              (λ _ r.
                let (out, e, at) =
                  git_in-ok h commit_at mirror_dir checkout_dir repo_url auth disk t
                    (checkout_args sha) s1 r in
                rename-Brings t s2 temp
                  (kept h commit_at mirror_dir checkout_dir repo_url auth disk s1 s2 later2
                    (kept h commit_at mirror_dir checkout_dir repo_url auth disk s s1 later1 sound))
                  (ap (commit_at t) at ∙ disk.checked_out t sha out s1 temp named e)))

    or_remove-Brings :
        (t : Text) (m : M h.State (Unit {0})) (s : h.State)
        → IsTemp h commit_at mirror_dir checkout_dir t
        → Brings h commit_at mirror_dir checkout_dir repo_url auth disk sha s (m s)
        → Brings h commit_at mirror_dir checkout_dir repo_url auth disk sha s (or_remove h t m s)
    unfolding or_remove
    or_remove-Brings t m s temp (later, brought) =
        attempt-Brings h commit_at mirror_dir checkout_dir repo_url auth disk sha m
          (λ e. finally (throw e) (remove_dir h t)) return s later
          (λ e r. (disk.removes t temp (m s).state, λ a q. absurd cc))
          (λ a r.
            ((Later-IsPreorder h commit_at mirror_dir checkout_dir).same _, λ _ _. brought a r))

    pub build_dir-Brings :
        (s : h.State)
        → Sound h commit_at mirror_dir checkout_dir repo_url auth disk s
        → Brings h commit_at mirror_dir checkout_dir repo_url auth disk sha s
            (build_dir h mirror_dir checkout_dir repo_url auth final_dir sha s)
    unfolding build_dir
    build_dir-Brings s sound =
        let look = is_there h mirror_dir checkout_dir repo_url auth final_dir in
        let make =
          perform (on_disk (made_temp checkout_dir (codes "tmp-*")))
            (h.mkdir_temp checkout_dir (codes "tmp-*")) in
        let fill = λ (t : Text).
          or_remove h t (fill_dir h mirror_dir checkout_dir repo_url auth final_dir sha t) in
        let build : Bool → M h.State (Unit {0}) =
          λ there. if there then return tt else (make >>= fill) in
        let same = (Later-IsPreorder h commit_at mirror_dir checkout_dir).same in
        let s1 = (look s).state in
        let s2 = (make s1).state in
        let later =
          is_there-Leads h commit_at mirror_dir checkout_dir repo_url auth disk final_dir s in
        attempt-Brings h commit_at mirror_dir checkout_dir repo_url auth disk sha look throw build s
          later (λ e r. (same s1, λ a q. absurd cc))
          (λ there r. elim (Bool-cases there) [
            | inl t ↦ rw t (
              same s1,
              λ _ _.
                  is_there-Holds h commit_at mirror_dir checkout_dir repo_url auth disk sha s named
                    sound (ground (arith, r, t)),
            )
            | inr f ↦ rw f (
                attempt-Brings h commit_at mirror_dir checkout_dir repo_url auth disk sha make throw
                  fill s1 (disk.makes_temp s1) (λ e q. (same s2, λ a q'. absurd cc))
                  (λ t q.
                    let temp : IsTemp h commit_at mirror_dir checkout_dir t = (s1, q) in
                    or_remove-Brings t
                      (fill_dir h mirror_dir checkout_dir repo_url auth final_dir sha t) s2 temp
                      (fill_dir-Brings t s2 temp (
                        kept h commit_at mirror_dir checkout_dir repo_url auth disk s1 s2
                          (disk.makes_temp s1)
                          (kept h commit_at mirror_dir checkout_dir repo_url auth disk s s1 later
                            sound)))))
          ])
