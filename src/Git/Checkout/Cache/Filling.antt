-- ===== src/Git/Checkout/Cache/Filling.antt =====
-- What the calls of `Checkout` leave in the cache (internal/git/repository.go).
use cabure.Base.{
  ◌≡◌, ◌≢◌, refl, ap, true, false, Bool-cases, Option, inl, inr, ok, err, Error, Result-cases, List,
  [], ◌∷◌, ◌==◌, list_eq, nat_eq, ==_iff, length, all, arith,
}
use cabure.Text.{Text}
use cabure.Text.Pieces.{Lacks}
use cabure.Path.{join_path, dot, dot_dot}
use cabure.Path.Machine.{IsName}
use cabure.Effects.{M, Outcome, attempt}
use cabure.Git.{is_hex_digit, is_sha1, run_git_in}
use cabure.Git.Host.{Host, GitAuth, run_git_command}
use cabure.Git.Checkout.{git_in, is_there}
use cabure.Git.Checkout.Cache.{
  Later, IsSound, Holds, IsCacheDisk, Later-IsPreorder, Later-IsSound, there-Holds,
}

hex-Lacks : (s : Text) → all is_hex_digit s ≡ true → Lacks b'/' s
hex-Lacks [] e = tt
hex-Lacks (c ∷ s) e = (ground (arith, e), hex-Lacks s (ground (arith, e)))

other_length : (x y : Text) → length x ≢ length y → (x == y) ≡ false
other_length x y d = elim (Bool-cases (x == y)) [
  | inl t ↦ absurd (d (ap length ((==_iff x y).0 t)))
  | inr f ↦ f
]

pub length_of_sha1 : (sha : Text) → is_sha1 sha ≡ true → length sha ≡ 40
unfolding is_sha1
length_of_sha1 sha k = ground (arith, k)

-- A commit name is a proper name of a file.
pub is_sha1-IsName : (sha : Text) → is_sha1 sha ≡ true → IsName sha
unfolding is_sha1
is_sha1-IsName sha k = record {
  full = other_length sha [] (λ e. omega (arith, e, length_of_sha1 sha k));
  no_dot = other_length sha dot (λ e. omega (arith, e, length_of_sha1 sha k));
  no_dot_dot = other_length sha dot_dot (λ e. omega (arith, e, length_of_sha1 sha k));
  no_slash = hex-Lacks sha (ground (arith, k));
}

module _ (h : Host) (commit_at : Text → h.State → Option Text)
    (mirror_dir checkout_dir repo_url : Text) (auth : Option GitAuth)
    (disk : IsCacheDisk h commit_at mirror_dir checkout_dir auth) where
  abbrev pub Sound : h.State → Type 0
  Sound = IsSound h commit_at mirror_dir checkout_dir

  pub kept : (s t : h.State) → Later h commit_at mirror_dir checkout_dir s t → Sound s → Sound t
  kept s t later sound = Later-IsSound h commit_at mirror_dir checkout_dir later sound

  -- What code leads to from a state: no checkout is spoiled, and a value that it returns is right.
  abbrev pub Leaves : {A : Type 0} → (A → h.State → Type 0) → h.State → Outcome h.State A → Type 0
  Leaves {A} Q s o =
      Later h commit_at mirror_dir checkout_dir s o.state
      × ((a : A) → o.result ≡ ok a → Q a o.state)

  pub attempt-Leaves :
      {A B : Type 0} (Q : B → h.State → Type 0) (m : M h.State A) (handler : Error → M h.State B)
      (rest : A → M h.State B) (s : h.State)
      → Later h commit_at mirror_dir checkout_dir s (m s).state
      → ((e : Error) → (m s).result ≡ err e → Leaves Q (m s).state (handler e (m s).state))
      → ((a : A) → (m s).result ≡ ok a → Leaves Q (m s).state (rest a (m s).state))
      → Leaves Q s (attempt m handler rest s)
  attempt-Leaves Q m handler rest s later hh hr =
      let go = (Later-IsPreorder h commit_at mirror_dir checkout_dir).after s (m s).state in
      elim (Result-cases (m s).result) [
        | inl (a, e) ↦ let (on, right) = hr a e in rw (e, attempt) (go _ later on, right)
        | inr (x, e) ↦ let (on, right) = hh x e in rw (e, attempt) (go _ later on, right)
      ]

  -- If a value is returned then the commit is there.
  abbrev pub Brings : {A : Type 0} → Text → h.State → Outcome h.State A → Type 0
  Brings sha = Leaves (λ _ t. Holds h commit_at mirror_dir checkout_dir sha t)

  pub attempt-Brings :
      {A B : Type 0} (sha : Text) (m : M h.State A) (handler : Error → M h.State B)
      (rest : A → M h.State B) (s : h.State)
      → Later h commit_at mirror_dir checkout_dir s (m s).state
      → ((e : Error) → (m s).result ≡ err e → Brings sha (m s).state (handler e (m s).state))
      → ((a : A) → (m s).result ≡ ok a → Brings sha (m s).state (rest a (m s).state))
      → Brings sha s (attempt m handler rest s)
  attempt-Brings sha m handler rest s later hh hr =
      attempt-Leaves (λ _ t. Holds h commit_at mirror_dir checkout_dir sha t) m handler rest s later
        hh hr

  pub git_in-Leads :
      (dir : Text) (args : List Text) (s : h.State)
      → Later h commit_at mirror_dir checkout_dir s (run_git_command h dir auth args s).1
      → Later h commit_at mirror_dir checkout_dir s
          (git_in h mirror_dir checkout_dir repo_url auth dir args s).state
  unfolding run_git_in
  git_in-Leads dir args s later = elim (Result-cases (run_git_command h dir auth args s).0) [
    | inl (out, e) ↦ rw e later
    | inr (x, e) ↦ rw e later
  ]

  pub git_in-ok :
      (dir : Text) (args : List Text) (s : h.State)
      → (git_in h mirror_dir checkout_dir repo_url auth dir args s).result ≡ ok tt
      → (out : Text) × ((run_git_command h dir auth args s).0 ≡ ok out)
        × ((git_in h mirror_dir checkout_dir repo_url auth dir args s).state
            ≡ (run_git_command h dir auth args s).1)
  unfolding run_git_in
  git_in-ok dir args s returned = elim (Result-cases (run_git_command h dir auth args s).0) [
    | inl (out, e) ↦ (out, e, rw e refl)
    | inr (x, e) ↦ absurd (ground arith)
  ]

  pub is_there-Leads :
      (p : Text) (s : h.State)
      → Later h commit_at mirror_dir checkout_dir s
          (is_there h mirror_dir checkout_dir repo_url auth p s).state
  unfolding is_there
  is_there-Leads p s = elim (Result-cases (h.stat p s).0) [
    | inl (b, e) ↦ rw e (disk.stats p s)
    | inr (x, e) ↦ rw e (disk.stats p s)
  ]

  pub is_there-Holds :
      (sha : Text) (s : h.State)
      → is_sha1 sha ≡ true
      → Sound s
      → (is_there h mirror_dir checkout_dir repo_url auth (join_path checkout_dir sha) s).result
        ≡ ok true
      → Holds h commit_at mirror_dir checkout_dir sha
          (is_there h mirror_dir checkout_dir repo_url auth (join_path checkout_dir sha) s).state
  unfolding is_there
  is_there-Holds sha s k sound returned =
      elim (Result-cases (h.stat (join_path checkout_dir sha) s).0) [
        | inl (b, e) ↦ rw e (
            there-Holds h commit_at mirror_dir checkout_dir sha _ k
              (Later-IsSound h commit_at mirror_dir checkout_dir
                (disk.stats (join_path checkout_dir sha) s) sound)
              (disk.directories sha s b k e))
        | inr (x, e) ↦ absurd (ground arith)
      ]
