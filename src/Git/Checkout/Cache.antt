-- ===== src/Git/Checkout/Cache.antt =====
-- The checkouts of one repository as a cache of commits (internal/git/repository.go).
pub mod Filling
pub mod Building
pub mod Providing
pub mod Serving
use cabure.Base.{
  ◌≡◌, ◌≢◌, refl, ◌∙◌, sym, Option, none, some, ◌⊎◌, inl, inr, ok, err, Error, exists, Bool, true,
  List, [], ◌++◌, length, Option-cases,
}
use cabure.Text.{Text, codes}
use cabure.Path.{join_path}
use cabure.Effects.Logic.{IsPreorder}
use cabure.Git.{is_sha1}
use cabure.Git.Host.{Host, GitAuth, run_git_command}
use cabure.Git.Follows.{IsMirrorRun}
use cabure.Git.Checkout.{clone_args, checkout_args}
use cabure.Git.Lock.{pause}

module _ (h : Host) (commit_at : Text → h.State → Option Text)
    (mirror_dir checkout_dir : Text) where
  -- The directory of a commit.
  abbrev pub slot : Text → Text
  slot sha = join_path checkout_dir sha

  -- The directories of commits keep what they hold, or get their own commit.
  abbrev pub Later : h.State → h.State → Type 0
  Later s t =
      (sha : Text)
      → is_sha1 sha ≡ true
      → (commit_at (slot sha) t ≡ commit_at (slot sha) s) ⊎ (commit_at (slot sha) t ≡ some sha)

  -- No directory holds another commit than the one that it is named for.
  abbrev pub IsSound : h.State → Type 0
  IsSound s =
      (sha : Text)
      → is_sha1 sha ≡ true
      → (commit_at (slot sha) s ≡ none) ⊎ (commit_at (slot sha) s ≡ some sha)

  -- The directory of the commit holds it.
  abbrev pub Holds : Text → h.State → Type 0
  Holds sha s = commit_at (slot sha) s ≡ some sha

  -- A directory that is not one of those.
  abbrev pub IsApart : Text → Type 0
  IsApart t = (sha : Text) → is_sha1 sha ≡ true → t ≢ slot sha

  -- A directory that `os.MkdirTemp` makes for a checkout.
  abbrev pub IsTemp : Text → Type 0
  IsTemp t = (s : h.State) × ((h.mkdir_temp checkout_dir (codes "tmp-*") s).0 ≡ ok t)

  -- What git, the kernel and package os promise about the calls that `Checkout` makes, for a mirror and
  -- checkouts that lie in different directories. `commit_at` tells the name that git was last told to
  -- check out in a directory, and none where there is no directory. A call changes no checkout but its
  -- own; another process may meanwhile add one.
  pub record IsCacheDisk (auth : Option GitAuth) : Type 0 where
    -- Lock files, sleep and `os.Stat` change no checkout.
    pub opens : (stem : Text) (s : h.State) → Later s (h.open_file (stem ++ codes ".lockfile") s).1
    pub tries : (file : h.File) (s : h.State) → Later s (h.try_lock file s).1
    pub unlocks : (file : h.File) (s : h.State) → Later s (h.unlock file s)
    pub closes : (file : h.File) (s : h.State) → Later s (h.close file s)
    pub sleeps : (s : h.State) → Later s (h.sleep pause s)
    pub stats : (p : Text) (s : h.State) → Later s (h.stat p s).1
    -- Git, run on the mirror, changes the mirror only, and removing the mirror does.
    pub mirror_runs :
        (repo_url revision dir : Text) (args : List Text)
        → IsMirrorRun mirror_dir repo_url revision dir args
        → (s : h.State) → Later s (run_git_command h dir auth args s).1
    pub mirror_removal : (s : h.State) → Later s (h.remove_all mirror_dir s).1
    -- `os.MkdirTemp` makes a new directory whose name starts with `tmp-`, as no commit's does.
    pub makes_temp : (s : h.State) → Later s (h.mkdir_temp checkout_dir (codes "tmp-*") s).1
    pub temp_apart : (t : Text) → IsTemp t → IsApart t
    -- Git writes to that directory when it clones into it or checks out a commit in it.
    pub clones :
        (t : Text)
        → IsTemp t
        → (s : h.State) → Later s (run_git_command h mirror_dir auth (clone_args mirror_dir t) s).1
    pub checks_out :
        (t sha : Text)
        → IsTemp t
        → is_sha1 sha ≡ true
        → (s : h.State) → Later s (run_git_command h t auth (checkout_args sha) s).1
    pub checked_out :
        (t sha out : Text) (s : h.State)
        → IsTemp t
        → is_sha1 sha ≡ true
        → (run_git_command h t auth (checkout_args sha) s).0 ≡ ok out
        → commit_at t (run_git_command h t auth (checkout_args sha) s).1 ≡ some sha
    pub removes : (t : Text) → IsTemp t → (s : h.State) → Later s (h.remove_all t s).1
    -- `os.Rename` moves that directory to the name of a commit, or changes nothing; it fails so if
    -- there is something already.
    pub moves :
        (t sha : Text) (s : h.State)
        → IsTemp t
        → is_sha1 sha ≡ true
        → (h.rename t (slot sha) s).0 ≡ ok tt
        → commit_at (slot sha) (h.rename t (slot sha) s).1 ≡ commit_at t s
    pub spares :
        (t sha other : Text) (s : h.State)
        → IsTemp t
        → is_sha1 sha ≡ true
        → is_sha1 other ≡ true
        → slot other ≢ slot sha
        → (commit_at (slot other) (h.rename t (slot sha) s).1 ≡ commit_at (slot other) s)
          ⊎ (commit_at (slot other) (h.rename t (slot sha) s).1 ≡ some other)
    pub not_renamed :
        (t sha : Text) (s : h.State) (e : Error)
        → IsTemp t
        → is_sha1 sha ≡ true
        → (h.rename t (slot sha) s).0 ≡ err e
        → Later s (h.rename t (slot sha) s).1
    pub renamed_before :
        (t sha : Text) (s : h.State) (e : Error)
        → IsTemp t
        → is_sha1 sha ≡ true
        → (h.rename t (slot sha) s).0 ≡ err e
        → e.cause ≡ exists
        → commit_at (slot sha) (h.rename t (slot sha) s).1 ≢ none
    -- What is at the name of a commit is a directory.
    pub directories :
        (sha : Text) (s : h.State) (is_dir : Bool)
        → is_sha1 sha ≡ true
        → (h.stat (slot sha) s).0 ≡ ok is_dir
        → commit_at (slot sha) (h.stat (slot sha) s).1 ≢ none

  pub Later-IsPreorder : IsPreorder Later
  Later-IsPreorder = record {
    same = λ s sha k. inl refl;
    after = λ a b c ab bc sha k. elim (bc sha k) [
      | inr e ↦ inr e
      | inl e ↦ elim (ab sha k) [ inl e' ↦ inl (e ∙ e') | inr e' ↦ inr (e ∙ e') ]
    ];
  }

  pub Later-IsSound : {s t : h.State} → Later s t → IsSound s → IsSound t
  Later-IsSound later sound sha k = elim (later sha k) [
    | inr e ↦ inr e
    | inl e ↦ elim (sound sha k) [ inl e' ↦ inl (e ∙ e') | inr e' ↦ inr (e ∙ e') ]
  ]

  pub Later-Holds :
      {s t : h.State} (sha : Text) → is_sha1 sha ≡ true → Later s t → Holds sha s → Holds sha t
  Later-Holds sha k later held = elim (later sha k) [ inl e ↦ e ∙ held | inr e ↦ e ]

  -- What is there is right.
  pub there-Holds :
      (sha : Text) (s : h.State)
      → is_sha1 sha ≡ true
      → IsSound s
      → commit_at (slot sha) s ≢ none
      → Holds sha s
  there-Holds sha s k sound there = elim (sound sha k) [ inl e ↦ absurd (there e) | inr e ↦ e ]
