-- ===== src/Tests/CacheRuns.antt =====
-- Checkouts on the small machine, and the theorems on them at it.
use cabure.Base.{
  ◌++◌, ◌||◌, ◌&&◌, Bool, false, ℕ, ◌≤◌, ◌≡◌, refl, sym, ap, ◌∙◌, true, Bool-cases, Option, none,
  some, List, [], ◌∷◌, ◌==◌, list_eq, nat_eq, ==_iff, ==_refl, ◌⊎◌, inl, inr, All, length,
  length-append, arith, Option-cases, ok_injective, subst,
}
use cabure.Text.{Text, codes, trim_space, split, join, has_prefix}
use cabure.Path.{join_path, clean, is_abs}
use cabure.Path.Last.{join_path-EndsWith, elements-name}
use cabure.Path.Machine.{work}
use cabure.Git.{is_sha1, is_hex_digit}
use cabure.Git.Host.{first_existing_binary, git_binary_path, git_command, run_git_command}
use cabure.Git.Follows.{IsMirrorRun, inits, removes_remote, adds_remote, fetches, verifies, lists}
use cabure.Api.Types.{Credentials}
use cabure.Git.Host.{cache_root}
use cabure.Git.Checkout.{clone_args, checkout_args, serve, checkout}
use cabure.Git.Checkout.Keys.{WritesNothing, KeysGone}
use cabure.Git.Checkout.Cleanup.{checkout-removes_keys}
use cabure.Git.Checkout.Cache.{Later, IsSound, IsCacheDisk, IsApart, IsTemp}
use cabure.Git.Checkout.Cache.Filling.{is_sha1-IsName, length_of_sha1}
use cabure.Git.Checkout.Cache.Serving.{serve-IsSound, serve-Holds}
use cabure.Tests.HostRuns.{Machine, set, clear, commit_name, demo_host, start, git_run}

abbrev demo_commit : Text → Machine → Option Text
demo_commit p s = s.disk p

-- A path too short to end with a commit name.
short-IsApart :
    (mirror_dir t : Text) → length t ≤ 39 → IsApart demo_host demo_commit mirror_dir (codes "/c") t
short-IsApart mirror_dir t short sha k e =
    let (before, ends) = join_path-EndsWith (codes "/c") sha (is_sha1-IsName sha k) in
    absurd (omega (arith, ap length (e ∙ ends), length-append before sha, length_of_sha1 sha k))

-- Setting an entry for another directory.
set-Later :
    (mirror_dir p : Text) (commit : Option Text) (s : Machine)
    → IsApart demo_host demo_commit mirror_dir (codes "/c") p
    → Later demo_host demo_commit mirror_dir
        (codes "/c")
        s
        (record s { disk = set p commit s.disk })
set-Later mirror_dir p commit s apart sha k = elim (Bool-cases (join_path (codes "/c") sha == p)) [
  | inl t ↦ absurd (apart sha k (sym ((==_iff (join_path (codes "/c") sha) p).0 t)))
  | inr f ↦ inl (rw f refl)
]

-- The directory of a commit.
slot_at : (sha : Text) → is_sha1 sha ≡ true → join_path (codes "/c") sha ≡ codes "/c/" ++ sha
unfolding join_path clean is_abs split list_eq nat_eq join work
slot_at sha k = rw (elements-name (codes "/c") sha (is_sha1-IsName sha k)) refl

-- No directory of a commit lies in this one, or is it.
abbrev IsClearOf : Text → Type 0
IsClearOf p =
    (sha : Text)
    → is_sha1 sha ≡ true
    → ((join_path (codes "/c") sha == p)
        || has_prefix (join_path (codes "/c") sha) (p ++ codes "/"))
      ≡ false

clear-Later :
    (p : Text) (s : Machine)
    → IsClearOf p
    → Later demo_host demo_commit (codes "/m") (codes "/c") s (record s { disk = clear p s.disk })
clear-Later p s clear_of sha k = inl (rw (clear_of sha k) refl)

-- Commits have no `t` in their names.
t_is_no_digit : (c : ℕ) → is_hex_digit c ≡ true → (c == b't') ≡ false
t_is_no_digit c h = ground (arith, h)

no_temp_prefix :
    (c : ℕ) (sha : Text)
    → is_hex_digit c ≡ true
    → has_prefix (codes "/c/" ++ (c ∷ sha)) (codes "/c/tmp-1/") ≡ false
unfolding has_prefix nat_eq
no_temp_prefix c sha h = ap (λ (b : Bool). b && has_prefix sha (codes "mp-1/")) (t_is_no_digit c h)

first_digit : (c : ℕ) (sha : Text) → is_sha1 (c ∷ sha) ≡ true → is_hex_digit c ≡ true
unfolding is_sha1
first_digit c sha k = ground (arith, k)

no_commit_below_temp : IsClearOf (codes "/c/tmp-1")
unfolding is_sha1
no_commit_below_temp [] k = absurd (ground (arith, k))
no_commit_below_temp (c ∷ sha) k =
    elim (Bool-cases (join_path (codes "/c") (c ∷ sha) == codes "/c/tmp-1")) [
      | inl t ↦ absurd (
          short-IsApart (codes "/m") (codes "/c/tmp-1") (omega arith) (c ∷ sha) k
            (sym ((==_iff (join_path (codes "/c") (c ∷ sha)) (codes "/c/tmp-1")).0 t)))
      | inr f ↦ rw f (
          ap (λ p. has_prefix p (codes "/c/tmp-1/")) (slot_at (c ∷ sha) k)
          ∙ no_temp_prefix c sha (first_digit c sha k))
    ]

temp_length : (t : Text) → IsTemp demo_host demo_commit (codes "/m") (codes "/c") t → length t ≤ 39
temp_length t temp = rw⁻¹ (ok_injective temp.1) (omega arith)

finds_binary :
    (name : Text) (candidates : List Text) (s : Machine)
    → (first_existing_binary demo_host name candidates s).1 ≡ s
unfolding first_existing_binary
finds_binary name [] s = refl
finds_binary name (candidate ∷ candidates) s = elim (Option-cases (s.disk candidate)) [
  | inl e ↦ rw (e, first_existing_binary) (finds_binary name candidates s)
  | inr (commit, e) ↦ rw (e, first_existing_binary) refl
]

-- What a run of git leaves.
run_git-state :
    (dir : Text) (args : List Text) (s : Machine)
    → (run_git_command demo_host dir none args s).1
      ≡ (git_run ((git_binary_path demo_host s).0 ∷ args) dir s).1
unfolding run_git_command git_command git_binary_path list_eq
run_git-state dir args s =
    ap (λ (t : Machine). (git_run ((git_binary_path demo_host s).0 ∷ args) dir t).1)
      (finds_binary (codes "git") (codes "/usr/bin/git" ∷ codes "/bin/git" ∷ []) s)

mirror_run-state :
    (repo_url revision dir : Text) (args : List Text) (program : Text)
    → IsMirrorRun (codes "/m") repo_url revision dir args
    → (s : Machine) → (git_run (program ∷ args) dir s).1 ≡ s
unfolding list_eq nat_eq
mirror_run-state repo_url revision dir args program inits s = refl
mirror_run-state repo_url revision dir args program removes_remote s = refl
mirror_run-state repo_url revision dir args program adds_remote s = refl
mirror_run-state repo_url revision dir args program fetches s = refl
mirror_run-state repo_url revision dir args program verifies s = refl
mirror_run-state repo_url revision dir args program lists s = refl

Later-of_same : (s t : Machine) → t ≡ s → Later demo_host demo_commit (codes "/m") (codes "/c") s t
Later-of_same s t e sha k = inl (ap (demo_commit (join_path (codes "/c") sha)) e)

demo_disk : IsCacheDisk demo_host demo_commit (codes "/m") (codes "/c") none
unfolding list_eq nat_eq has_prefix
demo_disk = record {
  opens = λ path s sha k. inl refl;
  tries = λ file s sha k. inl refl;
  unlocks = λ file s sha k. inl refl;
  closes = λ file s sha k. inl refl;
  sleeps = λ s sha k. inl refl;
  stats = λ p s sha k. inl refl;
  mirror_runs = λ repo_url revision dir args run s. Later-of_same s _ (
      run_git-state dir args s
      ∙ mirror_run-state repo_url revision dir args (git_binary_path demo_host s).0 run s);
  mirror_removal = λ s. clear-Later (codes "/m") s (λ sha k. rw (slot_at sha k) refl);
  makes_temp = λ s sha k. inl refl;
  temp_apart = λ t temp. short-IsApart (codes "/m") t (temp_length t temp);
  clones = λ t temp s. Later-of_same s _ (run_git-state (codes "/m") (clone_args (codes "/m") t) s);
  checks_out = λ t sha temp named s.
      subst (Later demo_host demo_commit (codes "/m") (codes "/c") s)
        (sym (run_git-state t (checkout_args sha) s))
        (set-Later (codes "/m") t (some sha) s (short-IsApart (codes "/m") t (temp_length t temp)));
  checked_out = λ t sha out s temp named r.
      ap (demo_commit t) (run_git-state t (checkout_args sha) s) ∙ (rw (==_refl t) refl);
  removes = λ t temp s.
      subst
        (λ p. Later demo_host demo_commit (codes "/m") (codes "/c") s (demo_host.remove_all p s).1)
        (ok_injective temp.1) (clear-Later (codes "/c/tmp-1") s no_commit_below_temp);
  moves = λ t sha s temp named e. rw (==_refl (join_path (codes "/c") sha)) refl;
  spares = λ t sha other s temp named k apart.
      elim (set-Later (codes "/m") t none s (short-IsApart (codes "/m") t (temp_length t temp))
        other k) [
          | inl kept ↦ inl (
              ground (
                arith,
                kept,
                apart,
                ==_iff (join_path (codes "/c") other) (join_path (codes "/c") sha),
              ))
          | inr got ↦ inr (
              ground (
                arith,
                got,
                apart,
                ==_iff (join_path (codes "/c") other) (join_path (codes "/c") sha),
              ))
        ];
  not_renamed = λ t sha s e temp named r. cc;
  renamed_before = λ t sha s e temp named r c. cc;
  directories = λ sha s is_dir k r. ground arith;
}

empty-IsSound : IsSound demo_host demo_commit (codes "/m") (codes "/c") start
empty-IsSound sha k = inl refl

serve-IsSound_example :
    IsSound demo_host demo_commit
      (codes "/m")
      (codes "/c")
      (serve demo_host
        (codes "/m")
        (codes "/c")
        (codes "https://git.example/shop")
        none
        (codes "main")
        start).state
    × Later demo_host demo_commit
        (codes "/m")
        (codes "/c")
        start
        (serve demo_host
          (codes "/m")
          (codes "/c")
          (codes "https://git.example/shop")
          none
          (codes "main")
          start).state
serve-IsSound_example =
    serve-IsSound demo_host demo_commit (codes "/m") (codes "/c") (codes "https://git.example/shop")
      none (codes "main") start demo_disk empty-IsSound

serve-Holds_example :
    (is_sha1 commit_name ≡ true)
    × (codes "/c/0123456789abcdef0123456789abcdef01234567" ≡ join_path (codes "/c") commit_name)
    × (demo_commit
          (codes "/c/0123456789abcdef0123456789abcdef01234567")
          (serve demo_host
            (codes "/m")
            (codes "/c")
            (codes "https://git.example/shop")
            none
            (codes "main")
            start).state
        ≡ some commit_name)
unfolding serve list_eq nat_eq trim_space run_git_command
serve-Holds_example =
    serve-Holds demo_host demo_commit (codes "/m") (codes "/c") (codes "https://git.example/shop")
      none (codes "main") start demo_disk empty-IsSound refl

abbrev ssh_creds : Credentials
ssh_creds = record {
  username = [];
  password = [];
  token = [];
  ssh_private_key = codes "KEY";
  known_hosts = codes "git.example";
}

checkout-removes_keys_example :
    All WritesNothing
      (checkout demo_host
        (codes "/cache")
        (codes "ssh://git.example/shop")
        []
        (some ssh_creds)
        start).calls
    ⊎ KeysGone demo_host
        (cache_root demo_host (codes "/cache") start)
        (checkout demo_host
          (codes "/cache")
          (codes "ssh://git.example/shop")
          []
          (some ssh_creds)
          start).calls
checkout-removes_keys_example =
    checkout-removes_keys demo_host (codes "/cache") (codes "ssh://git.example/shop") []
      (some ssh_creds) start
