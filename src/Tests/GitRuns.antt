-- ===== src/Tests/GitRuns.antt =====
-- The theorems on the mirror, where the first fetch finds a corrupt configuration, on revisions and
-- on the flags.
use cabure.Base.{
  ℕ, ◌+◌, ◌≤◌, ◌≡◌, refl, true, [], ok, err, errorf, ◌==◌, nat_eq, list_eq, if◌then◌else◌,
}
use cabure.Text.{codes, trim_space}
use cabure.Git.{GitWorld, ensure_mirror, is_config_corruption_error}
use cabure.Git.Mirror.{Fetched, ensure_mirror-Fetched}
use cabure.Git.{is_sha1, resolve_revision}
use cabure.Git.Revision.{resolve_revision_lem}
use cabure.Git.Retry.{total, git_weight, ensure_mirror-bounded}

-- The state is the number of runs so far.
abbrev git_world : GitWorld
git_world = record {
  State = ℕ;
  Auth = Unit {0};
  is_missing = λ p s. (true, s);
  run_git = λ dir auth args s.
      (if s == 3 then err (errorf (codes "fatal: bad config line 1")) else ok [], s + 1);
  remove_all = λ p s. (ok tt, s);
}

ensure_mirror-Fetched_example :
    Fetched git_world
      (codes "/m.git")
      (codes "https://git.example/shop")
      tt
      (ensure_mirror git_world (codes "/m.git") (codes "https://git.example/shop") tt 0).calls
unfolding ensure_mirror nat_eq list_eq is_config_corruption_error
ensure_mirror-Fetched_example =
    ensure_mirror-Fetched git_world (codes "/m.git") (codes "https://git.example/shop") tt 0 refl

ensure_mirror-bounded_example :
    (total
        (git_weight 1 0)
        (ensure_mirror git_world (codes "/m.git") (codes "https://git.example/shop") tt 0).calls
      ≤ 8)
    × (total
          (git_weight 0 1)
          (ensure_mirror git_world (codes "/m.git") (codes "https://git.example/shop") tt 0).calls
        ≤ 1)
ensure_mirror-bounded_example =
    ensure_mirror-bounded git_world (codes "/m.git") (codes "https://git.example/shop") tt 0

-- A world where git prints one remote branch.
abbrev listing_world : GitWorld
listing_world = record git_world {
  run_git = λ dir auth args s.
      (ok (codes "0123456789abcdef0123456789abcdef01234567\trefs/heads/main\n"), s + 1);
}

resolve_revision_lem_example : is_sha1 (codes "0123456789abcdef0123456789abcdef01234567") ≡ true
unfolding resolve_revision list_eq nat_eq trim_space
resolve_revision_lem_example =
    resolve_revision_lem listing_world (codes "/m.git") (codes "main") tt 0 refl
