-- ===== src/Git.antt =====
-- internal/git/repository.go: `ensureMirror`, with its one retry, and `resolveRevision`.
pub mod Mirror
pub mod Retry
pub mod Revision
pub mod Auth
pub mod Host
pub mod Follows
pub mod Lock
pub mod Checkout
use cabure.Base.{
  ℕ, length, all, leb, ◌++◌, ◌==◌, list_eq, nat_eq, errorf, wrap, Bool, true, false, not, ◌&&◌,
  ◌||◌, Option, none, some, List, [], ◌∷◌, if◌then◌else◌, Result, ok, err, Error,
}
use cabure.Text.{Text, codes, contains_text, to_lower, trim_space, is_space}
use cabure.Text.Format.{quoted}
use cabure.Path.{join_path}
use cabure.Effects.{
  M, Call, looked_for, removed_all, ran_git, return, throw, perform, attempt, ◌>>=◌, ◌>>◌,
}

-- What a checkout calls of git and of the file system. `Auth` stands for the environment and the
-- arguments that git runs with.
pub record GitWorld : Type 1 where
  pub State : Type 0
  pub Auth : Type 0
  -- `os.IsNotExist` of the error of `os.Stat`
  pub is_missing : Text → State → Bool × State
  -- `runGitCommand`, in a directory (none if it is empty) and with arguments
  pub run_git : Text → Auth → List Text → State → Result Text × State
  -- `os.RemoveAll`
  pub remove_all : Text → State → Result (Unit {0}) × State

-- `isConfigCorruptionError`
unfoldable pub is_config_corruption_error : Error → Bool
unfolding contains_text to_lower
is_config_corruption_error e =
    let text = to_lower e.message in
    contains_text text (codes "bad config line")
    || contains_text text (codes "unable to read config file")
    || contains_text text (codes "could not read config file")
    || contains_text text (codes "error reading config file")

abbrev pub init_args : Text → List Text
init_args mirror_dir = codes "init" ∷ codes "--bare" ∷ mirror_dir ∷ []

abbrev pub remove_args : List Text
remove_args = codes "remote" ∷ codes "remove" ∷ codes "origin" ∷ []

abbrev pub add_args : Text → List Text
add_args repo_url = codes "remote" ∷ codes "add" ∷ codes "origin" ∷ repo_url ∷ []

abbrev pub fetch_args : List Text
fetch_args =
    codes "fetch"
    ∷ codes "--prune"
    ∷ codes "--tags"
    ∷ codes "--force"
    ∷ codes "--prune-tags"
    ∷ codes "origin"
    ∷ codes "+refs/heads/*:refs/remotes/origin/*"
    ∷ codes "+refs/tags/*:refs/tags/*"
    ∷ []

-- `[0-9a-fA-F]`
abbrev pub is_hex_digit : ℕ → Bool
is_hex_digit c =
    (leb b'0' c && leb c b'9') || (leb b'a' c && leb c b'f') || (leb b'A' c && leb c b'F')

-- `sha1Re.MatchString`
unfoldable pub is_sha1 : Text → Bool
is_sha1 text = length text == 40 && all is_hex_digit text

-- What stands in front of the first space.
before_space : Text → Text
before_space [] = []
before_space (c ∷ s) = let rest = before_space s in if is_space c then [] else c ∷ rest

-- `strings.Fields(strings.TrimSpace(out))[0]`, empty if there is no field.
unfoldable pub first_field : Text → Text
unfolding before_space trim_space
first_field out = before_space (trim_space out)

-- `resolveRevision`
unfoldable pub resolve_revision : (g : GitWorld) → Text → Text → g.Auth → M g.State Text
unfolding is_sha1 first_field to_lower
resolve_revision g mirror_dir revision auth =
    let verify_args = codes "rev-parse" ∷ codes "--verify" ∷ (revision ++ codes "^{commit}") ∷ [] in
    let list_args = codes "ls-remote" ∷ codes "--refs" ∷ codes "origin" ∷ revision ∷ [] in
    if is_sha1 revision
    then attempt (perform (ran_git mirror_dir verify_args) (g.run_git mirror_dir auth verify_args))
        (λ e. throw (wrap (codes "verify commit " ++ (revision ++ codes ": ")) e))
        (λ _. return (to_lower revision))
    else (perform (ran_git mirror_dir list_args) (g.run_git mirror_dir auth list_args) >>= λ out.
        if first_field out == []
        then throw (errorf (codes "revision " ++ (quoted revision ++ codes " not found")))
        else if not (is_sha1 (first_field out))
        then throw (errorf (codes "unexpected revision response for " ++ quoted revision))
        else return (first_field out))

module _ (g : GitWorld) (mirror_dir repo_url : Text) (auth : g.Auth) where
  abbrev pub Run : Type 0 → Type 0
  Run = M g.State

  -- `runGit`
  unfoldable pub run_git_in : Text → List Text → Run (Unit {0})
  run_git_in dir args = perform (ran_git dir args) (g.run_git dir auth args) >>= λ _. return tt

  -- `if !recovered && isConfigCorruptionError(err)`: remove the mirror, and try again. What is tried
  -- again is none once it is `recovered`.
  unfoldable pub recover :
      Option (Run (Unit {0})) → (Error → Run (Unit {0})) → Error → Run (Unit {0})
  recover none otherwise e = otherwise e
  recover (some again) otherwise e =
      if is_config_corruption_error e
      then (perform (removed_all mirror_dir) (g.remove_all mirror_dir) >>= λ _. again)
      else otherwise e

  -- The last step of `ensureMirrorAttempt`: fetch.
  unfoldable pub fetch_origin : Option (Run (Unit {0})) → Run (Unit {0})
  unfolding run_git_in recover
  fetch_origin again = attempt (run_git_in mirror_dir fetch_args) (recover again throw) return

  -- The steps on the remote.
  unfoldable pub set_origin : Option (Run (Unit {0})) → Run (Unit {0})
  unfolding run_git_in recover fetch_origin contains_text
  set_origin again =
      attempt (run_git_in mirror_dir (add_args repo_url))
        (recover again (λ e.
          if contains_text e.message (codes "already exists") then fetch_origin again else throw e))
        (λ _. fetch_origin again)

  -- `ensureMirrorAttempt`
  unfoldable pub ensure_mirror_attempt : Option (Run (Unit {0})) → Run (Unit {0})
  unfolding run_git_in recover set_origin join_path
  ensure_mirror_attempt again = do
    let head = join_path mirror_dir (codes "HEAD")
    missing ← perform (looked_for head) (λ s. (ok (g.is_missing head s).0, (g.is_missing head s).1))
    attempt (if missing then run_git_in [] (init_args mirror_dir) else return tt)
        (recover again throw)
        (λ _.
          attempt (run_git_in mirror_dir remove_args) (λ _. set_origin again)
            (λ _. set_origin again))

  -- `ensureMirror`
  unfoldable pub ensure_mirror : Run (Unit {0})
  unfolding ensure_mirror_attempt
  ensure_mirror = ensure_mirror_attempt (some (ensure_mirror_attempt none))
