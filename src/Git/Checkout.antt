-- ===== src/Git/Checkout.antt =====
-- `Checkout` and `prepareAuth` (internal/git/repository.go): a cache of mirrors, and of one checkout
-- for each commit.
pub mod Keys
pub mod Cleanup
pub mod Cache
use cabure.Base.{
  ℕ, ◌*◌, Bool, true, false, ◌||◌, Option, none, some, [], ◌∷◌, ◌++◌, ◌==◌, list_eq, nat_eq,
  if◌then◌else◌, ok, err, Error, Cause, exists, errorf, List, Result,
}
use cabure.Text.{Text, codes}
use cabure.Text.Format.{quoted}
use cabure.Path.{join_path}
use cabure.Url.{is_ssh_repository_url}
use cabure.Api.Types.{Credentials}
use cabure.Effects.{
  M, Outcome, on_disk, made_dir, made_temp, wrote_file, renamed, looked_for, removed_all, return,
  throw, perform, finally, attempt, ◌>>=◌, ◌>>◌,
}
use cabure.Git.{ensure_mirror, resolve_revision, run_git_in}
use cabure.Git.Auth.{auth_header}
use cabure.Git.Host.{Host, GitAuth, auth_cleanup, cache_root, repo_hash, ssh_binary_path, git_world}
use cabure.Git.Lock.{second, with_lock}

-- The modes 0o755 of directories need no mention. `0o600`
abbrev pub owner_only : ℕ
owner_only = 6 * 64

-- `shellQuote`
abbrev pub shell_quote : Text → Text
shell_quote value = quoted value

-- `GIT_SSH_COMMAND` of `prepareAuth`
unfoldable pub ssh_command : Text → Text → Text → Text
unfolding quoted
ssh_command ssh private_key_path known_hosts_path =
    codes "GIT_SSH_COMMAND="
    ++ (ssh
        ++ (codes " -F /dev/null -i "
            ++ (shell_quote private_key_path
                ++ (codes " -o IdentitiesOnly=yes -o BatchMode=yes -o StrictHostKeyChecking=yes"
                    ++ (codes " -o UserKnownHostsFile=" ++ shell_quote known_hosts_path)))))

abbrev pub clone_args : Text → Text → List Text
clone_args mirror_dir temp_dir = codes "clone" ∷ codes "--no-checkout" ∷ mirror_dir ∷ temp_dir ∷ []

abbrev pub checkout_args : Text → List Text
checkout_args sha = codes "checkout" ∷ codes "--force" ∷ codes "--detach" ∷ sha ∷ []

module _ (h : Host) where
  abbrev pub Run : Type 0 → Type 0
  Run = M h.State

  abbrev pub make_dir : Text → Run (Unit {0})
  make_dir dir = perform (on_disk (made_dir dir)) (h.mkdir_all dir)

  abbrev pub remove_dir : Text → Run (Unit {0})
  remove_dir dir = perform (removed_all dir) (h.remove_all dir)

  abbrev pub write_key : Text → Text → Run (Unit {0})
  write_key path key = perform (on_disk (wrote_file path owner_only)) (h.write_file path key)

  -- `if err := m; err != nil { os.RemoveAll(dir); return err }`
  unfoldable pub or_remove : {A : Type 0} → Text → Run A → Run A
  or_remove dir m = attempt m (λ e. finally (throw e) (remove_dir dir)) return

  -- What `prepareAuth` returns for SSH.
  unfoldable pub ssh_auth : Text → Text → Text → Run (Option GitAuth)
  unfolding ssh_command ssh_binary_path
  ssh_auth auth_dir private_key_path known_hosts_path s =
      return
        (some (record {
          args = [];
          env = ssh_command (ssh_binary_path h s).0 private_key_path known_hosts_path ∷ [];
          cleanup = some auth_dir;
        }))
        (ssh_binary_path h s).1

  -- `prepareAuth`, once it has made the directory for the keys.
  unfoldable pub write_keys : Text → Text → Text → Run (Option GitAuth)
  unfolding or_remove ssh_auth join_path
  write_keys auth_dir private_key known_hosts =
      let private_key_path = join_path auth_dir (codes "id_ed25519") in
      let known_hosts_path = join_path auth_dir (codes "known_hosts") in
      or_remove auth_dir (write_key private_key_path private_key)
      >> (or_remove auth_dir (write_key known_hosts_path known_hosts)
          >> ssh_auth auth_dir private_key_path known_hosts_path)

  -- The part of `prepareAuth` for SSH.
  unfoldable pub prepare_keys : Text → Option Credentials → Run (Option GitAuth)
  unfolding write_keys
  prepare_keys base none =
      throw (errorf (codes "SSH repository requires ssh-privatekey and known_hosts credentials"))
  prepare_keys base (some creds) =
      if creds.ssh_private_key == [] || creds.known_hosts == []
      then throw
          (errorf (codes "SSH repository requires ssh-privatekey and known_hosts credentials"))
      else (make_dir (join_path base (codes "auth"))
          >> (perform (on_disk (made_temp (join_path base (codes "auth")) (codes "ssh-*")))
                (h.mkdir_temp (join_path base (codes "auth")) (codes "ssh-*"))
              >>= λ auth_dir. write_keys auth_dir creds.ssh_private_key creds.known_hosts))

  -- `prepareAuth`
  unfoldable pub prepare_auth : Text → Text → Option Credentials → Run (Option GitAuth)
  unfolding prepare_keys auth_header is_ssh_repository_url
  prepare_auth base repo_url creds =
      let header = auth_header h.base64 creds in
      if is_ssh_repository_url repo_url
      then prepare_keys base creds
      else if header == []
      then return none
      else return (
          some (record {
            args = codes "-c" ∷ (codes "http.extraHeader=Authorization: Basic " ++ header) ∷ [];
            env = [];
            cleanup = none;
          }))

  -- `if auth != nil && auth.cleanup != nil { defer auth.cleanup() }`
  unfoldable pub with_cleanup : {A : Type 0} → Option GitAuth → Run A → Run A
  with_cleanup auth m = elim (auth_cleanup auth) [
    | none ↦ m
    | some dir ↦ finally m (remove_dir dir)
  ]

  module _ (mirror_dir checkout_dir repo_url : Text) (auth : Option GitAuth) where
    abbrev pub git_in : Text → List Text → Run (Unit {0})
    git_in = run_git_in (git_world h) mirror_dir repo_url auth

    -- `st, err := os.Stat(finalDir); err == nil && st.IsDir()`
    unfoldable pub is_there : Text → Run Bool
    is_there final_dir =
        attempt (perform (looked_for final_dir) (h.stat final_dir)) (λ e. return false) return

    -- What is done about a failed `os.Rename`.
    unfoldable pub rename_failed : Text → Cause → Error → Run (Unit {0})
    rename_failed final_dir exists e = return tt
    rename_failed final_dir _ e =
        attempt (perform (looked_for final_dir) (h.stat final_dir)) (λ _. throw e) (λ _. return tt)

    -- What fills the new directory and gives it its name. The variable `cleanupDir` is emptied
    -- exactly before each `return nil`, so the directory is removed exactly after an error.
    unfoldable pub fill_dir : Text → Text → Text → Run (Unit {0})
    unfolding run_git_in rename_failed
    fill_dir final_dir sha temp_dir =
        git_in mirror_dir (clone_args mirror_dir temp_dir)
        >> (git_in temp_dir (checkout_args sha)
            >> attempt
                (perform (on_disk (renamed temp_dir final_dir)) (h.rename temp_dir final_dir))
                (λ e. rename_failed final_dir e.cause e) return)

    -- The function that `Checkout` runs under the lock of the commit.
    unfoldable pub build_dir : Text → Text → Run (Unit {0})
    unfolding is_there fill_dir or_remove
    build_dir final_dir sha = is_there final_dir >>= λ there.
        if there
        then return tt
        else (perform (on_disk (made_temp checkout_dir (codes "tmp-*")))
              (h.mkdir_temp checkout_dir (codes "tmp-*"))
            >>= λ temp_dir. or_remove temp_dir (fill_dir final_dir sha temp_dir))

    -- `Checkout` from the resolved commit on.
    unfoldable pub provide : Text → Run (Text × Text)
    unfolding join_path is_there build_dir with_lock
    provide sha =
        let final_dir = join_path checkout_dir sha in
        is_there final_dir >>= λ there.
        if there
        then return (final_dir, sha)
        else (with_lock h (final_dir ++ codes ".lockfile") (30 * second) (build_dir final_dir sha)
            >> return (final_dir, sha))

    -- `Checkout` from the lock of the mirror on.
    unfoldable pub serve : Text → Run (Text × Text)
    unfolding with_lock ensure_mirror resolve_revision provide
    serve revision =
        with_lock h (mirror_dir ++ codes ".lockfile") (30 * second)
          (ensure_mirror (git_world h) mirror_dir repo_url auth)
        >> (resolve_revision (git_world h) mirror_dir revision auth >>= provide)

  -- `Checkout`. The parent of the mirror is `mirrors`, since no hash has a slash.
  unfoldable pub checkout : Text → Text → Text → Option Credentials → Run (Text × Text)
  unfolding cache_root repo_hash join_path prepare_auth with_cleanup serve
  checkout cache_dir repo_url revision creds s =
      if repo_url == []
      then throw (errorf (codes "repository URL is required")) s
      else let base = cache_root h cache_dir s in
        let mirrors = join_path base (codes "mirrors") in
        let mirror_dir = join_path mirrors (repo_hash h repo_url ++ codes ".git") in
        let checkout_dir = join_path (join_path base (codes "checkouts")) (repo_hash h repo_url) in
        (make_dir mirrors
            >> (make_dir checkout_dir
                >> (prepare_auth base repo_url creds >>= λ auth. with_cleanup auth (
                    serve mirror_dir checkout_dir repo_url auth
                      (if revision == [] then codes "main" else revision)))))
          s
