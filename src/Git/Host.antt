-- ===== src/Git/Host.antt =====
-- The machine that `Repository` works on: package os, the clock, locks on files and the git program
-- (internal/git/repository.go: `runGitCommand` and what it calls, `cacheRoot`, `repoHash`).
use cabure.Base.{
  ℕ, ◌+◌, ◌-◌, ◌/◌, ◌%◌, ltb, Bool, true, false, Option, none, some, List, [], ◌∷◌, ◌++◌, ◌==◌,
  list_eq, nat_eq, if◌then◌else◌, Result, ok, err, Error, not_found,
}
use cabure.Text.{Text, codes, join}
use cabure.Path.{join_path}
use cabure.Git.{GitWorld}

-- `exec.Cmd`: the program, its arguments with the name it is called by, and an empty directory for
-- that of the process.
pub record Command : Type 0 where
  pub path : Text
  pub args : List Text
  pub dir : Text
  pub env : List Text

pub record Host : Type 1 where
  pub State : Type 0
  -- An open file
  pub File : Type 0
  -- `time.Now`, in nanoseconds
  pub now : State → ℕ
  pub temp_dir : State → Text
  pub environ : State → List Text
  -- `os.Stat`: whether the file is a directory
  pub stat : Text → State → Result Bool × State
  pub mkdir_all : Text → State → Result (Unit {0}) × State
  -- `os.MkdirTemp` of the directory and the pattern
  pub mkdir_temp : Text → Text → State → Result Text × State
  pub write_file : Text → Text → State → Result (Unit {0}) × State
  pub rename : Text → Text → State → Result (Unit {0}) × State
  pub remove_all : Text → State → Result (Unit {0}) × State
  -- `os.OpenFile(path, os.O_CREATE|os.O_RDWR, 0o600)`
  pub open_file : Text → State → Result File × State
  -- `syscall.Flock` with `LOCK_EX|LOCK_NB`, and with `LOCK_UN`
  pub try_lock : File → State → Result (Unit {0}) × State
  pub unlock : File → State → State
  pub close : File → State → State
  -- `time.Sleep`
  pub sleep : ℕ → State → State
  -- `CombinedOutput` of a command
  pub exec : Command → State → (Text × Option Error) × State
  -- `sha256.Sum256` and `base64.StdEncoding`
  pub sha256 : Text → List ℕ
  pub base64 : Text → Text

-- `gitAuth`, where `cleanup`, if there is one, removes a directory.
pub record GitAuth : Type 0 where
  pub args : List Text
  pub env : List Text
  pub cleanup : Option Text

abbrev pub auth_env : Option GitAuth → List Text
auth_env none = []
auth_env (some auth) = auth.env

abbrev pub auth_args : Option GitAuth → List Text
auth_args none = []
auth_args (some auth) = auth.args

abbrev pub auth_cleanup : Option GitAuth → Option Text
auth_cleanup none = none
auth_cleanup (some auth) = auth.cleanup

abbrev hex_digit : ℕ → ℕ
hex_digit d = if ltb d 10 then b'0' + d else (b'a' - 10) + d

-- `hex.EncodeToString`
unfoldable pub hex_encode : List ℕ → Text
hex_encode [] = []
hex_encode (b ∷ bytes) = hex_digit (b / 16) ∷ hex_digit (b % 16) ∷ hex_encode bytes

-- `redact`
abbrev pub redact : Text → Text
redact s = s

module _ (h : Host) where
  -- `repoHash`
  unfoldable pub repo_hash : Text → Text
  unfolding hex_encode
  repo_hash repo_url = hex_encode (h.sha256 repo_url)

  -- `cacheRoot`
  unfoldable pub cache_root : Text → h.State → Text
  unfolding join_path
  cache_root cache_dir s =
      if cache_dir == [] then join_path (h.temp_dir s) (codes "cabure-cache") else cache_dir

  -- `firstExistingBinary`
  unfoldable pub first_existing_binary : Text → List Text → h.State → Text × h.State
  first_existing_binary name [] s = (name, s)
  first_existing_binary name (candidate ∷ candidates) s = elim (h.stat candidate s).0 [
    | ok is_dir ↦ (candidate, (h.stat candidate s).1)
    | err e ↦ first_existing_binary name candidates (h.stat candidate s).1
  ]

  -- `gitBinaryPath`
  unfoldable pub git_binary_path : h.State → Text × h.State
  unfolding first_existing_binary
  git_binary_path =
      first_existing_binary (codes "git") (codes "/usr/bin/git" ∷ codes "/bin/git" ∷ [])

  -- `sshBinaryPath`
  unfoldable pub ssh_binary_path : h.State → Text × h.State
  unfolding first_existing_binary
  ssh_binary_path =
      first_existing_binary (codes "ssh") (codes "/usr/bin/ssh" ∷ codes "/bin/ssh" ∷ [])

  -- The command of `runGitCommand`, when the program is at `path`.
  unfoldable pub git_command : Text → Text → Option GitAuth → List Text → List Text → Command
  git_command path dir auth args environ = record {
    path = path;
    args = if auth_args auth == [] then path ∷ args else codes "git" ∷ (auth_args auth ++ args);
    dir = dir;
    env = environ ++ (codes "GIT_TERMINAL_PROMPT=0" ∷ codes "GIT_ASKPASS=true" ∷ auth_env auth);
  }

  -- The output of `runGitCommand`, or its error.
  unfoldable pub git_result : List Text → Text × Option Error → Result Text
  unfolding join
  git_result args (output, none) = ok output
  git_result args (output, some e) = err (record e {
    message =
        codes "git "
        ++ (join (codes " ") args ++ (codes ": " ++ (e.message ++ (codes ": " ++ redact output))));
  })

  -- `runGitCommand`
  unfoldable pub run_git_command :
      Text → Option GitAuth → List Text → h.State → Result Text × h.State
  unfolding git_binary_path git_command git_result
  run_git_command dir auth args s =
      let (path, s1) = git_binary_path s in
      let (finished, s2) = h.exec (git_command path dir auth args (h.environ s1)) s1 in
      (git_result args finished, s2)

  -- What the code on the mirror calls of this machine.
  abbrev pub git_world : GitWorld
  git_world = record {
    State = h.State;
    Auth = Option GitAuth;
    -- `os.IsNotExist` of the error of `os.Stat`
    is_missing = λ path s. (
      elim (h.stat path s).0 [
        | ok is_dir ↦ false
        | err e ↦ elim e.cause [ not_found ↦ true | _ ↦ false ]
      ],
      (h.stat path s).1,
    );
    run_git = run_git_command;
    remove_all = h.remove_all;
  }
