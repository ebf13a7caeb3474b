-- ===== src/Tests/HostRuns.antt =====
-- A small machine, on which the theorems on locks and checkouts apply: a clock, a lock that is busy
-- for some rounds, and directories that hold commits.
use cabure.Base.{
  ℕ, ◌+◌, ◌-◌, ◌*◌, ◌≡◌, ◌≢◌, Bool, true, Option, none, some, List, [], ◌∷◌, ◌++◌, ◌||◌, ◌==◌,
  list_eq, nat_eq, if◌then◌else◌, Result, ok, err, Error, not_found, would_block, ◌⊎◌, arith,
}
use cabure.Text.{Text, has_prefix, codes}
use cabure.Effects.{M, return}
use cabure.Git.Host.{Host}
use cabure.Git.Lock.{second, lock_rounds, lock_loop, with_lock}
use cabure.Git.Lock.Waiting.{HasClock, lock_loop-settles}
use cabure.Git.Lock.Held.{Ran, Failed, with_lock-Ran}

pub record Machine : Type 0 where
  pub time : ℕ
  -- For how many more sleeps the lock is busy
  pub busy : ℕ
  -- The commit that each directory holds
  pub disk : Text → Option Text

-- One entry is set.
abbrev pub set : Text → Option Text → (Text → Option Text) → Text → Option Text
set p commit disk q = if q == p then commit else disk q

-- A directory is removed, with all that lies below it.
abbrev pub clear : Text → (Text → Option Text) → Text → Option Text
clear p disk q = if q == p || has_prefix q (p ++ codes "/") then none else disk q

abbrev pub commit_name : Text
commit_name = codes "0123456789abcdef0123456789abcdef01234567"

-- Git: `checkout` fills the directory that it runs in, and the rest prints one remote branch.
abbrev pub git_run : List Text → Text → Machine → (Text × Option Error) × Machine
git_run (program ∷ command ∷ a ∷ b ∷ sha ∷ []) dir s =
    if command == codes "checkout"
    then (([], none), record s { disk = set dir (some sha) s.disk })
    else ((commit_name ++ codes "\trefs/heads/main\n", none), s)
git_run _ dir s = (([], none), s)

abbrev stat_result : Option Text → Result Bool
stat_result none = err (record { cause = not_found; message = codes "no such file" })
stat_result (some commit) = ok true

abbrev lock_result : ℕ → Result (Unit {0})
lock_result busy =
    if busy == 0 then ok tt else err (record { cause = would_block; message = codes "locked" })

abbrev pub demo_host : Host
demo_host = record {
  State = Machine;
  File = Text;
  now = λ s. s.time;
  temp_dir = λ s. codes "/tmp";
  environ = λ s. [];
  stat = λ p s. (stat_result (s.disk p), s);
  mkdir_all = λ p s. (ok tt, s);
  mkdir_temp = λ dir pattern s. (ok (codes "/c/tmp-1"), s);
  write_file = λ p text s. (ok tt, s);
  rename = λ t p s. (ok tt, record s { disk = set p (s.disk t) (set t none s.disk) });
  remove_all = λ p s. (ok tt, record s { disk = clear p s.disk });
  open_file = λ p s. (ok p, s);
  try_lock = λ file s. (lock_result s.busy, s);
  unlock = λ file s. s;
  close = λ file s. s;
  sleep = λ d s. record s { time = s.time + d; busy = s.busy - 1 };
  exec = λ command s. git_run command.args command.dir s;
  sha256 = λ t. t;
  base64 = λ t. t;
}

demo_clock : HasClock demo_host
demo_clock = record {
  opens = λ path s. omega arith;
  tries = λ file s. omega arith;
  closes = λ file s. omega arith;
  sleeps = λ d s. omega arith;
}

-- An empty cache, and a lock that is busy for two rounds.
abbrev pub start : Machine
start = record { time = 7; busy = 2; disk = λ p. none }

lock_loop-settles_example :
    (lock_loop demo_host
      (lock_rounds (30 * second))
      (codes "/m.lockfile")
      (7 + 30 * second)
      start).result
    ≢ ok none
lock_loop-settles_example =
    lock_loop-settles demo_host (codes "/m.lockfile") (30 * second) start demo_clock

abbrev tick : M Machine (Unit {0})
tick = return tt

with_lock-Ran_example :
    Ran demo_host
      (codes "/m.lockfile")
      tick
      (with_lock demo_host (codes "/m.lockfile") (30 * second) tick start)
    ⊎ (((e : Error) × ((with_lock demo_host (codes "/m.lockfile") (30 * second) tick start).result
            ≡ err e))
        × Failed demo_host
            (codes "/m.lockfile")
            (with_lock demo_host (codes "/m.lockfile") (30 * second) tick start).calls)
with_lock-Ran_example = with_lock-Ran demo_host (codes "/m.lockfile") (30 * second) tick start
