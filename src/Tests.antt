-- ===== src/Tests.antt =====
-- Runs of the definitions, and of the theorems at concrete values.
mod Demo
mod Witnesses
mod Library
mod GitRuns
mod HostRuns
mod CacheRuns
mod WorkerRuns
mod MemoryRuns
mod Failures
mod OperatorRuns
mod FlagRuns
use cabure.Base.{◌≡◌, refl, ok, list_eq, nat_eq}
use cabure.Text.{codes}
use cabure.Path.{clean, resolve_within_root}

clean_rooted : clean (codes "/a/./b//../c/") ≡ codes "/a/c"
unfolding clean list_eq nat_eq
clean_rooted = refl

clean_relative : clean (codes "../a/../..") ≡ codes "../.."
unfolding clean list_eq nat_eq
clean_relative = refl

resolve_child :
    resolve_within_root (codes "/tmp/root") (codes "apps/payments")
    ≡ ok (codes "/tmp/root/apps/payments")
unfolding resolve_within_root list_eq nat_eq
resolve_child = refl
