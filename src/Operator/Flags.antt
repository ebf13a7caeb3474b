-- ===== src/Operator/Flags.antt =====
-- The flags of `main` (cmd/main.go), and what a reconciliation makes of them.
use cabure.Base.{
  zero, suc, ◌≡◌, refl, ap, ◌∙◌, subst, Bool, true, false, ◌||◌, Option, none, some, List, [], ◌∷◌,
  any, is_empty, All, All-map, ok, if◌then◌else◌, arith,
}
use cabure.Base.Int.{ℤ, pos, negsuc, leb_ℤ}
use cabure.Text.{Text, codes, join, has_prefix}
use cabure.Path.{is_abs}
use cabure.Options.{split_allowed_prefixes}
use cabure.Options.Printed.{IsPlain, split_allowed_prefixes-join}
use cabure.Operator.{OperatorOptions, config_of, worker_count}
use cabure.Api.Types.{GitApplication, Credentials}
use cabure.Outside.{Outside}
use cabure.Effects.{Call, checked_out, applied}
use cabure.Controller.Validation.{field_manager_or_default}
use cabure.Controller.Reconcile.{synchronize, concurrent_reconciles}
use cabure.Controller.Reconcile.Confinement.{IsConfined, synchronize-IsConfined}

-- The variables of `main`.
pub record Flags : Type 0 where
  pub metrics_addr : Text
  pub probe_addr : Text
  pub leader_elect : Bool
  pub watch_namespace : Text
  pub concurrent_reconciles : ℤ
  pub minimum_requeue_interval : ℤ
  pub allow_cluster_scoped : Bool
  pub allowed_repo_prefixes : Text
  pub field_manager : Text
  pub cache_dir : Text

-- The flags that are not given.
abbrev pub default_flags : Flags
default_flags = record {
  metrics_addr = codes ":8080";
  probe_addr = codes ":8081";
  leader_elect = true;
  watch_namespace = [];
  concurrent_reconciles = pos 2;
  minimum_requeue_interval = pos 15000000000;
  allow_cluster_scoped = false;
  allowed_repo_prefixes = [];
  field_manager = codes "tiny-gitops-controller";
  cache_dir = [];
}

-- The options that `main` makes of its flags.
unfoldable pub options_of : Flags → OperatorOptions
options_of flags = record {
  watch_namespace = flags.watch_namespace;
  concurrent_reconciles = flags.concurrent_reconciles;
  minimum_requeue_interval = flags.minimum_requeue_interval;
  allow_cluster_scoped = flags.allow_cluster_scoped;
  allowed_repo_prefixes = split_allowed_prefixes flags.allowed_repo_prefixes;
  field_manager = flags.field_manager;
  cache_dir = flags.cache_dir;
}

-- The operator starts as many workers as the reconciler asks of a manager.
worker_count-concurrent_reconciles :
    (opts : OperatorOptions) → pos (worker_count opts) ≡ concurrent_reconciles (config_of opts)
unfolding worker_count concurrent_reconciles config_of leb_ℤ
worker_count-concurrent_reconciles opts = by_sign opts.concurrent_reconciles
  where
    by_sign :
        (n : ℤ)
        → pos (elim n [ pos (suc k) ↦ suc k | _ ↦ 1 ]) ≡ (if leb_ℤ n (pos 0) then pos 1 else n)
    by_sign (pos zero) = refl
    by_sign (pos (suc k)) = ground arith
    by_sign (negsuc k) = ground arith

-- What the flags and these prefixes allow of a call.
abbrev pub Honours : Flags → List Text → Call → Type 0
Honours flags prefixes (checked_out repository revision creds) =
    any (λ prefix. has_prefix repository prefix) prefixes ≡ true
Honours flags prefixes (applied resource none name patch by force) =
    (flags.allow_cluster_scoped ≡ true) × (by ≡ field_manager_or_default flags.field_manager)
Honours flags prefixes (applied resource (some namespace) name patch by force) =
    by ≡ field_manager_or_default flags.field_manager
Honours flags prefixes _ = Unit

module _ (c : Outside) (flags : Flags) (p : Text) (ps : List Text)
    (given : flags.allowed_repo_prefixes ≡ join (b',' ∷ []) (p ∷ ps)) (plain : All IsPlain (p ∷ ps))
    (app : GitApplication) where
  prefixes_given : split_allowed_prefixes flags.allowed_repo_prefixes ≡ p ∷ ps
  prefixes_given = ap split_allowed_prefixes given ∙ split_allowed_prefixes-join (p ∷ ps) plain

  confined-Honours :
      (call : Call)
      → IsConfined c (config_of (options_of flags)) app call
      → Honours flags (p ∷ ps) call
  unfolding config_of options_of
  confined-Honours (checked_out repository revision creds) h =
      subst
        (λ prefixes.
          (is_empty prefixes || any (λ prefix. has_prefix repository prefix) prefixes) ≡ true)
        prefixes_given h.1
  confined-Honours (applied resource none name patch by force) h = (h.0, h.1)
  confined-Honours (applied resource (some namespace) name patch by force) h = h.1
  confined-Honours _ h = tt

-- The flags are honoured down to the calls. If `allowed-repository-prefixes` joins with commas at least one
-- prefix, each not empty, without a comma and without a space at its ends, and checkouts have
-- absolute paths, then a reconciliation under the configuration that `main` makes checks out only
-- repositories with one of these prefixes, applies to the cluster as a whole only if
-- `allow-cluster-scoped-resources` is set, and applies as the field manager of the flags.
pub synchronize-Honours :
    (c : Outside) (flags : Flags) (p : Text) (ps : List Text)
    → flags.allowed_repo_prefixes ≡ join (b',' ∷ []) (p ∷ ps)
    → All IsPlain (p ∷ ps)
    → (app : GitApplication)
    → ((creds : Option Credentials) (s : c.State) (dir sha : Text)
        → (c.checkout app.spec.source.repository app.spec.source.revision creds s).0 ≡ ok (dir, sha)
        → is_abs dir ≡ true)
    → (s : c.State)
    → All (Honours flags (p ∷ ps)) (synchronize c (config_of (options_of flags)) app s).calls
synchronize-Honours c flags p ps given plain app absolute s =
    let cfg = config_of (options_of flags) in
    All-map _ _ (synchronize c cfg app s).calls (confined-Honours c flags p ps given plain app)
      (synchronize-IsConfined c cfg app absolute s)
