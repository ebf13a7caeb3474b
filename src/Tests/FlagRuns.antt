-- ===== src/Tests/FlagRuns.antt =====
-- A reconciliation under the flags of the operator, and the theorem on them at it.
use cabure.Base.{refl, [], ◌∷◌, All, list_eq, nat_eq}
use cabure.Text.{codes, join, trim_left, trim_right}
use cabure.Controller.Reconcile.{synchronize}
use cabure.Options.Printed.{IsPlain}
use cabure.Operator.{config_of}
use cabure.Operator.Flags.{Flags, default_flags, options_of, Honours, synchronize-Honours}
use cabure.Tests.Demo.{world, demo_application, checkout_absolute}

abbrev demo_flags : Flags
demo_flags = record default_flags { allowed_repo_prefixes = codes "https://git.,ssh://" }

git-IsPlain : IsPlain (codes "https://git.")
unfolding trim_left trim_right list_eq nat_eq
git-IsPlain = record {
  full = λ e. cc;
  no_comma = (
    refl,
    (refl, (refl, (refl, (refl, (refl, (refl, (refl, (refl, (refl, (refl, (refl, tt))))))))))),
  );
  starts = refl;
  ends = refl;
}

ssh-IsPlain : IsPlain (codes "ssh://")
unfolding trim_left trim_right list_eq nat_eq
ssh-IsPlain = record {
  full = λ e. cc;
  no_comma = (refl, (refl, (refl, (refl, (refl, (refl, tt))))));
  starts = refl;
  ends = refl;
}

synchronize-Honours_example :
    All
      (Honours demo_flags (codes "https://git." ∷ codes "ssh://" ∷ []))
      (synchronize world (config_of (options_of demo_flags)) demo_application 7).calls
unfolding join
synchronize-Honours_example =
    synchronize-Honours world demo_flags (codes "https://git.") (codes "ssh://" ∷ []) refl
      (git-IsPlain, (ssh-IsPlain, tt)) demo_application
      (λ creds s dir sha h. checkout_absolute dir sha h) 7
