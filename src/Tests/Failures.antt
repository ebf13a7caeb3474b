-- ===== src/Tests/Failures.antt =====
-- A reconciliation whose checkout fails, and flags that are read back.
use cabure.Base.{◌≡◌, refl, [], ◌∷◌, err, Error, errorf, list_eq, nat_eq}
use cabure.Text.{codes, join, trim_left, trim_right}
use cabure.Outside.{Outside}
use cabure.Base.Dict.{lookup}
use cabure.Url.{is_supported_repository_url}
use cabure.Path.{clean}
use cabure.Controller.Validation.{
  validate_spec, minimum_requeue_interval, validate_rel_path, validate_values_file_path,
  validate_allowed_cluster_scoped_kinds,
}
use cabure.Controller.Reconcile.{synchronize}
use cabure.Controller.Reconcile.Reported.{IsReported}
use cabure.Controller.Reconcile.Reports.{synchronize-IsReported}
use cabure.Options.{split_allowed_prefixes}
use cabure.Options.Printed.{IsPlain, split_allowed_prefixes-join}
use cabure.Tests.Demo.{world, demo_application, demo_config}

abbrev unreachable : Error
unreachable = errorf (codes "git fetch: exit status 128: unreachable")

abbrev offline : Outside
offline = record world { checkout = λ repository revision creds s. (err unreachable, s) }

synchronize-IsReported_example :
    IsReported offline demo_config unreachable
      (synchronize offline demo_config demo_application 7).calls
unfolding synchronize validate_spec minimum_requeue_interval list_eq is_supported_repository_url
    nat_eq validate_rel_path clean validate_values_file_path validate_allowed_cluster_scoped_kinds
    lookup
synchronize-IsReported_example =
    synchronize-IsReported offline demo_config demo_application 7 unreachable refl

host_prefix-IsPlain : IsPlain (codes "https://a/")
unfolding trim_left trim_right list_eq nat_eq
host_prefix-IsPlain = record {
  full = λ e. cc;
  no_comma = (refl, (refl, (refl, (refl, (refl, (refl, (refl, (refl, (refl, (refl, tt))))))))));
  starts = refl;
  ends = refl;
}

split_allowed_prefixes-join_example :
    split_allowed_prefixes (join (b',' ∷ []) (codes "https://a/" ∷ codes "https://a/" ∷ []))
    ≡ codes "https://a/" ∷ codes "https://a/" ∷ []
split_allowed_prefixes-join_example =
    split_allowed_prefixes-join (codes "https://a/" ∷ codes "https://a/" ∷ [])
      (host_prefix-IsPlain, (host_prefix-IsPlain, tt))
