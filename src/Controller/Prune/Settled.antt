-- ===== src/Controller/Prune/Settled.antt =====
-- Pruning right after a success.
use cabure.Base.{◌≡◌, ap, List}
use cabure.Base.{ℕ}
use cabure.Text.{Text}
use cabure.Api.{ResourceReference}
use cabure.Api.Types.{GitApplication}
use cabure.Inventory.Settled.{diff-normalize}
use cabure.Outside.{Outside}
use cabure.Effects.{return}
use cabure.Controller.Conditions.{success_status}
use cabure.Controller.Prune.{prune, prune_stale}

-- Once a success is recorded, pruning with the same desired references calls nothing and succeeds.
pub prune-after_success :
    (c : Outside) (app : GitApplication) (now : ℕ) (sha : Text) (desired : List ResourceReference)
    (s : c.State)
    → prune c (record app { status = success_status c.machinery app now sha desired }) desired s
      ≡ return tt s
unfolding prune prune_stale success_status
prune-after_success c app now sha desired s =
    ap
      (λ (stale : List ResourceReference).
        prune_stale c (record app { status = success_status c.machinery app now sha desired }) stale
          s)
      (diff-normalize c.machinery desired)
