-- ===== src/Apply/Stages.antt =====
-- The order of the kinds in internal/apply/apply.go, as a table.
use cabure.Base.{ℕ, ◌+◌, ◌≡◌, arith, List, [], ◌∷◌, ◌==◌, list_eq, nat_eq, any, if◌then◌else◌}
use cabure.Text.{Text, to_lower, codes}
use cabure.Apply.{apply_priority}

-- The kinds that are applied first, second, and so on, in lower case; all others come last.
abbrev pub stages : List (List Text)
stages =
    (codes "namespace" ∷ [])
    ∷ (codes "customresourcedefinition" ∷ [])
    ∷ (codes "serviceaccount" ∷ [])
    ∷ (codes "configmap" ∷ codes "secret" ∷ [])
    ∷ (codes "role" ∷ codes "clusterrole" ∷ [])
    ∷ (codes "rolebinding" ∷ codes "clusterrolebinding" ∷ [])
    ∷ (codes "service" ∷ [])
    ∷ (codes "persistentvolumeclaim" ∷ [])
    ∷ (codes "deployment"
        ∷ codes "statefulset"
        ∷ codes "daemonset"
        ∷ codes "job"
        ∷ codes "cronjob"
        ∷ [])
    ∷ (codes "ingress" ∷ [])
    ∷ []

-- At which place of a table a kind stands, or the number of places.
abbrev pub place_in : List (List Text) → Text → ℕ
place_in [] kind = 0
place_in (kinds ∷ rest) kind = if any (λ k. kind == k) kinds then 0 else 1 + place_in rest kind

unfoldable pub stage_of : Text → ℕ
stage_of kind = place_in stages (to_lower kind)

pub apply_priority-stage : (kind : Text) → apply_priority kind ≡ stage_of kind
unfolding apply_priority stage_of
apply_priority-stage kind = ground arith
