-- ===== src/Apply/Priority.antt =====
-- The kinds that come first, and the cluster-scoped kinds that an application may use.
use cabure.Base.{◌≡◌, ◌↔◌, arith, List, [], ◌∷◌, ◌&&◌, any, ◌==◌, list_eq, nat_eq}
use cabure.Text.{Text, to_lower, codes}
use cabure.Text.Case.{to_lower_idem}
use cabure.Apply.{
  apply_priority, cluster_scoped_kind_allowed, is_supported_cluster_scoped_kind, allowed_among,
}

allowed_among_lem :
    (kind : Text) (allowed : List Text)
    → allowed_among (to_lower kind) allowed ≡ (
        is_supported_cluster_scoped_kind kind
        && any (λ item. to_lower item == to_lower kind) allowed)
unfolding allowed_among is_supported_cluster_scoped_kind
allowed_among_lem kind [] = ground arith
allowed_among_lem kind (item ∷ rest) =
    ground (arith, allowed_among_lem kind rest, to_lower_idem kind)

-- A cluster-scoped kind is allowed exactly when it is one of the four supported kinds and the
-- application lists it, in any case of letters.
pub cluster_scoped_kind_allowed_lem :
    (kind : Text) (allowed : List Text)
    → cluster_scoped_kind_allowed kind allowed ≡ (
        is_supported_cluster_scoped_kind kind
        && any (λ item. to_lower item == to_lower kind) allowed)
unfolding cluster_scoped_kind_allowed
cluster_scoped_kind_allowed_lem kind [] = ground arith
cluster_scoped_kind_allowed_lem kind (item ∷ rest) = allowed_among_lem kind (item ∷ rest)

-- Only namespaces have the first priority.
pub apply_priority-eq_zero :
    (kind : Text) → (apply_priority kind ≡ 0) ↔ (to_lower kind ≡ codes "namespace")
unfolding apply_priority
apply_priority-eq_zero kind = ground arith
