-- ===== src/Apply/Steps.antt =====
-- A round of `NormalizeAndValidate` that succeeds, step by step.
use cabure.Base.{
  ℕ, ◌+◌, ◌≡◌, Option, none, some, List, [], ◌∷◌, ◌++◌, Result, ok, err, >>=-eq-ok, ok_injective,
  subst,
}
use cabure.Base.Sort.{sort}
use cabure.Inventory.{key_lt}
use cabure.Text.{Text, codes}
use cabure.Api.{Machinery, Object, ResourceReference, Mapping}
use cabure.Apply.{
  Policy, basic_validate, mapping_of, check_scope, place_namespace, ensure_metadata, size_check,
  resource_reference_for, normalize_one, normalize_loop, wrapped, with_manager, priority_lt,
  objects_of, references_of, normalize_and_validate, object_prefix, discovery_prefix, object_label,
}

pub wrapped-eq-ok {ℓ} :
    {A : Type ℓ} (m : Machinery) (text : Text) (r : Result A) {a : A}
    → wrapped m text r ≡ ok a
    → r ≡ ok a
wrapped-eq-ok m text (ok b) h = h
wrapped-eq-ok m text (err e) h = cc

module _ (m : Machinery) (policy : Policy) where
  -- What the checks of one round found.
  pub record Round (obj o : Object) (r : ResourceReference) : Type 0 where
    pub mapping : Mapping
    pub placed : Object
    pub valid : basic_validate obj ≡ ok tt
    pub mapped : mapping_of m obj ≡ ok mapping
    pub scoped : check_scope m policy obj mapping.scope ≡ ok tt
    pub put : place_namespace m policy obj mapping.scope ≡ ok placed
    pub sized : size_check m (ensure_metadata placed policy) ≡ ok tt
    pub object : o ≡ ensure_metadata placed policy
    pub reference : r ≡ resource_reference_for mapping.resource (ensure_metadata placed policy)

  pub normalize_one-Round :
      (idx : ℕ) (obj : Object) {o : Object} {r : ResourceReference}
      → normalize_one m policy idx obj ≡ ok (o, r)
      → Round obj o r
  unfolding normalize_one
  normalize_one-Round idx obj {o} {r} h =
      let (u, valid, h₁) = >>=-eq-ok (wrapped m (object_prefix idx) (basic_validate obj)) _ h in
      let (mapping, mapped, h₂) =
        >>=-eq-ok (wrapped m (discovery_prefix m obj) (mapping_of m obj)) _ h₁ in
      let (u', scoped, h₃) = >>=-eq-ok (check_scope m policy obj mapping.scope) _ h₂ in
      let (placed, put, h₄) = >>=-eq-ok (place_namespace m policy obj mapping.scope) _ h₃ in
      let (u'', sized, h₅) =
        >>=-eq-ok
          (wrapped m (object_label m obj ++ codes ": ")
            (size_check m (ensure_metadata placed policy)))
          _ h₄ in
      record {
        mapping = mapping;
        placed = placed;
        valid = wrapped-eq-ok m (object_prefix idx) (basic_validate obj) valid;
        mapped = wrapped-eq-ok m (discovery_prefix m obj) (mapping_of m obj) mapped;
        scoped = scoped;
        put = put;
        sized =
            wrapped-eq-ok m (object_label m obj ++ codes ": ")
              (size_check m (ensure_metadata placed policy)) sized;
        object = cc;
        reference = cc;
      }

  -- The loop ran a round for each object, and collected the results in order.
  abbrev pub Rounds : List (Option Object) → List (Object × ResourceReference) → Type 0
  Rounds [] [] = Unit
  Rounds [] (d ∷ done) = ⊥
  Rounds (obj ∷ objects) [] = ⊥
  Rounds (none ∷ objects) (d ∷ done) = ⊥
  Rounds (some obj ∷ objects) ((o, r) ∷ done) = Round obj o r × Rounds objects done

  pub normalize_loop-Rounds :
      (idx : ℕ) (objects : List (Option Object)) {done : List (Object × ResourceReference)}
      → normalize_loop m policy idx objects ≡ ok done
      → Rounds objects done
  unfolding normalize_loop
  normalize_loop-Rounds idx [] h = subst (Rounds []) (ok_injective h) tt
  normalize_loop-Rounds idx (none ∷ objects) h = cc
  normalize_loop-Rounds idx (some obj ∷ objects) h =
      let ((o, r), one, h₁) = >>=-eq-ok (normalize_one m policy idx obj) _ h in
      let (rest, more, h₂) = >>=-eq-ok (normalize_loop m policy (idx + 1) objects) _ h₁ in
      subst (Rounds (some obj ∷ objects)) (ok_injective h₂)
        (normalize_one-Round idx obj one, normalize_loop-Rounds (idx + 1) objects more)

-- A success of `NormalizeAndValidate` is a round for each object, and two sorts.
pub normalize_and_validate-Rounds :
    (m : Machinery) (objects : List (Option Object)) (policy : Policy) {out : List Object}
    {refs : List ResourceReference}
    → normalize_and_validate m objects policy ≡ ok (out, refs)
    → (done : List (Object × ResourceReference)) × Rounds m (with_manager policy) objects done
      × (out ≡ sort (priority_lt m) (objects_of m done))
      × (refs ≡ sort (key_lt m) (references_of m done))
unfolding normalize_and_validate
normalize_and_validate-Rounds m objects policy h =
    let (done, looped, h₁) = >>=-eq-ok (normalize_loop m (with_manager policy) 0 objects) _ h in
    (done, normalize_loop-Rounds m (with_manager policy) 0 objects looped, cc, cc)
