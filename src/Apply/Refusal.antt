-- ===== src/Apply/Refusal.antt =====
-- Exactly which objects `NormalizeAndValidate` refuses.
use cabure.Base.{
  is_ok, ℕ, ◌+◌, ◌≡◌, refl, Bool, false, not, ◌&&◌, ◌||◌, Option, none, some, List, [], ◌∷◌, ◌++◌,
  arith, ok, err, Result, length, leb, ◌==◌, list_eq, nat_eq, all, all_congr, Result-cases, inl,
  inr, ap, ◌∙◌, ◌>>=◌, ==_iff, Bool-cases,
}
use cabure.Text.{Text, codes}
use cabure.Api.{Machinery, Object, Mapping, Scope, namespaced, root}
use cabure.Apply.{
  Policy, basic_validate, mapping_of, check_scope, place_namespace, ensure_metadata, size_check,
  normalize_one, normalize_loop, with_manager, normalize_and_validate, wrapped, object_label,
  cluster_scoped_kind_allowed, max_object_size_bytes, gvk_of,
}

module _ (m : Machinery) (policy : Policy) where
  -- The encoded object has at most 1 MiB.
  abbrev fits : Result Text → Bool
  fits (ok raw) = leb (length raw) max_object_size_bytes
  fits (err e) = false

  abbrev is_named : Object → Bool
  is_named o = not (o.api_version == []) && not (o.kind == []) && not (o.name == [])

  -- The object in the namespace of its scope, and as it is applied: with the marks of its
  -- application.
  abbrev pub moved : Object → Scope → Object
  moved o namespaced = record o { namespace = policy.destination_namespace }
  moved o root = record o { namespace = [] }

  abbrev pub settled : Object → Scope → Object
  settled o scope = ensure_metadata (moved o scope) policy

  abbrev is_allowed_in : Object → Scope → Bool
  is_allowed_in o namespaced = o.namespace == [] || o.namespace == policy.destination_namespace
  is_allowed_in o root =
      policy.allow_cluster_scoped
      && cluster_scoped_kind_allowed (gvk_of m o).kind policy.allowed_cluster_scoped_kinds

  abbrev settles : Object → Result Mapping → Bool
  settles o (err e) = false
  settles o (ok mapping) =
      is_allowed_in o mapping.scope && fits (m.marshal (settled o mapping.scope))

  -- The policy, as one test: named, of a known kind, in its place, of an allowed kind, and small.
  abbrev pub meets_policy : Option Object → Bool
  meets_policy none = false
  meets_policy (some o) = is_named o && settles o (mapping_of m o)

  is_ok-size_check : (o : Object) → is_ok (size_check m o) ≡ fits (m.marshal o)
  unfolding size_check
  is_ok-size_check o = ground arith

  is_ok-basic_validate : (o : Object) → is_ok (basic_validate o) ≡ is_named o
  unfolding basic_validate
  is_ok-basic_validate o = ground arith

  is_ok-wrapped {ℓ} : {A : Type ℓ} (text : Text) (r : Result A) → is_ok (wrapped m text r) ≡ is_ok r
  is_ok-wrapped text (ok a) = refl
  is_ok-wrapped text (err e) = refl

  -- The tests on scope and namespace, before any last step that tests the size alone.
  is_ok-scoped {ℓ} :
      {A : Type ℓ} (o : Object) (scope : Scope) (finish : Object → Result A)
      → ((placed : Object)
          → is_ok (finish placed) ≡ fits (m.marshal (ensure_metadata placed policy)))
      → is_ok (check_scope m policy o scope >>= λ _. place_namespace m policy o scope >>= finish)
        ≡ (is_allowed_in o scope && fits (m.marshal (settled o scope)))
  unfolding check_scope place_namespace
  is_ok-scoped o namespaced finish last = elim (Bool-cases (o.namespace == [])) [
    | inl e ↦ simp e (last (moved o namespaced))
    | inr e ↦ elim (Bool-cases (o.namespace == policy.destination_namespace)) [
      | inl d ↦
          let here : o ≡ moved o namespaced =
            ap (λ ns. record o { namespace = ns }) ((==_iff o.namespace _).0 d) in
          simp (e, d) (last o ∙ ap (λ q. fits (m.marshal (ensure_metadata q policy))) here)
      | inr d ↦ simp (e, d)
    ]
  ]
  is_ok-scoped o root finish last = elim (Bool-cases policy.allow_cluster_scoped) [
    | inl e ↦
        elim (Bool-cases
          (cluster_scoped_kind_allowed (gvk_of m o).kind policy.allowed_cluster_scoped_kinds)) [
            | inl d ↦ simp (e, d) (last (moved o root))
            | inr d ↦ simp (e, d)
          ]
    | inr e ↦ simp e
  ]

  is_ok-bind_const {ℓ κ} :
      {A : Type ℓ} {B : Type κ} (r : Result A) (b : B) → is_ok (r >>= λ _. ok b) ≡ is_ok r
  is_ok-bind_const (ok a) b = refl
  is_ok-bind_const (err e) b = refl

  is_ok-bind_err {ℓ κ} :
      {A : Type ℓ} {B : Type κ} (r : Result A) (f : A → Result B)
      → is_ok r ≡ false
      → is_ok (r >>= f) ≡ false
  is_ok-bind_err (ok a) f h = cc
  is_ok-bind_err (err e) f h = refl

  is_ok-normalize_one :
      (idx : ℕ) (o : Object) → is_ok (normalize_one m policy idx o) ≡ meets_policy (some o)
  unfolding normalize_one
  is_ok-normalize_one idx o = elim (Result-cases (basic_validate o)) [
    | inr (e, valid) ↦ rw (← is_ok-basic_validate o, valid, normalize_one)
    | inl (u, valid) ↦ elim (Result-cases (mapping_of m o)) [
      | inr (e, mapped) ↦ rw (← is_ok-basic_validate o, valid, mapped, normalize_one)
      | inl (mapping, mapped) ↦
          rw (← is_ok-basic_validate o, valid, mapped, normalize_one)
            (is_ok-scoped o mapping.scope _ λ placed.
              is_ok-bind_const
                (wrapped m (object_label m o ++ codes ": ")
                  (size_check m (ensure_metadata placed policy)))
                _
              ∙ is_ok-wrapped (object_label m o ++ codes ": ") _
              ∙ is_ok-size_check (ensure_metadata placed policy))
    ]
  ]

  is_ok-bind_pure {ℓ κ} :
      {A : Type ℓ} {B : Type κ} (r : Result A) (f : A → B) → is_ok (r >>= λ a. ok (f a)) ≡ is_ok r
  is_ok-bind_pure (ok a) f = refl
  is_ok-bind_pure (err e) f = refl

  is_ok-normalize_loop :
      (idx : ℕ) (objects : List (Option Object))
      → is_ok (normalize_loop m policy idx objects) ≡ all meets_policy objects
  unfolding normalize_loop
  is_ok-normalize_loop idx [] = refl
  is_ok-normalize_loop idx (none ∷ objects) = refl
  is_ok-normalize_loop idx (some o ∷ objects) =
      rw (← is_ok-normalize_one idx o) (elim (Result-cases (normalize_one m policy idx o)) [
        | inr (e, one) ↦ rw one
        | inl (done, one) ↦ rw one (
            is_ok-bind_pure (normalize_loop m policy (idx + 1) objects) (λ rest. done ∷ rest)
            ∙ is_ok-normalize_loop (idx + 1) objects)
      ])

-- The default field manager changes nothing of the test.
module _ (m : Machinery) (policy : Policy) where
  in_scope_any_manager :
      (o : Object) (scope : Scope)
      → (is_allowed_in m (with_manager policy) o scope
          && fits m (with_manager policy) (m.marshal (settled m (with_manager policy) o scope)))
        ≡ (is_allowed_in m policy o scope && fits m policy (m.marshal (settled m policy o scope)))
  unfolding ensure_metadata
  in_scope_any_manager o namespaced = ground arith
  in_scope_any_manager o root = ground arith

  settles_any_manager :
      (o : Object) (r : Result Mapping) → settles m (with_manager policy) o r ≡ settles m policy o r
  settles_any_manager o (err e) = refl
  settles_any_manager o (ok mapping) = in_scope_any_manager o mapping.scope

  meets_any_manager :
      (o : Option Object) → meets_policy m (with_manager policy) o ≡ meets_policy m policy o
  meets_any_manager none = refl
  meets_any_manager (some o) =
      ap (λ b. is_named m policy o && b) (settles_any_manager o (mapping_of m o))

-- `NormalizeAndValidate` succeeds exactly when every object meets the policy: it is named, its kind
-- is known, it lies where it may, and with its marks it is not too large.
pub normalize_and_validate-succeeds :
    (m : Machinery) (objects : List (Option Object)) (policy : Policy)
    → is_ok (normalize_and_validate m objects policy) ≡ all (meets_policy m policy) objects
unfolding normalize_and_validate
normalize_and_validate-succeeds m objects policy =
    is_ok-bind_pure m policy (normalize_loop m (with_manager policy) 0 objects) _
    ∙ is_ok-normalize_loop m (with_manager policy) 0 objects
    ∙ all_congr _ _ (meets_any_manager m policy) objects
