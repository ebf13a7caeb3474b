-- ===== src/Render/Files.antt =====
-- Which files `yamlFiles` returns (internal/render/yaml.go).
use cabure.Base.{
  ◌≡◌, refl, sym, ap, ◌∙◌, Bool, false, not, ◌&&◌, ◌||◌, Option, none, some, List, [], ◌∷◌, ◌++◌,
  all, select, map, Result, ok, err, arith, append_assoc, append-nil, if◌then◌else◌, Bool-cases,
  inl, inr, Result-cases,
}
use cabure.Base.Sort.{sort}
use cabure.Text.{Text, text_lt}
use cabure.Outside.{Outside, Visit}
use cabure.Effects.{M, attempt, return, ◌>>=◌}
use cabure.Render.{is_yaml_name, check_context, walk_visits, yaml_files}

abbrev pub value_of {ℓ} : {A : Type ℓ} → Result A → Option A
value_of (ok a) = some a
value_of (err e) = none

-- The visit has no error, and what is visited is a directory or no link.
abbrev pub is_plain : Visit → Bool
is_plain v = elim v.walk_error [ none ↦ v.is_dir || not v.is_symlink | some _ ↦ false ]

-- The paths of the YAML files among the visits.
abbrev pub yaml_paths : List Visit → List Text
yaml_paths visits =
    map (λ (v : Visit). v.path) (select (λ v. not v.is_dir && is_yaml_name v.path) visits)

module _ (c : Outside) (calm : (s : c.State) → (c.context_error s).0 ≡ none) where
  walk_visits_value :
      (visits : List Visit) (paths : List Text) (s : c.State)
      → value_of (walk_visits c visits paths s).result
        ≡ (if all is_plain visits then some (paths ++ yaml_paths visits) else none)
  unfolding walk_visits check_context
  walk_visits_value [] paths s = ap some (sym (append-nil paths))
  walk_visits_value (v ∷ visits) paths s = ground (
    arith,
    calm s,
    walk_visits_value visits paths (c.context_error s).1,
    walk_visits_value visits (paths ++ (v.path ∷ [])) (c.context_error s).1,
    append_assoc paths (v.path ∷ []) (yaml_paths visits),
  )

  value_of-chain :
      {A B : Type 0} (m : M c.State A) (f : A → B) (s : c.State)
      → value_of ((m >>= λ a. return (f a)) s).result
        ≡ elim (value_of (m s).result) [ none ↦ none | some a ↦ some (f a) ]
  value_of-chain m f s = elim (Result-cases (m s).result) [
    | inl (a, h) ↦ rw (h, attempt) refl
    | inr (e, h) ↦ rw (h, attempt) refl
  ]

  -- Without cancellation, `yamlFiles` returns the paths of the YAML files among the visits, sorted,
  -- if no visit has an error and no file is a link; otherwise it fails.
  pub yaml_files-value :
      (dir : Text) (s : c.State)
      → let visits = (c.walk dir s).0 in
        value_of (yaml_files c dir s).result
        ≡ (if all is_plain visits then some (sort text_lt (yaml_paths visits)) else none)
  unfolding yaml_files
  yaml_files-value dir s =
      let visits = (c.walk dir s).0 in
      value_of-chain (walk_visits c visits []) (sort text_lt) (c.walk dir s).1
      ∙ ap
          (λ (o : Option (List Text)). elim o as (λ _. Option (List Text)) [
            | none ↦ none
            | some a ↦ some (sort text_lt a)
          ])
          (walk_visits_value visits [] (c.walk dir s).1)
      ∙ (elim (Bool-cases (all is_plain visits)) [ inl t ↦ rw t refl | inr f ↦ rw f refl ])
