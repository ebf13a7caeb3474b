-- ===== src/Controller/Validation/Paths.antt =====
-- What the paths that `validateRelPath` and `validateValuesFilePath` accept are resolved to.
use mathlib.Core.Bool.{true≢false}
use cabure.Base.{
  ◌≡◌, ◌≢◌, refl, sym, ap, subst, ◌∙◌, Bool, true, false, not, List, [], ◌∷◌, ◌++◌, ◌==◌, list_eq,
  nat_eq, ==_iff, contains, ok, err, Error, ◌||◌, if◌then◌else◌, ap₂, arith, Bool-cases, inl, inr,
}
use cabure.Text.{Text, has_prefix, join}
use cabure.Text.Pieces.{join-append}
use cabure.Path.{clean, is_abs, dot, dot_dot, separator, elements, resolve_within_root}
use cabure.Path.Rooted.{rooted_path, names_of, clean_of_abs, clean_of_rel}
use cabure.Path.Inside.{resolve_within_root-relative, clean_dots}
use cabure.Controller.Validation.{validate_rel_path, validate_values_file_path}

dots_prefix : (t : Text) → has_prefix t (dot_dot ++ separator) ≡ true → has_prefix t dot_dot ≡ true
unfolding has_prefix
dots_prefix [] h = cc
dots_prefix (a ∷ []) h = ground arith
dots_prefix (a ∷ b ∷ t) h = ground arith

-- A cleaned path without `..` at its front has no `..` at all.
stays_inside :
    (path : Text)
    → is_abs path ≡ false
    → (clean path == dot_dot) ≡ false
    → has_prefix (clean path) (dot_dot ++ separator) ≡ false
    → contains (elements path) dot_dot ≡ false
stays_inside path relative h g = elim (Bool-cases (contains (elements path) dot_dot)) [
  | inr f ↦ f
  | inl t ↦ elim (clean_dots path relative t) [
    | inl e ↦ absurd (true≢false (sym ((==_iff (clean path) dot_dot).1 e) ∙ h))
    | inr e ↦ absurd (true≢false (sym e ∙ g))
  ]
]

rel_path_tests :
    (path : Text)
    → validate_rel_path path ≡ ok tt
    → ((path == []) ≡ false) × (is_abs path ≡ false) × (has_prefix (clean path) dot_dot ≡ false)
unfolding validate_rel_path
rel_path_tests path h = ground arith

-- Five refusals in turn, none of which came.
passed :
    (a b c d e f : Bool) (u v w x y : Error)
    → (if a
        then err u
        else if b
        then err v
        else if c
        then err w
        else if not d
        then err x
        else if e || f
        then err y
        else ok tt)
      ≡ ok (tt {0})
    → (a ≡ false) × (b ≡ false) × (c ≡ false) × (d ≡ true) × (e ≡ false) × (f ≡ false)
passed a b c d e f u v w x y h = ground arith

values_file_path_tests :
    (path : Text)
    → validate_values_file_path path ≡ ok tt
    → ((path == []) ≡ false)
      × (is_abs path ≡ false)
      × ((clean path == dot) ≡ false)
      × ((clean path == path) ≡ true)
      × ((clean path == dot_dot) ≡ false)
      × (has_prefix (clean path) (dot_dot ++ separator) ≡ false)
unfolding validate_values_file_path
values_file_path_tests path h =
    passed (path == []) (is_abs path) (clean path == dot) (clean path == path)
      (clean path == dot_dot) (has_prefix (clean path) (dot_dot ++ separator)) _ _ _ _ _ h

-- A source path that is accepted is resolved in every checkout but at `/`, to the directory that its
-- elements name below the root.
pub validate_rel_path-resolves :
    (root path : Text)
    → is_abs root ≡ true
    → names_of root ≢ []
    → validate_rel_path path ≡ ok tt
    → resolve_within_root root path ≡ ok (rooted_path (names_of root ++ names_of path))
unfolding has_prefix nat_eq
validate_rel_path-resolves root path absolute deep h =
    let (full, relative, low) = rel_path_tests path h in
    resolve_within_root-relative root absolute path deep full relative (
      stays_inside path relative
        (elim (Bool-cases (clean path == dot_dot)) [
          | inr f ↦ f
          | inl t ↦ absurd (
              true≢false (
                sym (ap (λ (t : Text). has_prefix t dot_dot) ((==_iff (clean path) dot_dot).0 t))
                ∙ low))
        ])
        (elim (Bool-cases (has_prefix (clean path) (dot_dot ++ separator))) [
          | inr f ↦ f
          | inl t ↦ absurd (true≢false (sym (dots_prefix (clean path) t) ∙ low))
        ]))

-- A path that is not the one of no elements is joined of its elements.
body_of :
    (body d p : Text)
    → (if body == [] then d else body) ≡ p
    → (p == d) ≡ false
    → (body ≡ p) × (body ≢ [])
body_of body d p h g = elim (Bool-cases (body == [])) [
  | inl t ↦
      absurd
        (true≢false (sym ((==_iff p d).1 (sym h ∙ ap (λ (b : Bool). if b then d else body) t)) ∙ g))
  | inr f ↦ (
    sym (ap (λ (b : Bool). if b then d else body) f) ∙ h,
    λ e. true≢false (sym ((==_iff body []).1 e) ∙ f),
  )
]

joined_at :
    (a b : List Text)
    → a ≢ []
    → join separator b ≢ []
    → rooted_path (a ++ b) ≡ rooted_path a ++ (b'/' ∷ join separator b)
unfolding join
joined_at [] b h g = absurd (h refl)
joined_at (x ∷ a) [] h g = absurd (g refl)
joined_at (x ∷ a) (y ∷ b) h g = ap (b'/' ∷◌) (join-append b'/' x a y b)

-- The path of a values file that is accepted is resolved in every checkout but at `/`, to the text
-- of the root, a slash, and the path as it is written.
pub validate_values_file_path-resolves :
    (root path : Text)
    → is_abs root ≡ true
    → names_of root ≢ []
    → validate_values_file_path path ≡ ok tt
    → resolve_within_root root path ≡ ok (clean root ++ (b'/' ∷ path))
validate_values_file_path-resolves root path absolute deep h =
    let (full, relative, not_dot, cleaned, not_dots, low) = values_file_path_tests path h in
    let unchanged : clean path ≡ path = (==_iff (clean path) path).0 cleaned in
    let (same, some_names) =
      body_of (join separator (names_of path)) dot path
        (sym (clean_of_rel path relative) ∙ unchanged)
        (subst (λ t. (t == dot) ≡ false) unchanged not_dot) in
    resolve_within_root-relative root absolute path deep full relative
      (stays_inside path relative not_dots low)
    ∙ ap ok (
        joined_at (names_of root) (names_of path) deep some_names
        ∙ ap₂ (λ (a b : Text). a ++ (b'/' ∷ b)) (sym (clean_of_abs root absolute)) same)
