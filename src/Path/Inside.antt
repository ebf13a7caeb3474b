-- ===== src/Path/Inside.antt =====
-- `ResolveWithinRoot` below an absolute root: what it returns lies below the root, and paths that
-- do not climb out of it are resolved.
use mathlib.Core.List.{reverse, reverse-append, append-nil, head-eq_of_cons-eq, tail-eq_of_cons-eq}
use mathlib.Core.Bool.{true≢false}
use cabure.Base.{
  ℕ, ◌≡◌, ◌≢◌, refl, ap, sym, ◌∙◌, subst, true, false, ◌⊎◌, inl, inr, List, [], ◌∷◌, ◌++◌, ◌==◌,
  list_eq, nat_eq, ==_iff, contains, All, All-map, All-reverse, All-append_right, ok, arith,
  append_assoc,
}
use cabure.Text.{Text, split, join, has_prefix}
use cabure.Text.Prefix.{has_prefix-append, has_prefix-split}
use cabure.Text.Pieces.{split-Lacks, split-append, join-append, split-join, Lacks}
use cabure.Path.{separator, dot_dot, elements, clean, is_abs, join_path, resolve_within_root}
use cabure.Path.Machine.{IsName, work, work-onto, work-IsName}
use cabure.Path.Shape.{work-DotsFirst}
use cabure.Path.Rooted.{
  rooted_path, names_of, names_of-IsName, clean_of_abs, clean_of_rel, relative_path, clean-join,
  elements_of_rel, elements-IsName,
}

-- A test of `ResolveWithinRoot` that it passed, or the error.
resolve_cases :
    (root rel p : Text)
    → resolve_within_root root rel ≡ ok p
    → (p ≡ clean (join_path root rel))
      × ((p ≡ clean root) ⊎ (has_prefix p (clean root ++ separator) ≡ true))
unfolding resolve_within_root
resolve_cases root rel p h = ground arith

resolve_of_test :
    (root rel : Text)
    → (rel == []) ≡ false
    → ((clean (join_path root rel) ≡ clean root)
        ⊎ (has_prefix (clean (join_path root rel)) (clean root ++ separator) ≡ true))
    → resolve_within_root root rel ≡ ok (clean (join_path root rel))
unfolding resolve_within_root
resolve_of_test root rel full t = ground arith

no_slashes : (names : List Text) → All IsName names → All (Lacks b'/') names
no_slashes names h = All-map IsName (Lacks b'/') names (λ y n. n.no_slash) h

append-cons_ne_nil : (s t : Text) (c : ℕ) → [] ≢ s ++ (c ∷ t)
append-cons_ne_nil [] t c e = cc
append-cons_ne_nil (d ∷ s) t c e = cc

-- The names of a path that goes on behind the slash after another.
joined_below :
    (a b : List Text) (t : Text)
    → All IsName a
    → All IsName b
    → join separator b ≡ join separator a ++ (b'/' ∷ t)
    → (q : List Text) × (b ≡ a ++ q)
unfolding split join
joined_below a [] t ha hb e = absurd (append-cons_ne_nil (join separator a) t b'/' e)
joined_below [] (y ∷ b) t ha hb e =
    let names : y ∷ b ≡ [] ∷ split b'/' t =
      sym (split-join b'/' y b (no_slashes (y ∷ b) hb))
      ∙ ap (split b'/') e
      ∙ split-append b'/' [] t in
    absurd (true≢false (sym ((==_iff y []).1 (head-eq_of_cons-eq names)) ∙ hb.0.full))
joined_below (x ∷ a) (y ∷ b) t ha hb e = (
  split b'/' t,
  sym (split-join b'/' y b (no_slashes (y ∷ b) hb))
      ∙ ap (split b'/') e
      ∙ split-append b'/' (join separator (x ∷ a)) t
      ∙ ap (λ l. l ++ split b'/' t) (split-join b'/' x a (no_slashes (x ∷ a) ha)),
)

-- A path that a rooted path with a slash behind it is a prefix of goes on with more names.
below_rooted :
    (a b : List Text)
    → All IsName a
    → All IsName b
    → has_prefix (rooted_path b) (rooted_path a ++ separator) ≡ true
    → (q : List Text) × (b ≡ a ++ q)
below_rooted a b ha hb h =
    let (t, e) = has_prefix-split (rooted_path b) (rooted_path a ++ separator) h in
    joined_below a b t ha hb (tail-eq_of_cons-eq e ∙ append_assoc (join separator a) separator t)

rooted_below :
    (a b : List Text)
    → a ≢ []
    → (rooted_path (a ++ b) ≡ rooted_path a)
      ⊎ (has_prefix (rooted_path (a ++ b)) (rooted_path a ++ separator) ≡ true)
rooted_below [] b h = absurd (h refl)
rooted_below (x ∷ a) [] h = inl (ap rooted_path (append-nil (x ∷ a)))
rooted_below (x ∷ a) (y ∷ b) h =
    let longer : rooted_path ((x ∷ a) ++ (y ∷ b))
        ≡ (rooted_path (x ∷ a) ++ separator) ++ join separator (y ∷ b) =
      ap (λ t. b'/' ∷ t) (join-append b'/' x a y b)
      ∙ sym (append_assoc (rooted_path (x ∷ a)) separator (join separator (y ∷ b))) in
    inr (rw longer (has_prefix-append (rooted_path (x ∷ a) ++ separator) (join separator (y ∷ b))))

module _ (root : Text) (absolute : is_abs root ≡ true) where
  -- What is resolved is the root with proper names below it, none of them `..`.
  pub resolve_within_root-inside :
      (rel : Text) {p : Text}
      → resolve_within_root root rel ≡ ok p
      → (q : List Text) × All IsName q × (p ≡ rooted_path (names_of root ++ q))
  resolve_within_root-inside rel {p} h =
      let names = reverse (work true (elements root) (split b'/' rel)) in
      let proper : All IsName names = All-reverse IsName _ (
        work-IsName (elements root) (split b'/' rel) (split-Lacks b'/' rel)
          (elements-IsName root absolute)) in
      let (same, test) = resolve_cases root rel p h in
      let shape : p ≡ rooted_path names = same ∙ clean-join root rel absolute in
      elim test [
        | inl at_root ↦ (
          [],
          tt,
          at_root ∙ clean_of_abs root absolute ∙ ap rooted_path (sym (append-nil (names_of root))),
        )
        | inr below ↦
            let prefixed : has_prefix (rooted_path names) (rooted_path (names_of root) ++ separator)
                ≡ true =
              subst (λ t. has_prefix t (rooted_path (names_of root) ++ separator) ≡ true) shape
                (subst (λ t. has_prefix p (t ++ separator) ≡ true) (clean_of_abs root absolute)
                  below) in
            let (q, e) =
              below_rooted (names_of root) names (names_of-IsName root absolute) proper prefixed in
            (
              q,
              All-append_right IsName (names_of root) q (subst (All IsName) e proper),
              shape ∙ ap rooted_path e,
            )
      ]

  -- A relative path that stays inside is resolved to its names below those of the root.
  pub resolve_within_root-relative :
      (rel : Text)
      → names_of root ≢ []
      → (rel == []) ≡ false
      → is_abs rel ≡ false
      → contains (elements rel) dot_dot ≡ false
      → resolve_within_root root rel ≡ ok (rooted_path (names_of root ++ names_of rel))
  resolve_within_root-relative rel deep full relative no_dots =
      let joined : clean (join_path root rel) ≡ rooted_path (names_of root ++ names_of rel) =
        clean-join root rel absolute
        ∙ ap (λ l. rooted_path (reverse l))
            (work-onto [] (elements root) (split b'/' rel)
              (subst (λ l. contains l dot_dot ≡ false) (elements_of_rel rel relative) no_dots))
        ∙ ap (λ l. rooted_path (reverse (l ++ elements root))) (sym (elements_of_rel rel relative))
        ∙ ap rooted_path (reverse-append (elements rel) (elements root)) in
      resolve_of_test root rel full
        (rw (joined, clean_of_abs root absolute) (rooted_below (names_of root) (names_of rel) deep))
      ∙ ap ok joined

clean_dots_first :
    (rel : Text) (rest : List Text)
    → is_abs rel ≡ false
    → names_of rel ≡ dot_dot ∷ rest
    → (clean rel ≡ dot_dot) ⊎ (has_prefix (clean rel) (dot_dot ++ separator) ≡ true)
unfolding join list_eq
clean_dots_first rel [] relative e = inl (clean_of_rel rel relative ∙ ap relative_path e)
clean_dots_first rel (r ∷ rest) relative e = inr (
    subst (λ t. has_prefix t (dot_dot ++ separator) ≡ true)
      (sym (clean_of_rel rel relative ∙ ap relative_path e))
      (has_prefix-append (dot_dot ++ separator) (join separator (r ∷ rest))))

-- A relative path that climbs out is cleaned to one that begins with `..` as an element.
pub clean_dots :
    (rel : Text)
    → is_abs rel ≡ false
    → contains (elements rel) dot_dot ≡ true
    → (clean rel ≡ dot_dot) ⊎ (has_prefix (clean rel) (dot_dot ++ separator) ≡ true)
clean_dots rel relative dots =
    let (rest, e) =
      work-DotsFirst [] (split b'/' rel) (λ h. cc)
        (subst (λ l. contains l dot_dot ≡ true) (elements_of_rel rel relative) dots) in
    clean_dots_first rel rest relative (ap reverse (elements_of_rel rel relative) ∙ e)
