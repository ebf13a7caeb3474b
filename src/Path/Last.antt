-- ===== src/Path/Last.antt =====
-- The last element of a path that `filepath.Join` makes.
use mathlib.Core.List.{reverse, reverse-cons}
use cabure.Base.{
  ◌≡◌, refl, ap, sym, ◌∙◌, Bool-cases, inl, inr, List, [], ◌∷◌, ◌++◌, ◌==◌, list_eq, nat_eq, ==_iff,
  length, length-append, append_assoc, arith,
}
use cabure.Text.{Text, join, split}
use cabure.Text.Pieces.{split-append, split_of_Lacks}
use cabure.Path.{separator, is_abs, elements, clean, join_path}
use cabure.Path.Machine.{IsName, work, work-append, push_of_IsName}
use cabure.Path.Rooted.{elements_of_abs, elements_of_rel}

-- The text ends so.
abbrev pub EndsWith : Text → Text → Type 0
EndsWith x p = (before : Text) × (p ≡ before ++ x)

EndsWith-after : (a : Text) {x p : Text} → EndsWith x p → EndsWith x (a ++ p)
EndsWith-after a {x} (before, e) = (a ++ before, ap (a ++◌) e ∙ sym (append_assoc a before x))

join-EndsWith : (xs : List Text) (x : Text) → EndsWith x (join separator (xs ++ (x ∷ [])))
unfolding join
join-EndsWith [] x = ([], refl)
join-EndsWith (y ∷ []) x = EndsWith-after y (EndsWith-after separator ([], refl))
join-EndsWith (y ∷ z ∷ xs) x =
    EndsWith-after y (EndsWith-after separator (join-EndsWith (z ∷ xs) x))

elements-work : (path : Text) → elements path ≡ work (is_abs path) [] (split b'/' path)
elements-work path = elim (Bool-cases (is_abs path)) [
  | inl t ↦ rw t (elements_of_abs path t)
  | inr f ↦ rw f (elements_of_rel path f)
]

-- The last element of such a path, and the ones before it.
pub elements-name :
    (dir x : Text)
    → IsName x
    → elements (dir ++ (b'/' ∷ x)) ≡ x ∷ work (is_abs (dir ++ (b'/' ∷ x))) [] (split b'/' dir)
elements-name dir x n =
    let path = dir ++ (b'/' ∷ x) in
    let stack = work (is_abs path) [] (split b'/' dir) in
    elements-work path
    ∙ ap (work (is_abs path) [])
        (split-append b'/' dir x ∙ ap (split b'/' dir ++◌) (split_of_Lacks b'/' x n.no_slash))
    ∙ work-append (is_abs path) [] (split b'/' dir) (x ∷ [])
    ∙ push_of_IsName (is_abs path) stack x n

body-EndsWith : (x : Text) (stack : List Text) → EndsWith x (join separator (reverse (x ∷ stack)))
body-EndsWith x stack = rw (reverse-cons x stack) (join-EndsWith (reverse stack) x)

right_empty : (a b : Text) → a ++ b ≡ [] → b ≡ []
right_empty [] b h = h
right_empty (c ∷ a) b h = cc

clean-EndsWith :
    (path x : Text) (stack : List Text)
    → IsName x
    → elements path ≡ x ∷ stack
    → EndsWith x (clean path)
unfolding clean
clean-EndsWith path x stack n e =
    let ends = body-EndsWith x stack in
    let body = join separator (reverse (x ∷ stack)) in
    rw e (elim (Bool-cases (is_abs path)) [
      | inl t ↦ rw t (EndsWith-after (b'/' ∷ []) ends)
      | inr f ↦ elim (Bool-cases (body == [])) [
        | inl empty ↦
            let gone = right_empty ends.0 x (sym ends.1 ∙ (==_iff body []).0 empty) in
            absurd (ground (arith, n.full, (==_iff x []).1 gone))
        | inr full ↦ rw (f, full) ends
      ]
    ])

pub join_path-EndsWith : (dir x : Text) → IsName x → EndsWith x (join_path dir x)
unfolding join_path
join_path-EndsWith dir x n = elim (Bool-cases (dir == [])) [
  | inl none_given ↦
      rw (none_given, n.full)
        (clean-EndsWith x x [] n (
          elements-work x
          ∙ ap (work (is_abs x) []) (split_of_Lacks b'/' x n.no_slash)
          ∙ push_of_IsName (is_abs x) [] x n))
  | inr given ↦ rw given (clean-EndsWith (dir ++ (b'/' ∷ x)) x _ n (elements-name dir x n))
]

same_end : (a b x y : Text) → a ++ x ≡ b ++ y → length x ≡ length y → x ≡ y
same_end [] [] x y h l = h
same_end [] (c ∷ b) x y h l = absurd (omega (arith, ap length h, length-append b y, l))
same_end (c ∷ a) [] x y h l = absurd (omega (arith, ap length h, length-append a x, l))
same_end (c ∷ a) (d ∷ b) x y h l = (let tails : a ++ x ≡ b ++ y = cc in same_end a b x y tails l)

-- Names of one length are told apart by the paths that they are joined to.
pub join_path_injective :
    (dir x y : Text)
    → IsName x
    → IsName y
    → length x ≡ length y
    → join_path dir x ≡ join_path dir y
    → x ≡ y
join_path_injective dir x y nx ny l e =
    let (a, ea) = join_path-EndsWith dir x nx in
    let (b, eb) = join_path-EndsWith dir y ny in same_end a b x y (sym ea ∙ e ∙ eb) l
