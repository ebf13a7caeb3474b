-- ===== src/Path/Shape.antt =====
-- In a relative path that leaves a `..` over, the first element is one.
use mathlib.Core.List.{reverse, reverse-cons, head-eq_of_cons-eq}
use cabure.Base.{
  ◌≡◌, refl, ap, sym, ◌∙◌, true, false, List, [], ◌∷◌, ◌++◌, ◌==◌, list_eq, nat_eq, contains,
  ==_comm, Bool-cases, inl, inr,
}
use cabure.Text.{Text}
use cabure.Path.{push, step_up, dot_dot}
use cabure.Path.Machine.{push_cases, work}

-- The first element is `..` if any is.
abbrev pub DotsFirst : List Text → Type 0
DotsFirst stack =
    contains stack dot_dot ≡ true → (rest : List Text) × (reverse stack ≡ dot_dot ∷ rest)

snoc-cons : (xs : List Text) (w : Text) → (z : Text) × (zs : List Text) × (xs ++ (w ∷ []) ≡ z ∷ zs)
snoc-cons [] w = (w, [], refl)
snoc-cons (x ∷ xs) w = (x, xs ++ (w ∷ []), refl)

cons-DotsFirst :
    (x : Text) (stack : List Text)
    → contains stack dot_dot ≡ true
    → DotsFirst stack
    → DotsFirst (x ∷ stack)
cons-DotsFirst x stack h d _ =
    let (rest, e) = d h in (rest ++ (x ∷ []), reverse-cons x stack ∙ ap (λ l. l ++ (x ∷ [])) e)

-- What stands below a proper name.
tail-DotsFirst :
    (y : Text) (stack : List Text)
    → (y == dot_dot) ≡ false
    → DotsFirst (y ∷ stack)
    → DotsFirst stack
tail-DotsFirst y [] e d h = cc
tail-DotsFirst y (w ∷ stack) e d h =
    let (rest, r) = d (rw (==_comm dot_dot y, e) h) in
    let (z, zs, s) = snoc-cons (reverse stack) w in
    let t : reverse (w ∷ stack) ≡ z ∷ zs = reverse-cons w stack ∙ s in
    let u : z ∷ (zs ++ (y ∷ [])) ≡ dot_dot ∷ rest =
      sym (ap (λ l. l ++ (y ∷ [])) t) ∙ sym (reverse-cons y (w ∷ stack)) ∙ r in
    (zs, t ∙ ap (λ q. q ∷ zs) (head-eq_of_cons-eq u))

step_up-DotsFirst : (stack : List Text) → DotsFirst stack → DotsFirst (step_up false stack)
unfolding step_up
step_up-DotsFirst [] d = λ h. ([], refl)
step_up-DotsFirst (y ∷ stack) d = elim (Bool-cases (y == dot_dot)) [
  | inl e ↦ rw e (cons-DotsFirst dot_dot (y ∷ stack) (rw (==_comm dot_dot y, e)) d)
  | inr e ↦ rw e (tail-DotsFirst y stack e d)
]

push-DotsFirst : (stack : List Text) (x : Text) → DotsFirst stack → DotsFirst (push false stack x)
push-DotsFirst stack x d = elim (push_cases x) [
  | inl e ↦ rw (e false stack) d
  | inr (inl e) ↦ rw (e false stack) (step_up-DotsFirst stack d)
  | inr (inr (no_dot_dot, e)) ↦ rw (e false stack) λ h.
      let below : contains stack dot_dot ≡ true = rw (==_comm dot_dot x, no_dot_dot) at h in
      cons-DotsFirst x stack below d h
]

pub work-DotsFirst :
    (stack segments : List Text) → DotsFirst stack → DotsFirst (work false stack segments)
work-DotsFirst stack [] d = d
work-DotsFirst stack (s ∷ segments) d =
    work-DotsFirst (push false stack s) segments (push-DotsFirst stack s d)
