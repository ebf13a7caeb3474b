-- ===== src/Path/Machine.antt =====
-- What `.` and `..` do to the elements of a path.
use mathlib.Core.List.{foldl, reverse, reverse-cons}
use mathlib.Core.Bool.{or-true, true≢false}
use cabure.Base.{
  ==_comm, ◌⊎◌, ◌≡◌, refl, ap, sym, ◌∙◌, arith, Bool, true, false, List, [], ◌∷◌, ◌++◌, ◌==◌,
  list_eq, nat_eq, contains, ==_refl, All, Bool-cases, inl, inr, append_assoc,
}
use cabure.Text.{Text}
use cabure.Text.Pieces.{Lacks}
use cabure.Path.{push, step_up, dot, dot_dot}

-- A proper name: not empty, no dots, no slash.
pub record IsName (x : Text) : Type 0 where
  pub full : (x == []) ≡ false
  pub no_dot : (x == dot) ≡ false
  pub no_dot_dot : (x == dot_dot) ≡ false
  pub no_slash : Lacks b'/' x

-- Work off a list of elements, onto those that are there.
abbrev pub work : Bool → List Text → List Text → List Text
work rooted stack [] = stack
work rooted stack (s ∷ segments) = work rooted (push rooted stack s) segments

pub foldl-work :
    (rooted : Bool) (stack segments : List Text)
    → foldl (push rooted) stack segments ≡ work rooted stack segments
foldl-work rooted stack [] = refl
foldl-work rooted stack (s ∷ segments) = foldl-work rooted (push rooted stack s) segments

pub work-append :
    (rooted : Bool) (stack xs ys : List Text)
    → work rooted stack (xs ++ ys) ≡ work rooted (work rooted stack xs) ys
work-append rooted stack [] ys = refl
work-append rooted stack (x ∷ xs) ys = work-append rooted (push rooted stack x) xs ys

pub push_of_IsName :
    (rooted : Bool) (stack : List Text) (x : Text) → IsName x → push rooted stack x ≡ x ∷ stack
unfolding push
push_of_IsName rooted stack x n = rw (n.full, n.no_dot, n.no_dot_dot)

reverse-onto :
    (x : Text) (xs stack : List Text) → reverse xs ++ (x ∷ stack) ≡ reverse (x ∷ xs) ++ stack
reverse-onto x xs stack =
    sym (ap (λ l. l ++ stack) (reverse-cons x xs) ∙ append_assoc (reverse xs) (x ∷ []) stack)

-- Names are pushed one by one.
pub work_of_names :
    (rooted : Bool) (stack xs : List Text)
    → All IsName xs
    → work rooted stack xs ≡ reverse xs ++ stack
work_of_names rooted stack [] h = refl
work_of_names rooted stack (x ∷ xs) h =
    rw (push_of_IsName rooted stack x h.0)
      (work_of_names rooted (x ∷ stack) xs h.1 ∙ reverse-onto x xs stack)

step_up-IsName : (stack : List Text) → All IsName stack → All IsName (step_up true stack)
unfolding step_up
step_up-IsName [] h = tt
step_up-IsName (y ∷ stack) h = rw (h.0.no_dot_dot) (h.1)

push-IsName :
    (stack : List Text) (x : Text)
    → Lacks b'/' x
    → All IsName stack
    → All IsName (push true stack x)
unfolding push
push-IsName stack x l h = elim (Bool-cases (x == [])) [
  | inl e ↦ rw e h
  | inr full ↦ elim (Bool-cases (x == dot)) [
    | inl e ↦ rw (full, e) h
    | inr no_dot ↦ elim (Bool-cases (x == dot_dot)) [
      | inl e ↦ rw (full, no_dot, e) (step_up-IsName stack h)
      | inr no_dot_dot ↦
          rw (full, no_dot, no_dot_dot)
            (record { full = full; no_dot = no_dot; no_dot_dot = no_dot_dot; no_slash = l }, h)
    ]
  ]
]

-- At the root only names are left.
pub work-IsName :
    (stack segments : List Text)
    → All (Lacks b'/') segments
    → All IsName stack
    → All IsName (work true stack segments)
work-IsName stack [] l h = h
work-IsName stack (s ∷ segments) l h =
    work-IsName (push true stack s) segments l.1 (push-IsName stack s l.0 h)

-- What an element does, whatever the path so far: nothing, a step up, or a push.
pub push_cases :
    (x : Text)
    → ((rooted : Bool) (stack : List Text) → push rooted stack x ≡ stack)
      ⊎ ((rooted : Bool) (stack : List Text) → push rooted stack x ≡ step_up rooted stack)
      ⊎ (((x == dot_dot) ≡ false)
          × ((rooted : Bool) (stack : List Text) → push rooted stack x ≡ x ∷ stack))
unfolding push
push_cases x = elim (Bool-cases (x == [])) [
  | inl e ↦ inl (λ rooted stack. rw e)
  | inr full ↦ elim (Bool-cases (x == dot)) [
    | inl e ↦ inl (λ rooted stack. rw (full, e))
    | inr no_dot ↦ elim (Bool-cases (x == dot_dot)) [
      | inl e ↦ inr (inl (λ rooted stack. rw (full, no_dot, e)))
      | inr no_dot_dot ↦ inr (inr (no_dot_dot, λ rooted stack. rw (full, no_dot, no_dot_dot)))
    ]
  ]
]

step_up_keeps_dots :
    (stack : List Text)
    → contains stack dot_dot ≡ true
    → contains (step_up false stack) dot_dot ≡ true
unfolding step_up
step_up_keeps_dots [] h = cc
step_up_keeps_dots (y ∷ stack) h = elim (Bool-cases (y == dot_dot)) [
  | inl e ↦ rw (e, ==_refl dot_dot)
  | inr e ↦ rw e (rw (==_comm dot_dot y, e) at h)
]

-- Once a `..` is left over, it stays.
push_keeps_dots :
    (stack : List Text) (x : Text)
    → contains stack dot_dot ≡ true
    → contains (push false stack x) dot_dot ≡ true
push_keeps_dots stack x h = elim (push_cases x) [
  | inl e ↦ rw (e false stack) h
  | inr (inl e) ↦ rw (e false stack) (step_up_keeps_dots stack h)
  | inr (inr (_, e)) ↦ rw (e false stack, h) (or-true (dot_dot == x))
]

work_keeps_dots :
    (stack segments : List Text)
    → contains stack dot_dot ≡ true
    → contains (work false stack segments) dot_dot ≡ true
work_keeps_dots stack [] h = h
work_keeps_dots stack (s ∷ segments) h =
    work_keeps_dots (push false stack s) segments (push_keeps_dots stack s h)

step_up-onto :
    (stack base : List Text)
    → contains (step_up false stack) dot_dot ≡ false
    → step_up true (stack ++ base) ≡ step_up false stack ++ base
unfolding step_up
step_up-onto [] base h = absurd (true≢false (sym (rw (==_refl dot_dot)) ∙ h))
step_up-onto (y ∷ stack) base h = elim (Bool-cases (y == dot_dot)) [ inl e ↦ rw e | inr e ↦ rw e ]

push-onto :
    (stack base : List Text) (s : Text)
    → contains (push false stack s) dot_dot ≡ false
    → push true (stack ++ base) s ≡ push false stack s ++ base
push-onto stack base s h = elim (push_cases s) [
  | inl e ↦ rw (e false stack, e true (stack ++ base))
  | inr (inl e) ↦
      rw (e false stack, e true (stack ++ base)) (step_up-onto stack base (rw (e false stack) at h))
  | inr (inr (_, e)) ↦ rw (e false stack, e true (stack ++ base))
]

-- A relative path that leaves no `..` over does the same on top of other elements.
pub work-onto :
    (stack base segments : List Text)
    → contains (work false stack segments) dot_dot ≡ false
    → work true (stack ++ base) segments ≡ work false stack segments ++ base
work-onto stack base [] h = refl
work-onto stack base (s ∷ segments) h =
    ap (λ l. work true l segments)
      (push-onto stack base s (elim (Bool-cases (contains (push false stack s) dot_dot)) [
        | inl e ↦ absurd (ground (arith, work_keeps_dots (push false stack s) segments e))
        | inr e ↦ e
      ]))
    ∙ work-onto (push false stack s) base segments h
