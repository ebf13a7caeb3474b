-- ===== src/Options/Prefixes.antt =====
-- What the allowed prefixes are.
use mathlib.Core.Bool.{true≢false}
use cabure.Base.{
  ℕ, ◌≢◌, sym, ◌∙◌, List, [], ◌∷◌, ◌==◌, list_eq, nat_eq, ==_iff, All, Bool-cases, inl, inr, arith,
}
use cabure.Text.{Text, split, trim_left, trim_right, trim_space}
use cabure.Text.Pieces.{Lacks, split-Lacks}
use cabure.Options.{kept, split_allowed_prefixes}

module _ (b : ℕ) where
  trim_left-Lacks : (s : Text) → Lacks b s → Lacks b (trim_left s)
  unfolding trim_left
  trim_left-Lacks [] h = tt
  trim_left-Lacks (c ∷ s) h = ground (arith, trim_left-Lacks s h.1)

  trim_right-Lacks : (s : Text) → Lacks b s → Lacks b (trim_right s)
  unfolding trim_right
  trim_right-Lacks [] h = tt
  trim_right-Lacks (c ∷ s) h = ground (arith, trim_right-Lacks s h.1)

  trim_space-Lacks : (s : Text) → Lacks b s → Lacks b (trim_space s)
  unfolding trim_space
  trim_space-Lacks s h = trim_right-Lacks (trim_left s) (trim_left-Lacks s h)

-- A prefix that can be compared with a repository: not empty, and no comma in it.
abbrev pub IsPrefix : Text → Type 0
IsPrefix p = (p ≢ []) × Lacks b',' p

kept-IsPrefix : (pieces : List Text) → All (Lacks b',') pieces → All IsPrefix (kept pieces)
unfolding kept
kept-IsPrefix [] h = tt
kept-IsPrefix (p ∷ pieces) h = elim (Bool-cases (trim_space p == [])) [
  | inl t ↦ rw t (kept-IsPrefix pieces h.1)
  | inr f ↦ rw f (
    ((λ e. true≢false (sym ((==_iff (trim_space p) []).1 e) ∙ f)), trim_space-Lacks b',' p h.0),
    kept-IsPrefix pieces h.1,
  )
]

-- Whatever the flag is, each allowed prefix is a text that is not empty and has no comma, so no
-- prefix allows every repository.
pub split_allowed_prefixes-IsPrefix : (raw : Text) → All IsPrefix (split_allowed_prefixes raw)
unfolding split_allowed_prefixes
split_allowed_prefixes-IsPrefix raw = elim (Bool-cases (trim_space raw == [])) [
  | inl t ↦ rw t tt
  | inr f ↦ rw f (kept-IsPrefix (split b',' (trim_space raw)) (split-Lacks b',' (trim_space raw)))
]
