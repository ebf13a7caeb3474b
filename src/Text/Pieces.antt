-- ===== src/Text/Pieces.antt =====
-- `Split` and `Join` at a separator of one byte.
use cabure.Base.{
  ℕ, ◌≡◌, refl, ap, sym, ◌∙◌, subst, false, List, [], ◌∷◌, ◌++◌, ◌==◌, nat_eq, ==_refl, All,
  Bool-cases, inl, inr, append_assoc,
}
use cabure.Text.{Text, split, join, onto_first}

-- A text without this byte.
abbrev pub Lacks : ℕ → Text → Type 0
Lacks b s = All (λ c. (c == b) ≡ false) s

module _ (sep : ℕ) where
  split-cons : (s : Text) → (p : Text) × (ps : List Text) × (split sep s ≡ p ∷ ps)
  unfolding split
  split-cons [] = ([], [], refl)
  split-cons (c ∷ s) = elim (Bool-cases (c == sep)) [
    | inl e ↦ ([], split sep s, rw e)
    | inr e ↦ let (p, ps, h) = split-cons s in (c ∷ p, ps, rw (e, h))
  ]

  onto_first-append :
      (c : ℕ) (s : Text) (ps : List Text)
      → onto_first c (split sep s ++ ps) ≡ onto_first c (split sep s) ++ ps
  onto_first-append c s ps = let (q, qs, h) = split-cons s in rw h

  -- The pieces of two texts with a separator between them.
  pub split-append : (a b : Text) → split sep (a ++ (sep ∷ b)) ≡ split sep a ++ split sep b
  unfolding split
  split-append [] b = rw (==_refl sep)
  split-append (c ∷ a) b = elim (Bool-cases (c == sep)) [
    | inl e ↦ rw e (ap (◌∷◌ []) (split-append a b))
    | inr e ↦ rw e (ap (onto_first c) (split-append a b) ∙ onto_first-append c a (split sep b))
  ]

  pub split-Lacks : (s : Text) → All (Lacks sep) (split sep s)
  unfolding split
  split-Lacks [] = (tt, tt)
  split-Lacks (c ∷ s) = elim (Bool-cases (c == sep)) [
    | inl e ↦ rw e (tt, split-Lacks s)
    | inr e ↦
        let (p, ps, h) = split-cons s in
        let ih : All (Lacks sep) (p ∷ ps) = subst (All (Lacks sep)) h (split-Lacks s) in
        rw (e, h) ((e, ih.0), ih.1)
  ]

  -- A text without separators is one piece.
  pub split_of_Lacks : (s : Text) → Lacks sep s → split sep s ≡ s ∷ []
  unfolding split
  split_of_Lacks [] h = refl
  split_of_Lacks (c ∷ s) h = rw (h.0, split_of_Lacks s h.1)

  -- Pieces without separators are those of their join.
  pub split-join :
      (p : Text) (ps : List Text)
      → All (Lacks sep) (p ∷ ps)
      → split sep (join (sep ∷ []) (p ∷ ps)) ≡ p ∷ ps
  unfolding join
  split-join p [] h = split_of_Lacks p h.0
  split-join p (q ∷ ps) h =
      split-append p (join (sep ∷ []) (q ∷ ps))
      ∙ (rw (split_of_Lacks p h.0) (ap (◌∷◌ p) (split-join q ps h.1)))

  pub join-append :
      (p : Text) (ps : List Text) (q : Text) (qs : List Text)
      → join (sep ∷ []) ((p ∷ ps) ++ (q ∷ qs))
        ≡ join (sep ∷ []) (p ∷ ps) ++ (sep ∷ join (sep ∷ []) (q ∷ qs))
  unfolding join
  join-append p [] q qs = refl
  join-append p (r ∷ ps) q qs =
      ap (λ t. p ++ (sep ∷ t)) (join-append r ps q qs)
      ∙ sym (append_assoc p (sep ∷ join (sep ∷ []) (r ∷ ps)) (sep ∷ join (sep ∷ []) (q ∷ qs)))
