-- ===== src/Options/Printed.antt =====
-- Prefixes that are written with commas, as for the flag, are read back (cmd/main.go).
use cabure.Base.{
  ℕ, ◌≡◌, ◌≢◌, refl, sym, ap, ◌∙◌, Bool, true, false, Bool-cases, inl, inr, List, [], ◌∷◌, ◌++◌,
  ◌==◌, list_eq, nat_eq, ==_iff, All, All-map, length, ◌≤◌, if◌then◌else◌, arith,
}
use cabure.Text.{Text, join, is_space, trim_left, trim_right, trim_space}
use cabure.Text.Pieces.{Lacks, split-join}
use cabure.Options.{kept, split_allowed_prefixes}

-- A prefix as it is meant: not empty, with no comma, and with no space at its ends.
pub record IsPlain (p : Text) : Type 0 where
  pub full : p ≢ []
  pub no_comma : Lacks b',' p
  pub starts : trim_left p ≡ p
  pub ends : trim_right p ≡ p

length-trim_left : (s : Text) → length (trim_left s) ≤ length s
unfolding trim_left
length-trim_left [] = omega arith
length-trim_left (c ∷ s) = ground (arith, length-trim_left s)

trim_left-front : (p rest : Text) → p ≢ [] → trim_left p ≡ p → trim_left (p ++ rest) ≡ p ++ rest
unfolding trim_left
trim_left-front [] rest full h = absurd (full refl)
trim_left-front (c ∷ p) rest full h = elim (Bool-cases (is_space c)) [
  | inl space ↦
      let shorter : trim_left p ≡ c ∷ p =
        sym (ap (λ (b : Bool). elim b [ true ↦ trim_left p | false ↦ c ∷ p ]) space) ∙ h in
      absurd (omega (arith, ap length shorter, length-trim_left p))
  | inr other ↦
      ap (λ (b : Bool). elim b [ true ↦ trim_left (p ++ rest) | false ↦ c ∷ (p ++ rest) ]) other
]

trim_right-cons :
    (c d : ℕ) (s : Text) → trim_right (d ∷ s) ≡ d ∷ s → trim_right (c ∷ d ∷ s) ≡ c ∷ d ∷ s
unfolding trim_right
trim_right-cons c d s h =
    ap (λ (rest : Text). elim rest [ [] ↦ if is_space c then [] else c ∷ [] | e ∷ r ↦ c ∷ e ∷ r ]) h

trim_right-back : (a p : Text) → p ≢ [] → trim_right p ≡ p → trim_right (a ++ p) ≡ a ++ p
trim_right-back [] p full h = h
trim_right-back (c ∷ []) [] full h = absurd (full refl)
trim_right-back (c ∷ []) (d ∷ p) full h = trim_right-cons c d p h
trim_right-back (c ∷ d ∷ a) p full h =
    trim_right-cons c d (a ++ p) (trim_right-back (d ∷ a) p full h)

join-full : (p : Text) (ps : List Text) → p ≢ [] → join (b',' ∷ []) (p ∷ ps) ≢ []
unfolding join
join-full p [] h = h
join-full [] (q ∷ ps) h = absurd (h refl)
join-full (c ∷ p) (q ∷ ps) h = λ e. cc

-- The ends of what is joined are those of its first and its last piece.
trim_right-join :
    (p : Text) (ps : List Text)
    → IsPlain p
    → All IsPlain ps
    → trim_right (join (b',' ∷ []) (p ∷ ps)) ≡ join (b',' ∷ []) (p ∷ ps)
unfolding join
trim_right-join p [] h hs = h.ends
trim_right-join p (q ∷ ps) h hs =
    let rest = join (b',' ∷ []) (q ∷ ps) in
    trim_right-back p (b',' ∷ rest) (λ e. cc)
      (trim_right-back (b',' ∷ []) rest (join-full q ps hs.0.full) (trim_right-join q ps hs.0 hs.1))

trim_left-join :
    (p : Text) (ps : List Text)
    → IsPlain p
    → trim_left (join (b',' ∷ []) (p ∷ ps)) ≡ join (b',' ∷ []) (p ∷ ps)
unfolding join
trim_left-join p [] h = h.starts
trim_left-join p (q ∷ ps) h = trim_left-front p (b',' ∷ join (b',' ∷ []) (q ∷ ps)) h.full h.starts

trim_space-join :
    (p : Text) (ps : List Text)
    → IsPlain p
    → All IsPlain ps
    → trim_space (join (b',' ∷ []) (p ∷ ps)) ≡ join (b',' ∷ []) (p ∷ ps)
unfolding trim_space
trim_space-join p ps h hs = ap trim_right (trim_left-join p ps h) ∙ trim_right-join p ps h hs

trim_space-IsPlain : (p : Text) → IsPlain p → trim_space p ≡ p
unfolding trim_space
trim_space-IsPlain p h = ap trim_right h.starts ∙ h.ends

not_empty : (p : Text) → p ≢ [] → (p == []) ≡ false
not_empty p h = elim (Bool-cases (p == [])) [ inl t ↦ absurd (h ((==_iff p []).0 t)) | inr f ↦ f ]

kept-IsPlain : (ps : List Text) → All IsPlain ps → kept ps ≡ ps
unfolding kept
kept-IsPlain [] h = refl
kept-IsPlain (p ∷ ps) h =
    rw (trim_space-IsPlain p h.0, not_empty p h.0.full) (ap (p ∷◌) (kept-IsPlain ps h.1))

-- The flag for allowed prefixes is read as it was written: prefixes that are not empty, have no comma, and
-- no space at their ends come back from the text that joins them with commas, all of them and in order;
-- and no prefixes from the empty text.
pub split_allowed_prefixes-join :
    (ps : List Text) → All IsPlain ps → split_allowed_prefixes (join (b',' ∷ []) ps) ≡ ps
unfolding split_allowed_prefixes join trim_left trim_right list_eq nat_eq
split_allowed_prefixes-join [] h = refl
split_allowed_prefixes-join (p ∷ ps) h =
    rw
      (
        trim_space-join p ps h.0 h.1,
        not_empty _ (join-full p ps h.0.full),
        split-join b',' p ps (h.0.no_comma, All-map _ _ ps (λ q k. k.no_comma) h.1),
      )
      (kept-IsPlain (p ∷ ps) h)
