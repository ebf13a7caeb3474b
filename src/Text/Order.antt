-- ===== src/Text/Order.antt =====
-- The bytewise order of texts is total.
use cabure.Base.{◌≡◌, Bool, true, false, [], ◌∷◌, arith}
use cabure.Base.Sort.{IsWeakOrder}
use cabure.Text.{Text, text_lt}

text_lt_asym : (s t : Text) → text_lt s t ≡ true → text_lt t s ≡ false
unfolding text_lt
text_lt_asym [] [] h = cc
text_lt_asym [] (y ∷ ys) h = ground arith
text_lt_asym (x ∷ xs) [] h = cc
text_lt_asym (x ∷ xs) (y ∷ ys) h = ground (arith, text_lt_asym xs ys)

text_lt_neg_trans : (s t u : Text) → text_lt s t ≡ false → text_lt t u ≡ false → text_lt s u ≡ false
unfolding text_lt
text_lt_neg_trans s [] [] h k = h
text_lt_neg_trans [] (y ∷ ys) u h k = cc
text_lt_neg_trans (x ∷ xs) (y ∷ ys) [] h k = ground arith
text_lt_neg_trans s [] (z ∷ zs) h k = cc
text_lt_neg_trans (x ∷ xs) (y ∷ ys) (z ∷ zs) h k = ground (arith, text_lt_neg_trans xs ys zs)

-- Two texts of which neither is less are equal.
pub text_lt_antisymm : (s t : Text) → text_lt s t ≡ false → text_lt t s ≡ false → s ≡ t
unfolding text_lt
text_lt_antisymm [] [] h k = ground arith
text_lt_antisymm [] (y ∷ ys) h k = cc
text_lt_antisymm (x ∷ xs) [] h k = cc
text_lt_antisymm (x ∷ xs) (y ∷ ys) h k = ground (arith, text_lt_antisymm xs ys)

pub text_lt-IsWeakOrder : IsWeakOrder text_lt
text_lt-IsWeakOrder = record { asym = text_lt_asym; neg_trans = text_lt_neg_trans }

-- A test on keys is a weak order wherever the order of the keys is.
pub by_key-IsWeakOrder {ℓ κ} :
    {A : Type ℓ} {K : Type κ} (less : K → K → Bool) (key : A → K)
    → IsWeakOrder less
    → IsWeakOrder (λ (a b : A). less (key a) (key b))
by_key-IsWeakOrder less key o = record {
  asym = λ a b. o.asym (key a) (key b);
  neg_trans = λ a b c. o.neg_trans (key a) (key b) (key c);
}
