-- ===== src/Text/Prefix.antt =====
-- `HasPrefix` holds exactly of what begins so.
use cabure.Base.{◌≡◌, refl, ap₂, true, [], ◌∷◌, ◌++◌, arith, nat_eq, ==_refl, ==_iff}
use cabure.Text.{Text, has_prefix}

pub has_prefix-append : (s t : Text) → has_prefix (s ++ t) s ≡ true
unfolding has_prefix
has_prefix-append [] [] = refl
has_prefix-append [] (c ∷ t) = refl
has_prefix-append (c ∷ s) t = rw (==_refl c, has_prefix-append s t)

pub has_prefix-split : (s p : Text) → has_prefix s p ≡ true → (t : Text) × (s ≡ p ++ t)
unfolding has_prefix
has_prefix-split [] [] h = ([], refl)
has_prefix-split (c ∷ s) [] h = (c ∷ s, refl)
has_prefix-split [] (d ∷ p) h = cc
has_prefix-split (c ∷ s) (d ∷ p) h =
    let (t, e) = has_prefix-split s p (ground arith) in
    let same : c ≡ d = (==_iff c d).0 (ground arith) in (t, ap₂ ◌∷◌ same e)
