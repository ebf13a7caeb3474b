-- ===== src/Text/Case.antt =====
-- `ToLower` a second time changes nothing.
use cabure.Base.{ℕ, ◌≡◌, refl, [], ◌∷◌, arith}
use cabure.Text.{Text, to_lower, lower_byte}

lower_byte_idem : (c : ℕ) → lower_byte (lower_byte c) ≡ lower_byte c
unfolding lower_byte
lower_byte_idem c = ground arith

pub to_lower_idem : (s : Text) → to_lower (to_lower s) ≡ to_lower s
unfolding to_lower
to_lower_idem [] = refl
to_lower_idem (c ∷ s) = cc (lower_byte_idem c, to_lower_idem s)
