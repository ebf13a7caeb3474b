-- ===== src/Base/Results.antt =====
-- Go's pair of a value and an error, and errors as values.
use Prim.Native.Nat.{ℕ}
use mathlib.Core.Path.{◌≡◌, refl}
use mathlib.Core.Logic.{◌⊎◌, inl, inr}
use mathlib.Core.Bool.{Bool, true, false, ◌&&◌}
use mathlib.Core.List.{List, ◌++◌}

-- What `errors.Is` and the predicates of apimachinery tell about an error, wrapped or not.
pub data Cause : Type 0 where
  plain not_found canceled exists would_block end_of_file : Cause

-- An error value: its cause, and the text that `Error()` returns, as bytes.
pub record Error : Type 0 where
  pub cause : Cause
  pub message : List ℕ

-- `fmt.Errorf` without `%w`.
abbrev pub errorf : List ℕ → Error
errorf text = record { cause = plain; message = text }

-- `fmt.Errorf` with `%w` as its last verb: the text before it, and the cause is kept.
abbrev pub wrap : List ℕ → Error → Error
wrap before e = record e { message = before ++ e.message }

pub data Result {ℓ} (A : Type ℓ) : Type ℓ where
  err : Error → Result A
  ok : A → Result A

infixl 5 ◌>>◌ ◌>>=◌
abbrev pub ◌>>=◌ {ℓ κ} : {A : Type ℓ} {B : Type κ} → Result A → (A → Result B) → Result B
err failure >>= rest = err failure
ok value >>= rest = rest value

-- `if !test { return err }`.
abbrev pub require : Bool → Error → Result (Unit {0})
require false failure = err failure
require true failure = ok tt

abbrev pub ◌>>◌ {ℓ} : {B : Type ℓ} → Result (Unit {0}) → Result B → Result B
first >> second = first >>= λ _. second

pub Result-cases {ℓ} :
    {A : Type ℓ} (r : Result A) → ((a : A) × (r ≡ ok a)) ⊎ ((e : Error) × (r ≡ err e))
Result-cases (ok a) = inl (a, refl)
Result-cases (err e) = inr (e, refl)

pub >>=-eq-ok {ℓ κ} :
    {A : Type ℓ} {B : Type κ} (first : Result A) (rest : A → Result B) {b : B}
    → (first >>= rest) ≡ ok b
    → (value : A) × (first ≡ ok value) × (rest value ≡ ok b)
>>=-eq-ok (err failure) rest h = cc
>>=-eq-ok (ok value) rest h = (value, refl, h)

pub ok_injective {ℓ} : {A : Type ℓ} {a b : A} → ok a ≡ ok b → a ≡ b
ok_injective h = cc

abbrev pub is_ok {ℓ} : {A : Type ℓ} → Result A → Bool
is_ok (ok a) = true
is_ok (err e) = false

pub is_ok->> {ℓ} :
    {B : Type ℓ} (m : Result (Unit {0})) (k : Result B) → is_ok (m >> k) ≡ (is_ok m && is_ok k)
is_ok->> (ok a) k = refl
is_ok->> (err e) k = refl

pub is_ok-require : (b : Bool) (e : Error) → is_ok (require b e) ≡ b
is_ok-require true e = refl
is_ok-require false e = refl

pub ok_of_is_ok : (r : Result (Unit {0})) → is_ok r ≡ true → r ≡ ok tt
ok_of_is_ok (ok a) h = refl
ok_of_is_ok (err e) h = cc
