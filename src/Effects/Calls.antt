-- ===== src/Effects/Calls.antt =====
-- Which calls code can make: rules that follow the code.
use cabure.Base.{
  ◌≢◌, ◌≡◌, refl, ok, Error, All, All-append, Result-cases, Option, none, some, Bool, true, false,
  if◌then◌else◌, inl, inr, arith,
}
use cabure.Effects.{Call, M, attempt, ◌>>=◌}

module _ {S : Type 0} (P : Call → Type 0) where
  -- From every state, only calls that satisfy `P`.
  abbrev pub Makes : {A : Type 0} → M S A → Type 0
  Makes m = (s : S) → All P (m s).calls

  -- The rest of the code may rely on a value that its first part returned.
  pub Makes-attempt_from :
      {A B : Type 0} (m : M S A) (handler : Error → M S B) (rest : A → M S B)
      → Makes m
      → ((e : Error) → Makes (handler e))
      → ((a : A) (s : S) → (m s).result ≡ ok a → All P (rest a (m s).state).calls)
      → Makes (attempt m handler rest)
  Makes-attempt_from m handler rest hm hh hr s = elim (Result-cases (m s).result) [
    | inl (a, e) ↦ rw (e, attempt) (All-append P _ _ (hm s) (hr a s e))
    | inr (x, e) ↦ rw (e, attempt) (All-append P _ _ (hm s) (hh x (m s).state))
  ]

  pub Makes-attempt :
      {A B : Type 0} (m : M S A) (handler : Error → M S B) (rest : A → M S B)
      → Makes m
      → ((e : Error) → Makes (handler e))
      → ((a : A) → Makes (rest a))
      → Makes (attempt m handler rest)
  Makes-attempt m handler rest hm hh hr =
      Makes-attempt_from m handler rest hm hh (λ a s _. hr a (m s).state)

  pub if-Makes :
      {A : Type 0} (b : Bool) (m n : M S A) → Makes m → Makes n → Makes (if b then m else n)
  if-Makes true m n hm hn = hm
  if-Makes false m n hm hn = hn

  pub if-Makes_from :
      {A : Type 0} (b : Bool) (m n : M S A)
      → (b ≡ true → Makes m)
      → (b ≡ false → Makes n)
      → Makes (if b then m else n)
  if-Makes_from true m n hm hn = hm refl
  if-Makes_from false m n hm hn = hn refl

  pub Option-Makes :
      {X A : Type 0} (o : Option X) (m : M S A) (f : X → M S A)
      → Makes m
      → ((x : X) → o ≡ some x → Makes (f x))
      → Makes (elim o [ none ↦ m | some x ↦ f x ])
  Option-Makes none m f hm hf = hm
  Option-Makes (some x) m f hm hf = hf x refl

-- A chain that returns a value has returned one at its first part.
pub >>=-returned :
    {S A B : Type 0} (m : M S A) (f : A → M S B) (s : S) {b : B}
    → ((m >>= f) s).result ≡ ok b
    → (a : A) × ((m s).result ≡ ok a) × ((f a (m s).state).result ≡ ok b)
>>=-returned m f s {b} h = elim (Result-cases (m s).result) [
  | inl (a, e) ↦ (a, e, ground arith)
  | inr (e, k) ↦ absurd (ground arith)
]

-- What follows a value is the rest of the code.
pub attempt-returns :
    {S A B : Type 0} (m : M S A) (handler : Error → M S B) (rest : A → M S B) (s : S) {a : A}
    → (m s).result ≡ ok a
    → (attempt m handler rest s).result ≡ (rest a (m s).state).result
attempt-returns m handler rest s h = rw (h, attempt)

-- With a handler that returns nothing, code returns a value only if its first part did.
pub attempt-returned :
    {S A B : Type 0} (m : M S A) (handler : Error → M S B) (rest : A → M S B) (s : S) {b : B}
    → ((e : Error) (s' : S) → (handler e s').result ≢ ok b)
    → (attempt m handler rest s).result ≡ ok b
    → (a : A) × ((m s).result ≡ ok a) × ((rest a (m s).state).result ≡ ok b)
attempt-returned m handler rest s fails h = elim (Result-cases (m s).result) [
  | inl (a, e) ↦ (a, e, ground arith)
  | inr (e, k) ↦ absurd (fails e (m s).state (ground arith))
]
