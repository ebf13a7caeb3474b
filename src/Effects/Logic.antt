-- ===== src/Effects/Logic.antt =====
-- Properties of code that follow the code: what holds of the parts holds of the whole.
use cabure.Base.{
  Bool, true, false, Error, Result-cases, inl, inr, All-append, if◌then◌else◌, Option, none, some,
}
use cabure.Effects.{Call, M, return, throw, attempt, finally, ◌>>=◌, ◌>>◌}
use cabure.Effects.Calls.{Makes, Makes-attempt}

-- A property that the ways to put code together keep.
pub record Logic {S : Type 0} (P : (A : Type 0) → M S A → Type 0) : Type 1 where
  pub returns : {A : Type 0} (a : A) → P A (return a)
  pub throws : {A : Type 0} (e : Error) → P A (throw e)
  pub attempts :
      {A B : Type 0} (m : M S A) (handler : Error → M S B) (rest : A → M S B)
      → P A m
      → ((e : Error) → P B (handler e))
      → ((a : A) → P B (rest a))
      → P B (attempt m handler rest)
  pub finallys :
      {A : Type 0} (m : M S A) (cleanup : M S (Unit {0}))
      → P A m
      → P (Unit {0}) cleanup
      → P A (finally m cleanup)
  -- Code that first looks at the state.
  pub looks :
      {X A : Type 0} (f : X → M S A) (g : S → X) → ((x : X) → P A (f x)) → P A (λ s. f (g s) s)

module _ {S : Type 0} {P : (A : Type 0) → M S A → Type 0} (logic : Logic P) where
  pub chains :
      {A B : Type 0} (m : M S A) (rest : A → M S B)
      → P A m
      → ((a : A) → P B (rest a))
      → P B (m >>= rest)
  chains m rest hm hr = logic.attempts m throw rest hm logic.throws hr

  pub steps : {B : Type 0} (m : M S (Unit {0})) (k : M S B) → P (Unit {0}) m → P B k → P B (m >> k)
  steps m k hm hk = logic.attempts m throw (λ _. k) hm logic.throws (λ _. hk)

  pub branches : {A : Type 0} (b : Bool) (m n : M S A) → P A m → P A n → P A (if b then m else n)
  branches true m n hm hn = hm
  branches false m n hm hn = hn

  pub options :
      {X A : Type 0} (o : Option X) (m : M S A) (f : X → M S A)
      → P A m
      → ((x : X) → P A (f x))
      → P A (elim o [ none ↦ m | some x ↦ f x ])
  options none m f hm hf = hm
  options (some x) m f hm hf = hf x

-- Which calls are made.
pub Makes-Logic : {S : Type 0} (Q : Call → Type 0) → Logic {S = S} (λ A m. Makes Q m)
Makes-Logic Q = record {
  returns = λ a s. tt;
  throws = λ e s. tt;
  attempts = Makes-attempt Q;
  finallys = λ m cleanup hm hc s. All-append Q _ _ (hm s) (hc (m s).state);
  looks = λ f g h s. h (g s) s;
}

module _ {S : Type 0} (R : S → S → Type 0) where
  -- From every state, code ends in a state related to it.
  abbrev pub Leads : {A : Type 0} → M S A → Type 0
  Leads m = (s : S) → R s (m s).state

  -- The relation that states stand in when nothing was done, and that steps in turn keep.
  pub record IsPreorder : Type 0 where
    pub same : (s : S) → R s s
    pub after : (a b c : S) → R a b → R b c → R a c

  Leads-attempt :
      {A B : Type 0} (order : IsPreorder) (m : M S A) (handler : Error → M S B) (rest : A → M S B)
      → Leads m
      → ((e : Error) → Leads (handler e))
      → ((a : A) → Leads (rest a))
      → Leads (attempt m handler rest)
  Leads-attempt order m handler rest hm hh hr s = elim (Result-cases (m s).result) [
    | inl (a, e) ↦ rw (e, attempt) (order.after s (m s).state _ (hm s) (hr a (m s).state))
    | inr (x, e) ↦ rw (e, attempt) (order.after s (m s).state _ (hm s) (hh x (m s).state))
  ]

  pub Leads-Logic : IsPreorder → Logic {S = S} (λ A m. Leads m)
  Leads-Logic order = record {
    returns = λ a s. order.same s;
    throws = λ e s. order.same s;
    attempts = Leads-attempt order;
    finallys = λ m cleanup hm hc s. order.after s (m s).state _ (hm s) (hc (m s).state);
    looks = λ f g h s. h (g s) s;
  }
