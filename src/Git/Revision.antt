-- ===== src/Git/Revision.antt =====
-- What `resolveRevision` returns.
use cabure.Base.{
  ℕ, ◌≡◌, refl, subst, Bool, true, false, not, [], ◌∷◌, ◌++◌, ◌==◌, nat_eq, list_eq, length, all,
  if◌then◌else◌, arith, ◌⊎◌, inl, inr, ok, Error, errorf, wrap, ok_injective,
}
use cabure.Text.{Text, codes, to_lower, lower_byte}
use cabure.Text.Format.{quoted}
use cabure.Effects.{M, ran_git, return, throw, perform, attempt, ◌>>=◌}
use cabure.Effects.Calls.{attempt-returned, >>=-returned}
use cabure.Git.{GitWorld, is_hex_digit, is_sha1, first_field, resolve_revision}

length-to_lower : (s : Text) → length (to_lower s) ≡ length s
unfolding to_lower
length-to_lower [] = refl
length-to_lower (c ∷ s) = omega (arith, length-to_lower s)

hex_lower_byte : (c : ℕ) → is_hex_digit c ≡ true → is_hex_digit (lower_byte c) ≡ true
unfolding lower_byte
hex_lower_byte c h = ground arith

hex_to_lower : (s : Text) → all is_hex_digit s ≡ true → all is_hex_digit (to_lower s) ≡ true
unfolding to_lower
hex_to_lower [] h = refl
hex_to_lower (c ∷ s) h = ground (arith, hex_lower_byte c, hex_to_lower s)

is_sha1-to_lower : (s : Text) → is_sha1 s ≡ true → is_sha1 (to_lower s) ≡ true
unfolding is_sha1
is_sha1-to_lower s h = ground (arith, length-to_lower s, hex_to_lower s)

-- Which branch of a test returned.
pub returned_by :
    {S A : Type 0} (b : Bool) (x y : M S A) (s : S) {a : A}
    → ((if b then x else y) s).result ≡ ok a
    → ((b ≡ true) × ((x s).result ≡ ok a)) ⊎ ((b ≡ false) × ((y s).result ≡ ok a))
returned_by true x y s h = inl (refl, h)
returned_by false x y s h = inr (refl, h)

listed :
    (S : Type 0) (field : Text) (missing unexpected : Error) (s : S) {sha : Text}
    → ((if field == []
          then throw missing
          else if not (is_sha1 field)
          then throw unexpected
          else return field)
        s).result
      ≡ ok sha
    → is_sha1 sha ≡ true
listed S field missing unexpected s h =
    elim (returned_by (field == []) (throw missing)
      (if not (is_sha1 field) then throw unexpected else return field) s h) [
        | inl (_, k) ↦ absurd cc
        | inr (_, k) ↦
            elim (returned_by (not (is_sha1 field)) (throw unexpected) (return field) s k) [
              | inl (_, e) ↦ absurd cc
              | inr (f, e) ↦ subst (λ t. is_sha1 t ≡ true) (ok_injective e) (ground (arith, f))
            ]
      ]

-- A revision that is resolved is a commit name of forty hexadecimal digits, whatever git prints.
pub resolve_revision_lem :
    (g : GitWorld) (mirror_dir revision : Text) (auth : g.Auth) (s : g.State) {sha : Text}
    → (resolve_revision g mirror_dir revision auth s).result ≡ ok sha
    → is_sha1 sha ≡ true
unfolding resolve_revision
resolve_revision_lem g mirror_dir revision auth s h =
    let verify_args = codes "rev-parse" ∷ codes "--verify" ∷ (revision ++ codes "^{commit}") ∷ [] in
    let list_args = codes "ls-remote" ∷ codes "--refs" ∷ codes "origin" ∷ revision ∷ [] in
    let verify = perform (ran_git mirror_dir verify_args) (g.run_git mirror_dir auth verify_args) in
    let list = perform (ran_git mirror_dir list_args) (g.run_git mirror_dir auth list_args) in
    let failed = λ (e : Error).
      throw {A = Text} (wrap (codes "verify commit " ++ (revision ++ codes ": ")) e) in
    let missing = errorf (codes "revision " ++ (quoted revision ++ codes " not found")) in
    let unexpected = errorf (codes "unexpected revision response for " ++ quoted revision) in
    let pick : Text → M g.State Text = λ out.
      if first_field out == []
      then throw missing
      else if not (is_sha1 (first_field out))
      then throw unexpected
      else return (first_field out) in
    elim (returned_by (is_sha1 revision) (attempt verify failed (λ _. return (to_lower revision)))
      (list >>= pick) s h) [
        | inl (t, k) ↦
            let (_, _, e) =
              attempt-returned verify failed (λ _. return (to_lower revision)) s (λ e s' p. cc) k in
            subst (λ x. is_sha1 x ≡ true) (ok_injective e) (is_sha1-to_lower revision t)
        | inr (_, k) ↦
            let (out, _, e) = >>=-returned list pick s k in
            listed g.State (first_field out) missing unexpected (list s).state e
      ]
