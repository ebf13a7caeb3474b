-- ===== src/Git/Auth.antt =====
-- `authHeader` (internal/git/repository.go), and the header that loaded credentials give.
use cabure.Base.{
  ◌≡◌, ◌≢◌, refl, ap, ◌∙◌, false, not, ◌&&◌, Option, none, some, [], ◌∷◌, ◌++◌, ◌==◌, list_eq,
  nat_eq, ==_iff, Bool, Bool-cases, inl, inr, ok, if◌then◌else◌,
}
use cabure.Text.{Text, codes}
use cabure.Api.Types.{GitApplication, Credentials}
use cabure.Outside.{Outside}
use cabure.Controller.Credentials.{found, load_credentials}
use cabure.Controller.Credentials.Usable.{load_credentials-IsUsable}

-- Base64 is given, as `encode`.
module _ (encode : Text → Text) where
  -- `authHeader`, from the user name and the password or token.
  header_of : Text → Text → Text
  header_of username password =
      if username == [] && password == []
      then []
      else encode
          ((if username == [] then codes "x-access-token" else username) ++ (b':' ∷ password))

  -- `authHeader`
  unfoldable pub auth_header : Option Credentials → Text
  unfolding header_of
  auth_header none = []
  auth_header (some creds) =
      header_of creds.username
        (if creds.password == [] && not (creds.token == []) then creds.token else creds.password)

  header_of_password :
      (username password : Text)
      → (password == []) ≡ false
      → header_of username password
        ≡ encode
            ((if username == [] then codes "x-access-token" else username) ++ (b':' ∷ password))
  unfolding header_of
  header_of_password username password h = elim (Bool-cases (username == [])) [
    | inl t ↦ rw (t, h) refl
    | inr f ↦ rw f refl
  ]

  password_header :
      (creds : Credentials)
      → (creds.password == []) ≡ false
      → auth_header (some creds)
        ≡ encode (
            (if creds.username == [] then codes "x-access-token" else creds.username)
            ++ (b':' ∷ creds.password))
  unfolding auth_header
  password_header creds h =
      ap
        (λ (b : Bool).
          header_of creds.username
            (if b && not (creds.token == []) then creds.token else creds.password))
        h
      ∙ header_of_password creds.username creds.password h

-- Credentials that are found and have no SSH key give a header of the user name, or of
-- `x-access-token` if there is none, and of the password, which is not empty.
pub auth_header_of_loaded :
    (encode : Text → Text) (c : Outside) (app : GitApplication) (s : c.State) (creds : Credentials)
    → (load_credentials c app s).result ≡ ok (found (some creds))
    → creds.ssh_private_key ≡ []
    → (creds.password ≢ [])
      × (auth_header encode (some creds)
          ≡ encode (
              (if creds.username == [] then codes "x-access-token" else creds.username)
              ++ (b':' ∷ creds.password)))
auth_header_of_loaded encode c app s creds h none_given =
    let (_, _, usable) = load_credentials-IsUsable c app s h in
    elim usable [
      | inl ssh ↦ absurd (ssh.has_key none_given)
      | inr basic ↦ (
        basic.has_password,
        password_header encode creds (elim (Bool-cases (creds.password == [])) [
          | inl t ↦ absurd (basic.has_password ((==_iff creds.password []).0 t))
          | inr f ↦ f
        ]),
      )
    ]
