-- ===== src/Controller/Credentials/Usable.antt =====
-- What `loadCredentials` finds.
use cabure.Base.{
  ◌≡◌, ◌≢◌, refl, sym, ap, ◌∙◌, Bool, true, false, not, ◌||◌, Option, none, some, [], ◌==◌, list_eq,
  nat_eq, ==_iff, if◌then◌else◌, ok, Error, wrap, Bool-cases, inl, inr, arith, errorf, ok_injective,
  ◌⊎◌,
}
use cabure.Text.{Text, codes}
use cabure.Api.Types.{GitApplication, Secret, Credentials}
use cabure.Outside.{Outside}
use cabure.Effects.{M, got_secret, attempt, perform, return}
use cabure.Effects.Calls.{attempt-returned}
use cabure.Controller.Credentials.{
  Loaded, found, refused, credentials_of, load_named, load_credentials, ssh_credentials,
  basic_credentials, data_at, is_not_found, ssh_auth_type,
}

-- The entry of the secret.
abbrev pub entry_of : Secret → Text → Text
entry_of s name = data_at name s.contents

-- The key and the known hosts of the secret, and nothing else.
pub record IsSsh (s : Secret) (creds : Credentials) : Type 0 where
  pub chosen :
      (s.type ≡ codes "kubernetes.io/ssh-auth") ⊎ (entry_of s (codes "ssh-privatekey") ≢ [])
  pub private_key : creds.ssh_private_key ≡ entry_of s (codes "ssh-privatekey")
  pub hosts : creds.known_hosts ≡ entry_of s (codes "known_hosts")
  pub has_key : creds.ssh_private_key ≢ []
  pub has_hosts : creds.known_hosts ≢ []
  pub others : (creds.username ≡ []) × (creds.password ≡ []) × (creds.token ≡ [])

-- The user and the token of the secret, with its password, or with the token for a password; no key.
pub record IsBasic (s : Secret) (creds : Credentials) : Type 0 where
  pub no_key :
      (entry_of s (codes "ssh-privatekey") ≡ []) × (s.type ≢ codes "kubernetes.io/ssh-auth")
  pub username : creds.username ≡ entry_of s (codes "username")
  pub token : creds.token ≡ entry_of s (codes "token")
  pub password :
      (creds.password ≡ entry_of s (codes "password"))
      ⊎ ((entry_of s (codes "password") ≡ []) × (creds.password ≡ entry_of s (codes "token")))
  pub has_password : creds.password ≢ []
  pub others : (creds.ssh_private_key ≡ []) × (creds.known_hosts ≡ [])

-- How credentials come from a secret.
abbrev pub IsUsable : Secret → Credentials → Type 0
IsUsable s creds = IsSsh s creds ⊎ IsBasic s creds

ssh_credentials-IsSsh :
    (s : Secret) {creds : Credentials}
    → ((s.type ≡ codes "kubernetes.io/ssh-auth") ⊎ (entry_of s (codes "ssh-privatekey") ≢ []))
    → ssh_credentials s ≡ found (some creds)
    → IsSsh s creds
unfolding ssh_credentials
ssh_credentials-IsSsh s c h = record {
  chosen = c;
  private_key = ground arith;
  hosts = ground arith;
  has_key = ground arith;
  has_hosts = ground arith;
  others = ground arith;
}

basic_credentials-IsBasic :
    (s : Secret) {creds : Credentials}
    → (entry_of s (codes "ssh-privatekey") ≡ []) × (s.type ≢ codes "kubernetes.io/ssh-auth")
    → basic_credentials s ≡ found (some creds)
    → IsBasic s creds
unfolding basic_credentials
basic_credentials-IsBasic s c h = record {
  no_key = c;
  username = ground arith;
  token = ground arith;
  password = elim (Bool-cases (entry_of s (codes "password") == [])) [
    | inl t ↦ inr ((==_iff (entry_of s (codes "password")) []).0 t, ground (arith, t))
    | inr f ↦ inl (ground (arith, f))
  ];
  has_password = ground arith;
  others = ground arith;
}

credentials_of-IsUsable :
    (s : Secret) {creds : Credentials} → credentials_of s ≡ found (some creds) → IsUsable s creds
unfolding credentials_of
credentials_of-IsUsable s {creds} h =
    let key = data_at (codes "ssh-privatekey") s.contents in
    elim (Bool-cases (s.type == ssh_auth_type || not (key == []))) [
      | inl t ↦ inl (
          ssh_credentials-IsSsh s
            (elim (Bool-cases (s.type == ssh_auth_type)) [
              | inl y ↦ inl ((==_iff s.type ssh_auth_type).0 y)
              | inr n ↦ inr (λ e. ground (arith, t, n, (==_iff key []).1 e))
            ])
            (sym (ap (λ (b : Bool). if b then ssh_credentials s else basic_credentials s) t) ∙ h))
      | inr f ↦ inr (
          basic_credentials-IsBasic s
            (
              (==_iff key []).0 (ground (arith, f)),
              λ e. ground (arith, f, (==_iff s.type ssh_auth_type).1 e),
            )
            (sym (ap (λ (b : Bool). if b then ssh_credentials s else basic_credentials s) f) ∙ h))
    ]

module _ (c : Outside) (app : GitApplication) (s : c.State) where
  -- The secret of the spec, in the namespace of the application.
  pub record IsRead (secret : Secret) : Type 0 where
    pub name : Text
    pub referred : app.spec.source.secret_ref ≡ some name
    pub read : (c.get_secret app.namespace name s).0 ≡ ok secret

  -- What was returned in one of two cases was not returned in the first, if it cannot be.
  otherwise :
      (b : Bool) (first second : M c.State Loaded) {l : Loaded}
      → (first s).result ≢ ok l
      → ((if b then first else second) s).result ≡ ok l
      → (second s).result ≡ ok l
  otherwise true first second n h = absurd (n h)
  otherwise false first second n h = h

  named_from :
      (name : Text) {creds : Credentials}
      → app.spec.source.secret_ref ≡ some name
      → (load_named c app name s).result ≡ ok (found (some creds))
      → (secret : Secret) × IsRead secret × IsUsable secret creds
  unfolding load_named
  named_from name e h =
      let failed = λ (e : Error).
        return (refused (wrap (codes "read credentials secret: ") e) (is_not_found e.cause)) in
      let get = perform (got_secret app.namespace name) (c.get_secret app.namespace name) in
      let taken = λ (secret : Secret). return (credentials_of secret) in
      let missing = return (refused (errorf (codes "secret client is not configured")) true) in
      let (secret, g, k) =
        attempt-returned get failed taken s (λ e s' p. cc)
          (otherwise (not c.has_secret_client) missing (attempt get failed taken) (λ p. cc) h) in
      (
        secret,
        record { name = name; referred = e; read = g },
        credentials_of-IsUsable secret (ok_injective k),
      )

  loaded_from :
      (reference : Option Text) {creds : Credentials}
      → app.spec.source.secret_ref ≡ reference
      → (elim reference as (λ _. M c.State Loaded) [
        | none ↦ return (found none)
        | some name ↦ if name == [] then return (found none) else load_named c app name
      ]
          s).result
        ≡ ok (found (some creds))
      → (secret : Secret) × IsRead secret × IsUsable secret creds
  unfolding load_named
  loaded_from none e h = cc
  loaded_from (some name) e h =
      named_from name e
        (otherwise (name == []) (return (found none)) (load_named c app name) (λ p. cc) h)

-- Credentials that are found are those of the secret that the spec refers to, in the application's own
-- namespace. If it is of the type for SSH or has a key, they are its key and its known hosts, neither empty, and
-- nothing else; if not, its user, its token, and its password or, where that is empty, the token again, which is
-- then not empty, and no key.
pub load_credentials-IsUsable :
    (c : Outside) (app : GitApplication) (s : c.State) {creds : Credentials}
    → (load_credentials c app s).result ≡ ok (found (some creds))
    → (secret : Secret) × IsRead c app s secret × IsUsable secret creds
unfolding load_credentials
load_credentials-IsUsable c app s h = loaded_from c app s app.spec.source.secret_ref refl h
