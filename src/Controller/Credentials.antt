-- ===== src/Controller/Credentials.antt =====
-- `loadCredentials` (internal/controller/gitapplication_controller.go).
pub mod Usable
use cabure.Base.{
  ℕ, Bool, true, false, not, ◌&&◌, ◌||◌, Option, none, some, List, [], ◌∷◌, ◌++◌, ◌==◌, list_eq,
  nat_eq, if◌then◌else◌, Result, ok, err, Error, errorf, wrap, Cause, plain, not_found, canceled,
  exists, would_block, end_of_file,
}
use cabure.Base.Dict.{Dict, lookup}
use cabure.Text.{Text, codes}
use cabure.Api.Types.{GitApplication, Secret, Credentials}
use cabure.Outside.{Outside}
use cabure.Effects.{M, Call, got_secret, return, perform, attempt}

-- `apierrors.IsNotFound`
abbrev pub is_not_found : Cause → Bool
is_not_found not_found = true
is_not_found plain = false
is_not_found canceled = false
is_not_found exists = false
is_not_found would_block = false
is_not_found end_of_file = false

-- What `loadCredentials` returns: credentials or nil, or an error and whether it stalls.
pub data Loaded : Type 0 where
  found : Option Credentials → Loaded
  refused : Error → Bool → Loaded

-- `secret.Data[key]`
abbrev pub data_at : Text → Dict Text Text → Text
data_at k contents = elim (lookup k contents) [ some v ↦ v | none ↦ [] ]

abbrev pub secret_label : Secret → Text
secret_label s = s.namespace ++ (b'/' ∷ s.name)

-- The branch for SSH.
ssh_credentials : Secret → Loaded
ssh_credentials s =
    let private_key = data_at (codes "ssh-privatekey") s.contents in
    let hosts = data_at (codes "known_hosts") s.contents in
    if private_key == []
    then refused
        (errorf (codes "ssh secret " ++ (secret_label s ++ codes " is missing ssh-privatekey")))
        true
    else if hosts == []
    then refused
        (errorf (codes "ssh secret " ++ (secret_label s ++ codes " is missing known_hosts"))) true
    else found (
        some (record {
          username = [];
          password = [];
          token = [];
          ssh_private_key = private_key;
          known_hosts = hosts;
        }))

-- The branch for HTTPS.
basic_credentials : Secret → Loaded
basic_credentials s =
    let token = data_at (codes "token") s.contents in
    let given = data_at (codes "password") s.contents in
    let password = if given == [] then token else given in
    if password == []
    then refused
        (errorf (
          codes "credentials secret "
          ++ (secret_label s ++ codes " must include ssh-privatekey, password, or token")))
        true
    else found (
        some (record {
          username = data_at (codes "username") s.contents;
          password = password;
          token = token;
          ssh_private_key = [];
          known_hosts = [];
        }))

abbrev pub ssh_auth_type : Text
ssh_auth_type = codes "kubernetes.io/ssh-auth"

-- The rest of `loadCredentials`, once there is a secret.
unfoldable pub credentials_of : Secret → Loaded
unfolding ssh_credentials basic_credentials
credentials_of s =
    if s.type == ssh_auth_type || not (data_at (codes "ssh-privatekey") s.contents == [])
    then ssh_credentials s
    else basic_credentials s

module _ (c : Outside) where
  -- `loadCredentials` with the name in the reference.
  unfoldable pub load_named : GitApplication → Text → M c.State Loaded
  unfolding credentials_of
  load_named app name =
      if not c.has_secret_client
      then return (refused (errorf (codes "secret client is not configured")) true)
      else attempt (perform (got_secret app.namespace name) (c.get_secret app.namespace name))
          (λ e.
            return (refused (wrap (codes "read credentials secret: ") e) (is_not_found e.cause)))
          (λ s. return (credentials_of s))

  -- `loadCredentials`
  unfoldable pub load_credentials : GitApplication → M c.State Loaded
  unfolding load_named
  load_credentials app = elim app.spec.source.secret_ref [
    | none ↦ return (found none)
    | some name ↦ if name == [] then return (found none) else load_named app name
  ]
