-- ===== src/Git/Checkout/Keys.antt =====
-- The SSH keys that `prepareAuth` writes, and how it leaves them (internal/git/repository.go).
use cabure.Base.{
  ◌≡◌, refl, ap, sym, ◌∙◌, true, false, ◌||◌, Bool-cases, Option, none, some, List, [], ◌∷◌, ◌++◌,
  append_assoc, ok, err, Error, Result-cases, inl, inr, ◌⊎◌, All, All-append, All-map, ◌==◌,
  list_eq, nat_eq,
}
use cabure.Text.{Text, codes}
use cabure.Path.{join_path}
use cabure.Url.{is_ssh_repository_url}
use cabure.Api.Types.{Credentials}
use cabure.Effects.{
  M, Call, Outcome, on_disk, made_temp, wrote_file, removed_all, perform, attempt, ◌>>=◌, ◌>>◌,
}
use cabure.Effects.Calls.{Makes}
use cabure.Git.Auth.{auth_header}
use cabure.Git.Host.{Host, GitAuth, auth_cleanup}
use cabure.Git.Checkout.{
  owner_only, make_dir, write_key, or_remove, ssh_auth, write_keys, prepare_keys, prepare_auth,
}

abbrev private_key_in : Text → Text
private_key_in dir = join_path dir (codes "id_ed25519")

abbrev known_hosts_in : Text → Text
known_hosts_in dir = join_path dir (codes "known_hosts")

-- The call writes no file.
abbrev pub WritesNothing : Call → Type 0
WritesNothing (on_disk (wrote_file p mode)) = true ≡ false
WritesNothing _ = Unit

-- The call writes at most the two files of the keys in this directory, for their owner only.
abbrev pub WritesIn : Text → Call → Type 0
WritesIn dir (on_disk (wrote_file p mode)) =
    ((p ≡ private_key_in dir) ⊎ (p ≡ known_hosts_in dir)) × (mode ≡ owner_only)
WritesIn dir _ = Unit

pub weaken : (dir : Text) (call : Call) → WritesNothing call → WritesIn dir call
weaken dir (on_disk (wrote_file p mode)) h = cc
weaken dir _ h = tt

module _ (h : Host) (base : Text) where
  -- A directory that was made for keys.
  pub record IsKeyDir (dir : Text) : Type 0 where
    pub state : h.State
    pub made : (h.mkdir_temp (join_path base (codes "auth")) (codes "ssh-*") state).0 ≡ ok dir

  -- Files were written in one such directory, which the last call removed.
  pub record KeysGone (calls : List Call) : Type 0 where
    pub dir : Text
    pub key_dir : IsKeyDir dir
    pub before : List Call
    pub ends : calls ≡ before ++ (removed_all dir ∷ [])
    pub writes : All (WritesIn dir) calls

  -- Either no file was written, or they are gone.
  abbrev pub Clean : List Call → Type 0
  Clean calls = All WritesNothing calls ⊎ KeysGone calls

  Clean-after :
      (first rest : List Call) → All WritesNothing first → Clean rest → Clean (first ++ rest)
  Clean-after first rest hf (inl none_written) =
      inl (All-append WritesNothing first rest hf none_written)
  Clean-after first rest hf (inr gone) = inr (record {
    dir = gone.dir;
    key_dir = gone.key_dir;
    before = first ++ gone.before;
    ends =
        ap (first ++◌) gone.ends ∙ sym (append_assoc first gone.before (removed_all gone.dir ∷ []));
    writes =
        All-append (WritesIn gone.dir) first rest (All-map _ _ first (weaken gone.dir) hf)
          gone.writes;
  })

  -- After code that writes nothing, on either path.
  pub attempt-Clean :
      {A B : Type 0} (m : M h.State A) (handler : Error → M h.State B) (rest : A → M h.State B)
      → Makes WritesNothing m
      → ((e : Error) (s : h.State) → Clean (handler e s).calls)
      → ((a : A) (s : h.State) → (m s).result ≡ ok a → Clean (rest a (m s).state).calls)
      → (s : h.State) → Clean (attempt m handler rest s).calls
  attempt-Clean m handler rest hm hh hr s = elim (Result-cases (m s).result) [
    | inl (a, e) ↦ rw (e, attempt) (Clean-after (m s).calls _ (hm s) (hr a s e))
    | inr (x, e) ↦ rw (e, attempt) (Clean-after (m s).calls _ (hm s) (hh x (m s).state))
  ]

  -- What `prepareAuth` leaves: nothing to clean up and nothing written, or the keys in the directory
  -- to clean up; after an error, no keys.
  abbrev pub Prepared : Outcome h.State (Option GitAuth) → Type 0
  Prepared o =
      ((auth : Option GitAuth) × (o.result ≡ ok auth)
        × (((auth_cleanup auth ≡ none) × All WritesNothing o.calls)
            ⊎ ((dir : Text) × (auth_cleanup auth ≡ some dir)
                × IsKeyDir dir
                × All (WritesIn dir) o.calls)))
      ⊎ ((e : Error) × (o.result ≡ err e) × Clean o.calls)

  -- The same, while the keys are written.
  abbrev Written : Text → Outcome h.State (Option GitAuth) → Type 0
  Written dir o =
      All (WritesIn dir) o.calls
      × (((auth : Option GitAuth) × (o.result ≡ ok auth) × (auth_cleanup auth ≡ some dir))
          ⊎ ((e : Error) × (o.result ≡ err e)
              × (before : List Call) × (o.calls ≡ before ++ (removed_all dir ∷ []))))

  write-Written :
      (dir p key : Text) (rest : M h.State (Option GitAuth))
      → ((p ≡ private_key_in dir) ⊎ (p ≡ known_hosts_in dir))
      → ((s : h.State) → Written dir (rest s))
      → (s : h.State) → Written dir ((or_remove h dir (write_key h p key) >> rest) s)
  unfolding or_remove
  write-Written dir p key rest at hr s =
      let call = on_disk (wrote_file p owner_only) in
      elim (Result-cases (h.write_file p key s).0) [
        | inr (e, k) ↦ rw k (rw k (((at, refl), (tt, tt)), inr (e, refl, (call ∷ []), refl)))
        | inl (_, k) ↦
            let (writes, ends) = hr (h.write_file p key s).1 in
            rw k (
              rw k (
                ((at, refl), writes),
                elim ends [
                  | inl done ↦ inl done
                  | inr (e, r, before, removed) ↦ inr (e, r, (call ∷ before), ap (call ∷◌) removed)
                ],
              ))
      ]

  write_keys-Prepared :
      (dir private_key known_hosts : Text)
      → IsKeyDir dir
      → (s : h.State) → Prepared (write_keys h dir private_key known_hosts s)
  unfolding write_keys ssh_auth
  write_keys-Prepared dir private_key known_hosts made s =
      let auth = ssh_auth h dir (private_key_in dir) (known_hosts_in dir) in
      let second_key = or_remove h dir (write_key h (known_hosts_in dir) known_hosts) >> auth in
      let (writes, ends) =
        write-Written dir (private_key_in dir) private_key second_key (inl refl)
          (write-Written dir (known_hosts_in dir) known_hosts auth (inr refl)
            (λ s'. (tt, inl (_, refl, refl))))
          s in
      elim ends [
        | inl (auth, r, there) ↦ inl (auth, r, inr (dir, there, made, writes))
        | inr (e, r, before, removed) ↦ inr (
          e,
          r,
          inr (record {
            dir = dir;
            key_dir = made;
            before = before;
            ends = removed;
            writes = writes;
          }),
        )
      ]

  -- After code that writes nothing, on either path.
  attempt-Prepared :
      {A : Type 0} (m : M h.State A) (rest : A → M h.State (Option GitAuth))
      → Makes WritesNothing m
      → ((a : A) (s : h.State) → (m s).result ≡ ok a → Prepared (rest a (m s).state))
      → (s : h.State) → Prepared ((m >>= rest) s)
  attempt-Prepared m rest hm hr s = elim (Result-cases (m s).result) [
    | inr (x, e) ↦ rw (e, attempt) (inr (x, refl, Clean-after (m s).calls [] (hm s) (inl tt)))
    | inl (a, e) ↦
        rw (e, attempt)
          (elim (hr a s e) [
            | inl (auth, k, inl (none_there, none_written)) ↦
                inl (auth, k, inl (none_there, All-append WritesNothing _ _ (hm s) none_written))
            | inl (auth, k, inr (dir, there, made, writes)) ↦ inl (
              auth,
              k,
              inr (
                dir,
                there,
                made,
                All-append (WritesIn dir) _ _ (All-map _ _ (m s).calls (weaken dir) (hm s)) writes,
              ),
            )
            | inr (x, k, clean) ↦ inr (x, k, Clean-after (m s).calls _ (hm s) clean)
          ])
  ]

  prepare_keys-Prepared :
      (creds : Option Credentials) (s : h.State) → Prepared (prepare_keys h base creds s)
  unfolding prepare_keys
  prepare_keys-Prepared none s = inr (_, refl, inl tt)
  prepare_keys-Prepared (some creds) s =
      let auth_root = join_path base (codes "auth") in
      let temp =
        perform (on_disk (made_temp auth_root (codes "ssh-*")))
          (h.mkdir_temp auth_root (codes "ssh-*")) in
      let rest = λ (dir : Text). write_keys h dir creds.ssh_private_key creds.known_hosts in
      elim (Bool-cases (creds.ssh_private_key == [] || creds.known_hosts == [])) [
        | inl t ↦ rw t (inr (_, refl, inl tt))
        | inr f ↦ rw f (
            attempt-Prepared (make_dir h auth_root) (λ _. temp >>= rest) (λ s'. (tt, tt))
              (λ _ s' _.
                attempt-Prepared temp rest (λ s''. (tt, tt))
                  (λ dir s'' e.
                    write_keys-Prepared dir creds.ssh_private_key creds.known_hosts
                      (record { state = s''; made = e }) (temp s'').state)
                  (h.mkdir_all auth_root s').1)
              s)
      ]

  pub prepare_auth-Prepared :
      (repo_url : Text) (creds : Option Credentials) (s : h.State)
      → Prepared (prepare_auth h base repo_url creds s)
  unfolding prepare_auth
  prepare_auth-Prepared repo_url creds s = elim (Bool-cases (is_ssh_repository_url repo_url)) [
    | inl t ↦ rw t (prepare_keys-Prepared creds s)
    | inr f ↦ elim (Bool-cases (auth_header h.base64 creds == [])) [
      | inl t ↦ rw (f, t) (inl (_, refl, inl (refl, tt)))
      | inr g ↦ rw (f, g) (inl (_, refl, inl (refl, tt)))
    ]
  ]
