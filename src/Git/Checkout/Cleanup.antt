-- ===== src/Git/Checkout/Cleanup.antt =====
-- `Checkout` removes the SSH keys that `prepareAuth` wrote (internal/git/repository.go).
use cabure.Base.{
  sym, Bool-cases, Option, [], ◌∷◌, ◌++◌, append_assoc, append-nil, inl, inr, ◌⊎◌, All, All-append,
  All-map, ◌==◌, list_eq, nat_eq, if◌then◌else◌,
}
use cabure.Text.{Text, codes}
use cabure.Path.{join_path}
use cabure.Api.Types.{Credentials}
use cabure.Effects.{M, removed_all, throw, ◌>>=◌, ◌>>◌}
use cabure.Effects.Calls.{Makes}
use cabure.Effects.Logic.{Makes-Logic}
use cabure.Git.Host.{Host, GitAuth, cache_root, repo_hash}
use cabure.Git.Follows.Serving.{serve-follows}
use cabure.Git.Checkout.{make_dir, prepare_auth, with_cleanup, serve, checkout}
use cabure.Git.Checkout.Keys.{
  WritesNothing, WritesIn, weaken, KeysGone, Clean, Prepared, attempt-Clean, prepare_auth-Prepared,
}

module _ (h : Host) (base : Text) where
  serve-WritesNothing :
      (mirror_dir checkout_dir repo_url revision : Text) (auth : Option GitAuth)
      → Makes WritesNothing (serve h mirror_dir checkout_dir repo_url auth revision)
  serve-WritesNothing mirror_dir checkout_dir repo_url revision auth =
      serve-follows h (λ A m. Makes WritesNothing m) (Makes-Logic WritesNothing) mirror_dir
        checkout_dir repo_url auth revision
        (record {
          head = λ s. (tt, tt);
          removal = λ s. (tt, tt);
          runs = λ dir args run s. (tt, tt);
        })
        (λ path. record {
          opens = λ s. (tt, tt);
          tries = λ file s. (tt, tt);
          unlocks = λ file s. (tt, tt);
          closes = λ file s. (tt, tt);
          sleeps = λ s. (tt, tt);
        })
        (λ sha. record {
          look = λ s. (tt, tt);
          temp = λ s. (tt, tt);
          clones = λ t s. (tt, tt);
          checks_out = λ t s. (tt, tt);
          renames = λ t s. (tt, tt);
          removes = λ t s. (tt, tt);
        })

  -- What is cleaned up after code that writes nothing.
  with_cleanup-Clean :
      {A : Type 0} (prepare : M h.State (Option GitAuth)) (m : Option GitAuth → M h.State A)
      → ((s : h.State) → Prepared h base (prepare s))
      → ((auth : Option GitAuth) → Makes WritesNothing (m auth))
      → (s : h.State) → Clean h base ((prepare >>= λ auth. with_cleanup h auth (m auth)) s).calls
  unfolding with_cleanup
  with_cleanup-Clean prepare m hp hm s = elim (hp s) [
    | inr (x, e, clean) ↦ rw (e, append-nil) clean
    | inl (auth, e, inl (none_there, none_written)) ↦
        rw (e, none_there, with_cleanup)
          (inl (All-append WritesNothing _ _ none_written (hm auth (prepare s).state)))
    | inl (auth, e, inr (dir, there, made, writes)) ↦
        let o = m auth (prepare s).state in
        rw (e, there, with_cleanup)
          (inr (record {
            dir = dir;
            key_dir = made;
            before = (prepare s).calls ++ o.calls;
            ends = sym (append_assoc (prepare s).calls o.calls (removed_all dir ∷ []));
            writes = All-append (WritesIn dir) _ _ writes (
                All-append (WritesIn dir) o.calls (removed_all dir ∷ [])
                  (All-map _ _ o.calls (weaken dir) (hm auth (prepare s).state)) (tt, tt));
          }))
  ]

-- A checkout asks for its SSH keys to be removed. Either `Checkout` writes no file, or it makes a new directory below
-- `auth` in the cache, writes at most the key and the known hosts there, for their owner only, and
-- removes that directory in its last call, whether it returns a checkout or an error.
pub checkout-removes_keys :
    (h : Host) (cache_dir repo_url revision : Text) (creds : Option Credentials) (s : h.State)
    → All WritesNothing (checkout h cache_dir repo_url revision creds s).calls
      ⊎ KeysGone h (cache_root h cache_dir s) (checkout h cache_dir repo_url revision creds s).calls
unfolding checkout
checkout-removes_keys h cache_dir repo_url revision creds s = elim (Bool-cases (repo_url == [])) [
  | inl t ↦ rw t (inl tt)
  | inr f ↦
      let base = cache_root h cache_dir s in
      let mirrors = join_path base (codes "mirrors") in
      let mirror_dir = join_path mirrors (repo_hash h repo_url ++ codes ".git") in
      let checkout_dir = join_path (join_path base (codes "checkouts")) (repo_hash h repo_url) in
      let prepare = prepare_auth h base repo_url creds in
      let work = λ (auth : Option GitAuth).
        serve h mirror_dir checkout_dir repo_url auth
          (if revision == [] then codes "main" else revision) in
      let rest = prepare >>= λ auth. with_cleanup h auth (work auth) in
      rw f (
        attempt-Clean h base (make_dir h mirrors) throw (λ _. make_dir h checkout_dir >> rest)
          (λ s'. (tt, tt)) (λ e s'. inl tt)
          (λ _ s' _.
            attempt-Clean h base (make_dir h checkout_dir) throw (λ _. rest) (λ s''. (tt, tt))
              (λ e s''. inl tt)
              (λ _ s'' _.
                with_cleanup-Clean h base prepare work (prepare_auth-Prepared h base repo_url creds)
                  (serve-WritesNothing h base mirror_dir checkout_dir repo_url
                    (if revision == [] then codes "main" else revision))
                  (h.mkdir_all checkout_dir s'').1)
              (h.mkdir_all mirrors s').1)
          s)
]
