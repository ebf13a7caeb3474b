-- ===== src/Controller/Reconcile/Confinement.antt =====
-- How far the calls of a reconciliation reach: the repository, the namespaces and the files.
use cabure.Base.{
  ◌≡◌, refl, sym, ap, subst, ◌∙◌, Bool, true, false, ◌&&◌, ◌||◌, Option, none, some, List, ◌∷◌,
  ◌++◌, list_eq, nat_eq, ◌⊎◌, inl, inr, ok, is_ok, ok_injective, All, All-map, All-append, any,
  is_empty, arith,
}
use cabure.Text.{Text, has_prefix}
use cabure.Path.{clean, is_abs, resolve_within_root}
use cabure.Path.Machine.{IsName}
use cabure.Path.Rooted.{
  rooted_path, names_of, names_of-rooted, clean_of_abs, is_abs-rooted, names_of-IsName,
}
use cabure.Path.Inside.{resolve_within_root-inside}
use cabure.Url.{is_supported_repository_url}
use cabure.Api.{Object, Mapping, Scope, namespaced, root, ResourceReference}
use cabure.Api.Types.{GitApplication, OperatorConfig, Credentials}
use cabure.Inventory.{diff}
use cabure.Apply.Admission.{IsAdmitted, IsPlaced}
use cabure.Outside.{Outside, Visit}
use cabure.Render.Containment.{IsRead, walks, opens_visited, loads, opens_values}
use cabure.Effects.{
  Call, got_application, patched_status, got_secret, checked_out, applied, got_object, deleted,
  walked, opened, loaded_chart, looked_for, removed_all, ran_git, on_disk, on_queue,
}
use cabure.Effects.Calls.{Makes}
use cabure.Controller.Conditions.{success_status}
use cabure.Controller.Validation.{validate_spec}
use cabure.Controller.Validation.Accepts.{validate_spec-accepts}
use cabure.Controller.Prune.{request_namespace}
use cabure.Controller.Prune.Safety.{IsPruning, looks_up, removes}
use cabure.Controller.Requests.InOrder.{IsRequest, asks}
use cabure.Controller.Reconcile.{policy_of, synchronize}
use cabure.Controller.Reconcile.Authority.Stages.{synchronize-IsAuthorized}
use cabure.Controller.Reconcile.Authority.{
  IsAuthorized, reports_failure, records_success, reads_secret, checks_out, renders, applies,
  prunes, manager,
}

module _ (c : Outside) (cfg : OperatorConfig) (app : GitApplication) where
  -- The path lies in a directory that the repository was checked out to.
  pub record IsInCheckout (p : Text) : Type 0 where
    pub dir : Text
    pub sha : Text
    pub creds : Option Credentials
    pub state : c.State
    pub checked :
        (c.checkout app.spec.source.repository app.spec.source.revision creds state).0
        ≡ ok (dir, sha)
    pub below : List Text
    pub proper : All IsName below
    pub at : p ≡ rooted_path (names_of dir ++ below)

  -- The file was visited on a walk of such a path, and is no link.
  pub record IsVisited (p : Text) : Type 0 where
    pub start : Text
    pub inside : IsInCheckout start
    pub state : c.State
    pub visit : Visit
    pub before : List Visit
    pub after : List Visit
    pub walk : (c.walk start state).0 ≡ before ++ (visit ∷ after)
    pub unlinked : visit.is_symlink ≡ false
    pub path : p ≡ visit.path

  -- How far each call may reach.
  abbrev pub IsConfined : Call → Type 0
  IsConfined (got_application namespace name) = true ≡ false
  IsConfined (patched_status before after) =
      (after.attempted_revision ≡ before.attempted_revision)
      ⊎ (after.attempted_revision ≡ after.applied_revision)
  IsConfined (got_secret namespace name) =
      (namespace ≡ app.namespace) × (app.spec.source.secret_ref ≡ some name)
  IsConfined (checked_out repository revision creds) =
      (is_supported_repository_url repository ≡ true)
      × ((is_empty cfg.allowed_repository_prefixes
            || any (λ prefix. has_prefix repository prefix) cfg.allowed_repository_prefixes)
          ≡ true)
  IsConfined (applied resource (some namespace) name patch by force) =
      (namespace ≡ app.spec.destination.namespace)
      × (by ≡ manager c cfg app)
      × (force ≡ app.spec.takeover_existing_resources)
  IsConfined (applied resource none name patch by force) =
      (cfg.allow_cluster_scoped_resources ≡ true)
      × (by ≡ manager c cfg app)
      × (force ≡ app.spec.takeover_existing_resources)
  IsConfined (got_object resource namespace name) = app.spec.prune ≡ true
  IsConfined (deleted resource namespace name) = app.spec.prune ≡ true
  IsConfined (walked p) = IsInCheckout p
  IsConfined (looked_for p) = true ≡ false
  IsConfined (removed_all p) = true ≡ false
  IsConfined (ran_git dir args) = true ≡ false
  IsConfined (on_disk call) = true ≡ false
  IsConfined (on_queue call) = true ≡ false
  IsConfined (loaded_chart p) = IsInCheckout p
  IsConfined (opened p) = IsInCheckout p ⊎ IsVisited p

  repository_part :
      (i a b p rest : Bool) → (i && ((a && b && p) && rest)) ≡ true → (b ≡ true) × (p ≡ true)
  repository_part i a b p rest h = ground arith

  valid_repository :
      validate_spec c.machinery cfg app ≡ ok tt
      → (is_supported_repository_url app.spec.source.repository ≡ true)
        × ((is_empty cfg.allowed_repository_prefixes
              || any
                  (λ prefix. has_prefix app.spec.source.repository prefix)
                  cfg.allowed_repository_prefixes)
            ≡ true)
  valid_repository v =
      repository_part _ _ _ _ _ (sym (validate_spec-accepts c.machinery cfg app) ∙ ap is_ok v)

  located :
      (p dir sha : Text) (creds : Option Credentials) (s : c.State)
      → (c.checkout app.spec.source.repository app.spec.source.revision creds s).0 ≡ ok (dir, sha)
      → (q : List Text) → All IsName q
      → p ≡ rooted_path (names_of dir ++ q)
      → IsInCheckout p
  located p dir sha creds s h q proper e = record {
    dir = dir;
    sha = sha;
    creds = creds;
    state = s;
    checked = h;
    below = q;
    proper = proper;
    at = e;
  }

  -- A path that is resolved in the checkout lies in it, and so does the same path once cleaned.
  resolved_in :
      (dir sha : Text) (creds : Option Credentials) (s : c.State) (rel : Text) {p : Text}
      → (c.checkout app.spec.source.repository app.spec.source.revision creds s).0 ≡ ok (dir, sha)
      → is_abs dir ≡ true
      → resolve_within_root dir rel ≡ ok p
      → IsInCheckout p × IsInCheckout (clean p)
  resolved_in dir sha creds s rel {p} h absolute r =
      let (q, proper, at) = resolve_within_root-inside dir absolute rel r in
      let names = names_of dir ++ q in
      let cleaned : clean p ≡ rooted_path names =
        ap clean at
        ∙ clean_of_abs (rooted_path names) (is_abs-rooted names)
        ∙ ap rooted_path (
            names_of-rooted names
              (All-append IsName (names_of dir) q (names_of-IsName dir absolute) proper)) in
      let place =
        λ (t : Text) (e : t ≡ rooted_path names). located t dir sha creds s h q proper e in
      (place p at, place (clean p) cleaned)

  IsRead-IsConfined :
      (dir sha : Text) (creds : Option Credentials) (s : c.State) (call : Call)
      → (c.checkout app.spec.source.repository app.spec.source.revision creds s).0 ≡ ok (dir, sha)
      → is_abs dir ≡ true
      → IsRead c dir app.spec call
      → IsConfined call
  IsRead-IsConfined dir sha creds s _ h absolute (walks p r) =
      (resolved_in dir sha creds s app.spec.source.path h absolute r).0
  IsRead-IsConfined dir sha creds s _ h absolute (loads p r) =
      (resolved_in dir sha creds s app.spec.source.path h absolute r).0
  IsRead-IsConfined dir sha creds s _ h absolute (opens_values helm file p g k r) =
      inl (resolved_in dir sha creds s file h absolute r).1
  IsRead-IsConfined dir sha creds s _ h absolute (opens_visited p s' v before after r w d l y) =
      inr (record {
        start = p;
        inside = (resolved_in dir sha creds s app.spec.source.path h absolute r).0;
        state = s';
        visit = v;
        before = before;
        after = after;
        walk = w;
        unlinked = l;
        path = refl;
      })

  placed_request :
      (sha : Text) (obj : Object) (mapping : Mapping) (patch : Text) (scope : Scope)
      → IsPlaced c.machinery (policy_of c cfg app sha) obj scope
      → IsConfined (
          applied mapping.resource
            (request_namespace scope obj.namespace)
            obj.name
            patch
            (manager c cfg app)
            app.spec.takeover_existing_resources)
  placed_request sha obj mapping patch namespaced h = (h, refl, refl)
  placed_request sha obj mapping patch root h = (h.1, refl, refl)

  IsRequest-IsConfined :
      (sha : Text) (obj : Object) (call : Call)
      → IsAdmitted c.machinery (policy_of c cfg app sha) obj
      → IsRequest c (manager c cfg app) app.spec.takeover_existing_resources obj call
      → IsConfined call
  IsRequest-IsConfined sha obj _ a (asks patch mapping marshalled mapped) =
      placed_request sha obj mapping patch mapping.scope (
        subst (λ (m : Mapping). IsPlaced c.machinery (policy_of c cfg app sha) obj m.scope)
          (ok_injective (sym a.mapped ∙ mapped)) a.within)

  IsPruning-IsConfined :
      (stale : List ResourceReference) (call : Call)
      → app.spec.prune ≡ true
      → IsPruning c app stale call
      → IsConfined call
  IsPruning-IsConfined stale _ h (looks_up r mapping k e) = h
  IsPruning-IsConfined stale _ h (removes r obj mapping s k f g e) = h

  IsAuthorized-IsConfined :
      ((creds : Option Credentials) (s : c.State) (dir sha : Text)
        → (c.checkout app.spec.source.repository app.spec.source.revision creds s).0 ≡ ok (dir, sha)
        → is_abs dir ≡ true)
      → (call : Call) → IsAuthorized c cfg app call
      → IsConfined call
  unfolding success_status
  IsAuthorized-IsConfined absolute _ (reports_failure before after a b d) = inl a
  IsAuthorized-IsConfined absolute _ (records_success now sha l o d s s' before v n ap pr) =
      inr refl
  IsAuthorized-IsConfined absolute _ (reads_secret name v h) = (refl, h)
  IsAuthorized-IsConfined absolute _ (checks_out creds v) = valid_repository v
  IsAuthorized-IsConfined absolute _ (renders dir sha creds s call h r) =
      IsRead-IsConfined dir sha creds s call h (absolute creds s dir sha h) r
  IsAuthorized-IsConfined absolute _ (applies sha obj call v a r) =
      IsRequest-IsConfined sha obj call a r
  IsAuthorized-IsConfined absolute _ (prunes sha l o d s call v t n ap p) =
      IsPruning-IsConfined (diff c.machinery app.status.inventory d) call t p

-- If checkouts have absolute paths, a reconciliation reads the secret of its spec in its own
-- namespace only, checks out allowed repositories only, reads below the checkout or what a walk there
-- visits that is no link, applies in the destination namespace or to the cluster if the operator
-- allows that, with its own manager, and prunes only if the spec says so; and a status report
-- changes the attempted revision only together with the applied one.
pub synchronize-IsConfined :
    (c : Outside) (cfg : OperatorConfig) (app : GitApplication)
    → ((creds : Option Credentials) (s : c.State) (dir sha : Text)
        → (c.checkout app.spec.source.repository app.spec.source.revision creds s).0 ≡ ok (dir, sha)
        → is_abs dir ≡ true)
    → Makes (IsConfined c cfg app) (synchronize c cfg app)
synchronize-IsConfined c cfg app absolute s =
    All-map _ _ (synchronize c cfg app s).calls (IsAuthorized-IsConfined c cfg app absolute)
      (synchronize-IsAuthorized c cfg app s)
