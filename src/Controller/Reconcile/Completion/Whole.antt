-- ===== src/Controller/Reconcile/Completion/Whole.antt =====
-- When all stages of a reconciliation succeed, from the checkout on and from the start.
use cabure.Base.{◌≡◌, ◌↔◌, refl, ap, ◌∙◌, true, false, Option, List, ok, Error}
use cabure.Text.{Text, codes}
use cabure.Api.{Object}
use cabure.Api.Types.{GitApplication, OperatorConfig, Credentials}
use cabure.Outside.{Outside}
use cabure.Effects.{checked_out, M, attempt, perform, throw, lift, ◌>>=◌}
use cabure.Effects.Calls.{attempt-returns, attempt-returned, >>=-returned}
use cabure.Controller.Validation.{validate_spec}
use cabure.Controller.Credentials.{Loaded, found, refused, load_credentials}
use cabure.Controller.Reconcile.{Requeue, fail, render, deliver, fetch, synchronize}
use cabure.Controller.Reconcile.Authority.{attempted}
use cabure.Controller.Reconcile.Completion.{fail_fails, IsDelivered, deliver-returns}

module _ (c : Outside) (cfg : OperatorConfig) (app : GitApplication) where
  -- The stages from the checkout on.
  pub record IsFetched (creds : Option Credentials) (s : c.State) (r : Requeue) : Type 0 where
    pub dir : Text
    pub sha : Text
    pub checked :
        (c.checkout app.spec.source.repository app.spec.source.revision creds s).0 ≡ ok (dir, sha)
    pub rendered : List Object
    pub drawn :
        (render c cfg
          (attempted c cfg app sha)
          dir
          (c.checkout app.spec.source.repository app.spec.source.revision creds s).1).result
        ≡ ok rendered
    pub delivered :
        IsDelivered c cfg app sha rendered
          (render c cfg
            (attempted c cfg app sha)
            dir
            (c.checkout app.spec.source.repository app.spec.source.revision creds s).1).state
          r

  fetch-returns :
      (creds : Option Credentials) (s : c.State) (r : Requeue)
      → (fetch c cfg app creds s).result ≡ ok r ↔ IsFetched creds s r
  unfolding fetch
  fetch-returns creds s r =
      let source = app.spec.source in
      let check_out =
        perform (checked_out source.repository source.revision creds)
          (c.checkout source.repository source.revision creds) in
      let refuse = λ (e : Error). fail c cfg {A = Requeue} app (codes "checkout") e false in
      let give_up = λ (sha : Text) (e : Error).
        fail c cfg {A = Requeue} (attempted c cfg app sha) (codes "render") e false in
      let rest = λ (p : Text × Text).
        attempt (render c cfg (attempted c cfg app p.1) p.0) (give_up p.1)
          (λ rendered. deliver c cfg (attempted c cfg app p.1) p.1 rendered) in
      let s' = (check_out s).state in
      (
        λ h.
            let (p, n, k) =
              attempt-returned check_out refuse rest s
                (λ e s'. fail_fails c cfg app Requeue app (codes "checkout") e false s') h in
            let (rendered, d, e) =
              attempt-returned (render c cfg (attempted c cfg app p.1) p.0) (give_up p.1)
                (λ rendered. deliver c cfg (attempted c cfg app p.1) p.1 rendered) s'
                (λ e s'.
                  fail_fails c cfg app Requeue (attempted c cfg app p.1) (codes "render") e false
                    s')
                k in
            record {
              dir = p.0;
              sha = p.1;
              checked = n;
              rendered = rendered;
              drawn = d;
              delivered =
                  (deliver-returns c cfg app p.1 rendered
                      (render c cfg (attempted c cfg app p.1) p.0 s').state r).0
                    e;
            },
        λ p.
            attempt-returns check_out refuse rest s p.checked
            ∙ attempt-returns (render c cfg (attempted c cfg app p.sha) p.dir) (give_up p.sha)
                (λ rendered. deliver c cfg (attempted c cfg app p.sha) p.sha rendered) s' p.drawn
            ∙ (deliver-returns c cfg app p.sha p.rendered
                  (render c cfg (attempted c cfg app p.sha) p.dir s').state r).1
                p.delivered,
      )

  -- Every stage succeeds.
  pub record IsComplete (s : c.State) (r : Requeue) : Type 0 where
    pub valid : validate_spec c.machinery cfg app ≡ ok tt
    pub creds : Option Credentials
    pub loaded : (load_credentials c app s).result ≡ ok (found creds)
    pub fetched : IsFetched creds (load_credentials c app s).state r

  abbrev go_on : Loaded → M c.State Requeue
  go_on (refused e stalled) = fail c cfg app (codes "source fetch") e stalled
  go_on (found creds) = fetch c cfg app creds

  refused_fails :
      (loaded : Loaded) (s : c.State) (r : Requeue)
      → (go_on loaded s).result ≡ ok r
      → (creds : Option Credentials) × (loaded ≡ found creds)
        × ((fetch c cfg app creds s).result ≡ ok r)
  refused_fails (refused e stalled) s r h =
      absurd (fail_fails c cfg app Requeue app (codes "source fetch") e stalled s h)
  refused_fails (found creds) s r h = (creds, refl, h)

-- A reconciliation succeeds exactly if every stage does, each from the state that the one before
-- left: the spec is valid, the credentials are found, checkout and rendering return, what is rendered
-- is admitted and applied, pruning (if asked for) and the report of the success return; and then it
-- comes again after the interval of the application that the report returned.
pub synchronize-returns :
    (c : Outside) (cfg : OperatorConfig) (app : GitApplication) (s : c.State) (r : Requeue)
    → (synchronize c cfg app s).result ≡ ok r ↔ IsComplete c cfg app s r
unfolding synchronize
synchronize-returns c cfg app s r =
    let go : Loaded → M c.State Requeue = λ loaded. elim loaded [
      | refused e stalled ↦ fail c cfg app (codes "source fetch") e stalled
      | found creds ↦ fetch c cfg app creds
    ] in
    let refuse = λ (e : Error). fail c cfg {A = Requeue} app (codes "policy validation") e true in
    let check = lift (validate_spec c.machinery cfg app) in
    let s' = (load_credentials c app s).state in
    (
      λ h.
          let (_, v, k) =
            attempt-returned check refuse (λ _. (load_credentials c app >>= go)) s
              (λ e s'. fail_fails c cfg app Requeue app (codes "policy validation") e true s') h in
          let (loaded, l, e) = >>=-returned (load_credentials c app) go s k in
          let (creds, found_them, f) = refused_fails c cfg app loaded s' r e in
          record {
            valid = v;
            creds = creds;
            loaded = l ∙ ap ok found_them;
            fetched = (fetch-returns c cfg app creds s' r).0 f;
          },
      λ p.
          attempt-returns check refuse (λ _. (load_credentials c app >>= go)) s p.valid
          ∙ attempt-returns (load_credentials c app) throw go s p.loaded
          ∙ (fetch-returns c cfg app p.creds s' r).1 p.fetched,
    )
