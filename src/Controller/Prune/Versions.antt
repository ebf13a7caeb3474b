-- ===== src/Controller/Prune/Versions.antt =====
-- What pruning does once the version in an object's `apiVersion` has changed.
use cabure.Base.{
  ◌≡◌, ◌≢◌, refl, ap, ◌∙◌, true, false, List, [], ◌∷◌, ◌++◌, ◌==◌, list_eq, nat_eq, ==_iff,
  Bool-cases, ok, Result-cases, inl, inr, length, length-append, arith,
}
use cabure.Text.{Text}
use cabure.Api.{Object, ResourceReference, Mapping, Machinery, key}
use cabure.Api.Types.{GitApplication}
use cabure.Inventory.{diff}
use cabure.Inventory.Diff.{diff_of_other_key}
use cabure.Apply.{mapping_of}
use cabure.Outside.{Outside}
use cabure.Effects.{got_object, deleted}
use cabure.Controller.Prune.{
  request_namespace, fetch_live_object, delete_object, is_marked_by, prune_stale, prune,
}

module _ (c : Outside) (app : GitApplication) where
  prune_single :
      (r : ResourceReference) (obj : Object) (mapping mapping' : Mapping) (s : c.State)
      → c.machinery.rest_mapping r.group r.kind r.version ≡ ok mapping
      → (c.get_object mapping.resource (request_namespace mapping.scope r.namespace) r.name s).0
        ≡ ok obj
      → is_marked_by c app obj ≡ true
      → mapping_of c.machinery obj ≡ ok mapping'
      → (prune_stale c app (r ∷ []) s).calls
        ≡ got_object mapping.resource (request_namespace mapping.scope r.namespace) r.name
          ∷ deleted mapping'.resource (request_namespace mapping'.scope obj.namespace) obj.name
          ∷ []
  unfolding prune_stale fetch_live_object delete_object
  prune_single r obj mapping mapping' s known live marked mapped =
      let ns' = request_namespace mapping'.scope obj.namespace in
      let s' =
        (c.get_object mapping.resource (request_namespace mapping.scope r.namespace) r.name s).1 in
      elim (Result-cases (c.delete_object mapping'.resource ns' obj.name s').0) [
        | inl (u, h) ↦ simp (known, live, marked, mapped, h)
        | inr (e, h) ↦ simp (known, live, marked, mapped, h)
      ]

-- With one group and kind, different versions are printed differently, as by `GroupVersionKind.String`.
abbrev pub PrintsVersions : Machinery → Type 0
PrintsVersions m =
    (group kind version version' : Text)
    → m.gvk_string group version kind ≡ m.gvk_string group version' kind
    → version ≡ version'

pub same_front : (a b c : Text) → a ++ c ≡ b ++ c → a ≡ b
same_front [] [] c h = refl
same_front [] (y ∷ b) c h = absurd (omega (arith, ap length h, length-append b c))
same_front (x ∷ a) [] c h = absurd (omega (arith, ap length h, length-append a c))
same_front (x ∷ a) (y ∷ b) c h =
    (let tails : a ++ c ≡ b ++ c = cc in let fronts = same_front a b c tails in cc)

-- Then the keys tell versions apart.
other_version-key :
    (m : Machinery) (r : ResourceReference) (version : Text)
    → PrintsVersions m
    → version ≢ r.version
    → (key m (record r { version = version }) == key m r) ≡ false
unfolding key
other_version-key m r version printed other =
    elim (Bool-cases (key m (record r { version = version }) == key m r)) [
      | inr f ↦ f
      | inl t ↦
          let fronts =
            same_front (m.gvk_string r.group version r.kind) (m.gvk_string r.group r.version r.kind)
              (b'/' ∷ (r.namespace ++ (b'/' ∷ r.name)))
              ((==_iff (key m (record r { version = version })) (key m r)).0 t) in
          absurd (other (printed r.group r.kind version r.version fronts))
    ]

-- An object whose version has changed is pruned although it is desired. If the inventory has one reference,
-- the desired one is to the same group, kind, namespace and name under another version, and the text of a
-- group, version and kind tells versions apart, then the live object that the old version shows is
-- deleted as long as it carries the marks.
pub prune-other_version :
    (c : Outside) (app : GitApplication) (r : ResourceReference) (version : Text) (obj : Object)
    (mapping mapping' : Mapping) (s : c.State)
    → PrintsVersions c.machinery
    → app.status.inventory ≡ r ∷ []
    → version ≢ r.version
    → c.machinery.rest_mapping r.group r.kind r.version ≡ ok mapping
    → (c.get_object mapping.resource (request_namespace mapping.scope r.namespace) r.name s).0
      ≡ ok obj
    → is_marked_by c app obj ≡ true
    → mapping_of c.machinery obj ≡ ok mapping'
    → (prune c app (record r { version = version } ∷ []) s).calls
      ≡ got_object mapping.resource (request_namespace mapping.scope r.namespace) r.name
        ∷ deleted mapping'.resource (request_namespace mapping'.scope obj.namespace) obj.name
        ∷ []
unfolding prune
prune-other_version c app r version obj mapping mapping' s printed inventory other known live marked
      mapped =
    let r' = record r { version = version } in
    ap (λ (d : List ResourceReference). (prune_stale c app d s).calls)
      (ap (λ (p : List ResourceReference). diff c.machinery p (r' ∷ [])) inventory
        ∙ diff_of_other_key c.machinery r r'
            (other_version-key c.machinery r version printed other))
    ∙ prune_single c app r obj mapping mapping' s known live marked mapped
