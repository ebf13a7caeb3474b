-- ===== src/Api/Key.antt =====
-- When the key of a reference determines it.
use cabure.Base.{◌≡◌, ◌≢◌, refl, subst, [], ◌∷◌, ◌++◌, arith, All, ◌∙◌, sym, append_assoc}
use mathlib.Core.List.{tail-eq_of_cons-eq}
use cabure.Text.{Text}
use cabure.Api.{Machinery, ResourceReference, key}

-- A namespace or a name of the Kubernetes API has no slash.
abbrev pub HasNoSlash : Text → Type 0
HasNoSlash s = All (λ c. c ≢ b'/') s

-- Different groups, versions and kinds are printed differently.
abbrev pub PrintsInjectively : Machinery → Type 0
PrintsInjectively m =
    (g v k g' v' k' : Text)
    → m.gvk_string g v k ≡ m.gvk_string g' v' k'
    → (g ≡ g') × (v ≡ v') × (k ≡ k')

slash_behind : (s t : Text) → ¬ HasNoSlash (s ++ (b'/' ∷ t))
slash_behind [] t n = n.0 refl
slash_behind (c ∷ s) t n = slash_behind s t n.1

-- A text with no slash is what stands behind the last slash.
last_piece_unique :
    (s s' t t' : Text)
    → HasNoSlash t
    → HasNoSlash t'
    → s ++ (b'/' ∷ t) ≡ s' ++ (b'/' ∷ t')
    → (s ≡ s') × (t ≡ t')
last_piece_unique [] [] t t' n n' e = (refl, cc)
last_piece_unique [] (c ∷ s') t t' n n' e =
    absurd (slash_behind s' t' (subst HasNoSlash (tail-eq_of_cons-eq e) n))
last_piece_unique (c ∷ s) [] t t' n n' e =
    absurd (slash_behind s t (subst HasNoSlash (sym (tail-eq_of_cons-eq e)) n'))
last_piece_unique (c ∷ s) (c' ∷ s') t t' n n' e = ground (arith, last_piece_unique s s' t t' n n')

-- Namespace and name can be read off a key.
key_parts :
    (m : Machinery) (r r' : ResourceReference)
    → HasNoSlash r.namespace
    → HasNoSlash r.name
    → HasNoSlash r'.namespace
    → HasNoSlash r'.name
    → key m r ≡ key m r'
    → (m.gvk_string r.group r.version r.kind ≡ m.gvk_string r'.group r'.version r'.kind)
      × (r.namespace ≡ r'.namespace)
      × (r.name ≡ r'.name)
unfolding key
key_parts m r r' s n s' n' e = (front.0, front.1, back.1)
  where
    front_of : ResourceReference → Text
    front_of q = m.gvk_string q.group q.version q.kind ++ (b'/' ∷ q.namespace)

    back : (front_of r ≡ front_of r') × (r.name ≡ r'.name)
    back = last_piece_unique (front_of r) (front_of r') r.name r'.name n n' (
        append_assoc _ (b'/' ∷ r.namespace) (b'/' ∷ r.name)
        ∙ e
        ∙ sym (append_assoc _ (b'/' ∷ r'.namespace) (b'/' ∷ r'.name)))

    front :
        (m.gvk_string r.group r.version r.kind ≡ m.gvk_string r'.group r'.version r'.kind)
        × (r.namespace ≡ r'.namespace)
    front = last_piece_unique _ _ r.namespace r'.namespace s s' back.0

-- References with the same key are equal, if kinds are printed injectively and neither namespaces
-- nor names hold a slash.
pub key-injective :
    (m : Machinery) (r r' : ResourceReference)
    → PrintsInjectively m
    → HasNoSlash r.namespace
    → HasNoSlash r.name
    → HasNoSlash r'.namespace
    → HasNoSlash r'.name
    → key m r ≡ key m r'
    → r ≡ r'
key-injective m r r' inj s n s' n' e =
    ground (
      arith,
      key_parts m r r' s n s' n' e,
      inj r.group r.version r.kind r'.group r'.version r'.kind,
    )
