-- ===== src/Api/Memory/Copies.antt =====
-- A deep copy has the value of its original, and shares no memory with it
-- (api/v1alpha1/gitapplication_types.go).
use cabure.Base.{
  ◌≡◌, refl, ap, ◌∙◌, true, Bool-cases, inl, inr, Option, none, some, List, [], ◌∷◌, nat_eq,
  is_empty, arith,
}
use cabure.Text.{Text}
use cabure.Api.Memory.{
  Address, Slice, HelmStruct, Cell, helm_cell, texts_cell, text_cell, time_cell, references_cell,
  conditions_cell, text_of, time_of, helm_of, texts_of, references_of, conditions_of, SpecStruct,
  StatusStruct, Heap, alloc, copy_pointer, copy_slice, copy_helm, deep_copy_spec, deep_copy_status,
  pointee, items, helm_value, helm_at, spec_value, status_value,
}
use cabure.Api.Memory.Growth.{
  Grown, Grown-refl, Grown-trans, Fixed, Fixed-Grown, Fixed-lower, alloc-Grown, last-Fixed,
  IsAllocated, HelmIsAllocated, pointee-Grown, items-Grown, helm_at-Grown,
}

-- How copying ends: the heap has grown, and the copy has the value, in new cells only.
abbrev IsCopy :
    {X : Type 0} → (Heap → Option Address → X) → X → Heap → Option Address × Heap → Type 0
IsCopy V x h r = Grown h r.1 × Fixed (λ g. V g r.0) h.next r.1 x

module _ {A : Type 0} (read : Cell → A) (cell : A → Cell)
    (reads : (v : A) → read (cell v) ≡ v) where
  copy_pointer-IsCopy :
      (o : Option Address) (h : Heap)
      → IsCopy (pointee read) (pointee read h o) h (copy_pointer read cell o h)
  unfolding copy_pointer
  copy_pointer-IsCopy none h = (Grown-refl h, λ g same. refl)
  copy_pointer-IsCopy (some a) h =
      let v = read (h.cells a) in
      (
        alloc-Grown (cell v) h,
        λ g same. last-Fixed (λ c. some (read c)) (cell v) h g same ∙ ap some (reads v),
      )

module _ {A : Type 0} (read : Cell → List A) (cell : List A → Cell)
    (reads : (v : List A) → read (cell v) ≡ v) where
  empty_list : (v : List A) → is_empty v ≡ true → [] ≡ v
  empty_list [] e = refl
  empty_list (x ∷ v) e = cc

  copy_slice-IsCopy :
      (o : Slice) (h : Heap) → IsCopy (items read) (items read h o) h (copy_slice read cell o h)
  unfolding copy_slice
  copy_slice-IsCopy none h = (Grown-refl h, λ g same. refl)
  copy_slice-IsCopy (some a) h =
      let v = read (h.cells a) in
      elim (Bool-cases (is_empty v)) [
        | inl t ↦ rw t (Grown-refl h, λ g same. empty_list v t)
        | inr f ↦
            rw f (alloc-Grown (cell v) h, λ g same. last-Fixed read (cell v) h g same ∙ reads v)
      ]

copy_helm-IsCopy : (o : Option Address) (h : Heap) → IsCopy helm_at (helm_at h o) h (copy_helm o h)
unfolding copy_helm
copy_helm-IsCopy none h = (Grown-refl h, λ g same. refl)
copy_helm-IsCopy (some a) h =
    let helm = helm_of (h.cells a) in
    let copied = copy_slice texts_of texts_cell helm.values_files h in
    let (grown, fixed) = copy_slice-IsCopy texts_of texts_cell (λ v. refl) helm.values_files h in
    let copy = record helm { values_files = copied.0 } in
    let added = alloc-Grown (helm_cell copy) copied.1 in
    (
      Grown-trans h copied.1 (alloc (helm_cell copy) copied.1) grown added,
      λ g same.
          ap (λ (x : HelmStruct). some (helm_value g x))
            (last-Fixed helm_of (helm_cell copy) copied.1 g
              (λ b l u. same b (omega (arith, l, grown.more)) u))
          ∙ ap
              (λ (files : List Text). some (record {
                release_name = helm.release_name;
                values_files = files;
                include_crds = helm.include_crds;
              }))
              (Fixed-Grown (λ g'. items texts_of g' copied.0) h.next copied.1
                (alloc (helm_cell copy) copied.1) (items texts_of h helm.values_files) fixed added g
                same),
    )

-- One field of a copy, seen from the start and the end of the copying.
field_Fixed :
    {X : Type 0} (V : Heap → Option Address → X) (x y : X) (h0 h : Heap) (r : Option Address × Heap)
    (k : Heap)
    → IsCopy V x h r
    → Grown h0 h
    → Grown r.1 k
    → x ≡ y
    → Fixed (λ g. V g r.0) h0.next k y
field_Fixed V x y h0 h r k copy before after e g same =
    Fixed-lower (λ g'. V g' r.0) h.next h0.next k x
      (Fixed-Grown (λ g'. V g' r.0) h.next r.1 k x copy.1 after) before.more g same
    ∙ e

-- All pointers of a status.
pub record StatusIsAllocated (h : Heap) (status : StatusStruct) : Type 0 where
  pub attempt : IsAllocated h status.last_attempt_time
  pub success : IsAllocated h status.last_success_time
  pub inventory : IsAllocated h status.inventory
  pub conditions : IsAllocated h status.conditions

-- All pointers of a spec.
pub record SpecIsAllocated (h : Heap) (spec : SpecStruct) : Type 0 where
  pub secret : IsAllocated h spec.secret_ref
  pub helm : HelmIsAllocated h spec.helm
  pub kinds : IsAllocated h spec.allowed_cluster_scoped_kinds

-- The heap after a status is copied.
pub status-Grown : (h : Heap) (status : StatusStruct) → Grown h (deep_copy_status status h).1
unfolding deep_copy_status
status-Grown h status =
    let c1 = copy_pointer-IsCopy time_of time_cell (λ v. refl) status.last_attempt_time h in
    let r1 = copy_pointer time_of time_cell status.last_attempt_time h in
    let c2 = copy_pointer-IsCopy time_of time_cell (λ v. refl) status.last_success_time r1.1 in
    let r2 = copy_pointer time_of time_cell status.last_success_time r1.1 in
    let c3 = copy_slice-IsCopy references_of references_cell (λ v. refl) status.inventory r2.1 in
    let r3 = copy_slice references_of references_cell status.inventory r2.1 in
    let c4 = copy_slice-IsCopy conditions_of conditions_cell (λ v. refl) status.conditions r3.1 in
    let r4 = copy_slice conditions_of conditions_cell status.conditions r3.1 in
    Grown-trans h r1.1 r4.1 c1.0
      (Grown-trans r1.1 r2.1 r4.1 c2.0 (Grown-trans r2.1 r3.1 r4.1 c3.0 c4.0))

-- A copied status, whatever becomes of the cells below the new ones.
pub status-Fixed :
    (h : Heap) (status : StatusStruct)
    → StatusIsAllocated h status
    → Fixed
        (λ g. status_value g (deep_copy_status status h).0)
        h.next
        (deep_copy_status status h).1
        (status_value h status)
unfolding deep_copy_status status_value
status-Fixed h status ok g same =
    let r1 = copy_pointer time_of time_cell status.last_attempt_time h in
    let c1 = copy_pointer-IsCopy time_of time_cell (λ v. refl) status.last_attempt_time h in
    let r2 = copy_pointer time_of time_cell status.last_success_time r1.1 in
    let c2 = copy_pointer-IsCopy time_of time_cell (λ v. refl) status.last_success_time r1.1 in
    let r3 = copy_slice references_of references_cell status.inventory r2.1 in
    let c3 = copy_slice-IsCopy references_of references_cell (λ v. refl) status.inventory r2.1 in
    let r4 = copy_slice conditions_of conditions_cell status.conditions r3.1 in
    let c4 = copy_slice-IsCopy conditions_of conditions_cell (λ v. refl) status.conditions r3.1 in
    let to2 = Grown-trans h r1.1 r2.1 c1.0 c2.0 in
    let to3 = Grown-trans h r2.1 r3.1 to2 c3.0 in
    let from2 = Grown-trans r2.1 r3.1 r4.1 c3.0 c4.0 in
    let e1 : pointee time_of g r1.0 ≡ pointee time_of h status.last_attempt_time =
      field_Fixed (pointee time_of) _ _ h h r1 r4.1 c1 (Grown-refl h)
        (Grown-trans r1.1 r2.1 r4.1 c2.0 from2) refl g same in
    let e2 : pointee time_of g r2.0 ≡ pointee time_of h status.last_success_time =
      field_Fixed (pointee time_of) _ _ h r1.1 r2 r4.1 c2 c1.0 from2
        (pointee-Grown time_of status.last_success_time h r1.1 ok.success c1.0) g same in
    let e3 : items references_of g r3.0 ≡ items references_of h status.inventory =
      field_Fixed (items references_of) _ _ h r2.1 r3 r4.1 c3 to2 c4.0
        (items-Grown references_of status.inventory h r2.1 ok.inventory to2) g same in
    let e4 : items conditions_of g r4.0 ≡ items conditions_of h status.conditions =
      field_Fixed (items conditions_of) _ _ h r3.1 r4 r4.1 c4 to3 (Grown-refl r4.1)
        (items-Grown conditions_of status.conditions h r3.1 ok.conditions to3) g same in
    cc

pub spec-Grown : (h : Heap) (spec : SpecStruct) → Grown h (deep_copy_spec spec h).1
unfolding deep_copy_spec
spec-Grown h spec =
    let r1 = copy_pointer text_of text_cell spec.secret_ref h in
    let c1 = copy_pointer-IsCopy text_of text_cell (λ v. refl) spec.secret_ref h in
    let r2 = copy_helm spec.helm r1.1 in
    let c2 = copy_helm-IsCopy spec.helm r1.1 in
    let r3 = copy_slice texts_of texts_cell spec.allowed_cluster_scoped_kinds r2.1 in
    let c3 =
      copy_slice-IsCopy texts_of texts_cell (λ v. refl) spec.allowed_cluster_scoped_kinds r2.1 in
    Grown-trans h r1.1 r3.1 c1.0 (Grown-trans r1.1 r2.1 r3.1 c2.0 c3.0)

-- A copied spec, whatever becomes of the cells below the new ones.
pub spec-Fixed :
    (h : Heap) (spec : SpecStruct)
    → SpecIsAllocated h spec
    → Fixed
        (λ g. spec_value g (deep_copy_spec spec h).0)
        h.next
        (deep_copy_spec spec h).1
        (spec_value h spec)
unfolding deep_copy_spec spec_value
spec-Fixed h spec ok g same =
    let r1 = copy_pointer text_of text_cell spec.secret_ref h in
    let c1 = copy_pointer-IsCopy text_of text_cell (λ v. refl) spec.secret_ref h in
    let r2 = copy_helm spec.helm r1.1 in
    let c2 = copy_helm-IsCopy spec.helm r1.1 in
    let r3 = copy_slice texts_of texts_cell spec.allowed_cluster_scoped_kinds r2.1 in
    let c3 =
      copy_slice-IsCopy texts_of texts_cell (λ v. refl) spec.allowed_cluster_scoped_kinds r2.1 in
    let to2 = Grown-trans h r1.1 r2.1 c1.0 c2.0 in
    let e1 : pointee text_of g r1.0 ≡ pointee text_of h spec.secret_ref =
      field_Fixed (pointee text_of) _ _ h h r1 r3.1 c1 (Grown-refl h)
        (Grown-trans r1.1 r2.1 r3.1 c2.0 c3.0) refl g same in
    let e2 : helm_at g r2.0 ≡ helm_at h spec.helm =
      field_Fixed helm_at _ _ h r1.1 r2 r3.1 c2 c1.0 c3.0
        (helm_at-Grown spec.helm h r1.1 ok.helm c1.0) g same in
    let e3 : items texts_of g r3.0 ≡ items texts_of h spec.allowed_cluster_scoped_kinds =
      field_Fixed (items texts_of) _ _ h r2.1 r3 r3.1 c3 to2 (Grown-refl r3.1)
        (items-Grown texts_of spec.allowed_cluster_scoped_kinds h r2.1 ok.kinds to2) g same in
    cc

-- What is read of allocated structs stays the same while the heap grows.
pub status_value-Grown :
    (status : StatusStruct) (h g : Heap)
    → StatusIsAllocated h status
    → Grown h g
    → status_value g status ≡ status_value h status
unfolding status_value
status_value-Grown status h g ok grown =
    let e1 = pointee-Grown time_of status.last_attempt_time h g ok.attempt grown in
    let e2 = pointee-Grown time_of status.last_success_time h g ok.success grown in
    let e3 = items-Grown references_of status.inventory h g ok.inventory grown in
    let e4 = items-Grown conditions_of status.conditions h g ok.conditions grown in cc

pub spec_value-Grown :
    (spec : SpecStruct) (h g : Heap)
    → SpecIsAllocated h spec
    → Grown h g
    → spec_value g spec ≡ spec_value h spec
unfolding spec_value
spec_value-Grown spec h g ok grown =
    let e1 = pointee-Grown text_of spec.secret_ref h g ok.secret grown in
    let e2 = helm_at-Grown spec.helm h g ok.helm grown in
    let e3 = items-Grown texts_of spec.allowed_cluster_scoped_kinds h g ok.kinds grown in cc
