-- ===== src/Api/Memory.antt =====
-- `GitApplication` in memory, where pointers and slices are addresses, and its deep copies
-- (api/v1alpha1/gitapplication_types.go).
pub mod Growth
pub mod Copies
pub mod Apart
use cabure.Base.{
  ℕ, suc, Bool, true, false, Option, none, some, List, [], ◌∷◌, ◌==◌, nat_eq, is_empty,
  if◌then◌else◌,
}
use cabure.Base.Int.{ℤ}
use cabure.Text.{Text}
use cabure.Api.{ResourceReference}
use cabure.Api.Types.{
  GitSourceSpec, HelmRenderSpec, GitApplicationSpec, GitApplicationStatus, Condition,
}

abbrev pub Address : Type 0
Address = ℕ

-- A slice is nil, or it has an array to itself.
abbrev pub Slice : Type 0
Slice = Option Address

-- `HelmRenderSpec`
pub record HelmStruct : Type 0 where
  pub release_name : Text
  pub values_files : Slice
  pub include_crds : Bool

pub data Cell : Type 0 where
  text_cell : Text → Cell
  time_cell : ℕ → Cell
  helm_cell : HelmStruct → Cell
  texts_cell : List Text → Cell
  references_cell : List ResourceReference → Cell
  conditions_cell : List Condition → Cell

-- What a pointer of each type reads.
abbrev pub text_of : Cell → Text
text_of (text_cell t) = t
text_of _ = []

abbrev pub time_of : Cell → ℕ
time_of (time_cell t) = t
time_of _ = 0

abbrev pub helm_of : Cell → HelmStruct
helm_of (helm_cell helm) = helm
helm_of _ = record { release_name = []; values_files = none; include_crds = false }

abbrev pub texts_of : Cell → List Text
texts_of (texts_cell ts) = ts
texts_of _ = []

abbrev pub references_of : Cell → List ResourceReference
references_of (references_cell rs) = rs
references_of _ = []

abbrev pub conditions_of : Cell → List Condition
conditions_of (conditions_cell cs) = cs
conditions_of _ = []

-- `GitApplicationSpec`, with the structs that it holds by value.
pub record SpecStruct : Type 0 where
  pub repository : Text
  pub revision : Text
  pub path : Text
  pub secret_ref : Option Address
  pub destination_namespace : Text
  pub render_type : Text
  pub helm : Option Address
  pub allowed_cluster_scoped_kinds : Slice
  pub takeover_existing_resources : Bool
  pub interval : ℤ
  pub prune : Bool
  pub suspend : Bool

-- `GitApplicationStatus`
pub record StatusStruct : Type 0 where
  pub observed_generation : ℕ
  pub attempted_revision : Text
  pub applied_revision : Text
  pub last_attempt_time : Option Address
  pub last_success_time : Option Address
  pub inventory : Slice
  pub conditions : Slice

-- From `next` on, nothing is allocated.
pub record Heap : Type 0 where
  pub cells : Address → Cell
  pub next : Address

unfoldable pub write : Heap → Address → Cell → Heap
write h a cell = record h { cells = λ b. if b == a then cell else h.cells b }

-- `new`, and what is stored there at once.
unfoldable pub alloc : Cell → Heap → Heap
unfolding write
alloc cell h = record { cells = (write h h.next cell).cells; next = suc h.next }

module _ {A : Type 0} (read : Cell → A) (cell : A → Cell) where
  -- `if in.P != nil { v := *in.P; out.P = &v }`
  unfoldable pub copy_pointer : Option Address → Heap → Option Address × Heap
  copy_pointer none h = (none, h)
  copy_pointer (some a) h = (some h.next, alloc (cell (read (h.cells a))) h)

module _ {A : Type 0} (read : Cell → List A) (cell : List A → Cell) where
  -- `if in.S != nil { out.S = append([]T(nil), in.S...) }`: a slice of no elements is copied to nil.
  unfoldable pub copy_slice : Slice → Heap → Slice × Heap
  copy_slice none h = (none, h)
  copy_slice (some a) h =
      if is_empty (read (h.cells a))
      then (none, h)
      else (some h.next, alloc (cell (read (h.cells a))) h)

-- The part of `GitApplicationSpec.DeepCopyInto` on `Helm`.
unfoldable pub copy_helm : Option Address → Heap → Option Address × Heap
unfolding copy_slice alloc
copy_helm none h = (none, h)
copy_helm (some a) h =
    let helm = helm_of (h.cells a) in
    let (values_files, h1) = copy_slice texts_of texts_cell helm.values_files h in
    (some h1.next, alloc (helm_cell (record helm { values_files = values_files })) h1)

-- `GitApplicationSpec.DeepCopyInto`
unfoldable pub deep_copy_spec : SpecStruct → Heap → SpecStruct × Heap
unfolding copy_pointer copy_helm copy_slice
deep_copy_spec spec h =
    let (secret_ref, h1) = copy_pointer text_of text_cell spec.secret_ref h in
    let (helm, h2) = copy_helm spec.helm h1 in
    let (kinds, h3) = copy_slice texts_of texts_cell spec.allowed_cluster_scoped_kinds h2 in
    (record spec { secret_ref = secret_ref; helm = helm; allowed_cluster_scoped_kinds = kinds }, h3)

-- `GitApplicationStatus.DeepCopyInto`
unfoldable pub deep_copy_status : StatusStruct → Heap → StatusStruct × Heap
unfolding copy_pointer copy_slice
deep_copy_status status h =
    let (attempt, h1) = copy_pointer time_of time_cell status.last_attempt_time h in
    let (success, h2) = copy_pointer time_of time_cell status.last_success_time h1 in
    let (inventory, h3) = copy_slice references_of references_cell status.inventory h2 in
    let (conditions, h4) = copy_slice conditions_of conditions_cell status.conditions h3 in
    (
      record status {
        last_attempt_time = attempt;
        last_success_time = success;
        inventory = inventory;
        conditions = conditions;
      },
      h4,
    )

-- `GitApplication`, less its metadata, which package meta/v1 copies.
pub record AppStruct : Type 0 where
  pub spec : SpecStruct
  pub status : StatusStruct

-- `GitApplication.DeepCopyInto`
unfoldable pub deep_copy_into : AppStruct → Heap → AppStruct × Heap
unfolding deep_copy_spec deep_copy_status
deep_copy_into app h =
    let (spec, h1) = deep_copy_spec app.spec h in
    let (status, h2) = deep_copy_status app.status h1 in
    (record { spec = spec; status = status }, h2)

-- What a pointer and a slice stand for.
abbrev pub pointee : {A : Type 0} → (Cell → A) → Heap → Option Address → Option A
pointee read h none = none
pointee read h (some a) = some (read (h.cells a))

abbrev pub items : {A : Type 0} → (Cell → List A) → Heap → Slice → List A
items read h none = []
items read h (some a) = read (h.cells a)

abbrev pub helm_value : Heap → HelmStruct → HelmRenderSpec
helm_value h helm = record {
  release_name = helm.release_name;
  values_files = items texts_of h helm.values_files;
  include_crds = helm.include_crds;
}

abbrev pub helm_at : Heap → Option Address → Option HelmRenderSpec
helm_at h none = none
helm_at h (some a) = some (helm_value h (helm_of (h.cells a)))

-- The spec and the status as values.
unfoldable pub spec_value : Heap → SpecStruct → GitApplicationSpec
spec_value h spec = record {
  source = record {
    repository = spec.repository;
    revision = spec.revision;
    path = spec.path;
    secret_ref = pointee text_of h spec.secret_ref;
  };
  destination = record { namespace = spec.destination_namespace };
  render = record { type = spec.render_type; helm = helm_at h spec.helm };
  allowed_cluster_scoped_kinds = items texts_of h spec.allowed_cluster_scoped_kinds;
  takeover_existing_resources = spec.takeover_existing_resources;
  interval = spec.interval;
  prune = spec.prune;
  suspend = spec.suspend;
}

unfoldable pub status_value : Heap → StatusStruct → GitApplicationStatus
status_value h status = record {
  observed_generation = status.observed_generation;
  attempted_revision = status.attempted_revision;
  applied_revision = status.applied_revision;
  last_attempt_time = pointee time_of h status.last_attempt_time;
  last_success_time = pointee time_of h status.last_success_time;
  inventory = items references_of h status.inventory;
  conditions = items conditions_of h status.conditions;
}

-- The spec and the status of an application.
abbrev pub app_value : Heap → AppStruct → GitApplicationSpec × GitApplicationStatus
app_value h app = (spec_value h app.spec, status_value h app.status)
