-- ===== src/Api/Memory/Apart.antt =====
-- `DeepCopy` of a whole application: neither side sees what is written on the other
-- (api/v1alpha1/gitapplication_types.go).
use cabure.Base.{suc, ◌≤◌, ◌≡◌, refl, ap₂, ◌∙◌, Option, none, some, arith, nat_eq}
use cabure.Api.Memory.{
  Address, Cell, StatusStruct, AppStruct, Heap, write, deep_copy_spec, deep_copy_status,
  deep_copy_into, spec_value, status_value, app_value,
}
use cabure.Api.Memory.Growth.{
  Grown, Grown-trans, Fixed, Fixed-Grown, Fixed-lower, IsAllocated, write-kept,
}
use cabure.Api.Memory.Copies.{
  StatusIsAllocated, SpecIsAllocated, status-Grown, status-Fixed, spec-Grown, spec-Fixed,
  status_value-Grown, spec_value-Grown,
}

-- All pointers of an application.
pub record AppIsAllocated (h : Heap) (app : AppStruct) : Type 0 where
  pub spec : SpecIsAllocated h app.spec
  pub status : StatusIsAllocated h app.status

IsAllocated-Grown :
    (o : Option Address) (h g : Heap) → Grown h g → IsAllocated h o → IsAllocated g o
IsAllocated-Grown none h g grown ok = tt
IsAllocated-Grown (some a) h g grown ok = omega (arith, ok, grown.more)

StatusIsAllocated-Grown :
    (status : StatusStruct) (h g : Heap)
    → Grown h g
    → StatusIsAllocated h status
    → StatusIsAllocated g status
StatusIsAllocated-Grown status h g grown ok = record {
  attempt = IsAllocated-Grown status.last_attempt_time h g grown ok.attempt;
  success = IsAllocated-Grown status.last_success_time h g grown ok.success;
  inventory = IsAllocated-Grown status.inventory h g grown ok.inventory;
  conditions = IsAllocated-Grown status.conditions h g grown ok.conditions;
}

write-Grown :
    (h g : Heap) (b : Address) (cell : Cell) → Grown h g → h.next ≤ b → Grown h (write g b cell)
unfolding write
write-Grown h g b cell grown le = record {
  more = grown.more;
  kept = λ a l. ground (arith, grown.kept a l);
}

app-Grown : (h : Heap) (app : AppStruct) → Grown h (deep_copy_into app h).1
unfolding deep_copy_into
app-Grown h app =
    let h1 = (deep_copy_spec app.spec h).1 in
    Grown-trans h h1 (deep_copy_status app.status h1).1 (spec-Grown h app.spec)
      (status-Grown h1 app.status)

-- A copied application, whatever becomes of the cells below the new ones.
app-Fixed :
    (h : Heap) (app : AppStruct)
    → AppIsAllocated h app
    → Fixed
        (λ g. app_value g (deep_copy_into app h).0)
        h.next
        (deep_copy_into app h).1
        (app_value h app)
unfolding deep_copy_into
app-Fixed h app ok g same =
    let h1 = (deep_copy_spec app.spec h).1 in
    let grown = spec-Grown h app.spec in
    let h2 = (deep_copy_status app.status h1).1 in
    let e1 =
      Fixed-Grown (λ g'. spec_value g' (deep_copy_spec app.spec h).0) h.next h1 h2
        (spec_value h app.spec) (spec-Fixed h app.spec ok.spec) (status-Grown h1 app.status) g
        same in
    let e2 =
      Fixed-lower (λ g'. status_value g' (deep_copy_status app.status h1).0) h1.next h.next h2
        (status_value h1 app.status)
        (status-Fixed h1 app.status (StatusIsAllocated-Grown app.status h h1 grown ok.status))
        grown.more g same in
    ap₂ (λ x y. (x, y)) e1 (e2 ∙ status_value-Grown app.status h h1 ok.status grown)

-- A deep copy is as good as a value. It has the value that its original had; whatever is then written to
-- memory that was there before, as `setCondition` does to the original's conditions, the copy keeps that
-- value; and whatever is written to newer memory, the original keeps it. Every pointer of the original
-- is assumed to be allocated.
pub deep_copy_into-apart :
    (h : Heap) (app : AppStruct) (a b : Address) (cell : Cell)
    → AppIsAllocated h app
    → suc a ≤ h.next
    → h.next ≤ b
    → (app_value (deep_copy_into app h).1 (deep_copy_into app h).0 ≡ app_value h app)
      × (app_value (write (deep_copy_into app h).1 a cell) (deep_copy_into app h).0
          ≡ app_value h app)
      × (app_value (write (deep_copy_into app h).1 b cell) app ≡ app_value h app)
deep_copy_into-apart h app a b cell ok old new =
    let out = (deep_copy_into app h).1 in
    let newer = write-Grown h out b cell (app-Grown h app) new in
    (
      app-Fixed h app ok out (λ x l u. refl),
      app-Fixed h app ok (write out a cell) (λ x l u. write-kept out h.next a cell old x l),
      ap₂ (λ x y. (x, y)) (spec_value-Grown app.spec h (write out b cell) ok.spec newer)
          (status_value-Grown app.status h (write out b cell) ok.status newer),
    )
