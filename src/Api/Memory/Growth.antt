-- ===== src/Api/Memory/Growth.antt =====
-- A heap grows: what is read of allocated cells stays (api/v1alpha1/gitapplication_types.go).
use cabure.Base.{suc, ◌≤◌, ◌≡◌, refl, ap, ◌∙◌, Option, none, some, List, nat_eq, ==_refl, arith}
use cabure.Text.{Text}
use cabure.Api.Memory.{
  Address, Slice, Cell, helm_of, texts_of, Heap, write, alloc, pointee, items, helm_value, helm_at,
}

-- A heap that was only added to.
pub record Grown (h g : Heap) : Type 0 where
  pub more : h.next ≤ g.next
  pub kept : (a : Address) → suc a ≤ h.next → g.cells a ≡ h.cells a

pub Grown-refl : (h : Heap) → Grown h h
Grown-refl h = record { more = omega arith; kept = λ a l. refl }

pub Grown-trans : (h g k : Heap) → Grown h g → Grown g k → Grown h k
Grown-trans h g k a b = record {
  more = omega (arith, a.more, b.more);
  kept = λ x l. b.kept x (omega (arith, l, a.more)) ∙ a.kept x l;
}

-- A value that the cells from `low` to the end of a heap determine.
abbrev pub Fixed : {X : Type 0} → (Heap → X) → Address → Heap → X → Type 0
Fixed V low h x =
    (g : Heap) → ((a : Address) → low ≤ a → suc a ≤ h.next → g.cells a ≡ h.cells a) → V g ≡ x

pub Fixed-Grown :
    {X : Type 0} (V : Heap → X) (low : Address) (h k : Heap) (x : X)
    → Fixed V low h x
    → Grown h k
    → Fixed V low k x
Fixed-Grown V low h k x f grown g same =
    f g (λ a l u. same a l (omega (arith, u, grown.more)) ∙ grown.kept a u)

pub Fixed-lower :
    {X : Type 0} (V : Heap → X) (low lower : Address) (h : Heap) (x : X)
    → Fixed V low h x
    → lower ≤ low
    → Fixed V lower h x
Fixed-lower V low lower h x f le g same = f g (λ a l u. same a (omega (arith, le, l)) u)

pub alloc-Grown : (cell : Cell) (h : Heap) → Grown h (alloc cell h)
unfolding alloc write
alloc-Grown cell h = record { more = omega arith; kept = λ a l. ground arith }

alloc-last : (cell : Cell) (h : Heap) → (alloc cell h).cells h.next ≡ cell
unfolding alloc write
alloc-last cell h = rw (==_refl h.next) refl

alloc-next : (cell : Cell) (h : Heap) → (alloc cell h).next ≡ suc h.next
unfolding alloc
alloc-next cell h = refl

-- What is read in the last cell of a heap.
pub last-Fixed :
    {X : Type 0} (V : Cell → X) (cell : Cell) (h : Heap)
    → Fixed (λ g. V (g.cells h.next)) h.next (alloc cell h) (V cell)
last-Fixed V cell h g same =
    ap V (same h.next (omega arith) (omega (arith, alloc-next cell h)) ∙ alloc-last cell h)

-- A write below the new cells leaves them.
pub write-kept :
    (h : Heap) (low a : Address) (cell : Cell)
    → suc a ≤ low
    → (b : Address) → low ≤ b
    → (write h a cell).cells b ≡ h.cells b
unfolding write
write-kept h low a cell l b le = ground arith

-- Pointers to what is allocated.
abbrev pub IsAllocated : Heap → Option Address → Type 0
IsAllocated h none = Unit
IsAllocated h (some a) = suc a ≤ h.next

abbrev pub HelmIsAllocated : Heap → Option Address → Type 0
HelmIsAllocated h none = Unit
HelmIsAllocated h (some a) = (suc a ≤ h.next) × IsAllocated h (helm_of (h.cells a)).values_files

-- What is read of allocated cells stays the same while the heap grows.
pub pointee-Grown :
    {A : Type 0} (read : Cell → A) (o : Option Address) (h g : Heap)
    → IsAllocated h o
    → Grown h g
    → pointee read g o ≡ pointee read h o
pointee-Grown read none h g ok grown = refl
pointee-Grown read (some a) h g ok grown = ap (λ c. some (read c)) (grown.kept a ok)

pub items-Grown :
    {A : Type 0} (read : Cell → List A) (o : Slice) (h g : Heap)
    → IsAllocated h o
    → Grown h g
    → items read g o ≡ items read h o
items-Grown read none h g ok grown = refl
items-Grown read (some a) h g ok grown = ap read (grown.kept a ok)

pub helm_at-Grown :
    (o : Option Address) (h g : Heap) → HelmIsAllocated h o → Grown h g → helm_at g o ≡ helm_at h o
helm_at-Grown none h g ok grown = refl
helm_at-Grown (some a) h g ok grown =
    let helm = helm_of (h.cells a) in
    ap (λ c. some (helm_value g (helm_of c))) (grown.kept a ok.0)
    ∙ ap
        (λ (files : List Text). some (record {
          release_name = helm.release_name;
          values_files = files;
          include_crds = helm.include_crds;
        }))
        (items-Grown texts_of helm.values_files h g ok.1 grown)
