-- ===== src/Path.antt =====
-- What the program uses of package `path/filepath`, for Unix, and internal/render/path.go.
pub mod Machine
pub mod Rooted
pub mod Shape
pub mod Inside
pub mod Last
use mathlib.Core.List.{foldl, reverse}
use cabure.Base.{
  ℕ, Bool, true, false, not, ◌&&◌, List, [], ◌∷◌, ◌++◌, ◌==◌, list_eq, nat_eq, if◌then◌else◌,
  Result, ok, err, errorf,
}
use cabure.Text.{Text, codes, split, join, has_prefix}
use cabure.Text.Format.{quoted}

abbrev pub dot : Text
dot = b'.' ∷ []

abbrev pub dot_dot : Text
dot_dot = b'.' ∷ b'.' ∷ []

abbrev pub separator : Text
separator = b'/' ∷ []

-- `filepath.IsAbs`
unfoldable pub is_abs : Text → Bool
is_abs [] = false
is_abs (c ∷ s) = c == b'/'

-- A step up from the elements so far, the last one first. At the root it stays there.
unfoldable pub step_up : Bool → List Text → List Text
step_up true [] = []
step_up false [] = dot_dot ∷ []
step_up rooted (x ∷ stack) = if x == dot_dot then dot_dot ∷ x ∷ stack else stack

-- One element of a path.
unfoldable pub push : Bool → List Text → Text → List Text
unfolding step_up
push rooted stack element =
    if element == []
    then stack
    else if element == dot
    then stack
    else if element == dot_dot
    then step_up rooted stack
    else element ∷ stack

-- The elements of a path once `.` and `..` are worked off, the last one first.
unfoldable pub elements : Text → List Text
unfolding push split is_abs
elements path = foldl (push (is_abs path)) [] (split b'/' path)

-- `filepath.Clean`
unfoldable pub clean : Text → Text
unfolding elements join
clean path =
    let body = join separator (reverse (elements path)) in
    if is_abs path then b'/' ∷ body else if body == [] then dot else body

-- `filepath.Join(a, b)`
unfoldable pub join_path : Text → Text → Text
unfolding clean
join_path a b = if a == [] then (if b == [] then [] else clean b) else clean (a ++ (b'/' ∷ b))

-- `ResolveWithinRoot`
unfoldable pub resolve_within_root : Text → Text → Result Text
unfolding join_path has_prefix
resolve_within_root root rel =
    let clean_root = clean root in
    let clean_joined = clean (join_path root rel) in
    if rel == []
    then err (errorf (codes "path is required"))
    else if not (clean_joined == clean_root)
        && not (has_prefix clean_joined (clean_root ++ separator))
    then err (errorf (codes "path escapes checkout root: " ++ quoted rel))
    else ok clean_joined
