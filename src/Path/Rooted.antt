-- ===== src/Path/Rooted.antt =====
-- Cleaned paths below the root: a slash, and proper names joined by slashes.
use mathlib.Core.List.{reverse, reverse-reverse, append-nil}
use cabure.Base.{
  ℕ, ◌≡◌, refl, ap, sym, ◌∙◌, subst, Bool, true, false, List, [], ◌∷◌, ◌++◌, ◌==◌, list_eq, nat_eq,
  ==_refl, All, All-map, All-reverse, if◌then◌else◌,
}
use cabure.Text.{Text, split, join}
use cabure.Text.Pieces.{Lacks, split-Lacks, split-join, split-append}
use cabure.Path.{dot, separator, elements, clean, is_abs, join_path, push}
use cabure.Path.Machine.{IsName, work, foldl-work, work-append, work_of_names, work-IsName}

abbrev pub rooted_path : List Text → Text
rooted_path names = b'/' ∷ join separator names

pub is_abs-rooted : (names : List Text) → is_abs (rooted_path names) ≡ true
unfolding is_abs
is_abs-rooted names = ==_refl {A = ℕ} b'/'

pub elements_of_abs :
    (path : Text) → is_abs path ≡ true → elements path ≡ work true [] (split b'/' path)
unfolding elements
elements_of_abs path h = rw h (foldl-work true [] (split b'/' path))

pub elements_of_rel :
    (path : Text) → is_abs path ≡ false → elements path ≡ work false [] (split b'/' path)
unfolding elements
elements_of_rel path h = rw h (foldl-work false [] (split b'/' path))

-- The elements of an absolute path, the first one first.
abbrev pub names_of : Text → List Text
names_of path = reverse (elements path)

pub elements-IsName : (path : Text) → is_abs path ≡ true → All IsName (elements path)
elements-IsName path h =
    subst (All IsName) (sym (elements_of_abs path h))
      (work-IsName [] (split b'/' path) (split-Lacks b'/' path) tt)

pub names_of-IsName : (path : Text) → is_abs path ≡ true → All IsName (names_of path)
names_of-IsName path h = All-reverse IsName (elements path) (elements-IsName path h)

pub clean_of_abs : (path : Text) → is_abs path ≡ true → clean path ≡ rooted_path (names_of path)
unfolding clean
clean_of_abs path h = rw h

-- Cleaned relative paths.
abbrev pub relative_path : List Text → Text
relative_path names = if join separator names == [] then dot else join separator names

pub clean_of_rel : (path : Text) → is_abs path ≡ false → clean path ≡ relative_path (names_of path)
unfolding clean
clean_of_rel path h = rw h

push_empty : (rooted : Bool) (stack : List Text) → push rooted stack [] ≡ stack
unfolding push
push_empty rooted stack = rw (==_refl {A = Text} [])

work-split_join :
    (names : List Text)
    → All IsName names
    → work true [] (split b'/' (join separator names)) ≡ reverse names
unfolding split join
work-split_join [] h = push_empty true []
work-split_join (x ∷ names) h =
    rw (split-join b'/' x names (All-map IsName (Lacks b'/') (x ∷ names) (λ y n. n.no_slash) h))
      (work_of_names true [] (x ∷ names) h ∙ append-nil (reverse (x ∷ names)))

pub names_of-rooted : (names : List Text) → All IsName names → names_of (rooted_path names) ≡ names
unfolding split
names_of-rooted names h =
    ap reverse (
      elements_of_abs (rooted_path names) (is_abs-rooted names)
      ∙ ap (work true []) (split-append b'/' [] (join separator names))
      ∙ ap (λ l. work true l (split b'/' (join separator names))) (push_empty true [])
      ∙ work-split_join names h)
    ∙ reverse-reverse names

-- `Clean` is idempotent on absolute paths.
pub clean_idem : (path : Text) → is_abs path ≡ true → clean (clean path) ≡ clean path
clean_idem path h = rw (clean_of_abs path h) (
    clean_of_abs (rooted_path (names_of path)) (is_abs-rooted (names_of path))
    ∙ ap rooted_path (names_of-rooted (names_of path) (names_of-IsName path h)))

is_abs-append : (path rest : Text) → is_abs path ≡ true → is_abs (path ++ rest) ≡ true
unfolding is_abs
is_abs-append [] rest h = cc
is_abs-append (c ∷ path) rest h = h

cons_not_empty : (c : ℕ) (s : Text) → ((c ∷ s) == []) ≡ false
unfolding list_eq
cons_not_empty c s = refl

-- Joining with an absolute path works the other one off on top of its elements.
pub elements-join :
    (root rel : Text)
    → is_abs root ≡ true
    → elements (root ++ (b'/' ∷ rel)) ≡ work true (elements root) (split b'/' rel)
elements-join root rel h =
    elements_of_abs (root ++ (b'/' ∷ rel)) (is_abs-append root _ h)
    ∙ ap (work true []) (split-append b'/' root rel)
    ∙ work-append true [] (split b'/' root) (split b'/' rel)
    ∙ ap (λ l. work true l (split b'/' rel)) (sym (elements_of_abs root h))

join_path-cons :
    (c : ℕ) (root rel : Text) → join_path (c ∷ root) rel ≡ clean ((c ∷ root) ++ (b'/' ∷ rel))
unfolding join_path
join_path-cons c root rel = rw (cons_not_empty c root)

-- `Clean(Join(root, rel))` below an absolute root.
pub clean-join :
    (root rel : Text)
    → is_abs root ≡ true
    → clean (join_path root rel)
      ≡ rooted_path (reverse (work true (elements root) (split b'/' rel)))
unfolding join_path is_abs
clean-join [] rel h = cc
clean-join (c ∷ root) rel h =
    let whole = (c ∷ root) ++ (b'/' ∷ rel) in
    ap clean (join_path-cons c root rel)
    ∙ clean_idem whole h
    ∙ clean_of_abs whole h
    ∙ ap (λ l. rooted_path (reverse l)) (elements-join (c ∷ root) rel h)
