-- ===== src/GoPath.antt =====
-- Go's package path as the program uses it: Clean, Join, Split and Dir, and Rel
-- of filepath, by path segments.
pub mod Dirs
use aspect_gazelle.Base.{
  ℕ, ◌≡◌, refl, Bool, true, false, Option, none, some, List, [], ◌∷◌, ◌++◌, ◌==◌, nat_eq, reverse,
  Str, codes, slash, if◌then◌else◌, list_eq, list_beq, not, ◌&&◌, contains_byte,
}

abbrev pub dot : ℕ
dot = b'.'

abbrev pub add_to_head : ℕ → List Str → List Str
add_to_head c [] = (c ∷ []) ∷ []
add_to_head c (seg ∷ segs) = (c ∷ seg) ∷ segs

-- What stands between the slashes, in order: one more segment than slashes.
unfoldable pub segments : Str → List Str
segments [] = [] ∷ []
segments (c ∷ s) = let rest = segments s in if c == slash then [] ∷ rest else add_to_head c rest

unfoldable pub join_segments : List Str → Str
join_segments [] = []
join_segments (seg ∷ []) = seg
join_segments (seg ∷ next ∷ segs) = seg ++ slash ∷ join_segments (next ∷ segs)

abbrev pub is_dot : Str → Bool
is_dot (c ∷ []) = c == dot
is_dot _ = false

abbrev pub is_dot_dot : Str → Bool
is_dot_dot (c ∷ d ∷ []) = if c == dot then d == dot else false
is_dot_dot _ = false

-- A `..` against the segments kept so far, last first.
abbrev pub step_back : Bool → List Str → List Str
step_back true [] = []
step_back false [] = (dot ∷ dot ∷ []) ∷ []
step_back rooted (top ∷ kept) = if is_dot_dot top then (dot ∷ dot ∷ []) ∷ top ∷ kept else kept

abbrev pub keep_segment : Bool → Str → List Str → List Str
keep_segment rooted [] kept = kept
keep_segment rooted (c ∷ seg) kept =
    if is_dot (c ∷ seg)
    then kept
    else if is_dot_dot (c ∷ seg)
    then step_back rooted kept
    else (c ∷ seg) ∷ kept

unfoldable pub clean_segments : Bool → List Str → List Str → List Str
clean_segments rooted [] kept = kept
clean_segments rooted (seg ∷ segs) kept = clean_segments rooted segs (keep_segment rooted seg kept)

abbrev pub or_dot : Str → Str
or_dot [] = dot ∷ []
or_dot (c ∷ s) = c ∷ s

abbrev pub is_abs : Str → Bool
is_abs [] = false
is_abs (c ∷ s) = c == slash

-- path.Clean
unfoldable pub clean : Str → Str
unfolding clean_segments segments join_segments
clean p =
    let kept = join_segments (reverse (clean_segments (is_abs p) (segments p) [])) in
    if is_abs p then slash ∷ kept else or_dot kept

abbrev pub add_slash : Str → Str → Str
add_slash [] b = b
add_slash (x ∷ a) b = (x ∷ a) ++ slash ∷ b

-- path.Join of two elements: an empty element is left out, and of none the result is empty.
unfoldable pub join : Str → Str → Str
unfolding clean
join a [] = elim a [ [] ↦ [] | x ∷ a' ↦ clean (x ∷ a') ]
join a (y ∷ b) = clean (add_slash a (y ∷ b))

abbrev pub put_byte : ℕ → Str × Str → Str × Str
put_byte c ([], file) = if c == slash then (c ∷ [], file) else ([], c ∷ file)
put_byte c (d ∷ ds, file) = (c ∷ d ∷ ds, file)

-- path.Split: up to the last slash, with it, and what follows.
unfoldable pub split : Str → Str × Str
split [] = ([], [])
split (c ∷ s) = put_byte c (split s)

-- path.Dir
unfoldable pub dir : Str → Str
unfolding split clean
dir p = clean (split p).0

clean_test : clean (codes "a/./b//../c/") ≡ codes "a/c"
unfolding clean
clean_test = refl

clean_up : clean (codes "../a/../../b") ≡ codes "../../b"
unfolding clean
clean_up = refl

clean_rooted : clean (codes "/../a/..") ≡ codes "/"
unfolding clean
clean_rooted = refl

join_test : join (codes "lib/a") (codes "../b") ≡ codes "lib/b"
unfolding join
join_test = refl

split_test : split (codes "a/b/c") ≡ (codes "a/b/", codes "c")
unfolding split
split_test = refl

-- filepath.Rel, over the segments of clean paths: a `..` for each segment of the base that is left
-- after the common ones, and then the rest of the target; none where the base left begins with `..`.
abbrev pub climb : List Str → List Str → List Str
climb [] target = target
climb (seg ∷ base) target = (dot ∷ dot ∷ []) ∷ climb base target

unfoldable pub rel_segments : List Str → List Str → Option (List Str)
rel_segments [] target = some target
rel_segments (b ∷ base) [] = if is_dot_dot b then none else some (climb (b ∷ base) [])
rel_segments (b ∷ base) (t ∷ target) =
    let rest = rel_segments base target in
    if b == t then rest else if is_dot_dot b then none else some (climb (b ∷ base) (t ∷ target))

-- The segments of a clean path.
unfoldable pub path_segments : Str → List Str
unfolding clean_segments segments
path_segments p = reverse (clean_segments (is_abs p) (segments p) [])

abbrev pub joined_or_dot : Option (List Str) → Option Str
joined_or_dot none = none
joined_or_dot (some segs) = some (or_dot (join_segments segs))

abbrev pub same_root : Bool → Bool → Bool
same_root true rooted = rooted
same_root false rooted = not rooted

unfoldable pub rel : Str → Str → Option Str
unfolding rel_segments path_segments join_segments
rel base target =
    if same_root (is_abs base) (is_abs target)
    then joined_or_dot (rel_segments (path_segments base) (path_segments target))
    else none

rel_test : rel (codes "a/b") (codes "a/c/d") ≡ some (codes "../c/d")
unfolding rel list_beq
rel_test = refl

rel_root : rel (codes "a") (codes "a/./b/..") ≡ some (codes ".")
unfolding rel list_beq
rel_root = refl

-- The text without the slashes that it ends in.
unfoldable pub trim_trailing : Str → Str
trim_trailing [] = []
trim_trailing (c ∷ s) =
    let rest = trim_trailing s in if c == slash && rest == [] then [] else c ∷ rest

abbrev pub base_of : Str → Str → Str
base_of [] trimmed = dot ∷ []
base_of (x ∷ p) [] = slash ∷ []
base_of (x ∷ p) (c ∷ s) = (split (c ∷ s)).1

-- path.Base
unfoldable pub base : Str → Str
unfolding split trim_trailing
base p = base_of p (trim_trailing p)

abbrev pub longer_ext : ℕ → Str → Str → Str
longer_ext c s [] = if c == dot && not (contains_byte s slash) then c ∷ s else []
longer_ext c s (d ∷ rest) = d ∷ rest

-- path.Ext: from the last dot after the last slash.
unfoldable pub ext : Str → Str
ext [] = []
ext (c ∷ s) = longer_ext c s (ext s)
