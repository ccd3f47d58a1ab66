-- ===== src/GoPath/Dirs.antt =====
-- The paths of directories by their names, and the loops that go from a directory to the ones around
-- it: `dir, _ = path.Split(dir); dir = strings.TrimSuffix(dir, "/")`.
use aspect_gazelle.Base.{
  ℕ, ◌-◌, ◌<◌, ◌≡◌, refl, false, Option, none, some, List, [], ◌∷◌, ◌++◌, ◌==◌, list_eq, nat_eq,
  Str, slash, trim_suffix, has_suffix-append, length, contains_byte, arith, length-append,
  Bool-cases, inl, inr, take-length-append, or-eq_false, list_beq_iff, ap, ◌∙◌,
}
use aspect_gazelle.GoPath.{split}

-- One name in a path.
pub record IsSegment (s : Str) : Type 0 where
  pub nonempty : 0 < length s
  pub no_slash : contains_byte s slash ≡ false

-- The path of a directory, from its names, innermost first.
abbrev pub path_of : List Str → Str
path_of [] = []
path_of (s ∷ []) = s
path_of (s ∷ t ∷ names) = path_of (t ∷ names) ++ slash ∷ s

pub split-no_slash : (s : Str) → contains_byte s slash ≡ false → split s ≡ ([], s)
unfolding split contains_byte
split-no_slash [] h = refl
split-no_slash (c ∷ s) h =
    let (n, rest) = or-eq_false (c == slash) _ h in rw (split-no_slash s rest, n)

-- A directory part that is there stays in front.
split-cons :
    (c d : ℕ) (s ds file : Str) → split s ≡ (d ∷ ds, file) → split (c ∷ s) ≡ (c ∷ d ∷ ds, file)
unfolding split
split-cons c d s ds file e = rw e

pub split-append :
    (a s : Str) → contains_byte s slash ≡ false → split (a ++ slash ∷ s) ≡ (a ++ slash ∷ [], s)
split-append [] s h = unfold split in rw (split-no_slash s h)
split-append (c ∷ []) s h = split-cons c slash (slash ∷ s) [] s (split-append [] s h)
split-append (c ∷ d ∷ a) s h =
    split-cons c d (d ∷ a ++ slash ∷ s) (a ++ slash ∷ []) s (split-append (d ∷ a) s h)

pub trim_slash : (a : Str) → trim_suffix (a ++ slash ∷ []) (slash ∷ []) ≡ a
unfolding trim_suffix
trim_slash a =
    let e : length (a ++ slash ∷ []) - 1 ≡ length a = omega (arith, length-append a (slash ∷ [])) in
    rw (has_suffix-append a (slash ∷ []), e) (take-length-append a (slash ∷ []))

pub length-path_of :
    (s : Str) (names : List Str)
    → 0 < length s
    → length (path_of names) < length (path_of (s ∷ names))
length-path_of s [] h = h
length-path_of s (t ∷ names) h = omega (arith, length-append (path_of (t ∷ names)) (slash ∷ s))

pub path_of-ne : (s : Str) (names : List Str) → 0 < length s → (path_of (s ∷ names) == []) ≡ false
path_of-ne s names h = elim (Bool-cases (path_of (s ∷ names) == [])) [
  | inr n ↦ n
  | inl e ↦ absurd (omega (arith, length-path_of s names h, ap length ((list_beq_iff _ _).0 e)))
]

unfoldable pub parent_dir : Str → Str
unfolding split trim_suffix
parent_dir dir = trim_suffix (split dir).0 (slash ∷ [])

pub parent_dir-path_of :
    (s : Str) (names : List Str)
    → contains_byte s slash ≡ false
    → parent_dir (path_of (s ∷ names)) ≡ path_of names
unfolding parent_dir trim_suffix
parent_dir-path_of s [] h = rw (split-no_slash s h)
parent_dir-path_of s (t ∷ names) h =
    ap (λ (r : Str × Str). trim_suffix r.0 (slash ∷ [])) (split-append (path_of (t ∷ names)) s h)
    ∙ trim_slash (path_of (t ∷ names))

-- The innermost directory, of those around and including this one, for which there is something.
abbrev pub or_around {ℓ} : {A : Type ℓ} → Str → Option A → Option (Str × A) → Option (Str × A)
or_around dir none around = around
or_around dir (some a) around = some (dir, a)

abbrev pub nearest_dir {ℓ} : {A : Type ℓ} → (Str → Option A) → List Str → Option (Str × A)
nearest_dir at [] = or_around [] (at []) none
nearest_dir at (s ∷ names) =
    or_around (path_of (s ∷ names)) (at (path_of (s ∷ names))) (nearest_dir at names)
