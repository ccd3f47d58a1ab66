-- ===== src/Base/Split.antt =====
-- More of package strings over texts of bytes: TrimSpace, Split, Fields and ReplaceAll.
use Prim.Native.Nat.{ℕ, zero, suc, ◌-◌}
use mathlib.Core.Path.{◌≡◌, refl}
use mathlib.Core.List.{List, [], ◌∷◌, ◌++◌, map, reverse}
use aspect_gazelle.Base.Tests.{if◌then◌else◌}
use aspect_gazelle.Base.Lists.{length}
use aspect_gazelle.Base.Equality.{◌==◌, nat_eq, list_eq}
use aspect_gazelle.Base.Text.{Str, codes, has_prefix}

-- The white space of Unicode, in UTF-8.
abbrev pub white_spaces : List Str
white_spaces =
    (32 ∷ [])
    ∷ (9 ∷ [])
    ∷ (10 ∷ [])
    ∷ (11 ∷ [])
    ∷ (12 ∷ [])
    ∷ (13 ∷ [])
    ∷ (0xC2 ∷ 0x85 ∷ [])
    ∷ (0xC2 ∷ 0xA0 ∷ [])
    ∷ (0xE1 ∷ 0x9A ∷ 0x80 ∷ [])
    ∷ (0xE2 ∷ 0x81 ∷ 0x9F ∷ [])
    ∷ (0xE3 ∷ 0x80 ∷ 0x80 ∷ [])
    ∷ map (λ (c : ℕ). 0xE2 ∷ 0x80 ∷ c ∷ [])
        (0x80 ∷ 0x81 ∷ 0x82 ∷ 0x83 ∷ 0x84 ∷ 0x85 ∷ 0x86 ∷ 0x87 ∷ 0x88 ∷ 0x89 ∷ 0x8A ∷ 0xA8 ∷ 0xA9
          ∷ 0xAF ∷ [])

-- How many bytes the first of some texts has that a text begins with, or none.
unfoldable pub prefix_length : List Str → Str → ℕ
unfolding has_prefix
prefix_length [] s = 0
prefix_length (w ∷ ws) s =
    let others = prefix_length ws s in if has_prefix s w then length w else others

-- A text without what it begins with of some texts; `skip` bytes are still to go.
unfoldable pub trim_front : List Str → ℕ → Str → Str
unfolding prefix_length
trim_front spaces skip [] = []
trim_front spaces (suc skip) (c ∷ s) = trim_front spaces skip s
trim_front spaces zero (c ∷ s) = elim (prefix_length spaces (c ∷ s)) [
  | zero ↦ c ∷ s
  | suc skip ↦ trim_front spaces skip s
]

-- strings.TrimSpace
unfoldable pub trim_space : Str → Str
unfolding trim_front
trim_space s =
    reverse (trim_front (map reverse white_spaces) 0 (reverse (trim_front white_spaces 0 s)))

abbrev pub put_first : ℕ → List Str → List Str
put_first c [] = (c ∷ []) ∷ []
put_first c (part ∷ parts) = (c ∷ part) ∷ parts

-- strings.Split, for a separator of one byte
unfoldable pub split_at : ℕ → Str → List Str
split_at sep [] = [] ∷ []
split_at sep (c ∷ s) =
    let parts = split_at sep s in if c == sep then [] ∷ parts else put_first c parts

abbrev pub without_empty : List Str → List Str
without_empty [] = []
without_empty ([] ∷ parts) = without_empty parts
without_empty ((c ∷ s) ∷ parts) = (c ∷ s) ∷ without_empty parts

unfoldable pub split_spaces : ℕ → Str → List Str
unfolding prefix_length
split_spaces skip [] = [] ∷ []
split_spaces (suc skip) (c ∷ s) = split_spaces skip s
split_spaces zero (c ∷ s) = elim (prefix_length white_spaces (c ∷ s)) [
  | zero ↦ put_first c (split_spaces zero s)
  | suc skip ↦ [] ∷ split_spaces skip s
]

-- strings.Fields
unfoldable pub fields : Str → List Str
unfolding split_spaces
fields s = without_empty (split_spaces 0 s)

-- The rest of a text from the first byte that a replacement does not cover.
unfoldable pub replace_from : ℕ → Str → Str → Str → Str
unfolding has_prefix
replace_from skip old new [] = []
replace_from (suc skip) old new (c ∷ s) = replace_from skip old new s
replace_from zero old new (c ∷ s) =
    let over = replace_from (length old - 1) old new s in
    let next = replace_from zero old new s in
    if has_prefix (c ∷ s) old then new ++ over else c ∷ next

-- strings.ReplaceAll, for an old text that is not empty
unfoldable pub replace_all : Str → Str → Str → Str
unfolding replace_from
replace_all s old new = replace_from 0 old new s

trim_test : trim_space (codes " a b  ") ≡ codes "a b"
unfolding trim_space
trim_test = refl

trim_wide_test :
    trim_space (0xC2 ∷ 0xA0 ∷ 97 ∷ 0xE2 ∷ 0x80 ∷ 0xA9 ∷ 32 ∷ 0xE3 ∷ 0x80 ∷ 0x80 ∷ []) ≡ 97 ∷ []
unfolding trim_space
trim_wide_test = refl

fields_test : fields (codes " a  b ") ≡ codes "a" ∷ codes "b" ∷ []
unfolding fields
fields_test = refl

replace_test : replace_all (codes "{d}_x_{d}") (codes "{d}") (codes "lib") ≡ codes "lib_x_lib"
unfolding replace_all
replace_test = refl
