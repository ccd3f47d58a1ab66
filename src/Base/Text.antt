-- ===== src/Base/Text.antt =====
-- Go strings that the program walks, as lists of bytes, and what it uses of package strings.
use Prim.Native.Nat.{ℕ, ◌-◌}
use Prim.Native.Char.{code}
use Prim.Native.String.{String}
use mathlib.Core.Path.{◌≡◌, refl, ap, sym, ◌∙◌}
use mathlib.Core.Bool.{Bool, true, false, ◌&&◌, ◌||◌}
use mathlib.Core.List.{List, [], ◌∷◌, ◌++◌}
use mathlib.Core.Option.{Option, none, some}
use native.Mathlib.Omega.{arith}
use aspect_gazelle.Base.Tests.{if◌then◌else◌, leb}
use aspect_gazelle.Base.Lists.{
  length, take, drop, take-append-drop, length-append, drop-length-append,
}
use aspect_gazelle.Base.Equality.{◌==◌, nat_eq, list_eq, list_beq, list_beq_iff, eq_refl}

abbrev pub Str : Type 0
Str = List ℕ

-- The bytes of an ASCII literal.
abbrev pub codes : String → Str
codes String.[] = []
codes (String.◌∷◌ c s) = code c ∷ codes s

abbrev pub slash : ℕ
slash = b'/'

-- strings.HasPrefix
unfoldable pub has_prefix : Str → Str → Bool
has_prefix s [] = true
has_prefix [] (c ∷ p) = false
has_prefix (x ∷ s) (c ∷ p) = x == c && has_prefix s p

-- strings.HasSuffix
unfoldable pub has_suffix : Str → Str → Bool
unfolding list_beq
has_suffix s p = leb (length p) (length s) && drop (length s - length p) s == p

-- strings.TrimPrefix
unfoldable pub trim_prefix : Str → Str → Str
unfolding has_prefix
trim_prefix s p = if has_prefix s p then drop (length p) s else s

-- strings.TrimSuffix
unfoldable pub trim_suffix : Str → Str → Str
unfolding has_suffix
trim_suffix s p = if has_suffix s p then take (length s - length p) s else s

-- strings.Cut at a byte: what stands before its first occurrence, and after it.
unfoldable pub cut : Str → ℕ → Option (Str × Str)
cut [] c = none
cut (x ∷ s) c =
    if x == c then some ([], s) else elim (cut s c) [ none ↦ none | some (b, a) ↦ some (x ∷ b, a) ]

-- Does the byte occur in the text?
unfoldable pub contains_byte : Str → ℕ → Bool
contains_byte [] c = false
contains_byte (x ∷ s) c = x == c || contains_byte s c

pub has_prefix-append : (p r : Str) → has_prefix (p ++ r) p ≡ true
unfolding has_prefix
has_prefix-append [] [] = refl
has_prefix-append [] (x ∷ r) = refl
has_prefix-append (c ∷ p) r = ground (arith, eq_refl c, has_prefix-append p r)

pub has_prefix-split : (s p : Str) → has_prefix s p ≡ true → s ≡ p ++ drop (length p) s
unfolding has_prefix
has_prefix-split s [] h = refl
has_prefix-split [] (c ∷ p) h = cc
has_prefix-split (x ∷ s) (c ∷ p) h = ground (arith, has_prefix-split s p)

pub has_suffix-split : (s p : Str) → has_suffix s p ≡ true → s ≡ take (length s - length p) s ++ p
unfolding has_suffix
has_suffix-split s p h =
    sym (take-append-drop (length s - length p) s)
    ∙ ap (◌++◌ (take (length s - length p) s))
        ((list_beq_iff (drop (length s - length p) s) p).0 (ground arith))

pub has_suffix-append : (r p : Str) → has_suffix (r ++ p) p ≡ true
unfolding has_suffix
has_suffix-append r p =
    let e : length (r ++ p) - length p ≡ length r = omega (arith, length-append r p) in
    rw (e, drop-length-append r p) (ground (arith, length-append r p, list_beq_iff p p))
