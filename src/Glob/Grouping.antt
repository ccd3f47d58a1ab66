-- ===== src/Glob/Grouping.antt =====
-- What the loops over the groups find after a pattern is added.
use aspect_gazelle.Base.{
  ◌≡◌, refl, sym, Bool, false, List, [], ◌∷◌, ◌++◌, ◌==◌, nat_eq, list_eq, list_beq_iff, Str, ◌&&◌,
  ◌||◌, any, any-append, arith, Bool-cases, inl, inr,
}
use aspect_gazelle.Glob.{append_to, any_in_groups, unless_empty, GlobExpr}

pub any-snoc :
    {A : Type 0} (f : A → Bool) (xs : List A) (x : A) → any f (xs ++ x ∷ []) ≡ (any f xs || f x)
any-snoc f xs x = ground (arith, any-append f xs (x ∷ []))

pub any_in_groups-append_to :
    {A : Type 0} (test : Str → Bool) (each : Str → A → Bool) (key : Str) (x : A)
    (m : List (Str × List A))
    → any_in_groups test each (append_to key x m)
      ≡ (any_in_groups test each m || (test key && each key x))
unfolding any_in_groups append_to
any_in_groups-append_to test each key x [] = ground arith
any_in_groups-append_to test each key x ((k, xs) ∷ m) = elim (Bool-cases (k == key)) [
  | inl same ↦ rw (same, any_in_groups, any-snoc, (list_beq_iff k key).0 same) (ground arith)
  | inr other ↦ rw (other, any_in_groups, any_in_groups-append_to test each key x m) (ground arith)
]

-- The functions for the groups, of which those without a pattern are left out.
pub any-unless_empty :
    {A : Type 0} (xs : List A) (f : GlobExpr) (p : Str)
    → (xs ≡ [] → f p ≡ false)
    → any (λ (g : GlobExpr). g p) (unless_empty xs f) ≡ f p
any-unless_empty [] f p without = sym (without refl)
any-unless_empty (x ∷ xs) f p without = ground arith
