-- ===== src/JsConfig/Naming/Rendered.antt =====
-- The names of targets that the naming settings make, and the group names that they stand for.
use aspect_gazelle.Base.{
  ℕ, ◌≡◌, ◌≢◌, ◌⊎◌, refl, ap, Bool, true, false, none, some, [], ◌∷◌, ◌++◌, ◌==◌, ◌||◌, length,
  length-append, nat_eq, list_eq, list_beq_iff, Str, inl, inr, arith, codes,
}
use aspect_gazelle.Base.Assoc.{Assoc, lookup}
use aspect_gazelle.JsConfig.{Settings, default_library_name}
use aspect_gazelle.JsConfig.Naming.{
  find_override, reverse_map_target_name, map_target_name, render_target_name,
  render_npm_package_target_name, render_source_target_name,
}

longer_ne : (s : Str) (c : ℕ) (t : Str) → s ++ c ∷ t ≢ s
longer_ne s c t e = absurd (omega (arith, ap length e, length-append s (c ∷ t)))

module _ {L : Type 0} where
  -- In a package with an npm package target, the sources of the library have another name than that
  -- target, unless a naming convention names the library.
  pub render_source_target_name-ne :
      (s : Settings L) (package_name : Str)
      → map_target_name s default_library_name ≡ default_library_name
      → render_source_target_name s default_library_name package_name true
        ≢ render_npm_package_target_name s package_name
  unfolding render_source_target_name
  render_source_target_name-ne s package_name unnamed e =
      let rule_name = render_target_name (map_target_name s default_library_name) package_name in
      ground (
        arith,
        list_beq_iff rule_name (render_npm_package_target_name s package_name),
        list_beq_iff default_library_name default_library_name,
        longer_ne rule_name 95 (codes "lib"),
      )

-- No name is stored twice.
abbrev pub stored : Str → Assoc Str Str → Bool
stored name [] = false
stored name ((n, override) ∷ overrides) = n == name || stored name overrides

abbrev pub IsKeyedOnce : Assoc Str Str → Type 0
IsKeyedOnce [] = Unit
IsKeyedOnce ((name, override) ∷ overrides) = (stored name overrides ≡ false) × IsKeyedOnce overrides

lookup-stored : (name x : Str) (m : Assoc Str Str) → lookup name m ≡ some x → stored name m ≡ true
unfolding lookup
lookup-stored name x [] h = cc
lookup-stored name x ((n, o) ∷ m) h = ground (arith, lookup-stored name x m)

lookup-find_override :
    (x : Str) (m : Assoc Str Str)
    → IsKeyedOnce m
    → (lookup (find_override x m) m ≡ some x) ⊎ (find_override x m ≡ x)
unfolding lookup
lookup-find_override x [] k = inr refl
lookup-find_override x ((n, o) ∷ m) k = ground (
  arith,
  list_beq_iff o x,
  list_beq_iff n n,
  list_beq_iff n (find_override x m),
  lookup-find_override x m k.1,
  lookup-stored (find_override x m) x m,
)

module _ {L : Type 0} where
  -- The group that a directive's name of a target stands for is given that name again, where the
  -- overrides hold every group once and the name, which is not empty, is not that of a group in them.
  pub map_target_name-reverse_map_target_name :
      (s : Settings L) (c : ℕ) (rest : Str)
      → IsKeyedOnce s.target_naming_overrides
      → lookup (c ∷ rest) s.target_naming_overrides ≡ none
      → map_target_name s (reverse_map_target_name s (c ∷ rest)) ≡ c ∷ rest
  unfolding map_target_name reverse_map_target_name
  map_target_name-reverse_map_target_name s c rest once free =
      elim (lookup-find_override (c ∷ rest) s.target_naming_overrides once) [
        | inl e ↦ rw e
        | inr e ↦ rw (e, free)
      ]
