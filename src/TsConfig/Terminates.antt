-- ===== src/TsConfig/Terminates.antt =====
-- Reading a tsconfig ends, however tsconfigs extend one another: every file is read once.
use aspect_gazelle.Base.{
  ℕ, zero, suc, ◌≤◌, ◌<◌, ◌≡◌, ◌≢◌, subst, refl, true, Option, none, some, List, [], ◌∷◌, nat_eq,
  list_eq, list_beq_iff, Str, In, here, there, is_some, Option-cases, inl, inr, if◌then◌else◌,
  arith,
}
use aspect_gazelle.Base.Assoc.{lookup, insert, lookup-insert}
use aspect_gazelle.GoPath.{dir}
use aspect_gazelle.TsConfig.{TsConfig}
use aspect_gazelle.TsConfig.Json.{TsConfigJson}
use aspect_gazelle.TsConfig.Load.{
  Parsed, Loaded, loaded, absent, failed, exhausted, Contents, missing, malformed, tsconfig_json,
  Found, Bases, or_next, find_base, add_base, then_bases, find_bases, config_with_bases,
  store_config, parse_contents, parse_file, without_empty_texts,
}

abbrev pub Ends : Loaded → Type 0
Ends (loaded c) = Unit
Ends absent = Unit
Ends failed = Unit
Ends exhausted = ⊥

abbrev Ran {ℓ} : {A : Type ℓ} → Option A → Type 0
Ran none = ⊥
Ran (some a) = Unit

-- The files that have no slot yet.
abbrev pub unparsed : List Str → Parsed → ℕ
unparsed [] parsed = 0
unparsed (f ∷ files) parsed =
    if is_some (lookup f parsed) then unparsed files parsed else suc (unparsed files parsed)

-- Slots stay.
abbrev Grows : Parsed → Parsed → Type 0
Grows p q = (f : Str) → is_some (lookup f p) ≡ true → is_some (lookup f q) ≡ true

Grows-insert : (t : Str) (v : Option TsConfig) (p : Parsed) → Grows p (insert t v p)
Grows-insert t v p f h = ground (arith, lookup-insert t f v p)

unparsed-le : (files : List Str) (p q : Parsed) → Grows p q → unparsed files q ≤ unparsed files p
unparsed-le [] p q g = omega arith
unparsed-le (f ∷ files) p q g = ground (arith, g f, unparsed-le files p q g)

unparsed-lt :
    (t : Str) (v : Option TsConfig) (files : List Str) (p : Parsed)
    → In t files
    → lookup t p ≡ none
    → unparsed files (insert t v p) < unparsed files p
unparsed-lt t v [] p m free = elim m [ ]
unparsed-lt t v (f ∷ files) p (here e) free = ground (
  arith,
  e,
  lookup-insert t f v p,
  list_beq_iff t f,
  unparsed-le files p (insert t v p) (Grows-insert t v p),
)
unparsed-lt t v (f ∷ files) p (there m) free =
    ground (arith, lookup-insert t f v p, unparsed-lt t v files p m free)

add_base-Grows :
    (found : Option TsConfig) (p : Parsed) (r : Bases) → Grows p r.1 → Grows p (add_base found r).1
add_base-Grows none p r g = g
add_base-Grows (some c) p (none, q) g = g
add_base-Grows (some c) p (some bases, q) g = g

add_base-Ran : (found : Option TsConfig) (r : Bases) → Ran r.0 → Ran (add_base found r).0
add_base-Ran none r h = h
add_base-Ran (some c) (none, q) h = h
add_base-Ran (some c) (some bases, q) h = tt

store_config-Grows :
    (t : Str) (p : Parsed) (r : Loaded × Parsed) → Grows p r.1 → Grows p (store_config t r).1
store_config-Grows t p (loaded c, q) g = λ f e. Grows-insert t (some c) q f (g f e)
store_config-Grows t p (absent, q) g = g
store_config-Grows t p (failed, q) g = g
store_config-Grows t p (exhausted, q) g = g

store_config-Ends : (t : Str) (r : Loaded × Parsed) → Ends r.0 → Ends (store_config t r).0
store_config-Ends t (loaded c, q) h = tt
store_config-Ends t (absent, q) h = tt
store_config-Ends t (failed, q) h = tt
store_config-Ends t (exhausted, q) h = h

module _ (files : List Str) (n : ℕ) where
  -- What a reader keeps: the slots, and the files that it ends for.
  abbrev Keeps {ℓ} : {A : Type ℓ} → (A → Type 0) → Parsed → A × Parsed → Type 0
  Keeps E p r = Grows p r.1 × (unparsed files p < n → E r.0)

  or_next-Keeps :
      (p : Parsed) (r : Loaded × Parsed) (next : Parsed → Found)
      → Keeps Ends p r
      → ((q : Parsed) → Keeps Ran q (next q))
      → Keeps Ran p (or_next r next)
  or_next-Keeps p (loaded c, q) next h k = (h.0, λ b. tt)
  or_next-Keeps p (absent, q) next h k =
      (λ f e. (k q).0 f (h.0 f e), λ b. (k q).1 (omega (arith, unparsed-le files p q h.0)))
  or_next-Keeps p (failed, q) next h k =
      (λ f e. (k q).0 f (h.0 f e), λ b. (k q).1 (omega (arith, unparsed-le files p q h.0)))
  or_next-Keeps p (exhausted, q) next h k = (h.0, λ b. h.1 b)

  then_bases-Keeps :
      (p : Parsed) (r : Found) (rest : Parsed → Bases)
      → Keeps Ran p r
      → ((q : Parsed) → Keeps Ran q (rest q))
      → Keeps Ran p (then_bases r rest)
  then_bases-Keeps p (none, q) rest h k = h
  then_bases-Keeps p (some found, q) rest h k = (
    λ f e. add_base-Grows found q (rest q) (k q).0 f (h.0 f e),
    λ b. add_base-Ran found (rest q) ((k q).1 (omega (arith, unparsed-le files p q h.0))),
  )

  config_with_bases-Keeps :
      (t : Str) (c : TsConfigJson) (p : Parsed) (r : Bases)
      → Keeps Ran p r
      → Keeps Ends p (config_with_bases t c r)
  config_with_bases-Keeps t c p (none, q) h = h
  config_with_bases-Keeps t c p (some bases, q) h = (h.0, λ b. tt)

  module _ (load : Parsed → Str → Loaded × Parsed)
      (keeps : (p : Parsed) (t : Str) → Keeps Ends p (load p t)) where
    find_base-Keeps :
        (potentials : List Str) (p : Parsed) → Keeps Ran p (find_base load potentials p)
    unfolding find_base
    find_base-Keeps [] p = (λ f e. e, λ b. tt)
    find_base-Keeps (t ∷ potentials) p =
        let step =
          or_next-Keeps p (load p t) (find_base load potentials) (keeps p t)
            (find_base-Keeps potentials) in
        elim (Option-cases (lookup t p)) [
          | inl new ↦ rw (find_base, new) step
          | inr (none, slot) ↦ rw (find_base, slot) (find_base-Keeps potentials p)
          | inr (some c, slot) ↦ rw (find_base, slot) step
        ]

    find_bases-Keeps :
        (potentials : Str → List Str) (exts : List Str) (p : Parsed)
        → Keeps Ran p (find_bases load potentials exts p)
    unfolding find_bases
    find_bases-Keeps potentials [] p = (λ f e. e, λ b. tt)
    find_bases-Keeps potentials (ext ∷ exts) p =
        then_bases-Keeps p (find_base load (potentials ext) p) (find_bases load potentials exts)
          (find_base-Keeps (potentials ext) p) (find_bases-Keeps potentials exts)

module _ (contents : Str → Contents) (resolver : Str → Str → List Str) (files : List Str)
    (known : (t : Str) (c : TsConfigJson) → contents t ≡ tsconfig_json c → In t files) where
  parse_contents-Keeps :
      (fuel : ℕ) (load : Parsed → Str → Loaded × Parsed) (t : Str) (found : Contents) (p : Parsed)
      → ((q : Parsed) (u : Str) → Keeps files fuel Ends q (load q u))
      → Keeps files fuel Ends p (parse_contents contents resolver load t found p)
  unfolding parse_contents
  parse_contents-Keeps fuel load t missing p keeps = (λ f e. e, λ b. tt)
  parse_contents-Keeps fuel load t malformed p keeps = (λ f e. e, λ b. tt)
  parse_contents-Keeps fuel load t (tsconfig_json c) p keeps =
      config_with_bases-Keeps files fuel t c p _ (
        find_bases-Keeps files fuel load keeps (resolver (dir t)) (without_empty_texts c.extends) p)

  -- With a slot reserved, a file that is not a tsconfig ends at once, and another has a file less to
  -- read.
  reserved-Ends :
      (fuel : ℕ) (load : Parsed → Str → Loaded × Parsed) (t : Str) (found : Contents) (p : Parsed)
      → contents t ≡ found
      → lookup t p ≡ none
      → ((q : Parsed) (u : Str) → Keeps files fuel Ends q (load q u))
      → unparsed files p < suc fuel
      → Ends (parse_contents contents resolver load t found (insert t none p)).0
  unfolding parse_contents
  reserved-Ends fuel load t missing p e free keeps b = tt
  reserved-Ends fuel load t malformed p e free keeps b = tt
  reserved-Ends fuel load t (tsconfig_json c) p e free keeps b =
      (parse_contents-Keeps fuel load t (tsconfig_json c) (insert t none p) keeps).1
        (omega (arith, unparsed-lt t none files p (known t c e) free))

  parse_file-Keeps :
      (fuel : ℕ) (p : Parsed) (t : Str)
      → Keeps files fuel Ends p (parse_file contents resolver fuel p t)
  unfolding parse_file
  parse_file-Keeps zero p t = (λ f e. e, λ b. absurd (omega arith))
  parse_file-Keeps (suc fuel) p t = elim (Option-cases (lookup t p)) [
    | inr (none, slot) ↦ rw (parse_file, slot) (λ f e. e, λ b. tt)
    | inr (some c, slot) ↦ rw (parse_file, slot) (λ f e. e, λ b. tt)
    | inl free ↦
        let r =
          parse_contents contents resolver (parse_file contents resolver fuel) t (contents t)
            (insert t none p) in
        let k =
          parse_contents-Keeps fuel (parse_file contents resolver fuel) t (contents t)
            (insert t none p) (parse_file-Keeps fuel) in
        rw (parse_file, free)
          (
            store_config-Grows t p r (λ f e. k.0 f (Grows-insert t none p f e)),
            λ b. store_config-Ends t r (
                reserved-Ends fuel (parse_file contents resolver fuel) t (contents t) p refl free
                  (parse_file-Keeps fuel) b),
          )
  ]

  -- Where every file that is a tsconfig is one of `files`, reading a tsconfig ends, whatever is
  -- parsed already and however the files extend one another: as much fuel as there are files that
  -- are not parsed, and one more, is enough.
  pub parse_file-ends :
      (fuel : ℕ) (p : Parsed) (t : Str)
      → unparsed files p < fuel
      → (parse_file contents resolver fuel p t).0 ≢ exhausted
  parse_file-ends fuel p t enough e = subst Ends e ((parse_file-Keeps fuel p t).1 enough)
