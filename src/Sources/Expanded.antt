-- ===== src/Sources/Expanded.antt =====
-- What the files are that an expression of `srcs` names.
use aspect_gazelle.Base.{
  ◌≡◌, ◌⊎◌, sym, ap, Bool, true, false, Option, none, some, some-injective, List, [], ◌∷◌, ◌++◌,
  Str, In, here, there, subst, Bool-cases, Option-cases, inl, inr,
}
use aspect_gazelle.Sources.{
  SrcsExpr, list, plus, glob, other, is_label_ref, expand_srcs_list, append_srcs, glob_matches,
  expand_glob, expand_srcs,
}

-- A source of an expression: a text of a list that is no label, or a file that a glob matches.
pub data IsSource (matches : Str → Str → Bool) (files : List Str) (src : Str)
    : SrcsExpr → Type 0 where
  listed :
      {entries : List (Option Str)}
      → In (some src) entries
      → is_label_ref src ≡ false
      → IsSource matches files src (list entries)
  globbed :
      {patterns excludes : List Str}
      → In src files
      → glob_matches matches patterns excludes src ≡ true
      → IsSource matches files src (glob patterns excludes)
  left : {x y : SrcsExpr} → IsSource matches files src x → IsSource matches files src (plus x y)
  right : {x y : SrcsExpr} → IsSource matches files src y → IsSource matches files src (plus x y)

In-expand_srcs_list :
    (src : Str) (entries : List (Option Str))
    → In src (expand_srcs_list entries)
    → In (some src) entries × (is_label_ref src ≡ false)
unfolding expand_srcs_list
In-expand_srcs_list src [] i = elim i [ ]
In-expand_srcs_list src (none ∷ entries) i =
    let r = In-expand_srcs_list src entries i in (there r.0, r.1)
In-expand_srcs_list src (some s ∷ entries) i = elim (Bool-cases (is_label_ref s)) [
  | inl l ↦
      let r = In-expand_srcs_list src entries (rw (expand_srcs_list, l) at i) in (there r.0, r.1)
  | inr n ↦ elim (rw (expand_srcs_list, n) at i) [
    | here e ↦ (here (ap some e), rw e n)
    | there j ↦ let r = In-expand_srcs_list src entries j in (there r.0, r.1)
  ]
]

In-append : (src : Str) (xs ys : List Str) → In src (xs ++ ys) → In src xs ⊎ In src ys
In-append src [] ys i = inr i
In-append src (x ∷ xs) ys (here e) = inl (here e)
In-append src (x ∷ xs) ys (there i) = elim (In-append src xs ys i) [
  | inl j ↦ inl (there j)
  | inr j ↦ inr j
]

module _ (matches : Str → Str → Bool) (files : List Str) where
  In-expand_glob :
      (patterns excludes : List Str) (src : Str) (fs : List Str)
      → In src (expand_glob matches patterns excludes fs)
      → In src fs × (glob_matches matches patterns excludes src ≡ true)
  unfolding expand_glob
  In-expand_glob patterns excludes src [] i = elim i [ ]
  In-expand_glob patterns excludes src (f ∷ fs) i =
      elim (Bool-cases (glob_matches matches patterns excludes f)) [
        | inr n ↦
            let r = In-expand_glob patterns excludes src fs (rw (expand_glob, n) at i) in
            (there r.0, r.1)
        | inl t ↦ elim (rw (expand_glob, t) at i) [
          | here e ↦ (here e, rw e t)
          | there j ↦ let r = In-expand_glob patterns excludes src fs j in (there r.0, r.1)
        ]
      ]

  -- What ExpandSrcs returns for a sum.
  expand_srcs-plus :
      (x y : SrcsExpr) (out : List Str)
      → append_srcs (expand_srcs matches files x) (expand_srcs matches files y) ≡ some out
      → (xs : List Str) × (ys : List Str) × (expand_srcs matches files x ≡ some xs)
        × (expand_srcs matches files y ≡ some ys)
        × (out ≡ xs ++ ys)
  expand_srcs-plus x y out h = elim (Option-cases (expand_srcs matches files x)) [
    | inl n ↦ cc (rw n at h)
    | inr (xs, ex) ↦ elim (Option-cases (expand_srcs matches files y)) [
      | inl n ↦ cc (rw (ex, n) at h)
      | inr (ys, ey) ↦ (xs, ys, ex, ey, sym (some-injective _ _ (rw (ex, ey) at h)))
    ]
  ]

  -- ExpandSrcs names only sources of the expression: texts of its lists that are no labels, and files
  -- that its globs match and do not exclude.
  pub expand_srcs-IsSource :
      (e : SrcsExpr) (out : List Str) (src : Str)
      → expand_srcs matches files e ≡ some out
      → In src out
      → IsSource matches files src e
  unfolding expand_srcs
  expand_srcs-IsSource (list entries) out src h i =
      let r =
        In-expand_srcs_list src entries
          (subst (λ (l : List Str). In src l) (sym (some-injective _ _ h)) i) in
      listed r.0 r.1
  expand_srcs-IsSource (glob patterns excludes) out src h i =
      let r =
        In-expand_glob patterns excludes src files
          (subst (λ (l : List Str). In src l) (sym (some-injective _ _ h)) i) in
      globbed r.0 r.1
  expand_srcs-IsSource other out src h i = absurd cc
  expand_srcs-IsSource (plus x y) out src h i =
      let (xs, ys, ex, ey, same) = expand_srcs-plus x y out h in
      elim (In-append src xs ys (subst (λ (l : List Str). In src l) same i)) [
        | inl j ↦ left (expand_srcs-IsSource x xs src ex j)
        | inr j ↦ right (expand_srcs-IsSource y ys src ey j)
      ]
