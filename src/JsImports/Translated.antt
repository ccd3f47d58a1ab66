-- ===== src/JsImports/Translated.antt =====
-- An import of the messages of a proto source is translated back to that source.
use aspect_gazelle.Base.{
  ℕ, ◌-◌, ◌≡◌, ◌≢◌, refl, sym, ◌∙◌, ap, subst, list_beq_iff, nat_eq, true, false, some, List, [],
  ◌∷◌, ◌++◌, Str, codes, In, In-append-left, In-append-right, here, there, has_suffix,
  has_suffix-split, has_suffix-append, trim_suffix, length, length-append, take, drop,
  drop-length-append, take-length-append, append_assoc, Bool-cases, inl, inr, true-false, list_beq,
  arith,
}
use aspect_gazelle.GoPath.{join}
use aspect_gazelle.JsImports.Protos.{
  TsProtoLibrary, base_without_proto, source_outputs, imports_of_srcs, dts_outputs, output_imports,
  all_imports, proto_library_imports, without_js_ext, js_proto_imp_to_proto_src,
}

-- Texts with one ending end in the same text of its length.
same_ending : (xs t ys v : Str) → length t ≡ length v → xs ++ t ≡ ys ++ v → t ≡ v
same_ending xs t ys v l e =
    let n : length xs ≡ length ys =
      omega (arith, ap length e, length-append xs t, length-append ys v) in
    sym (drop-length-append xs t)
    ∙ ap (drop (length xs)) e
    ∙ ap (λ (k : ℕ). drop k (ys ++ v)) n
    ∙ drop-length-append ys v

-- A text does not end in what ends otherwise.
has_suffix-other :
    (s t u v : Str) → length t ≡ length v → t ≢ v → has_suffix (s ++ t) (u ++ v) ≡ false
has_suffix-other s t u v l differ = elim (Bool-cases (has_suffix (s ++ t) (u ++ v))) [
  | inr f ↦ f
  | inl h ↦
      let r = take (length (s ++ t) - length (u ++ v)) (s ++ t) in
      absurd (
        differ (
          same_ending s t (r ++ u) v l
            (has_suffix-split (s ++ t) (u ++ v) h ∙ sym (append_assoc r u v))))
]

trim_suffix-append : (r p : Str) → trim_suffix (r ++ p) p ≡ r
unfolding trim_suffix
trim_suffix-append r p =
    let n : length (r ++ p) - length p ≡ length r = omega (arith, length-append r p) in
    rw (has_suffix-append r p, n) (take-length-append r p)

other_text : {t v : Str} → list_beq t v ≡ false → t ≢ v
other_text differ e = true-false ((list_beq_iff _ _).1 e) differ

trim_suffix-split : (x p : Str) → has_suffix x p ≡ true → trim_suffix x p ++ p ≡ x
unfolding trim_suffix
trim_suffix-split x p h = rw h (sym (has_suffix-split x p h))

-- The three imports of an output that ends in `_pb`, without their extensions.
without_js_ext-output :
    (base imp : Str)
    → In imp (output_imports (base ++ codes "_pb"))
    → without_js_ext imp ≡ base ++ codes "_pb"
unfolding list_beq
without_js_ext-output base imp (here e) = rw (
  e,
  has_suffix-other base (codes "_pb") (codes ".d") (codes ".ts") refl (other_text refl),
  has_suffix-other base (codes "_pb") [] (codes ".js") refl (other_text refl),
)
without_js_ext-output base imp (there (here e)) =
    let output = base ++ codes "_pb" in
    rw
      (
        e,
        has_suffix-other output (codes ".js") (codes ".d") (codes ".ts") refl (other_text refl),
        has_suffix-append output (codes ".js"),
      )
      (trim_suffix-append output (codes ".js"))
without_js_ext-output base imp (there (there (here e))) =
    let output = base ++ codes "_pb" in
    rw (e, has_suffix-append output (codes ".d.ts")) (trim_suffix-append output (codes ".d.ts"))
without_js_ext-output base imp (there (there (there i))) = elim i [ ]

translated :
    (x imp : Str)
    → has_suffix x (codes ".proto") ≡ true
    → In imp (output_imports (trim_suffix x (codes ".proto") ++ codes "_pb"))
    → js_proto_imp_to_proto_src imp ≡ some x
unfolding js_proto_imp_to_proto_src
translated x imp proto i =
    let base = trim_suffix x (codes ".proto") in
    rw
      (
        without_js_ext-output base imp i,
        has_suffix-append base (codes "_pb"),
        trim_suffix-append base (codes "_pb"),
      )
      (ap some (trim_suffix-split x (codes ".proto") proto))

In-all_imports :
    (output imp : Str) (outputs : List Str)
    → In output outputs
    → In imp (output_imports output)
    → In imp (all_imports outputs)
In-all_imports output imp [] i j = elim i [ ]
In-all_imports output imp (o ∷ outputs) (here e) j =
    In-append-left (output_imports o) (all_imports outputs)
      (subst (λ (p : Str). In imp (output_imports p)) e j)
In-all_imports output imp (o ∷ outputs) (there i) j =
    In-append-right (output_imports o) (all_imports outputs) (In-all_imports output imp outputs i j)

In-dts_outputs :
    (pkg : Str) (r : TsProtoLibrary) (src : Str) (srcs : List Str)
    → In src srcs
    → In (base_without_proto pkg src ++ codes "_pb") (dts_outputs pkg r srcs)
unfolding dts_outputs source_outputs
In-dts_outputs pkg r src [] i = elim i [ ]
In-dts_outputs pkg r src (s ∷ srcs) (here e) =
    In-append-left (source_outputs pkg r s) (dts_outputs pkg r srcs)
      (here (ap (λ (t : Str). base_without_proto pkg t ++ codes "_pb") e))
In-dts_outputs pkg r src (s ∷ srcs) (there i) =
    In-append-right (source_outputs pkg r s) (dts_outputs pkg r srcs)
      (In-dts_outputs pkg r src srcs i)

-- For every proto source of a ts_proto_library, the three imports of its messages are among those
-- that the library provides, and each of them is translated back to the path of the source.
pub js_proto_imp_to_proto_src-provided :
    (pkg : Str) (r : TsProtoLibrary) (src imp : Str) (srcs : List Str)
    → r.proto_srcs ≡ some srcs
    → In src srcs
    → has_suffix (join pkg src) (codes ".proto") ≡ true
    → In imp (output_imports (base_without_proto pkg src ++ codes "_pb"))
    → In imp (proto_library_imports pkg r) × (js_proto_imp_to_proto_src imp ≡ some (join pkg src))
unfolding proto_library_imports
js_proto_imp_to_proto_src-provided pkg r src imp srcs given i proto j = (
  subst (λ (imports : List Str). In imp imports) (sym (ap (imports_of_srcs pkg r) given))
      (In-all_imports (base_without_proto pkg src ++ codes "_pb") imp (dts_outputs pkg r srcs)
        (In-dts_outputs pkg r src srcs i) j),
  translated (join pkg src) imp proto j,
)
