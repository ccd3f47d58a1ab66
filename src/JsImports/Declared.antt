-- ===== src/JsImports/Declared.antt =====
-- The paths that a source and its declaration file can be imported as.
use aspect_gazelle.Base.{
  ℕ, ◌-◌, ◌≡◌, refl, sym, ◌∙◌, ap, true, false, List, [], ◌∷◌, ◌++◌, nat_eq, list_eq, list_beq, Str,
  codes, has_suffix-append, contains_byte, length, length-append, take, take-length-append,
  append_assoc, arith,
}
use aspect_gazelle.GoPath.{ext}
use aspect_gazelle.JsImports.{
  to_import_paths, is_declaration_file_type, to_js_ext, to_dts_ext, is_transpiled_source_file_ext,
  without_last, short_imports,
}

-- The extensions of sources that have declaration files of their own extension.
pub data DeclaredExt : Type 0 where
  ts mts cts : DeclaredExt

abbrev pub source_ext : DeclaredExt → Str
source_ext ts = codes ".ts"
source_ext mts = codes ".mts"
source_ext cts = codes ".cts"

abbrev pub declaration_ext : DeclaredExt → Str
declaration_ext e = codes ".d" ++ source_ext e

abbrev pub swap_first : List Str → List Str
swap_first (x ∷ y ∷ rest) = y ∷ x ∷ rest
swap_first xs = xs

ext-append : (b : Str) (c : ℕ) (e : Str) → ext (c ∷ e) ≡ c ∷ e → ext (b ++ c ∷ e) ≡ c ∷ e
unfolding ext
ext-append [] c e h = h
ext-append (x ∷ b) c e h = rw (ext-append b c e h)

ext-source : (e : DeclaredExt) (b : Str) → ext (b ++ source_ext e) ≡ source_ext e
unfolding contains_byte
ext-source ts b = ext-append b b'.' (codes "ts") (unfold ext in refl)
ext-source mts b = ext-append b b'.' (codes "mts") (unfold ext in refl)
ext-source cts b = ext-append b b'.' (codes "cts") (unfold ext in refl)

without_last-append : (b e : Str) → without_last (length e) (b ++ e) ≡ b
without_last-append b e =
    let n : length (b ++ e) - length e ≡ length b = omega (arith, length-append b e) in
    rw n (take-length-append b e)

is_declaration_file_type-append :
    (e : DeclaredExt) (b : Str) → is_declaration_file_type (b ++ declaration_ext e) ≡ true
unfolding is_declaration_file_type
is_declaration_file_type-append ts b = rw (has_suffix-append b (codes ".d.ts"))
is_declaration_file_type-append mts b = ground (arith, has_suffix-append b (codes ".d.mts"))
is_declaration_file_type-append cts b = ground (arith, has_suffix-append b (codes ".d.cts"))

js-same : (e : DeclaredExt) → is_transpiled_source_file_ext (source_ext e) ≡ true
unfolding is_transpiled_source_file_ext list_beq
js-same ts = refl
js-same mts = refl
js-same cts = refl

dts-same : (e : DeclaredExt) → to_dts_ext (source_ext e) ≡ declaration_ext e
unfolding to_dts_ext list_beq
dts-same ts = refl
dts-same mts = refl
dts-same cts = refl

-- The declaration file of a source, as a path that ends in the extension of the source.
declaration_path :
    (e : DeclaredExt) (b : Str) → b ++ declaration_ext e ≡ (b ++ codes ".d") ++ source_ext e
declaration_path e b = sym (append_assoc b (codes ".d") (source_ext e))

source_paths :
    (e : DeclaredExt) (b : Str)
    → is_declaration_file_type (b ++ source_ext e) ≡ false
    → to_import_paths (b ++ source_ext e)
      ≡ (b ++ to_js_ext (source_ext e)) ∷ (b ++ declaration_ext e) ∷ short_imports (source_ext e) b
unfolding to_import_paths
source_paths e b h =
    rw (h, ext-source e b, js-same e, without_last-append b (source_ext e), dts-same e)

ext-declaration : (e : DeclaredExt) (b : Str) → ext (b ++ declaration_ext e) ≡ source_ext e
ext-declaration e b = ap ext (declaration_path e b) ∙ ext-source e (b ++ codes ".d")

no_ext-declaration :
    (e : DeclaredExt) (b : Str)
    → without_last (length (source_ext e)) (b ++ declaration_ext e) ≡ b ++ codes ".d"
no_ext-declaration e b =
    ap (λ (p : Str). without_last (length (source_ext e)) p) (declaration_path e b)
    ∙ without_last-append (b ++ codes ".d") (source_ext e)

no_dts-declaration :
    (e : DeclaredExt) (b : Str) → take (length (b ++ codes ".d") - 2) (b ++ declaration_ext e) ≡ b
no_dts-declaration e b =
    let n : length (b ++ codes ".d") - 2 ≡ length b = omega (arith, length-append b (codes ".d")) in
    rw n (take-length-append b (declaration_ext e))

declaration_paths :
    (e : DeclaredExt) (b : Str)
    → to_import_paths (b ++ declaration_ext e)
      ≡ (b ++ declaration_ext e) ∷ (b ++ to_js_ext (source_ext e)) ∷ short_imports (source_ext e) b
unfolding to_import_paths
declaration_paths e b = rw (
  is_declaration_file_type-append e b,
  ext-declaration e b,
  no_ext-declaration e b,
  no_dts-declaration e b,
)

-- A source and its declaration file can be imported as the same paths: those of the declaration are
-- those of the source with the first two in the other order.
pub to_import_paths-declaration :
    (e : DeclaredExt) (b : Str)
    → is_declaration_file_type (b ++ source_ext e) ≡ false
    → to_import_paths (b ++ declaration_ext e) ≡ swap_first (to_import_paths (b ++ source_ext e))
to_import_paths-declaration e b h = declaration_paths e b ∙ sym (ap swap_first (source_paths e b h))
