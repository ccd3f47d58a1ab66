-- ===== src/TsConfig/Merge.antt =====
-- mergeBaseConfigs option by option, over the bases of a tsconfig.
use aspect_gazelle.Base.{
  ◌≡◌, refl, sym, ◌∙◌, ap, Bool, true, false, Option, none, some, List, [], ◌∷◌, Str, if◌then◌else◌,
}
use aspect_gazelle.TsConfig.{
  TsConfig, JsxType, jsx_none, or_else, jsx_or_else, merge_base_configs, merge_bases,
}

-- The options that mergeBaseConfigs copies as they are: all but paths and rootDirs.
pub data Setting : Type 0 where
  allow_js resolve_json_module composite declaration declaration_dir declaration_map : Setting
  declaration_only incremental ts_build_info_file source_map no_emit out_dir root_dir : Setting
  base_url import_helpers isolated_declarations jsx : Setting

pub data Value : Type 0 where
  flag : Bool → Value
  text : Str → Value
  jsx_type : JsxType → Value

abbrev pub flag_value : Option Bool → Option Value
flag_value none = none
flag_value (some b) = some (flag b)

abbrev pub text_value : Option Str → Option Value
text_value none = none
text_value (some s) = some (text s)

abbrev pub jsx_value : JsxType → Option Value
jsx_value jsx_none = none
jsx_value j = some (jsx_type j)

-- What a tsconfig says of an option, if it sets it; a jsx of none counts as not set.
abbrev pub setting : Setting → TsConfig → Option Value
setting Setting.allow_js c = flag_value c.allow_js
setting Setting.resolve_json_module c = flag_value c.resolve_json_module
setting Setting.composite c = flag_value c.composite
setting Setting.declaration c = flag_value c.declaration
setting Setting.declaration_dir c = text_value c.declaration_dir
setting Setting.declaration_map c = flag_value c.declaration_map
setting Setting.declaration_only c = flag_value c.declaration_only
setting Setting.incremental c = flag_value c.incremental
setting Setting.ts_build_info_file c =
    if c.set.ts_build_info_file then some (text c.ts_build_info_file) else none
setting Setting.source_map c = flag_value c.source_map
setting Setting.no_emit c = flag_value c.no_emit
setting Setting.out_dir c = if c.set.out_dir then some (text c.out_dir) else none
setting Setting.root_dir c = if c.set.root_dir then some (text c.root_dir) else none
setting Setting.base_url c = if c.set.base_url then some (text c.base_url) else none
setting Setting.import_helpers c =
    if c.set.import_helpers then some (flag c.import_helpers) else none
setting Setting.isolated_declarations c = flag_value c.isolated_declarations
setting Setting.jsx c = jsx_value c.jsx

-- What the last tsconfig says that sets the option.
abbrev pub last_setting : Setting → TsConfig → List TsConfig → Option Value
last_setting o base [] = setting o base
last_setting o base (next ∷ bases) = or_else (last_setting o next bases) (setting o base)

flag_value-or_else :
    (right left : Option Bool)
    → flag_value (or_else right left) ≡ or_else (flag_value right) (flag_value left)
flag_value-or_else none left = refl
flag_value-or_else (some b) left = refl

text_value-or_else :
    (right left : Option Str)
    → text_value (or_else right left) ≡ or_else (text_value right) (text_value left)
text_value-or_else none left = refl
text_value-or_else (some s) left = refl

jsx_value-or_else :
    (right left : JsxType)
    → jsx_value (jsx_or_else right left) ≡ or_else (jsx_value right) (jsx_value left)
jsx_value-or_else jsx_none left = refl
jsx_value-or_else JsxType.jsx_preserve left = refl
jsx_value-or_else JsxType.jsx_react left = refl
jsx_value-or_else JsxType.jsx_react_jsx left = refl
jsx_value-or_else JsxType.jsx_react_jsx_dev left = refl
jsx_value-or_else JsxType.jsx_react_native left = refl

-- An option with a mark that says whether it was set.
marked-or_else :
    {A : Type 0} (f : A → Value) (r l : Bool) (x y : A)
    → (if (if r then true else l) then some (f (if r then x else y)) else none)
      ≡ or_else (if r then some (f x) else none) (if l then some (f y) else none)
marked-or_else f true l x y = refl
marked-or_else f false l x y = refl

setting-merge_base_configs :
    (o : Setting) (left right : TsConfig) (current : Str)
    → setting o (merge_base_configs left right current) ≡ or_else (setting o right) (setting o left)
unfolding merge_base_configs
setting-merge_base_configs Setting.allow_js l r d = flag_value-or_else r.allow_js l.allow_js
setting-merge_base_configs Setting.resolve_json_module l r d =
    flag_value-or_else r.resolve_json_module l.resolve_json_module
setting-merge_base_configs Setting.composite l r d = flag_value-or_else r.composite l.composite
setting-merge_base_configs Setting.declaration l r d =
    flag_value-or_else r.declaration l.declaration
setting-merge_base_configs Setting.declaration_dir l r d =
    text_value-or_else r.declaration_dir l.declaration_dir
setting-merge_base_configs Setting.declaration_map l r d =
    flag_value-or_else r.declaration_map l.declaration_map
setting-merge_base_configs Setting.declaration_only l r d =
    flag_value-or_else r.declaration_only l.declaration_only
setting-merge_base_configs Setting.incremental l r d =
    flag_value-or_else r.incremental l.incremental
setting-merge_base_configs Setting.source_map l r d = flag_value-or_else r.source_map l.source_map
setting-merge_base_configs Setting.no_emit l r d = flag_value-or_else r.no_emit l.no_emit
setting-merge_base_configs Setting.isolated_declarations l r d =
    flag_value-or_else r.isolated_declarations l.isolated_declarations
setting-merge_base_configs Setting.jsx l r d = jsx_value-or_else r.jsx l.jsx
setting-merge_base_configs Setting.ts_build_info_file l r d =
    marked-or_else text r.set.ts_build_info_file l.set.ts_build_info_file r.ts_build_info_file
      l.ts_build_info_file
setting-merge_base_configs Setting.out_dir l r d =
    marked-or_else text r.set.out_dir l.set.out_dir r.out_dir l.out_dir
setting-merge_base_configs Setting.root_dir l r d =
    marked-or_else text r.set.root_dir l.set.root_dir r.root_dir l.root_dir
setting-merge_base_configs Setting.base_url l r d =
    marked-or_else text r.set.base_url l.set.base_url r.base_url l.base_url
setting-merge_base_configs Setting.import_helpers l r d =
    marked-or_else flag r.set.import_helpers l.set.import_helpers r.import_helpers l.import_helpers

or_else_assoc : {A : Type 0} (a b c : Option A) → or_else (or_else a b) c ≡ or_else a (or_else b c)
or_else_assoc none b c = refl
or_else_assoc (some x) b c = refl

last_setting-merge :
    (o : Setting) (base next : TsConfig) (bases : List TsConfig) (current : Str)
    → last_setting o (merge_base_configs base next current) bases
      ≡ or_else (last_setting o next bases) (setting o base)
last_setting-merge o base next [] current = setting-merge_base_configs o base next current
last_setting-merge o base next (x ∷ bases) current =
    ap (or_else (last_setting o x bases)) (setting-merge_base_configs o base next current)
    ∙ sym (or_else_assoc (last_setting o x bases) (setting o next) (setting o base))

-- Of the tsconfigs that a tsconfig extends, one or more, the last one that sets an option other than
-- paths and rootDirs decides what the merged base has for it, as it is written there; an explicit value
-- that equals the default counts as set, except that a jsx of none does not; and the merged base does
-- not set an option that none of them sets.
pub setting-merge_bases :
    (o : Setting) (base : TsConfig) (bases : List TsConfig) (current : Str)
    → setting o (merge_bases base bases current) ≡ last_setting o base bases
unfolding merge_bases
setting-merge_bases o base [] current = refl
setting-merge_bases o base (next ∷ bases) current =
    setting-merge_bases o (merge_base_configs base next current) bases current
    ∙ last_setting-merge o base next bases current
