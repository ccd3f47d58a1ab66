-- ===== src/JsConfig/Extends.antt =====
-- The settings of a directory and of those below it: target groups and ignored imports.
use aspect_gazelle.Base.{
  ◌≡◌, refl, ◌∙◌, ap, subst, Bool, true, Option, none, some, List, [], ◌∷◌, any-append, Str, In,
  here, there, map, list_beq, arith,
}
use aspect_gazelle.Base.Split.{trim_space}
use aspect_gazelle.Base.Exec.{ok, err}
use aspect_gazelle.Glob.{parse_valid_expression}
use aspect_gazelle.JsConfig.{
  TargetGroup, Settings, JsGazelleConfig, new_root_config, new_child, child_group,
}
use aspect_gazelle.JsConfig.Imports.{is_import_ignored, add_ignored_import, ignore_parsed}
use aspect_gazelle.JsConfig.Directives.{
  Outcome, apply_directive, apply_kind, read_directives, configure, configured, configure_file,
  then_read,
}
use aspect_gazelle.JsConfig.Directives.Kinds.{Directive, DirectiveKind, directive_kind}
use aspect_gazelle.JsConfig.Directives.Kept.{
  Extends, Extends-refl, flags, IsWellGrouped, IsWellGrouped-Extends, ignored_here,
}
use aspect_gazelle.JsConfig.Directives.Grouped.{read_directives-Extends}

module _ {L : Type 0} where
  flags-child : (gs : List (TargetGroup L)) → flags (map child_group gs) ≡ flags gs
  unfolding child_group
  flags-child [] = refl
  flags-child (g ∷ gs) = ap (◌∷◌ (g.name, g.testonly)) (flags-child gs)

  abbrev pub IsParentGrouped : Option (JsGazelleConfig L) → Type 0
  IsParentGrouped none = Unit
  IsParentGrouped (some c) = IsWellGrouped c.own

  configured-IsWellGrouped :
      (parent : Option (JsGazelleConfig L)) (rel : Str)
      → IsParentGrouped parent
      → IsWellGrouped (configured parent rel).own
  unfolding new_root_config new_child list_beq
  configured-IsWellGrouped none rel w = record { more = []; defaults = refl; distinct = refl }
  configured-IsWellGrouped (some c) rel w = record {
    more = w.more;
    defaults = flags-child c.own.targets ∙ w.defaults;
    distinct = rw (flags-child c.own.targets) w.distinct;
  }

  then_read-ok :
      (P : Settings L → Type 0) (r : Outcome L) (rest : Settings L → Outcome L)
      → ((t : Settings L) → r ≡ (ok tt, t) → (rest t).0 ≡ ok tt → P (rest t).1)
      → (then_read r rest).0 ≡ ok tt
      → P (then_read r rest).1
  then_read-ok P (ok u, t) rest next h = next t refl h
  then_read-ok P (err e, t) rest next h = absurd cc

  ignored_here-ignore_parsed :
      (s : Settings L) (glob : Str → Bool) (imp : Str)
      → glob imp ≡ true
      → ignored_here imp (ignore_parsed s (ok glob)) ≡ true
  ignored_here-ignore_parsed s glob imp h =
      ground (arith, any-append (λ (g : Str → Bool). g imp) s.ignore_dependencies (glob ∷ []))

module _ {L : Type 0} (parse_label : Str → Option L) (matches : Str → Str → Bool)
    (valid : Str → Bool) where
  configure_file-Extends :
      (c : JsGazelleConfig L) (file : Option (List Directive))
      → Extends c.own (configure_file parse_label matches valid c file).1.own
  configure_file-Extends c none = Extends-refl c.own
  configure_file-Extends c (some ds) = read_directives-Extends parse_label matches valid ds c.own

  -- In every directory that Configure reaches, the group of the library and that of the tests are
  -- the first, the tests' alone of the two is testonly, and no two groups have one name, whether its
  -- directives are all read or one stops the reading, if that is so of the parent directory.
  pub configure-IsWellGrouped :
      (parent : Option (JsGazelleConfig L)) (rel : Str) (file : Option (List Directive))
      → IsParentGrouped parent
      → IsWellGrouped (configure parse_label matches valid parent rel file).1.own
  unfolding configure
  configure-IsWellGrouped parent rel file w =
      IsWellGrouped-Extends _ _ (configured-IsWellGrouped parent rel w)
        (configure_file-Extends (configured parent rel) file)

  -- A directory, and one that is configured with it as the parent or with one that is.
  pub data Below (c : JsGazelleConfig L) : JsGazelleConfig L → Type 0 where
    itself : Below c c
    child :
        {d : JsGazelleConfig L} (rel : Str) (file : Option (List Directive))
        → Below c d
        → Below c (configure parse_label matches valid (some d) rel file).1

  configure_file-parents :
      (c : JsGazelleConfig L) (file : Option (List Directive))
      → (configure_file parse_label matches valid c file).1.parents ≡ c.parents
  configure_file-parents c none = refl
  configure_file-parents c (some ds) = refl

  is_import_ignored-child :
      (d : JsGazelleConfig L) (rel : Str) (file : Option (List Directive)) (imp : Str)
      → is_import_ignored d imp ≡ true
      → is_import_ignored (configure parse_label matches valid (some d) rel file).1 imp ≡ true
  unfolding is_import_ignored configure new_child
  is_import_ignored-child d rel file imp h =
      ground (arith, configure_file-parents (new_child rel d) file)

  is_import_ignored-Below :
      {c d : JsGazelleConfig L} (imp : Str)
      → Below c d
      → is_import_ignored c imp ≡ true
      → is_import_ignored d imp ≡ true
  is_import_ignored-Below imp itself h = h
  is_import_ignored-Below imp (child rel file below) h =
      is_import_ignored-child _ rel file imp (is_import_ignored-Below imp below h)

  -- The directive says that the import is ignored.
  pub record Ignores (d : Directive) (imp : Str) : Type 0 where
    pub kind : directive_kind d.key ≡ some DirectiveKind.js_ignore_imports
    pub glob : Str → Bool
    pub parsed : parse_valid_expression matches valid (trim_space (trim_space d.value)) ≡ ok glob
    pub matching : glob imp ≡ true

  apply_directive-ignored :
      (d : Directive) (s : Settings L) (imp : Str)
      → Ignores d imp
      → ignored_here imp (apply_directive parse_label matches valid d s).1 ≡ true
  unfolding apply_directive apply_kind add_ignored_import
  apply_directive-ignored d s imp i =
      rw (i.kind, i.parsed) (ignored_here-ignore_parsed s i.glob imp i.matching)

  ignored_here-read_directives :
      {d : Directive} (ds : List Directive) (s : Settings L) (imp : Str)
      → In d ds
      → Ignores d imp
      → (read_directives parse_label matches valid ds s).0 ≡ ok tt
      → ignored_here imp (read_directives parse_label matches valid ds s).1 ≡ true
  unfolding read_directives
  ignored_here-read_directives [] s imp m i h = elim m [ ]
  ignored_here-read_directives (x ∷ ds) s imp (here e) i h =
      then_read-ok (λ t. ignored_here imp t ≡ true) (apply_directive parse_label matches valid x s)
        (read_directives parse_label matches valid ds)
        (λ t applied ends. (read_directives-Extends parse_label matches valid ds t).ignored imp (
          subst (λ (o : Outcome L). ignored_here imp o.1 ≡ true) applied
            (apply_directive-ignored x s imp (subst (λ (y : Directive). Ignores y imp) e i))))
        h
  ignored_here-read_directives (x ∷ ds) s imp (there m) i h =
      then_read-ok (λ t. ignored_here imp t ≡ true) (apply_directive parse_label matches valid x s)
        (read_directives parse_label matches valid ds)
        (λ t applied ends. ignored_here-read_directives ds t imp m i ends) h

  here_ignored :
      (parent : Option (JsGazelleConfig L)) (rel imp : Str) (ds : List Directive) (d : Directive)
      → In d ds
      → Ignores d imp
      → (configure parse_label matches valid parent rel (some ds)).0 ≡ ok tt
      → is_import_ignored (configure parse_label matches valid parent rel (some ds)).1 imp ≡ true
  unfolding configure is_import_ignored
  here_ignored parent rel imp ds d m i h =
      rw (ignored_here-read_directives ds (configured parent rel).own imp m i h)

  -- An import that a js_ignore_imports directive of a directory's file matches is ignored in the
  -- directory and in every one below it, whatever their directives are, once the directives of the
  -- directory are all read.
  pub is_import_ignored-configure :
      (parent : Option (JsGazelleConfig L)) (rel imp : Str) (ds : List Directive) (d : Directive)
      {c : JsGazelleConfig L}
      → In d ds
      → Ignores d imp
      → (configure parse_label matches valid parent rel (some ds)).0 ≡ ok tt
      → Below (configure parse_label matches valid parent rel (some ds)).1 c
      → is_import_ignored c imp ≡ true
  is_import_ignored-configure parent rel imp ds d m i h below =
      is_import_ignored-Below imp below (here_ignored parent rel imp ds d m i h)
