-- ===== src/Labels.antt =====
-- common/set.go: the order of the labels of a set, and what is put into it. The set itself is of
-- another library.
pub mod Ordered
use Prim.Native.Nat.{Ordering, compare}
use aspect_gazelle.Base.{
  Bool, true, false, Option, none, some, [], ◌∷◌, ◌==◌, ◌&&◌, not, nat_eq, list_eq, Str,
  if◌then◌else◌,
}

-- The fields of a label of bazel-gazelle; `canonical` is that of one written @@repo.
pub record Label : Type 0 where
  pub repo : Str
  pub pkg : Str
  pub name : Str
  pub relative : Bool
  pub canonical : Bool

-- strings.Compare, with `lt` for -1, `eq` for 0 and `gt` for +1
unfoldable pub compare_text : Str → Str → Ordering
compare_text [] [] = Ordering.eq
compare_text [] (y ∷ ys) = Ordering.lt
compare_text (x ∷ xs) [] = Ordering.gt
compare_text (x ∷ xs) (y ∷ ys) =
    let rest = compare_text xs ys in
    elim (compare x y) [
      | Ordering.lt ↦ Ordering.lt
      | Ordering.eq ↦ rest
      | Ordering.gt ↦ Ordering.gt
    ]

-- `if c != 0 { return c }`, and then the next comparison
abbrev pub or_compare : Ordering → Ordering → Ordering
or_compare Ordering.lt next = Ordering.lt
or_compare Ordering.eq next = next
or_compare Ordering.gt next = Ordering.gt

-- Relative labels come first.
abbrev pub compare_relative : Bool → Bool → Ordering
compare_relative true true = Ordering.eq
compare_relative true false = Ordering.lt
compare_relative false true = Ordering.gt
compare_relative false false = Ordering.eq

-- LabelComparator
unfoldable pub label_comparator : Label → Label → Ordering
label_comparator al bl = or_compare (compare_relative al.relative bl.relative) (
    or_compare (compare_text al.repo bl.repo)
      (or_compare (compare_text al.pkg bl.pkg) (compare_text al.name bl.name)))

-- An empty repository is that of the set's own label.
abbrev pub qualified : Label → Label → Label
qualified from l =
    if l.repo == [] && not l.relative && not (from.repo == [])
    then record l { repo = from.repo }
    else l

-- What Add puts into the set of a label, unless it is that label: `equal` and `rel` are the methods
-- Equal and Rel of labels.
unfoldable pub added_label :
    (Label → Label → Bool) → (Label → Str → Str → Label) → Label → Label → Option Label
added_label equal rel from l =
    if equal from (qualified from l) then none else some (rel (qualified from l) from.repo from.pkg)
