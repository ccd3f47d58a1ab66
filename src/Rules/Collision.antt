-- ===== src/Rules/Collision.antt =====
-- Which rules of a BUILD file an extension may replace or remove.
use aspect_gazelle.Base.{
  String, ◌≡◌, true-false, ◌↔◌, ◌⊎◌, inl, inr, true, none, some, List, [], ◌∷◌, ◌++◌, ◌==◌,
  string_eq, In, Bool-cases, Option-cases,
}
use text.Mathlib.TextEquality.{eq_iff}
use aspect_gazelle.Rules.{
  Rule, GenerateArgs, get_file_rule_by_name, map_kind, get_mapped_kind, contains_mapped_kind,
  check_collision_errors, remove_rule,
}

module _ (args : GenerateArgs) (kinds : List String) where
  -- A kind that the extension generates, as the workspace names it.
  pub record Owns (kind : String) : Type 0 where
    pub generated : String
    pub listed : In generated kinds
    pub mapped : map_kind args generated ≡ kind

get_mapped_kind-Owns :
    (args : GenerateArgs) (kinds : List String) (kind generated : String)
    → get_mapped_kind args kinds kind ≡ some generated
    → In generated kinds × (map_kind args generated ≡ kind)
unfolding get_mapped_kind
get_mapped_kind-Owns args [] kind generated h = cc
get_mapped_kind-Owns args (k ∷ kinds) kind generated h =
    elim (Bool-cases (map_kind args k == kind)) [
      | inl same ↦
          let found : some k ≡ some generated = rw (get_mapped_kind, same) at h in
          (In.here cc, cc (found, (eq_iff (map_kind args k) kind).0 same))
      | inr other ↦
          let (listed, mapped) =
            get_mapped_kind-Owns args kinds kind generated (rw (get_mapped_kind, other) at h) in
          (In.there listed, mapped)
    ]

get_mapped_kind-none :
    (args : GenerateArgs) (kinds : List String) (kind : String)
    → get_mapped_kind args kinds kind ≡ none
    → ¬ Owns args kinds kind
unfolding get_mapped_kind
get_mapped_kind-none args kinds kind h o = go kinds h o.listed
  where
    go : (ks : List String) → get_mapped_kind args ks kind ≡ none → In o.generated ks → ⊥
    go [] e i = elim i [ ]
    go (k ∷ ks) e (In.here same) =
        let matched : (map_kind args k == kind) ≡ true =
          (eq_iff (map_kind args k) kind).1 (rw (← same) o.mapped) in
        cc (rw (get_mapped_kind, matched) at e)
    go (k ∷ ks) e (In.there i) = elim (Bool-cases (map_kind args k == kind)) [
      | inl matched ↦ cc (rw (get_mapped_kind, matched) at e)
      | inr other ↦ go ks (rw (get_mapped_kind, other) at e) i
    ]

-- A target can be generated without a collision exactly if no rule of the file has its name, or the
-- first one that has it is of the mapped kind of the target, or of a kind that the extension
-- generates, as the workspace maps it.
pub check_collision_errors-none_iff :
    (target_name expected_kind : String) (kinds : List String) (args : GenerateArgs)
    → (check_collision_errors target_name expected_kind kinds args ≡ none) ↔ (
        (existing : Rule)
        → get_file_rule_by_name args target_name ≡ some existing
        → (existing.kind ≡ map_kind args expected_kind) ⊎ Owns args kinds existing.kind)
unfolding check_collision_errors contains_mapped_kind
check_collision_errors-none_iff target_name expected_kind kinds args =
    elim (Option-cases (get_file_rule_by_name args target_name)) [
      | inl missing ↦
          (λ h existing found. cc (found, missing), λ h. rw (check_collision_errors, missing))
      | inr (r, found) ↦ elim (Bool-cases (r.kind == map_kind args expected_kind)) [
        | inl same ↦ (
          λ h existing e. inl (rw (← is_found r found existing e) (kind_same r same)),
          λ h. rw (check_collision_errors, found, same),
        )
        | inr other ↦ elim (Option-cases (get_mapped_kind args kinds r.kind)) [
          | inl unowned ↦ (
            λ h. cc (rw (check_collision_errors, found, other, contains_mapped_kind, unowned) at h),
            λ h. elim (h r found) [
              | inl same ↦ true-false ((eq_iff r.kind (map_kind args expected_kind)).1 same) other
              | inr owns ↦ absurd (get_mapped_kind-none args kinds r.kind unowned owns)
            ],
          )
          | inr (k, owned) ↦
              let (listed, mapped) = get_mapped_kind-Owns args kinds r.kind k owned in
              (
                λ h existing e. inr (
                    rw (← is_found r found existing e)
                      (record { generated = k; listed = listed; mapped = mapped })),
                λ h. rw (check_collision_errors, found, other, contains_mapped_kind, owned),
              )
        ]
      ]
    ]
  where
    is_found :
        (r : Rule)
        → get_file_rule_by_name args target_name ≡ some r
        → (existing : Rule) → get_file_rule_by_name args target_name ≡ some existing
        → r ≡ existing
    is_found r found existing e = cc (found, e)

    kind_same :
        (r : Rule)
        → (r.kind == map_kind args expected_kind) ≡ true
        → r.kind ≡ map_kind args expected_kind
    kind_same r same = (eq_iff r.kind (map_kind args expected_kind)).0 same

-- RemoveRule, where the file has a rule of the name: either the extension generates a kind that is
-- mapped to the kind of the rule, and an empty rule of such a kind and of that name is added, for
-- Gazelle to delete the rule by; or it generates none, and nothing is changed.
pub remove_rule-Owns :
    (args : GenerateArgs) (rule_name : String) (kinds : List String) (empty : List Rule)
    (existing : Rule)
    → get_file_rule_by_name args rule_name ≡ some existing
    → ((owner : Owns args kinds existing.kind) × (remove_rule args rule_name kinds empty
          ≡ empty ++ record { kind = owner.generated; name = rule_name } ∷ []))
      ⊎ ((¬ Owns args kinds existing.kind) × (remove_rule args rule_name kinds empty ≡ empty))
unfolding remove_rule
remove_rule-Owns args rule_name kinds empty existing found =
    elim (Option-cases (get_mapped_kind args kinds existing.kind)) [
      | inl unowned ↦
          inr (
            get_mapped_kind-none args kinds existing.kind unowned,
            rw (remove_rule, found, unowned),
          )
      | inr (k, owned) ↦
          let (listed, mapped) = get_mapped_kind-Owns args kinds existing.kind k owned in
          inl (
            record { generated = k; listed = listed; mapped = mapped },
            rw (remove_rule, found, owned),
          )
    ]
