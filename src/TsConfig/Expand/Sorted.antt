-- ===== src/TsConfig/Expand/Sorted.antt =====
-- The order of the matches: matches of one import with keys of their own stand in one order only.
use aspect_gazelle.Base.{
  ℕ, ◌-◌, ◌≡◌, ◌≢◌, some-injective, ◌⊎◌, refl, sym, ◌∙◌, ap, ap₂, subst, true, false, Option, none,
  some, List, [], ◌∷◌, ◌++◌, ◌&&◌, nat_eq, Str, In, here, there, All, has_prefix, has_suffix, cut,
  length, take, drop, Option-cases, Bool-cases, and-eq_true, true-false, inl, inr, arith,
}
use aspect_gazelle.Base.Assoc.{Assoc}
use aspect_gazelle.Node.Laws.{cut-some}
use aspect_gazelle.TsConfig.Expand.{
  Match, star, match_of, add_match, possible_matches, less, insert_match, sort_matches,
}
use aspect_gazelle.TsConfig.Expand.Matches.{prefix-take, suffix-drop}

-- One of the two is less than the other.
abbrev pub Apart : Match → Match → Type 0
Apart x y = (less x y ≡ true) ⊎ (less y x ≡ true)

abbrev pub AllApart : List Match → Type 0
AllApart [] = Unit
AllApart (x ∷ xs) = All (Apart x) xs × AllApart xs

abbrev pub IsSorted : List Match → Type 0
IsSorted [] = Unit
IsSorted (x ∷ xs) = All (λ y. less x y ≡ true) xs × IsSorted xs

less_trans : (x y z : Match) → less x y ≡ true → less y z ≡ true → less x z ≡ true
unfolding less
less_trans x y z h k = ground arith

pub less_asym : (x y : Match) → less x y ≡ true → less y x ≡ false
unfolding less
less_asym x y h = ground arith

less_total :
    (x y : Match)
    → less x y ≡ false
    → less y x ≡ false
    → (length x.prefix ≡ length y.prefix) × (length x.suffix ≡ length y.suffix)
unfolding less
less_total x y h k = ground arith

-- What a match says of the import and of its key.
record IsMatch (p key : Str) (x : Match) : Type 0 where
  made : key ≡ x.prefix ++ star ∷ x.suffix
  starts : has_prefix p x.prefix ≡ true
  ends : has_suffix p x.suffix ≡ true

match_of-IsMatch :
    (p key : Str) (o : List Str) (x : Match) → match_of p key o ≡ some x → IsMatch p key x
unfolding match_of
match_of-IsMatch p key o x h = elim (Option-cases (cut key star)) [
  | inl n ↦ cc (rw (match_of, n) at h)
  | inr ((b, a), found) ↦ elim (Bool-cases (has_prefix p b && has_suffix p a)) [
    | inr f ↦ cc (rw (match_of, found, f) at h)
    | inl t ↦
        let e : some (record { prefix = b; suffix = a; original_paths = o }) ≡ some x =
          (rw (match_of, found, t) at h) in
        let split = (cut-some key star b a found).0 in
        let both = and-eq_true (has_prefix p b) (has_suffix p a) t in
        subst (IsMatch p key) (some-injective _ _ e)
          (record { made = split; starts = both.0; ends = both.1 })
  ]
]

Apart-keys : (p k l : Str) (x y : Match) → IsMatch p k x → IsMatch p l y → k ≢ l → Apart x y
Apart-keys p k l x y m n differ = elim (Bool-cases (less x y)) [
  | inl t ↦ inl t
  | inr f ↦ elim (Bool-cases (less y x)) [
    | inl t ↦ inr t
    | inr g ↦
        let same = less_total x y f g in
        let prefixes : x.prefix ≡ y.prefix =
          prefix-take p x.prefix m.starts
          ∙ ap (λ (n : ℕ). take n p) same.0
          ∙ sym (prefix-take p y.prefix n.starts) in
        let suffixes : x.suffix ≡ y.suffix =
          suffix-drop p x.suffix m.ends
          ∙ ap (λ (n : ℕ). drop (length p - n) p) same.1
          ∙ sym (suffix-drop p y.suffix n.ends) in
        absurd (differ (m.made ∙ ap₂ (λ (a b : Str). a ++ star ∷ b) prefixes suffixes ∙ sym n.made))
  ]
]

-- A map of paths in some order: no key is there twice.
abbrev Fresh : Str → Assoc Str (List Str) → Type 0
Fresh key entries = (l : Str) (o : List Str) → In (l, o) entries → key ≢ l

abbrev pub IsKeyedOnce : Assoc Str (List Str) → Type 0
IsKeyedOnce [] = Unit
IsKeyedOnce ((key, o) ∷ entries) = Fresh key entries × IsKeyedOnce entries

All-add_match :
    (P : Match → Type 0) (m : Option Match) (ms : List Match)
    → ((x : Match) → m ≡ some x → P x)
    → All P ms
    → All P (add_match m ms)
All-add_match P none ms h k = k
All-add_match P (some x) ms h k = (h x refl, k)

All-Apart :
    (p key : Str) (x : Match) (entries : Assoc Str (List Str))
    → IsMatch p key x
    → Fresh key entries
    → All (Apart x) (possible_matches p entries)
unfolding possible_matches
All-Apart p key x [] m fresh = tt
All-Apart p key x ((l, o) ∷ entries) m fresh =
    All-add_match (Apart x) (match_of p l o) (possible_matches p entries)
      (λ y e. Apart-keys p key l x y m (match_of-IsMatch p l o y e) (fresh l o (here refl)))
      (All-Apart p key x entries m (λ l' o' i. fresh l' o' (there i)))

AllApart-add_match :
    (m : Option Match) (ms : List Match)
    → ((x : Match) → m ≡ some x → All (Apart x) ms)
    → AllApart ms
    → AllApart (add_match m ms)
AllApart-add_match none ms h k = k
AllApart-add_match (some x) ms h k = (h x refl, k)

pub possible_matches-AllApart :
    (p : Str) (entries : Assoc Str (List Str))
    → IsKeyedOnce entries
    → AllApart (possible_matches p entries)
unfolding possible_matches
possible_matches-AllApart p [] once = tt
possible_matches-AllApart p ((key, o) ∷ entries) once =
    AllApart-add_match (match_of p key o) (possible_matches p entries)
      (λ x e. All-Apart p key x entries (match_of-IsMatch p key o x e) once.0)
      (possible_matches-AllApart p entries once.1)

All-insert_match :
    (P : Match → Type 0) (m : Match) (ns : List Match) → P m → All P ns → All P (insert_match m ns)
unfolding insert_match
All-insert_match P m [] h k = (h, tt)
All-insert_match P m (n ∷ ns) h k = elim (Bool-cases (less n m)) [
  | inl t ↦ rw (insert_match, t) (k.0, All-insert_match P m ns h k.1)
  | inr f ↦ rw (insert_match, f) (h, k)
]

All-less :
    (x y : Match) (ys : List Match)
    → less x y ≡ true
    → All (λ z. less y z ≡ true) ys
    → All (λ z. less x z ≡ true) ys
All-less x y [] h k = tt
All-less x y (z ∷ ys) h k = (less_trans x y z h k.0, All-less x y ys h k.1)

insert_match-IsSorted :
    (m : Match) (ns : List Match) → All (Apart m) ns → IsSorted ns → IsSorted (insert_match m ns)
unfolding insert_match
insert_match-IsSorted m [] apart s = (tt, tt)
insert_match-IsSorted m (n ∷ ns) apart s = elim (Bool-cases (less n m)) [
  | inl t ↦
      rw (insert_match, t)
        (All-insert_match (λ z. less n z ≡ true) m ns t s.0, insert_match-IsSorted m ns apart.1 s.1)
  | inr f ↦
      let below : less m n ≡ true = elim apart.0 [ inl t ↦ t | inr t ↦ true-false t f ] in
      rw (insert_match, f) ((below, All-less m n ns below s.0), s)
]

All-sort_matches : (P : Match → Type 0) (ms : List Match) → All P ms → All P (sort_matches ms)
unfolding sort_matches
All-sort_matches P [] h = tt
All-sort_matches P (m ∷ ms) h =
    All-insert_match P m (sort_matches ms) h.0 (All-sort_matches P ms h.1)

pub sort_matches-IsSorted : (ms : List Match) → AllApart ms → IsSorted (sort_matches ms)
unfolding sort_matches
sort_matches-IsSorted [] h = tt
sort_matches-IsSorted (m ∷ ms) h =
    insert_match-IsSorted m (sort_matches ms) (All-sort_matches (Apart m) ms h.0)
      (sort_matches-IsSorted ms h.1)
