-- ===== src/Watchman/Deduped.antt =====
-- Which notifications of changes Subscribe leaves out.
use aspect_gazelle.Base.{
  suc, ◌<◌, ◌-◌, ◌≡◌, ◌⊎◌, ◌↔◌, refl, sym, ◌∙◌, ap, Bool, true, false, Option, none, some, List, [],
  ◌∷◌, ◌++◌, ◌==◌, list_eq, nat_eq, option_eq, option_beq_iff, list_beq_iff, list_beq, Str,
  Bool-cases, and-eq_true, and-false, inl, inr, length, length-append, ltb, arith, All,
  take-length-append, true-false, if◌then◌else◌,
}
use aspect_gazelle.Base.Assoc.{Assoc, lookup, lookup-insert}
use aspect_gazelle.Base.Exec.{Result, ok}
use aspect_gazelle.GoPath.{join}
use aspect_gazelle.Watchman.{ChangeSet}
use aspect_gazelle.Watchman.Subscribe.{
  SubscribeFileEntry, SubscribeResponse, SubscribeError, starts_quoted, hash_of, add_hashes,
  diff_hashes, names_of, agrees_on_keys, maps_equal, on_response, subscribe_loop,
}

agrees_on_keys-lookup :
    (a b keys : Assoc Str Str) (k : Str)
    → agrees_on_keys a b keys ≡ true
    → (lookup k keys ≡ none) ⊎ (lookup k a ≡ lookup k b)
unfolding agrees_on_keys lookup
agrees_on_keys-lookup a b [] k h = inl refl
agrees_on_keys-lookup a b ((j, v) ∷ keys) k h =
    let (here, rest) = and-eq_true (lookup j a == lookup j b) _ h in
    elim (Bool-cases (j == k)) [
      | inl t ↦ inr (
          ap (λ (x : Str). lookup x a) (sym ((list_beq_iff j k).0 t))
          ∙ (option_beq_iff (lookup j a) (lookup j b)).0 here
          ∙ ap (λ (x : Str). lookup x b) ((list_beq_iff j k).0 t))
      | inr f ↦ rw f (agrees_on_keys-lookup a b keys k rest)
    ]

agrees_on_keys-same :
    (a b keys : Assoc Str Str)
    → ((k : Str) → lookup k a ≡ lookup k b)
    → agrees_on_keys a b keys ≡ true
unfolding agrees_on_keys
agrees_on_keys-same a b [] h = refl
agrees_on_keys-same a b ((j, v) ∷ keys) h =
    rw ((option_beq_iff (lookup j a) (lookup j b)).1 (h j)) (agrees_on_keys-same a b keys h)

-- maps.Equal holds where every key reads the same.
maps_equal_iff :
    (a b : Assoc Str Str) → (maps_equal a b ≡ true) ↔ ((k : Str) → lookup k a ≡ lookup k b)
unfolding maps_equal
maps_equal_iff a b = (
  λ h k.
      (let (in_a, in_b) = and-eq_true (agrees_on_keys a b a) (agrees_on_keys a b b) h in
        elim (agrees_on_keys-lookup a b a k in_a) [
          | inr same ↦ same
          | inl no_a ↦ elim (agrees_on_keys-lookup a b b k in_b) [
            | inr same ↦ same
            | inl no_b ↦ no_a ∙ sym no_b
          ]
        ]),
  λ h. rw (agrees_on_keys-same a b a h) (agrees_on_keys-same a b b h),
)

-- What watchman says of the contents of a file: a hash, or something else, such as an error.
pub data Content : Type 0 where
  hashed : Str → Content
  unhashed : Str → Content

-- In JSON: a hash is a string, which is not empty, and anything else is no string.
abbrev pub json_of : Content → Str
json_of (hashed hash) = b'"' ∷ hash ++ b'"' ∷ []
json_of (unhashed json) = json

abbrev pub IsContent : Content → Type 0
IsContent (hashed hash) = 0 < length hash
IsContent (unhashed json) = starts_quoted json ≡ false

-- A notification of changes, with the files by their names.
pub record Notification : Type 0 where
  pub clock : Str
  pub root : Str
  pub is_fresh_instance : Bool
  pub files : List (Str × Content)

abbrev pub entries_of : List (Str × Content) → List SubscribeFileEntry
entries_of [] = []
entries_of ((name, content) ∷ files) =
    record { name = name; sha1_hex = json_of content } ∷ entries_of files

abbrev pub response_of : Notification → SubscribeResponse
response_of n = record {
  error = [];
  clock = n.clock;
  root = n.root;
  files = some (entries_of n.files);
  is_fresh_instance = n.is_fresh_instance;
  unsubscribe = none;
  canceled = none;
  state_enter = none;
  state_leave = none;
}

-- The state of a file by its content: its hash or else the clock of the notification.
abbrev pub state_of : Str → Content → Str
state_of clock (hashed hash) = hash
state_of clock (unhashed json) = clock

abbrev pub or_earlier : Option Str → Option Str → Option Str
or_earlier none earlier = earlier
or_earlier (some state) earlier = some state

or_earlier-none : (o : Option Str) → or_earlier o none ≡ o
or_earlier-none none = refl
or_earlier-none (some state) = refl

-- The state of a path in a notification, by the last of its files with that name.
abbrev pub state_in : Str → List (Str × Content) → Str → Option Str
state_in clock [] path = none
state_in clock ((name, content) ∷ files) path =
    or_earlier (state_in clock files path)
      (if name == path then some (state_of clock content) else none)

abbrev pub names_in : List (Str × Content) → List Str
names_in [] = []
names_in ((name, content) ∷ files) = name ∷ names_in files

abbrev pub delivery : Str → Notification → ChangeSet
delivery rel n = record {
  paths = names_in n.files;
  root = join n.root rel;
  clock_spec = n.clock;
  is_fresh_instance = n.is_fresh_instance;
}

-- What is delivered of notifications, by the states of the paths in the one that was delivered last:
-- one with the same states is left out, and any other one is delivered.
pub data IsDeduped (E : Type 0) (rel : Str)
    : (Str → Option Str)
      → List Notification
      → List (Result (SubscribeError E) ChangeSet)
      → Type 0 where
  finished : {last : Str → Option Str} → IsDeduped E rel last [] []
  repeated :
      {last : Str → Option Str} {n : Notification} {ns : List Notification}
      {out : List (Result (SubscribeError E) ChangeSet)}
      → ((path : Str) → state_in n.clock n.files path ≡ last path)
      → IsDeduped E rel last ns out
      → IsDeduped E rel last (n ∷ ns) out
  delivered :
      {last : Str → Option Str} {n : Notification} {ns : List Notification}
      {out : List (Result (SubscribeError E) ChangeSet)}
      → ¬ ((path : Str) → state_in n.clock n.files path ≡ last path)
      → IsDeduped E rel (state_in n.clock n.files) ns out
      → IsDeduped E rel last (n ∷ ns) (ok (delivery rel n) ∷ out)

hash_of-json_of :
    (clock : Str) (c : Content) → IsContent c → hash_of clock (json_of c) ≡ state_of clock c
unfolding hash_of
hash_of-json_of clock (hashed hash) h =
    let n : length (b'"' ∷ hash ++ b'"' ∷ []) - 1 ≡ suc (length hash) =
      omega (arith, length-append hash (b'"' ∷ [])) in
    let long : ltb 2 (length (b'"' ∷ hash ++ b'"' ∷ [])) ≡ true =
      ground (arith, length-append hash (b'"' ∷ [])) in
    rw (long, n) (take-length-append hash (b'"' ∷ []))
hash_of-json_of clock (unhashed json) h = rw (h, and-false (ltb 2 (length json))) refl

names_of-entries_of : (files : List (Str × Content)) → names_of (entries_of files) ≡ names_in files
names_of-entries_of [] = refl
names_of-entries_of ((name, content) ∷ files) = ap (◌∷◌ name) (names_of-entries_of files)

or_earlier_split :
    (o : Option Str) (b : Bool) (state : Str) (earlier : Option Str)
    → or_earlier o (if b then some state else earlier)
      ≡ or_earlier (or_earlier o (if b then some state else none)) earlier
or_earlier_split none true state earlier = refl
or_earlier_split none false state earlier = refl
or_earlier_split (some x) b state earlier = refl

lookup-add_hashes :
    (clock path : Str) (files : List (Str × Content)) (hashes : Assoc Str Str)
    → All (λ (f : Str × Content). IsContent f.1) files
    → lookup path (add_hashes clock (entries_of files) hashes)
      ≡ or_earlier (state_in clock files path) (lookup path hashes)
unfolding add_hashes
lookup-add_hashes clock path [] hashes h = refl
lookup-add_hashes clock path ((name, content) ∷ files) hashes h =
    lookup-add_hashes clock path files _ h.1
    ∙ rw
        (
          lookup-insert name path (hash_of clock (json_of content)) hashes,
          hash_of-json_of clock content h.0,
        )
        (or_earlier_split (state_in clock files path) (name == path) (state_of clock content)
          (lookup path hashes))

abbrev pub IsWellFormed : Notification → Type 0
IsWellFormed n = All (λ (f : Str × Content). IsContent f.1) n.files

lookup-diff_hashes :
    (n : Notification) (path : Str)
    → IsWellFormed n
    → lookup path (diff_hashes n.clock (entries_of n.files)) ≡ state_in n.clock n.files path
unfolding diff_hashes lookup
lookup-diff_hashes n path h =
    lookup-add_hashes n.clock path n.files [] h ∙ or_earlier-none (state_in n.clock n.files path)

abbrev pub received_of : {E : Type 0} → List Notification → List (Result E SubscribeResponse)
received_of [] = []
received_of (n ∷ ns) = ok (response_of n) ∷ received_of ns

module _ {E : Type 0} (rel : Str) where
  loop-IsDeduped :
      (ns : List Notification) (prev : Assoc Str Str) (last : Str → Option Str)
      → All IsWellFormed ns
      → ((path : Str) → lookup path prev ≡ last path)
      → IsDeduped E rel last ns (subscribe_loop rel (received_of ns) prev)
  unfolding subscribe_loop on_response list_beq
  loop-IsDeduped [] prev last h same = finished
  loop-IsDeduped (n ∷ ns) prev last h same =
      let hashes = diff_hashes n.clock (entries_of n.files) in
      let (equal_to, equal_from) = maps_equal_iff hashes prev in
      elim (Bool-cases (maps_equal hashes prev)) [
        | inl t ↦ rw t (
            repeated (λ path. sym (lookup-diff_hashes n path h.0) ∙ equal_to t path ∙ same path)
              (loop-IsDeduped ns prev last h.1 same))
        | inr f ↦
            rw (f, names_of-entries_of n.files)
              (delivered
                (λ states.
                  true-false
                    (equal_from
                      (λ path. lookup-diff_hashes n path h.0 ∙ states path ∙ sym (same path)))
                    f)
                (loop-IsDeduped ns hashes (state_in n.clock n.files) h.1
                  (λ path. lookup-diff_hashes n path h.0)))
      ]

  -- Of notifications of changes whose hashes are strings that are not empty, and in which what is no
  -- hash is no string, which all come to a subscription that takes every change, one is left out if
  -- and only if every path has the same state in it as in the one that was delivered last, or none
  -- has a state in it and nothing was delivered so far; the state of a path is its hash or, without
  -- one, the clock of the notification. Every other one is delivered, in order, with the names of
  -- its files, its clock, its directory and whether the instance is fresh.
  pub subscribe_loop-IsDeduped :
      (ns : List Notification)
      → All IsWellFormed ns
      → IsDeduped E rel (λ path. none) ns (subscribe_loop rel (received_of ns) [])
  unfolding lookup
  subscribe_loop-IsDeduped ns h = loop-IsDeduped ns [] (λ path. none) h (λ path. refl)
