-- ===== src/Watchman/Subscribe.antt =====
-- runner/pkg/watchman/watch.go: the loop of Subscribe over what the socket receives. The consumer of
-- the sequence takes as much of it as it wants.
use aspect_gazelle.Base.{
  Bool, true, false, Option, none, some, List, [], ◌∷◌, ◌==◌, ◌&&◌, not, list_eq, nat_eq, option_eq,
  Str, length, take, drop, ltb, ◌-◌, if◌then◌else◌,
}
use aspect_gazelle.Base.Assoc.{Assoc, lookup, insert}
use aspect_gazelle.Base.Exec.{Result, ok, err}
use aspect_gazelle.GoPath.{join}
use aspect_gazelle.Watchman.{ChangeSet}

-- `sha1_hex` is the JSON of content.sha1hex, as it is received.
pub record SubscribeFileEntry : Type 0 where
  pub name : Str
  pub sha1_hex : Str

pub record SubscribeResponse : Type 0 where
  pub error : Str
  pub clock : Str
  pub root : Str
  pub files : Option (List SubscribeFileEntry)
  pub is_fresh_instance : Bool
  pub unsubscribe : Option Bool
  pub canceled : Option Bool
  pub state_enter : Option Str
  pub state_leave : Option Str

abbrev pub starts_quoted : Str → Bool
starts_quoted [] = false
starts_quoted (c ∷ s) = c == b'"'

-- A known hash, or else the clock in its place.
unfoldable pub hash_of : Str → Str → Str
hash_of clock_spec sha1_hex =
    if ltb 2 (length sha1_hex) && starts_quoted sha1_hex
    then drop 1 (take (length sha1_hex - 1) sha1_hex)
    else clock_spec

unfoldable pub add_hashes : Str → List SubscribeFileEntry → Assoc Str Str → Assoc Str Str
unfolding hash_of insert
add_hashes clock_spec [] hashes = hashes
add_hashes clock_spec (f ∷ files) hashes =
    add_hashes clock_spec files (insert f.name (hash_of clock_spec f.sha1_hex) hashes)

unfoldable pub diff_hashes : Str → List SubscribeFileEntry → Assoc Str Str
unfolding add_hashes
diff_hashes clock_spec files = add_hashes clock_spec files []

abbrev pub names_of : List SubscribeFileEntry → List Str
names_of [] = []
names_of (f ∷ files) = f.name ∷ names_of files

-- Every key of the one has the same value in the other.
unfoldable pub agrees_on_keys : Assoc Str Str → Assoc Str Str → Assoc Str Str → Bool
unfolding lookup
agrees_on_keys a b [] = true
agrees_on_keys a b ((k, v) ∷ keys) = lookup k a == lookup k b && agrees_on_keys a b keys

-- maps.Equal
unfoldable pub maps_equal : Assoc Str Str → Assoc Str Str → Bool
unfolding agrees_on_keys
maps_equal a b = agrees_on_keys a b a && agrees_on_keys a b b

module _ (E : Type 0) where
  pub data SubscribeError : Type 0 where
    not_received : E → SubscribeError
    watchman_error : Str → SubscribeError

  -- What the loop does with what it receives: it ends, with an error or without, or goes on, with
  -- prevDiffHashes and maybe a change.
  pub data Reaction : Type 0 where
    failed : SubscribeError → Reaction
    ended : Reaction
    skipped : Reaction
    changed : ChangeSet → Assoc Str Str → Reaction

abbrev pub present : {A : Type 0} → Option A → Bool
present none = false
present (some a) = true

abbrev pub change_of : Str → SubscribeResponse → List Str → ChangeSet
change_of watched_rel_path response paths = record {
  paths = paths;
  root = join response.root watched_rel_path;
  clock_spec = response.clock;
  is_fresh_instance = response.is_fresh_instance;
}

module _ {E : Type 0} (watched_rel_path : Str) where
  abbrev pub on_files :
      SubscribeResponse → Option (List SubscribeFileEntry) → Assoc Str Str → Reaction E
  on_files response none prev = changed (change_of watched_rel_path response []) prev
  on_files response (some files) prev =
      let hashes = diff_hashes response.clock files in
      if maps_equal hashes prev
      then skipped
      else changed (change_of watched_rel_path response (names_of files)) hashes

  unfoldable pub on_response : SubscribeResponse → Assoc Str Str → Reaction E
  unfolding diff_hashes maps_equal join
  on_response response prev =
      if not (response.error == [])
      then failed (watchman_error response.error)
      else if present response.unsubscribe
      then ended
      else if present response.canceled
      then ended
      else if present response.state_enter
      then skipped
      else if present response.state_leave
      then skipped
      else on_files response response.files prev

  abbrev pub on_received : Result E SubscribeResponse → Assoc Str Str → Reaction E
  on_received (err e) prev = failed (not_received e)
  on_received (ok response) prev = on_response response prev

  abbrev pub yielded :
      Reaction E
      → Assoc Str Str
      → (Assoc Str Str → List (Result (SubscribeError E) ChangeSet))
      → List (Result (SubscribeError E) ChangeSet)
  yielded (failed e) prev next = err e ∷ []
  yielded ended prev next = []
  yielded skipped prev next = next prev
  yielded (changed cs hashes) prev next = ok cs ∷ next hashes

  -- The loop, from an empty prevDiffHashes: it ends where no more is received in the model.
  unfoldable pub subscribe_loop :
      List (Result E SubscribeResponse) → Assoc Str Str → List (Result (SubscribeError E) ChangeSet)
  unfolding on_response
  subscribe_loop [] prev = []
  subscribe_loop (r ∷ received) prev = yielded (on_received r prev) prev (subscribe_loop received)
