-- ===== src/Watchman/Witnesses.antt =====
-- The client and the cache of watchman on a few answers.
use aspect_gazelle.Base.{
  ◌≡◌, refl, Bool, true, false, Option, none, some, List, [], ◌∷◌, ◌++◌, ◌==◌, list_eq, nat_eq, Str,
  codes, any, if◌then◌else◌, arith, list_beq, option_beq,
}
use aspect_gazelle.Base.Assoc.{Assoc, lookup}
use aspect_gazelle.Base.Exec.{Result, ok, err}
use aspect_gazelle.Watchman.{
  ChangeSet, ControlResponse, WatchmanWatcher, Call, new_watchman, start, exchange, get_diff,
}
use aspect_gazelle.Watchman.Clocks.{get_diffs, IsChained, get_diffs-IsChained}
use aspect_gazelle.Watchman.Subscribe.{SubscribeFileEntry, SubscribeResponse, subscribe_loop}
use aspect_gazelle.Watchman.Deduped.{
  hashed, unhashed, Content, Notification, delivery, IsDeduped, received_of,
  subscribe_loop-IsDeduped,
}
use aspect_gazelle.Watchman.Cache.{CacheState, decoded, unopened, read, write, new_watchman_cache}
use aspect_gazelle.Watchman.Kept.{write-unread}

abbrev answer : Str → ControlResponse
answer clock = record {
  error = [];
  watch = [];
  relative_path = [];
  clock = clock;
  files = none;
  is_fresh_instance = false;
  watch_del = none;
  state_enter = none;
  state_leave = none;
}

abbrev watcher : WatchmanWatcher
watcher = record (new_watchman (codes "/w")) { connected = true; last_clock_spec = codes "c:1" }

abbrev answered : Str → Str → Call Str
answered clock since = record { sending = none; receiving = ok (answer clock) }

abbrev lost : Str → Call Str
lost since = record { sending = none; receiving = err (codes "lost") }

-- The clock of the answer tells the clock that was asked for.
abbrev echoed : Str → Str → Call Str
echoed clock since = record { sending = none; receiving = ok (answer (since ++ clock)) }

abbrev calls : List (Str → Call Str)
calls = echoed (codes "2") ∷ lost ∷ echoed (codes "3") ∷ []

get_diffs-IsChained_example :
    IsChained {E = Str} true (codes "/w") (codes "c:1") calls (get_diffs calls watcher)
get_diffs-IsChained_example = get_diffs-IsChained calls watcher

abbrev notification : List SubscribeFileEntry → SubscribeResponse
notification files = record {
  error = [];
  clock = codes "c:4";
  root = codes "/w";
  files = some files;
  is_fresh_instance = true;
  unsubscribe = none;
  canceled = none;
  state_enter = none;
  state_leave = none;
}

abbrev changed_file : SubscribeFileEntry
changed_file = record { name = codes "a.ts"; sha1_hex = codes "\"ab\"" }

abbrev received : List (Result Str SubscribeResponse)
received =
    ok (notification [])
    ∷ ok (notification (changed_file ∷ []))
    ∷ ok (notification (changed_file ∷ []))
    ∷ []

subscribe_test :
    subscribe_loop (codes "app") received []
    ≡ ok (record {
      paths = codes "a.ts" ∷ [];
      root = codes "/w/app";
      clock_spec = codes "c:4";
      is_fresh_instance = true;
    })
      ∷ []
unfolding subscribe_loop list_beq option_beq
subscribe_test = refl

abbrev of_a : Str → Content → Notification
of_a clock content = record {
  clock = clock;
  root = codes "/w";
  is_fresh_instance = false;
  files = (codes "a.ts", content) ∷ [];
}

-- A change, the same one again, a change to something without a hash, and the first one again.
abbrev notifications : List Notification
notifications =
    of_a (codes "c:4") (hashed (codes "ab"))
    ∷ of_a (codes "c:5") (hashed (codes "ab"))
    ∷ of_a (codes "c:6") (unhashed (codes "null"))
    ∷ of_a (codes "c:7") (hashed (codes "ab"))
    ∷ []

subscribe_loop-IsDeduped_example :
    IsDeduped Str
      (codes "app")
      (λ path. none)
      notifications
      (subscribe_loop (codes "app") (received_of notifications) [])
subscribe_loop-IsDeduped_example =
    subscribe_loop-IsDeduped (codes "app") notifications
      ((omega arith, tt), ((omega arith, tt), ((refl, tt), ((omega arith, tt), tt))))

deduped_test :
    subscribe_loop (codes "app") (received_of {E = Str} notifications) []
    ≡ ok (delivery (codes "app") (of_a (codes "c:4") (hashed (codes "ab"))))
      ∷ ok (delivery (codes "app") (of_a (codes "c:6") (unhashed (codes "null"))))
      ∷ ok (delivery (codes "app") (of_a (codes "c:7") (hashed (codes "ab"))))
      ∷ []
unfolding subscribe_loop list_beq option_beq
deduped_test = refl

abbrev cached : CacheState Bool Bool
cached = record {
  clock_spec = codes "c:1";
  entries = (codes "lib/a.ts", []) ∷ (codes "lib/b.ts", []) ∷ [];
}

abbrev changes : ChangeSet
changes = record {
  paths = codes "lib/a.ts" ∷ [];
  root = codes "/w";
  clock_spec = codes "c:2";
  is_fresh_instance = false;
}

abbrev diff : Str → Result Str ChangeSet
diff since = ok changes

abbrev walk : Option (Assoc Str Bool)
walk = some ((codes "lib/sub", true) ∷ (codes "library", true) ∷ [])

-- The next client, for which the clock has gone on, and which is told of one change since then.
abbrev next_watcher : WatchmanWatcher
next_watcher = record {
  workspace_dir = codes "/w";
  connected = true;
  last_clock_spec = codes "c:9";
  watched_root = [];
  watched_rel_path = [];
}

abbrev later : ControlResponse
later = record (answer (codes "c:10")) { files = some (codes "lib/b.ts" ∷ []) }

abbrev since_nine : Str → Call Str
since_nine since =
    if since == codes "c:9" then record { sending = none; receiving = ok later } else lost since

next_watcher-start :
    start none (answered [] []) (answered (codes "c:9") []) (new_watchman (codes "/w"))
    ≡ (ok tt, next_watcher)
unfolding start exchange list_beq
next_watcher-start = refl

since_nine_told : since_nine (codes "c:9") ≡ record { sending = none; receiving = ok later }
unfolding list_beq
since_nine_told = refl

write-unread_example :
    lookup
      (codes "lib/a.ts")
      (read
        (decoded (
          write (record (read {V = Bool} {W = Bool} unopened diff walk new_watchman_cache).0 {
            entries = cached.entries;
          })))
        (λ since. (get_diff since since_nine next_watcher).0)
        none
        new_watchman_cache).0.entries
    ≡ (if any (λ (q : Str). q == codes "lib/a.ts") (codes "lib/b.ts" ∷ [])
        then none
        else lookup (codes "lib/a.ts") cached.entries)
write-unread_example =
    write-unread unopened diff walk none cached.entries (codes "/w") (codes "lib/a.ts")
      (answered [] []) (answered (codes "c:9") []) since_nine next_watcher (answer (codes "c:9"))
      later tt next_watcher-start refl refl since_nine_told refl refl
