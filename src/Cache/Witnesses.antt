-- ===== src/Cache/Witnesses.antt =====
-- The theorems on the caches at a cache of strings: the hash of a content is the content.
use aspect_gazelle.Base.{String, ◌≡◌, false, [], ◌∷◌, ◌==◌, string_eq, ◌||◌, arith, if◌then◌else◌}
use aspect_gazelle.Base.Exec.{Result, ok, err}
use aspect_gazelle.Cache.{Entries, load_or_store_file}
use aspect_gazelle.Cache.Fresh.{IsFresh, load_or_store_file-IsFresh}
use aspect_gazelle.Cache.Disk.{DiskCache, disk_load_or_store_file}
use aspect_gazelle.Cache.Watch.{WatchCache, watch_load_or_store_file, watch_invalidate}
use aspect_gazelle.Cache.Lookup.{load_nil}
use aspect_gazelle.Cache.Transparent.{value, IsCoherent, disk_load_or_store_file-transparent}
use aspect_gazelle.Cache.Session.{Session, session-fresh}

abbrev identity : String → String
identity content = content

abbrev files : String → Result String String
files p = if "a.ts" == p then ok "first" else err "missing"

abbrev changed_files : String → Result String String
changed_files p = if "a.ts" == p then ok "second" else err "missing"

-- A loader that computes from the key and the content.
abbrev loader : String → String → String → Result String String
loader key p content = if key == "bad" then err p else ok content

abbrev empty_cache : DiskCache String String
empty_cache = record { entries = []; content_hashes = [] }

empty_cache-IsCoherent : IsCoherent identity loader empty_cache
empty_cache-IsCoherent p key v h = cc (load_nil p key, h)

abbrev first_request : WatchCache String String
first_request =
    (watch_load_or_store_file identity files (loader "imports") "a.ts" "imports"
      (record { disk = empty_cache; verified = [] })).1

-- A request, then a change of the file that is reported.
a_session : Session identity loader changed_files (watch_invalidate ("a.ts" ∷ []) first_request)
a_session =
    Session.reported ("a.ts" ∷ []) unchanged
      (Session.requested "a.ts" "imports" (Session.started empty_cache-IsCoherent))
  where
    unchanged : (q : String) → ("a.ts" == q || false) ≡ false → files q ≡ changed_files q
    unchanged q n = ground arith

session-fresh_example :
    value
      (watch_load_or_store_file identity changed_files
        (loader "imports")
        "a.ts"
        "imports"
        (watch_invalidate ("a.ts" ∷ []) first_request)).0
    ≡ ok "second"
session-fresh_example =
    session-fresh identity loader changed_files (watch_invalidate ("a.ts" ∷ []) first_request)
      "a.ts" "imports" (λ a b same. same) a_session

disk_load_or_store_file-transparent_example :
    let out =
      disk_load_or_store_file identity files (loader "imports") "a.ts" "imports" empty_cache in
    (value out.0 ≡ ok "first") × IsCoherent identity loader out.1
disk_load_or_store_file-transparent_example =
    disk_load_or_store_file-transparent identity loader files "a.ts" "imports" empty_cache
      (λ a b same. same) empty_cache-IsCoherent

no_entries-IsFresh : IsFresh loader files []
no_entries-IsFresh p key v h = cc (load_nil p key, h)

abbrev loaded_entries : Entries String
loaded_entries = (load_or_store_file (loader "imports") files "a.ts" "imports" []).1

load_or_store_file-IsFresh_example :
    (value (load_or_store_file (loader "imports") files "a.ts" "imports" []).0 ≡ ok "first")
    × IsFresh loader files loaded_entries
load_or_store_file-IsFresh_example =
    load_or_store_file-IsFresh loader files "a.ts" "imports" [] no_entries-IsFresh
