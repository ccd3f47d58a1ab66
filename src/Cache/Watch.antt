-- ===== src/Cache/Watch.antt =====
-- common/cache/watch.go: hits of a path whose hash was checked in the session read no file.
use aspect_gazelle.Base.{String, true, Option, none, some, List, [], ◌∷◌, Eq, string_eq}
use aspect_gazelle.Base.Exec.{Result, ok, err, Done}
use aspect_gazelle.Base.Assoc.{Assoc, lookup, insert, remove}
use aspect_gazelle.Cache.{Loaded, load, invalidate, invalidate_all}
use aspect_gazelle.Cache.Disk.{DiskCache, disk_load_or_store_file}

-- `verified` is a map to `struct{}`.
module _ (V H : Type 0) where
  pub record WatchCache : Type 0 where
    pub disk : DiskCache V H
    pub verified : Assoc String Done

unfoldable pub remove_all : {V : Type 0} → List String → Assoc String V → Assoc String V
remove_all [] m = m
remove_all (p ∷ ps) m = remove_all ps (remove p m)

module _ {V H : Type 0} where
  -- WatchCache.Invalidate
  unfoldable pub watch_invalidate : List String → WatchCache V H → WatchCache V H
  watch_invalidate paths c = record {
    disk = record {
      entries = invalidate paths c.disk.entries;
      content_hashes = remove_all paths c.disk.content_hashes;
    };
    verified = remove_all paths c.verified;
  }

  -- WatchCache.InvalidateAll
  unfoldable pub watch_invalidate_all : WatchCache V H → WatchCache V H
  watch_invalidate_all c = record {
    disk = record { entries = invalidate_all c.disk.entries; content_hashes = [] };
    verified = [];
  }

  -- The value that is returned with no file I/O.
  unfoldable pub verified_hit : String → String → WatchCache V H → Option V
  verified_hit p key c = elim (lookup p c.verified) [
    | none ↦ none
    | some u ↦ load p key c.disk.entries
  ]

  abbrev pub mark_verified :
      {E : Type 0}
      → String
      → WatchCache V H
      → Loaded E V × DiskCache V H
      → Loaded E V × WatchCache V H
  mark_verified p c (ok out, d) = (ok out, record { disk = d; verified = insert p tt c.verified })
  mark_verified p c (err e, d) = (err e, record { disk = d; verified = c.verified })

  -- WatchCache.LoadOrStoreFile
  unfoldable pub watch_load_or_store_file :
      {E Content : Type 0} ⦃e : Eq H⦄
      → (Content → H)
      → (String → Result E Content)
      → (String → Content → Result E V)
      → String
      → String
      → WatchCache V H
      → Loaded E V × WatchCache V H
  watch_load_or_store_file hash read_file loader p key c = elim (verified_hit p key c) [
    | some v ↦ (ok (v, true), c)
    | none ↦ mark_verified p c (disk_load_or_store_file hash read_file loader p key c.disk)
  ]
