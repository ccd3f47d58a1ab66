-- ===== src/Cache/Disk.antt =====
-- common/cache/disk.go: entries that are dropped where the hash of the file has changed.
use aspect_gazelle.Base.{
  String, Bool, false, Option, none, some, [], ◌∷◌, ◌==◌, Eq, string_eq, not, if◌then◌else◌,
}
use aspect_gazelle.Base.Exec.{Result, ok, err}
use aspect_gazelle.Base.Assoc.{Assoc, lookup, insert}
use aspect_gazelle.Cache.{Entries, Loaded, invalidate, load_or_store}

module _ (V H : Type 0) where
  pub record DiskCache : Type 0 where
    pub entries : Entries V
    pub content_hashes : Assoc String H

-- `hash` is computeCacheKey, by crypto.MD5.
abbrev pub differs : {H : Type 0} ⦃e : Eq H⦄ → Option H → H → Bool
differs none h = false
differs (some existing) h = not (existing == h)

-- The entries that are left for a content, and its hash. `hash` is computeCacheKey, by crypto.MD5.
unfoldable pub refresh :
    {V Content H : Type 0} ⦃e : Eq H⦄
    → (Content → H)
    → String
    → Content
    → DiskCache V H
    → DiskCache V H
refresh hash p content c = record {
  entries =
      if differs (lookup p c.content_hashes) (hash content)
      then (invalidate (p ∷ []) c.entries)
      else c.entries;
  content_hashes = insert p (hash content) c.content_hashes;
}

module _ {E V Content H : Type 0} ⦃e : Eq H⦄ (hash : Content → H) where
  abbrev pub with_entries : DiskCache V H → Loaded E V × Entries V → Loaded E V × DiskCache V H
  with_entries c (r, entries) = (r, record c { entries = entries })

  abbrev pub load_content :
      (String → Content → Result E V)
      → String
      → String
      → DiskCache V H
      → Result E Content
      → Loaded E V × DiskCache V H
  load_content loader p key c (err e) = (err e, c)
  load_content loader p key c (ok content) =
      let c' = refresh hash p content c in
      with_entries c' (load_or_store loader p key content c'.entries)

  -- diskCache.LoadOrStoreFile
  unfoldable pub disk_load_or_store_file :
      (String → Result E Content)
      → (String → Content → Result E V)
      → String
      → String
      → DiskCache V H
      → Loaded E V × DiskCache V H
  disk_load_or_store_file read_file loader p key c = load_content loader p key c (read_file p)
