-- ===== src/Cache.antt =====
-- common/cache: values computed from files, kept by path and key, in memory and on disk.
pub mod Lookup
pub mod Disk
pub mod Transparent
pub mod Watch
pub mod Fresh
pub mod Session
mod Witnesses
use aspect_gazelle.Base.{
  String, Bool, true, false, Option, none, some, List, [], ◌∷◌, ◌==◌, string_eq, if◌then◌else◌,
}
use aspect_gazelle.Base.Exec.{Result, ok, err}
use aspect_gazelle.Base.Assoc.{Assoc, lookup, insert, remove}

-- map[string]map[string]any
abbrev pub Entries : Type 0 → Type 0
Entries V = Assoc String (Assoc String V)

-- The value under a path and a key.
unfoldable pub load : {V : Type 0} → String → String → Entries V → Option V
load p key entries = elim (lookup p entries) [ none ↦ none | some row ↦ lookup key row ]

module _ {V : Type 0} where
  -- FileComputeCache.Invalidate
  unfoldable pub invalidate : List String → Entries V → Entries V
  invalidate [] entries = entries
  invalidate (p ∷ ps) entries = invalidate ps (remove p entries)

  -- FileComputeCache.InvalidateAll
  unfoldable pub invalidate_all : Entries V → Entries V
  invalidate_all entries = []

  -- LoadEntries, over the map that it is given.
  unfoldable pub load_entries : Entries V → Entries V → Entries V
  load_entries [] entries = entries
  load_entries ((p, row) ∷ m) entries = load_entries m (insert p row entries)

  -- entries.LoadOrStore(p, {}): the entry of the path, and the map that has it.
  unfoldable pub row_of : String → Entries V → Assoc String V
  row_of p entries = elim (lookup p entries) [ none ↦ [] | some row ↦ row ]

-- What a call returns: the value, and whether it was cached.
abbrev pub Loaded : Type 0 → Type 0 → Type 0
Loaded E V = Result E (V × Bool)

module _ {E V Content : Type 0} (loader : String → Content → Result E V) where
  abbrev pub keep : String → String → Entries V → Result E V → Loaded E V × Entries V
  keep p key entries (ok v) = (ok (v, false), insert p (insert key v (row_of p entries)) entries)
  keep p key entries (err e) = (err e, insert p (row_of p entries) entries)

  -- FileComputeCache.loadOrStore. A failed loader leaves the entry of the path, without the key.
  unfoldable pub load_or_store : String → String → Content → Entries V → Loaded E V × Entries V
  load_or_store p key content entries = elim (load p key entries) [
    | some v ↦ (ok (v, true), insert p (row_of p entries) entries)
    | none ↦ keep p key entries (loader p content)
  ]

  abbrev pub read_then_store :
      String → String → Entries V → Result E Content → Loaded E V × Entries V
  read_then_store p key entries (err e) = (err e, entries)
  read_then_store p key entries (ok content) = load_or_store p key content entries

  -- FileComputeCache.LoadOrStoreFile; `read_file` is what the file system has below the root.
  unfoldable pub load_or_store_file :
      (String → Result E Content) → String → String → Entries V → Loaded E V × Entries V
  load_or_store_file read_file p key entries = elim (load p key entries) [
    | some v ↦ (ok (v, true), entries)
    | none ↦ read_then_store p key entries (read_file p)
  ]
