-- ===== src/Watchman/Cache.antt =====
-- runner/pkg/watchman/cache.go: the cache that is brought up to date by watchman when it is read.
use aspect_gazelle.Base.{
  Bool, Option, none, some, List, [], ◌∷◌, ◌++◌, ◌==◌, ◌||◌, list_eq, nat_eq, Str, codes, slash,
  has_prefix, if◌then◌else◌,
}
use aspect_gazelle.Base.Assoc.{Assoc, lookup, insert, remove}
use aspect_gazelle.Base.Exec.{Result, ok, err}
use aspect_gazelle.GoPath.{dir}
use aspect_gazelle.Watchman.{ChangeSet}

-- Is a directory of the walk cache stale? `stale` is one whose contents have changed.
unfoldable pub is_stale : Str → Str → Bool
unfolding has_prefix
is_stale stale d =
    stale == codes "." || stale == [] || stale == d || has_prefix d (stale ++ slash ∷ [])

-- invalidateWalkCache
unfoldable pub invalidate_walk_cache : {W : Type 0} → Str → Assoc Str W → Assoc Str W
unfolding is_stale
invalidate_walk_cache stale [] = []
invalidate_walk_cache stale ((d, w) ∷ m) =
    let rest = invalidate_walk_cache stale m in if is_stale stale d then rest else (d, w) ∷ rest

module _ (V W : Type 0) where
  pub record CacheState : Type 0 where
    pub clock_spec : Str
    pub entries : Assoc Str (Assoc Str V)

  -- The file of the cache: not there, of another version or not decoded, or decoded.
  pub data CacheFile : Type 0 where
    unopened unreadable : CacheFile
    decoded : CacheState → CacheFile

  pub record WatchmanCache : Type 0 where
    pub entries : Assoc Str (Assoc Str V)
    pub symlinks : Assoc Str Str
    pub last_clock_spec : Str
    pub walk_cache : Option (Assoc Str W)

-- The loop over the changed paths, on the entries and on previousWalkCache.
unfoldable pub remove_changed :
    {V : Type 0} → List Str → Assoc Str (Assoc Str V) → Assoc Str (Assoc Str V)
unfolding remove
remove_changed [] entries = entries
remove_changed (p ∷ paths) entries = remove_changed paths (remove p entries)

unfoldable pub invalidate_parents : {W : Type 0} → List Str → Assoc Str W → Assoc Str W
unfolding invalidate_walk_cache dir
invalidate_parents [] m = m
invalidate_parents (p ∷ paths) m = invalidate_parents paths (invalidate_walk_cache (dir p) m)

abbrev pub invalidate_previous :
    {W : Type 0} → List Str → Option (Assoc Str W) → Option (Assoc Str W)
invalidate_previous paths none = none
invalidate_previous paths (some m) = some (invalidate_parents paths m)

abbrev pub store_unless_known : Str → Option Str → Assoc Str Str → Assoc Str Str
store_unless_known k (some real) symlinks = symlinks
store_unless_known k none symlinks = insert k k symlinks

-- The paths of the entries are no links.
unfoldable pub mark_no_links :
    {V : Type 0} → Assoc Str (Assoc Str V) → Assoc Str Str → Assoc Str Str
unfolding lookup insert
mark_no_links [] symlinks = symlinks
mark_no_links ((k, row) ∷ entries) symlinks =
    mark_no_links entries (store_unless_known k (lookup k symlinks) symlinks)

module _ {V W : Type 0} where
  abbrev pub with_changes :
      CacheState V W → ChangeSet → Option (Assoc Str W) → WatchmanCache V W → WatchmanCache V W
  with_changes v cs previous c =
      if cs.is_fresh_instance
      then record c { last_clock_spec = cs.clock_spec }
      else (let entries = remove_changed cs.paths v.entries in
          record {
            entries = entries;
            symlinks = mark_no_links entries c.symlinks;
            last_clock_spec = cs.clock_spec;
            walk_cache = invalidate_previous cs.paths previous;
          })

  abbrev pub with_diff_of :
      {E : Type 0}
      → CacheState V W
      → Result E ChangeSet
      → Option (Assoc Str W)
      → WatchmanCache V W
      → WatchmanCache V W
  with_diff_of v (err e) previous c = c
  with_diff_of v (ok cs) previous c = with_changes v cs previous c

  -- read, of a new cache: the cache, and previousWalkCache. `diff` is GetDiff since a clock.
  unfoldable pub read :
      {E : Type 0}
      → CacheFile V W
      → (Str → Result E ChangeSet)
      → Option (Assoc Str W)
      → WatchmanCache V W
      → WatchmanCache V W × Option (Assoc Str W)
  unfolding remove_changed invalidate_parents mark_no_links
  read unopened diff previous c = (c, previous)
  read unreadable diff previous c = (c, none)
  read (decoded v) diff previous c = (with_diff_of v (diff v.clock_spec) previous c, none)

  -- write: what is persisted.
  abbrev pub write : WatchmanCache V W → CacheState V W
  write c = record { clock_spec = c.last_clock_spec; entries = c.entries }

abbrev pub new_watchman_cache : {V W : Type 0} → WatchmanCache V W
new_watchman_cache = record { entries = []; symlinks = []; last_clock_spec = []; walk_cache = none }

-- What lstat and EvalSymlinks give for a path: no link, or where it leads, if that is known.
pub data FileMode : Type 0 where
  regular : FileMode
  link : Option Str → FileMode

abbrev pub real_path : Str → FileMode → Str
real_path p regular = p
real_path p (link none) = p
real_path p (link (some real)) = real

-- symlinks.LoadOrStore(k, k)
abbrev pub load_or_keep : Str → Option Str → Assoc Str Str → Str × Assoc Str Str
load_or_keep k (some real) symlinks = (real, symlinks)
load_or_keep k none symlinks = (k, insert k k symlinks)

abbrev pub store_real : Str → Str → Assoc Str Str → Str × Assoc Str Str
store_real p real symlinks =
    let stored = insert p real symlinks in
    if p == real then (real, stored) else load_or_keep real (lookup real stored) stored

abbrev pub with_mode : {E : Type 0} → Str × Assoc Str Str → Result E Str × Assoc Str Str
with_mode (real, symlinks) = (ok real, symlinks)

abbrev pub resolve_unknown :
    {E : Type 0} → Str → Result E FileMode → Assoc Str Str → Result E Str × Assoc Str Str
resolve_unknown p (err e) symlinks = (err e, symlinks)
resolve_unknown p (ok mode) symlinks = with_mode (store_real p (real_path p mode) symlinks)

abbrev pub known_or :
    {E : Type 0}
    → Option Str
    → Assoc Str Str
    → Result E Str × Assoc Str Str
    → Result E Str × Assoc Str Str
known_or none symlinks unknown = unknown
known_or (some real) symlinks unknown = (ok real, symlinks)

-- resolveSymlink
unfoldable pub resolve_symlink :
    {E : Type 0} → Str → Result E FileMode → Assoc Str Str → Result E Str × Assoc Str Str
unfolding lookup insert
resolve_symlink p mode symlinks =
    known_or (lookup p symlinks) symlinks (resolve_unknown p mode symlinks)
