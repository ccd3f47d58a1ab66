-- ===== src/Cache/Session.antt =====
-- A session of the watch cache: requests, and changes of files that are reported by Invalidate.
use aspect_gazelle.Base.{
  String, ◌≡◌, refl, sym, ◌∙◌, Bool, false, some, List, [], ◌==◌, Eq, string_eq, Bool-cases,
  Option-cases, inl, inr, any, ◌⊎◌,
}
use text.Mathlib.TextEquality.{eq_iff}
use text.Mathlib.TextPositions.{eq_refl as text_refl}
use aspect_gazelle.Base.Exec.{Result, ok, err, bind_result, Result-cases, Done}
use aspect_gazelle.Base.Exec.Triple.{ok-injective}
use aspect_gazelle.Base.Assoc.{lookup, insert, lookup-insert}
use aspect_gazelle.Cache.{Loaded, load, invalidate_all}
use aspect_gazelle.Cache.Disk.{DiskCache, disk_load_or_store_file, refresh}
use aspect_gazelle.Cache.Watch.{
  WatchCache, watch_invalidate, watch_invalidate_all, watch_load_or_store_file, verified_hit,
  mark_verified,
}
use aspect_gazelle.Cache.Lookup.{lookup-remove_all, load-invalidate, lookup_nil, load_nil}
use aspect_gazelle.Cache.Transparent.{IsCoherent, value, disk_load_or_store_file-transparent}

module _ {E V Content H : Type 0} ⦃e : Eq H⦄ (hash : Content → H)
    (loader : String → String → Content → Result E V) where
  -- The stored hash of a verified path is that of the file.
  abbrev pub IsVerified : (String → Result E Content) → WatchCache V H → Type 0
  IsVerified read_file c =
      (p : String) (u : Done)
      → lookup p c.verified ≡ some u
      → (content : Content) × (read_file p ≡ ok content)
        × (lookup p c.disk.content_hashes ≡ some (hash content))

  abbrev pub IsCurrent : (String → Result E Content) → WatchCache V H → Type 0
  IsCurrent read_file c = IsCoherent hash loader c.disk × IsVerified read_file c

  invalidate-IsCurrent :
      (before after : String → Result E Content) (paths : List String) (c : WatchCache V H)
      → ((q : String) → any (λ p. p == q) paths ≡ false → before q ≡ after q)
      → IsCurrent before c
      → IsCurrent after (watch_invalidate paths c)
  unfolding watch_invalidate
  invalidate-IsCurrent before after paths c same (coherent, checked) = (
    λ q key v h. elim (Bool-cases (any (λ p. p == q) paths)) [
      | inl gone ↦ cc (rw (load-invalidate, gone) at h)
      | inr stays ↦
          let (content, stored, computed) = coherent q key v (rw (load-invalidate, stays) at h) in
          (content, rw (lookup-remove_all, stays) stored, computed)
    ],
    λ q u h. elim (Bool-cases (any (λ p. p == q) paths)) [
      | inl gone ↦ cc (rw (lookup-remove_all, gone) at h)
      | inr stays ↦
          let (content, read, stored) = checked q u (rw (lookup-remove_all, stays) at h) in
          (content, sym (same q stays) ∙ read, rw (lookup-remove_all, stays) stored)
    ],
  )

  hit-verified :
      (p key : String) (v : V) (c : WatchCache V H)
      → verified_hit p key c ≡ some v
      → ((u : Done) × (lookup p c.verified ≡ some u)) × (load p key c.disk.entries ≡ some v)
  unfolding verified_hit
  hit-verified p key v c h = elim (Option-cases (lookup p c.verified)) [
    | inl missing ↦ cc (rw (verified_hit, missing) at h)
    | inr (u, found) ↦ ((u, found), rw (verified_hit, found) at h)
  ]

  hashes-after :
      (read_file : String → Result E Content) (p key : String) (c : DiskCache V H)
      (content : Content)
      → read_file p ≡ ok content
      → (disk_load_or_store_file hash read_file (loader key) p key c).1.content_hashes
        ≡ insert p (hash content) c.content_hashes
  unfolding disk_load_or_store_file refresh
  hashes-after read_file p key c content read = rw (disk_load_or_store_file, read)

  hash-read :
      (read_file : String → Result E Content) (p key : String) (c : DiskCache V H)
      (content : Content)
      → read_file p ≡ ok content
      → lookup p (disk_load_or_store_file hash read_file (loader key) p key c).1.content_hashes
        ≡ some (hash content)
  hash-read read_file p key c content read =
      rw (hashes-after read_file p key c content read, lookup-insert, text_refl p)

  hash-kept :
      (read_file : String → Result E Content) (p q key : String) (c : DiskCache V H)
      (content a : Content)
      → read_file p ≡ ok content
      → read_file q ≡ ok a
      → lookup q c.content_hashes ≡ some (hash a)
      → lookup q (disk_load_or_store_file hash read_file (loader key) p key c).1.content_hashes
        ≡ some (hash a)
  hash-kept read_file p q key c content a read_p read_q stored =
      rw (hashes-after read_file p key c content read_p, lookup-insert)
        (elim (Bool-cases (p == q)) [
          | inl same ↦
              let at_q : p ≡ q = (eq_iff p q).0 same in
              let same_content : content ≡ a = ok-injective (sym read_p ∙ rw at_q read_q) in
              rw same (rw same_content refl)
          | inr other ↦ rw other stored
        ])

  mark-disk :
      (p : String) (c : WatchCache V H) (x : Loaded E V × DiskCache V H)
      → (mark_verified p c x).1.disk ≡ x.1
  mark-disk p c (ok out, d) = refl
  mark-disk p c (err e, d) = refl

  mark-value :
      (p : String) (c : WatchCache V H) (x : Loaded E V × DiskCache V H)
      → (mark_verified p c x).0 ≡ x.0
  mark-value p c (ok out, d) = refl
  mark-value p c (err e, d) = refl

  mark-marked :
      (p q : String) (c : WatchCache V H) (x : Loaded E V × DiskCache V H) (u : Done)
      → lookup q (mark_verified p c x).1.verified ≡ some u
      → (lookup q c.verified ≡ some u) ⊎ ((p ≡ q) × (out : V × Bool) × (x.0 ≡ ok out))
  mark-marked p q c (err e, d) u h = inl h
  mark-marked p q c (ok out, d) u h = elim (Bool-cases (p == q)) [
    | inl same ↦ inr ((eq_iff p q).0 same, out, refl)
    | inr other ↦ inl (rw (lookup-insert, other) at h)
  ]

  unread :
      (read_file : String → Result E Content) (p key : String) (c : DiskCache V H) (failure : E)
      → read_file p ≡ err failure
      → disk_load_or_store_file hash read_file (loader key) p key c ≡ (err failure, c)
  unfolding disk_load_or_store_file
  unread read_file p key c failure failed = rw (disk_load_or_store_file, failed)

  -- Which contents are known of a path after a miss: those that were, and what was read.
  miss-IsVerified :
      (read_file : String → Result E Content) (p key : String) (c : WatchCache V H)
      → IsVerified read_file c
      → IsVerified read_file
          (mark_verified p c (disk_load_or_store_file hash read_file (loader key) p key c.disk)).1
  miss-IsVerified read_file p key c checked q u h =
      let x = disk_load_or_store_file hash read_file (loader key) p key c.disk in
      elim (Result-cases (read_file p)) [
        | inr (failure, failed) ↦
            rw (unread read_file p key c.disk failure failed)
              (checked q u (rw (unread read_file p key c.disk failure failed) at h))
        | inl (content, read) ↦ rw (mark-disk p c x) (elim (mark-marked p q c x u h) [
          | inr (at_q, out, returned) ↦
              rw (← at_q) (content, read, hash-read read_file p key c.disk content read)
          | inl before ↦
              let (a, read_q, stored) = checked q u before in
              (a, read_q, hash-kept read_file p q key c.disk content a read read_q stored)
        ])
      ]

  -- Over a current cache and with no two contents of one hash, LoadOrStoreFile of the watch cache
  -- returns what reading the file now and calling the loader returns, and leaves the cache current.
  pub watch_load_or_store_file-IsCurrent :
      (read_file : String → Result E Content) (p key : String) (c : WatchCache V H)
      → ((a b : Content) → hash a ≡ hash b → a ≡ b)
      → IsCurrent read_file c
      → let out = watch_load_or_store_file hash read_file (loader key) p key c in
        (value out.0 ≡ bind_result (read_file p) (loader key p)) × IsCurrent read_file out.1
  unfolding watch_load_or_store_file
  watch_load_or_store_file-IsCurrent read_file p key c injective (coherent, checked) =
      elim (Option-cases (verified_hit p key c)) [
        | inr (v, hit) ↦
            let ((u, marked), found) = hit-verified p key v c hit in
            let (content, read, stored) = checked p u marked in
            let (old, stored_old, computed) = coherent p key v found in
            let same : old ≡ content = injective old content cc in
            let now : loader key p content ≡ ok v = rw (← same) computed in
            rw (watch_load_or_store_file, hit, read) (sym now, (coherent, checked))
        | inl miss ↦
            let x = disk_load_or_store_file hash read_file (loader key) p key c.disk in
            let (returned, left) =
              disk_load_or_store_file-transparent hash loader read_file p key c.disk injective
                coherent in
            rw (watch_load_or_store_file, miss, mark-value p c x)
              (returned, (rw (mark-disk p c x) left, miss-IsVerified read_file p key c checked))
      ]

module _ {E V Content H : Type 0} ⦃e : Eq H⦄ (hash : Content → H)
    (loader : String → String → Content → Result E V) where
  -- A session: the files and the cache after requests, and after changes of files, of which either
  -- the paths are reported to Invalidate or nothing is known and InvalidateAll is called.
  pub data Session : (String → Result E Content) → WatchCache V H → Type 0 where
    started :
        {files : String → Result E Content} {d : DiskCache V H}
        → IsCoherent hash loader d
        → Session files (record { disk = d; verified = [] })
    requested :
        {files : String → Result E Content} {c : WatchCache V H} (p key : String)
        → Session files c
        → Session files (watch_load_or_store_file hash files (loader key) p key c).1
    reported :
        {files changed : String → Result E Content} {c : WatchCache V H} (paths : List String)
        → ((q : String) → any (λ p. p == q) paths ≡ false → files q ≡ changed q)
        → Session files c
        → Session changed (watch_invalidate paths c)
    lost :
        {files changed : String → Result E Content} {c : WatchCache V H}
        → Session files c
        → Session changed (watch_invalidate_all c)

  pub session-IsCurrent :
      {files : String → Result E Content} {c : WatchCache V H}
      → ((a b : Content) → hash a ≡ hash b → a ≡ b)
      → Session files c
      → IsCurrent hash loader files c
  unfolding watch_invalidate_all invalidate_all
  session-IsCurrent injective (Session.started coherent) = (coherent, λ p u h. cc (lookup_nil p, h))
  session-IsCurrent injective (Session.requested p key s) =
      (watch_load_or_store_file-IsCurrent hash loader _ p key _ injective
        (session-IsCurrent injective s)).1
  session-IsCurrent injective (Session.reported paths same s) =
      invalidate-IsCurrent hash loader _ _ paths _ same (session-IsCurrent injective s)
  session-IsCurrent injective (Session.lost s) =
      (λ p key v h. cc (load_nil p key, h), λ p u h. cc (lookup_nil p, h))

  -- At any point of a session that starts from a coherent cache, with no two contents of one hash, LoadOrStoreFile of the watch cache
  -- returns what reading the file at that point and calling the loader of the key returns.
  pub session-fresh :
      (files : String → Result E Content) (c : WatchCache V H) (p key : String)
      → ((a b : Content) → hash a ≡ hash b → a ≡ b)
      → Session files c
      → value (watch_load_or_store_file hash files (loader key) p key c).0
        ≡ bind_result (files p) (loader key p)
  session-fresh files c p key injective s =
      (watch_load_or_store_file-IsCurrent hash loader files p key c injective
        (session-IsCurrent injective s)).0
