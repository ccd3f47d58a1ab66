-- ===== src/Cache/Transparent.antt =====
-- LoadOrStoreFile of common/cache/disk.go against reading the file and calling the loader.
use aspect_gazelle.Base.{
  String, ◌≡◌, refl, ◌∙◌, false, some, ◌==◌, Eq, string_eq, if◌then◌else◌, arith, Bool-cases,
  Option-cases, inl, inr, not,
}
use text.Mathlib.TextEquality.{eq_iff}
use text.Mathlib.TextPositions.{eq_refl as text_refl}
use aspect_gazelle.Base.Exec.{Result, ok, err, bind_result, Result-cases}
use aspect_gazelle.Base.Assoc.{lookup, insert, lookup-insert}
use aspect_gazelle.Cache.{Entries, Loaded, load, row_of, invalidate, load_or_store}
use aspect_gazelle.Cache.Lookup.{load-remove, load-store, load-row_of}
use aspect_gazelle.Cache.Disk.{DiskCache, refresh, disk_load_or_store_file, differs}

-- What a call returns, whether cached or not.
abbrev pub value : {E V : Type 0} → Loaded E V → Result E V
value (ok (v, cached)) = ok v
value (err e) = err e

module _ {E V Content H : Type 0} ⦃e : Eq H⦄ (hash : Content → H)
    (loader : String → String → Content → Result E V) where
  -- Every stored value is what the loader of its key computes from a content with the stored hash.
  abbrev pub IsCoherent : DiskCache V H → Type 0
  IsCoherent c =
      (p key : String) (v : V)
      → load p key c.entries ≡ some v
      → (content : Content) × (lookup p c.content_hashes ≡ some (hash content))
        × (loader key p content ≡ ok v)

  refresh_self :
      (p key : String) (content : Content) (c : DiskCache V H) (v : V)
      → IsCoherent c
      → load p key (refresh hash p content c).entries ≡ some v
      → (old : Content) × (hash content ≡ hash old) × (loader key p old ≡ ok v)
  unfolding refresh invalidate
  refresh_self p key content c v coherent h =
      elim (Bool-cases (differs (lookup p c.content_hashes) (hash content))) [
        | inl d ↦ cc (rw (d, load-remove, text_refl p) at h)
        | inr same ↦
            let (old, stored, computed) = coherent p key v (rw same at h) in
            (old, kept_hash (hash old) (hash content) (rw stored at same), computed)
      ]
    where
      kept_hash : (a b : H) → not (a == b) ≡ false → b ≡ a
      kept_hash a b n = ground (arith, e.beq_iff a b)

  refresh-other :
      (p q key : String) (content : Content) (c : DiskCache V H)
      → (p == q) ≡ false
      → load q key (refresh hash p content c).entries ≡ load q key c.entries
  unfolding refresh invalidate
  refresh-other p q key content c n =
      elim (Bool-cases (differs (lookup p c.content_hashes) (hash content))) [
        | inl d ↦ rw (d, load-remove, n)
        | inr same ↦ rw same
      ]

  hash-refresh :
      (p q : String) (content : Content) (c : DiskCache V H)
      → lookup q (refresh hash p content c).content_hashes
        ≡ (if p == q then some (hash content) else lookup q c.content_hashes)
  unfolding refresh
  hash-refresh p q content c = lookup-insert p q (hash content) c.content_hashes

  hash-refresh_self :
      (p : String) (content : Content) (c : DiskCache V H)
      → lookup p (refresh hash p content c).content_hashes ≡ some (hash content)
  hash-refresh_self p content c = rw (hash-refresh, text_refl p)

  refresh-IsCoherent :
      (p : String) (content : Content) (c : DiskCache V H)
      → IsCoherent c
      → IsCoherent (refresh hash p content c)
  refresh-IsCoherent p content c coherent q key v h = elim (Bool-cases (p == q)) [
    | inl same ↦
        let at_p : p ≡ q = (eq_iff p q).0 same in
        let (old, hashed, computed) = refresh_self p key content c v coherent (rw (← at_p) at h) in
        (old, rw (hash-refresh, same, hashed), rw (← at_p) computed)
    | inr other ↦
        let (old, stored, computed) =
          coherent q key v (rw (refresh-other p q key content c other) at h) in
        (old, rw (hash-refresh, other, stored), computed)
  ]

  store-IsCoherent :
      (p key : String) (v : V) (content : Content) (c : DiskCache V H)
      → IsCoherent c
      → lookup p c.content_hashes ≡ some (hash content)
      → loader key p content ≡ ok v
      → IsCoherent (record c { entries = insert p (insert key v (row_of p c.entries)) c.entries })
  store-IsCoherent p key v content c coherent hashed computed q k w h = elim (Bool-cases (p == q)) [
    | inr n ↦ coherent q k w (rw (load-store, n) at h)
    | inl same ↦ elim (Bool-cases (key == k)) [
      | inr n ↦ coherent q k w (rw (load-store, same, n) at h)
      | inl k_same ↦
          let at_k : key ≡ k = (eq_iff key k).0 k_same in
          let stored : some v ≡ some w = rw (load-store, same, k_same) at h in
          (
            content,
            rw (← (eq_iff p q).0 same) hashed,
            rw (← (eq_iff p q).0 same, ← at_k) (computed ∙ cc),
          )
    ]
  ]

  load_or_store-IsCoherent :
      (p key : String) (content : Content) (c : DiskCache V H)
      → IsCoherent c
      → lookup p c.content_hashes ≡ some (hash content)
      → IsCoherent (record c { entries = (load_or_store (loader key) p key content c.entries).1 })
  unfolding load_or_store
  load_or_store-IsCoherent p key content c coherent hashed =
      elim (Option-cases (load p key c.entries)) [
        | inr (v, found) ↦ λ q k w h. coherent q k w (rw (load_or_store, found, load-row_of) at h)
        | inl missing ↦ elim (Result-cases (loader key p content)) [
          | inl (v, computed) ↦ λ q k w h.
              store-IsCoherent p key v content c coherent hashed computed q k w
                (rw (load_or_store, missing, computed) at h)
          | inr (e, failed) ↦
              λ q k w h. coherent q k w (rw (load_or_store, missing, failed, load-row_of) at h)
        ]
      ]

  load_or_store-value :
      (p key : String) (content : Content) (entries : Entries V)
      → ((v : V) → load p key entries ≡ some v → loader key p content ≡ ok v)
      → value (load_or_store (loader key) p key content entries).0 ≡ loader key p content
  unfolding load_or_store
  load_or_store-value p key content entries right = elim (Option-cases (load p key entries)) [
    | inr (v, found) ↦ rw (load_or_store, found, right v found)
    | inl missing ↦ elim (Result-cases (loader key p content)) [
      | inl (v, computed) ↦ rw (load_or_store, missing, computed)
      | inr (e, failed) ↦ rw (load_or_store, missing, failed)
    ]
  ]

  -- Over a coherent cache and with no two contents of one hash, LoadOrStoreFile returns what
  -- reading the file and calling the loader returns, errors included, and leaves the cache coherent.
  pub disk_load_or_store_file-transparent :
      (read_file : String → Result E Content) (p key : String) (c : DiskCache V H)
      → ((a b : Content) → hash a ≡ hash b → a ≡ b)
      → IsCoherent c
      → let out = disk_load_or_store_file hash read_file (loader key) p key c in
        (value out.0 ≡ bind_result (read_file p) (loader key p)) × IsCoherent out.1
  unfolding disk_load_or_store_file
  disk_load_or_store_file-transparent read_file p key c injective coherent =
      elim (Result-cases (read_file p)) [
        | inr (e, failed) ↦ rw failed (refl, coherent)
        | inl (content, read) ↦
            let refreshed = refresh hash p content c in
            let right : (v : V)
                → load p key refreshed.entries ≡ some v
                → loader key p content ≡ ok v =
              λ v h.
                let (old, same_hash, computed) = refresh_self p key content c v coherent h in
                rw (injective content old same_hash) computed in
            rw read (
              load_or_store-value p key content refreshed.entries right,
              load_or_store-IsCoherent p key content refreshed
                  (refresh-IsCoherent p content c coherent) (hash-refresh_self p content c),
            )
      ]
