-- ===== src/Cache/Fresh.antt =====
-- FileComputeCache of common/cache/filecompute.go against the files that its values come from.
use aspect_gazelle.Base.{
  String, ◌≡◌, refl, sym, ◌∙◌, false, some, List, ◌==◌, string_eq, Bool-cases, Option-cases, inl,
  inr, any,
}
use text.Mathlib.TextEquality.{eq_iff}
use aspect_gazelle.Base.Exec.{Result, ok, bind_result, Result-cases}
use aspect_gazelle.Base.Assoc.{insert}
use aspect_gazelle.Cache.{Entries, load, row_of, invalidate, load_or_store, load_or_store_file}
use aspect_gazelle.Cache.Lookup.{load-store, load-row_of, load-invalidate}
use aspect_gazelle.Cache.Transparent.{value}

module _ {E V Content : Type 0} (loader : String → String → Content → Result E V) where
  -- Every stored value is what the loader of its key computes from the file as it is.
  abbrev pub IsFresh : (String → Result E Content) → Entries V → Type 0
  IsFresh read_file entries =
      (p key : String) (v : V)
      → load p key entries ≡ some v
      → (content : Content) × (read_file p ≡ ok content) × (loader key p content ≡ ok v)

  store-IsFresh :
      (read_file : String → Result E Content) (p key : String) (v : V) (content : Content)
      (entries : Entries V)
      → IsFresh read_file entries
      → read_file p ≡ ok content
      → loader key p content ≡ ok v
      → IsFresh read_file (insert p (insert key v (row_of p entries)) entries)
  store-IsFresh read_file p key v content entries fresh read computed q k w h =
      elim (Bool-cases (p == q)) [
        | inr n ↦ fresh q k w (rw (load-store, n) at h)
        | inl same ↦ elim (Bool-cases (key == k)) [
          | inr n ↦ fresh q k w (rw (load-store, same, n) at h)
          | inl k_same ↦
              let at_k : key ≡ k = (eq_iff key k).0 k_same in
              let stored : some v ≡ some w = rw (load-store, same, k_same) at h in
              (
                content,
                rw (← (eq_iff p q).0 same) read,
                rw (← (eq_iff p q).0 same, ← at_k) (computed ∙ cc),
              )
        ]
      ]

  -- Over fresh entries LoadOrStoreFile returns what reading the file and calling the loader
  -- returns, errors included, and leaves the entries fresh.
  pub load_or_store_file-IsFresh :
      (read_file : String → Result E Content) (p key : String) (entries : Entries V)
      → IsFresh read_file entries
      → let out = load_or_store_file (loader key) read_file p key entries in
        (value out.0 ≡ bind_result (read_file p) (loader key p)) × IsFresh read_file out.1
  unfolding load_or_store_file load_or_store
  load_or_store_file-IsFresh read_file p key entries fresh =
      elim (Option-cases (load p key entries)) [
        | inr (v, found) ↦
            let (content, read, computed) = fresh p key v found in
            rw (load_or_store_file, found, read) (sym computed, fresh)
        | inl missing ↦ elim (Result-cases (read_file p)) [
          | inr (e, failed) ↦ rw (load_or_store_file, missing, failed) (refl, fresh)
          | inl (content, read) ↦ elim (Result-cases (loader key p content)) [
            | inl (v, computed) ↦
                rw (load_or_store_file, missing, read, load_or_store, missing, computed)
                  (refl, store-IsFresh read_file p key v content entries fresh read computed)
            | inr (e, failed) ↦
                rw (load_or_store_file, missing, read, load_or_store, missing, failed)
                  (refl, λ q k w h. fresh q k w (rw load-row_of at h))
          ]
        ]
      ]

  -- Where files change, Invalidate with the paths of all that did makes the entries fresh again.
  pub invalidate-IsFresh :
      (before after : String → Result E Content) (paths : List String) (entries : Entries V)
      → ((q : String) → any (λ p. p == q) paths ≡ false → before q ≡ after q)
      → IsFresh before entries
      → IsFresh after (invalidate paths entries)
  invalidate-IsFresh before after paths entries same fresh q key v h =
      elim (Bool-cases (any (λ p. p == q) paths)) [
        | inl gone ↦ cc (rw (load-invalidate, gone) at h)
        | inr stays ↦
            let (content, read, computed) = fresh q key v (rw (load-invalidate, stays) at h) in
            (content, sym (same q stays) ∙ read, computed)
      ]
