-- ===== src/Watchman/Kept.antt =====
-- What the cache of watchman keeps when it is read.
use aspect_gazelle.Base.{
  ◌≡◌, refl, ◌∙◌, ap, sym, true, false, Option, none, some, List, [], ◌∷◌, ◌==◌, list_eq, nat_eq,
  list_beq, list_beq_iff, Str, any, Bool-cases, inl, inr, if◌then◌else◌, arith,
}
use aspect_gazelle.Base.Assoc.{Assoc, lookup, lookup-remove, remove}
use aspect_gazelle.Base.Exec.{Result, ok, err, Done}
use aspect_gazelle.GoPath.{dir}
use aspect_gazelle.Watchman.{
  ChangeSet, WatchmanWatcher, WatchError, ControlResponse, Call, closed, sent, with_diff,
  new_watchman, exchange, with_clock, watch_then_clock, checked, start, get_diff, files_or_none,
  query_clock,
}
use aspect_gazelle.Watchman.Cache.{
  CacheState, CacheFile, unopened, unreadable, decoded, is_stale, invalidate_walk_cache,
  remove_changed, invalidate_parents, invalidate_previous, read, write, new_watchman_cache,
}

lookup-invalidate_walk_cache :
    {W : Type 0} (stale d : Str) (m : Assoc Str W)
    → lookup d (invalidate_walk_cache stale m) ≡ (if is_stale stale d then none else lookup d m)
unfolding invalidate_walk_cache lookup
lookup-invalidate_walk_cache stale d [] = elim (Bool-cases (is_stale stale d)) [
  | inl t ↦ rw t refl
  | inr f ↦ rw f refl
]
lookup-invalidate_walk_cache stale d ((k, w) ∷ m) =
    ground (arith, list_beq_iff k d, lookup-invalidate_walk_cache stale d m)

lookup-invalidate_parents :
    {W : Type 0} (paths : List Str) (d : Str) (m : Assoc Str W)
    → lookup d (invalidate_parents paths m)
      ≡ (if any (λ (p : Str). is_stale (dir p) d) paths then none else lookup d m)
unfolding invalidate_parents
lookup-invalidate_parents [] d m = refl
lookup-invalidate_parents (p ∷ paths) d m =
    lookup-invalidate_parents paths d (invalidate_walk_cache (dir p) m)
    ∙ ground (arith, lookup-invalidate_walk_cache (dir p) d m)

lookup-remove_changed :
    {V : Type 0} (paths : List Str) (q : Str) (m : Assoc Str (Assoc Str V))
    → lookup q (remove_changed paths m)
      ≡ (if any (λ (p : Str). p == q) paths then none else lookup q m)
unfolding remove_changed
lookup-remove_changed [] q m = refl
lookup-remove_changed (p ∷ paths) q m =
    lookup-remove_changed paths q (remove p m) ∙ ground (arith, lookup-remove p q m)

-- The walk cache after the changes, where there is one.
abbrev pub walk_entry : {W : Type 0} → Str → Option (Assoc Str W) → Option W
walk_entry d none = none
walk_entry d (some m) = lookup d m

walk_entry-invalidate :
    {W : Type 0} (paths : List Str) (d : Str) (o : Option (Assoc Str W))
    → walk_entry d (invalidate_previous paths o)
      ≡ (if any (λ (p : Str). is_stale (dir p) d) paths then none else walk_entry d o)
walk_entry-invalidate paths d none =
    elim (Bool-cases (any (λ (p : Str). is_stale (dir p) d) paths)) [
      | inl t ↦ rw t refl
      | inr f ↦ rw f refl
    ]
walk_entry-invalidate paths d (some m) = lookup-invalidate_parents paths d m

pub read-kept :
    {V W E : Type 0} (v : CacheState V W) (diff : Str → Result E ChangeSet) (cs : ChangeSet)
    (previous : Option (Assoc Str W)) (p d : Str)
    → diff v.clock_spec ≡ ok cs
    → cs.is_fresh_instance ≡ false
    → (lookup p (read (decoded v) diff previous new_watchman_cache).0.entries
        ≡ (if any (λ (q : Str). q == p) cs.paths then none else lookup p v.entries))
      × (walk_entry d (read (decoded v) diff previous new_watchman_cache).0.walk_cache ≡ (
          if any (λ (q : Str). is_stale (dir q) d) cs.paths then none else walk_entry d previous))
      × ((read (decoded v) diff previous new_watchman_cache).0.last_clock_spec ≡ cs.clock_spec)
unfolding read
read-kept v diff cs previous p d told stays =
    rw (told, stays)
      (lookup-remove_changed cs.paths p v.entries, walk_entry-invalidate cs.paths d previous, refl)

with_clock-started :
    {E : Type 0} (w w' : WatchmanWatcher) (r : Result (WatchError E) ControlResponse)
    (told : ControlResponse)
    → ◌≡◌ {A = Result (WatchError E) Done × WatchmanWatcher} (with_clock w r) (ok tt, w')
    → r ≡ ok told
    → (w'.connected ≡ w.connected) × (w'.last_clock_spec ≡ told.clock)
with_clock-started w w' (err e) told h k = absurd cc
with_clock-started {E = E} w w' (ok response) told h k = elim (Bool-cases (response.clock == [])) [
  | inl t ↦ absurd (let refused = rw t at h in cc)
  | inr f ↦
      (let started = rw f at h in
        let same : response ≡ told = cc in
        (
          sym (ap (λ (x : Result (WatchError E) Done × WatchmanWatcher). x.1.connected) started),
          sym (
                ap (λ (x : Result (WatchError E) Done × WatchmanWatcher). x.1.last_clock_spec)
                  started)
              ∙ ap (λ (x : ControlResponse). x.clock) same,
        ))
]

watch_then_clock-started :
    {E : Type 0} (clock : Call E) (w w' : WatchmanWatcher)
    (r : Result (WatchError E) ControlResponse) (told : ControlResponse)
    → ◌≡◌ {A = Result (WatchError E) Done × WatchmanWatcher}
        (watch_then_clock clock w r)
        (ok tt, w')
    → w.connected ≡ true
    → clock.sending ≡ none
    → clock.receiving ≡ ok told
    → (w'.connected ≡ true) × (w'.last_clock_spec ≡ told.clock)
unfolding exchange
watch_then_clock-started clock w w' (err e) told h c s r = absurd cc
watch_then_clock-started clock w w' (ok response) told h c s r =
    let (connected, told_clock) =
      with_clock-started _ w'
        (if w.connected then sent clock.sending clock.receiving else err closed) told h
        (rw (c, s, r) refl) in
    (connected ∙ c, told_clock)

-- A client that has been started is connected, and its clock is that of the call of clock.
start-started :
    {E : Type 0} (dir : Str) (watch clock : Call E) (w : WatchmanWatcher) (told : ControlResponse)
    → ◌≡◌ {A = Result (WatchError E) Done × WatchmanWatcher}
        (start none watch clock (new_watchman dir))
        (ok tt, w)
    → clock.sending ≡ none
    → clock.receiving ≡ ok told
    → (w.connected ≡ true) × (w.last_clock_spec ≡ told.clock)
unfolding start exchange
start-started dir watch clock w told h s r =
    watch_then_clock-started clock _ w (checked (sent watch.sending watch.receiving)) told h refl s
      r

-- What GetDiff gives for no clock where the client is told of changes since its own one.
get_diff-told :
    {E : Type 0} (w : WatchmanWatcher) (respond : Str → Call E) (response : ControlResponse)
    (clock : Str)
    → w.connected ≡ true
    → w.last_clock_spec ≡ clock
    → respond clock ≡ record { sending = none; receiving = ok response }
    → response.error ≡ []
    → (get_diff [] respond w).0
      ≡ ok (record {
        paths = files_or_none response.files;
        root = w.workspace_dir;
        clock_spec = response.clock;
        is_fresh_instance = response.is_fresh_instance;
      })
unfolding get_diff exchange query_clock list_beq
get_diff-told {E = E} w respond response clock c l a e =
    let whole : checked (exchange w (respond w.last_clock_spec)) ≡ ok response =
      rw (exchange, c, l, a, e) refl in
    ap (λ (r : Result (WatchError E) ControlResponse). (with_diff w r).0) whole

-- Nothing is read of the changes: there is no file, it is not read, or watchman gives an error.
abbrev pub IsUnread : {V W E : Type 0} → CacheFile V W → (Str → Result E ChangeSet) → Type 0
IsUnread unopened diff = Unit
IsUnread unreadable diff = Unit
IsUnread {E = E} (decoded v) diff = (e : E) × (diff v.clock_spec ≡ err e)

read-unread :
    {V W F : Type 0} (file : CacheFile V W) (diff : Str → Result F ChangeSet)
    (previous : Option (Assoc Str W))
    → IsUnread file diff
    → (read file diff previous new_watchman_cache).0.last_clock_spec ≡ []
unfolding read
read-unread unopened diff previous h = refl
read-unread unreadable diff previous h = refl
read-unread (decoded v) diff previous (e, told) = rw told refl

-- A cache for which nothing was read of the changes is written with whatever entries it has got then,
-- and is read by a client that is started later, whose Start is told a clock: it asks for the changes
-- since that later clock, and where it is told some, of no fresh instance, it drops the entries of their
-- paths and keeps those of every other path, whatever was changed between the writing and its Start.
pub write-unread :
    {V W E F : Type 0} (file : CacheFile V W) (diff : Str → Result F ChangeSet)
    (previous next : Option (Assoc Str W)) (entries : Assoc Str (Assoc Str V)) (dir p : Str)
    (watch clock : Call E) (respond : Str → Call E) (w : WatchmanWatcher)
    (told response : ControlResponse)
    → IsUnread file diff
    → ◌≡◌ {A = Result (WatchError E) Done × WatchmanWatcher}
        (start none watch clock (new_watchman dir))
        (ok tt, w)
    → clock.sending ≡ none
    → clock.receiving ≡ ok told
    → respond told.clock ≡ record { sending = none; receiving = ok response }
    → response.error ≡ []
    → response.is_fresh_instance ≡ false
    → lookup p
        (read
          (decoded
            (write (record (read file diff previous new_watchman_cache).0 { entries = entries })))
          (λ since. (get_diff since respond w).0)
          next
          new_watchman_cache).0.entries
      ≡ (if any (λ (q : Str). q == p) (files_or_none response.files)
          then none
          else lookup p entries)
unfolding read
write-unread {V} {W} {E} file diff previous next entries dir p watch clock respond w told response
      unread started s r a e stays =
    let (connected, last) = start-started dir watch clock w told started s r in
    let asked = get_diff-told w respond response told.clock connected last a e in
    let empty = read-unread file diff previous unread in
    (read-kept
      (record {
        clock_spec = (read file diff previous new_watchman_cache).0.last_clock_spec;
        entries = entries;
      })
      (λ (since : Str). (get_diff since respond w).0) _ next p []
      (ap (λ (since : Str). (get_diff since respond w).0) empty ∙ asked) stays).0
