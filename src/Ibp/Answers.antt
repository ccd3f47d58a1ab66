-- ===== src/Ibp/Answers.antt =====
-- What the server takes for the answer to a cycle, and what it sends before that.
use aspect_gazelle.Base.{
  ℕ, String, ◌≡◌, refl, ◌∙◌, subst, ◌↔◌, Bool, true, false, Option, none, some, List, [], ◌∷◌,
  arith, ◌||◌, ◌==◌, string_eq, ap,
}
use aspect_gazelle.Base.Int.{ℤ, int_eq, int_beq_iff}
use aspect_gazelle.Base.Exec.{Done, Result, ok, err, ◌>>=◌}
use aspect_gazelle.Base.Exec.Triple.{err≢ok}
use aspect_gazelle.Ibp.Json.{Fields, get, as_num, is_text}
use aspect_gazelle.Ibp.Message.{SourceInfoMap}
use aspect_gazelle.Ibp.Caps.{Error, not_ready}
use aspect_gazelle.Ibp.Server.{
  Server, SpanContext, Verdict, again, stop, judge, await_loop, err_not_ready, cycle_to,
  cycle_reset, init, exit_with,
}

abbrev pub HasKind : Fields → String → Type 0
HasKind m kind = is_text (get m "kind") kind ≡ true

-- A message about the cycle `id`.
abbrev pub About : ℤ → Fields → Type 0
About id m = as_num (get m "cycle_id") ≡ some id

abbrev pub ends_cycle : Fields → Bool
ends_cycle m =
    (is_text (get m "kind") "CYCLE_ABORTED" || is_text (get m "kind") "CYCLE_FAILED")
    || is_text (get m "kind") "CYCLE_COMPLETED"

-- `Answers id msgs rest`: any number of CYCLE_STARTED for the cycle, then one message that ends it,
-- and then `rest`.
pub data Answers (id : ℤ) : List Fields → List Fields → Type 0 where
  finished :
      {m : Fields} {rest : List Fields}
      → About id m
      → is_text (get m "kind") "CYCLE_STARTED" ≡ false
      → ends_cycle m ≡ true
      → Answers id (m ∷ rest) rest
  pending :
      {m : Fields} {ms rest : List Fields}
      → About id m
      → HasKind m "CYCLE_STARTED"
      → Answers id ms rest
      → Answers id (m ∷ ms) rest

int_beq_self : (a : ℤ) → (a == a) ≡ true
int_beq_self a = (int_beq_iff a a).1 refl

abbrev Verdicts : Type 0
Verdicts = Result Error Done × List Fields

judge-again :
    (id : ℤ) (m : Fields) (o : Option ℤ)
    → (judge id m o ≡ again) ↔ ((o ≡ some id) × HasKind m "CYCLE_STARTED")
unfolding judge
judge-again id m none = (λ h. cc, λ h. cc (h.0))
judge-again id m (some r) = ground (arith, int_beq_iff r id)

judge-stop_ok :
    (id : ℤ) (m : Fields) (o : Option ℤ)
    → (judge id m o ≡ stop (ok tt))
      ↔ ((o ≡ some id) × (is_text (get m "kind") "CYCLE_STARTED" ≡ false) × (ends_cycle m ≡ true))
unfolding judge
judge-stop_ok id m none = (λ h. cc, λ h. cc (h.0))
judge-stop_ok id m (some r) = ground (arith, int_beq_iff r id)

Answers→await_loop :
    {id : ℤ} {ms rest : List Fields} → Answers id ms rest → await_loop id ms ≡ (ok tt, rest)
unfolding await_loop
Answers→await_loop {id} (Answers.finished {m} a s e) =
    rw ((judge-stop_ok id m _).1 (a, s, e), await_loop)
Answers→await_loop {id} (Answers.pending {m} a s w) =
    rw ((judge-again id m _).1 (a, s), await_loop) (Answers→await_loop w)

await_loop→Answers :
    (id : ℤ) (ms rest : List Fields) → await_loop id ms ≡ (ok tt, rest) → Answers id ms rest
unfolding await_loop
await_loop→Answers id [] rest h =
    absurd (err≢ok (ap (λ (r : Result Error Done × List Fields). r.0) h))
await_loop→Answers id (m ∷ ms) rest h =
    by_verdict (judge id m (as_num (get m "cycle_id"))) refl h (await_loop→Answers id ms rest)
  where
    by_verdict :
        (v : Verdict)
        → judge id m (as_num (get m "cycle_id")) ≡ v
        → (elim v [ again ↦ await_loop id ms | stop r ↦ (r, ms) ]) ≡ (ok tt, rest)
        → (await_loop id ms ≡ (ok tt, rest) → Answers id ms rest)
        → Answers id (m ∷ ms) rest
    by_verdict again e p rec = let (a, s) = (judge-again id m _).0 e in Answers.pending a s (rec p)
    by_verdict (stop r) e p rec =
        let (a, s, f) = (judge-stop_ok id m _).0 (e ∙ ap stop (ap (λ (q : Verdicts). q.0) p)) in
        subst (λ (l : List Fields). Answers id (m ∷ ms) l) (ap (λ (q : Verdicts). q.1) p)
          (Answers.finished a s f)

-- Waiting for the answer to a cycle succeeds, with `rest` left to receive, exactly where the
-- messages are any number of CYCLE_STARTED of this cycle and then its CYCLE_COMPLETED,
-- CYCLE_FAILED or CYCLE_ABORTED.
pub await_loop-ok_iff :
    (id : ℤ) (ms rest : List Fields) → (await_loop id ms ≡ (ok tt, rest)) ↔ Answers id ms rest
await_loop-ok_iff id ms rest = (await_loop→Answers id ms rest, Answers→await_loop)

-- Nothing is sent before the handshake is complete: CYCLE, CYCLE_RESET and EXIT return the error and
-- leave the server as it was, the cycle count and the socket included.
pub not_ready-changes_nothing :
    (faulty : ℕ → Bool) (ctx : SpanContext) (p : Server) (scope : String) (m : SourceInfoMap)
    (d : Option String)
    → p.ready ≡ false
    → (cycle_to faulty ctx scope m p ≡ (err (not_ready "CYCLE"), p))
      × (init faulty ctx scope m p ≡ (err (not_ready "CYCLE"), p))
      × (cycle_reset faulty ctx p ≡ (err (not_ready "CYCLE_RESET"), p))
      × (exit_with faulty ctx d p ≡ (err (not_ready "EXIT"), p))
unfolding init cycle_to cycle_reset exit_with err_not_ready ◌>>=◌
not_ready-changes_nothing faulty ctx p scope m d w = (rw w, rw w, rw w, rw w)
