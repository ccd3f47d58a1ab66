-- ===== src/Base/Exec/Triple.antt =====
-- Pre- and postconditions of actions, with one rule for each way to build an action.
use aspect_gazelle.Base.Tests.{if◌then◌else◌}
use mathlib.Core.Path.{◌≡◌, refl}
use mathlib.Core.Bool.{Bool, true, false}
use aspect_gazelle.Base.Exec.{
  Done, Result, ok, err, Exec, pure, lift, gets, modify, require, map_err, relabel, continue, ◌>>=◌,
  bind_result,
}

module _ {E S A : Type 0} where
  -- `Q` of a value and the state, or `F` of the state where an error is returned.
  abbrev pub Post : (A → S → Type 0) → (S → Type 0) → Result E A × S → Type 0
  Post Q F (ok a, s) = Q a s
  Post Q F (err e, s) = F s

  -- From a state with `P` the action ends in `Q`, or with an error in `F`.
  pub record Triple (P : S → Type 0) (m : Exec E S A) (Q : A → S → Type 0) (F : S → Type 0)
      : Type 0 where
    pub at : (s : S) → P s → Post Q F (m s)

  pub Triple-pure : (Q : A → S → Type 0) (F : S → Type 0) (a : A) → Triple (Q a) (pure a) Q F
  unfolding pure
  Triple-pure Q F a = record { at = λ s p. p }

  pub Triple-gets : (P : S → Type 0) (f : S → A) → Triple P (gets f) (λ _. P) P
  unfolding gets
  Triple-gets P f = record { at = λ s p. p }

  Post-lift :
      (P : S → Type 0) (r : Result E A) (s : S) → P s → Post (λ a s. P s × (r ≡ ok a)) P (r, s)
  Post-lift P (ok a) s p = (p, refl)
  Post-lift P (err e) s p = p

  pub Triple-lift :
      (P : S → Type 0) (r : Result E A) → Triple P (lift r) (λ a s. P s × (r ≡ ok a)) P
  unfolding lift
  Triple-lift P r = record { at = Post-lift P r }

  Post-relabel :
      (Q : A → S → Type 0) (F : S → Type 0) (f : E → E) (r : Result E A × S)
      → Post Q F r
      → Post Q F (relabel f r)
  Post-relabel Q F f (ok a, s) h = h
  Post-relabel Q F f (err e, s) h = h

  pub Triple-map_err :
      {P : S → Type 0} (f : E → E) {m : Exec E S A} {Q : A → S → Type 0} {F : S → Type 0}
      → Triple P m Q F
      → Triple P (map_err f m) Q F
  unfolding map_err
  Triple-map_err f {m} {Q} {F} h = record { at = λ s p. Post-relabel Q F f (m s) (h.at s p) }

  pub Triple-if :
      {P : S → Type 0} (b : Bool) (m n : Exec E S A) {Q : A → S → Type 0} {F : S → Type 0}
      → (b ≡ true → Triple P m Q F)
      → (b ≡ false → Triple P n Q F)
      → Triple P (if b then m else n) Q F
  Triple-if true m n hm hn = hm refl
  Triple-if false m n hm hn = hn refl

  pub Triple-weaken :
      {P : S → Type 0} {m : Exec E S A} {Q : A → S → Type 0} {F : S → Type 0} (P' : S → Type 0)
      → ((s : S) → P' s → P s)
      → Triple P m Q F
      → Triple P' m Q F
  Triple-weaken P' w h = record { at = λ s p. h.at s (w s p) }

  Post-error :
      (Q : A → S → Type 0) (F F' : S → Type 0) (r : Result E A × S)
      → ((s : S) → F s → F' s)
      → Post Q F r
      → Post Q F' r
  Post-error Q F F' (ok a, s) w h = h
  Post-error Q F F' (err e, s) w h = w s h

  pub Triple-error :
      {P : S → Type 0} {m : Exec E S A} {Q : A → S → Type 0} {F : S → Type 0} (F' : S → Type 0)
      → ((s : S) → F s → F' s)
      → Triple P m Q F
      → Triple P m Q F'
  Triple-error {m} {Q} {F} F' w h = record { at = λ s p. Post-error Q F F' (m s) w (h.at s p) }

  Post-result :
      (Q Q' : A → S → Type 0) (F : S → Type 0) (r : Result E A × S)
      → ((a : A) (s : S) → Q a s → Q' a s)
      → Post Q F r
      → Post Q' F r
  Post-result Q Q' F (ok a, s) w h = w a s h
  Post-result Q Q' F (err e, s) w h = h

  pub Triple-result :
      {P : S → Type 0} {m : Exec E S A} {Q : A → S → Type 0} {F : S → Type 0} (Q' : A → S → Type 0)
      → ((a : A) (s : S) → Q a s → Q' a s)
      → Triple P m Q F
      → Triple P m Q' F
  Triple-result {m} {Q} {F} Q' w h = record { at = λ s p. Post-result Q Q' F (m s) w (h.at s p) }

  -- A part of the precondition that is no matter of the state.
  pub Triple-assume :
      {P : S → Type 0} {B : Type 0} {m : Exec E S A} {Q : A → S → Type 0} {F : S → Type 0}
      → (B → Triple P m Q F)
      → Triple (λ s. P s × B) m Q F
  Triple-assume h = record { at = λ s p. (h p.1).at s p.0 }

module _ {E S : Type 0} where
  Post-require :
      (P : S → Type 0) (b : Bool) (e : E) (s : S)
      → P s
      → Post {E = E} {A = Done} (λ _ s. P s × (b ≡ true)) P (if b then (ok tt, s) else (err e, s))
  Post-require P true e s p = (p, refl)
  Post-require P false e s p = p

  pub Triple-require :
      (P : S → Type 0) (b : Bool) (e : E) → Triple P (require b e) (λ _ s. P s × (b ≡ true)) P
  unfolding require
  Triple-require P b e = record { at = Post-require P b e }

  pub Triple-modify :
      (P Q F : S → Type 0) (f : S → S)
      → ((s : S) → P s → Q (f s))
      → Triple {E = E} P (modify f) (λ _. Q) F
  unfolding modify
  Triple-modify P Q F f h = record { at = h }

module _ {E S A B : Type 0} where
  Post-continue :
      (Q : A → S → Type 0) (F : S → Type 0) (R : B → S → Type 0) (f : A → Exec E S B)
      → ((a : A) → Triple (Q a) (f a) R F)
      → (r : Result E A × S) → Post Q F r
      → Post R F (continue f r)
  Post-continue Q F R f k (ok a, s) h = (k a).at s h
  Post-continue Q F R f k (err e, s) h = h

  pub Triple-bind :
      {P : S → Type 0} {m : Exec E S A} {Q : A → S → Type 0} {F : S → Type 0} {f : A → Exec E S B}
      {R : B → S → Type 0}
      → Triple P m Q F
      → ((a : A) → Triple (Q a) (f a) R F)
      → Triple P (m >>= f) R F
  unfolding ◌>>=◌
  Triple-bind {m} {Q} {F} {f} {R} h k = record {
    at = λ s p. Post-continue Q F R f k (m s) (h.at s p);
  }

-- Inversion of a successful call.
pub bind_result-eq_ok {ℓ κ μ} :
    {E : Type ℓ} {A : Type κ} {B : Type μ} (r : Result E A) (f : A → Result E B) {b : B}
    → bind_result r f ≡ ok b
    → (a : A) × (r ≡ ok a) × (f a ≡ ok b)
bind_result-eq_ok (ok a) f h = (a, refl, h)
bind_result-eq_ok (err e) f h = cc

pub ok-injective {ℓ κ} :
    {E : Type ℓ} {A : Type κ} {a b : A} → ◌≡◌ {A = Result E A} (ok a) (ok b) → a ≡ b
ok-injective h = cc

pub err≢ok {ℓ κ} :
    {E : Type ℓ} {A : Type κ} {e : E} {a : A} → ◌≡◌ {A = Result E A} (err e) (ok a) → ⊥
err≢ok h = cc (h)
