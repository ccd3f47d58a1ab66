-- ===== src/Base/Exec.antt =====
-- Go methods that change an object and may return an error: the state comes back in both cases.
pub mod Triple
use aspect_gazelle.Base.Tests.{if◌then◌else◌}
use mathlib.Core.Bool.{Bool}
use mathlib.Core.Logic.{◌⊎◌, inl, inr}
use mathlib.Core.Path.{◌≡◌, refl}

-- What a function without a result returns.
abbrev pub Done : Type 0
Done = Unit

pub data Result {ℓ κ} (E : Type ℓ) (A : Type κ) : Type (ℓ ⊔ κ) where
  ok : A → Result E A
  err : E → Result E A

abbrev pub Exec {ℓ κ μ} : Type ℓ → Type κ → Type μ → Type (ℓ ⊔ κ ⊔ μ)
Exec E S A = S → Result E A × S

-- What runs an action is shut, so that proofs go by the rules of Exec/Triple; `unfolding ◌>>=◌`
-- opens all of it.
module _ {ℓ κ μ} {E : Type ℓ} {S : Type κ} {A : Type μ} where
  unfoldable pub pure : A → Exec E S A
  pure a s = (ok a, s)

  unfoldable pub fail : E → Exec E S A
  fail e s = (err e, s)

  unfoldable pub lift : Result E A → Exec E S A
  lift r s = (r, s)

  unfoldable pub gets : (S → A) → Exec E S A
  gets f s = (ok (f s), s)

  abbrev pub relabel : (E → E) → Result E A × S → Result E A × S
  relabel f (ok a, s) = (ok a, s)
  relabel f (err e, s) = (err (f e), s)

  -- fmt.Errorf around an error of a call.
  unfoldable pub map_err : (E → E) → Exec E S A → Exec E S A
  map_err f m s = relabel f (m s)

unfoldable pub modify {ℓ κ} : {E : Type ℓ} {S : Type κ} → (S → S) → Exec E S Done
modify f s = (ok tt, f s)

-- `if !b { return e }`
unfoldable pub require {ℓ κ} : {E : Type ℓ} {S : Type κ} → Bool → E → Exec E S Done
require b e s = if b then (ok tt, s) else (err e, s)

module _ {ℓ κ μ ν} {E : Type ℓ} {S : Type κ} {A : Type μ} {B : Type ν} where
  abbrev pub continue : (A → Exec E S B) → Result E A × S → Result E B × S
  continue f (ok a, s) = f a s
  continue f (err e, s) = (err e, s)

  infixl 10 ◌>>=◌ ◌>>◌
  unfoldable pub ◌>>=◌ : Exec E S A → (A → Exec E S B) → Exec E S B
  unfolding pure fail lift gets map_err modify require
  ◌>>=◌ m f s = continue f (m s)

  abbrev pub ◌>>◌ : Exec E S A → Exec E S B → Exec E S B
  m >> n = m >>= λ _. n

-- The same for a pure function that may return an error.
abbrev pub bind_result {ℓ κ μ} :
    {E : Type ℓ} {A : Type κ} {B : Type μ} → Result E A → (A → Result E B) → Result E B
bind_result (ok a) f = f a
bind_result (err e) f = err e

pub Result-cases {ℓ κ} :
    {E : Type ℓ} {A : Type κ} (r : Result E A) → ((a : A) × (r ≡ ok a)) ⊎ ((e : E) × (r ≡ err e))
Result-cases (ok a) = inl (a, refl)
Result-cases (err e) = inr (e, refl)
