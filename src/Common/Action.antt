-- ===== src/Common/Action.antt =====
-- Code that acts on the world outside and may fail: what it did before an error stays done.
use mathlib.Core.Path.{◌≡◌, refl}
use konstantin.Common.Outcome.{Failure, Result, ok, err}

abbrev pub Action {ℓ κ} : Type ℓ → Type κ → Type (ℓ ⊔ κ)
Action W A = W → Result A × W

module _ {ℓ κ} {W : Type ℓ} {A : Type κ} where
  abbrev pub pure : A → Action W A
  pure a w = (ok a, w)

  abbrev pub fail : Failure → Action W A
  fail e w = (err e, w)

  -- A computation that does not touch the world.
  abbrev pub lift : Result A → Action W A
  lift r w = (r, w)

  -- A read of the world.
  abbrev pub reads : (W → Result A) → Action W A
  reads f w = (f w, w)

module _ {ℓ κ μ} {W : Type ℓ} {A : Type κ} {B : Type μ} where
  abbrev pub continue : Result A → (A → Action W B) → Action W B
  continue (ok a) f w = f a w
  continue (err e) f w = (err e, w)

  infixl 5 ◌>>=◌
  abbrev pub ◌>>=◌ : Action W A → (A → Action W B) → Action W B
  ◌>>=◌ m f w = continue (m w).0 f (m w).1

module _ {ℓ κ} {W : Type ℓ} {B : Type κ} where
  infixl 5 ◌>>◌
  abbrev pub ◌>>◌ : Action W (Unit {0}) → Action W B → Action W B
  ◌>>◌ m k w = continue (m w).0 (λ _. k) (m w).1

module _ {ℓ κ μ ν} {W : Type ℓ} {A : Type κ} {B : Type μ} (P : Result B × W → Type ν) where
  continue_cases :
      (r : Result A) (f : A → Action W B) (w : W)
      → ((a : A) → r ≡ ok a → P (f a w))
      → ((e : Failure) → r ≡ err e → P (err e, w))
      → P (continue r f w)
  continue_cases (ok a) f w good bad = good a refl
  continue_cases (err e) f w good bad = bad e refl

  -- What holds after a step that succeeds and the rest, and after a step that fails, holds after
  -- both in a row.
  pub >>=-cases :
      (m : Action W A) (f : A → Action W B) (w : W)
      → ((a : A) → (m w).0 ≡ ok a → P (f a (m w).1))
      → ((e : Failure) → (m w).0 ≡ err e → P (err e, (m w).1))
      → P ((m >>= f) w)
  >>=-cases m f w good bad = continue_cases (m w).0 f (m w).1 good bad

module _ {ℓ μ ν} {W : Type ℓ} {B : Type μ} (P : Result B × W → Type ν) where
  -- The same for a step whose value is not used.
  pub >>-cases :
      (m : Action W (Unit {0})) (k : Action W B) (w : W)
      → ((m w).0 ≡ ok tt → P (k (m w).1))
      → ((e : Failure) → (m w).0 ≡ err e → P (err e, (m w).1))
      → P ((m >> k) w)
  >>-cases m k w good bad = >>=-cases P m (λ _. k) w (λ _ e. good e) bad

-- A split on how a step ended.
pub outcome_cases {ℓ κ ν} :
    {W : Type ℓ} {A : Type κ} (P : Result A × W → Type ν) (q : Result A × W)
    → ((a : A) → q.0 ≡ ok a → P (ok a, q.1))
    → ((e : Failure) → q.0 ≡ err e → P (err e, q.1))
    → P q
outcome_cases P (ok a, w) good bad = good a refl
outcome_cases P (err e, w) good bad = bad e refl
