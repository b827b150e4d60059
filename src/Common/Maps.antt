-- ===== src/Common/Maps.antt =====
-- `HashMap` and `HashSet` as lists: the program reads a map by key and never by position, and
-- where it walks a set the order is whatever the list has.
use mathlib.Core.Path.{◌≡◌, refl, sym}
use mathlib.Core.Logic.{◌≢◌, inl, inr}
use mathlib.Core.Bool.{Bool, true, false, ◌||◌}
use mathlib.Core.Option.{Option, none, some}
use mathlib.Core.List.{List, [], ◌∷◌, ◌++◌}
use native.Mathlib.Omega.{arith}
use konstantin.Common.Tests.{if◌then◌else◌, Eq, ◌==◌, Bool-cases}

abbrev pub Map {ℓ κ} : Type ℓ → Type κ → Type (ℓ ⊔ κ)
Map K V = List (K × V)

module _ {ℓ} {K : Type ℓ} ⦃e : Eq K⦄ where
  pub beq_refl : (k : K) → (k == k) ≡ true
  beq_refl k = (e.beq_iff k k).1 refl

  pub beq_ne : (j k : K) → j ≢ k → (j == k) ≡ false
  beq_ne j k h = elim (Bool-cases (j == k)) [ inl t ↦ absurd (h ((e.beq_iff j k).0 t)) | inr f ↦ f ]

  -- `HashSet::contains`
  unfoldable pub contains : List K → K → Bool
  contains [] a = false
  contains (x ∷ xs) a = x == a || contains xs a

  -- A list that stands for a set holds each member once.
  abbrev pub Distinct : List K → Type 0
  Distinct [] = Unit {0}
  Distinct (x ∷ xs) = (contains xs x ≡ false) × Distinct xs

  pub contains-append :
      (xs ys : List K) (a : K) → contains (xs ++ ys) a ≡ (contains xs a || contains ys a)
  unfolding contains
  contains-append [] ys a = refl
  contains-append (x ∷ xs) ys a = ground (arith, contains-append xs ys a)

module _ {ℓ κ} {K : Type ℓ} {V : Type κ} ⦃e : Eq K⦄ where
  unfoldable pub lookup : K → Map K V → Option V
  lookup k [] = none
  lookup k ((j, v) ∷ m) = if j == k then some v else lookup k m

  unfoldable pub insert : K → V → Map K V → Map K V
  insert k v [] = (k, v) ∷ []
  insert k v ((j, w) ∷ m) = if j == k then (k, v) ∷ m else (j, w) ∷ insert k v m

  pub lookup-insert_self : (k : K) (v : V) (m : Map K V) → lookup k (insert k v m) ≡ some v
  unfolding lookup insert
  lookup-insert_self k v [] = ground (arith, beq_refl k)
  lookup-insert_self k v ((i, w) ∷ m) = ground (arith, beq_refl k, lookup-insert_self k v m)

  pub lookup-insert_ne :
      (k j : K) (v : V) (m : Map K V) → k ≢ j → lookup j (insert k v m) ≡ lookup j m
  unfolding lookup insert
  lookup-insert_ne k j v [] h = ground (arith, beq_ne k j h)
  lookup-insert_ne k j v ((i, w) ∷ m) h =
      ground (arith, beq_ne k j h, e.beq_iff i k, e.beq_iff i j, lookup-insert_ne k j v m h)

  pub lookup-insert :
      (k j : K) (v : V) (m : Map K V)
      → lookup j (insert k v m) ≡ (if k == j then some v else lookup j m)
  lookup-insert k j v m = elim (Bool-cases (k == j)) [
    | inl t ↦ rw (t, sym ((e.beq_iff k j).0 t)) (lookup-insert_self k v m)
    | inr f ↦ rw f (lookup-insert_ne k j v m (λ p. absurd_beq p f))
  ]
    where
      absurd_beq : k ≡ j → (k == j) ≡ false → ⊥
      absurd_beq p f = cc ((e.beq_iff k j).1 p)
