-- ===== src/Common/Outcome.antt =====
-- `anyhow::Result`: a value, or an error with the message or the operating system's cause.
use Prim.Native.String.{String}
use mathlib.Core.Path.{◌≡◌, refl}
use mathlib.Core.Bool.{Bool, true, false}
use mathlib.Core.Logic.{◌⊎◌, inl, inr}

-- `std::io::ErrorKind`, as far as the program tells kinds apart.
pub data IoKind : Type 0 where
  not_found : IoKind
  other_kind : IoKind

-- `io` is an operating-system error under its contexts; `decoding` is an error of a serde codec;
-- `bail` is a message of the program's own.
pub data Failure : Type 0 where
  io : IoKind → Failure
  decoding : Failure
  bail : String → Failure

pub data Result {ℓ} (A : Type ℓ) : Type ℓ where
  ok : A → Result A
  err : Failure → Result A

infixl 5 ◌>>=◌
abbrev pub ◌>>=◌ {ℓ κ} : {A : Type ℓ} {B : Type κ} → Result A → (A → Result B) → Result B
ok value >>= next = next value
err failure >>= next = err failure

infixl 5 ◌>>◌
abbrev pub ◌>>◌ {ℓ} : {B : Type ℓ} → Result (Unit {0}) → Result B → Result B
first >> second = first >>= λ _. second

-- `ensure!`: the message when the test fails.
abbrev pub ensure : Bool → String → Result (Unit {0})
ensure true m = ok tt
ensure false m = err (bail m)

pub Result-cases {ℓ} :
    {A : Type ℓ} (r : Result A) → ((a : A) × (r ≡ ok a)) ⊎ ((e : Failure) × (r ≡ err e))
Result-cases (ok a) = inl (a, refl)
Result-cases (err e) = inr (e, refl)
