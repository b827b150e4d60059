-- ===== src/Common/Decimal/Digits.antt =====
-- The text of a number holds digits, and at least one.
use Prim.Native.Char.{Char, code}
use konstantin.Common.Decimal.{digit, digits, decimal}
use konstantin.Common.Words.{is_whitespace, trim_start, trim_end, trim}
use konstantin.Common.{
  ℕ, zero, suc, String, ◌/◌, ◌%◌, ◌≤◌, ◌≡◌, inl, inr, refl, Bool, true, false, arith, ltb, nat_beq,
  if◌then◌else◌, Bool-cases, nat_eq, string_eq,
}

abbrev pub IsDigit : Char → Type 0
IsDigit c = (48 ≤ code c) × (code c ≤ 57)

abbrev pub AllDigits : String → Type 0
AllDigits String.[] = Unit {0}
AllDigits (String.◌∷◌ c s) = IsDigit c × AllDigits s

IsDigit-if : (b : Bool) (x y : Char) → IsDigit x → IsDigit y → IsDigit (if b then x else y)
IsDigit-if true x y h k = h
IsDigit-if false x y h k = k

IsDigit-digit : (n : ℕ) → IsDigit (digit n)
unfolding digit
IsDigit-digit n =
    IsDigit-if (nat_beq n 0) _ _ (omega arith, omega arith)
      (IsDigit-if (nat_beq n 1) _ _ (omega arith, omega arith)
        (IsDigit-if (nat_beq n 2) _ _ (omega arith, omega arith)
          (IsDigit-if (nat_beq n 3) _ _ (omega arith, omega arith)
            (IsDigit-if (nat_beq n 4) _ _ (omega arith, omega arith)
              (IsDigit-if (nat_beq n 5) _ _ (omega arith, omega arith)
                (IsDigit-if (nat_beq n 6) _ _ (omega arith, omega arith)
                  (IsDigit-if (nat_beq n 7) _ _ (omega arith, omega arith)
                    (IsDigit-if (nat_beq n 8) _ _ (omega arith, omega arith)
                      (omega arith, omega arith)))))))))

AllDigits-digits : (f n : ℕ) (rest : String) → AllDigits rest → AllDigits (digits f n rest)
unfolding digits
AllDigits-digits zero n rest h = h
AllDigits-digits (suc f) n rest h = elim (Bool-cases (ltb n 10)) [
  | inl last ↦ rw last (IsDigit-digit n, h)
  | inr more ↦ rw more (AllDigits-digits f (n / 10) _ (IsDigit-digit (n % 10), h))
]

pub AllDigits-decimal : (n : ℕ) → AllDigits (decimal n)
unfolding decimal
AllDigits-decimal n = AllDigits-digits 20 n "" tt

-- A text with a first character.
abbrev pub IsWord : String → Type 0
IsWord String.[] = ⊥
IsWord (String.◌∷◌ c s) = Unit {0}

IsWord-digits : (f n : ℕ) (rest : String) → IsWord rest → IsWord (digits f n rest)
unfolding digits
IsWord-digits zero n rest h = h
IsWord-digits (suc f) n rest h = elim (Bool-cases (ltb n 10)) [
  | inl last ↦ rw last tt
  | inr more ↦ rw more (IsWord-digits f (n / 10) _ tt)
]

pub IsWord-decimal : (n : ℕ) → IsWord (decimal n)
unfolding decimal digits
IsWord-decimal n = elim (Bool-cases (ltb n 10)) [
  | inl last ↦ rw last tt
  | inr more ↦ rw more (IsWord-digits 19 (n / 10) _ tt)
]

pub whitespace-digit : (c : Char) → IsDigit c → is_whitespace (code c) ≡ false
unfolding is_whitespace
whitespace-digit c h = ground (arith, h)

trim_start-digits : (s : String) → AllDigits s → trim_start s ≡ s
unfolding trim_start
trim_start-digits String.[] h = refl
trim_start-digits (String.◌∷◌ c s) h = rw (whitespace-digit c h.0) refl

trim_end-digits : (s : String) → AllDigits s → trim_end s ≡ s
unfolding trim_end
trim_end-digits String.[] h = refl
trim_end-digits (String.◌∷◌ c s) h = ground (arith, trim_end-digits s h.1, whitespace-digit c h.0)

-- Trimming takes nothing from the text of a number.
pub trim-decimal : (n : ℕ) → trim (decimal n) ≡ decimal n
unfolding trim
trim-decimal n =
    rw (trim_start-digits (decimal n) (AllDigits-decimal n))
      (trim_end-digits (decimal n) (AllDigits-decimal n))
