-- ===== src/Tray/Users/Attributes/Hex.antt =====
-- The hexadecimal form of a picture: crates/tray/src/users.rs.
use konstantin.Common.{
  ℕ, String, ◌+◌, ◌/◌, ◌%◌, ◌<◌, ◌≡◌, refl, ap, Bool, true, false, some, List, [], ◌∷◌, arith, ltb,
  if◌then◌else◌, ◌==◌, nat_eq, string_eq,
}
use konstantin.Tray.Users.Attributes.{stripped, hex_digit, hex_byte, hex_pairs, hex_decode}

-- The digit of a number below 16, in lower or in upper case.
abbrev pub digit_code : Bool → ℕ → ℕ
digit_code upper n = if ltb n 10 then n + 48 else if upper then n + 55 else n + 87

-- The form that `dscl` prints: two digits a byte.
abbrev pub hex_encode : Bool → List ℕ → List ℕ
hex_encode upper [] = []
hex_encode upper (b ∷ bytes) =
    digit_code upper (b / 16) ∷ (digit_code upper (b % 16) ∷ hex_encode upper bytes)

abbrev pub AllBytes : List ℕ → Type 0
AllBytes [] = Unit {0}
AllBytes (b ∷ bytes) = (b < 256) × AllBytes bytes

hex_digit-digit_code : (upper : Bool) (n : ℕ) → n < 16 → hex_digit (digit_code upper n) ≡ some n
unfolding hex_digit
hex_digit-digit_code true n h = ground (arith, h)
hex_digit-digit_code false n h = ground (arith, h)

not_a_sign : (upper : Bool) (n : ℕ) → n < 16 → (digit_code upper n == b'+') ≡ false
not_a_sign true n h = ground (arith, h)
not_a_sign false n h = ground (arith, h)

hex_byte-digits :
    (upper : Bool) (b : ℕ)
    → b < 256
    → hex_byte (digit_code upper (b / 16)) (digit_code upper (b % 16)) ≡ some b
unfolding hex_byte
hex_byte-digits upper b h =
    rw
      (
        not_a_sign upper (b / 16) (omega (arith, h)),
        hex_digit-digit_code upper (b / 16) (omega (arith, h)),
        hex_digit-digit_code upper (b % 16) (omega arith),
      )
      (ap some (omega arith))

hex_pairs-hex_encode :
    (upper : Bool) (bytes : List ℕ)
    → AllBytes bytes
    → hex_pairs (hex_encode upper bytes) ≡ some bytes
unfolding hex_pairs
hex_pairs-hex_encode upper [] h = refl
hex_pairs-hex_encode upper (b ∷ bytes) h =
    rw (hex_byte-digits upper b h.0, hex_pairs-hex_encode upper bytes h.1) refl

-- A text that is the hexadecimal form of some bytes, at least one, with white space anywhere in it,
-- is read back as these bytes.
pub hex_decode-hex_encode :
    (upper : Bool) (b : ℕ) (bytes : List ℕ) (text : String)
    → AllBytes (b ∷ bytes)
    → stripped text ≡ hex_encode upper (b ∷ bytes)
    → hex_decode text ≡ some (b ∷ bytes)
unfolding hex_decode
hex_decode-hex_encode upper b bytes text h e = rw e (hex_pairs-hex_encode upper (b ∷ bytes) h)
