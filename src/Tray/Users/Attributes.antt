-- ===== src/Tray/Users/Attributes.antt =====
-- The home and the picture of a local user, from the plist of `dscl`: crates/tray/src/users.rs. The
-- crate `plist` is a record of views of its values.
pub mod Hex
use konstantin.Common.{
  ℕ, String, ◌+◌, ◌-◌, ◌*◌, Bool, not, ◌&&◌, Option, none, some, List, [], ◌∷◌, leb, if◌then◌else◌,
  ◌==◌, nat_eq, string_eq,
}
use konstantin.Common.Outcome.{bail, Result, ok, err}
use konstantin.Common.Outcome.{◌>>=◌, ◌>>◌, ensure}
use Prim.Native.Char.{code}
use Prim.Native.String.{◌++◌ as str_append}
use konstantin.Common.Words.{is_whitespace, trim}
use konstantin.Daemon.Control.Auth.{Output}
use konstantin.Tray.Users.{UserPicture, file, jpeg, UserAttributes}

-- Values of type `V`, dictionaries of type `D`.
pub record PlistValues (V D : Type 0) : Type 0 where
  pub from_reader : String → Result V
  pub as_dictionary : V → Option D
  pub get : D → String → Option V
  pub as_array : V → Option (List V)
  pub as_string : V → Option String
  pub as_data : V → Option (List ℕ)

-- The characters of a text without the white space.
unfoldable pub stripped : String → List ℕ
unfolding is_whitespace
stripped String.[] = []
stripped (String.◌∷◌ c s) =
    let rest = stripped s in if is_whitespace (code c) then rest else code c ∷ rest

-- A digit of either case.
unfoldable pub hex_digit : ℕ → Option ℕ
hex_digit c =
    if leb 48 c && leb c 57
    then some (c - 48)
    else if leb 97 c && leb c 102
    then some (c - 87)
    else if leb 65 c && leb c 70
    then some (c - 55)
    else none

abbrev pub two_digits : Option ℕ → Option ℕ → Option ℕ
two_digits (some high) (some low) = some (high * 16 + low)
two_digits (some high) none = none
two_digits none low = none

-- `u8::from_str_radix` of two characters, which takes a sign in front.
unfoldable pub hex_byte : ℕ → ℕ → Option ℕ
unfolding hex_digit
hex_byte c d = if c == b'+' then hex_digit d else two_digits (hex_digit c) (hex_digit d)

abbrev pub push_byte : Option ℕ → Option (List ℕ) → Option (List ℕ)
push_byte (some b) (some bytes) = some (b ∷ bytes)
push_byte (some b) none = none
push_byte none bytes = none

-- A character that takes several bytes is no digit, however its bytes are paired.
unfoldable pub hex_pairs : List ℕ → Option (List ℕ)
unfolding hex_byte
hex_pairs [] = some []
hex_pairs (c ∷ []) = none
hex_pairs (c ∷ (d ∷ rest)) = push_byte (hex_byte c d) (hex_pairs rest)

abbrev pub unless_empty : List ℕ → Option (List ℕ)
unless_empty [] = none
unless_empty (c ∷ rest) = hex_pairs (c ∷ rest)

unfoldable pub hex_decode : String → Option (List ℕ)
unfolding stripped hex_pairs
hex_decode hex = unless_empty (stripped hex)

abbrev pub or_else : {A : Type 0} → Option A → Option A → Option A
or_else (some a) other = some a
or_else none other = other

abbrev pub and_then : {A B : Type 0} → Option A → (A → Option B) → Option B
and_then (some a) f = f a
and_then none f = none

-- `iter().find_map`
abbrev pub find_map : {A B : Type 0} → (A → Option B) → List A → Option B
find_map f [] = none
find_map f (x ∷ xs) = or_else (f x) (find_map f xs)

abbrev pub picture_of : List ℕ → Option UserPicture
picture_of [] = none
picture_of (b ∷ bytes) = some (jpeg (b ∷ bytes))

module _ {V D : Type 0} (plist : PlistValues V D) (is_file : String → Bool) where
  unfoldable pub first_string : V → Option String
  first_string v = and_then (plist.as_array v) (find_map plist.as_string)

  -- A value with bytes, or with a text of hexadecimal digits.
  abbrev pub item_bytes : V → Option (List ℕ)
  item_bytes item = or_else (plist.as_data item) (and_then (plist.as_string item) hex_decode)

  unfoldable pub jpeg_from_dict : D → Option UserPicture
  unfolding hex_decode
  jpeg_from_dict dict =
      and_then (plist.get dict "dsAttrTypeStandard:JPEGPhoto")
        λ v. and_then (plist.as_array v) λ items. and_then (find_map item_bytes items) picture_of

  abbrev pub existing_file : String → Option UserPicture
  existing_file path = if path == "" then none else if is_file path then some (file path) else none

  unfoldable pub picture_path_from_dict : D → Option UserPicture
  unfolding first_string trim
  picture_path_from_dict dict =
      and_then (plist.get dict "dsAttrTypeStandard:Picture")
        λ v. and_then (first_string v) λ raw. existing_file (trim raw)

  abbrev pub attributes_of : Option D → Result UserAttributes
  attributes_of none = err (bail "dscl plist root is not a dict")
  attributes_of (some dict) = ok (record {
    home = and_then (plist.get dict "dsAttrTypeStandard:NFSHomeDirectory") first_string;
    picture = or_else (jpeg_from_dict dict) (picture_path_from_dict dict);
  })

  unfoldable pub parse_user_plist : String → Result UserAttributes
  unfolding first_string jpeg_from_dict picture_path_from_dict
  parse_user_plist bytes =
      plist.from_reader bytes >>= λ value. attributes_of (plist.as_dictionary value)

  -- From the output of `dscl` for the user.
  unfoldable pub read_user_attributes : Result Output → Result UserAttributes
  unfolding parse_user_plist
  read_user_attributes output = do
    o ← output
    ensure o.success (str_append "dscl -plist read failed: " o.stderr)
    parse_user_plist o.stdout
