-- ===== src/Common/Words.antt =====
-- The text functions of `std` that the parsers use: lines, words and trimming, over the characters
-- of a `String`.
use Prim.Native.Char.{Char, code}
use Prim.Native.String.{String}
use konstantin.Common.{
  ℕ, String, ◌≡◌, refl, Bool, false, ◌&&◌, ◌||◌, Option, none, some, List, [], ◌∷◌, map, leb,
  nat_beq, if◌then◌else◌, ◌==◌, nat_eq, string_eq,
}

-- `char::is_whitespace`: the White_Space property of Unicode.
unfoldable pub is_whitespace : ℕ → Bool
is_whitespace c =
    (leb 9 c && leb c 13)
    || nat_beq c 32
    || nat_beq c 0x85
    || nat_beq c 0xa0
    || nat_beq c 0x1680
    || (leb 0x2000 c && leb c 0x200a)
    || nat_beq c 0x2028
    || nat_beq c 0x2029
    || nat_beq c 0x202f
    || nat_beq c 0x205f
    || nat_beq c 0x3000

-- A word that is not empty goes in front.
abbrev pub push_word : String → List String → List String
push_word w ws = if w == "" then ws else w ∷ ws

-- The word that the text begins with, and the words behind it.
unfoldable pub scan_words : String → String × List String
unfolding is_whitespace
scan_words String.[] = ("", [])
scan_words (String.◌∷◌ c s) =
    let (w, ws) = scan_words s in
    if is_whitespace (code c) then ("", push_word w ws) else (String.◌∷◌ c w, ws)

-- `str::split_whitespace`
unfoldable pub split_whitespace : String → List String
unfolding scan_words
split_whitespace s = push_word (scan_words s).0 (scan_words s).1

-- `str::trim_start`
unfoldable pub trim_start : String → String
unfolding is_whitespace
trim_start String.[] = ""
trim_start (String.◌∷◌ c s) = if is_whitespace (code c) then trim_start s else String.◌∷◌ c s

-- `str::trim_end`
unfoldable pub trim_end : String → String
unfolding is_whitespace
trim_end String.[] = ""
trim_end (String.◌∷◌ c s) =
    let rest = trim_end s in if rest == "" && is_whitespace (code c) then "" else String.◌∷◌ c rest

-- `str::trim`
unfoldable pub trim : String → String
unfolding trim_start trim_end
trim s = trim_end (trim_start s)

abbrev pub drop_cr : String → String
drop_cr String.[] = ""
drop_cr (String.◌∷◌ c s) =
    let rest = drop_cr s in if nat_beq (code c) 13 && s == "" then "" else String.◌∷◌ c rest

abbrev pub extend_line : Char → List String → List String
extend_line c [] = String.◌∷◌ c "" ∷ []
extend_line c (l ∷ ls) = String.◌∷◌ c l ∷ ls

unfoldable pub raw_lines : String → List String
raw_lines String.[] = []
raw_lines (String.◌∷◌ c s) =
    let rest = raw_lines s in if nat_beq (code c) 10 then "" ∷ rest else extend_line c rest

-- `str::lines`: a last empty line does not count, and a carriage return before the end goes too.
unfoldable pub lines : String → List String
unfolding raw_lines
lines s = map drop_cr (raw_lines s)

-- `str::strip_prefix`
unfoldable pub strip_prefix : String → String → Option String
strip_prefix String.[] s = some s
strip_prefix (String.◌∷◌ p ps) String.[] = none
strip_prefix (String.◌∷◌ p ps) (String.◌∷◌ c s) =
    if nat_beq (code p) (code c) then strip_prefix ps s else none

-- `str::contains` of a character.
unfoldable pub has_char : ℕ → String → Bool
has_char k String.[] = false
has_char k (String.◌∷◌ c s) = nat_beq (code c) k || has_char k s

words_test : split_whitespace " root\talice  bob\n" ≡ "root" ∷ "alice" ∷ "bob" ∷ []
unfolding split_whitespace
words_test = refl

lines_test : lines "a\r\n\n b" ≡ "a" ∷ "" ∷ " b" ∷ []
unfolding lines
lines_test = refl
