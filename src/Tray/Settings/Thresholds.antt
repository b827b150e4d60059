-- ===== src/Tray/Settings/Thresholds.antt =====
-- The field of the thresholds in the settings window, read back: `current_thresholds` and
-- `parse_thresholds` of crates/tray/src/bin/tray.rs.
use konstantin.Common.{
  ℕ, String, ◌<◌, ◌≡◌, refl, ap, ◌∙◌, false, ◌||◌, Option, some, List, [], ◌∷◌, map, arith, ◌==◌,
  nat_eq, string_eq, u32_mod, beq_ne,
}
use Prim.Native.String.{◌++◌ as str_append}
use Prim.Native.String.append as append
use Prim.Native.Char.{Char, code}
use mathlib.Core.Path.{subst}
use text.Mathlib.TextLemmas.{append-nil}
use konstantin.Common.Outcome.{ok}
use konstantin.Common.Decimal.{decimal}
use konstantin.Common.Decimal.Digits.{
  IsDigit, AllDigits, AllDigits-decimal, IsWord, IsWord-decimal, whitespace-digit,
}
use konstantin.Common.Words.{is_whitespace, push_word}
use konstantin.Tray.Settings.{scan_pieces, parse_pieces, parse_thresholds, join}

-- `u32::from_str` reads what `Display` writes of a `u32`.
abbrev pub ReadsBack : (String → Option ℕ) → Type 0
ReadsBack parse = (n : ℕ) → n < u32_mod → parse (decimal n) ≡ some n

other_char : (c : Char) → IsDigit c → (code c == 44 || is_whitespace (code c)) ≡ false
other_char c h = ground (arith, h, whitespace-digit c h)

push_word-IsWord : (w : String) (ws : List String) → IsWord w → push_word w ws ≡ w ∷ ws
push_word-IsWord String.[] ws h = absurd h
push_word-IsWord (String.◌∷◌ c w) ws h =
    rw (beq_ne {K = String} (String.◌∷◌ c w) "" (λ e. subst IsWord e tt)) refl

scan-word :
    (w u : String)
    → AllDigits w
    → scan_pieces (str_append w u) ≡ (str_append w (scan_pieces u).0, (scan_pieces u).1)
unfolding scan_pieces
scan-word String.[] u h = rw (append.nil u, append.nil (scan_pieces u).0) refl
scan-word (String.◌∷◌ c w) u h =
    rw (append.cons c w u)
      (rw (other_char c h.0, scan-word w u h.1) (rw (append.cons c w (scan_pieces u).0) refl))

scan-last : (w : String) → AllDigits w → scan_pieces w ≡ (w, [])
unfolding scan_pieces
scan-last String.[] h = refl
scan-last (String.◌∷◌ c w) h = rw (other_char c h.0, scan-last w h.1) refl

abbrev pieces : String → List String
pieces text = push_word (scan_pieces text).0 (scan_pieces text).1

scan-comma : (text : String) → scan_pieces (str_append ", " text) ≡ ("", pieces text)
unfolding scan_pieces is_whitespace
scan-comma text = rw (append.cons "," " " text, append.cons " " "" text, append.nil text) refl

pieces-comma :
    (w text : String)
    → AllDigits w
    → IsWord w
    → pieces (str_append w (str_append ", " text)) ≡ w ∷ pieces text
unfolding scan_pieces
pieces-comma w text h k =
    rw (scan-word w (str_append ", " text) h)
      (rw (scan-comma text, append-nil w) (push_word-IsWord w (pieces text) k))

pieces-join : (ns : List ℕ) → pieces (join (map decimal ns)) ≡ map decimal ns
unfolding scan_pieces
pieces-join [] = refl
pieces-join (n ∷ []) =
    rw (scan-last (decimal n) (AllDigits-decimal n))
      (push_word-IsWord (decimal n) [] (IsWord-decimal n))
pieces-join (n ∷ m ∷ rest) =
    pieces-comma (decimal n) (join (map decimal (m ∷ rest))) (AllDigits-decimal n)
      (IsWord-decimal n)
    ∙ ap (λ ws. decimal n ∷ ws) (pieces-join (m ∷ rest))

abbrev pub AllFit : List ℕ → Type 0
AllFit [] = Unit {0}
AllFit (n ∷ rest) = (n < u32_mod) × AllFit rest

parse_pieces-decimals :
    (parse : String → Option ℕ) (ns : List ℕ)
    → ReadsBack parse
    → AllFit ns
    → parse_pieces parse (map decimal ns) ≡ ok ns
unfolding parse_pieces
parse_pieces-decimals parse [] law h = refl
parse_pieces-decimals parse (n ∷ rest) law h =
    rw (law n h.0, parse_pieces-decimals parse rest law h.1) refl

pub parse_thresholds-join :
    (parse : String → Option ℕ) (ns : List ℕ)
    → ReadsBack parse
    → AllFit ns
    → parse_thresholds parse (join (map decimal ns)) ≡ ok ns
unfolding parse_thresholds
parse_thresholds-join parse ns law h = rw (pieces-join ns) (parse_pieces-decimals parse ns law h)
