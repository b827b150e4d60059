-- ===== src/Tests/Windows.antt =====
-- The settings window with its widgets, over the plain TOML values.
use konstantin.Common.{
  ℕ, zero, suc, String, ◌+◌, ◌-◌, ◌*◌, ◌/◌, ◌%◌, ◌<◌, ◌≡◌, inl, inr, refl, ap, ◌∙◌, true, false,
  Option, none, some, List, [], ◌∷◌, arith, ltb, if◌then◌else◌, Bool-cases, ◌==◌, nat_eq, string_eq,
  lookup, insert, contains, beq_ne,
}
use konstantin.Common.Outcome.{Result, ok}
use Prim.Native.Char.{code}
use konstantin.Common.Int.{pos}
use mathlib.Core.Path.{subst}
use konstantin.Common.Decimal.{digit, digits, decimal}
use konstantin.Common.Decimal.Digits.{IsWord, IsWord-decimal}
use konstantin.Proto.Admin.{AdminResponse, config, done}
use konstantin.Tray.Progress.{
  Caught, returned, ended, pumping, panel_up, finish_work, pump_slice, finishes, slices, starts,
  steps,
}
use konstantin.Tray.Progress.Returns.{Outcome, Reach-Outcome}
use konstantin.Common.{◌≢◌, refl}
use konstantin.Tray.Users.{LocalUser}
use konstantin.Tray.Settings.{
  TomlValues, InitialUserSetting, Snapshot, user_setting, current_thresholds, new_config_value,
  capture_snapshot, collect_user_settings, parse_thresholds, check_rows, add_rows,
}
use konstantin.Common.Words.{trim}
use konstantin.Tray.Settings.Thresholds.{ReadsBack}
use konstantin.Tray.Settings.Window.{Images, build_row, build_rows, build_window}
use konstantin.Tray.Settings.Inputs.{
  Input, configure, click, type_minutes, snapshot_of, handle_inputs,
}
use konstantin.Tray.Settings.Inputs.Matched.{IsMatched, handle_inputs-IsMatched}
use konstantin.Tray.Settings.Inputs.Untouched.{save-untouched}
use konstantin.Tests.Saving.{
  Toml, number, entries, entry, end, items, cons, nil, toml, untold, shown,
}

abbrev value : ℕ → String → ℕ
value acc String.[] = acc
value acc (String.◌∷◌ c s) = value (acc * 10 + (code c - 48)) s

-- A reader of decimals.
abbrev read_decimal : String → Option ℕ
read_decimal text = if text == "" then none else some (value 0 text)

code-digit : (n : ℕ) → n < 10 → code (digit n) ≡ 48 + n
unfolding digit
code-digit zero h = refl
code-digit (suc zero) h = refl
code-digit (suc (suc zero)) h = refl
code-digit (suc (suc (suc zero))) h = refl
code-digit (suc (suc (suc (suc zero)))) h = refl
code-digit (suc (suc (suc (suc (suc zero))))) h = refl
code-digit (suc (suc (suc (suc (suc (suc zero)))))) h = refl
code-digit (suc (suc (suc (suc (suc (suc (suc zero))))))) h = refl
code-digit (suc (suc (suc (suc (suc (suc (suc (suc zero)))))))) h = refl
code-digit (suc (suc (suc (suc (suc (suc (suc (suc (suc zero))))))))) h = refl
code-digit (suc (suc (suc (suc (suc (suc (suc (suc (suc (suc n)))))))))) h =
    absurd (omega (arith, h))

abbrev power : ℕ → ℕ
power zero = 1
power (suc f) = 10 * power f

value-digits : (f n : ℕ) (rest : String) → n < power f → value 0 (digits f n rest) ≡ value n rest
unfolding digits
value-digits zero n rest h = ap (λ m. value m rest) (omega (arith, h))
value-digits (suc f) n rest h = elim (Bool-cases (ltb n 10)) [
  | inl last ↦ rw last (ap (λ m. value m rest) (omega (arith, code-digit n (ground (arith, last)))))
  | inr more ↦ rw more (
      value-digits f (n / 10) _ (omega (arith, h))
      ∙ ap (λ m. value m rest) (omega (arith, code-digit (n % 10) (omega arith))))
]

IsWord-ne : (w : String) → IsWord w → (w == "") ≡ false
IsWord-ne w h = beq_ne {K = String} w "" (λ e. subst IsWord e h)

reads_back : ReadsBack read_decimal
unfolding decimal
reads_back n h =
    rw (IsWord-ne (decimal n) (IsWord-decimal n))
      (ap some (value-digits 20 n "" (omega (arith, h))))

abbrev no_images : Images (Unit {0})
no_images = record { of_file = λ p. none; of_bytes = λ bs. none; of_symbol = λ s. some tt }

abbrev person : String → LocalUser
person name = record {
  username = name;
  uid = 501;
  home = "/home";
  is_admin = false;
  picture = none;
}

abbrev setting : InitialUserSetting
setting = record { limited = true; minutes = 90 }

abbrev deaf : String → Unit {0} → Result AdminResponse × Unit {0}
deaf text w = (ok done, w)

-- A configuration that any text stands for, with a limit for carol and two thresholds.
abbrev listing : Toml
listing = entries (
    entry "users"
      (entries (entry "carol" (entries (entry "daily_limit_minutes" (number (pos 30)) end)) end))
      (entry "warn_thresholds_minutes" (items (cons (number (pos 5)) (cons (number (pos 1)) nil)))
        end))

abbrev readable : TomlValues Toml
readable = record toml { from_str = λ text. ok listing }

abbrev inputs : List Input
inputs =
    configure (ok (person "carol" ∷ person "bob" ∷ [])) (ok (config "x" false "/disable"))
    ∷ type_minutes 1 "15"
    ∷ click 1
    ∷ type_minutes 1 "20"
    ∷ click 0
    ∷ click 7
    ∷ []

handle_inputs-IsMatched_example :
    IsMatched (handle_inputs readable untold shown read_decimal no_images deaf inputs (none, tt)).0
handle_inputs-IsMatched_example =
    handle_inputs-IsMatched readable untold shown read_decimal no_images deaf inputs none tt tt

abbrev snap : Snapshot Toml
snap = record {
  thresholds = 5 ∷ 1 ∷ [];
  rows =
      record { username = "carol"; limited = true; minutes = 30 }
      ∷ record { username = "bob"; limited = false; minutes = 60 }
      ∷ [];
  config_value = listing;
}

save-untouched_example :
    (user_setting toml listing "carol" ≡ user_setting toml listing "carol")
    × (current_thresholds toml listing ≡ current_thresholds toml listing)
unfolding current_thresholds decimal snapshot_of capture_snapshot build_window build_rows build_row
    collect_user_settings user_setting lookup trim parse_thresholds new_config_value check_rows
    add_rows insert contains
save-untouched_example =
    save-untouched toml untold shown read_decimal no_images deaf reads_back [] (person "bob" ∷ [])
      (person "carol") listing listing (5 ∷ 1 ∷ []) snap refl refl
      (refl, (omega arith, (omega arith, tt))) refl refl

abbrev answered : Caught ℕ
answered = returned 5

-- The work returns 5 and the main thread looks once more.
Reach-Outcome_example :
    Outcome answered (pump_slice (finish_work answered panel_up))
    × (ended ≡ ended → (pump_slice (pump_slice (finish_work answered panel_up))).main ≢ pumping)
unfolding finish_work pump_slice
Reach-Outcome_example =
    Reach-Outcome answered (pump_slice (finish_work answered panel_up))
      (steps _ _ (steps _ _ starts (finishes refl)) (slices refl))
