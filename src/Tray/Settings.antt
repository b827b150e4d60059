-- ===== src/Tray/Settings.antt =====
-- The settings window: the module `config_ui` of crates/tray/src/bin/tray.rs, without its
-- widgets. What a check box and a text field hold, the TOML values, `str::parse::<u32>` and the
-- daemon's answers are arguments. A table is an association list.
pub mod Saved
pub mod Flow
pub mod Widgets
pub mod Window
pub mod Inputs
pub mod Thresholds
use Prim.Native.String.{◌++◌ as str_append}
use Prim.Native.Char.{code}
use konstantin.Common.{
  ℕ, suc, String, ◌-◌, ◌%◌, ◌≡◌, Bool, true, false, not, ◌||◌, Option, none, some, List, [], ◌∷◌,
  map, ltb, if◌then◌else◌, ◌==◌, nat_eq, string_eq, unwrap_or, u32_mod, Map, lookup, insert,
}
use konstantin.Common.Outcome.{bail, Result, ok, err}
use konstantin.Common.Outcome.{◌>>=◌, ◌>>◌}
use konstantin.Common.Int.{ℤ, pos, negsuc, max_one}
use konstantin.Common.Decimal.{decimal}
use konstantin.Common.Words.{is_whitespace, push_word, trim}

-- `toml::Value`: the calls of the window, and what is read back of what was built.
pub record TomlValues (V : Type 0) : Type 0 where
  pub from_str : String → Result V
  pub to_string_pretty : V → Result String
  pub as_table : V → Option (Map String V)
  pub as_array : V → Option (List V)
  pub as_integer : V → Option ℤ
  pub integer : ℤ → V
  pub array : List V → V
  pub table : Map String V → V
  pub as_table-table : (m : Map String V) → as_table (table m) ≡ some m
  pub as_array-array : (vs : List V) → as_array (array vs) ≡ some vs
  pub as_integer-integer : (z : ℤ) → as_integer (integer z) ≡ some z

-- The pieces between commas and white space that are not empty: the one that is open, and the others.
unfoldable pub scan_pieces : String → String × List String
unfolding is_whitespace
scan_pieces String.[] = ("", [])
scan_pieces (String.◌∷◌ c s) =
    let (piece, pieces) = scan_pieces s in
    if code c == b',' || is_whitespace (code c)
    then ("", push_word piece pieces)
    else (String.◌∷◌ c piece, pieces)

abbrev pub push_number : String → Option ℕ → Result (List ℕ) → Result (List ℕ)
push_number tok none rest =
    err (bail (str_append "'" (str_append tok "' is not a non-negative whole number")))
push_number tok (some n) (ok ns) = ok (n ∷ ns)
push_number tok (some n) (err e) = err e

unfoldable pub parse_pieces : (String → Option ℕ) → List String → Result (List ℕ)
parse_pieces parse [] = ok []
parse_pieces parse (tok ∷ toks) =
    let rest = parse_pieces parse toks in push_number tok (parse tok) rest

unfoldable pub parse_thresholds : (String → Option ℕ) → String → Result (List ℕ)
unfolding scan_pieces parse_pieces
parse_thresholds parse text =
    parse_pieces parse (push_word (scan_pieces text).0 (scan_pieces text).1)

-- One row of the settings window, once a limit is asked for.
unfoldable pub check_minutes : String → Bool → ℕ → Result (Unit {0})
check_minutes username limited minutes =
    if not limited
    then ok tt
    else if minutes == 0
    then err
        (bail (str_append username ": minutes must be greater than 0 when 'Limit daily' is on"))
    else if ltb 1440 minutes
    then err (bail (str_append username ": minutes must be at most 1440 (24 hours)"))
    else ok tt

pub record RowSnapshot : Type 0 where
  pub username : String
  pub limited : Bool
  pub minutes : ℕ

pub record Snapshot (V : Type 0) : Type 0 where
  pub thresholds : List ℕ
  pub rows : List RowSnapshot
  pub config_value : V

pub record InitialUserSetting : Type 0 where
  pub limited : Bool
  pub minutes : ℕ

-- What the widgets of a row hold.
pub record Row : Type 0 where
  pub username : String
  pub checked : Bool
  pub minutes_text : String

abbrev pub or_empty : Result (List ℕ) → List ℕ
or_empty (ok ns) = ns
or_empty (err e) = []

-- A text that is no number counts as 0 minutes.
abbrev pub capture_row : (String → Option ℕ) → Row → RowSnapshot
capture_row parse r = record {
  username = r.username;
  limited = r.checked;
  minutes = unwrap_or 0 (parse (trim r.minutes_text));
}

-- `capture_snapshot`, of a window that is open.
unfoldable pub capture_snapshot :
    {V : Type 0} → (String → Option ℕ) → String → List Row → V → Snapshot V
unfolding parse_thresholds
capture_snapshot parse thresholds_text rows config_value = record {
  thresholds = or_empty (parse_thresholds parse thresholds_text);
  rows = map (capture_row parse) rows;
  config_value = config_value;
}

-- The first loop of `build_new_config_toml`.
unfoldable pub check_rows : List RowSnapshot → Result (Unit {0})
unfolding check_minutes
check_rows [] = ok tt
check_rows (r ∷ rest) = do check_minutes r.username r.limited r.minutes; check_rows rest

abbrev pub integer_text : ℤ → String
integer_text (pos n) = decimal n
integer_text (negsuc n) = str_append "-" (decimal (suc n))

-- `join(", ")`
abbrev pub join : List String → String
join [] = ""
join (t ∷ []) = t
join (t ∷ u ∷ rest) = str_append t (str_append ", " (join (u ∷ rest)))

abbrev pub with_text : Option ℤ → List String → List String
with_text (some z) rest = integer_text z ∷ rest
with_text none rest = rest

module _ {V : Type 0} (toml : TomlValues V) where
  abbrev pub get : String → Option (Map String V) → Option V
  get key none = none
  get key (some t) = lookup key t

  abbrev pub table_of : Option V → Option (Map String V)
  table_of none = none
  table_of (some v) = toml.as_table v

  abbrev pub array_of : Option V → Option (List V)
  array_of none = none
  array_of (some v) = toml.as_array v

  abbrev pub integer_of : Option V → Option ℤ
  integer_of none = none
  integer_of (some v) = toml.as_integer v

  abbrev pub is_some : Option V → Bool
  is_some none = false
  is_some (some v) = true

  abbrev pub integer_texts : List V → List String
  integer_texts [] = []
  integer_texts (v ∷ vs) = with_text (toml.as_integer v) (integer_texts vs)

  abbrev pub thresholds_text : Option (List V) → String
  thresholds_text (some vs) = join (integer_texts vs)
  thresholds_text none = "15, 5, 1"

  unfoldable pub current_thresholds : V → String
  current_thresholds cfg =
      thresholds_text (array_of (get "warn_thresholds_minutes" (toml.as_table cfg)))

  -- `n.max(1) as u32`, or an hour.
  abbrev pub minutes_or_hour : Option ℤ → ℕ
  minutes_or_hour (some z) = max_one z % u32_mod
  minutes_or_hour none = 60

  abbrev pub setting_of_entry : Option V → InitialUserSetting
  setting_of_entry entry = record {
    limited = is_some entry;
    minutes = minutes_or_hour (integer_of (get "daily_limit_minutes" (table_of entry)));
  }

  -- One round of `collect_user_settings`.
  unfoldable pub user_setting : V → String → InitialUserSetting
  user_setting cfg username =
      setting_of_entry (get username (table_of (get "users" (toml.as_table cfg))))

  unfoldable pub collect_user_settings : List String → V → List InitialUserSetting
  unfolding user_setting
  collect_user_settings usernames cfg = map (user_setting cfg) usernames

  abbrev pub entry_of : ℕ → V
  entry_of minutes = toml.table (insert "daily_limit_minutes" (toml.integer (pos minutes)) [])

  -- The second loop of `build_new_config_toml`, over the table that is being filled.
  unfoldable pub add_rows : List RowSnapshot → Map String V → Map String V
  add_rows [] users_table = users_table
  add_rows (r ∷ rest) users_table =
      add_rows rest
        (if r.limited then insert r.username (entry_of r.minutes) users_table else users_table)

  abbrev pub root_table : Option (Map String V) → Result (Map String V)
  root_table (some t) = ok t
  root_table none = err (bail "config root is not a table")

  -- The value that `build_new_config_toml` makes of a snapshot that passes its checks.
  unfoldable pub new_config_value : Snapshot V → Result V
  unfolding check_rows add_rows
  new_config_value snap = do
    check_rows snap.rows
    t ← root_table (toml.as_table snap.config_value)
    ok (
        toml.table (
          insert "users" (toml.table (add_rows snap.rows [])) (
            insert "warn_thresholds_minutes"
              (toml.array (map (λ n. toml.integer (pos n)) snap.thresholds)) t)))

  unfoldable pub build_new_config_toml : Snapshot V → Result String
  unfolding new_config_value
  build_new_config_toml snap = new_config_value snap >>= toml.to_string_pretty
