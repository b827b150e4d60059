-- ===== src/Tests/Saving.antt =====
-- The settings window over plain TOML values.
use konstantin.Common.{
  String, ◌≤◌, ◌<◌, ◌≡◌, refl, ap, true, false, Option, none, some, List, [], ◌∷◌, eq_iff, nat_eq,
  string_eq, Map, insert, contains,
}
use konstantin.Common.Outcome.{decoding, ok, err}
use konstantin.Common.Int.{ℤ, pos}
use konstantin.Tray.Settings.{
  TomlValues, RowSnapshot, Snapshot, get, user_setting, check_rows, add_rows, new_config_value,
}
use konstantin.Tray.Settings.Saved.{new_config_value-keeps, user_setting-new_config_value}
use konstantin.Proto.Admin.{AdminResponse}
use konstantin.Common.{lookup}
use konstantin.Common.Outcome.{Failure}
use konstantin.Common.Disk.{disk_laws, flat_paths, without}
use konstantin.Daemon.Config.{parse_toml}
use konstantin.Daemon.Control.{handle}
use konstantin.Tray.Settings.{build_new_config_toml}
use konstantin.Tray.Settings.Flow.{save_flow}
use konstantin.Tray.Settings.Flow.Installed.{ask, Installed, save_flow-Installed}
use konstantin.Tests.Admins.{controller, world, admin, apart}

abbrev pub untold : Failure → String
untold e = ""

abbrev pub shown : AdminResponse → String
shown r = ""

mutual
  pub data Toml : Type 0 where
    number : ℤ → Toml
    items : Tomls → Toml
    entries : Entries → Toml

  pub data Tomls : Type 0 where
    nil : Tomls
    cons : Toml → Tomls → Tomls

  pub data Entries : Type 0 where
    end : Entries
    entry : String → Toml → Entries → Entries

abbrev to_tomls : List Toml → Tomls
to_tomls [] = nil
to_tomls (v ∷ vs) = cons v (to_tomls vs)

abbrev of_tomls : Tomls → List Toml
of_tomls nil = []
of_tomls (cons v vs) = v ∷ of_tomls vs

abbrev to_entries : Map String Toml → Entries
to_entries [] = end
to_entries ((k, v) ∷ rest) = entry k v (to_entries rest)

abbrev of_entries : Entries → Map String Toml
of_entries end = []
of_entries (entry k v rest) = (k, v) ∷ of_entries rest

pub of-to_tomls : (vs : List Toml) → of_tomls (to_tomls vs) ≡ vs
of-to_tomls [] = refl
of-to_tomls (v ∷ vs) = ap (λ rest. v ∷ rest) (of-to_tomls vs)

pub of-to_entries : (m : Map String Toml) → of_entries (to_entries m) ≡ m
of-to_entries [] = refl
of-to_entries ((k, v) ∷ rest) = ap (λ m. (k, v) ∷ m) (of-to_entries rest)

abbrev table_view : Toml → Option (Map String Toml)
table_view (number z) = none
table_view (items vs) = none
table_view (entries m) = some (of_entries m)

abbrev array_view : Toml → Option (List Toml)
array_view (number z) = none
array_view (items vs) = some (of_tomls vs)
array_view (entries m) = none

abbrev integer_view : Toml → Option ℤ
integer_view (number z) = some z
integer_view (items vs) = none
integer_view (entries m) = none

abbrev pub toml : TomlValues Toml
toml = record {
  from_str = λ text. err decoding;
  to_string_pretty = λ v. ok "new";
  as_table = table_view;
  as_array = array_view;
  as_integer = integer_view;
  integer = number;
  array = λ vs. items (to_tomls vs);
  table = λ m. entries (to_entries m);
  as_table-table = λ m. ap some (of-to_entries m);
  as_array-array = λ vs. ap some (of-to_tomls vs);
  as_integer-integer = λ z. refl;
}

-- A tick of five seconds, and a limit for carol, who has no row.
abbrev old : Toml
old = entries (
    entry "tick_seconds" (number (pos 5)) (
      entry "users"
        (entries (entry "carol" (entries (entry "daily_limit_minutes" (number (pos 30)) end)) end))
        end))

abbrev alice_row : RowSnapshot
alice_row = record { username = "alice"; limited = true; minutes = 90 }

abbrev bob_row : RowSnapshot
bob_row = record { username = "bob"; limited = false; minutes = 0 }

abbrev snap : Snapshot Toml
snap = record { thresholds = 5 ∷ 1 ∷ []; rows = bob_row ∷ alice_row ∷ []; config_value = old }

abbrev saved : Toml
saved = entries (
    entry "tick_seconds" (number (pos 5)) (
      entry "users"
        (entries (entry "alice" (entries (entry "daily_limit_minutes" (number (pos 90)) end)) end))
        (entry "warn_thresholds_minutes" (items (cons (number (pos 5)) (cons (number (pos 1)) nil)))
          end)))

saves : new_config_value toml snap ≡ ok saved
unfolding new_config_value check_rows add_rows insert
saves = refl

new_config_value-keeps_example :
    get toml "tick_seconds" (toml.as_table saved) ≡ get toml "tick_seconds" (toml.as_table old)
new_config_value-keeps_example =
    new_config_value-keeps toml snap saved "tick_seconds" saves
      (λ e. cc ((eq_iff "tick_seconds" "users").1 e))
      (λ e. cc ((eq_iff "tick_seconds" "warn_thresholds_minutes").1 e))

user_setting-new_config_value_example :
    (user_setting toml saved "alice" ≡ record { limited = true; minutes = 90 })
    × (true ≡ true → (0 < 90) × (90 ≤ 1440))
unfolding contains
user_setting-new_config_value_example =
    user_setting-new_config_value toml (bob_row ∷ []) [] alice_row (5 ∷ 1 ∷ []) old saved refl refl
      saves

save_flow-Installed_example :
    Installed toml untold shown disk_laws flat_paths controller admin
      (build_new_config_toml toml snap)
      (save_flow toml untold shown
        (ask toml untold shown disk_laws flat_paths controller admin)
        (some snap)
        world).1
unfolding save_flow handle lookup insert without parse_toml build_new_config_toml new_config_value
    check_rows add_rows
save_flow-Installed_example =
    save_flow-Installed toml untold shown disk_laws flat_paths controller admin snap "old" world
      apart refl refl
