-- ===== src/Tray/Settings/Inputs/Untouched.antt =====
-- Saving a settings window that nobody has touched: crates/tray/src/bin/tray.rs.
use konstantin.Common.{
  ℕ, suc, String, ◌<◌, ◌≡◌, refl, sym, ap, ◌∙◌, false, Option, none, some, List, [], ◌∷◌, ◌++◌, map,
  arith, eq_iff, if◌then◌else◌, nat_eq, string_eq, u32_mod, Map, contains, lookup-insert_self,
  lookup-insert_ne,
}
use mathlib.Core.Option.{some-injective}
use konstantin.Common.Outcome.{ok}
use konstantin.Common.Int.{ℤ, pos}
use konstantin.Common.Decimal.{decimal}
use konstantin.Common.Decimal.Digits.{trim-decimal}
use konstantin.Common.Outcome.{Failure, Result}
use konstantin.Proto.Admin.{AdminResponse}
use konstantin.Tray.Users.{LocalUser}
use konstantin.Tray.Settings.{
  add_rows, TomlValues, RowSnapshot, Snapshot, user_setting, collect_user_settings,
  current_thresholds, get, table_of, integer_of, minutes_or_hour, integer_texts, setting_of_entry,
  new_config_value, capture_row, capture_snapshot,
}
use konstantin.Tray.Settings.Saved.{
  names, saved_table, new_config_value-saved_table, user_setting-new_config_value,
}
use konstantin.Tray.Settings.Flow.{Window, usernames}
use konstantin.Tray.Settings.Window.{Images, build_row, build_rows, build_window}
use konstantin.Tray.Settings.Inputs.{kept_row, plain_rows, handle_of, snapshot_of}
use konstantin.Tray.Settings.{join}
use konstantin.Tray.Settings.Thresholds.{ReadsBack, AllFit, parse_thresholds-join}

module _ {V I W : Type 0} (toml : TomlValues V) (describe : Failure → String)
    (show : AdminResponse → String) (parse : String → Option ℕ) (images : Images I)
    (send : String → W → Result AdminResponse × W) (law : ReadsBack parse) where
  abbrev setting_row : V → LocalUser → RowSnapshot
  setting_row v user = record {
    username = user.username;
    limited = (user_setting toml v user.username).limited;
    minutes = (user_setting toml v user.username).minutes;
  }

  -- The window as it opens on a configuration.
  abbrev pub window_for : List LocalUser → V → Window V
  window_for users v = record {
    initial_thresholds = current_thresholds toml v;
    user_initials = collect_user_settings toml (usernames toml describe show users) v;
    config_value = v;
  }

  minutes_or_hour-fit : (z : Option ℤ) → minutes_or_hour toml z < u32_mod
  minutes_or_hour-fit none = omega arith
  minutes_or_hour-fit (some z) = omega arith

  minutes_fit : (v : V) (name : String) → (user_setting toml v name).minutes < u32_mod
  unfolding user_setting
  minutes_fit v name = minutes_or_hour-fit (
      integer_of toml (
        get toml "daily_limit_minutes"
          (table_of toml (get toml name (table_of toml (get toml "users" (toml.as_table v)))))))

  captured-build_rows :
      (v : V) (height i y_top : ℕ) (users : List LocalUser)
      → map (capture_row parse) (
          plain_rows (
            map kept_row (
              build_rows images height i y_top users
                (collect_user_settings toml (usernames toml describe show users) v))))
        ≡ map (setting_row v) users
  unfolding build_rows build_row collect_user_settings
  captured-build_rows v height i y_top [] = refl
  captured-build_rows v height i y_top (user ∷ users) =
      rw
        (
          trim-decimal (user_setting toml v user.username).minutes,
          law (user_setting toml v user.username).minutes (minutes_fit v user.username),
        )
        (ap (λ rows. setting_row v user ∷ rows) (captured-build_rows v height (suc i) _ users))

  -- The thresholds of a configuration are whole numbers below 2 ^ 32.
  abbrev pub Thresholds : V → List ℕ → Type 0
  Thresholds v ns = (current_thresholds toml v ≡ join (map decimal ns)) × AllFit ns

  snapshot-untouched :
      (users : List LocalUser) (v : V) (ns : List ℕ)
      → Thresholds v ns
      → snapshot_of toml describe show parse images send
          (some (handle_of toml describe show parse images send users (window_for users v)))
        ≡ some (record { thresholds = ns; rows = map (setting_row v) users; config_value = v })
  unfolding snapshot_of capture_snapshot build_window
  snapshot-untouched users v ns (shown, fit) =
      rw (shown, parse_thresholds-join parse ns law fit, captured-build_rows v _ 0 _ users) refl

  names-setting_rows :
      (v : V) (users : List LocalUser)
      → names (map (setting_row v) users) ≡ usernames toml describe show users
  names-setting_rows v [] = refl
  names-setting_rows v (user ∷ users) = ap (λ ns. user.username ∷ ns) (names-setting_rows v users)

  map-middle :
      (v : V) (before after : List LocalUser) (user : LocalUser)
      → map (setting_row v) (before ++ user ∷ after)
        ≡ map (setting_row v) before ++ setting_row v user ∷ map (setting_row v) after
  map-middle v [] after user = refl
  map-middle v (b ∷ before) after user =
      ap (λ rows. setting_row v b ∷ rows) (map-middle v before after user)

  -- Who has no limit shows an hour.
  unlimited-setting :
      (entry : Option V)
      → record {
        limited = (setting_of_entry toml entry).limited;
        minutes =
            if (setting_of_entry toml entry).limited
            then (setting_of_entry toml entry).minutes
            else 60;
      }
        ≡ setting_of_entry toml entry
  unlimited-setting none = refl
  unlimited-setting (some e) = refl

  unlimited :
      (v : V) (name : String)
      → record {
        limited = (user_setting toml v name).limited;
        minutes =
            if (user_setting toml v name).limited then (user_setting toml v name).minutes else 60;
      }
        ≡ user_setting toml v name
  unfolding user_setting
  unlimited v name =
      unlimited-setting (get toml name (table_of toml (get toml "users" (toml.as_table v))))

  integer_texts-integers :
      (ns : List ℕ) → integer_texts toml (map (λ n. toml.integer (pos n)) ns) ≡ map decimal ns
  integer_texts-integers [] = refl
  integer_texts-integers (n ∷ ns) =
      rw (toml.as_integer-integer (pos n)) (ap (λ ts. decimal n ∷ ts) (integer_texts-integers ns))

  thresholds-saved_table :
      (snap : Snapshot V) (t : Map String V)
      → current_thresholds toml (saved_table toml snap t) ≡ join (map decimal snap.thresholds)
  unfolding current_thresholds
  thresholds-saved_table snap t = rw (toml.as_table-table _) (
      rw
        (
          lookup-insert_ne {K = String} "users" "warn_thresholds_minutes"
              (toml.table (add_rows toml snap.rows [])) _
              (λ e. cc ((eq_iff "users" "warn_thresholds_minutes").1 e)),
          lookup-insert_self {K = String} "warn_thresholds_minutes"
              (toml.array (map (λ n. toml.integer (pos n)) snap.thresholds)) t,
          toml.as_array-array (map (λ n. toml.integer (pos n)) snap.thresholds),
        )
        (ap join (integer_texts-integers snap.thresholds)))

  -- Let the window open on a configuration whose thresholds it shows as whole numbers below 2 ^ 32, and
  -- let `u32::from_str` read what `Display` writes. If Save is tapped at once and a new configuration
  -- is made, a window that opens on it shows the same thresholds, and the same setting of every
  -- user whose name no other listed user has.
  pub save-untouched :
      (before after : List LocalUser) (user : LocalUser) (v v' : V) (ns : List ℕ)
      (snap : Snapshot V)
      → contains (usernames toml describe show before) user.username ≡ false
      → contains (usernames toml describe show after) user.username ≡ false
      → Thresholds v ns
      → snapshot_of toml describe show parse images send (
          some (
            handle_of toml describe show parse images send
              (before ++ user ∷ after)
              (window_for (before ++ user ∷ after) v)))
        ≡ some snap
      → new_config_value toml snap ≡ ok v'
      → (user_setting toml v' user.username ≡ user_setting toml v user.username)
        × (current_thresholds toml v' ≡ current_thresholds toml v)
  save-untouched before after user v v' ns snap b a (shown, fit) taken saved =
      let users : List LocalUser = before ++ user ∷ after in
      let same = some-injective _ _ (sym (snapshot-untouched users v ns (shown, fit)) ∙ taken) in
      let from_rows : new_config_value toml
            (record { thresholds = ns; rows = map (setting_row v) users; config_value = v })
          ≡ ok v' =
        ap (new_config_value toml) same ∙ saved in
      let (c, t, e, made) = new_config_value-saved_table toml snap v' saved in
      (
        (user_setting-new_config_value toml (map (setting_row v) before) (map (setting_row v) after)
              (setting_row v user) ns v v' (rw (names-setting_rows v before) b)
              (rw (names-setting_rows v after) a)
              (rw (sym (map-middle v before after user)) from_rows)).0
            ∙ unlimited v user.username,
        rw made (thresholds-saved_table snap t)
            ∙ ap (λ (s : Snapshot V). join (map decimal s.thresholds)) (sym same)
            ∙ sym shown,
      )
