-- ===== src/Tray/Settings/Saved.antt =====
-- What the settings window writes, against what it shows: `build_new_config_toml` and
-- `collect_user_settings` of crates/tray/src/bin/tray.rs.
use konstantin.Common.{
  ℕ, String, ◌≤◌, ◌<◌, ◌≡◌, ◌≢◌, inl, inr, refl, sym, ap, ◌∙◌, true, false, Option, none, some,
  List, [], ◌∷◌, ◌++◌, map, arith, if◌then◌else◌, Bool-cases, Option-cases, nat_eq, string_eq, Map,
  lookup, insert, contains, lookup-insert_self, lookup-insert_ne, lookup-insert,
}
use konstantin.Common.Outcome.{ok, Result-cases}
use konstantin.Common.Int.{pos}
use konstantin.Tray.Settings.{
  TomlValues, check_minutes, RowSnapshot, Snapshot, check_rows, get, table_of, integer_of,
  minutes_or_hour, setting_of_entry, user_setting, entry_of, add_rows, new_config_value,
}

-- Every row that asks for a limit asks for 1 to 1440 minutes.
abbrev pub AllInRange : List RowSnapshot → Type 0
AllInRange [] = Unit {0}
AllInRange (r ∷ rest) = (r.limited ≡ true → (0 < r.minutes) × (r.minutes ≤ 1440)) × AllInRange rest

check_rows-AllInRange : (rows : List RowSnapshot) → check_rows rows ≡ ok tt → AllInRange rows
unfolding check_rows check_minutes
check_rows-AllInRange [] h = tt
check_rows-AllInRange (r ∷ rest) h = ground (arith, check_rows-AllInRange rest)

abbrev pub names : List RowSnapshot → List String
names [] = []
names (r ∷ rest) = r.username ∷ names rest

module _ {V : Type 0} (toml : TomlValues V) where
  lookup-add_rows :
      (rows : List RowSnapshot) (name : String) (m : Map String V)
      → contains (names rows) name ≡ false
      → lookup name (add_rows toml rows m) ≡ lookup name m
  unfolding add_rows contains
  lookup-add_rows [] name m h = refl
  lookup-add_rows (r ∷ rest) name m h =
      lookup-add_rows rest name _ (ground (arith, h))
      ∙ ground (arith, h, lookup-insert r.username name (entry_of toml r.minutes) m)

  add_rows-append :
      (xs ys : List RowSnapshot) (m : Map String V)
      → add_rows toml (xs ++ ys) m ≡ add_rows toml ys (add_rows toml xs m)
  unfolding add_rows
  add_rows-append [] ys m = refl
  add_rows-append (r ∷ xs) ys m = add_rows-append xs ys _

  -- The entry that a row leaves in the table, if no other row has its name.
  abbrev pub row_entry : RowSnapshot → Option V
  row_entry r = if r.limited then some (entry_of toml r.minutes) else none

  last_row :
      (before : List RowSnapshot) (r : RowSnapshot)
      → contains (names before) r.username ≡ false
      → lookup r.username (
          if r.limited
          then insert r.username (entry_of toml r.minutes) (add_rows toml before [])
          else add_rows toml before [])
        ≡ row_entry r
  unfolding lookup
  last_row before r b = elim (Bool-cases r.limited) [
    | inl t ↦
        rw t (lookup-insert_self r.username (entry_of toml r.minutes) (add_rows toml before []))
    | inr f ↦ rw f (lookup-add_rows before r.username [] b)
  ]

  lookup-row :
      (before after : List RowSnapshot) (r : RowSnapshot)
      → contains (names before) r.username ≡ false
      → contains (names after) r.username ≡ false
      → lookup r.username (add_rows toml (before ++ r ∷ after) []) ≡ row_entry r
  unfolding add_rows
  lookup-row before after r b a =
      ap (lookup r.username) (add_rows-append before (r ∷ after) [])
      ∙ lookup-add_rows after r.username _ a
      ∙ last_row before r b

  integer-entry_of :
      (minutes : ℕ)
      → integer_of toml
          (get toml "daily_limit_minutes" (table_of toml (some (entry_of toml minutes))))
        ≡ some (pos minutes)
  unfolding insert lookup
  integer-entry_of minutes = rw (toml.as_table-table _) (toml.as_integer-integer (pos minutes))

  setting-row :
      (r : RowSnapshot)
      → (r.limited ≡ true → (0 < r.minutes) × (r.minutes ≤ 1440))
      → setting_of_entry toml (row_entry r)
        ≡ record { limited = r.limited; minutes = if r.limited then r.minutes else 60 }
  setting-row r h = elim (Bool-cases r.limited) [
    | inl t ↦ rw t (
        ap (λ z. record { limited = true; minutes = minutes_or_hour toml z })
          (integer-entry_of r.minutes)
        ∙ ap (λ n. record { limited = true; minutes = n }) (ground (arith, h t)))
    | inr f ↦ rw f
  ]

  AllInRange-middle :
      (before after : List RowSnapshot) (r : RowSnapshot)
      → AllInRange (before ++ r ∷ after)
      → r.limited ≡ true
      → (0 < r.minutes) × (r.minutes ≤ 1440)
  AllInRange-middle [] after r h t = h.0 t
  AllInRange-middle (q ∷ before) after r h t = AllInRange-middle before after r h.1 t

  abbrev pub saved_table : Snapshot V → Map String V → V
  saved_table snap t = toml.table (
      insert "users" (toml.table (add_rows toml snap.rows [])) (
        insert "warn_thresholds_minutes"
          (toml.array (map (λ n. toml.integer (pos n)) snap.thresholds)) t))

  -- A value that is made is the old root table with the two keys replaced.
  pub new_config_value-saved_table :
      (snap : Snapshot V) (v : V)
      → new_config_value toml snap ≡ ok v
      → (check_rows snap.rows ≡ ok tt)
        × (t : Map String V) × (toml.as_table snap.config_value ≡ some t)
        × (v ≡ saved_table snap t)
  unfolding new_config_value
  new_config_value-saved_table snap v h = elim (Result-cases (check_rows snap.rows)) [
    | inl (tt, c) ↦ elim (Option-cases (toml.as_table snap.config_value)) [
      | inl e ↦ absurd (ground (arith, c, e, h))
      | inr (t, e) ↦ (c, t, e, ground (arith, c, e, h))
    ]
    | inr (f, c) ↦ absurd (ground (arith, c, h))
  ]

  -- Saving changes two keys of the configuration and no other: every key but the users and the
  -- thresholds has the value that it had in the configuration that the window opened.
  pub new_config_value-keeps :
      (snap : Snapshot V) (v : V) (key : String)
      → new_config_value toml snap ≡ ok v
      → key ≢ "users"
      → key ≢ "warn_thresholds_minutes"
      → get toml key (toml.as_table v) ≡ get toml key (toml.as_table snap.config_value)
  new_config_value-keeps snap v key h j k =
      let (c, t, e, same) = new_config_value-saved_table snap v h in
      rw (same, e, toml.as_table-table _)
        (lookup-insert_ne "users" key _ _ (λ p. j (sym p))
          ∙ lookup-insert_ne "warn_thresholds_minutes" key _ t (λ p. k (sym p)))

  pub users-saved_table :
      (snap : Snapshot V) (t : Map String V)
      → table_of toml (get toml "users" (toml.as_table (saved_table snap t)))
        ≡ some (add_rows toml snap.rows [])
  users-saved_table snap t = rw (toml.as_table-table _) (
      rw (lookup-insert_self {K = String} "users" (toml.table (add_rows toml snap.rows [])) _)
        (toml.as_table-table (add_rows toml snap.rows [])))

  -- What is saved is shown again: of a row whose name no other row has, the window that opens on the
  -- saved configuration shows the check mark, and the minutes if it is set, else an hour; and a limit
  -- that is saved is 1 to 1440 minutes.
  pub user_setting-new_config_value :
      (before after : List RowSnapshot) (r : RowSnapshot) (thresholds : List ℕ) (old v : V)
      → contains (names before) r.username ≡ false
      → contains (names after) r.username ≡ false
      → new_config_value toml
          (record { thresholds = thresholds; rows = before ++ r ∷ after; config_value = old })
        ≡ ok v
      → (user_setting toml v r.username
          ≡ record { limited = r.limited; minutes = if r.limited then r.minutes else 60 })
        × (r.limited ≡ true → (0 < r.minutes) × (r.minutes ≤ 1440))
  unfolding user_setting
  user_setting-new_config_value before after r thresholds old v b a h =
      let snap : Snapshot V = record {
        thresholds = thresholds;
        rows = before ++ r ∷ after;
        config_value = old;
      } in
      let (c, t, e, same) = new_config_value-saved_table snap v h in
      let range =
        AllInRange-middle before after r (check_rows-AllInRange (before ++ r ∷ after) c) in
      (
        rw (same, users-saved_table snap t, lookup-row before after r b a) (setting-row r range),
        range,
      )

  -- A user of the old configuration whom the window does not list has no limit in the saved one.
  pub user_setting-unlisted :
      (snap : Snapshot V) (v : V) (name : String)
      → new_config_value toml snap ≡ ok v
      → contains (names snap.rows) name ≡ false
      → (user_setting toml v name).limited ≡ false
  unfolding user_setting lookup
  user_setting-unlisted snap v name h n =
      let (c, t, e, same) = new_config_value-saved_table snap v h in
      rw (same, users-saved_table snap t, lookup-add_rows snap.rows name [] n)
