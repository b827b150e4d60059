-- ===== src/Tray/Settings/Inputs/Matched.antt =====
-- The rows of the settings window stay matched: crates/tray/src/bin/tray.rs.
use konstantin.Common.{
  ℕ, zero, suc, String, ◌+◌, ◌≡◌, ◌⊎◌, inl, inr, refl, ap, Bool, not, Option, none, some, List, [],
  ◌∷◌, map, arith, Bool-cases, nat_eq, string_eq,
}
use konstantin.Common.Outcome.{Failure, Result}
use konstantin.Proto.Admin.{AdminResponse}
use konstantin.Tray.Users.{LocalUser}
use konstantin.Tray.Settings.{TomlValues, InitialUserSetting}
use konstantin.Tray.Settings.Flow.{
  fronted, opened, refused, closed, alerted, no_window, open_window, save_flow,
}
use konstantin.Tray.Settings.Window.{Images, build_row, build_rows, build_window}
use konstantin.Tray.Settings.Inputs.{
  UiRow, UiHandle, kept_row, enable_at, toggle_limit_action, flip_at, click_at, type_at,
  close_and_clear, Input, configure, click, type_minutes, type_thresholds, save_tapped,
  cancel_tapped, close_button, open_handle, snapshot_of, save_tapped_action, handle_input,
  handle_inputs, is_visible, listed, after_open, after_save,
}

-- From a position on, a row's check box has the position as its tag, and its field of minutes is
-- enabled exactly if the box is checked.
abbrev pub AllMatched : ℕ → List UiRow → Type 0
AllMatched i [] = Unit {0}
AllMatched i (r ∷ rest) = (r.tag ≡ i) × (r.enabled ≡ r.row.checked) × AllMatched (suc i) rest

abbrev pub IsMatched : {V : Type 0} → Option (UiHandle V) → Type 0
IsMatched none = Unit {0}
IsMatched (some h) = AllMatched 0 h.rows

-- A click on no row changes nothing; on a row, its sender's tag is the position, and enabling the
-- field at that position matches the rows again.
click_lem :
    (i n : ℕ) (rows : List UiRow)
    → AllMatched i rows
    → (((flip_at n rows).1 ≡ none) × ((flip_at n rows).0 ≡ rows))
      ⊎ ((on : Bool) × ((flip_at n rows).1 ≡ some (i + n, on))
          × AllMatched i (enable_at n on (flip_at n rows).0))
unfolding enable_at
click_lem i n [] h = inl (refl, refl)
click_lem i zero (r ∷ rest) h = inr (not r.row.checked, ground (arith, h.0), (h.0, refl, h.2))
click_lem i (suc n) (r ∷ rest) h = elim (click_lem (suc i) n rest h.2) [
  | inl (nobody, same) ↦ inl (nobody, ap (λ rows. r ∷ rows) same)
  | inr (on, sender, matched) ↦ inr (on, ground (arith, sender), (h.0, h.1, matched))
]

zero_add : (n : ℕ) → 0 + n ≡ n
zero_add n = omega arith

AllMatched-click_at :
    (n : ℕ) (rows : List UiRow) → AllMatched 0 rows → AllMatched 0 (click_at n rows)
unfolding click_at toggle_limit_action
AllMatched-click_at n rows h = elim (click_lem 0 n rows h) [
  | inl (nobody, same) ↦ rw (nobody, same) h
  | inr (on, sender, matched) ↦ rw (sender, zero_add n) matched
]

AllMatched-type_at :
    (i n : ℕ) (text : String) (rows : List UiRow)
    → AllMatched i rows
    → AllMatched i (type_at n text rows)
unfolding type_at
AllMatched-type_at i n text [] h = tt
AllMatched-type_at i zero text (r ∷ rest) h = elim (Bool-cases r.enabled) [
  | inl can ↦ rw can (h.0, ground (arith, can, h.1), h.2)
  | inr not ↦ rw not (h.0, ground (arith, not, h.1), h.2)
]
AllMatched-type_at i (suc n) text (r ∷ rest) h =
    (h.0, h.1, AllMatched-type_at (suc i) n text rest h.2)

module _ {V I W : Type 0} (toml : TomlValues V) (describe : Failure → String)
    (show : AdminResponse → String) (parse : String → Option ℕ) (images : Images I)
    (send : String → W → Result AdminResponse × W) where
  AllMatched-build_rows :
      (height i y_top : ℕ) (users : List LocalUser) (initials : List InitialUserSetting)
      → AllMatched i (map kept_row (build_rows images height i y_top users initials))
  unfolding build_rows build_row
  AllMatched-build_rows height i y_top [] initials = tt
  AllMatched-build_rows height i y_top (user ∷ users) [] = tt
  AllMatched-build_rows height i y_top (user ∷ users) (init ∷ initials) =
      (refl, refl, AllMatched-build_rows height (suc i) _ users initials)

  IsMatched-open_handle :
      (users : Result (List LocalUser)) (response : Result AdminResponse) (ui : Option (UiHandle V))
      → IsMatched ui
      → IsMatched (open_handle toml describe show parse images send users response ui)
  unfolding open_handle build_window
  IsMatched-open_handle users response ui h =
      elim (open_window toml describe show (is_visible ui) users response)
        as (λ o. IsMatched (
          after_open toml describe show parse images send
            (listed toml describe show parse images send users) o ui)) [
              | fronted ↦ h
              | opened w ↦ AllMatched-build_rows _ 0 _ _ _
              | refused title text ↦ h
            ]

  IsMatched-save :
      (ui : Option (UiHandle V)) (w : W)
      → IsMatched ui
      → IsMatched (save_tapped_action toml describe show parse images send ui w).0
  unfolding save_tapped_action close_and_clear
  IsMatched-save ui w h =
      elim (save_flow toml describe show send (snapshot_of toml describe show parse images send ui)
          w).0
        as (λ o. IsMatched (after_save toml describe show parse images send o ui)) [
          | closed ↦ tt
          | alerted title text ↦ h
          | no_window ↦ h
        ]

  IsMatched-handle_input :
      (i : Input) (ui : Option (UiHandle V)) (w : W)
      → IsMatched ui
      → IsMatched (handle_input toml describe show parse images send i (ui, w)).0
  unfolding handle_input close_and_clear
  IsMatched-handle_input (configure users response) ui w h =
      IsMatched-open_handle users response ui h
  IsMatched-handle_input (click n) none w h = tt
  IsMatched-handle_input (click n) (some u) w h = AllMatched-click_at n u.rows h
  IsMatched-handle_input (type_minutes n text) none w h = tt
  IsMatched-handle_input (type_minutes n text) (some u) w h = AllMatched-type_at 0 n text u.rows h
  IsMatched-handle_input (type_thresholds text) none w h = tt
  IsMatched-handle_input (type_thresholds text) (some u) w h = h
  IsMatched-handle_input save_tapped ui w h = IsMatched-save ui w h
  IsMatched-handle_input cancel_tapped ui w h = tt
  IsMatched-handle_input close_button none w h = tt
  IsMatched-handle_input close_button (some u) w h = h

  -- Whatever the user of the settings window does, from no window or from one with matched rows:
  -- every check box stays the one of its own row, and the field of minutes of a row can be edited
  -- exactly while the row's box is checked.
  pub handle_inputs-IsMatched :
      (inputs : List Input) (ui : Option (UiHandle V)) (w : W)
      → IsMatched ui
      → IsMatched (handle_inputs toml describe show parse images send inputs (ui, w)).0
  unfolding handle_inputs
  handle_inputs-IsMatched [] ui w h = h
  handle_inputs-IsMatched (i ∷ rest) ui w h =
      handle_inputs-IsMatched rest _ _ (IsMatched-handle_input i ui w h)
