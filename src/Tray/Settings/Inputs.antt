-- ===== src/Tray/Settings/Inputs.antt =====
-- The life of the settings window: `UI_HANDLE` and the actions of `ConfigController` in
-- crates/tray/src/bin/tray.rs, with what AppKit does before it calls them: a click flips the check
-- box and sends it to its action, and a text field takes typing only while it is enabled.
pub mod Matched
pub mod Untouched
use konstantin.Common.{
  ℕ, zero, suc, String, Bool, true, false, not, Option, none, some, List, [], ◌∷◌, map,
  if◌then◌else◌,
}
use konstantin.Common.Outcome.{Failure, Result, ok, err}
use konstantin.Proto.Admin.{AdminResponse}
use konstantin.Tray.Users.{LocalUser}
use konstantin.Tray.Settings.{TomlValues, Row, Snapshot, capture_snapshot}
use konstantin.Tray.Settings.Flow.{
  Window, Opened, fronted, opened, refused, SaveEnd, closed, alerted, no_window, open_window,
  save_flow,
}
use konstantin.Tray.Settings.Window.{Images, BuiltRow, build_window}

-- A row as the handle keeps it: its check box has a tag, and its field of minutes may be disabled.
pub record UiRow : Type 0 where
  pub tag : ℕ
  pub enabled : Bool
  pub row : Row

-- The handle of the one window; `visible` is what AppKit says of the window.
pub record UiHandle (V : Type 0) : Type 0 where
  pub visible : Bool
  pub config_value : V
  pub rows : List UiRow
  pub thresholds_text : String

abbrev pub kept_row : {I : Type 0} → BuiltRow I → UiRow
kept_row r = record { tag = r.limit_check.tag; enabled = r.enabled; row = r.row }

-- `setEnabled` on the field of the row at a position, if there is such a row.
unfoldable pub enable_at : ℕ → Bool → List UiRow → List UiRow
enable_at n on [] = []
enable_at zero on (r ∷ rest) = record r { enabled = on } ∷ rest
enable_at (suc n) on (r ∷ rest) = r ∷ enable_at n on rest

-- The sender of an action: its tag and its state.
unfoldable pub toggle_limit_action : Option (ℕ × Bool) → List UiRow → List UiRow
unfolding enable_at
toggle_limit_action none rows = rows
toggle_limit_action (some (tag, on)) rows = enable_at tag on rows

-- AppKit's part of a click on the check box at a position: the box that is flipped, as the sender.
abbrev pub flip_at : ℕ → List UiRow → List UiRow × Option (ℕ × Bool)
flip_at n [] = ([], none)
flip_at zero (r ∷ rest) = (
  record r { row = record r.row { checked = not r.row.checked } } ∷ rest,
  some (r.tag, not r.row.checked),
)
flip_at (suc n) (r ∷ rest) = let (rows, sender) = flip_at n rest in (r ∷ rows, sender)

unfoldable pub click_at : ℕ → List UiRow → List UiRow
unfolding toggle_limit_action
click_at n rows = let (flipped, sender) = flip_at n rows in toggle_limit_action sender flipped

unfoldable pub type_at : ℕ → String → List UiRow → List UiRow
type_at n text [] = []
type_at zero text (r ∷ rest) =
    (if r.enabled then record r { row = record r.row { minutes_text = text } } else r) ∷ rest
type_at (suc n) text (r ∷ rest) = r ∷ type_at n text rest

abbrev pub plain_rows : List UiRow → List Row
plain_rows [] = []
plain_rows (r ∷ rest) = r.row ∷ plain_rows rest

-- `close_and_clear`: the handle is taken and its window closed.
unfoldable pub close_and_clear : {V : Type 0} → Option (UiHandle V) → Option (UiHandle V)
close_and_clear ui = none

abbrev pub is_visible : {V : Type 0} → Option (UiHandle V) → Bool
is_visible none = false
is_visible (some h) = h.visible

-- What the window's user does, and the answer to GetConfig with the users when the menu opens it.
pub data Input : Type 0 where
  configure : Result (List LocalUser) → Result AdminResponse → Input
  click : ℕ → Input
  type_minutes : ℕ → String → Input
  type_thresholds : String → Input
  save_tapped cancel_tapped close_button : Input

module _ {V I W : Type 0} (toml : TomlValues V) (describe : Failure → String)
    (show : AdminResponse → String) (parse : String → Option ℕ) (images : Images I)
    (send : String → W → Result AdminResponse × W) where
  abbrev pub listed : Result (List LocalUser) → List LocalUser
  listed (ok users) = users
  listed (err e) = []

  abbrev pub handle_of : List LocalUser → Window V → UiHandle V
  handle_of users w =
      let built = build_window images users w.user_initials w.initial_thresholds in
      record {
        visible = true;
        config_value = w.config_value;
        rows = map kept_row built.rows;
        thresholds_text = built.thresholds_text;
      }

  abbrev pub after_open : List LocalUser → Opened V → Option (UiHandle V) → Option (UiHandle V)
  after_open users fronted ui = ui
  after_open users (opened w) ui = some (handle_of users w)
  after_open users (refused title text) ui = ui

  -- `open`: the handle is replaced wholesale.
  unfoldable pub open_handle :
      Result (List LocalUser) → Result AdminResponse → Option (UiHandle V) → Option (UiHandle V)
  unfolding open_window
  open_handle users response ui =
      after_open (listed users) (open_window toml describe show (is_visible ui) users response) ui

  unfoldable pub snapshot_of : Option (UiHandle V) → Option (Snapshot V)
  unfolding capture_snapshot
  snapshot_of none = none
  snapshot_of (some h) =
      some (capture_snapshot parse h.thresholds_text (plain_rows h.rows) h.config_value)

  abbrev pub after_save : SaveEnd → Option (UiHandle V) → Option (UiHandle V)
  after_save closed ui = close_and_clear ui
  after_save (alerted title text) ui = ui
  after_save no_window ui = ui

  unfoldable pub save_tapped_action : Option (UiHandle V) → W → Option (UiHandle V) × W
  unfolding snapshot_of close_and_clear
  save_tapped_action ui w =
      let (end, w') = save_flow toml describe show send (snapshot_of ui) w in
      (after_save end ui, w')

  abbrev pub on_handle : (UiHandle V → UiHandle V) → Option (UiHandle V) → Option (UiHandle V)
  on_handle f none = none
  on_handle f (some h) = some (f h)

  -- One input. The window's own close button leaves the handle where it is.
  unfoldable pub handle_input : Input → Option (UiHandle V) × W → Option (UiHandle V) × W
  unfolding open_handle save_tapped_action click_at type_at close_and_clear
  handle_input (configure users response) (ui, w) = (open_handle users response ui, w)
  handle_input (click n) (ui, w) = (on_handle (λ h. record h { rows = click_at n h.rows }) ui, w)
  handle_input (type_minutes n text) (ui, w) =
      (on_handle (λ h. record h { rows = type_at n text h.rows }) ui, w)
  handle_input (type_thresholds text) (ui, w) =
      (on_handle (λ h. record h { thresholds_text = text }) ui, w)
  handle_input save_tapped (ui, w) = save_tapped_action ui w
  handle_input cancel_tapped (ui, w) = (close_and_clear ui, w)
  handle_input close_button (ui, w) = (on_handle (λ h. record h { visible = false }) ui, w)

  unfoldable pub handle_inputs : List Input → Option (UiHandle V) × W → Option (UiHandle V) × W
  unfolding handle_input
  handle_inputs [] s = s
  handle_inputs (i ∷ rest) s = handle_inputs rest (handle_input i s)
