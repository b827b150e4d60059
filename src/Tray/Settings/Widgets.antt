-- ===== src/Tray/Settings/Widgets.antt =====
-- The measures and the widget factories of the settings window: crates/tray/src/bin/tray.rs. A label, a check box or a
-- button is what the program sets of it.
use konstantin.Common.{ℕ, String, Bool, true, false, Option, none, some, nat_eq, string_eq}

-- A frame in the coordinates of its container, with y upwards. A length is a whole number of points,
-- which `f64` holds exactly.
pub record Rect : Type 0 where
  pub x : ℕ
  pub y : ℕ
  pub width : ℕ
  pub height : ℕ

abbrev pub window_width : ℕ
window_width = 580

abbrev pub side_margin : ℕ
side_margin = 20

abbrev pub row_height : ℕ
row_height = 44

abbrev pub row_gap : ℕ
row_gap = 4

abbrev pub avatar_size : ℕ
avatar_size = 32

abbrev pub field_height : ℕ
field_height = 22

abbrev pub button_height : ℕ
button_height = 32

abbrev pub title_block : ℕ
title_block = 30

abbrev pub thresholds_block : ℕ
thresholds_block = 28

abbrev pub users_header_block : ℕ
users_header_block = 24

-- A font of the system, bold or not, at a size, in the label's usual colour or the secondary one.
pub record Label : Type 0 where
  pub text : String
  pub bold : Bool
  pub size : Option ℕ
  pub secondary : Bool

-- The selectors of the window's controller.
pub data ConfigSelector : Type 0 where
  toggle_limit save_tapped cancel_tapped : ConfigSelector

pub record CheckBox : Type 0 where
  pub title : String
  pub action : ConfigSelector
  pub tag : ℕ
  pub on : Bool

pub record PushButton : Type 0 where
  pub title : String
  pub action : ConfigSelector
  pub key_equivalent : String

unfoldable pub make_title_label : String → Label
make_title_label text = record { text = text; bold = true; size = some 18; secondary = false }

unfoldable pub make_section_header : String → Label
make_section_header text = record { text = text; bold = true; size = some 13; secondary = false }

unfoldable pub make_label : String → Label
make_label text = record { text = text; bold = false; size = none; secondary = false }

unfoldable pub make_username_label : String → Label
make_username_label name = record { text = name; bold = true; size = some 13; secondary = false }

unfoldable pub make_role_label : String → Label
make_role_label text = record { text = text; bold = false; size = some 11; secondary = true }

unfoldable pub make_checkbox : String → ConfigSelector → ℕ → Bool → CheckBox
make_checkbox title action tag on = record { title = title; action = action; tag = tag; on = on }

-- A new button has no key.
unfoldable pub make_button : String → ConfigSelector → PushButton
make_button title action = record { title = title; action = action; key_equivalent = "" }
