-- ===== src/Tray/Settings/Window.antt =====
-- The widgets of the settings window: `build_window` and `build_row` of crates/tray/src/bin/tray.rs.
pub mod Layout
use konstantin.Common.{
  ℕ, suc, String, ◌+◌, ◌-◌, ◌*◌, ◌/◌, Bool, Option, none, some, List, [], ◌∷◌, ltb, if◌then◌else◌,
  length,
}
use konstantin.Common.Decimal.{decimal}
use konstantin.Tray.Users.{LocalUser, UserPicture, file, jpeg}
use konstantin.Tray.Settings.Widgets.{
  Rect, window_width, side_margin, row_height, row_gap, avatar_size, field_height, button_height,
  title_block, thresholds_block, users_header_block, Label, toggle_limit, save_tapped,
  cancel_tapped, CheckBox, PushButton, make_title_label, make_section_header, make_label,
  make_username_label, make_role_label, make_checkbox, make_button,
}
use konstantin.Tray.Settings.{InitialUserSetting, Row}

-- The images of the system: of a file, of bytes, and of a symbol.
pub record Images (I : Type 0) : Type 0 where
  pub of_file : String → Option I
  pub of_bytes : List ℕ → Option I
  pub of_symbol : String → Option I

-- What the widgets of a row show and where they are. The tag of the check box tells the rows apart.
pub record BuiltRow (I : Type 0) : Type 0 where
  pub container : Rect
  pub avatar : Option I
  pub avatar_frame : Rect
  pub name_frame : Rect
  pub name_label : Label
  pub role_label : Label
  pub limit_check : CheckBox
  pub role_frame : Rect
  pub enabled : Bool
  pub row : Row
  pub limit_check_frame : Rect
  pub minutes_frame : Rect

-- The window, its parts from the top, and what stands in the field of the thresholds.
pub record Built (I : Type 0) : Type 0 where
  pub content : Rect
  pub title : Rect
  pub label : Rect
  pub thresholds_frame : Rect
  pub thresholds_text : String
  pub users_header : Rect
  pub labels : List Label
  pub buttons : List PushButton
  pub rows : List (BuiltRow I)
  pub cancel : Rect
  pub save : Rect

-- `f64::max`
abbrev at_least : ℕ → ℕ → ℕ
at_least a b = if ltb a b then b else a

-- The height of the window for a number of users.
unfoldable pub window_height : ℕ → ℕ
window_height n =
    let rows_block = at_least ((row_height + row_gap) * n - row_gap) 0 in
    let inner =
      title_block + 12 + thresholds_block + 16 + users_header_block + rows_block + 24
      + button_height in
    at_least (inner + 2 * side_margin) 280

module _ {I : Type 0} (images : Images I) where
  abbrev pub image_of : Option UserPicture → Option I
  image_of (some (file path)) = images.of_file path
  image_of (some (jpeg bytes)) = images.of_bytes bytes
  image_of none = none

  abbrev or_else : Option I → Option I → Option I
  or_else (some i) other = some i
  or_else none other = other

  -- The user's picture, or a symbol where there is none or it is no image.
  unfoldable pub load_avatar : LocalUser → Option I
  load_avatar user = or_else (image_of user.picture) (images.of_symbol "person.crop.circle.fill")

  unfoldable pub build_row : ℕ → LocalUser → InitialUserSetting → ℕ → BuiltRow I
  unfolding load_avatar make_username_label make_role_label make_checkbox
  build_row index user init row_y =
      let name_x = avatar_size + 12 in
      let limit_x = name_x + 160 in
      let limit_check = make_checkbox "Limit daily" toggle_limit index init.limited in
      record {
        container = record {
          x = side_margin;
          y = row_y;
          width = window_width - 2 * side_margin;
          height = row_height;
        };
        avatar = load_avatar user;
        avatar_frame = record {
          x = 0;
          y = (row_height - avatar_size) / 2;
          width = avatar_size;
          height = avatar_size;
        };
        name_frame = record { x = name_x; y = row_height / 2 + 1; width = 150; height = 18 };
        name_label = make_username_label user.username;
        role_label = make_role_label (if user.is_admin then "Admin" else "Standard");
        limit_check = limit_check;
        role_frame = record { x = name_x; y = row_height / 2 - 16; width = 150; height = 14 };
        enabled = init.limited;
        row = record {
          username = user.username;
          checked = limit_check.on;
          minutes_text = decimal init.minutes;
        };
        limit_check_frame = record {
          x = limit_x;
          y = (row_height - 22) / 2;
          width = 105;
          height = 22;
        };
        minutes_frame = record {
          x = limit_x + 105;
          y = (row_height - field_height) / 2;
          width = 54;
          height = field_height;
        };
      }

  -- The loop over the users and their settings: the index of the next row, and how far from the top
  -- it is.
  unfoldable pub build_rows :
      ℕ → ℕ → ℕ → List LocalUser → List InitialUserSetting → List (BuiltRow I)
  unfolding build_row
  build_rows height i y_top [] initials = []
  build_rows height i y_top (user ∷ users) [] = []
  build_rows height i y_top (user ∷ users) (init ∷ initials) =
      build_row i user init (height - y_top - row_height)
      ∷ build_rows height (suc i) (y_top + (row_height + row_gap)) users initials

  unfoldable pub build_window : List LocalUser → List InitialUserSetting → String → Built I
  unfolding window_height build_rows make_title_label make_label make_section_header make_button
  build_window users initials initial_thresholds =
      let height = window_height (length users) in
      let title_top = side_margin in
      let thresholds_top = title_top + (title_block + 12) in
      let header_top = thresholds_top + (thresholds_block + 16) in
      let rows_top = header_top + users_header_block in
      let thresholds_y = height - thresholds_top - thresholds_block in
      record {
        content = record { x = 0; y = 0; width = window_width; height = height };
        title = record {
          x = side_margin;
          y = height - title_top - title_block;
          width = window_width - 2 * side_margin;
          height = title_block;
        };
        label = record { x = side_margin; y = thresholds_y + 3; width = 340; height = 20 };
        thresholds_frame = record {
          x = window_width - side_margin - 160;
          y = thresholds_y + 2;
          width = 160;
          height = field_height;
        };
        thresholds_text = initial_thresholds;
        users_header = record {
          x = side_margin;
          y = height - header_top - users_header_block + 4;
          width = window_width - 2 * side_margin;
          height = 20;
        };
        labels =
            make_title_label "Konstantin Settings"
            ∷ make_label "Warn before limit (minutes, comma-separated):"
            ∷ make_section_header "Users"
            ∷ [];
        buttons =
            make_button "Cancel" cancel_tapped
            ∷ record (make_button "Save" save_tapped) { key_equivalent = "\r" }
            ∷ [];
        rows = build_rows height 0 rows_top users initials;
        cancel = record {
          x = window_width - side_margin - 200;
          y = side_margin;
          width = 90;
          height = button_height;
        };
        save = record {
          x = window_width - side_margin - 100;
          y = side_margin;
          width = 100;
          height = button_height;
        };
      }
