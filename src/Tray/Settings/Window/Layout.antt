-- ===== src/Tray/Settings/Window/Layout.antt =====
-- Where the widgets of the settings window are: crates/tray/src/bin/tray.rs.
use konstantin.Common.{
  ℕ, suc, String, ◌+◌, ◌-◌, ◌*◌, ◌≤◌, List, [], ◌∷◌, arith, nat_eq, string_eq, length,
}
use konstantin.Tray.Users.{LocalUser}
use konstantin.Tray.Settings.{InitialUserSetting}
use konstantin.Tray.Settings.Widgets.{Rect, row_height, row_gap}
use konstantin.Tray.Settings.Window.{
  Images, BuiltRow, Built, window_height, build_row, build_rows, build_window,
}

abbrev pub Inside : Rect → Rect → Type 0
Inside r outer = (r.x + r.width ≤ outer.width) × (r.y + r.height ≤ outer.height)

-- One frame ends at or below the place where another begins.
abbrev pub IsBelow : Rect → Rect → Type 0
IsBelow low high = low.y + low.height ≤ high.y

abbrev pub IsLeftOf : Rect → Rect → Type 0
IsLeftOf left right = left.x + left.width ≤ right.x

module _ {I : Type 0} where
  -- The widgets of a row are inside it, side by side, the role below the name.
  abbrev pub IsRow : BuiltRow I → Type 0
  IsRow r =
      Inside r.avatar_frame r.container
      × Inside r.name_frame r.container
      × Inside r.role_frame r.container
      × Inside r.limit_check_frame r.container
      × Inside r.minutes_frame r.container
      × IsLeftOf r.avatar_frame r.name_frame
      × IsLeftOf r.avatar_frame r.role_frame
      × IsBelow r.role_frame r.name_frame
      × IsLeftOf r.name_frame r.limit_check_frame
      × IsLeftOf r.role_frame r.limit_check_frame
      × IsLeftOf r.limit_check_frame r.minutes_frame

  -- The rows stand one below another: all below `top`, all above `bottom`.
  abbrev pub Stacked : Rect → Rect → List (BuiltRow I) → Type 0
  Stacked top bottom [] = IsBelow bottom top
  Stacked top bottom (r ∷ rest) =
      IsRow r
      × IsBelow r.container top
      × Stacked r.container bottom rest
      × (r.container.x + r.container.width ≤ 560)

  abbrev pub IsLaidOut : Built I → Type 0
  IsLaidOut b =
      Inside b.title b.content
      × Inside b.label b.content
      × Inside b.thresholds_frame b.content
      × Inside b.users_header b.content
      × Inside b.save b.content
      × IsBelow b.label b.title
      × IsBelow b.thresholds_frame b.title
      × IsLeftOf b.label b.thresholds_frame
      × IsBelow b.users_header b.label
      × IsBelow b.users_header b.thresholds_frame
      × Stacked b.users_header b.save b.rows
      × IsLeftOf b.cancel b.save

module _ {I : Type 0} (images : Images I) where
  IsRow-build_row :
      (i : ℕ) (user : LocalUser) (init : InitialUserSetting) (y : ℕ)
      → IsRow (build_row images i user init y)
  unfolding build_row
  IsRow-build_row i user init y = omega arith

  height_lem : (n : ℕ) → (202 + 48 * n ≤ window_height n) × (280 ≤ window_height n)
  unfolding window_height
  height_lem n = ground arith

  Stacked-build_rows :
      (height i y_top : ℕ) (top bottom : Rect) (users : List LocalUser)
      (initials : List InitialUserSetting)
      → y_top + 48 * length users + 72 ≤ height
      → height - y_top ≤ top.y
      → bottom.y + bottom.height ≤ 72
      → Stacked top bottom (build_rows images height i y_top users initials)
  unfolding build_rows build_row
  Stacked-build_rows height i y_top top bottom [] initials fits below above =
      omega (arith, fits, below, above)
  Stacked-build_rows height i y_top top bottom (user ∷ users) [] fits below above =
      omega (arith, fits, below, above)
  Stacked-build_rows height i y_top top bottom (user ∷ users) (init ∷ initials) fits below above = (
    IsRow-build_row i user init (height - y_top - row_height),
    omega (arith, fits, below),
    Stacked-build_rows height (suc i) (y_top + (row_height + row_gap)) _ bottom users initials
        (omega (arith, fits)) (omega (arith, fits)) above,
    omega arith,
  )

  -- Whatever users the window lists, every widget is inside the window, the thresholds are below the
  -- title, the users' heading below them, the rows one below another between the heading and the
  -- buttons, and in each row the picture, the names, the check box and the minutes side by side.
  pub build_window-IsLaidOut :
      (users : List LocalUser) (initials : List InitialUserSetting) (text : String)
      → IsLaidOut (build_window images users initials text)
  unfolding build_window
  build_window-IsLaidOut users initials text =
      let (fits, least) = height_lem (length users) in
      (
        (omega arith, omega (arith, least)),
        (omega arith, omega (arith, least)),
        (omega arith, omega (arith, least)),
        (omega arith, omega (arith, least)),
        (omega arith, omega (arith, least)),
        omega (arith, least),
        omega (arith, least),
        omega (arith, least),
        omega (arith, least),
        omega (arith, least),
        Stacked-build_rows (window_height (length users)) 0 130 _ _ users initials
            (omega (arith, fits)) (omega (arith, least)) (omega arith),
        omega arith,
      )
