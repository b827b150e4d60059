-- ===== src/Tray/Menu/Fresh.antt =====
-- The menu before the first status arrives: crates/tray/src/bin/tray.rs.
use konstantin.Common.{◌≡◌, refl, some, List, [], ◌∷◌, map, if◌then◌else◌, nat_eq, string_eq}
use konstantin.Tray.Subscriber.{initial}
use konstantin.Tray.Menu.{
  MenuItem, MenuEntry, entry, separator, build_status_item, click_item, perform, opens_settings,
  open_log, uninstall_flow, terminates,
}

abbrev enabled_actions : List MenuEntry → List MenuItem
enabled_actions [] = []
enabled_actions (separator ∷ rest) = enabled_actions rest
enabled_actions (entry item ∷ rest) =
    if item.enabled then item ∷ enabled_actions rest else enabled_actions rest

-- The menu starts as the timer's state says: the two items that need the daemon are disabled, under
-- the title that the state has. A click on any other item opens the settings, opens the log, tells
-- how to uninstall, or quits.
pub build_status_item-initial :
    (build_status_item.pause_enforcement_item.enabled ≡ initial.shown.controls_enabled)
    × (build_status_item.reload_item.enabled ≡ initial.shown.controls_enabled)
    × (build_status_item.pause_enforcement_item.title ≡ initial.shown.pause_title)
    × (map click_item (enabled_actions build_status_item.menu)
        ≡ some opens_settings ∷ some open_log ∷ some uninstall_flow ∷ some terminates ∷ [])
unfolding build_status_item click_item perform
build_status_item-initial = (refl, refl, refl, refl)
