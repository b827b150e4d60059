-- ===== src/Tray/Menu.antt =====
-- The status item, its menu and the alerts of crates/tray/src/bin/tray.rs: `build_status_item`,
-- `apply_visual`, the handlers of `actions::Controller`, and the module `alerts`. What AppKit draws is
-- left out.
pub mod Fresh
use konstantin.Common.{
  ℕ, String, ◌/◌, Bool, true, false, Option, none, some, List, [], ◌∷◌, if◌then◌else◌, ◌==◌, nat_eq,
  string_eq, unwrap_or,
}
use konstantin.Tray.Bar.{StatusDisplay}

-- The selectors of the menu's items; the last one is the application's.
pub data Selector : Type 0 where
  toggle_enforcement_action reload_configuration_action configure_action : Selector
  open_log_action uninstall_action terminate : Selector

pub record MenuItem : Type 0 where
  pub title : String
  pub action : Selector
  pub has_controller : Bool
  pub key_equivalent : String
  pub enabled : Bool

pub data MenuEntry : Type 0 where
  entry : MenuItem → MenuEntry
  separator : MenuEntry

-- A new item is enabled.
unfoldable pub make_action_item : String → Selector → MenuItem
make_action_item title action = record {
  title = title;
  action = action;
  has_controller = true;
  key_equivalent = "";
  enabled = true;
}

-- The handles that the timer keeps, and the menu that holds them.
pub record Tray : Type 0 where
  pub pause_enforcement_item : MenuItem
  pub reload_item : MenuItem
  pub menu : List MenuEntry

unfoldable pub build_status_item : Tray
unfolding make_action_item
build_status_item =
    let pause = record (make_action_item "Pause Enforcement" toggle_enforcement_action) {
      enabled = false;
    } in
    let reload = record (make_action_item "Reload Configuration" reload_configuration_action) {
      enabled = false;
    } in
    let quit : MenuItem = record {
      title = "Quit";
      action = terminate;
      has_controller = false;
      key_equivalent = "q";
      enabled = true;
    } in
    record {
      pause_enforcement_item = pause;
      reload_item = reload;
      menu =
          entry pause
          ∷ entry reload
          ∷ separator
          ∷ entry (record (make_action_item "Configure…" configure_action) { enabled = true })
          ∷ entry (record (make_action_item "Open Log" open_log_action) { enabled = true })
          ∷ separator
          ∷ entry (record (make_action_item "Uninstall…" uninstall_action) { enabled = true })
          ∷ separator
          ∷ entry quit
          ∷ [];
    }

-- An image is a template, or has a colour of its own.
pub record Button (I : Type 0) : Type 0 where
  pub image : Option I
  pub template : Bool
  pub title : String
  pub red : Bool

module _ {I : Type 0} (symbol : String → Option I) (tinted : I → Option I) where
  abbrev pub with_image : Bool → Option I → Button I → Button I
  with_image disconnected none b = b
  with_image true (some base) b = record b {
    image = some (unwrap_or base (tinted base));
    template = false;
  }
  with_image false (some base) b = record b { image = some base; template = true }

  -- `apply_visual`; the status item may have no button.
  unfoldable pub apply_visual : Option (Button I) → Bool → StatusDisplay → Option (Button I)
  apply_visual none disconnected display = none
  apply_visual (some b) disconnected display =
      some (record (with_image disconnected (symbol "clock") b) {
        title = display.label;
        red = display.urgent;
      })

-- What a handler of the controller does: a request with its panel, the settings, a command, an alert.
pub data Performed : Type 0 where
  toggles_enforcement reloads_configuration opens_settings terminates : Performed
  runs : String → List String → Performed
  alerts : String → String → Performed

-- `open_log`
abbrev pub open_log : Performed
open_log = runs "/usr/bin/open" ("/var/log/screentimed.log" ∷ [])

-- `uninstall_flow`
abbrev pub uninstall_flow : Performed
uninstall_flow =
    alerts "Uninstall Konstantin with Homebrew"
      "Run `brew uninstall --cask konstantin` in Terminal.\n\nTo also remove configuration, logs, preferences, and counters, use `brew uninstall --cask --zap konstantin`."

-- The methods of `Controller`, and of the application.
unfoldable pub perform : Selector → Performed
perform toggle_enforcement_action = toggles_enforcement
perform reload_configuration_action = reloads_configuration
perform configure_action = opens_settings
perform open_log_action = open_log
perform uninstall_action = uninstall_flow
perform terminate = terminates

-- A click on an item that is disabled does nothing.
unfoldable pub click_item : MenuItem → Option Performed
unfolding perform
click_item item = if item.enabled then some (perform item.action) else none

pub record Alert : Type 0 where
  pub message_text : String
  pub informative_text : String
  pub buttons : List String

unfoldable pub make : String → String → List String → Alert
make message informative buttons = record {
  message_text = message;
  informative_text = informative;
  buttons = buttons;
}

-- `confirm`: the alert, and whether the first button ended it; `run_modal` gives 1000 for that one.
unfoldable pub confirm : (Alert → ℕ) → String → String → String → String → Bool
unfolding make
confirm run_modal title body primary secondary =
    run_modal (make title body (primary ∷ secondary ∷ [])) == 1000

-- `message`
unfoldable pub message : String → String → Alert
unfolding make
message title body = make title body ("OK" ∷ [])
