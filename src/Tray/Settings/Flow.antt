-- ===== src/Tray/Settings/Flow.antt =====
-- Opening and saving in the settings window: `open` and `save_flow` of the module `config_ui` of
-- crates/tray/src/bin/tray.rs. `show` is the debug format of an answer, `describe` the text of an
-- error.
pub mod Installed
use konstantin.Common.{String, Bool, Option, none, some, List, [], ◌∷◌, if◌then◌else◌}
use konstantin.Common.Outcome.{Failure, Result, ok, err}
use Prim.Native.String.{◌++◌ as str_append}
use konstantin.Proto.Admin.{AdminResponse, config, enforcement_state, done, unauthorized, error}
use konstantin.Tray.Users.{LocalUser}
use konstantin.Tray.Settings.{
  TomlValues, Snapshot, InitialUserSetting, current_thresholds, collect_user_settings,
  build_new_config_toml,
}

-- What the window shows once it is open.
pub record Window (V : Type 0) : Type 0 where
  pub initial_thresholds : String
  pub user_initials : List InitialUserSetting
  pub config_value : V

-- A window, or the title and the text of an alert.
pub data Opened (V : Type 0) : Type 0 where
  fronted : Opened V
  opened : Window V → Opened V
  refused : String → String → Opened V

-- What saving did to the window.
pub data SaveEnd : Type 0 where
  closed : SaveEnd
  alerted : String → String → SaveEnd
  no_window : SaveEnd

module _ {V : Type 0} (toml : TomlValues V) (describe : Failure → String)
    (show : AdminResponse → String) where
  abbrev pub config_text : Result AdminResponse → (String → Opened V) → Opened V
  config_text (ok (config text paused path)) next = next text
  config_text (ok (unauthorized reason)) next = refused "Administrator required." reason
  config_text (ok (error message)) next = refused "Couldn't read configuration." message
  config_text (ok other) next =
      refused "Couldn't read configuration."
        (str_append "Unexpected daemon response: " (show other))
  config_text (err e) next = refused "Couldn't read configuration." (describe e)

  abbrev pub usernames : List LocalUser → List String
  usernames [] = []
  usernames (u ∷ us) = u.username ∷ usernames us

  abbrev pub window_of : List LocalUser → Result V → Opened V
  window_of users (ok v) = opened (record {
    initial_thresholds = current_thresholds toml v;
    user_initials = collect_user_settings toml (usernames users) v;
    config_value = v;
  })
  window_of users (err e) = refused "Couldn't parse configuration." (describe e)

  abbrev pub open_for : Result (List LocalUser) → Result AdminResponse → Opened V
  open_for (err e) response = refused "Couldn't list users." (describe e)
  open_for (ok []) response = refused "No local users found." "Nothing to configure."
  open_for (ok (u ∷ us)) response =
      config_text response λ text. window_of (u ∷ us) (toml.from_str text)

  -- `open`: a window that is visible comes to the front. The users and the daemon's answer to
  -- GetConfig are asked for otherwise.
  unfoldable pub open_window : Bool → Result (List LocalUser) → Result AdminResponse → Opened V
  open_window already_visible users response =
      if already_visible then fronted else open_for users response

  abbrev pub save_end : Result AdminResponse → SaveEnd
  save_end (ok (enforcement_state paused path)) = closed
  save_end (ok done) = closed
  save_end (ok (unauthorized reason)) = alerted "Administrator required." reason
  save_end (ok (error message)) = alerted "Couldn't save settings." message
  save_end (ok other) =
      alerted "Couldn't save settings." (str_append "Unexpected daemon response: " (show other))
  save_end (err e) = alerted "Couldn't save settings." (describe e)

  -- A text that was made is sent with SetConfig, and only then; `send` is the daemon with its world.
  abbrev pub send_text {ℓ} :
      {W : Type ℓ} → (String → W → Result AdminResponse × W) → Result String → W → SaveEnd × W
  send_text send (ok text) w = (save_end (send text w).0, (send text w).1)
  send_text send (err e) w = (alerted "Invalid configuration" (describe e), w)

  unfoldable pub save_flow {ℓ} :
      {W : Type ℓ} → (String → W → Result AdminResponse × W) → Option (Snapshot V) → W → SaveEnd × W
  save_flow send none w = (no_window, w)
  save_flow send (some snap) w = send_text send (build_new_config_toml toml snap) w
