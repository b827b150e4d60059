-- ===== src/Tray/Settings/Flow/Installed.antt =====
-- Saving in the settings window with the daemon behind it: crates/tray/src/bin/tray.rs and
-- crates/daemon/src/control/mod.rs.
use konstantin.Common.{String, ◌≡◌, ◌≢◌, refl, true, some, arith, nat_eq, string_eq}
use konstantin.Common.Outcome.{Failure, Result, ok, err}
use konstantin.Common.Files.{Files, FileLaws, Paths}
use konstantin.Proto.Admin.{
  AdminResponse, set_config, config, validation_ok, daemon_info, enforcement_state, done,
  unauthorized, error,
}
use konstantin.Daemon.Config.{Config, parse_toml}
use konstantin.Daemon.Control.{World, Controller, handle, tmp_name}
use konstantin.Daemon.Control.Auth.{Operator}
use konstantin.Daemon.Control.Replacing.{set_config-is_success}
use konstantin.Daemon.Control.Xpc.{is_success}
use konstantin.Tray.Settings.{TomlValues, Snapshot, build_new_config_toml}
use konstantin.Tray.Settings.Flow.{closed, save_end, send_text, save_flow}

module _ {V : Type 0} (toml : TomlValues V) (describe : Failure → String)
    (show : AdminResponse → String) where
  closed-is_success :
      (r : AdminResponse) → save_end toml describe show (ok r) ≡ closed → is_success r ≡ true
  closed-is_success (enforcement_state paused path) h = refl
  closed-is_success done h = refl
  closed-is_success (unauthorized reason) h = absurd (ground (arith, h))
  closed-is_success (error message) h = absurd (ground (arith, h))
  closed-is_success (config text paused path) h = refl
  closed-is_success validation_ok h = refl
  closed-is_success (daemon_info version) h = refl

  module _ {Fs : Type 0} {files : Files Fs} (laws : FileLaws files) (paths : Paths) (c : Controller)
      (operator : Operator) where
    -- SetConfig as the daemon answers it to the operator.
    abbrev pub ask : String → World Fs → Result AdminResponse × World Fs
    ask text w =
        let (answer, w') = handle files paths c operator (set_config text) w in (ok answer, w')

    -- A file that holds the text that the window made, valid, whole and with mode 0600.
    abbrev pub Installed : Result String → World Fs → Type 0
    Installed (ok text) w =
        (cfg : Config) × (parse_toml c.from_str text ≡ ok cfg)
        × (files.read_to_string w.fs c.config_path ≡ ok text)
        × (files.mode w.fs c.config_path ≡ some 0o600)
    Installed (err e) w = ⊥

    send_text-Installed :
        (r : Result String) (old : String) (w : World Fs)
        → tmp_name files paths c.process_id "toml" c.config_path ≢ c.config_path
        → files.read_to_string w.fs c.config_path ≡ ok old
        → (send_text toml describe show ask r w).0 ≡ closed
        → Installed r (send_text toml describe show ask r w).1
    send_text-Installed (ok text) old w apart h closes =
        set_config-is_success laws paths c operator text old w apart h
          (closed-is_success (handle files paths c operator (set_config text) w).0 closes)
    send_text-Installed (err e) old w apart h closes = absurd (ground (arith, closes))

    -- Over a configuration that can be read, with a temporary file of another name, the window closes
    -- after Save only when the daemon has installed exactly the text that was made
    -- of the window: the text is a valid configuration and stands, whole and with mode 0600, in the
    -- configuration file, whoever the operator is.
    pub save_flow-Installed :
        (snap : Snapshot V) (old : String) (w : World Fs)
        → tmp_name files paths c.process_id "toml" c.config_path ≢ c.config_path
        → files.read_to_string w.fs c.config_path ≡ ok old
        → (save_flow toml describe show ask (some snap) w).0 ≡ closed
        → Installed
            (build_new_config_toml toml snap)
            (save_flow toml describe show ask (some snap) w).1
    unfolding save_flow
    save_flow-Installed snap old w apart h closes =
        send_text-Installed (build_new_config_toml toml snap) old w apart h closes
