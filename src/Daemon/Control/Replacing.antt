-- ===== src/Daemon/Control/Replacing.antt =====
-- Writing the configuration: `write_config_atomic` and SetConfig of crates/daemon/src/control/mod.rs.
use konstantin.Common.{
  ◌+◌, eq_iff, ℕ, String, ◌≡◌, ◌≢◌, ◌⊎◌, inl, inr, ◌∙◌, Bool, true, Option, none, some, arith,
  Bool-cases, ◌==◌, nat_eq, string_eq,
}
use konstantin.Common.Outcome.{Failure, Result, ok, err}
use konstantin.Common.Action.{lift, continue, ◌>>◌, >>=-cases, >>-cases, outcome_cases}
use konstantin.Common.Files.{Files, FileLaws, Paths}
use konstantin.Common.{Bool-cases}
use konstantin.Common.{inr}
use konstantin.Daemon.Control.Xpc.{is_success}
use konstantin.Daemon.Config.{Config, parse_toml}
use konstantin.Proto.Admin.{set_config, AdminResponse, enforcement_state, error}
use konstantin.Daemon.Control.{
  World, Controller, handle_authorized, handle, respond, report, tmp_name, replace_file,
  make_parent, write_config_atomic, kickstart_daemon_after_reply, system_config_path,
  validate_kill_switch_path,
}
use konstantin.Daemon.Control.Auth.{Operator}

module _ {Fs : Type 0} {files : Files Fs} (laws : FileLaws files) (paths : Paths)
    (pid : String) where
  -- How a file stands after it was replaced: with the new text and mode 0600 if that succeeded; with
  -- its old text or the whole new one if a step failed.
  abbrev pub IsWhole : String → String → String → Result (Unit {0}) × Fs → Type 0
  IsWhole path old text (ok _, fs) =
      (files.read_to_string fs path ≡ ok text) × (files.mode fs path ≡ some 0o600)
  IsWhole path old text (err e, fs) =
      (files.read_to_string fs path ≡ ok old) ⊎ (files.read_to_string fs path ≡ ok text)

  module _ (ext path old text : String) (apart : tmp_name files paths pid ext path ≢ path) where
    abbrev tmp : String
    tmp = tmp_name files paths pid ext path

    last_mode :
        (fs : Fs)
        → files.read_to_string fs path ≡ ok text
        → IsWhole path old text (files.set_mode path 0o600 fs)
    last_mode fs h =
        let kept = laws.read-set_mode path path 0o600 fs ∙ h in
        outcome_cases (IsWhole path old text) (files.set_mode path 0o600 fs)
          (λ _ e. (kept, laws.mode-set_mode path 0o600 fs e)) (λ _ _. inr kept)

    replace_file-IsWhole :
        (fs : Fs)
        → files.read_to_string fs path ≡ ok old
        → IsWhole path old text (replace_file files paths pid ext path text fs)
    unfolding replace_file
    replace_file-IsWhole fs h =
        let P = IsWhole path old text in
        let w1 = (files.write tmp text fs).1 in
        let old1 : files.read_to_string w1 path ≡ ok old =
          laws.read-write_ne tmp text path fs apart ∙ h in
        let w2 = (files.set_mode tmp 0o600 w1).1 in
        let old2 : files.read_to_string w2 path ≡ ok old =
          laws.read-set_mode tmp path 0o600 w1 ∙ old1 in
        >>-cases P (files.write tmp text) _ fs
          (λ written.
            >>-cases P (files.set_mode tmp 0o600) _ w1
              (λ _.
                >>-cases P (files.rename tmp path) _ w2
                  (λ moved. last_mode (files.rename tmp path w2).1 (
                    laws.read-rename tmp path w2 moved
                    ∙ laws.read-set_mode tmp tmp 0o600 w1
                    ∙ laws.read-write tmp text fs written))
                  (λ e failed. inl (laws.rename_err tmp path path w2 e failed ∙ old2)))
              (λ _ _. inl old2))
          (λ _ _. inl old1)

  read-make_parent :
      (parent : Option String) (path old : String) (fs : Fs)
      → files.read_to_string fs path ≡ ok old
      → files.read_to_string (make_parent files paths pid parent fs).1 path ≡ ok old
  read-make_parent none path old fs h = h
  read-make_parent (some dir) path old fs h = elim (Bool-cases (dir == "")) [
    | inl here ↦ rw here h
    | inr other ↦ rw other (laws.read-create_dir_all dir path old fs h)
  ]

  -- The configuration file is never torn: a write that succeeds leaves the new text with mode 0600,
  -- and one that fails, at whatever step, leaves the old text or the whole new one.
  pub write_config_atomic-IsWhole :
      (path old text : String) (fs : Fs)
      → tmp_name files paths pid "toml" path ≢ path
      → files.read_to_string fs path ≡ ok old
      → IsWhole path old text (write_config_atomic files paths pid path text fs)
  unfolding write_config_atomic
  write_config_atomic-IsWhole path old text fs apart h =
      let kept = read-make_parent (paths.parent path) path old fs h in
      >>-cases (IsWhole path old text) (make_parent files paths pid (paths.parent path)) _ fs
        (λ _. replace_file-IsWhole "toml" path old text apart _ kept) (λ _ _. inl kept)

module _ {Fs : Type 0} (files : Files Fs) (paths : Paths) (c : Controller) where
  -- A SetConfig whose text does not parse as a valid configuration is answered with an error and
  -- changes nothing.
  pub set_config_invalid :
      (operator : Operator) (toml : String) (e : Failure) (w : World Fs)
      → operator.allowed ≡ true
      → parse_toml c.from_str toml ≡ err e
      → handle files paths c operator (set_config toml) w ≡ (error (c.describe e), w)
  unfolding handle handle_authorized
  set_config_invalid operator toml e w granted bad = rw (granted, bad)

  -- A SetConfig whose text is a valid configuration with an unusable kill-switch path is answered
  -- with an error although the write went through: the files are those after the write, and for the
  -- system's configuration a restart is scheduled.
  pub set_config_bad_kill_switch :
      (operator : Operator) (toml : String) (cfg : Config) (e : Failure) (w : World Fs)
      → operator.allowed ≡ true
      → parse_toml c.from_str toml ≡ ok cfg
      → validate_kill_switch_path paths cfg.kill_switch_path ≡ err e
      → (write_config_atomic files paths c.process_id c.config_path toml w.fs).0 ≡ ok tt
      → let (answer, w') = handle files paths c operator (set_config toml) w in
        (answer ≡ error (c.describe e))
        × (w'.fs ≡ (write_config_atomic files paths c.process_id c.config_path toml w.fs).1)
        × (c.config_path ≡ system_config_path → w'.kickstarts ≡ w.kickstarts + 1)
  unfolding handle handle_authorized kickstart_daemon_after_reply
  set_config_bad_kill_switch operator toml cfg e w granted parsed bad written =
      ground (arith, granted, parsed, bad, written, eq_iff c.config_path system_config_path)

module _ {Fs : Type 0} {files : Files Fs} (laws : FileLaws files) (paths : Paths)
    (c : Controller) where
  -- After a SetConfig that did not fail.
  abbrev Configured : String → Result AdminResponse × World Fs → Type 0
  Configured toml (ok answer, w) =
      (cfg : Config) × (parse_toml c.from_str toml ≡ ok cfg)
      × (files.read_to_string w.fs c.config_path ≡ ok toml)
      × (files.mode w.fs c.config_path ≡ some 0o600)
  Configured toml (err e, w) = Unit {0}

  restarted :
      (toml : String) (cfg : Config) (w : World Fs)
      → parse_toml c.from_str toml ≡ ok cfg
      → files.read_to_string w.fs c.config_path ≡ ok toml
      → files.mode w.fs c.config_path ≡ some 0o600
      → Configured toml ((kickstart_daemon_after_reply files paths c >> report files paths c cfg) w)
  unfolding kickstart_daemon_after_reply
  restarted toml cfg w p r m = ground (arith, p, r, m)

  written_Configured :
      (toml old : String) (cfg : Config) (kickstarts : ℕ) (q : Result (Unit {0}) × Fs)
      → parse_toml c.from_str toml ≡ ok cfg
      → IsWhole laws paths c.process_id c.config_path old toml q
      → Configured toml (
          continue q.0
            (λ _. kickstart_daemon_after_reply files paths c >> report files paths c cfg)
            (record { fs = q.1; kickstarts = kickstarts }))
  written_Configured toml old cfg k (ok _, fs) p h = restarted toml cfg _ p h.0 h.1
  written_Configured toml old cfg k (err e, fs) p h = tt

  set_config-Configured :
      (toml old : String) (w : World Fs)
      → tmp_name files paths c.process_id "toml" c.config_path ≢ c.config_path
      → files.read_to_string w.fs c.config_path ≡ ok old
      → Configured toml (handle_authorized files paths c (set_config toml) w)
  unfolding handle_authorized
  set_config-Configured toml old w apart h =
      >>=-cases (Configured toml) (lift (parse_toml c.from_str toml)) _ w
        (λ cfg p.
          written_Configured toml old cfg w.kickstarts
            (write_config_atomic files paths c.process_id c.config_path toml w.fs) p
            (write_config_atomic-IsWhole laws paths c.process_id c.config_path old toml w.fs apart
              h))
        (λ _ _. tt)

  answered :
      (toml path : String) (paused : Bool) (q : Result AdminResponse × World Fs)
      → Configured toml q
      → (respond files paths c q).0 ≡ enforcement_state paused path
      → Configured toml (ok (respond files paths c q).0, (respond files paths c q).1)
  answered toml path paused (ok answer, w) h r = h
  answered toml path paused (err e, w) h r = cc

  -- When a SetConfig over a readable configuration is answered with a state, its text is a valid
  -- configuration and stands, whole and with mode 0600, in the configuration file.
  pub handle-set_config :
      (operator : Operator) (toml old path : String) (paused : Bool) (w : World Fs)
      → operator.allowed ≡ true
      → tmp_name files paths c.process_id "toml" c.config_path ≢ c.config_path
      → files.read_to_string w.fs c.config_path ≡ ok old
      → (handle files paths c operator (set_config toml) w).0 ≡ enforcement_state paused path
      → let w' = (handle files paths c operator (set_config toml) w).1 in
        (cfg : Config) × (parse_toml c.from_str toml ≡ ok cfg)
        × (files.read_to_string w'.fs c.config_path ≡ ok toml)
        × (files.mode w'.fs c.config_path ≡ some 0o600)
  unfolding handle
  handle-set_config operator toml old path paused w granted apart h r =
      let a = answered toml path paused _ (set_config-Configured toml old w apart h) in
      rw granted (a (rw granted at r))

  successful :
      (toml : String) (q : Result AdminResponse × World Fs)
      → Configured toml q
      → is_success (respond files paths c q).0 ≡ true
      → Configured toml (ok (respond files paths c q).0, (respond files paths c q).1)
  successful toml (ok answer, w) h r = h
  successful toml (err e, w) h r = absurd (ground (arith, r))

  -- When a SetConfig over a readable configuration is answered with anything but an error or a
  -- refusal, its text is valid and stands in the file, whole and with mode 0600.
  pub set_config-is_success :
      (operator : Operator) (toml old : String) (w : World Fs)
      → tmp_name files paths c.process_id "toml" c.config_path ≢ c.config_path
      → files.read_to_string w.fs c.config_path ≡ ok old
      → is_success (handle files paths c operator (set_config toml) w).0 ≡ true
      → let w' = (handle files paths c operator (set_config toml) w).1 in
        (cfg : Config) × (parse_toml c.from_str toml ≡ ok cfg)
        × (files.read_to_string w'.fs c.config_path ≡ ok toml)
        × (files.mode w'.fs c.config_path ≡ some 0o600)
  unfolding handle
  set_config-is_success operator toml old w apart h r = elim (Bool-cases operator.allowed) [
    | inl granted ↦
        let a = successful toml _ (set_config-Configured toml old w apart h) in
        rw granted (a (rw granted at r))
    | inr denied ↦ absurd (ground (arith, denied, r))
  ]
