-- ===== src/Daemon/Control.antt =====
-- The admin control plane: crates/daemon/src/control/mod.rs. What a request changes is the file
-- system and the restarts of the daemon that it schedules.
pub mod Auth
pub mod Denied
pub mod Xpc
pub mod Dictionary
pub mod Replacing
pub mod Pausing
pub mod Listener
use Prim.Native.String.{◌++◌ as str_append}
use konstantin.Common.{
  ℕ, String, ◌+◌, ◌/◌, Bool, not, Option, none, some, if◌then◌else◌, ◌==◌, nat_eq, string_eq,
  unwrap_or,
}
use konstantin.Common.Outcome.{not_found, Failure, io, bail, Result, ok, err}
use konstantin.Common.Outcome as O
use konstantin.Common.Action.{Action, pure, fail, lift, reads, ◌>>=◌, ◌>>◌}
use konstantin.Common.Files.{Files, Paths}
use konstantin.Daemon.Config.{Config, RawConfig, parse_toml}
use konstantin.Proto.Admin.{
  AdminRequest, get_config, validate_config, set_config, reload_daemon, get_daemon_info,
  get_enforcement_state, set_enforcement_paused, prepare_uninstall, AdminResponse, config,
  validation_ok, daemon_info, enforcement_state, done, unauthorized, error,
}
use Auth.{Operator}

abbrev pub system_config_path : String
system_config_path = "/etc/screentimed/config.toml"

pub record World (Fs : Type 0) : Type 0 where
  pub fs : Fs
  pub kickstarts : ℕ

-- What the controller is built from: its path, the version of the crate, the process id in its
-- temporary names, the decoder of TOML and the text of an error.
pub record Controller : Type 0 where
  pub config_path : String
  pub version : String
  pub process_id : String
  pub from_str : String → Result RawConfig
  pub describe : Failure → String

-- A missing file is as good as a removed one.
abbrev pub unless_missing : Result (Unit {0}) → Result (Unit {0})
unless_missing (err (io not_found)) = ok tt
unless_missing r = r

abbrev pub has_parent : String → Option String → Result String
has_parent path none = err (bail (str_append "kill_switch_path must have a parent: " path))
has_parent path (some dir) = ok path

unfoldable pub validate_kill_switch_path : Paths → String → Result String
validate_kill_switch_path paths path =
    if path == ""
    then err (bail "kill_switch_path must not be empty")
    else if not (paths.is_absolute path)
    then err (bail (str_append "kill_switch_path must be absolute: " path))
    else has_parent path (paths.parent path)

module _ {Fs : Type 0} (files : Files Fs) where
  unfoldable pub remove_file_if_exists : String → Action Fs (Unit {0})
  remove_file_if_exists path fs =
      let (r, fs') = files.remove_file path fs in (unless_missing r, fs')

  unfoldable pub remove_dir_if_exists : String → Action Fs (Unit {0})
  remove_dir_if_exists path fs =
      let (r, fs') = files.remove_dir_all path fs in (unless_missing r, fs')

  unfoldable pub prepare_uninstall_files : Bool → Action Fs (Unit {0})
  unfolding remove_file_if_exists remove_dir_if_exists
  prepare_uninstall_files preserve_config = do
    remove_file_if_exists "/var/run/screentimed.sock"
    remove_dir_if_exists "/var/db/screentimed"
    if preserve_config then pure tt else remove_dir_if_exists "/etc/screentimed"

  unfoldable pub kill_switch_paused : Paths → Config → Fs → Result Bool
  unfolding validate_kill_switch_path
  kill_switch_paused paths cfg fs =
      O.◌>>=◌ (validate_kill_switch_path paths cfg.kill_switch_path)
        λ _. ok (files.path_exists fs cfg.kill_switch_path)

  module _ (paths : Paths) (process_id : String) where
    -- The temporary name beside a file: its extension, or a default, with the process id.
    unfoldable pub tmp_name : String → String → String
    tmp_name default_extension path = paths.with_extension path (
        str_append (unwrap_or default_extension (paths.extension path))
          (str_append ".tmp." process_id))

    -- Write beside the file with mode 0600, and move over it.
    unfoldable pub replace_file : String → String → String → Action Fs (Unit {0})
    unfolding tmp_name
    replace_file default_extension path text = do
      files.write (tmp_name default_extension path) text
      files.set_mode (tmp_name default_extension path) 0o600
      files.rename (tmp_name default_extension path) path
      files.set_mode path 0o600

    abbrev pub make_parent : Option String → Action Fs (Unit {0})
    make_parent none = pure tt
    make_parent (some dir) = if dir == "" then pure tt else files.create_dir_all dir

    unfoldable pub write_config_atomic : String → String → Action Fs (Unit {0})
    unfolding replace_file
    write_config_atomic path toml = do
      make_parent (paths.parent path)
      replace_file "toml" path toml

    abbrev pub marker_parent : Option String → Action Fs (Unit {0})
    marker_parent none = fail (bail "kill_switch_path unexpectedly has no parent")
    marker_parent (some dir) = files.create_dir_all dir

    unfoldable pub write_marker_atomic : String → Action Fs (Unit {0})
    unfolding replace_file
    write_marker_atomic path = do
      marker_parent (paths.parent path)
      replace_file "marker" path "disabled by Konstantin operator\n"

    unfoldable pub set_paused : Config → Bool → Action Fs (Unit {0})
    unfolding validate_kill_switch_path remove_file_if_exists write_marker_atomic
    set_paused cfg paused = do
      path ← lift (validate_kill_switch_path paths cfg.kill_switch_path)
      if paused then write_marker_atomic path else remove_file_if_exists path

module _ {Fs : Type 0} (files : Files Fs) (paths : Paths) (c : Controller) where
  -- A step that concerns the files only.
  abbrev pub on_files {ℓ} : {A : Type ℓ} → Action Fs A → Action (World Fs) A
  on_files m w = ((m w.fs).0, record w { fs = (m w.fs).1 })

  -- `Config::load`
  unfoldable pub load : Fs → Result Config
  load fs = O.◌>>=◌ (files.read_to_string fs c.config_path) (parse_toml c.from_str)

  -- The restart is scheduled, for the system daemon only, and runs after the reply.
  unfoldable pub kickstart_daemon_after_reply : Action (World Fs) (Unit {0})
  kickstart_daemon_after_reply w =
      if not (c.config_path == system_config_path)
      then (ok tt, w)
      else (ok tt, record w { kickstarts = w.kickstarts + 1 })

  abbrev pub paused_now : Config → Action (World Fs) Bool
  paused_now cfg w = (kill_switch_paused files paths cfg w.fs, w)

  -- The kill switch's state, as an answer.
  abbrev pub report : Config → Action (World Fs) AdminResponse
  report cfg = do paused ← paused_now cfg; pure (enforcement_state paused cfg.kill_switch_path)

  unfoldable pub handle_authorized : AdminRequest → Action (World Fs) AdminResponse
  unfolding load kill_switch_paused write_config_atomic kickstart_daemon_after_reply set_paused
      prepare_uninstall_files
  handle_authorized get_config = do
    toml ← reads (λ w. files.read_to_string w.fs c.config_path)
    cfg ← lift (parse_toml c.from_str toml)
    paused ← paused_now cfg
    pure (config toml paused cfg.kill_switch_path)
  handle_authorized (validate_config toml) = do
    cfg ← lift (parse_toml c.from_str toml)
    pure validation_ok
  handle_authorized (set_config toml) = do
    cfg ← lift (parse_toml c.from_str toml)
    on_files (write_config_atomic files paths c.process_id c.config_path toml)
    kickstart_daemon_after_reply
    report cfg
  handle_authorized reload_daemon = do
    cfg ← reads (λ w. load w.fs)
    kickstart_daemon_after_reply
    pure done
  handle_authorized get_daemon_info = pure (daemon_info c.version)
  handle_authorized get_enforcement_state = do cfg ← reads (λ w. load w.fs); report cfg
  handle_authorized (set_enforcement_paused paused) = do
    cfg ← reads (λ w. load w.fs)
    on_files (set_paused files paths c.process_id cfg paused)
    pure (enforcement_state paused cfg.kill_switch_path)
  handle_authorized (prepare_uninstall preserve_config) = do
    lift (
        if c.config_path == system_config_path
        then ok tt
        else err (bail "uninstall preparation is only available for the system daemon"))
    on_files (prepare_uninstall_files files preserve_config)
    pure done

  abbrev pub respond : Result AdminResponse × World Fs → AdminResponse × World Fs
  respond (ok resp, w) = (resp, w)
  respond (err e, w) = (error (c.describe e), w)

  unfoldable pub handle : Operator → AdminRequest → World Fs → AdminResponse × World Fs
  unfolding handle_authorized
  handle operator req w =
      if not operator.allowed
      then (unauthorized operator.reason, w)
      else respond (handle_authorized req w)
