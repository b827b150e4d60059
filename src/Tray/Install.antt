-- ===== src/Tray/Install.antt =====
-- Setting up and repairing the daemon's service: the module `install` of
-- crates/tray/src/bin/tray.rs. The desktop, the daemon and the services are a record of calls on a
-- world; what is logged is left out. A wait gives the instant of its start and what it sees.
pub mod Verified
use konstantin.Common.{
  ℕ, zero, suc, String, ◌+◌, ◌-◌, ◌/◌, Bool, true, false, not, ◌&&◌, Option, some, List, map,
  if◌then◌else◌, ◌==◌, nat_eq, string_eq,
}
use konstantin.Common.Outcome.{Failure, bail, Result, ok, err}
use mathlib.Core.Option as Option
use konstantin.Common.Polling.{Verdict, stop, go, poll}
use konstantin.Proto.Admin.{
  AdminRequest, get_daemon_info, AdminResponse, config, validation_ok, daemon_info,
  enforcement_state, done, unauthorized, error,
}
use konstantin.Tray.Bundle.{Source, bundled, dev_tree}
use konstantin.Tray.Bar.{
  Status, not_registered, enabled, requires_approval, not_found as missing, unknown,
}
use konstantin.Tray.Services.{
  ServiceCalls, daemon_status, register_daemon, refresh_daemon_registration,
}
use Prim.Native.String.{◌++◌ as str_append}

pub record Desktop (W : Type 0) : Type 0 where
  pub services : ServiceCalls W
  pub source : W → Result Source
  pub is_admin : W → Result Bool
  -- The title of an alert and whether its first button is chosen.
  pub confirm : String → W → Bool × W
  pub message : String → String → W → W
  pub open_login_items_settings : W → W
  pub socket_reachable : W → Bool
  pub send_with_timeout : AdminRequest → ℕ → W → Result AdminResponse × W
  pub pause : W → W
  pub watch_daemon : W → (ℕ × List (ℕ × (Bool × Result AdminResponse))) × W

-- Any answer of the handler's own shows that the endpoint works.
abbrev pub from_handler : Result AdminResponse → Bool
from_handler (ok (daemon_info version)) = true
from_handler (ok (unauthorized reason)) = true
from_handler (ok (config text paused path)) = false
from_handler (ok validation_ok) = false
from_handler (ok (enforcement_state paused path)) = false
from_handler (ok done) = false
from_handler (ok (error message)) = false
from_handler (err e) = false

abbrev pub is_enabled : Status → Bool
is_enabled enabled = true
is_enabled not_registered = false
is_enabled requires_approval = false
is_enabled missing = false
is_enabled (unknown raw) = false

abbrev pub has_version : String → Result AdminResponse → Bool
has_version expected (ok (daemon_info version)) = version == expected
has_version expected (ok (unauthorized reason)) = false
has_version expected (ok (config text paused path)) = false
has_version expected (ok validation_ok) = false
has_version expected (ok (enforcement_state paused path)) = false
has_version expected (ok done) = false
has_version expected (ok (error message)) = false
has_version expected (err e) = false

-- A round of the verification: whether the socket takes connections, and what GetDaemonInfo gives.
unfoldable pub verify_round :
    String
    → Status
    → Unit {0}
    → ℕ
    → Bool × Result AdminResponse
    → Verdict (Unit {0}) (Result Status)
verify_round version status _ now (socket, answer) =
    if socket && has_version version answer then stop (ok status) else go tt

unfoldable pub verify_rounds :
    String → Status → ℕ → List (ℕ × (Bool × Result AdminResponse)) → Option (Result Status)
unfolding verify_round
verify_rounds version status start rounds =
    poll (verify_round version status) (start + 15000)
      (err
        (bail "registered daemon did not expose the expected socket, version, and admin endpoint"))
      tt rounds

module _ {W : Type 0} (desktop : Desktop W) (version : String) (show : Status → String)
    (describe : Failure → String) where
  abbrev pub attempted : (W → Bool × W) → ℕ → Result AdminResponse × W → Bool × W
  attempted again left (answer, w) =
      if from_handler answer
      then (true, w)
      else if left == 0
      then (false, w)
      else again (desktop.pause w)

  unfoldable pub attempts : ℕ → W → Bool × W
  attempts zero w = (false, w)
  attempts (suc left) w =
      attempted (attempts left) left (desktop.send_with_timeout get_daemon_info 1 w)

  unfoldable pub admin_control_reachable : W → Bool × W
  unfolding attempts
  admin_control_reachable w = attempts 3 w

  abbrev pub verified :
      Status → (ℕ × List (ℕ × (Bool × Result AdminResponse))) × W → Option (Result Status × W)
  verified status (watch, w) =
      Option.map (λ r. (r, w)) (verify_rounds version status watch.0 watch.1)

  -- `none` is a wait that has not ended with the rounds.
  unfoldable pub verify_enabled_daemon : Status → W → Option (Result Status × W)
  unfolding verify_rounds
  verify_enabled_daemon status w =
      if not (is_enabled status)
      then some (ok status, w)
      else verified status (desktop.watch_daemon w)

  abbrev pub verifying : Result Status × W → Option (Result Status × W)
  verifying (ok status, w) = verify_enabled_daemon status w
  verifying (err e, w) = some (err e, w)

  unfoldable pub register_and_verify_daemon : W → Option (Result Status × W)
  unfolding verify_enabled_daemon register_daemon
  register_and_verify_daemon w = verifying (register_daemon desktop.services w)

  unfoldable pub refresh_and_verify_daemon : W → Option (Result Status × W)
  unfolding verify_enabled_daemon refresh_daemon_registration
  refresh_and_verify_daemon w = verifying (refresh_daemon_registration desktop.services w)

  -- What the user is told; the title and the text say what failed.
  abbrev pub reported : String → String → String → Result Status × W → Bool × W
  reported attention failed text (ok enabled, w) = (true, w)
  reported attention failed text (ok requires_approval, w) = (
    false,
    desktop.message "Approval Needed"
        "Enable Konstantin in System Settings, then open Konstantin again."
        (desktop.open_login_items_settings w),
  )
  reported attention failed text (ok not_registered, w) = (
    false,
    desktop.message attention
        (str_append "Unexpected ServiceManagement status: " (show not_registered)) w,
  )
  reported attention failed text (ok missing, w) = (
    false,
    desktop.message attention (str_append "Unexpected ServiceManagement status: " (show missing)) w,
  )
  reported attention failed text (ok (unknown raw), w) = (
    false,
    desktop.message attention
        (str_append "Unexpected ServiceManagement status: " (show (unknown raw))) w,
  )
  reported attention failed text (err e, w) =
      (false, desktop.message failed (str_append text (str_append "\n\n" (describe e))) w)

  unfoldable pub run_smappservice_install : W → Option (Bool × W)
  unfolding register_and_verify_daemon
  run_smappservice_install w =
      Option.map
        (reported "Konstantin install needs attention." "Konstantin install failed."
          "macOS couldn't register the bundled service with ServiceManagement.")
        (register_and_verify_daemon w)

  unfoldable pub run_smappservice_repair : W → Option (Bool × W)
  unfolding refresh_and_verify_daemon
  run_smappservice_repair w =
      Option.map
        (reported "Konstantin repair needs attention." "Konstantin repair failed."
          "macOS couldn't refresh the bundled service with ServiceManagement.")
        (refresh_and_verify_daemon w)

  -- The rest goes on from an app bundle only.
  abbrev pub from_bundle : String → (W → Option (Bool × W)) → Result Source → W → Option (Bool × W)
  from_bundle text rest (ok bundled) w = rest w
  from_bundle text rest (ok dev_tree) w = some (false, desktop.message "Build App First" text w)
  from_bundle text rest (err e) w =
      some (false, desktop.message "Could not locate bundled resources." (describe e) w)

  abbrev pub confirmed : String → (W → Option (Bool × W)) → Bool × W → Option (Bool × W)
  confirmed text rest (true, w) = from_bundle text rest (desktop.source w) w
  confirmed text rest (false, w) = some (false, w)

  unfoldable pub run_first_launch_install : W → Option (Bool × W)
  unfolding run_smappservice_install
  run_first_launch_install w =
      confirmed
        "Konstantin setup is only available from the packaged app bundle. For development, build the release binaries, run ./packaging/build-app.sh, then launch target/Konstantin.app."
        run_smappservice_install (desktop.confirm "Set up Konstantin" w)

  unfoldable pub run_admin_control_repair : W → Option (Bool × W)
  unfolding run_smappservice_repair
  run_admin_control_repair w =
      confirmed "Konstantin service repair is only available from the packaged app bundle."
        run_smappservice_repair (desktop.confirm "Repair Konstantin" w)

  abbrev pub ignored : Option (Bool × W) → Option W
  ignored = Option.map (λ q. q.1)

  abbrev pub repair_for : Result Bool → W → Option W
  repair_for (ok true) w = ignored (run_admin_control_repair w)
  repair_for (ok false) w = some w
  repair_for (err e) w = some w

  abbrev pub repair_with : Result Status → W → Option W
  repair_with (ok enabled) w = repair_for (desktop.is_admin w) w
  repair_with (ok requires_approval) w = some (
      desktop.message "Approval Needed"
        "Enable Konstantin in System Settings, then open Konstantin again."
        (desktop.open_login_items_settings w))
  repair_with (ok not_registered) w = some w
  repair_with (ok missing) w = some w
  repair_with (ok (unknown raw)) w = some w
  repair_with (err e) w = some w

  unfoldable pub maybe_run_admin_control_repair : W → Option W
  unfolding run_admin_control_repair daemon_status
  maybe_run_admin_control_repair w = repair_with (daemon_status desktop.services w) w

  abbrev pub refresh_from : Result Source → W → Option W
  refresh_from (ok bundled) w = ignored (run_smappservice_repair w)
  refresh_from (ok dev_tree) w = some w
  refresh_from (err e) w = some w

  abbrev pub refresh_for : Result AdminResponse × W → Option W
  refresh_for (ok (daemon_info running), w) =
      if running == version then some w else refresh_from (desktop.source w) w
  refresh_for (ok (unauthorized reason), w) = some w
  refresh_for (ok (config text paused path), w) = some w
  refresh_for (ok validation_ok, w) = some w
  refresh_for (ok (enforcement_state paused path), w) = some w
  refresh_for (ok done, w) = some w
  refresh_for (ok (error message), w) = some w
  refresh_for (err e, w) = some w

  unfoldable pub maybe_refresh_daemon_version : W → Option W
  unfolding run_smappservice_repair
  maybe_refresh_daemon_version w = refresh_for (desktop.send_with_timeout get_daemon_info 2 w)
