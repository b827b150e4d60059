-- ===== src/Tray/Launch.antt =====
-- The start of the menu-bar program and the actions of its menu: `main`, `install::ensure_user_agent`
-- and `actions` of crates/tray/src/bin/tray.rs. What is logged is left out.
use konstantin.Common.{
  zero, suc, String, Bool, true, false, not, Option, none, some, List, [], ◌∷◌, if◌then◌else◌, ◌==◌,
  nat_eq, string_eq,
}
use konstantin.Common.Outcome.{other_kind, Failure, io, bail, Result, ok, err}
use konstantin.Common.Int.{ℤ, pos, negsuc}
use mathlib.Core.Option as Option
use Prim.Native.String.{◌++◌ as str_append}
use konstantin.Proto.Admin.{
  AdminRequest, reload_daemon, get_enforcement_state, set_enforcement_paused, AdminResponse, config,
  validation_ok, daemon_info, enforcement_state, done, unauthorized, error,
}
use konstantin.Tray.Bar.{
  Status, not_registered, enabled, requires_approval, not_found as missing, unknown,
  DaemonLifecycleState, unregistered, approval_required, enabled_healthy, enabled_missing_socket,
  enabled_missing_admin_endpoint, classify_daemon_lifecycle,
}
use konstantin.Tray.Bundle.{Source, bundled, dev_tree}
use konstantin.Tray.Install.{
  Desktop, admin_control_reachable, run_first_launch_install, maybe_run_admin_control_repair,
  maybe_refresh_daemon_version,
}
use konstantin.Tray.Services.{daemon_status, ensure_agent_registered}
use konstantin.Tray.Subscriber.{TrayState, query_enforcement_paused, toggled}

-- What the first arguments ask for.
pub data Invocation : Type 0 where
  schedule_uninstall run_tray : Invocation
  deferred_uninstall : String → Invocation

unfoldable pub invocation : List String → Result Invocation
invocation [] = ok run_tray
invocation (arg ∷ []) =
    if arg == "--schedule-uninstall-services"
    then ok schedule_uninstall
    else if arg == "--deferred-uninstall-services"
    then err (bail "missing deferred-uninstall ready path")
    else err (bail (str_append "unknown argument: " arg))
invocation (arg ∷ (ready ∷ rest)) =
    if arg == "--schedule-uninstall-services"
    then ok schedule_uninstall
    else if arg == "--deferred-uninstall-services"
    then ok (deferred_uninstall ready)
    else err (bail (str_append "unknown argument: " arg))

abbrev pub locked : ℤ → Bool → Result Bool
locked (pos zero) would_block = ok true
locked (pos (suc n)) would_block = if would_block then ok false else err (io other_kind)
locked (negsuc n) would_block = if would_block then ok false else err (io other_kind)

-- `acquire_instance_lock`: from the opening of the lock file, what `flock` returns, and whether the
-- system's error is EWOULDBLOCK. False is that another instance has the lock.
unfoldable pub acquire_instance_lock : Result (Unit {0}) → ℤ → Bool → Result Bool
acquire_instance_lock (ok _) rc would_block = locked rc would_block
acquire_instance_lock (err e) rc would_block = err e

-- The answer to ReloadDaemon.
unfoldable pub reload_result : (AdminResponse → String) → Result AdminResponse → Result (Unit {0})
reload_result show (ok done) = ok tt
reload_result show (ok (unauthorized reason)) = err (bail (str_append "Not authorized: " reason))
reload_result show (ok (error message)) = err (bail message)
reload_result show (ok (config text paused path)) =
    err (bail (str_append "unexpected admin response: " (show (config text paused path))))
reload_result show (ok validation_ok) =
    err (bail (str_append "unexpected admin response: " (show validation_ok)))
reload_result show (ok (daemon_info version)) =
    err (bail (str_append "unexpected admin response: " (show (daemon_info version))))
reload_result show (ok (enforcement_state paused path)) =
    err (bail (str_append "unexpected admin response: " (show (enforcement_state paused path))))
reload_result show (err e) = err e

-- The menu's actions; `send` is `AdminClient::send` over a world, `alert` shows a title and a text.
module _ {W : Type 0} (send : AdminRequest → W → Result AdminResponse × W)
    (show_response : AdminResponse → String) (describe : Failure → String) where
  abbrev pub set_to : Result Bool → W → Result Bool × W
  set_to (ok paused) w =
      let (answer, w') = send (set_enforcement_paused (not paused)) w in
      (query_enforcement_paused show_response answer, w')
  set_to (err e) w = (err e, w)

  -- The work of `toggle_enforcement`: the daemon is asked first, and told the opposite.
  unfoldable pub toggle_work : W → Result Bool × W
  unfolding query_enforcement_paused
  toggle_work w =
      let (answer, w') = send get_enforcement_state w in
      set_to (query_enforcement_paused show_response answer) w'

  abbrev pub toggle_end : Result Bool → TrayState → Option (String × String) × TrayState
  toggle_end (ok paused) t = (none, toggled paused t)
  toggle_end (err e) t = (some ("Couldn't update enforcement.", describe e), t)

  -- An alert, if one is shown, and the program's state after it.
  unfoldable pub toggle_enforcement : TrayState → W → (Option (String × String) × TrayState) × W
  unfolding toggle_work toggled
  toggle_enforcement t w = let (outcome, w') = toggle_work w in (toggle_end outcome t, w')

  abbrev pub reload_end : Result (Unit {0}) → Option (String × String)
  reload_end (ok _) = none
  reload_end (err e) = some ("Couldn't reload configuration.", describe e)

  unfoldable pub reload_configuration : W → Option (String × String) × W
  unfolding reload_result
  reload_configuration w =
      let (answer, w') = send reload_daemon w in
      (reload_end (reload_result show_response answer), w')

module _ {W : Type 0} (desktop : Desktop W) (version : String) (show : Status → String)
    (describe : Failure → String) where
  abbrev pub classified : Status → Bool × W → Result DaemonLifecycleState × W
  classified status (admin_reachable, w) =
      (ok (classify_daemon_lifecycle status true admin_reachable), w)

  abbrev pub lifecycle_of : Result Status → W → Result DaemonLifecycleState × W
  lifecycle_of (ok status) w =
      if desktop.socket_reachable w
      then classified status (admin_control_reachable desktop version show describe w)
      else (ok (classify_daemon_lifecycle status false false), w)
  lifecycle_of (err e) w = (err e, w)

  -- `install::daemon_lifecycle_state`
  unfoldable pub inspect_lifecycle : W → Result DaemonLifecycleState × W
  unfolding daemon_status admin_control_reachable classify_daemon_lifecycle
  inspect_lifecycle w = lifecycle_of (daemon_status desktop.services w) w

  abbrev pub agent_reported : Result Status × W → W
  agent_reported (ok enabled, w) = w
  agent_reported (ok requires_approval, w) =
      desktop.message "Login Startup Approval Needed"
        "Enable Konstantin in System Settings so its menu-bar app starts after login."
        (desktop.open_login_items_settings w)
  agent_reported (ok not_registered, w) = w
  agent_reported (ok missing, w) = w
  agent_reported (ok (unknown raw), w) = w
  agent_reported (err e, w) =
      desktop.message "Login Startup Setup Failed"
        (str_append "macOS couldn't register Konstantin's login agent.\n\n" (describe e)) w

  unfoldable pub ensure_user_agent : W → W
  unfolding ensure_agent_registered
  ensure_user_agent w = agent_reported (ensure_agent_registered desktop.services w)

  -- Whether the program goes on; it quits when the first setup is not completed.
  abbrev pub on_lifecycle : DaemonLifecycleState → W → Option (Bool × W)
  on_lifecycle unregistered w = run_first_launch_install desktop version show describe w
  on_lifecycle approval_required w = run_first_launch_install desktop version show describe w
  on_lifecycle enabled_healthy w =
      Option.map (λ w'. (true, w')) (maybe_refresh_daemon_version desktop version show describe w)
  on_lifecycle enabled_missing_socket w = some (true, w)
  on_lifecycle enabled_missing_admin_endpoint w =
      Option.map (λ w'. (true, w')) (maybe_run_admin_control_repair desktop version show describe w)

  abbrev pub state_or : Result DaemonLifecycleState → DaemonLifecycleState
  state_or (ok state) = state
  state_or (err e) = unregistered

  abbrev pub with_agent : Result Source → W → W
  with_agent (ok bundled) w = ensure_user_agent w
  with_agent (ok dev_tree) w = w
  with_agent (err e) w = w

  abbrev pub going_on : Bool × W → Bool × W
  going_on (false, w) = (false, w)
  going_on (true, w) = (true, with_agent (desktop.source w) w)

  -- `main` once the instance has its lock, up to the start of the threads; false quits before them.
  unfoldable pub launch : W → Option (Bool × W)
  unfolding inspect_lifecycle ensure_user_agent run_first_launch_install
      maybe_refresh_daemon_version maybe_run_admin_control_repair
  launch w =
      let (state, w') = inspect_lifecycle w in
      Option.map going_on (on_lifecycle (state_or state) w')
