-- ===== src/Tests/Menus.antt =====
-- The menu-bar program over a system of two services.
use konstantin.Common.{
  ℕ, zero, suc, String, ◌+◌, ◌≡◌, ◌⊎◌, refl, ap, Bool, true, false, none, some, List, [], ◌∷◌,
  arith, nat_eq, string_eq, length,
}
use konstantin.Common.Outcome.{not_found, io, decoding, Result, ok, err}
use konstantin.Common.Int.{ℤ, pos}
use konstantin.Common.Polling.{Spaced, poll}
use konstantin.Proto.{UserStatus, active}
use konstantin.Proto.Admin.{AdminResponse, daemon_info}
use konstantin.Tray.Services.{
  ServiceCalls, completed, UnregisterHandles, unregister_handles, status_of, from_raw,
}
use konstantin.Tray.Services.Unregistering.{Absent, Framework}
use konstantin.Tray.Uninstall.{
  Helper, pause_millis, preparation, watch_round, observe_bundle, wait_for_bundle_removal,
  deferred_uninstall_services,
}
use konstantin.Tray.Uninstall.Removing.{
  deferred_uninstall_services-returns, GoneFromHere, registered-deferred_uninstall_services,
}
use konstantin.Tray.Services.{register_service, register_daemon, daemon_status}
use konstantin.Tray.Subscriber.{
  TrayState, Reading, initial, subscription_open, subscription_lost, on_update,
  maybe_refresh_enforcement_state, drain_read, drain_show, reads, shows, opens, loses, updates,
  here, next, Quietly, still, further,
}
use konstantin.Tray.Subscriber.Consistent.{IsConsistent, Reach-IsConsistent}
use konstantin.Tray.Subscriber.Shows.{Displays, Displays-on_update}
use konstantin.Tray.Bundle.{bundled}
use konstantin.Tray.Install.{
  Desktop, verify_round, verify_rounds, verify_enabled_daemon, register_and_verify_daemon,
  run_smappservice_install, run_first_launch_install,
}
use konstantin.Tray.Install.Verified.{SeenRunning, run_first_launch_install-SeenRunning}

record Registered : Type 0 where
  agent : Bool
  daemon : Bool

abbrev present : ℕ → Registered → Bool
present zero w = w.agent
present (suc n) w = w.daemon

abbrev remove : ℕ → Registered → Registered
remove zero w = record w { agent = false }
remove (suc n) w = record w { daemon = false }

abbrev add : ℕ → Registered → Registered
add zero w = record w { agent = true }
add (suc n) w = record w { daemon = true }

abbrev raw : Bool → ℤ
raw true = pos 1
raw false = pos 0

abbrev services : ServiceCalls Registered
services = record {
  daemon_service = λ w. ok 1;
  agent_service = λ w. ok 0;
  raw_status = λ h w. raw (present h w);
  register = λ h w. ((true, none), add h w);
  unregister_with_completion = λ h w. (completed none, remove h w);
}

abbrev both : Registered
both = record { agent = true; daemon = true }

removed : (h : ℕ) (w : Registered) → Absent (status_of services h (remove h w))
unfolding status_of from_raw
removed zero w = tt
removed (suc n) w = tt

kept :
    (h other : ℕ) (w : Registered)
    → Absent (status_of services other w)
    → Absent (status_of services other (remove h w))
unfolding status_of from_raw
kept zero zero w h = tt
kept zero (suc n) w h = h
kept (suc m) zero w h = h
kept (suc m) (suc n) w h = tt

framework : Framework services
framework = record { removes = removed; keeps_absent = kept }

abbrev handles : UnregisterHandles
handles = record { agent = 0; daemon = 1 }

-- Rounds a pause apart that all see the same.
abbrev every : ℕ → ℕ → Result ℕ → List (ℕ × Result ℕ)
every zero now seen = []
every (suc n) now seen = (now, seen) ∷ every n (now + pause_millis) seen

Spaced-every : (n now : ℕ) (seen : Result ℕ) → Spaced pause_millis now (every n now seen)
Spaced-every zero now seen = tt
Spaced-every (suc n) now seen = (omega arith, Spaced-every n (now + pause_millis) seen)

length-every : (n now : ℕ) (seen : Result ℕ) → length (every n now seen) ≡ n
length-every zero now seen = refl
length-every (suc n) now seen = ap suc (length-every n (now + pause_millis) seen)

abbrev helper : List (ℕ × Result ℕ) → Helper Registered
helper rounds = record {
  services = services;
  bundle_root = λ w. ok (some "/Applications/Konstantin.app");
  metadata = λ root w. ok 5;
  write_ready = λ w. (ok tt, w);
  remove_ready = λ w. w;
  watch = λ root w. ((0, rounds), w);
  send_with_timeout = λ r seconds w. (err decoding, w);
}

abbrev untold : AdminResponse → String
untold r = ""

deferred_uninstall_services-returns_example :
    (q : Result (Unit {0}) × Registered) × (deferred_uninstall_services
        (helper (every 481 0 (err (io not_found))))
        untold
        both
      ≡ some q)
deferred_uninstall_services-returns_example =
    deferred_uninstall_services-returns (helper (every 481 0 (err (io not_found)))) untold
      (λ root w. (
        Spaced-every 481 0 (err (io not_found)),
        omega (arith, length-every 481 0 (err (io not_found))),
      ))
      both

-- Another inode at the bundle's path: the bundle was replaced.
registered-deferred_uninstall_services_example :
    (both ≡ both)
    ⊎ GoneFromHere
        (helper ((0, ok 6) ∷ []))
        untold
        (λ w. w)
        (record { keeps_write = λ w. refl; keeps_remove = λ w. refl; keeps_watch = λ root w. refl })
        both
unfolding deferred_uninstall_services preparation unregister_handles wait_for_bundle_removal poll
    watch_round observe_bundle
registered-deferred_uninstall_services_example =
    registered-deferred_uninstall_services (helper ((0, ok 6) ∷ [])) untold (λ w. w)
      (record { keeps_write = λ w. refl; keeps_remove = λ w. refl; keeps_watch = λ root w. refl })
      both (ok tt, both) refl

abbrev minutes_left : UserStatus
minutes_left = record {
  uid = 501;
  username = "alice";
  state = active;
  daily_limit_seconds = 3_600;
  used_seconds = 3_000;
  remaining_seconds = pos 600;
  resets_at = 86_400;
  warn_thresholds_minutes = 5 ∷ [];
}

abbrev subscribed : TrayState
subscribed = subscription_open initial

open_is_open : subscribed.subscribed ≡ true
unfolding subscription_open
open_is_open = refl

Reach-IsConsistent_example : IsConsistent (subscription_lost (on_update minutes_left subscribed).1)
Reach-IsConsistent_example = Reach-IsConsistent (
    next
      (next (next here (opens initial refl))
        (updates (subscription_open initial) minutes_left (open_is_open)))
      (loses (on_update minutes_left (subscription_open initial)).1))

-- The timer takes the status and shows it, and looks once more.
abbrev arrived : TrayState
arrived = (on_update minutes_left subscribed).1

abbrev taken : Reading
taken = record { pending = some minutes_left; disconnected = false; enforcement_paused = none }

abbrev shown : TrayState
shown = drain_show taken 100 (drain_read arrived)

trace : Quietly 3 arrived (drain_read shown)
unfolding subscription_open on_update drain_read drain_show maybe_refresh_enforcement_state
trace =
    further (reads arrived refl)
      (further (shows (drain_read arrived) taken 100 refl) (further (reads shown refl) still))

connected : subscribed.latest.disconnected ≡ false
unfolding subscription_open
connected = refl

Displays-on_update_example : Displays minutes_left (drain_read shown)
Displays-on_update_example =
    Displays-on_update minutes_left subscribed (drain_read shown) 3 connected trace (omega arith)

abbrev desktop : Desktop Registered
desktop = record {
  services = services;
  source = λ w. ok bundled;
  is_admin = λ w. ok true;
  confirm = λ title w. (true, w);
  message = λ title text w. w;
  open_login_items_settings = λ w. w;
  socket_reachable = λ w. w.daemon;
  send_with_timeout = λ r seconds w. (ok (daemon_info "1.0"), w);
  pause = λ w. w;
  watch_daemon = λ w. ((0, (0, (w.daemon, ok (daemon_info "1.0"))) ∷ []), w);
}

abbrev absent : Registered
absent = record { agent = false; daemon = false }

run_first_launch_install-SeenRunning_example : SeenRunning desktop "1.0" (λ s. "") (λ e. "") absent
unfolding run_first_launch_install run_smappservice_install register_and_verify_daemon
    verify_enabled_daemon verify_rounds verify_round poll register_daemon register_service
    daemon_status status_of from_raw
run_first_launch_install-SeenRunning_example =
    run_first_launch_install-SeenRunning desktop "1.0" (λ s. "") (λ e. "") absent
      (record { agent = false; daemon = true }) refl
