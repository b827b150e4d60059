-- ===== src/Tray/Uninstall.antt =====
-- Uninstalling with Homebrew: the helper process that waits until the bundle is gone and then
-- unregisters the services. crates/tray/src/bin/tray.rs. Instants are milliseconds; a round of a
-- loop reads the clock once.
pub mod Waiting
pub mod Removing
use konstantin.Common.{
  ℕ, String, ◌+◌, Bool, true, false, not, Option, none, some, List, leb, if◌then◌else◌, ◌==◌,
  nat_eq, string_eq, unwrap_or,
}
use konstantin.Common.Outcome.{not_found, other_kind, io, decoding, bail, Result, ok, err}
use konstantin.Common.Outcome as O
use konstantin.Common.Polling.{Verdict, stop, go, poll}
use konstantin.Proto.Admin.{
  AdminRequest, prepare_uninstall, AdminResponse, config, validation_ok, daemon_info,
  enforcement_state, done, unauthorized, error,
}
use konstantin.Tray.Services.{ServiceCalls, UnregisterHandles, unregister_handles, unregister}
use Prim.Native.String.{◌++◌ as str_append}

pub data BundleObservation : Type 0 where
  original replaced missing : BundleObservation

-- From the inode that `metadata` gives.
unfoldable pub observe_bundle : Result ℕ → ℕ → Result BundleObservation
observe_bundle (ok inode) original_inode =
    ok (if not (inode == original_inode) then replaced else original)
observe_bundle (err (io not_found)) original_inode = ok missing
observe_bundle (err (io other_kind)) original_inode = err (io other_kind)
observe_bundle (err decoding) original_inode = err decoding
observe_bundle (err (bail message)) original_inode = err (bail message)

-- How long the bundle has to be missing, and how long the helper waits for it.
abbrev pub missing_millis : ℕ
missing_millis = 20000

abbrev pub wait_millis : ℕ
wait_millis = 120000

abbrev pub pause_millis : ℕ
pause_millis = 250

abbrev pub since_missing : ℕ → ℕ → Verdict (Option ℕ) (Result Bool)
since_missing since now =
    if leb (since + missing_millis) now then stop (ok true) else go (some since)

-- A round of the wait; the state is `missing_since`.
abbrev pub on_observation :
    Option ℕ → ℕ → Result BundleObservation → Verdict (Option ℕ) (Result Bool)
on_observation missing_since now (ok replaced) = stop (ok false)
on_observation missing_since now (ok original) = go none
on_observation missing_since now (ok missing) = since_missing (unwrap_or now missing_since) now
on_observation missing_since now (err e) = stop (err e)

unfoldable pub watch_round : ℕ → Option ℕ → ℕ → Result ℕ → Verdict (Option ℕ) (Result Bool)
unfolding observe_bundle
watch_round original_inode missing_since now metadata =
    on_observation missing_since now (observe_bundle metadata original_inode)

-- The rounds are what `metadata` gives at the bundle's path from the start of the wait on.
unfoldable pub wait_for_bundle_removal : ℕ → ℕ → List (ℕ × Result ℕ) → Option (Result Bool)
unfolding watch_round
wait_for_bundle_removal original_inode start rounds =
    poll (watch_round original_inode) (start + wait_millis)
      (err (bail "timed out waiting for Homebrew to remove or replace the app bundle")) none rounds

-- A round of the wait for the helper: the file that says it is ready, and whether it has exited.
abbrev pub on_child : Result (Option String) → Verdict (Unit {0}) (Result (Unit {0}) × Bool)
on_child (err e) = stop (err e, false)
on_child (ok (some status)) =
    stop (err (bail (str_append "deferred uninstaller exited before it was ready: " status)), false)
on_child (ok none) = go tt

unfoldable pub start_round :
    Unit {0} → ℕ → Bool × Result (Option String) → Verdict (Unit {0}) (Result (Unit {0}) × Bool)
start_round _ now (ready, exited) = if ready then stop (ok tt, false) else on_child exited

-- The result, and whether the helper was killed. The first argument is the attempt to spawn it.
unfoldable pub schedule_uninstall_services :
    Result (Unit {0})
    → ℕ
    → List (ℕ × (Bool × Result (Option String)))
    → Option (Result (Unit {0}) × Bool)
unfolding start_round
schedule_uninstall_services (err e) start rounds = some (err e, false)
schedule_uninstall_services (ok _) start rounds =
    poll start_round (start + 5000) (err (bail "timed out starting deferred uninstaller"), true) tt
      rounds

-- The world outside the helper. A wait gives the instant of its start and what it sees.
pub record Helper (W : Type 0) : Type 0 where
  pub services : ServiceCalls W
  -- `bundle::Paths::resolve`: the root of the bundle, if the program runs from one.
  pub bundle_root : W → Result (Option String)
  pub metadata : String → W → Result ℕ
  pub write_ready : W → Result (Unit {0}) × W
  pub remove_ready : W → W
  pub watch : String → W → (ℕ × List (ℕ × Result ℕ)) × W
  pub send_with_timeout : AdminRequest → ℕ → W → Result AdminResponse × W

-- What the daemon's answer makes of the uninstallation; an unreachable daemon is no error.
-- `show` is the debug format of an answer.
unfoldable pub cleanup_result : (AdminResponse → String) → Result AdminResponse → Result (Unit {0})
cleanup_result show (ok done) = ok tt
cleanup_result show (ok (unauthorized reason)) =
    err (bail (str_append "not authorized to prepare uninstall: " reason))
cleanup_result show (ok (error message)) = err (bail message)
cleanup_result show (ok (config toml e p)) =
    err (bail (str_append "unexpected daemon response during uninstall: " (show (config toml e p))))
cleanup_result show (ok validation_ok) =
    err (bail (str_append "unexpected daemon response during uninstall: " (show validation_ok)))
cleanup_result show (ok (daemon_info v)) =
    err (bail (str_append "unexpected daemon response during uninstall: " (show (daemon_info v))))
cleanup_result show (ok (enforcement_state p u)) = err (
    bail
      (str_append "unexpected daemon response during uninstall: " (show (enforcement_state p u))))
cleanup_result show (err e) = ok tt

-- `ok_or_else`
abbrev pub bundle_of : Option String → Result String
bundle_of none = err (bail "deferred uninstall requires an app bundle")
bundle_of (some root) = ok root

module _ {W : Type 0} (helper : Helper W) (show : AdminResponse → String) where
  abbrev pub unregistered : Result (Unit {0}) → Result (Unit {0}) × W → Result (Unit {0}) × W
  unregistered cleanup (ok _, w) = (cleanup, w)
  unregistered cleanup (err e, w) = (err e, w)

  abbrev pub after_cleanup : UnregisterHandles → Result AdminResponse × W → Result (Unit {0}) × W
  after_cleanup handles (answer, w) =
      unregistered (cleanup_result show answer) (unregister helper.services handles w)

  -- The bundle is gone: the daemon prepares, and the services are unregistered even if it refuses.
  unfoldable pub remove_services : UnregisterHandles → W → Result (Unit {0}) × W
  unfolding cleanup_result unregister
  remove_services handles w =
      after_cleanup handles (helper.send_with_timeout (prepare_uninstall true) 10 w)

  abbrev pub after_wait :
      UnregisterHandles → W → Option (Result Bool) → Option (Result (Unit {0}) × W)
  after_wait handles w none = none
  after_wait handles w (some (err e)) = some (err e, w)
  after_wait handles w (some (ok false)) = some (ok tt, helper.remove_ready w)
  after_wait handles w (some (ok true)) = some (remove_services handles (helper.remove_ready w))

  abbrev pub watching :
      UnregisterHandles → ℕ → (ℕ × List (ℕ × Result ℕ)) × W → Option (Result (Unit {0}) × W)
  watching handles inode ((start, rounds), w) =
      after_wait handles w (wait_for_bundle_removal inode start rounds)

  abbrev pub once_ready :
      String → ℕ → UnregisterHandles → Result (Unit {0}) × W → Option (Result (Unit {0}) × W)
  once_ready root inode handles (ok _, w) = watching handles inode (helper.watch root w)
  once_ready root inode handles (err e, w) = some (err e, w)

  abbrev pub prepared :
      Result (String × (ℕ × UnregisterHandles)) → W → Option (Result (Unit {0}) × W)
  prepared (ok (root, (inode, handles))) w = once_ready root inode handles (helper.write_ready w)
  prepared (err e) w = some (err e, w)

  -- What is looked up while the bundle is still there.
  unfoldable pub preparation : W → Result (String × (ℕ × UnregisterHandles))
  unfolding unregister_handles
  preparation w = O.◌>>=◌ (helper.bundle_root w) λ found. O.◌>>=◌ (bundle_of found) λ root.
      O.◌>>=◌ (helper.metadata root w) λ inode.
        O.◌>>=◌ (unregister_handles helper.services w) λ handles. ok (root, (inode, handles))

  -- `none` is a wait that has not ended with the rounds.
  unfoldable pub deferred_uninstall_services : W → Option (Result (Unit {0}) × W)
  unfolding preparation remove_services wait_for_bundle_removal
  deferred_uninstall_services w = prepared (preparation w) w
