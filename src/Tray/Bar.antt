-- ===== src/Tray/Bar.antt =====
-- What the menu bar shows, and how it sees the daemon's service: crates/tray/src/bin/tray.rs.
pub mod Urgent
use Prim.Native.String.{◌++◌ as str_append}
use konstantin.Common.{String, Bool, true, false, not, ◌&&◌, ltb, if◌then◌else◌}
use konstantin.Common.Outcome.{Result, ok, err}
use konstantin.Common.Int.{ℤ, pos, negsuc}
use konstantin.Proto.{
  SessionState, active, paused, limit_reached, offline, not_configured, UserStatus,
}
use konstantin.Tray.Client.{format_remaining}

pub record StatusDisplay : Type 0 where
  pub label : String
  pub urgent : Bool

abbrev pub below_minute : ℤ → Bool
below_minute (pos n) = ltb n 60
below_minute (negsuc n) = false

abbrev pub display_state : ℤ → SessionState → StatusDisplay
display_state remaining not_configured = record { label = ""; urgent = false }
display_state remaining offline = record { label = "offline"; urgent = false }
display_state remaining limit_reached = record { label = "0s"; urgent = true }
display_state remaining active = record {
  label = format_remaining remaining;
  urgent = below_minute remaining;
}
display_state remaining paused = record {
  label = str_append "⏸ " (format_remaining remaining);
  urgent = false;
}

unfoldable pub status_display : UserStatus → StatusDisplay
status_display status = display_state status.remaining_seconds status.state

-- `service_management::Status`
pub data Status : Type 0 where
  not_registered enabled requires_approval not_found : Status
  unknown : ℤ → Status

pub data DaemonLifecycleState : Type 0 where
  unregistered approval_required enabled_healthy : DaemonLifecycleState
  enabled_missing_socket enabled_missing_admin_endpoint : DaemonLifecycleState

unfoldable pub classify_daemon_lifecycle : Status → Bool → Bool → DaemonLifecycleState
classify_daemon_lifecycle not_registered socket_reachable admin_reachable = unregistered
classify_daemon_lifecycle not_found socket_reachable admin_reachable = unregistered
classify_daemon_lifecycle (unknown raw) socket_reachable admin_reachable = unregistered
classify_daemon_lifecycle requires_approval socket_reachable admin_reachable = approval_required
classify_daemon_lifecycle enabled socket_reachable admin_reachable =
    if not socket_reachable
    then enabled_missing_socket
    else if not admin_reachable
    then enabled_missing_admin_endpoint
    else enabled_healthy

-- `daemon_lifecycle_state`: the admin endpoint is asked only behind a reachable socket.
unfoldable pub daemon_lifecycle_state : Result Status → Bool → Bool → Result DaemonLifecycleState
unfolding classify_daemon_lifecycle
daemon_lifecycle_state (ok status) socket_reachable admin_answers =
    ok (classify_daemon_lifecycle status socket_reachable (socket_reachable && admin_answers))
daemon_lifecycle_state (err e) socket_reachable admin_answers = err e
