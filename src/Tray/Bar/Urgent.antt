-- ===== src/Tray/Bar/Urgent.antt =====
-- When the menu bar of crates/tray/src/bin/tray.rs shows the daemon's status as urgent.
use konstantin.Common.{
  ℕ, String, ◌+◌, ◌≤◌, ◌<◌, ◌≡◌, ◌↔◌, ◌⊎◌, Bool, true, some, arith, nat_eq, string_eq,
}
use konstantin.Common.Int.{sub_ℕ}
use konstantin.Daemon.Config.{Config, UserConfig, user_by_name}
use konstantin.Daemon.State.{State, used, is_active}
use konstantin.Daemon.Enforcement.{limit_seconds}
use konstantin.Daemon.Ipc.{compute_status, session_state}
use konstantin.Tray.Bar.{status_display, display_state}

urgent_iff :
    (u : UserConfig) (n : ℕ) (here : Bool)
    → ((display_state (sub_ℕ (limit_seconds u) n) (session_state u n here)).urgent ≡ true)
      ↔ ((limit_seconds u ≤ n) ⊎ ((here ≡ true) × (limit_seconds u < n + 60)))
urgent_iff u n here = ground arith

-- For a configured user the bar shows the daemon's status as urgent exactly when the limit is used
-- up, whether the user is there or not, or when the user is at the console and less than a minute
-- is left.
pub status_display-compute_status :
    (cfg : Config) (username : String) (uid midnight : ℕ) (s : State) (u : UserConfig)
    → user_by_name cfg username ≡ some u
    → ((status_display (compute_status username uid cfg s midnight)).urgent ≡ true) ↔ (
        (limit_seconds u ≤ used s username)
        ⊎ ((is_active s username ≡ true) × (limit_seconds u < used s username + 60)))
unfolding status_display compute_status
status_display-compute_status cfg username uid midnight s u known =
    rw known (urgent_iff u (used s username) (is_active s username))
