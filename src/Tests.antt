-- ===== src/Tests.antt =====
-- The theorems at concrete inputs: a household of two configured users.
pub mod Wire
pub mod Counters
pub mod Logouts
pub mod Sockets
pub mod Admins
pub mod Listings
pub mod Warnings
pub mod Saving
pub mod Windows
pub mod Services
pub mod Clients
pub mod Menus
pub mod Statuses
use konstantin.Common.{ℕ, String, Option, none, some, []}
use konstantin.Common.{◌∷◌}
use konstantin.Daemon.Config.{Config, UserConfig, unrestricted, logout}

-- A limit of a minute for alice and of two for bob, a tick of 30 seconds.
abbrev pub household : Config
household = record {
  socket_path = "/s";
  state_path = "/state";
  tick_seconds = 30;
  warn_thresholds_minutes = 5 ∷ 1 ∷ [];
  default_policy = unrestricted;
  enforcement = logout;
  kill_switch_path = "/disable";
  users =
      ("alice", record { daily_limit_minutes = 1 })
      ∷ ("bob", record { daily_limit_minutes = 2 })
      ∷ [];
}

abbrev pub uid_of : String → Option ℕ
uid_of name = some 501
