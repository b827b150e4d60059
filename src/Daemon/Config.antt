-- ===== src/Daemon/Config.antt =====
-- The daemon's configuration: crates/daemon/src/config.rs.
pub mod Valid
pub mod Seeding
use Prim.Native.String.{◌++◌ as str_append}
use konstantin.Common.{
  ℕ, String, not, Option, List, [], ◌∷◌, Map, lookup, ◌==◌, string_eq, nat_eq, unwrap_or,
}
use konstantin.Common.Outcome.{Result, ok, ◌>>=◌, ◌>>◌, ensure}

pub record UserConfig : Type 0 where
  pub daily_limit_minutes : ℕ

pub data DefaultPolicy : Type 0 where
  unrestricted block : DefaultPolicy

pub data Enforcement : Type 0 where
  log logout : Enforcement

pub record Config : Type 0 where
  pub socket_path : String
  pub state_path : String
  pub tick_seconds : ℕ
  pub warn_thresholds_minutes : List ℕ
  pub default_policy : DefaultPolicy
  pub enforcement : Enforcement
  pub kill_switch_path : String
  pub users : Map String UserConfig

-- The keys that a file sets, before the `#[serde(default)]` attributes fill in the others.
pub record RawConfig : Type 0 where
  pub socket_path : Option String
  pub state_path : Option String
  pub tick_seconds : Option ℕ
  pub warn_thresholds_minutes : Option (List ℕ)
  pub default_policy : Option DefaultPolicy
  pub enforcement : Option Enforcement
  pub kill_switch_path : Option String
  pub users : Option (Map String UserConfig)

abbrev pub default_socket_path : String
default_socket_path = "/var/run/screentimed.sock"

abbrev pub default_state_path : String
default_state_path = "/var/db/screentimed/state.json"

abbrev pub default_tick_seconds : ℕ
default_tick_seconds = 5

abbrev pub default_warn_thresholds : List ℕ
default_warn_thresholds = 15 ∷ 5 ∷ 1 ∷ []

abbrev pub default_kill_switch_path : String
default_kill_switch_path = "/etc/screentimed/disable"

unfoldable pub with_defaults : RawConfig → Config
with_defaults r = record {
  socket_path = unwrap_or default_socket_path r.socket_path;
  state_path = unwrap_or default_state_path r.state_path;
  tick_seconds = unwrap_or default_tick_seconds r.tick_seconds;
  warn_thresholds_minutes = unwrap_or default_warn_thresholds r.warn_thresholds_minutes;
  default_policy = unwrap_or unrestricted r.default_policy;
  enforcement = unwrap_or log r.enforcement;
  kill_switch_path = unwrap_or default_kill_switch_path r.kill_switch_path;
  users = unwrap_or [] r.users;
}

-- The loop of `validate` over the users.
unfoldable pub check_users : Map String UserConfig → Result (Unit {0})
check_users [] = ok tt
check_users ((name, u) ∷ rest) = do
  ensure (not (u.daily_limit_minutes == 0))
      (str_append "user " (str_append name ": daily_limit_minutes must be > 0"))
  check_users rest

unfoldable pub validate : Config → Result (Unit {0})
unfolding check_users
validate cfg = do
  ensure (not (cfg.tick_seconds == 0)) "tick_seconds must be > 0"
  check_users cfg.users

-- `toml::from_str` is a parameter.
unfoldable pub parse_toml : (String → Result RawConfig) → String → Result Config
unfolding with_defaults validate
parse_toml from_str text = do
  raw ← from_str text
  validate (with_defaults raw)
  ok (with_defaults raw)

unfoldable pub user_by_name : Config → String → Option UserConfig
user_by_name cfg name = lookup name cfg.users
