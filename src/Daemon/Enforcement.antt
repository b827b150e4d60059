-- ===== src/Daemon/Enforcement.antt =====
-- Who is logged out, and how: crates/daemon/src/enforcement.rs. Instants are milliseconds of a
-- monotonic clock.
pub mod Deciding
pub mod Recorder
pub mod Escalation
pub mod Gates
pub mod Backoff
pub mod Runner
use Prim.Native.String.{◌++◌ as str_append}
use konstantin.Common.{
  ℕ, String, ◌-◌, ◌/◌, Bool, true, false, not, Option, none, some, List, [], ◌∷◌, ltb, leb,
  if◌then◌else◌, nat_eq, string_eq, unwrap_or, u32_saturating_mul, Map, lookup, insert, contains,
}
use konstantin.Common.Outcome.{Failure, bail, Result, ok, err}
use konstantin.Common.Action.{Action, ◌>>=◌, ◌>>◌}
use konstantin.Common.Decimal.{decimal}
use konstantin.Daemon.Config.{
  Config, UserConfig, DefaultPolicy, unrestricted, block, Enforcement, log, logout, user_by_name,
}

abbrev pub bootout_backoff : ℕ
bootout_backoff = 10_000

abbrev pub settle_after_bootout : ℕ
settle_after_bootout = 1_000

pub data KickReason : Type 0 where
  limit_reached blocked_by_default_policy : KickReason

pub data Decision : Type 0 where
  no_op : Decision
  kick : KickReason → Decision

-- The limit in seconds, `saturating_mul(60)`.
abbrev pub limit_seconds : UserConfig → ℕ
limit_seconds u = u32_saturating_mul u.daily_limit_minutes 60

-- `duration_since` is 0 for an instant that lies ahead.
abbrev pub held_off : Option ℕ → ℕ → Bool
held_off none now = false
held_off (some t) now = ltb (now - t) bootout_backoff

abbrev pub decide_default : DefaultPolicy → Decision
decide_default unrestricted = no_op
decide_default block = kick blocked_by_default_policy

abbrev pub decide_user : Config → Option UserConfig → ℕ → Decision
decide_user cfg (some u) used = if leb (limit_seconds u) used then kick limit_reached else no_op
decide_user cfg none used = decide_default cfg.default_policy

unfoldable pub decide : Config → String → ℕ → Option ℕ → ℕ → Decision
decide cfg username used last_kicked now =
    if held_off last_kicked now then no_op else decide_user cfg (user_by_name cfg username) used

-- What the system does for the enforcer: the operations of the trait `LogoutRunner`, the clock, the
-- user database and the test for the kill-switch file.
pub record System (W : Type 0) : Type 0 where
  pub run : String → List String → Action W Bool
  pub settle : ℕ → W → W
  pub console_users : W → List String × W
  pub now : W → ℕ
  pub path_exists : W → String → Bool
  pub resolve_uid : String → Option ℕ

pub record Enforcer : Type 0 where
  pub last_kicked : Map ℕ ℕ

-- `Enforcer::new`
abbrev pub new : Enforcer
new = record { last_kicked = [] }

abbrev pub gui_domain : ℕ → List String
gui_domain uid = "bootout" ∷ str_append "gui/" (decimal uid) ∷ []

abbrev pub user_domain : ℕ → List String
user_domain uid = "bootout" ∷ str_append "user/" (decimal uid) ∷ []

abbrev pub kill_args : ℕ → List String
kill_args uid = "-KILL" ∷ "-U" ∷ decimal uid ∷ []

module _ {W : Type 0} (sys : System W) where
  -- The world once both bootouts were asked for, whatever they answered, and the pause is over.
  unfoldable pub bootouts : ℕ → W → W
  bootouts uid w =
      let gui = (sys.run "/bin/launchctl" (gui_domain uid) w).1 in
      let user = (sys.run "/bin/launchctl" (user_domain uid) gui).1 in
      sys.settle settle_after_bootout user

  abbrev pub still_there : ℕ → Failure
  still_there uid = bail (
      str_append "pkill -KILL -U "
        (str_append (decimal uid) " matched nothing but user still active"))

  -- After `pkill`: if it matched nothing, the user has to be gone.
  unfoldable pub confirm : String → ℕ → Bool → Action W (Unit {0})
  confirm username uid true w = (ok tt, w)
  confirm username uid false w = (
    if contains (sys.console_users w).0 username then err (still_there uid) else ok tt,
    (sys.console_users w).1,
  )

  unfoldable pub escalate : String → ℕ → Action W (Unit {0})
  unfolding confirm
  escalate username uid = do
    matched ← sys.run "/usr/bin/pkill" (kill_args uid)
    confirm username uid matched

  unfoldable pub force_logout : String → ℕ → Action W (Unit {0})
  unfolding bootouts escalate
  force_logout username uid w =
      let (still_active, w') = sys.console_users (bootouts uid w) in
      if not (contains still_active username) then (ok tt, w') else escalate username uid w'

  abbrev pub stamp : ℕ → Enforcer → W → Enforcer
  stamp uid e w = record e { last_kicked = insert uid (sys.now w) e.last_kicked }

  -- A logout that failed is not stamped, so that the next tick tries again.
  abbrev pub after_logout : ℕ → Enforcer → Result (Unit {0}) × W → Enforcer × W
  after_logout uid e (ok _, w) = (stamp uid e w, w)
  after_logout uid e (err f, w) = (e, w)

  abbrev pub enforce : Enforcement → String → ℕ → Enforcer → W → Enforcer × W
  enforce log username uid e w = (stamp uid e w, w)
  enforce logout username uid e w = after_logout uid e (force_logout username uid w)

  unfoldable pub act_on : Config → String → ℕ → Enforcer → W → Enforcer × W
  act_on cfg username uid e w =
      if sys.path_exists w cfg.kill_switch_path
      then (e, w)
      else enforce cfg.enforcement username uid e w

  abbrev pub carry_out : Config → String → ℕ → Decision → Enforcer → W → Enforcer × W
  carry_out cfg username uid no_op e w = (e, w)
  carry_out cfg username uid (kick reason) e w = act_on cfg username uid e w

  -- One round of the loop of `step`, for a user with or without a uid.
  abbrev pub visit_uid : Config → Map String ℕ → ℕ → String → Option ℕ → Enforcer → W → Enforcer × W
  visit_uid cfg counters now username none e w = (e, w)
  visit_uid cfg counters now username (some uid) e w =
      carry_out cfg username uid
        (decide cfg username (unwrap_or 0 (lookup username counters)) (lookup uid e.last_kicked)
          now)
        e w

  unfoldable pub visit : Config → Map String ℕ → ℕ → String → Enforcer × W → Enforcer × W
  unfolding act_on
  visit cfg counters now username s =
      visit_uid cfg counters now username (sys.resolve_uid username) s.0 s.1

  unfoldable pub visit_all : Config → Map String ℕ → ℕ → List String → Enforcer × W → Enforcer × W
  visit_all cfg counters now [] s = s
  visit_all cfg counters now (username ∷ rest) s =
      visit_all cfg counters now rest (visit cfg counters now username s)

  -- The instant is read once, before the loop.
  unfoldable pub step : Config → List String → Map String ℕ → Enforcer → W → Enforcer × W
  unfolding visit_all
  step cfg active counters e w = visit_all cfg counters (sys.now w) active (e, w)
