-- ===== src/Daemon/Enforcement/Runner.antt =====
-- The runner of the daemon itself: `RealRunner` and `resolve_uid` of crates/daemon/src/enforcement.rs,
-- over a record of what the system does. Instants are milliseconds; what takes no time to speak of
-- takes none.
pub mod Bounded
use konstantin.Common.{ℕ, String, Bool, Option, none, List, leb, if◌then◌else◌}
use konstantin.Common.Outcome.{Failure, bail, Result, ok, err}
use konstantin.Common.Action.{Action}
use konstantin.Daemon.Enforcement.{System}

abbrev pub bootout_timeout : ℕ
bootout_timeout = 5_000

-- A child: it could not be spawned, it ends after some time, successfully or not, or it hangs.
pub data Child : Type 0 where
  unspawned : Failure → Child
  ends_after : ℕ → Bool → Child
  hangs : Child

pub record Host (W : Type 0) : Type 0 where
  pub spawn : String → List String → W → Child × W
  pub pass_time : ℕ → W → W
  pub console_users : W → List String × W
  pub now : W → ℕ
  pub path_exists : W → String → Bool
  -- `User::from_name`
  pub from_name : String → Result (Option ℕ)

-- `resolve_uid`: an error of the user database counts as an unknown user.
unfoldable pub resolve_uid : Result (Option ℕ) → Option ℕ
resolve_uid (ok uid) = uid
resolve_uid (err e) = none

module _ {W : Type 0} (host : Host W) where
  abbrev pub awaited : Child × W → Result Bool × W
  awaited (unspawned e, w) = (err e, w)
  awaited (ends_after time success, w) =
      if leb time bootout_timeout
      then (ok success, host.pass_time time w)
      else (err (bail "timed out"), host.pass_time bootout_timeout w)
  awaited (hangs, w) = (err (bail "timed out"), host.pass_time bootout_timeout w)

  -- `RealRunner::run`
  unfoldable pub run : String → List String → Action W Bool
  run program args w = awaited (host.spawn program args w)

  -- `RealRunner`, with the clock and the tests that `step` makes itself.
  unfoldable pub real_runner : System W
  unfolding run resolve_uid
  real_runner = record {
    run = run;
    settle = host.pass_time;
    console_users = host.console_users;
    now = host.now;
    path_exists = host.path_exists;
    resolve_uid = λ name. resolve_uid (host.from_name name);
  }
