-- ===== src/Daemon/Boot.antt =====
-- The start and the end of the daemon: `main` of crates/daemon/src/main.rs. The environment, the user
-- at the console, the date and the answers of the XPC library are arguments; the spawned tasks are
-- those of Daemon/Service.
pub mod Ready
use konstantin.Common.{ℕ, String, ◌/◌, Option, none, some, unwrap_or}
use konstantin.Common.Outcome.{Result, ok, err}
use konstantin.Common.Action.{Action, pure, continue, ◌>>=◌, ◌>>◌}
use konstantin.Common.Files.{Files, Paths}
use konstantin.Daemon.Config.{Config, RawConfig}
use konstantin.Daemon.Config.Seeding.{load_or_seed}
use konstantin.Daemon.State.{State, StateCodec}
use konstantin.Daemon.Service.{startup}
use konstantin.Daemon.Ipc.Server.{bind, drop_server}
use konstantin.Daemon.Control.Listener.{Listening}
use konstantin.Daemon.Control.Dictionary.{XpcCalls, drop_listener}

-- The path of the configuration: the variable SCREENTIMED_CONFIG, or the usual place.
abbrev pub config_path : Option String → String
config_path env = unwrap_or "/etc/screentimed/config.toml" env

-- A daemon whose tasks run.
pub record Running : Type 0 where
  pub cfg : Config
  pub state : State
  pub listener : Option Listening

-- A control listener that does not come up is logged and left out.
abbrev pub kept_listener : Result Listening → Option Listening
kept_listener (ok l) = some l
kept_listener (err e) = none

abbrev pub end_listener : {W : Type 0} → XpcCalls W → Option Listening → W → W
end_listener xpc none w = w
end_listener xpc (some l) w = drop_listener xpc l.handle w

module _ {Fs : Type 0} (files : Files Fs) (paths : Paths) (codec : StateCodec)
    (from_str : String → Result RawConfig) (example : String)
    (bind_listener : String → Action Fs (Unit {0})) where
  -- The rest of `main` up to its tasks, with the configuration.
  unfoldable pub start_with :
      Option String → ℕ → (String → Result Listening) → String → Config → Action Fs Running
  unfolding startup bind
  start_with name today listen path cfg fs =
      continue (bind files paths bind_listener cfg.socket_path fs).0
        (λ _. pure (record {
          cfg = cfg;
          state = (startup files paths codec cfg name today fs).state;
          listener = kept_listener (listen path);
        }))
        (bind files paths bind_listener cfg.socket_path fs).1

  unfoldable pub start_daemon :
      Option String → Option String → ℕ → (String → Result Listening) → Action Fs Running
  unfolding load_or_seed start_with
  start_daemon env name today listen =
      load_or_seed files paths from_str example (config_path env)
      >>= start_with name today listen (config_path env)

  -- The end of `main`, when the server ends or a signal comes: the server goes, and the listener.
  unfoldable pub shut_down : {W : Type 0} → XpcCalls W → Running → Fs × W → Fs × W
  unfolding drop_server drop_listener
  shut_down xpc r (fs, w) = (drop_server files r.cfg.socket_path fs, end_listener xpc r.listener w)
