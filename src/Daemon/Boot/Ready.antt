-- ===== src/Daemon/Boot/Ready.antt =====
-- What a daemon that came up has: crates/daemon/src/main.rs.
use konstantin.Common.{
  ℕ, String, ◌≡◌, inl, inr, refl, sym, Option, some, Bool-cases, nat_eq, string_eq,
}
use konstantin.Common.Outcome.{Result, ok, err, Result-cases}
use konstantin.Common.Action.{Action, pure, reads}
use konstantin.Common.Files.{Files, FileLaws, Paths}
use konstantin.Daemon.Config.{Config, RawConfig, parse_toml}
use konstantin.Daemon.Config.Valid.{IsValid, parse_toml_iff}
use konstantin.Daemon.Config.Seeding.{
  load, load_or_seed, seed_if_missing, config_missing, seed_default_config,
}
use konstantin.Daemon.Sessions.{console_users}
use konstantin.Daemon.State.{StateCodec}
use konstantin.Daemon.Service.{startup}
use konstantin.Daemon.State.{load as load_state}
use konstantin.Daemon.Service.Accounting.{day-reset}
use mathlib.Core.Path.{subst}
use konstantin.Common.Action.{>>=-cases, >>-cases}
use konstantin.Daemon.Ipc.Server.{bind, bind-mode}
use konstantin.Daemon.Control.Listener.{Listening}
use konstantin.Daemon.Boot.{Running, kept_listener, config_path, start_with, start_daemon}

module _ {Fs : Type 0} {files : Files Fs} (laws : FileLaws files) (paths : Paths)
    (codec : StateCodec) (from_str : String → Result RawConfig) (example : String)
    (bind_listener : String → Action Fs (Unit {0})) where
  -- A configuration that comes out is valid.
  abbrev Valid : Result Config × Fs → Type 0
  Valid (ok cfg, fs) = IsValid cfg
  Valid (err e, fs) = Unit {0}

  load-Valid : (path : String) (fs : Fs) → Valid (load files paths from_str example path fs, fs)
  unfolding load
  load-Valid path fs = elim (Result-cases (files.read_to_string fs path)) [
    | inl (text, e) ↦ rw e (parsed (parse_toml from_str text) text refl)
    | inr (f, e) ↦ rw e tt
  ]
    where
      parsed : (r : Result Config) (text : String) → r ≡ parse_toml from_str text → Valid (r, fs)
      parsed (ok cfg) text e = ((parse_toml_iff from_str text cfg).0 (sym e)).3
      parsed (err f) text e = tt

  seed_if_missing-Valid :
      (path : String) (r : Result Config) (fs : Fs)
      → Valid (r, fs)
      → Valid (seed_if_missing files paths from_str example path r fs)
  seed_if_missing-Valid path (ok cfg) fs h = h
  seed_if_missing-Valid path (err e) fs h =
      elim (Bool-cases (config_missing files paths from_str example path e fs)) [
        | inl missing ↦ rw missing (
            >>-cases Valid (seed_default_config files paths from_str example path)
              (reads (load files paths from_str example path)) fs (λ _. load-Valid path _)
              (λ _ _. tt))
        | inr there ↦ rw there tt
      ]

  module _ (name : Option String) (today : ℕ) (listen : String → Result Listening) where
    abbrev pub IsReady : String → Result Running × Fs → Type 0
    IsReady path (ok r, fs) =
        IsValid r.cfg
        × (r.state.day ≡ some today)
        × (r.state.active_now ≡ console_users name)
        × (r.listener ≡ kept_listener (listen path))
        × (files.mode fs r.cfg.socket_path ≡ some 0o666)
    IsReady path (err e, fs) = Unit {0}

    start_with-IsReady :
        (path : String) (cfg : Config) (fs : Fs)
        → IsValid cfg
        → IsReady path (
            start_with files paths codec from_str example bind_listener name today listen path cfg
              fs)
    unfolding start_with startup
    start_with-IsReady path cfg fs valid =
        >>-cases (IsReady path) (bind files paths bind_listener cfg.socket_path)
          (pure (record {
            cfg = cfg;
            state = (startup files paths codec cfg name today fs).state;
            listener = kept_listener (listen path);
          }))
          fs
          (λ up. (
            valid,
            day-reset today (load_state files paths codec fs cfg.state_path),
            refl,
            refl,
            bind-mode files laws paths bind_listener cfg.socket_path fs up,
          ))
          (λ _ _. tt)

    ready_lem :
        (env : Option String) (fs : Fs)
        → IsReady
            (config_path env)
            (start_daemon files paths codec from_str example bind_listener env name today listen fs)
    unfolding start_daemon load_or_seed
    ready_lem env fs =
        >>=-cases (IsReady (config_path env))
          (load_or_seed files paths from_str example (config_path env)) _ fs
          (λ cfg e. start_with-IsReady (config_path env) cfg _ (
            subst
              (λ r. Valid (r, (load_or_seed files paths from_str example (config_path env) fs).1)) e
              (seed_if_missing-Valid (config_path env) _ fs (load-Valid (config_path env) fs))))
          (λ _ _. tt)

    comes_up :
        (env : Option String) (fs : Fs) (cfg : Config)
        → (load_or_seed files paths from_str example (config_path env) fs).0 ≡ ok cfg
        → (bind files paths bind_listener cfg.socket_path
            (load_or_seed files paths from_str example (config_path env) fs).1).0
          ≡ ok tt
        → (r : Running) × ((start_daemon files paths codec from_str example bind_listener env name
              today listen fs).0
            ≡ ok r)
          × (r.cfg ≡ cfg)
    unfolding start_daemon start_with
    comes_up env fs cfg loaded bound = rw (loaded, bound) (_, refl, refl)

    -- The daemon comes up if a configuration is loaded or seeded and the socket is bound, with or
    -- without the control listener. If it comes up, its configuration is valid, its counters are of
    -- the day of the start, exactly the users at the console count as active, everyone can connect
    -- to the socket, and the control listener is kept if it came up.
    pub start_daemon-IsReady :
        (env : Option String) (fs : Fs)
        → let before = load_or_seed files paths from_str example (config_path env) fs in
          let after =
            start_daemon files paths codec from_str example bind_listener env name today listen
              fs in
          ((cfg : Config)
            → before.0 ≡ ok cfg
            → (bind files paths bind_listener cfg.socket_path before.1).0 ≡ ok tt
            → (r : Running) × (after.0 ≡ ok r) × (r.cfg ≡ cfg))
          × IsReady (config_path env) after
    start_daemon-IsReady env fs = (comes_up env fs, ready_lem env fs)
