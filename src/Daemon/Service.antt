-- ===== src/Daemon/Service.antt =====
-- The daemon's tasks: crates/daemon/src/main.rs. A task's round is a step on what the tasks share;
-- the state's mutex makes each locked block one step. The console's user, the local date and the
-- system come in as arguments of a round.
pub mod Accounting
pub mod Rounds
pub mod Promise
pub mod Recovery
use konstantin.Common.{ℕ, String, ◌+◌, Bool, Option, List, [], ◌∷◌, if◌then◌else◌}
use konstantin.Common.Files.{Files, Paths}
use konstantin.Daemon.Config.{Config}
use konstantin.Daemon.Sessions.{console_users}
use konstantin.Daemon.State.{State, StateCodec, reset_if_new_day, tick, load, save_atomic}
use konstantin.Daemon.Enforcement.{System, Enforcer, step}

-- The block of `run_ticker` under the lock: roll over, then count.
unfoldable pub ticker_section : Config → Option String → ℕ → State → State
ticker_section cfg name today s =
    tick (console_users name) cfg.tick_seconds (reset_if_new_day today s).0

-- The block of `run_midnight_resetter` under the lock.
unfoldable pub midnight_section : ℕ → State → State × Bool
midnight_section today s = reset_if_new_day today s

-- What the tasks share; `wakeups` counts the messages on the broadcast channel.
pub record Shared (Fs : Type 0) : Type 0 where
  pub state : State
  pub fs : Fs
  pub wakeups : ℕ

-- What the ticker task has of its own.
pub record Ticker (W : Type 0) : Type 0 where
  pub enforcer : Enforcer
  pub world : W

module _ {Fs : Type 0} (files : Files Fs) (paths : Paths) (codec : StateCodec) (cfg : Config) where
  -- The first lines of `main`: the saved state, on the day of the start, with the users there now.
  unfoldable pub startup : Option String → ℕ → Fs → Shared Fs
  startup name today fs =
      let s = (reset_if_new_day today (load files paths codec fs cfg.state_path)).0 in
      record { state = record s { active_now = console_users name }; fs = fs; wakeups = 0 }

  -- One round of `run_midnight_resetter`. A save that fails is logged and forgotten.
  unfoldable pub midnight_round : ℕ → Shared Fs → Shared Fs
  midnight_round today sh =
      let (s, rolled) = midnight_section today sh.state in
      record {
        state = s;
        fs = (save_atomic files paths codec s cfg.state_path sh.fs).1;
        wakeups = if rolled then sh.wakeups + 1 else sh.wakeups;
      }

  module _ {W : Type 0} (sys : System W) where
    -- One round of `run_ticker`: count, save, wake the subscribers, then enforce.
    unfoldable pub ticker_round : Option String → ℕ → Shared Fs × Ticker W → Shared Fs × Ticker W
    ticker_round name today (sh, t) =
        let s = ticker_section cfg name today sh.state in
        let (e, w) = step sys cfg (console_users name) s.counters t.enforcer t.world in
        (
          record {
            state = s;
            fs = (save_atomic files paths codec s cfg.state_path sh.fs).1;
            wakeups = sh.wakeups + 1;
          },
          record { enforcer = e; world = w },
        )

-- What comes before a round of the ticker, and what it finds: the alarms of the midnight task since the
-- last round, what happened in the system meanwhile, the user at the console, and the local date.
pub record Wake (W : Type 0) : Type 0 where
  pub alarms : List ℕ
  pub elapse : W → W
  pub name : Option String
  pub today : ℕ

module _ {Fs W : Type 0} (files : Files Fs) (paths : Paths) (codec : StateCodec) (cfg : Config)
    (sys : System W) where
  unfoldable pub midnight_rounds : List ℕ → Shared Fs → Shared Fs
  unfolding midnight_round
  midnight_rounds [] sh = sh
  midnight_rounds (today ∷ rest) sh =
      midnight_rounds rest (midnight_round files paths codec cfg today sh)

  unfoldable pub wake_up : Wake W → Shared Fs × Ticker W → Shared Fs × Ticker W
  unfolding midnight_rounds ticker_round
  wake_up k (sh, t) =
      ticker_round files paths codec cfg sys k.name k.today
        (midnight_rounds k.alarms sh, record t { world = k.elapse t.world })

  -- The loop of `run_ticker`, with the rounds of the other task in between.
  unfoldable pub run_ticker : List (Wake W) → Shared Fs × Ticker W → Shared Fs × Ticker W
  unfolding wake_up
  run_ticker [] s = s
  run_ticker (k ∷ rest) s = run_ticker rest (wake_up k s)

-- What may happen next: a tick with the user at the console, or the midnight task's alarm. Both
-- come with the local date.
pub data Event : Type 0 where
  ticked : Option String → ℕ → Event
  midnight : ℕ → Event

-- The locked block of an event.
abbrev pub section_of : Config → Event → State → State
section_of cfg (ticked name today) s = ticker_section cfg name today s
section_of cfg (midnight today) s = (midnight_section today s).0

-- The state after a history, its latest event first.
unfoldable pub run : Config → State → List Event → State
run cfg s [] = s
run cfg s (e ∷ older) = section_of cfg e (run cfg s older)
