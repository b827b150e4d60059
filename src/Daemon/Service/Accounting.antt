-- ===== src/Daemon/Service/Accounting.antt =====
-- The counters of crates/daemon/src/main.rs against the history of events.
use konstantin.Common.{
  ℕ, String, ◌+◌, ◌%◌, ◌<◌, ◌≡◌, refl, ◌∙◌, Option, some, List, [], ◌∷◌, arith, if◌then◌else◌, ◌==◌,
  nat_eq, string_eq, u32_mod, lookup, contains,
}
use konstantin.Daemon.Config.{Config}
use konstantin.Daemon.Sessions.{console_users, console_users-Distinct}
use konstantin.Daemon.State.{State, used, reset_if_new_day, tick, same_day}
use konstantin.Daemon.State.Counting.{used-tick}
use konstantin.Daemon.Service.{ticker_section, midnight_section, Event, ticked, midnight, run}

abbrev pub date : Event → ℕ
date (ticked name today) = today
date (midnight today) = today

-- The seconds that an event adds to a user's account.
abbrev pub seconds : Config → String → Event → ℕ
seconds cfg user (ticked name today) =
    if contains (console_users name) user then cfg.tick_seconds else 0
seconds cfg user (midnight today) = 0

-- The seconds on the account for a day at the start.
abbrev pub carried : State → String → ℕ → ℕ
carried s user day = if same_day s.day day then used s user else 0

-- The seconds of a user on a day: those of the events back to the last one of another day, and
-- what the account held at the start if no other day came between.
abbrev pub account : Config → State → String → ℕ → List Event → ℕ
account cfg s user day [] = carried s user day
account cfg s user day (e ∷ older) =
    if date e == day then account cfg s user day older + seconds cfg user e else 0

used-cleared :
    (today : ℕ) (s : State) (user : String)
    → used (record s { day = some today; counters = [] }) user ≡ 0
unfolding used lookup
used-cleared today s user = refl

carried-reset :
    (today day : ℕ) (s : State) (user : String)
    → carried (reset_if_new_day today s).0 user day
      ≡ (if today == day then carried s user day else 0)
unfolding reset_if_new_day
carried-reset today day s user = ground (arith, used-cleared today s user)

pub day-reset : (today : ℕ) (s : State) → (reset_if_new_day today s).0.day ≡ some today
unfolding reset_if_new_day
day-reset today s = ground arith

pub used-reset :
    (today : ℕ) (s : State) (user : String)
    → used (reset_if_new_day today s).0 user ≡ carried s user today
unfolding reset_if_new_day
used-reset today s user = ground (arith, used-cleared today s user)

pub carried-midnight :
    (today day : ℕ) (s : State) (user : String)
    → carried (midnight_section today s).0 user day
      ≡ (if today == day then carried s user day else 0)
unfolding midnight_section
carried-midnight = carried-reset

pub day-ticker :
    (cfg : Config) (name : Option String) (today : ℕ) (s : State)
    → (ticker_section cfg name today s).day ≡ some today
unfolding ticker_section tick
day-ticker cfg name today s = day-reset today s

-- The counter of a user after the ticker's locked block.
pub used-ticker :
    (cfg : Config) (name : Option String) (today : ℕ) (s : State) (user : String)
    → used (ticker_section cfg name today s) user ≡ (
        if contains (console_users name) user
        then (carried s user today + cfg.tick_seconds) % u32_mod
        else carried s user today)
unfolding ticker_section
used-ticker cfg name today s user =
    (used-tick (console_users name) cfg.tick_seconds (reset_if_new_day today s).0 user
      (console_users-Distinct name)).0
    ∙ rw (used-reset today s user)

pub carried-ticker :
    (cfg : Config) (name : Option String) (today day : ℕ) (s : State) (user : String)
    → carried s user day < u32_mod
    → carried (ticker_section cfg name today s) user day ≡ (
        if today == day
        then (carried s user day + seconds cfg user (ticked name today)) % u32_mod
        else 0)
carried-ticker cfg name today day s user h =
    ground (arith, day-ticker cfg name today s, used-ticker cfg name today s user)

carried-run :
    (cfg : Config) (s : State) (user : String) (day : ℕ) (history : List Event)
    → used s user < u32_mod
    → carried (run cfg s history) user day ≡ account cfg s user day history % u32_mod
unfolding run
carried-run cfg s user day [] h = ground arith
carried-run cfg s user day (ticked name today ∷ older) h =
    let ih = carried-run cfg s user day older h in
    carried-ticker cfg name today day (run cfg s older) user (omega arith) ∙ ground (arith, ih)
carried-run cfg s user day (midnight today ∷ older) h =
    let ih = carried-run cfg s user day older h in
    carried-midnight today day (run cfg s older) user ∙ ground (arith, ih)

day-run :
    (cfg : Config) (s : State) (e : Event) (older : List Event)
    → (run cfg s (e ∷ older)).day ≡ some (date e)
unfolding run midnight_section
day-run cfg s (ticked name today) older = day-ticker cfg name today (run cfg s older)
day-run cfg s (midnight today) older = day-reset today (run cfg s older)

-- After any interleaving of ticks and midnight alarms, with any dates, the counter of a user is, modulo
-- 2 ^ 32, the sum of the ticks at which the user was at the console since the last event of another
-- day, with what the account held for the day at the start if there was no such event.
pub used-run :
    (cfg : Config) (s : State) (user : String) (e : Event) (older : List Event)
    → used s user < u32_mod
    → used (run cfg s (e ∷ older)) user ≡ account cfg s user (date e) (e ∷ older) % u32_mod
used-run cfg s user e older h =
    ground (arith, carried-run cfg s user (date e) (e ∷ older) h, day-run cfg s e older)
