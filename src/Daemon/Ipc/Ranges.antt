-- ===== src/Daemon/Ipc/Ranges.antt =====
-- The machine types of what crates/daemon/src/ipc.rs puts on the wire: `u32` counters and limits, and
-- their difference as `i64`.
use konstantin.Common.{
  ℕ, suc, String, ◌%◌, ◌<◌, ◌≡◌, inl, inr, Bool, Option, none, some, List, [], ◌∷◌, arith, leb,
  Bool-cases, ◌==◌, nat_eq, string_eq, unwrap_or, u32_mod, Map, lookup, insert,
}
use konstantin.Common.Int.{ℤ, pos, negsuc, sub_ℕ}
use konstantin.Proto.{UserStatus}
use konstantin.Daemon.Config.{Config, UserConfig, user_by_name}
use konstantin.Daemon.Sessions.{console_users}
use konstantin.Daemon.State.{State, used, add_all, tick, reset_if_new_day, same_day}
use konstantin.Daemon.Enforcement.{limit_seconds}
use konstantin.Daemon.Service.{ticker_section, midnight_section, Event, ticked, midnight, run}
use konstantin.Daemon.Service.Accounting.{date, account, used-run}
use konstantin.Daemon.Ipc.{compute_status, state_and_limit}

-- Every counter is a `u32`.
abbrev pub AllU32 : Map String ℕ → Type 0
AllU32 [] = Unit {0}
AllU32 ((user, n) ∷ rest) = (n < u32_mod) × AllU32 rest

-- At most 2 ^ 32 - 1 on either side of zero.
abbrev pub IsDifference : ℤ → Type 0
IsDifference (pos n) = n < u32_mod
IsDifference (negsuc n) = suc n < u32_mod

-- The fields of a status are within their types.
abbrev pub FitsWire : UserStatus → Type 0
FitsWire st =
    (st.used_seconds < u32_mod)
    × (st.daily_limit_seconds < u32_mod)
    × IsDifference st.remaining_seconds

AllU32-insert :
    (user : String) (n : ℕ) (m : Map String ℕ) → n < u32_mod → AllU32 m → AllU32 (insert user n m)
unfolding insert
AllU32-insert user n [] h k = (h, tt)
AllU32-insert user n ((name, v) ∷ m) h k = elim (Bool-cases (name == user)) [
  | inl here ↦ rw here (h, k.1)
  | inr other ↦ rw other (k.0, AllU32-insert user n m h k.1)
]

AllU32-add_all :
    (active : List String) (delta : ℕ) (m : Map String ℕ)
    → AllU32 m
    → AllU32 (add_all active delta m)
unfolding add_all
AllU32-add_all [] delta m h = h
AllU32-add_all (user ∷ rest) delta m h =
    AllU32-add_all rest delta _ (AllU32-insert user _ m (omega arith) h)

AllU32-reset :
    (today : ℕ) (s : State) → AllU32 s.counters → AllU32 (reset_if_new_day today s).0.counters
unfolding reset_if_new_day
AllU32-reset today s h = elim (Bool-cases (same_day s.day today)) [
  | inl same ↦ rw same h
  | inr other ↦ rw other tt
]

AllU32-run :
    (cfg : Config) (s : State) (history : List Event)
    → AllU32 s.counters
    → AllU32 (run cfg s history).counters
unfolding run midnight_section ticker_section tick
AllU32-run cfg s [] h = h
AllU32-run cfg s (ticked name today ∷ older) h =
    AllU32-add_all (console_users name) cfg.tick_seconds _
      (AllU32-reset today (run cfg s older) (AllU32-run cfg s older h))
AllU32-run cfg s (midnight today ∷ older) h =
    AllU32-reset today (run cfg s older) (AllU32-run cfg s older h)

AllU32-lookup :
    (user : String) (m : Map String ℕ) → AllU32 m → unwrap_or 0 (lookup user m) < u32_mod
unfolding lookup
AllU32-lookup user [] h = omega arith
AllU32-lookup user ((name, v) ∷ m) h = elim (Bool-cases (name == user)) [
  | inl here ↦ rw here h.0
  | inr other ↦ rw other (AllU32-lookup user m h.1)
]

AllU32-used : (user : String) (s : State) → AllU32 s.counters → used s user < u32_mod
unfolding used
AllU32-used user s h = AllU32-lookup user s.counters h

difference_lem : (a b : ℕ) → a < u32_mod → b < u32_mod → IsDifference (sub_ℕ a b)
difference_lem a b h k = elim (Bool-cases (leb b a)) [
  | inl le ↦ rw le (omega (arith, h))
  | inr gt ↦ rw gt (ground (arith, k))
]

fits_lem :
    (o : Option UserConfig) (n : ℕ) (here : Bool)
    → n < u32_mod
    → let limit = (state_and_limit o n here).1 in (limit < u32_mod) × IsDifference (sub_ℕ limit n)
fits_lem none n here h = (omega arith, difference_lem 0 n (omega arith) h)
fits_lem (some u) n here h = (ground arith, difference_lem (limit_seconds u) n (ground arith) h)

fits_run :
    (cfg : Config) (s : State) (history : List Event) (user : String) (uid next : ℕ)
    → AllU32 s.counters
    → FitsWire (compute_status user uid cfg (run cfg s history) next)
unfolding compute_status used
fits_run cfg s history user uid next h =
    let n = AllU32-lookup user (run cfg s history).counters (AllU32-run cfg s history h) in
    let fields = fits_lem (user_by_name cfg user) _ _ n in (n, fields.0, fields.1)

-- The numbers of a status against the account of a user: the seconds used, and what is left of the
-- limit.
abbrev pub Tells : UserStatus → ℕ → ℕ → Type 0
Tells st limit seconds =
    (st.used_seconds ≡ seconds)
    × (st.daily_limit_seconds ≡ limit)
    × (st.remaining_seconds ≡ sub_ℕ limit seconds)

-- After any history of ticks and midnight alarms from counters that fit `u32`, the status of a
-- configured user tells as used the sum, modulo 2 ^ 32, of the ticks at which the user was at the
-- console since the last event of another day, with what the account held for the day at the start
-- if there was no such event; as the limit the configured one; and as remaining, with its sign, the
-- limit less the used seconds. The first two fit `u32`, and the remaining seconds lie strictly
-- between -(2 ^ 32) and 2 ^ 32, so none of the three is cut off on the wire.
pub compute_status-FitsWire :
    (cfg : Config) (s : State) (e : Event) (older : List Event) (user : String) (uid next : ℕ)
    (u : UserConfig)
    → AllU32 s.counters
    → user_by_name cfg user ≡ some u
    → let st = compute_status user uid cfg (run cfg s (e ∷ older)) next in
      FitsWire st × Tells st (limit_seconds u) (account cfg s user (date e) (e ∷ older) % u32_mod)
unfolding compute_status
compute_status-FitsWire cfg s e older user uid next u h listed =
    let counted = used-run cfg s user e older (AllU32-used user s h) in
    (fits_run cfg s (e ∷ older) user uid next h, (counted, (rw listed), (rw (listed, counted))))
