-- ===== src/Tray/Notifications.antt =====
-- When the tray warns of the limit: `NotifTracker` of crates/tray/src/notifications.rs.
pub mod Thresholds
pub mod Once
pub mod Delivery
use konstantin.Common.{
  ℕ, String, ◌/◌, Bool, true, false, Option, none, some, List, [], ◌∷◌, ltb, leb, nat_beq,
  if◌then◌else◌, ◌==◌, nat_eq, string_eq, u32_mod, u32_saturating_mul,
}
use konstantin.Common.Decimal.{decimal}
use Prim.Native.String.{◌++◌ as str_append}
use konstantin.Common.Int.{ℤ, pos, negsuc}
use konstantin.Proto.{SessionState, active, UserStatus}

pub record NotifTracker : Type 0 where
  pub last_resets_at : Option ℕ
  pub fired_at_or_below : Option ℕ

-- `NotifTracker::new`
abbrev pub new : NotifTracker
new = record { last_resets_at = none; fired_at_or_below = none }

abbrev pub same_reset : Option ℕ → ℕ → Bool
same_reset none resets_at = false
same_reset (some t) resets_at = t == resets_at

-- (1) On another reset instant the tracker is armed again.
unfoldable pub rearm : ℕ → NotifTracker → NotifTracker
rearm resets_at t =
    if same_reset t.last_resets_at resets_at
    then t
    else record { last_resets_at = some resets_at; fired_at_or_below = none }

abbrev pub is_active_state : SessionState → Bool
is_active_state active = true
is_active_state _ = false

-- `u32::try_from` of an `i64`.
unfoldable pub try_u32 : ℤ → Option ℕ
try_u32 (pos n) = if ltb n u32_mod then some n else none
try_u32 (negsuc n) = none

-- `sort_unstable` and `dedup`, by insertion.
unfoldable pub insert_sorted : ℕ → List ℕ → List ℕ
insert_sorted n [] = n ∷ []
insert_sorted n (x ∷ xs) =
    let rest = insert_sorted n xs in
    if ltb n x then n ∷ x ∷ xs else if nat_beq n x then x ∷ xs else x ∷ rest

-- The thresholds in seconds that are not 0, in ascending order, each once.
unfoldable pub thresholds_sec : List ℕ → List ℕ
unfolding insert_sorted
thresholds_sec [] = []
thresholds_sec (m ∷ ms) =
    let rest = thresholds_sec ms in
    if ltb 0 (u32_saturating_mul m 60) then insert_sorted (u32_saturating_mul m 60) rest else rest

-- (3) The first threshold that the remaining time is within.
unfoldable pub candidate : ℕ → List ℕ → Option ℕ
candidate remaining [] = none
candidate remaining (t ∷ ts) = if leb remaining t then some t else candidate remaining ts

-- (4) Only a strictly tighter crossing than the last fires.
unfoldable pub fire : Option ℕ → NotifTracker → Option ℕ × NotifTracker
fire none t = (none, t)
fire (some c) t = elim t.fired_at_or_below [
  | none ↦ (some (c / 60), record t { fired_at_or_below = some c })
  | some prev ↦
      if ltb c prev then (some (c / 60), record t { fired_at_or_below = some c }) else (none, t)
]

abbrev pub evaluate_active : List ℕ → Option ℕ → NotifTracker → Option ℕ × NotifTracker
evaluate_active minutes none t = (none, t)
evaluate_active minutes (some remaining) t = fire (candidate remaining (thresholds_sec minutes)) t

-- (2) Only an active user is warned.
unfoldable pub evaluate : UserStatus → NotifTracker → Option ℕ × NotifTracker
unfolding rearm try_u32 thresholds_sec candidate fire
evaluate s t =
    let armed = rearm s.resets_at t in
    if is_active_state s.state
    then evaluate_active s.warn_thresholds_minutes (try_u32 s.remaining_seconds) armed
    else (none, armed)

-- The text of `show`.
unfoldable pub notification_body : ℕ → String
notification_body minutes_left =
    if minutes_left == 1
    then "1 minute remaining today."
    else str_append (decimal minutes_left) " minutes remaining today."
