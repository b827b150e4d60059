-- ===== src/Daemon/Midnight.antt =====
-- The next local midnight: crates/daemon/src/time.rs. An instant is a number of seconds; the time
-- zone, which says what date an instant has and when a date's midnight is, is an argument.
use konstantin.Common.{
  ℕ, zero, suc, ◌+◌, ◌≤◌, ◌<◌, ◌≡◌, ◌↔◌, ◌⊎◌, inl, inr, ap, Option, none, some, arith, Option-cases,
  nat_eq, string_eq, unwrap_or,
}

-- `chrono::LocalResult`
pub data LocalResult : Type 0 where
  single : ℕ → LocalResult
  ambiguous : ℕ → ℕ → LocalResult
  nonexistent : LocalResult

pub record Zone : Type 0 where
  pub date_of : ℕ → ℕ
  pub midnight_of : ℕ → LocalResult

-- One round of the loop: an unrepresentable midnight goes on to the next date.
abbrev pub settle_on : LocalResult → Option ℕ → Option ℕ
settle_on (single dt) later = some dt
settle_on (ambiguous earlier late) later = some earlier
settle_on nonexistent later = later

-- The loop, with the rounds that are left.
unfoldable pub first_midnight : Zone → ℕ → ℕ → Option ℕ
first_midnight zone zero date = none
first_midnight zone (suc rounds) date =
    let later = first_midnight zone rounds (date + 1) in settle_on (zone.midnight_of date) later

unfoldable pub next_local_midnight_after : Zone → ℕ → ℕ
unfolding first_midnight
next_local_midnight_after zone now =
    unwrap_or (now + 86_400) (first_midnight zone 7 (zone.date_of (now + 86_400)))

-- The midnight that the program takes for a date.
abbrev pub IsMidnight : LocalResult → ℕ → Type 0
IsMidnight (single dt) t = dt ≡ t
IsMidnight (ambiguous earlier late) t = earlier ≡ t
IsMidnight nonexistent t = ⊥

-- A date has begun at an instant exactly when its midnight is not after it.
abbrev pub Begins : Zone → Type 0
Begins zone =
    (day t now : ℕ) → IsMidnight (zone.midnight_of day) t → (t ≤ now) ↔ (day ≤ zone.date_of now)

settled :
    (r : LocalResult) (later : Option ℕ) (t : ℕ)
    → settle_on r later ≡ some t
    → IsMidnight r t ⊎ (later ≡ some t)
settled (single dt) later t e = inl (ground arith)
settled (ambiguous a b) later t e = inl (ground arith)
settled nonexistent later t e = inr e

first_midnight_lem :
    (zone : Zone) (rounds date t : ℕ)
    → first_midnight zone rounds date ≡ some t
    → (day : ℕ) × (date ≤ day) × IsMidnight (zone.midnight_of day) t
unfolding first_midnight
first_midnight_lem zone zero date t e = cc
first_midnight_lem zone (suc rounds) date t e =
    elim (settled (zone.midnight_of date) (first_midnight zone rounds (date + 1)) t e) [
      | inl here ↦ (date, omega arith, here)
      | inr later ↦
          let (day, ahead, is) = first_midnight_lem zone rounds (date + 1) t later in
          (day, omega arith, is)
    ]

-- In a zone whose dates begin at their midnights, the result is strictly in the future whenever the
-- instant 24 hours ahead has a later date, however many midnights are unrepresentable.
pub next_local_midnight_after-lt :
    (zone : Zone) (now : ℕ)
    → Begins zone
    → zone.date_of now < zone.date_of (now + 86_400)
    → now < next_local_midnight_after zone now
unfolding next_local_midnight_after
next_local_midnight_after-lt zone now begins ahead =
    elim (Option-cases (first_midnight zone 7 (zone.date_of (now + 86_400)))) [
      | inl gone ↦ rw gone (omega arith)
      | inr (t, e) ↦
          let (day, far, is) = first_midnight_lem zone 7 (zone.date_of (now + 86_400)) t e in
          rw e (ground (arith, begins day t now is))
    ]

taken : (r : LocalResult) (later : Option ℕ) (t : ℕ) → IsMidnight r t → settle_on r later ≡ some t
taken (single dt) later t h = ap some h
taken (ambiguous a b) later t h = ap some h
taken nonexistent later t h = elim h [ ]

-- In such a zone, where the date of 24 hours ahead has a midnight, the result is in the future
-- exactly when that date is later than today's: within a day of more than 24 hours it may lie in
-- the past.
pub next_local_midnight_after-lt_iff :
    (zone : Zone) (now t : ℕ)
    → Begins zone
    → IsMidnight (zone.midnight_of (zone.date_of (now + 86_400))) t
    → (now < next_local_midnight_after zone now) ↔ (zone.date_of now < zone.date_of (now + 86_400))
unfolding next_local_midnight_after first_midnight
next_local_midnight_after-lt_iff zone now t begins is =
    rw
      (taken (zone.midnight_of (zone.date_of (now + 86_400)))
        (first_midnight zone 6 (zone.date_of (now + 86_400) + 1)) t is)
      (ground (arith, begins (zone.date_of (now + 86_400)) t now is))
