-- ===== src/Tray/Notifications/Once.antt =====
-- How often the tray warns in a day: `NotifTracker::evaluate` of crates/tray/src/notifications.rs
-- over the statuses that one subscription delivers.
use konstantin.Common.{
  ℕ, ◌*◌, ◌/◌, ◌<◌, ◌≡◌, refl, Bool, true, false, Option, none, some, List, [], ◌∷◌, arith,
  if◌then◌else◌, nat_eq, string_eq, beq_refl,
}
use konstantin.Proto.{UserStatus}
use konstantin.Tray.Notifications.{
  NotifTracker, new, rearm, is_active_state, try_u32, thresholds_sec, candidate, fire,
  evaluate_active, evaluate,
}
use mathlib.Core.Path.{subst}
use konstantin.Tray.Notifications.Thresholds.{IsTighter, IsConfigured, IsCrossed-candidate}

abbrev pub cons_some : Option ℕ → List ℕ → List ℕ
cons_some none ms = ms
cons_some (some m) ms = m ∷ ms

-- What a run of statuses makes the tray announce, in order.
unfoldable pub alarms : List UserStatus → NotifTracker → List ℕ
alarms [] t = []
alarms (s ∷ ss) t = let (o, after) = evaluate s t in let rest = alarms ss after in cons_some o rest

-- Each entry is smaller than the one before it.
abbrev pub IsDescending : Option ℕ → List ℕ → Type 0
IsDescending prev [] = Unit {0}
IsDescending prev (m ∷ ms) = IsTighter m prev × IsDescending (some m) ms

abbrev pub AllFit : List ℕ → Type 0
AllFit [] = Unit {0}
AllFit (m ∷ ms) = (m * 60 < 4294967296) × AllFit ms

-- Statuses of the day that ends at `r`, with thresholds whose seconds fit in a `u32`.
abbrev pub InCycle : ℕ → List UserStatus → Type 0
InCycle r [] = Unit {0}
InCycle r (s ∷ ss) = (s.resets_at ≡ r) × AllFit s.warn_thresholds_minutes × InCycle r ss

whole_minutes : (ms : List ℕ) (c : ℕ) → AllFit ms → IsConfigured ms c → c ≡ c / 60 * 60
whole_minutes [] c f h = elim h [ ]
whole_minutes (m ∷ ms) c f h = ground (arith, whole_minutes ms c f.1)

abbrev Matches : Option ℕ → Option ℕ → Type 0
Matches none none = Unit {0}
Matches (some m) (some c) = c ≡ m * 60
Matches none (some c) = ⊥
Matches (some m) none = ⊥

abbrev After : ℕ → Option ℕ → Option ℕ × NotifTracker → Type 0
After r prev (none, t) = Matches prev t.fired_at_or_below × (t.last_resets_at ≡ some r)
After r prev (some m, t) =
    IsTighter m prev × Matches (some m) t.fired_at_or_below × (t.last_resets_at ≡ some r)

fire-After :
    (r : ℕ) (o prev fired last : Option ℕ)
    → ((c : ℕ) → o ≡ some c → c ≡ c / 60 * 60)
    → Matches prev fired
    → last ≡ some r
    → After r prev (fire o (record { last_resets_at = last; fired_at_or_below = fired }))
unfolding fire
fire-After r none prev fired last f h l = (h, l)
fire-After r (some c) none none last f h l = (tt, f c refl, l)
fire-After r (some c) (some m) (some p) last f h l = ground (arith, f c refl)
fire-After r (some c) none (some p) last f h l = elim h [ ]
fire-After r (some c) (some m) none last f h l = elim h [ ]

rearm_last : (r : ℕ) (t : NotifTracker) → (rearm r t).last_resets_at ≡ some r
unfolding rearm
rearm_last r t = ground arith

evaluate_active-After :
    (r : ℕ) (ms : List ℕ) (o prev : Option ℕ) (t : NotifTracker)
    → AllFit ms
    → Matches prev t.fired_at_or_below
    → t.last_resets_at ≡ some r
    → After r prev (evaluate_active ms o t)
evaluate_active-After r ms none prev t f h l = (h, l)
evaluate_active-After r ms (some n) prev t f h l =
    fire-After r (candidate n (thresholds_sec ms)) prev t.fired_at_or_below t.last_resets_at
      (λ c e. whole_minutes ms c f (IsCrossed-candidate ms n c e).1) h l

if-After :
    (r : ℕ) (b : Bool) (prev : Option ℕ) (x : Option ℕ × NotifTracker) (t : NotifTracker)
    → After r prev x
    → After r prev (none, t)
    → After r prev (if b then x else (none, t))
if-After r true prev x t p q = p
if-After r false prev x t p q = q

evaluate-After :
    (s : UserStatus) (prev : Option ℕ) (t : NotifTracker)
    → AllFit s.warn_thresholds_minutes
    → Matches prev (rearm s.resets_at t).fired_at_or_below
    → After s.resets_at prev (evaluate s t)
unfolding evaluate
evaluate-After s prev t f h =
    let armed = rearm s.resets_at t in
    if-After s.resets_at (is_active_state s.state) prev
      (evaluate_active s.warn_thresholds_minutes (try_u32 s.remaining_seconds) armed) armed
      (evaluate_active-After s.resets_at s.warn_thresholds_minutes (try_u32 s.remaining_seconds)
        prev armed f h (rearm_last s.resets_at t))
      (h, rearm_last s.resets_at t)

rearm_same :
    (r : ℕ) (t : NotifTracker)
    → t.last_resets_at ≡ some r
    → (rearm r t).fired_at_or_below ≡ t.fired_at_or_below
unfolding rearm
rearm_same r t e = ground (arith, beq_refl r)

consume :
    (r : ℕ) (prev : Option ℕ) (x : Option ℕ × NotifTracker) (rest : List ℕ)
    → After r prev x
    → ((p : Option ℕ) → Matches p (rearm r x.1).fired_at_or_below → IsDescending p rest)
    → IsDescending prev (cons_some x.0 rest)
consume r prev (none, t) rest (h, l) f = f prev (rw (rearm_same r t l) h)
consume r prev (some m, t) rest (g, h, l) f = (g, f (some m) (rw (rearm_same r t l) h))

alarms_from :
    (r : ℕ) (ss : List UserStatus) (prev : Option ℕ) (t : NotifTracker)
    → InCycle r ss
    → Matches prev (rearm r t).fired_at_or_below
    → IsDescending prev (alarms ss t)
unfolding alarms rearm
alarms_from r [] prev t c h = tt
alarms_from r (s ∷ ss) prev t (e, f, c) h =
    consume r prev (evaluate s t) (alarms ss (evaluate s t).1)
      (subst (λ q. After q prev (evaluate s t)) e (evaluate-After s prev t f (rw e h)))
      (λ p. alarms_from r ss p (evaluate s t).1 c)

-- A tracker that starts afresh and sees any statuses of one day, whose thresholds in seconds fit in a
-- `u32`, announces fewer minutes each time: no announcement comes twice in a day, and none comes
-- after a tighter one.
pub alarms-IsDescending :
    (r : ℕ) (ss : List UserStatus) → InCycle r ss → IsDescending none (alarms ss new)
unfolding rearm
alarms-IsDescending r ss c = alarms_from r ss none new c tt
