-- ===== src/Tray/Subscriber/Shows.antt =====
-- A status that arrives comes to be shown: crates/tray/src/bin/tray.rs.
use konstantin.Common.{
  ℕ, ◌-◌, ◌≤◌, ◌≡◌, refl, sym, ap, ◌∙◌, Bool, true, false, Option, none, some, arith, nat_eq,
  string_eq,
}
use mathlib.Core.Path.{subst}
use konstantin.Proto.{UserStatus}
use konstantin.Tray.Bar.{status_display}
use konstantin.Tray.Subscriber.{
  Reading, Shown, TrayState, on_update, should_spawn, spawn_if, maybe_refresh_enforcement_state,
  drain_read, show_reading, drain_show, refresh_done, toggled, Quiet, reads, shows, refreshed,
  toggles, Quietly, still, further,
}

-- The item shows the status.
abbrev pub Displays : UserStatus → TrayState → Type 0
Displays s t = (t.shown.muted ≡ false) × (t.shown.display ≡ status_display s)

-- A run of the timer that took nothing while connected.
abbrev Idle : Option Reading → Type 0
Idle none = Unit {0}
Idle (some r) = (r.pending ≡ none) × (r.disconnected ≡ false)

-- How far a status is from being shown, in steps of the timer at most.
data Away (s : UserStatus) (t : TrayState) : ℕ → Type 0 where
  shown_already :
      t.latest.pending ≡ none
      → t.latest.disconnected ≡ false
      → Idle t.reading
      → Displays s t
      → Away s t 0
  taken :
      (r : Reading)
      → t.latest.pending ≡ none
      → t.latest.disconnected ≡ false
      → t.reading ≡ some r
      → r.pending ≡ some s
      → r.disconnected ≡ false
      → Away s t 1
  arrived :
      t.latest.pending ≡ some s → t.latest.disconnected ≡ false → t.reading ≡ none → Away s t 2
  behind :
      (r : Reading)
      → t.latest.pending ≡ some s
      → t.latest.disconnected ≡ false
      → t.reading ≡ some r
      → Away s t 3

same-Away :
    {s : UserStatus} {n : ℕ} (t u : TrayState)
    → u.latest.pending ≡ t.latest.pending
    → u.latest.disconnected ≡ t.latest.disconnected
    → u.reading ≡ t.reading
    → u.shown ≡ t.shown
    → Away s t n
    → Away s u n
same-Away t u p d r v (shown_already tp td tr tv) =
    shown_already (p ∙ tp) (d ∙ td) (rw r tr) (ap Shown.muted v ∙ tv.0, ap Shown.display v ∙ tv.1)
same-Away t u p d r v (taken x tp td tr xp xd) = taken x (p ∙ tp) (d ∙ td) (r ∙ tr) xp xd
same-Away t u p d r v (arrived tp td tr) = arrived (p ∙ tp) (d ∙ td) (r ∙ tr)
same-Away t u p d r v (behind x tp td tr) = behind x (p ∙ tp) (d ∙ td) (r ∙ tr)

spawn_if-Away :
    {s : UserStatus} {n : ℕ} (b : Bool) (t : TrayState) → Away s t n → Away s (spawn_if b t) n
spawn_if-Away true t h = same-Away t (spawn_if true t) refl refl refl refl h
spawn_if-Away false t h = h

maybe_refresh-Away :
    {s : UserStatus} {n : ℕ} (d : Bool) (now : ℕ) (t : TrayState)
    → Away s t n
    → Away s (maybe_refresh_enforcement_state d now t) n
unfolding maybe_refresh_enforcement_state
maybe_refresh-Away true now t h = h
maybe_refresh-Away false now t h = spawn_if-Away (should_spawn now t.latest) t h

-- A status that was taken while connected is shown.
show_reading-some :
    (r : Reading) (s : UserStatus) (v : Shown)
    → r.pending ≡ some s
    → r.disconnected ≡ false
    → ((show_reading r v).muted ≡ false) × ((show_reading r v).display ≡ status_display s)
unfolding show_reading
show_reading-some r s v p d = (rw (p, d) refl, rw (p, d) refl)

-- A run that took nothing leaves the visuals alone.
show_reading-none :
    (r : Reading) (v : Shown)
    → r.pending ≡ none
    → r.disconnected ≡ false
    → ((show_reading r v).muted ≡ v.muted) × ((show_reading r v).display ≡ v.display)
unfolding show_reading
show_reading-none r v p d = (rw (p, d) refl, rw (p, d) refl)

-- The state after the visuals, before the refresh.
after_visuals : Reading → TrayState → TrayState
after_visuals r t = record t { reading = none; shown = show_reading r t.shown }

abbrev Closer : UserStatus → TrayState → ℕ → Type 0
Closer s u n = (k : ℕ) × (Away s u k × (k ≤ n))

none≢some : {A : Type 0} (o : Option A) (a : A) → o ≡ none → o ≡ some a → ⊥
none≢some o a p q = absurd (ground (arith, p, q))

Idle-some :
    (o : Option Reading) (r : Reading)
    → o ≡ some r
    → Idle o
    → (r.pending ≡ none) × (r.disconnected ≡ false)
Idle-some o r e h = subst Idle e h

-- A run of the timer that took the status while connected.
abbrev Carries : UserStatus → Option Reading → Type 0
Carries s none = ⊥
Carries s (some r) = (r.pending ≡ some s) × (r.disconnected ≡ false)

Away-after_visuals :
    {s : UserStatus} {n : ℕ} (t : TrayState) (r : Reading)
    → t.reading ≡ some r
    → Away s t n
    → Closer s (after_visuals r t) (n - 1)
unfolding after_visuals
Away-after_visuals t r e (shown_already tp td tr tv) =
    let idle = Idle-some t.reading r e tr in
    let same = show_reading-none r t.shown idle.0 idle.1 in
    (0, (shown_already tp td tt (same.0 ∙ tv.0, same.1 ∙ tv.1), omega arith))
Away-after_visuals t r e (taken x tp td tr xp xd) =
    let carried : Carries _ (some r) = subst (Carries _) (sym tr ∙ e) (xp, xd) in
    (0, (shown_already tp td tt (show_reading-some r _ t.shown carried.0 carried.1), omega arith))
Away-after_visuals t r e (arrived tp td tr) = absurd (none≢some t.reading r tr e)
Away-after_visuals t r e (behind x tp td tr) = (2, (arrived tp td refl, omega arith))

Away-drain_read :
    {s : UserStatus} {n : ℕ} (t : TrayState)
    → t.reading ≡ none
    → Away s t n
    → Closer s (drain_read t) (n - 1)
unfolding drain_read
Away-drain_read t e (shown_already tp td tr tv) =
    (0, (shown_already refl td (tp, td) tv, omega arith))
Away-drain_read t e (taken x tp td tr xp xd) = absurd (none≢some t.reading x e tr)
Away-drain_read t e (arrived tp td tr) = (1, (taken _ refl td refl tp td, omega arith))
Away-drain_read t e (behind x tp td tr) = absurd (none≢some t.reading x e tr)

Away-Quiet :
    {s : UserStatus} {m n : ℕ} {t u : TrayState} → Quiet m t u → Away s t n → Closer s u (n - m)
unfolding drain_show refresh_done toggled after_visuals
Away-Quiet {n = n} (reads t e) h = Away-drain_read t e h
Away-Quiet {n = n} (shows t r now e) h =
    let (k, (a, le)) = Away-after_visuals t r e h in
    (k, (maybe_refresh-Away r.disconnected now _ a, le))
Away-Quiet {n = n} (refreshed t now r run) h =
    (n, (same-Away t (refresh_done now r t) refl refl refl refl h, omega arith))
Away-Quiet {n = n} (toggles t paused) h =
    (n, (same-Away t (toggled paused t) refl refl refl refl h, omega arith))

Away-Quietly :
    {s : UserStatus} {m : ℕ} {t u : TrayState} (n : ℕ)
    → Quietly m t u
    → Away s t n
    → Closer s u (n - m)
Away-Quietly n still h = (n, (h, omega arith))
Away-Quietly n (further q rest) h =
    let (i, (a, le)) = Away-Quiet q h in
    let (j, (b, le')) = Away-Quietly i rest a in (j, (b, omega (arith, le, le')))

Displays-Away : {s : UserStatus} {t : TrayState} {n : ℕ} → n ≡ 0 → Away s t n → Displays s t
Displays-Away z (shown_already tp td tr tv) = tv
Displays-Away z (taken x tp td tr xp xd) = absurd (omega (arith, z))
Displays-Away z (arrived tp td tr) = absurd (omega (arith, z))
Displays-Away z (behind x tp td tr) = absurd (omega (arith, z))

arrival :
    (s : UserStatus) (t : TrayState) (o : Option Reading)
    → t.latest.disconnected ≡ false
    → t.reading ≡ o
    → Closer s (on_update s t).1 3
unfolding on_update
arrival s t none d e = (2, (arrived refl d e, omega arith))
arrival s t (some r) d e = (3, (behind r refl d e, omega arith))

-- A status that arrives over an open subscription is shown after at most three steps of the timer
-- while no other update arrives and the connection stays: whatever the timer was in the middle of,
-- and whatever refreshes end and menu items are chosen in between.
pub Displays-on_update :
    (s : UserStatus) (t u : TrayState) (n : ℕ)
    → t.latest.disconnected ≡ false
    → Quietly n (on_update s t).1 u
    → 3 ≤ n
    → Displays s u
Displays-on_update s t u n d q enough =
    let (i, (a, le)) = arrival s t t.reading d refl in
    let (k, (b, le')) = Away-Quietly i q a in Displays-Away (omega (arith, le, le', enough)) b
