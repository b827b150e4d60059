-- ===== src/Tray/Subscriber/Consistent.antt =====
-- What holds in every state of the menu-bar program: crates/tray/src/bin/tray.rs.
use konstantin.Common.{
  ℕ, String, ◌-◌, ◌≡◌, refl, Bool, true, false, not, Option, none, some, arith, nat_eq, string_eq,
}
use konstantin.Proto.{UserStatus}
use konstantin.Tray.Subscriber.{
  Reading, Shown, TrayState, subscription_open, subscription_lost, on_update, should_spawn,
  spawn_if, maybe_refresh_enforcement_state, drain_read, visuals, title_of, show_reading,
  drain_show, refresh_done, toggled, empty, Quiet, reads, shows, refreshed, toggles, Step, quiet,
  opens, loses, updates, Reach, here, next,
}

abbrev pub count_of : Bool → ℕ
count_of true = 1
count_of false = 0

-- How the flags of `Latest`, the threads and what is shown fit together.
pub record IsConsistent (t : TrayState) : Type 0 where
  pub connection : t.latest.disconnected ≡ not t.subscribed
  pub one_refresh : t.refreshes ≡ count_of t.latest.enforcement_refreshing
  pub muted_empty : t.shown.muted ≡ true → t.shown.display ≡ empty
  pub controls : t.shown.controls_enabled ≡ false → t.shown.muted ≡ true

Fits : Shown → Type 0
Fits s = (s.muted ≡ true → s.display ≡ empty) × (s.controls_enabled ≡ false → s.muted ≡ true)

Fits-visuals :
    (d : Bool) (q : Option Bool) (p : Option UserStatus) (title : String) (s : Shown)
    → Fits s
    → Fits (
        visuals
          (record { pending = p; disconnected = d; enforcement_paused = q })
          p
          (record s { controls_enabled = not d; pause_title = title }))
unfolding Fits
Fits-visuals true q (some u) title s h = ((λ _. refl), λ _. refl)
Fits-visuals false q (some u) title s h = ((λ e. ground (arith, e)), λ e. ground (arith, e))
Fits-visuals true q none title s h = ((λ _. refl), λ _. refl)
Fits-visuals false q none title s h = (h.0, λ e. ground (arith, e))

Fits-show_reading : (r : Reading) (s : Shown) → Fits s → Fits (show_reading r s)
unfolding show_reading
Fits-show_reading r s h =
    Fits-visuals r.disconnected r.enforcement_paused r.pending (title_of r.enforcement_paused) s h

spawn_if-IsConsistent :
    (b : Bool) (t : TrayState)
    → (b ≡ true → t.latest.enforcement_refreshing ≡ false)
    → IsConsistent t
    → IsConsistent (spawn_if b t)
spawn_if-IsConsistent true t idle h = record {
  connection = h.connection;
  one_refresh = ground (arith, h.one_refresh, idle refl);
  muted_empty = h.muted_empty;
  controls = h.controls;
}
spawn_if-IsConsistent false t idle h = h

maybe_refresh-IsConsistent :
    (d : Bool) (now : ℕ) (t : TrayState)
    → IsConsistent t
    → IsConsistent (maybe_refresh_enforcement_state d now t)
unfolding maybe_refresh_enforcement_state
maybe_refresh-IsConsistent true now t h = h
maybe_refresh-IsConsistent false now t h =
    spawn_if-IsConsistent (should_spawn now t.latest) t (λ e. ground (arith, e)) h

-- At most one refresh runs: the flag counts it.
at_most_one : (n : ℕ) (b : Bool) → n ≡ count_of b → n - 1 ≡ 0
at_most_one n true h = omega (arith, h)
at_most_one n false h = omega (arith, h)

Quiet-IsConsistent : {n : ℕ} {t u : TrayState} → Quiet n t u → IsConsistent t → IsConsistent u
unfolding drain_read refresh_done toggled drain_show Fits
Quiet-IsConsistent (reads t e) h = record {
  connection = h.connection;
  one_refresh = h.one_refresh;
  muted_empty = h.muted_empty;
  controls = h.controls;
}
Quiet-IsConsistent (refreshed t now r some_run) h = record {
  connection = h.connection;
  one_refresh = at_most_one t.refreshes t.latest.enforcement_refreshing h.one_refresh;
  muted_empty = h.muted_empty;
  controls = h.controls;
}
Quiet-IsConsistent (toggles t paused) h = record {
  connection = h.connection;
  one_refresh = h.one_refresh;
  muted_empty = h.muted_empty;
  controls = h.controls;
}
Quiet-IsConsistent (shows t r now e) h =
    let fits = Fits-show_reading r t.shown (h.muted_empty, h.controls) in
    maybe_refresh-IsConsistent r.disconnected now _ (record {
      connection = h.connection;
      one_refresh = h.one_refresh;
      muted_empty = fits.0;
      controls = fits.1;
    })

Step-IsConsistent : {t u : TrayState} → Step t u → IsConsistent t → IsConsistent u
unfolding subscription_open subscription_lost on_update
Step-IsConsistent (quiet q) h = Quiet-IsConsistent q h
Step-IsConsistent (opens t e) h = record {
  connection = refl;
  one_refresh = h.one_refresh;
  muted_empty = h.muted_empty;
  controls = h.controls;
}
Step-IsConsistent (loses t) h = record {
  connection = refl;
  one_refresh = h.one_refresh;
  muted_empty = h.muted_empty;
  controls = h.controls;
}
Step-IsConsistent (updates t s e) h = record {
  connection = h.connection;
  one_refresh = h.one_refresh;
  muted_empty = h.muted_empty;
  controls = h.controls;
}

-- However the threads interleave, in every state that the program reaches `disconnected` says that no
-- subscription is open, at most one refresh runs and its flag says whether one does, a muted clock
-- has no text, and where the controls are disabled the clock is muted.
pub Reach-IsConsistent : {t : TrayState} → Reach t → IsConsistent t
Reach-IsConsistent here = record {
  connection = refl;
  one_refresh = refl;
  muted_empty = λ _. refl;
  controls = λ _. refl;
}
Reach-IsConsistent (next r st) = Step-IsConsistent st (Reach-IsConsistent r)
