-- ===== src/Tray/Subscriber.antt =====
-- The threads of the menu-bar program around `Latest`: the subscriber, the timer that drains, and the
-- refreshes of the enforcement state. crates/tray/src/bin/tray.rs. A step is what a thread does
-- under one lock, so steps interleave as the threads do; instants are milliseconds.
pub mod Consistent
pub mod Shows
use konstantin.Common.{
  ℕ, suc, String, ◌+◌, ◌-◌, ◌<◌, ◌≡◌, Bool, true, false, not, Option, none, some, leb,
  if◌then◌else◌,
}
use konstantin.Common.Outcome.{bail, Result, ok, err}
use Prim.Native.String.{◌++◌ as str_append}
use konstantin.Proto.{UserStatus}
use konstantin.Proto.Admin.{
  AdminResponse, config, validation_ok, daemon_info, enforcement_state, done, unauthorized, error,
}
use konstantin.Tray.Bar.{StatusDisplay, status_display}
use konstantin.Tray.Notifications.{NotifTracker, new, evaluate}

pub record Latest : Type 0 where
  pub pending : Option UserStatus
  pub disconnected : Bool
  pub enforcement_paused : Option Bool
  pub enforcement_refreshing : Bool
  pub enforcement_last_refresh : Option ℕ

-- `Latest::default`
abbrev pub default_latest : Latest
default_latest = record {
  pending = none;
  disconnected = true;
  enforcement_paused = none;
  enforcement_refreshing = false;
  enforcement_last_refresh = none;
}

-- `StatusDisplay::empty`
abbrev pub empty : StatusDisplay
empty = record { label = ""; urgent = false }

-- The status item and its menu, as far as the timer changes them.
pub record Shown : Type 0 where
  pub muted : Bool
  pub display : StatusDisplay
  pub controls_enabled : Bool
  pub pause_title : String

-- What a run of the timer has taken out of `Latest`.
pub record Reading : Type 0 where
  pub pending : Option UserStatus
  pub disconnected : Bool
  pub enforcement_paused : Option Bool

-- `subscribed`: the subscriber holds an open subscription. `refreshes`: the refreshes that run.
-- `reading`: a run of the timer that has not finished.
pub record TrayState : Type 0 where
  pub latest : Latest
  pub subscribed : Bool
  pub notif : NotifTracker
  pub refreshes : ℕ
  pub reading : Option Reading
  pub shown : Shown

-- `main`, before the threads start.
abbrev pub initial : TrayState
initial = record {
  latest = default_latest;
  subscribed = false;
  notif = new;
  refreshes = 0;
  reading = none;
  shown = record {
    muted = true;
    display = empty;
    controls_enabled = false;
    pause_title = "Pause Enforcement";
  };
}

-- `run_subscriber`, where `Subscription::open` succeeds.
unfoldable pub subscription_open : TrayState → TrayState
subscription_open t = record t {
  subscribed = true;
  latest = record t.latest {
    disconnected = false;
    enforcement_paused = none;
    enforcement_last_refresh = none;
  };
}

-- `run_subscriber`, where the open fails, the daemon closes the connection, or a read fails: it backs
-- off and opens again.
unfoldable pub subscription_lost : TrayState → TrayState
subscription_lost t = record t {
  subscribed = false;
  latest = record t.latest { disconnected = true };
}

-- `run_subscriber`, where an update arrives: the minutes of a notification to show, if one fires.
unfoldable pub on_update : UserStatus → TrayState → Option ℕ × TrayState
on_update s t =
    let (fired, notif) = evaluate s t.notif in
    (fired, record t { notif = notif; latest = record t.latest { pending = some s } })

abbrev pub is_due : Option ℕ → ℕ → Bool
is_due none now = true
is_due (some last) now = leb (last + 30000) now

abbrev pub should_spawn : ℕ → Latest → Bool
should_spawn now g =
    if g.enforcement_refreshing then false else is_due g.enforcement_last_refresh now

abbrev pub spawn_if : Bool → TrayState → TrayState
spawn_if false t = t
spawn_if true t = record t {
  refreshes = suc t.refreshes;
  latest = record t.latest { enforcement_refreshing = true };
}

unfoldable pub maybe_refresh_enforcement_state : Bool → ℕ → TrayState → TrayState
maybe_refresh_enforcement_state disconnected now t =
    if disconnected then t else spawn_if (should_spawn now t.latest) t

-- The timer's block, its first half: the lock on `Latest`.
unfoldable pub drain_read : TrayState → TrayState
drain_read t = record t {
  reading = some (record {
    pending = t.latest.pending;
    disconnected = t.latest.disconnected;
    enforcement_paused = t.latest.enforcement_paused;
  });
  latest = record t.latest { pending = none };
}

abbrev pub title_of : Option Bool → String
title_of (some true) = "Unpause Enforcement"
title_of (some false) = "Pause Enforcement"
title_of none = "Pause Enforcement"

abbrev pub visuals : Reading → Option UserStatus → Shown → Shown
visuals r (some status) shown =
    if r.disconnected
    then record shown { muted = true; display = empty }
    else record shown { muted = false; display = status_display status }
visuals r none shown =
    if r.disconnected then record shown { muted = true; display = empty } else shown

unfoldable pub show_reading : Reading → Shown → Shown
show_reading r shown = visuals r r.pending (record shown {
  controls_enabled = not r.disconnected;
  pause_title = title_of r.enforcement_paused;
})

-- The timer's block, its second half.
unfoldable pub drain_show : Reading → ℕ → TrayState → TrayState
unfolding show_reading maybe_refresh_enforcement_state
drain_show r now t =
    maybe_refresh_enforcement_state r.disconnected now
      (record t { reading = none; shown = show_reading r t.shown })

abbrev pub paused_after : Result Bool → Option Bool → Option Bool
paused_after (ok paused) before = some paused
paused_after (err e) before = before

-- The end of a refresh, with what `query_enforcement_paused` gave.
unfoldable pub refresh_done : ℕ → Result Bool → TrayState → TrayState
refresh_done now refreshed t = record t {
  refreshes = t.refreshes - 1;
  latest = record t.latest {
    enforcement_refreshing = false;
    enforcement_last_refresh = some now;
    enforcement_paused = paused_after refreshed t.latest.enforcement_paused;
  };
}

-- `toggle_enforcement`, where it succeeds.
unfoldable pub toggled : Bool → TrayState → TrayState
toggled paused t = record t { latest = record t.latest { enforcement_paused = some paused } }

-- The steps that the threads other than the subscriber take. The number counts the steps of the
-- timer.
pub data Quiet : ℕ → TrayState → TrayState → Type 0 where
  reads : (t : TrayState) → t.reading ≡ none → Quiet 1 t (drain_read t)
  shows :
      (t : TrayState) (r : Reading) (now : ℕ) → t.reading ≡ some r → Quiet 1 t (drain_show r now t)
  refreshed :
      (t : TrayState) (now : ℕ) (r : Result Bool)
      → 0 < t.refreshes
      → Quiet 0 t (refresh_done now r t)
  toggles : (t : TrayState) (paused : Bool) → Quiet 0 t (toggled paused t)

pub data Step : TrayState → TrayState → Type 0 where
  quiet : {n : ℕ} {t u : TrayState} → Quiet n t u → Step t u
  opens : (t : TrayState) → t.subscribed ≡ false → Step t (subscription_open t)
  loses : (t : TrayState) → Step t (subscription_lost t)
  updates : (t : TrayState) (s : UserStatus) → t.subscribed ≡ true → Step t (on_update s t).1

pub data Reach : TrayState → Type 0 where
  here : Reach initial
  next : {t u : TrayState} → Reach t → Step t u → Reach u

-- Quiet steps in a row, with the timer's steps counted.
pub data Quietly : ℕ → TrayState → TrayState → Type 0 where
  still : {t : TrayState} → Quietly 0 t t
  further : {m n : ℕ} {t u v : TrayState} → Quiet m t u → Quietly n u v → Quietly (m + n) t v

-- `query_enforcement_paused`, from the daemon's answer; `show` is the debug format.
unfoldable pub query_enforcement_paused :
    (AdminResponse → String) → Result AdminResponse → Result Bool
query_enforcement_paused show (ok (enforcement_state paused path)) = ok paused
query_enforcement_paused show (ok (unauthorized reason)) =
    err (bail (str_append "Not authorized: " reason))
query_enforcement_paused show (ok (error message)) = err (bail message)
query_enforcement_paused show (ok (config text paused path)) =
    err (bail (str_append "unexpected admin response: " (show (config text paused path))))
query_enforcement_paused show (ok validation_ok) =
    err (bail (str_append "unexpected admin response: " (show validation_ok)))
query_enforcement_paused show (ok (daemon_info version)) =
    err (bail (str_append "unexpected admin response: " (show (daemon_info version))))
query_enforcement_paused show (ok done) =
    err (bail (str_append "unexpected admin response: " (show done)))
query_enforcement_paused show (err e) = err e
