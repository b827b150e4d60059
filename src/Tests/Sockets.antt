-- ===== src/Tests/Sockets.antt =====
-- The status socket's answers.
use konstantin.Common.{
  ℕ, suc, String, ◌+◌, ◌≡◌, ◌≢◌, ◌⊎◌, refl, true, [], ◌∷◌, nat_eq, string_eq, lookup,
}
use konstantin.Common.Int.{pos, sub_ℕ}
use konstantin.Proto.{get_status, subscribe, limit_reached}
use konstantin.Proto.Frame.{FrameError, ok}
use konstantin.Daemon.Config.{user_by_name}
use konstantin.Daemon.State.{fresh}
use konstantin.Daemon.Enforcement.{System, new, step, after_logout, force_logout}
use konstantin.Daemon.Ipc.{
  compute_status, Moment, woken, client, run_subscribe, peer_name, handle_peer,
}
use konstantin.Daemon.Ipc.Status.{step-compute_status, remaining-compute_status}
use konstantin.Daemon.Ipc.Answers.{AllScoped}
use konstantin.Daemon.Ipc.Own.{own_config, own_read, own_event, responses, handle_peer-own}
use konstantin.Common.{Option, false}
use konstantin.Common.Outcome as R
use konstantin.Common.{map, some}
use konstantin.Proto.{Response}
use konstantin.Tray.Client.Updates.{as_update, status_at, next_update-run_subscribe}
use Prim.Native.String.{count}
use konstantin.Tray.Settings.{parse_thresholds}
use konstantin.Tests.{household}
use konstantin.Tests.Counters.{evening}

abbrev now : Moment
now = record { state = evening; next_midnight = 86_400; written = true }

abbrev later : Moment
later = record { state = fresh; next_midnight = 172_800; written = true }

abbrev describe : FrameError → String
describe e = "bad frame"

-- A system of which only the files and the uids matter, with no kill-switch file.
abbrev quiet : System (Unit {0})
quiet = record {
  run = λ program args w. (R.ok true, w);
  settle = λ millis w. w;
  console_users = λ w. ([], w);
  now = λ w. 0;
  path_exists = λ w path. false;
  resolve_uid = λ name. some 501;
}

step-compute_status_example :
    let shown = (compute_status "alice" 501 household evening 86_400).state in
    let pass = step quiet household ("alice" ∷ []) evening.counters new tt in
    (shown ≡ limit_reached → pass ≡ after_logout quiet 501 new (force_logout quiet "alice" 501 tt))
    × (shown ≢ limit_reached → pass ≡ (new, tt))
unfolding user_by_name lookup
step-compute_status_example =
    step-compute_status quiet household "alice" 501 86_400 evening new tt
      (record { daily_limit_minutes = 1 }) refl refl refl refl refl

remaining-compute_status_example :
    let status = compute_status "bob" 502 household evening 86_400 in
    ((status.state ≡ limit_reached)
      × ((n : ℕ) × (status.remaining_seconds ≡ sub_ℕ 0 n)
          × (status.used_seconds ≡ status.daily_limit_seconds + n)))
    ⊎ ((status.state ≢ limit_reached)
        × ((n : ℕ) × (status.remaining_seconds ≡ pos (suc n))
            × (status.used_seconds + suc n ≡ status.daily_limit_seconds)))
unfolding user_by_name lookup
remaining-compute_status_example =
    remaining-compute_status household "bob" 502 0 86_400 evening
      (record { daily_limit_minutes = 2 }) refl

abbrev passwd : ℕ → Option String
passwd uid = some "alice"

handle_peer-own_example :
    let username = peer_name passwd 501 in
    let served =
      handle_peer passwd household
        (R.ok 501)
        describe
        ((ok get_status, now) ∷ (ok subscribe, now) ∷ [])
        (woken later ∷ []) in
    AllScoped username 501 household (responses served)
    × (handle_peer passwd
          (own_config username household)
          (R.ok 501)
          describe
          (map (own_read username) ((ok get_status, now) ∷ (ok subscribe, now) ∷ []))
          (map (own_event username) (woken later ∷ []))
        ≡ served)
handle_peer-own_example =
    handle_peer-own passwd household 501 describe ((ok get_status, now) ∷ (ok subscribe, now) ∷ [])
      (woken later ∷ [])

abbrev show : Response → String
show r = "response"

next_update-run_subscribe_example :
    map
      (as_update "alice" 501 household show)
      (run_subscribe "alice" 501 household now (woken later ∷ client (ok get_status) ∷ [])).0
    ≡ R.ok (some (status_at "alice" 501 household show now))
      ∷ R.ok (some (status_at "alice" 501 household show later))
      ∷ []
next_update-run_subscribe_example =
    next_update-run_subscribe "alice" 501 household show now
      (woken later ∷ client (ok get_status) ∷ []) refl (refl, tt)

parse_thresholds_test : parse_thresholds (λ t. some (count t)) " 10, 5\t,1" ≡ R.ok (2 ∷ 1 ∷ 1 ∷ [])
unfolding parse_thresholds
parse_thresholds_test = refl
