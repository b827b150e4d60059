-- ===== src/Tests/Warnings.antt =====
-- The tray's warnings.
use konstantin.Common.{
  ℕ, ◌-◌, ◌*◌, ◌/◌, ◌<◌, ◌≡◌, ◌↔◌, refl, none, some, [], ◌∷◌, arith, nat_eq, string_eq,
}
use konstantin.Common.Int.{pos}
use konstantin.Proto.{active, UserStatus}
use konstantin.Tray.Notifications.{new, evaluate}
use konstantin.Tray.Notifications.Thresholds.{IsWarning, evaluate_iff}
use konstantin.Tray.Notifications.Once.{alarms, IsDescending}
use konstantin.Tray.Notifications.Delivery.{
  NotificationCenter, CenterLaws, announce, warned, announce-IsDescending,
}
use konstantin.Common.{List, String}

-- Alice's status with some seconds left.
abbrev left : ℕ → UserStatus
left n = record {
  uid = 501;
  username = "alice";
  state = active;
  daily_limit_seconds = 3600;
  used_seconds = 3600 - n;
  remaining_seconds = pos n;
  resets_at = 7;
  warn_thresholds_minutes = 1 ∷ 5 ∷ [];
}

evaluate_iff_example :
    ((evaluate (left 200) new).0 ≡ some 5) ↔ ((c : ℕ) × IsWarning (left 200) new c × (5 ≡ c / 60))
evaluate_iff_example = evaluate_iff (left 200) new 5

-- A center that keeps what is posted.
abbrev center : NotificationCenter (List (String × String))
center = record {
  current = λ w. some 1;
  new_uuid = λ w. ("id", w);
  request_authorization_alert_sound = λ c w. w;
  add_notification_request = λ c r w. (r.title, r.body) ∷ w;
}

center_lem : CenterLaws center (λ w. w)
center_lem = record {
  there = λ w. (1, refl);
  posted-new_uuid = λ w. refl;
  posted-add = λ c r w. refl;
}

announce-IsDescending_example :
    (announce center (left 200 ∷ left 100 ∷ left 30 ∷ left 20 ∷ []) new []
      ≡ warned center (λ w. w) (alarms (left 200 ∷ left 100 ∷ left 30 ∷ left 20 ∷ []) new) [])
    × IsDescending none (alarms (left 200 ∷ left 100 ∷ left 30 ∷ left 20 ∷ []) new)
announce-IsDescending_example =
    announce-IsDescending center (λ w. w) center_lem 7
      (left 200 ∷ left 100 ∷ left 30 ∷ left 20 ∷ []) []
      (refl, fits, (refl, fits, (refl, fits, (refl, fits, tt))))
  where
    fits : (1 * 60 < 4294967296) × ((5 * 60 < 4294967296) × Unit {0})
    fits = (omega arith, (omega arith, tt))

alarms_test : alarms (left 200 ∷ left 100 ∷ left 30 ∷ left 20 ∷ []) new ≡ 5 ∷ 1 ∷ []
unfolding alarms evaluate
alarms_test = refl
