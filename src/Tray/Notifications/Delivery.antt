-- ===== src/Tray/Notifications/Delivery.antt =====
-- How a warning reaches the user: `show`, `request_authorization` and the module `macos` of
-- crates/tray/src/notifications.rs. The notification center is a record of calls on a world.
use konstantin.Common.{
  ℕ, String, ◌≡◌, refl, ap, ◌∙◌, Option, none, some, List, [], ◌∷◌, nat_eq, string_eq,
}
use konstantin.Common.Outcome.{bail, Result, ok, err}
use konstantin.Proto.{UserStatus}
use konstantin.Tray.Notifications.{new, NotifTracker, evaluate, notification_body}
use konstantin.Tray.Notifications.Once.{
  alarms, cons_some, IsDescending, InCycle, alarms-IsDescending,
}

-- A request without a trigger is delivered at once.
pub record NotificationRequest : Type 0 where
  pub identifier : String
  pub title : String
  pub body : String

-- `current` is none where there is no center; both requests return before they are carried out, and
-- their completion only logs.
pub record NotificationCenter (W : Type 0) : Type 0 where
  pub current : W → Option ℕ
  pub new_uuid : W → String × W
  pub request_authorization_alert_sound : ℕ → W → W
  pub add_notification_request : ℕ → NotificationRequest → W → W

module _ {W : Type 0} (nc : NotificationCenter W) where
  abbrev ask : Option ℕ → W → W
  ask none w = w
  ask (some c) w = nc.request_authorization_alert_sound c w

  unfoldable pub request_authorization : W → W
  request_authorization w = ask (nc.current w) w

  abbrev pub deliver_to : Option ℕ → String → String → W → Result (Unit {0}) × W
  deliver_to none title body w = (err (bail "no UNUserNotificationCenter available"), w)
  deliver_to (some c) title body w =
      let (id, w') = nc.new_uuid w in
      (
        ok tt,
        nc.add_notification_request c (record { identifier = id; title = title; body = body }) w',
      )

  unfoldable pub deliver : String → String → W → Result (Unit {0}) × W
  deliver title body w = deliver_to (nc.current w) title body w

  unfoldable pub show : ℕ → W → Result (Unit {0}) × W
  unfolding deliver notification_body
  show minutes_left w = deliver "Screen time" (notification_body minutes_left) w

  abbrev pub show_if : Option ℕ → W → W
  show_if none w = w
  show_if (some minutes) w = (show minutes w).1

  -- What the subscriber's loop does with the statuses it reads: a task is spawned for each warning,
  -- and the tasks run in the order of their spawning. An error of a task is only logged.
  unfoldable pub announce : List UserStatus → NotifTracker → W → W
  unfolding show evaluate
  announce [] t w = w
  announce (s ∷ ss) t w =
      let (minutes, after) = evaluate s t in announce ss after (show_if minutes w)

  module _ (posted : W → List (String × String)) where
    -- A center is there at all times, and holds what is added to it, the latest first.
    pub record CenterLaws : Type 0 where
      pub there : (w : W) → (c : ℕ) × (nc.current w ≡ some c)
      pub posted-new_uuid : (w : W) → posted (nc.new_uuid w).1 ≡ posted w
      pub posted-add :
          (c : ℕ) (r : NotificationRequest) (w : W)
          → posted (nc.add_notification_request c r w) ≡ (r.title, r.body) ∷ posted w

    -- The warnings in front of what was posted before, the latest first.
    abbrev pub warned : List ℕ → List (String × String) → List (String × String)
    warned [] before = before
    warned (m ∷ ms) before = warned ms (("Screen time", notification_body m) ∷ before)

    module _ (laws : CenterLaws) where
      posted-show :
          (m : ℕ) (w : W) → posted (show m w).1 ≡ ("Screen time", notification_body m) ∷ posted w
      unfolding show deliver
      posted-show m w =
          let (c, here) = laws.there w in
          rw here (
            laws.posted-add c _ (nc.new_uuid w).1
            ∙ ap (λ ps. ("Screen time", notification_body m) ∷ ps) (laws.posted-new_uuid w))

      step_lem :
          (o : Option ℕ) (rest : List ℕ) (w : W)
          → warned rest (posted (show_if o w)) ≡ warned (cons_some o rest) (posted w)
      step_lem none rest w = refl
      step_lem (some m) rest w = ap (warned rest) (posted-show m w)

      posted-announce :
          (ss : List UserStatus) (t : NotifTracker) (w : W)
          → posted (announce ss t w) ≡ warned (alarms ss t) (posted w)
      unfolding announce alarms
      posted-announce [] t w = refl
      posted-announce (s ∷ ss) t w =
          posted-announce ss (evaluate s t).1 (show_if (evaluate s t).0 w)
          ∙ step_lem (evaluate s t).0 (alarms ss (evaluate s t).1) w

      -- With a notification center, the statuses of one day whose thresholds fit in a `u32` post
      -- exactly the announcements of a new tracker, in order and each with the text of its minutes,
      -- and the minutes get strictly smaller from one to the next.
      pub announce-IsDescending :
          (r : ℕ) (ss : List UserStatus) (w : W)
          → InCycle r ss
          → (posted (announce ss new w) ≡ warned (alarms ss new) (posted w))
            × IsDescending none (alarms ss new)
      announce-IsDescending r ss w h = (posted-announce ss new w, alarms-IsDescending r ss h)
