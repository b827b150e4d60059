-- ===== src/Tray/Client/Updates.antt =====
-- What the client of crates/tray/src/lib.rs makes of the responses of crates/daemon/src/ipc.rs.
use konstantin.Common.{
  ℕ, String, ◌≡◌, refl, ap, ◌∙◌, true, Option, some, List, [], ◌∷◌, map, nat_eq, string_eq,
}
use konstantin.Common.Outcome.{Result, ok}
use konstantin.Proto.{UserStatus, Response}
use konstantin.Proto.Frame.{FrameError}
use konstantin.Proto.Frame as F
use konstantin.Daemon.Config.{Config}
use konstantin.Daemon.Ipc.{compute_status, Moment, SubEvent, update_at, run_subscribe}
use konstantin.Daemon.Ipc.Answers.{AllLive, moments, run_subscribe_lem}
use konstantin.Tray.Client.{next_update}

module _ (username : String) (uid : ℕ) (cfg : Config) (show : Response → String) where
  abbrev pub status_at : Moment → UserStatus
  status_at m = compute_status username uid cfg m.state m.next_midnight

  abbrev pub as_update : Response → Result (Option UserStatus)
  as_update r = next_update show (F.ok r)

  as_update-update_at :
      (ms : List Moment)
      → map as_update (map (update_at username uid cfg) ms) ≡ map (λ m. ok (some (status_at m))) ms
  unfolding next_update
  as_update-update_at [] = refl
  as_update-update_at (m ∷ ms) =
      ap (λ rest. ok (some (status_at m)) ∷ rest) (as_update-update_at ms)

  -- While a subscription lives, its client reads a status for the moment of the subscription and for
  -- each wake-up and lag after it, in order, each the one the daemon computes at that moment, and
  -- never an error.
  pub next_update-run_subscribe :
      (m : Moment) (events : List SubEvent)
      → m.written ≡ true
      → AllLive username uid cfg events
      → map as_update (run_subscribe username uid cfg m events).0
        ≡ map (λ n. ok (some (status_at n))) (m ∷ moments username uid cfg events)
  next_update-run_subscribe m events w live =
      ap (λ r. map as_update r.0) (run_subscribe_lem username uid cfg m events w live)
      ∙ as_update-update_at (m ∷ moments username uid cfg events)
