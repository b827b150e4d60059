-- ===== src/Daemon/Ipc/Answers.antt =====
-- The responses on a connection: crates/daemon/src/ipc.rs.
use konstantin.Common.{
  ℕ, String, ◌≡◌, ◌≢◌, refl, Bool, true, false, List, [], ◌∷◌, ◌++◌, map, arith, if◌then◌else◌,
  nat_eq, string_eq,
}
use konstantin.Proto.{
  Request, get_status, subscribe, report_session_state, UserStatus, Response, status, status_update,
  ack, error,
}
use konstantin.Proto.Frame.{FrameError, closed, io, json, frame_too_large, Outcome, ok, err}
use konstantin.Daemon.Config.{Config}
use konstantin.Daemon.Ipc.{
  compute_status, Moment, SubEvent, woken, lagged, broadcast_closed, client, Ending, waiting,
  then_also, update_at, push_updates, run_subscribe, handle_connection,
}

module _ (username : String) (uid : ℕ) (cfg : Config) where
  abbrev pub IsOwn : UserStatus → Type 0
  IsOwn st = (st.uid ≡ uid) × (st.username ≡ username)

  -- A response tells nothing of another user.
  abbrev pub IsScoped : Response → Type 0
  IsScoped (status st) = IsOwn st
  IsScoped (status_update st) = IsOwn st
  IsScoped ack = Unit {0}
  IsScoped (error m) = Unit {0}

  abbrev pub AllScoped : List Response → Type 0
  AllScoped [] = Unit {0}
  AllScoped (r ∷ rs) = IsScoped r × AllScoped rs

  if_written :
      (b : Bool) (r : Response) (rest : List Response × Ending) (stop : Ending)
      → IsScoped r
      → AllScoped rest.0
      → AllScoped (if b then then_also username uid cfg r rest else ([], stop)).0
  if_written true r rest stop h k = (h, k)
  if_written false r rest stop h k = tt

  push_updates-AllScoped :
      (events : List SubEvent) → AllScoped (push_updates username uid cfg events).0
  unfolding push_updates compute_status
  push_updates-AllScoped [] = tt
  push_updates-AllScoped (woken m ∷ events) =
      if_written m.written _ _ _ (refl, refl) (push_updates-AllScoped events)
  push_updates-AllScoped (lagged m ∷ events) =
      if_written m.written _ _ _ (refl, refl) (push_updates-AllScoped events)
  push_updates-AllScoped (broadcast_closed ∷ events) = tt
  push_updates-AllScoped (client (err e) ∷ events) = tt
  push_updates-AllScoped (client (ok req) ∷ events) = push_updates-AllScoped events

  -- Whatever a client sends, whatever happens to the connection and whatever the state holds, every
  -- status that the connection carries is labelled with the connection's user and uid.
  pub handle_connection-AllScoped :
      (describe : FrameError → String) (reads : List (Outcome FrameError Request × Moment))
      (later : List SubEvent)
      → AllScoped (handle_connection username uid cfg describe reads later).0
  unfolding handle_connection
  handle_connection-AllScoped describe [] later = tt
  handle_connection-AllScoped describe ((err closed, m) ∷ reads) later = tt
  handle_connection-AllScoped describe ((err (io e), m) ∷ reads) later = ground arith
  handle_connection-AllScoped describe ((err json, m) ∷ reads) later = ground arith
  handle_connection-AllScoped describe ((err (frame_too_large a b), m) ∷ reads) later = ground arith
  handle_connection-AllScoped describe ((ok get_status, m) ∷ reads) later =
      if_written m.written _ _ _ (refl, refl) (handle_connection-AllScoped describe reads later)
  handle_connection-AllScoped describe ((ok (report_session_state l i), m) ∷ reads) later =
      if_written m.written _ _ _ tt (handle_connection-AllScoped describe reads later)
  handle_connection-AllScoped describe ((ok subscribe, m) ∷ reads) later =
      if_written m.written _ _ _ (refl, refl) (push_updates-AllScoped later)

  abbrev pub answer : Request × Moment → Response
  answer (get_status, m) = status (compute_status username uid cfg m.state m.next_midnight)
  answer (subscribe, m) = update_at username uid cfg m
  answer (report_session_state l i, m) = ack

  -- One-shot requests whose answers can be written.
  abbrev pub AllOneShot : List (Request × Moment) → Type 0
  AllOneShot [] = Unit {0}
  AllOneShot ((req, m) ∷ rest) = (req ≢ subscribe) × (m.written ≡ true) × AllOneShot rest

  abbrev pub received : Request × Moment → Outcome FrameError Request × Moment
  received (req, m) = (ok req, m)

  -- One-shot requests get one answer each, in their order, and the connection goes on as if they had
  -- not been there.
  pub handle_connection-append :
      (describe : FrameError → String) (reqs : List (Request × Moment))
      (reads : List (Outcome FrameError Request × Moment)) (later : List SubEvent)
      → AllOneShot reqs
      → (let rest = handle_connection username uid cfg describe reads later in
          handle_connection username uid cfg describe (map received reqs ++ reads) later
          ≡ (map answer reqs ++ rest.0, rest.1))
  unfolding handle_connection
  handle_connection-append describe [] reads later h = refl
  handle_connection-append describe ((get_status, m) ∷ reqs) reads later h =
      rw (h.1, handle_connection-append describe reqs reads later h.2)
  handle_connection-append describe ((report_session_state l i, m) ∷ reqs) reads later h =
      rw (h.1, handle_connection-append describe reqs reads later h.2)
  handle_connection-append describe ((subscribe, m) ∷ reqs) reads later h = absurd (h.0 refl)

  -- The updates that wake-ups and lags ask for; frames of the client ask for none.
  abbrev pub moments : List SubEvent → List Moment
  moments [] = []
  moments (woken m ∷ events) = m ∷ moments events
  moments (lagged m ∷ events) = m ∷ moments events
  moments (broadcast_closed ∷ events) = moments events
  moments (client r ∷ events) = moments events

  -- Events that keep a subscription alive.
  abbrev pub AllLive : List SubEvent → Type 0
  AllLive [] = Unit {0}
  AllLive (woken m ∷ events) = (m.written ≡ true) × AllLive events
  AllLive (lagged m ∷ events) = (m.written ≡ true) × AllLive events
  AllLive (broadcast_closed ∷ events) = ⊥
  AllLive (client (ok req) ∷ events) = AllLive events
  AllLive (client (err e) ∷ events) = ⊥

  push_updates-map :
      (events : List SubEvent)
      → AllLive events
      → push_updates username uid cfg events
        ≡ (map (update_at username uid cfg) (moments events), waiting)
  unfolding push_updates
  push_updates-map [] h = refl
  push_updates-map (woken m ∷ events) h = rw (h.0, push_updates-map events h.1)
  push_updates-map (lagged m ∷ events) h = rw (h.0, push_updates-map events h.1)
  push_updates-map (broadcast_closed ∷ events) h = absurd h
  push_updates-map (client (ok req) ∷ events) h = push_updates-map events h
  push_updates-map (client (err e) ∷ events) h = absurd h

  -- A subscription sends one update at once, then one for each wake-up and each lag, each with the
  -- state of its moment, and none for a frame of the client.
  pub run_subscribe_lem :
      (m : Moment) (events : List SubEvent)
      → m.written ≡ true
      → AllLive events
      → run_subscribe username uid cfg m events ≡ (
        update_at username uid cfg m ∷ map (update_at username uid cfg) (moments events),
        waiting,
      )
  unfolding run_subscribe
  run_subscribe_lem m events w h = rw (w, push_updates-map events h)
