-- ===== src/Daemon/Ipc/Own.antt =====
-- A peer's connection and the other users: `handle_connection` of crates/daemon/src/ipc.rs.
use konstantin.Common.{
  ℕ, String, ◌≡◌, refl, Bool, true, false, Option, none, some, List, [], ◌∷◌, map, if◌then◌else◌,
  nat_eq, string_eq, beq_refl, Map, lookup, contains,
}
use konstantin.Common.Outcome as R
use konstantin.Proto.{Request, get_status, subscribe, report_session_state, Response}
use konstantin.Proto.Frame.{FrameError, closed, io, json, frame_too_large, Outcome, ok, err}
use konstantin.Daemon.Config.{Config, UserConfig, user_by_name}
use konstantin.Daemon.State.{State, used, is_active}
use konstantin.Daemon.Ipc.{
  compute_status, peer_name, Moment, SubEvent, woken, lagged, broadcast_closed, client, Ending,
  push_updates, run_subscribe, handle_connection, handle_peer,
}
use konstantin.Daemon.Ipc.Answers.{AllScoped, handle_connection-AllScoped}

-- What the daemon holds, with everything of the other users taken away.
module _ (username : String) where
  abbrev pub own_state : State → State
  own_state s = record {
    day = none;
    counters = (username, used s username) ∷ [];
    active_now = if is_active s username then username ∷ [] else [];
  }

  abbrev pub own_users : Option UserConfig → Map String UserConfig
  own_users none = []
  own_users (some u) = (username, u) ∷ []

  abbrev pub own_config : Config → Config
  own_config cfg = record cfg { users = own_users (user_by_name cfg username) }

  abbrev pub own_moment : Moment → Moment
  own_moment m = record m { state = own_state m.state }

  abbrev pub own_event : SubEvent → SubEvent
  own_event (woken m) = woken (own_moment m)
  own_event (lagged m) = lagged (own_moment m)
  own_event broadcast_closed = broadcast_closed
  own_event (client r) = client r

  abbrev pub own_read : Outcome FrameError Request × Moment → Outcome FrameError Request × Moment
  own_read (r, m) = (r, own_moment m)

  lookup-own_users : (o : Option UserConfig) → lookup username (own_users o) ≡ o
  unfolding lookup
  lookup-own_users none = refl
  lookup-own_users (some u) = rw (beq_refl username)

  contains-own : (b : Bool) → contains (if b then username ∷ [] else []) username ≡ b
  unfolding contains
  contains-own true = rw (beq_refl username)
  contains-own false = refl

  used-own_state : (s : State) → used (own_state s) username ≡ used s username
  unfolding used lookup
  used-own_state s = rw (beq_refl username)

  is_active-own_state : (s : State) → is_active (own_state s) username ≡ is_active s username
  unfolding is_active
  is_active-own_state s = contains-own (is_active s username)

  user_by_name-own_config :
      (cfg : Config) → user_by_name (own_config cfg) username ≡ user_by_name cfg username
  unfolding user_by_name
  user_by_name-own_config cfg = lookup-own_users (user_by_name cfg username)

  module _ (uid : ℕ) (cfg : Config) where
    -- The status of a user is made of that user's part of the state and of the configuration.
    compute_status-own :
        (s : State) (next : ℕ)
        → compute_status username uid (own_config cfg) (own_state s) next
          ≡ compute_status username uid cfg s next
    unfolding compute_status
    compute_status-own s next =
        rw (used-own_state s, is_active-own_state s, user_by_name-own_config cfg)

    push_updates-own :
        (events : List SubEvent)
        → push_updates username uid (own_config cfg) (map own_event events)
          ≡ push_updates username uid cfg events
    unfolding push_updates
    push_updates-own [] = refl
    push_updates-own (woken m ∷ events) =
        rw (compute_status-own m.state m.next_midnight, push_updates-own events)
    push_updates-own (lagged m ∷ events) =
        rw (compute_status-own m.state m.next_midnight, push_updates-own events)
    push_updates-own (broadcast_closed ∷ events) = refl
    push_updates-own (client (err e) ∷ events) = refl
    push_updates-own (client (ok req) ∷ events) = push_updates-own events

    run_subscribe-own :
        (m : Moment) (events : List SubEvent)
        → run_subscribe username uid (own_config cfg) (own_moment m) (map own_event events)
          ≡ run_subscribe username uid cfg m events
    unfolding run_subscribe
    run_subscribe-own m events =
        rw (compute_status-own m.state m.next_midnight, push_updates-own events)

    handle_connection-own :
        (describe : FrameError → String) (reads : List (Outcome FrameError Request × Moment))
        (later : List SubEvent)
        → handle_connection username uid
            (own_config cfg)
            describe
            (map own_read reads)
            (map own_event later)
          ≡ handle_connection username uid cfg describe reads later
    unfolding handle_connection
    handle_connection-own describe [] later = refl
    handle_connection-own describe ((err closed, m) ∷ reads) later = refl
    handle_connection-own describe ((err (io e), m) ∷ reads) later = refl
    handle_connection-own describe ((err json, m) ∷ reads) later = refl
    handle_connection-own describe ((err (frame_too_large a b), m) ∷ reads) later = refl
    handle_connection-own describe ((ok get_status, m) ∷ reads) later =
        rw (compute_status-own m.state m.next_midnight, handle_connection-own describe reads later)
    handle_connection-own describe ((ok (report_session_state l i), m) ∷ reads) later =
        rw (handle_connection-own describe reads later)
    handle_connection-own describe ((ok subscribe, m) ∷ reads) later = run_subscribe-own m later

-- The responses of a connection.
abbrev pub responses : R.Result (List Response × Ending) → List Response
responses (R.ok (rs, e)) = rs
responses (R.err e) = []

-- On the connection of a peer whose uid the kernel gives, every status is labelled with this uid and
-- the name that the user database has for it, and the whole connection, its responses and its end,
-- is the same as that of a daemon whose state and configuration hold nothing of any other user, at
-- any moment: no counter, limit or presence of another user reaches the peer, whatever it sends.
pub handle_peer-own :
    (from_uid : ℕ → Option String) (cfg : Config) (uid : ℕ) (describe : FrameError → String)
    (reads : List (Outcome FrameError Request × Moment)) (later : List SubEvent)
    → let username = peer_name from_uid uid in
      let served = handle_peer from_uid cfg (R.ok uid) describe reads later in
      AllScoped username uid cfg (responses served)
      × (handle_peer from_uid
            (own_config username cfg)
            (R.ok uid)
            describe
            (map (own_read username) reads)
            (map (own_event username) later)
          ≡ served)
unfolding handle_peer
handle_peer-own from_uid cfg uid describe reads later =
    let username = peer_name from_uid uid in
    (
      handle_connection-AllScoped username uid cfg describe reads later,
      rw (handle_connection-own username uid cfg describe reads later),
    )
