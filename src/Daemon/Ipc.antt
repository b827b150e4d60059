-- ===== src/Daemon/Ipc.antt =====
-- The status socket: crates/daemon/src/ipc.rs. A connection is a run over what happens to it: what
-- each read gives, the shared state and the next midnight at that time, and whether the answer's
-- write goes through.
pub mod Status
pub mod Ranges
pub mod Answers
pub mod Own
pub mod Server
use Prim.Native.String.{◌++◌ as str_append}
use konstantin.Common.{
  ℕ, String, Bool, Option, none, some, List, [], ◌∷◌, leb, if◌then◌else◌, unwrap_or,
}
use konstantin.Common.Outcome as R
use konstantin.Common.Decimal.{decimal}
use konstantin.Common.Int.{sub_ℕ}
use konstantin.Proto.{
  Request, get_status, subscribe, report_session_state, SessionState, active, limit_reached,
  offline, not_configured, UserStatus, Response, status, status_update, ack, error,
}
use konstantin.Proto.Frame.{FrameError, closed, Outcome, ok, err}
use konstantin.Daemon.Config.{Config, UserConfig, user_by_name}
use konstantin.Daemon.State.{State, used, is_active}
use konstantin.Daemon.Enforcement.{limit_seconds}

abbrev pub session_state : UserConfig → ℕ → Bool → SessionState
session_state u used active_now =
    if leb (limit_seconds u) used then limit_reached else if active_now then active else offline

abbrev pub state_and_limit : Option UserConfig → ℕ → Bool → SessionState × ℕ
state_and_limit none used active_now = (not_configured, 0)
state_and_limit (some u) used active_now = (session_state u used active_now, limit_seconds u)

unfoldable pub compute_status : String → ℕ → Config → State → ℕ → UserStatus
compute_status username uid cfg s next_midnight =
    let (st, limit) =
      state_and_limit (user_by_name cfg username) (used s username) (is_active s username) in
    record {
      uid = uid;
      username = username;
      state = st;
      daily_limit_seconds = limit;
      used_seconds = used s username;
      remaining_seconds = sub_ℕ limit (used s username);
      resets_at = next_midnight;
      warn_thresholds_minutes = cfg.warn_thresholds_minutes;
    }

-- The name of the peer: from the user database, or made of the uid.
unfoldable pub peer_name : (ℕ → Option String) → ℕ → String
peer_name from_uid uid = unwrap_or (str_append "uid:" (decimal uid)) (from_uid uid)

-- What a connection sees of the daemon when it answers, and whether its write goes through.
pub record Moment : Type 0 where
  pub state : State
  pub next_midnight : ℕ
  pub written : Bool

-- What `select!` takes up next in `run_subscribe`.
pub data SubEvent : Type 0 where
  woken : Moment → SubEvent
  lagged : Moment → SubEvent
  broadcast_closed : SubEvent
  client : Outcome FrameError Request → SubEvent

-- How a connection stands when the events are used up, or how it ended.
pub data Ending : Type 0 where
  waiting finished write_failed bad_frame : Ending

module _ (username : String) (uid : ℕ) (cfg : Config) where
  abbrev pub update_at : Moment → Response
  update_at m = status_update (compute_status username uid cfg m.state m.next_midnight)

  abbrev pub then_also : Response → List Response × Ending → List Response × Ending
  then_also r (rs, e) = (r ∷ rs, e)

  -- The loop of `run_subscribe`: the responses that are written, in order. A write that fails or a
  -- client that is gone ends the session with `Ok`; a frame from the client is ignored.
  unfoldable pub push_updates : List SubEvent → List Response × Ending
  push_updates [] = ([], waiting)
  push_updates (woken m ∷ events) =
      let rest = push_updates events in
      if m.written then then_also (update_at m) rest else ([], finished)
  push_updates (lagged m ∷ events) =
      let rest = push_updates events in
      if m.written then then_also (update_at m) rest else ([], finished)
  push_updates (broadcast_closed ∷ events) = ([], finished)
  push_updates (client (err e) ∷ events) = ([], finished)
  push_updates (client (ok req) ∷ events) = push_updates events

  unfoldable pub run_subscribe : Moment → List SubEvent → List Response × Ending
  unfolding push_updates
  run_subscribe m events =
      let rest = push_updates events in
      if m.written then then_also (update_at m) rest else ([], write_failed)

  -- The response to a one-shot request.
  abbrev pub one_shot : Moment → Response → List Response × Ending → List Response × Ending
  one_shot m r rest = if m.written then then_also r rest else ([], write_failed)

  -- The loop of `handle_connection` over what its reads give; `later` is what happens to the
  -- connection once it is a subscription. The text of a bad frame's error is an argument.
  unfoldable pub handle_connection :
      (FrameError → String)
      → List (Outcome FrameError Request × Moment)
      → List SubEvent
      → List Response × Ending
  unfolding compute_status run_subscribe
  handle_connection describe [] later = ([], waiting)
  handle_connection describe ((err closed, m) ∷ reads) later = ([], finished)
  handle_connection describe ((err e, m) ∷ reads) later =
      (if m.written then error (describe e) ∷ [] else [], bad_frame)
  handle_connection describe ((ok get_status, m) ∷ reads) later =
      let rest = handle_connection describe reads later in
      one_shot m (status (compute_status username uid cfg m.state m.next_midnight)) rest
  handle_connection describe ((ok (report_session_state locked idle), m) ∷ reads) later =
      let rest = handle_connection describe reads later in one_shot m ack rest
  handle_connection describe ((ok subscribe, m) ∷ reads) later = run_subscribe m later

-- `handle_connection` from its start, with what `getpeereid` gives for the stream.
unfoldable pub handle_peer :
    (ℕ → Option String)
    → Config
    → R.Result ℕ
    → (FrameError → String)
    → List (Outcome FrameError Request × Moment)
    → List SubEvent
    → R.Result (List Response × Ending)
unfolding peer_name handle_connection
handle_peer from_uid cfg (R.err e) describe reads later = R.err e
handle_peer from_uid cfg (R.ok uid) describe reads later =
    R.ok (handle_connection (peer_name from_uid uid) uid cfg describe reads later)
