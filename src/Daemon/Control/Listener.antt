-- ===== src/Daemon/Control/Listener.antt =====
-- The listener of the admin channel: `ControlListener`, `accept_peer` and the reply of
-- `handle_peer_message` of crates/daemon/src/control/xpc.rs. Peers are handles; the events come in
-- the order in which the library delivers them.
pub mod Denied
use konstantin.Common.{
  ℕ, zero, suc, String, ◌+◌, Bool, true, false, not, ◌&&◌, Option, none, some, List, [], ◌∷◌, ◌++◌,
  if◌then◌else◌, nat_eq, string_eq, Map, lookup, insert,
}
use konstantin.Common.Outcome.{bail, Result, ok, err}
use konstantin.Common.Int.{ℤ, pos, negsuc}
use konstantin.Common.Files.{Files, Paths}
use konstantin.Proto.Admin.{AdminRequest, AdminResponse, EnvelopeCodec}
use konstantin.Daemon.Control.{World, Controller}
use konstantin.Daemon.Control.Auth.{Operator, Output, operator_from_uid}
use konstantin.Daemon.Control.Xpc.{handle_peer_message}

-- A listener that runs, and whether the library checks the team and the signing identifier of its
-- peers.
pub record Listening : Type 0 where
  pub handle : ℕ
  pub checks_peers : Bool

abbrev pub is_zero : ℤ → Bool
is_zero (pos zero) = true
is_zero (pos (suc n)) = false
is_zero (negsuc n) = false

-- `ControlListener::start`, from the connection and the status of the requirement, which is only
-- logged.
unfoldable pub start : Option ℕ → ℤ → Result Listening
start none status = err (bail "xpc_connection_create_mach_service returned NULL")
start (some listener) status = ok (record { handle = listener; checks_peers = is_zero status })

-- What arrives: a peer with its effective uid, what the user database and `dscl` answer for it then,
-- or a message of a peer with its payload and whether it has a reply context.
pub data Event : Type 0 where
  connected : ℕ → ℕ → Result (Option String) → Result Output → Event
  message : ℕ → Result (Option String) → Bool → Event
  null_peer null_message : Event

-- The operator of each peer is found out once, when it connects.
pub record Peers (Fs : Type 0) : Type 0 where
  pub operators : Map ℕ Operator
  pub world : World Fs

-- A text of the reply that a C string can hold.
abbrev pub sendable : (String → Bool) → Bool → String × Bool → List (String × Bool)
sendable has_nul has_context (json, success) =
    if has_context && not (has_nul json) then (json, success) ∷ [] else []

module _ {Fs : Type 0} (files : Files Fs) (paths : Paths) (c : Controller)
    (requests : EnvelopeCodec AdminRequest) (responses : EnvelopeCodec AdminResponse)
    (has_nul : String → Bool) where
  abbrev pub answer :
      Option Operator → Result (Option String) → Bool → Peers Fs → List (String × Bool) × Peers Fs
  answer none payload has_context s = ([], s)
  answer (some operator) payload has_context s =
      let (reply, w) =
        handle_peer_message files paths c requests responses operator payload s.world in
      (sendable has_nul has_context reply, record s { world = w })

  -- `accept_peer`
  unfoldable pub accept_peer : ℕ → ℕ → Result (Option String) → Result Output → Peers Fs → Peers Fs
  unfolding operator_from_uid insert
  accept_peer peer euid name admins s = record s {
    operators = insert peer (operator_from_uid c.describe euid name admins) s.operators;
  }

  unfoldable pub on_event : Event → Peers Fs → List (String × Bool) × Peers Fs
  unfolding accept_peer handle_peer_message lookup
  on_event (connected peer euid name admins) s = ([], accept_peer peer euid name admins s)
  on_event (message peer payload has_context) s =
      answer (lookup peer s.operators) payload has_context s
  on_event null_peer s = ([], s)
  on_event null_message s = ([], s)

  -- The replies that are sent, in order, and the state after the events.
  unfoldable pub serve_events : List Event → Peers Fs → List (String × Bool) × Peers Fs
  unfolding on_event
  serve_events [] s = ([], s)
  serve_events (e ∷ events) s =
      let (now, s') = on_event e s in
      let (later, s'') = serve_events events s' in (now ++ later, s'')
