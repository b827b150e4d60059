-- ===== src/Daemon/Control/Listener/Denied.antt =====
-- Peers without rights: crates/daemon/src/control/xpc.rs.
use konstantin.Common.{
  ℕ, String, ◌≡◌, refl, sym, ◌∙◌, Bool, true, false, Option, none, some, List, [], ◌∷◌,
  if◌then◌else◌, ◌==◌, nat_eq, string_eq, Map, lookup, insert, lookup-insert,
}
use konstantin.Common.Outcome.{Failure, Result}
use mathlib.Core.Path.{subst}
use konstantin.Common.Files.{Files, Paths}
use konstantin.Proto.Admin.{AdminRequest, AdminResponse, EnvelopeCodec}
use konstantin.Daemon.Control.{Controller}
use konstantin.Daemon.Control.Auth.{Operator, operator_from_uid}
use konstantin.Daemon.Control.Xpc.Replies.{handle_peer_message-denied}
use konstantin.Daemon.Control.Listener.{
  Event, connected, message, null_peer, null_message, Peers, answer, accept_peer, on_event,
  serve_events,
}

-- No operator that the listener knows is allowed.
abbrev pub AllDenied : Map ℕ Operator → Type 0
AllDenied operators = (peer : ℕ) (o : Operator) → lookup peer operators ≡ some o → o.allowed ≡ false

-- Every peer that connects has an operator who is not allowed.
abbrev pub ConnectDenied : (Failure → String) → List Event → Type 0
ConnectDenied describe [] = Unit {0}
ConnectDenied describe (connected peer euid name admins ∷ rest) =
    ((operator_from_uid describe euid name admins).allowed ≡ false) × ConnectDenied describe rest
ConnectDenied describe (message peer payload has_context ∷ rest) = ConnectDenied describe rest
ConnectDenied describe (null_peer ∷ rest) = ConnectDenied describe rest
ConnectDenied describe (null_message ∷ rest) = ConnectDenied describe rest

abbrev DeniedIn : Option Operator → Type 0
DeniedIn none = Unit {0}
DeniedIn (some o) = o.allowed ≡ false

picked_denied :
    (b : Bool) (new o : Operator) (before : Option Operator)
    → (if b then some new else before) ≡ some o
    → new.allowed ≡ false
    → (before ≡ some o → o.allowed ≡ false)
    → o.allowed ≡ false
picked_denied true new o before e d h = subst DeniedIn e d
picked_denied false new o before e d h = h e

AllDenied-insert :
    (operators : Map ℕ Operator) (peer : ℕ) (new : Operator)
    → new.allowed ≡ false
    → AllDenied operators
    → AllDenied (insert peer new operators)
AllDenied-insert operators peer new d h other o e =
    picked_denied (peer == other) new o _ (sym (lookup-insert peer other new operators) ∙ e) d
      (h other o)

module _ {Fs : Type 0} (files : Files Fs) (paths : Paths) (c : Controller)
    (requests : EnvelopeCodec AdminRequest) (responses : EnvelopeCodec AdminResponse)
    (has_nul : String → Bool) where
  answer-denied :
      (o : Option Operator) (payload : Result (Option String)) (has_context : Bool) (s : Peers Fs)
      → ((a : Operator) → o ≡ some a → a.allowed ≡ false)
      → ((answer files paths c requests responses has_nul o payload has_context s).1.operators
          ≡ s.operators)
        × ((answer files paths c requests responses has_nul o payload has_context s).1.world
            ≡ s.world)
  answer-denied none payload has_context s h = (refl, refl)
  answer-denied (some a) payload has_context s h = (
    refl,
    handle_peer_message-denied files paths c requests responses a payload s.world (h a refl),
  )

  -- As long as only peers connect whose user is not allowed, no message changes a file or schedules
  -- a restart, in whatever order the peers come and send, and whatever they send.
  pub serve_events-denied :
      (events : List Event) (s : Peers Fs)
      → AllDenied s.operators
      → ConnectDenied c.describe events
      → (serve_events files paths c requests responses has_nul events s).1.world ≡ s.world
  unfolding serve_events on_event accept_peer
  serve_events-denied [] s known h = refl
  serve_events-denied (connected peer euid name admins ∷ rest) s known h =
      serve_events-denied rest _ (AllDenied-insert s.operators peer _ h.0 known) h.1
  serve_events-denied (message peer payload has_context ∷ rest) s known h =
      let (same, still) =
        answer-denied (lookup peer s.operators) payload has_context s (known peer) in
      serve_events-denied rest _ (subst AllDenied (sym same) known) h ∙ still
  serve_events-denied (null_peer ∷ rest) s known h = serve_events-denied rest s known h
  serve_events-denied (null_message ∷ rest) s known h = serve_events-denied rest s known h
