-- ===== src/Tray/AdminClient/Exchange.antt =====
-- The client of crates/tray/src/admin_xpc.rs against the daemon of
-- crates/daemon/src/control/xpc.rs, over a transport that delivers.
use konstantin.Common.{ℕ, String, ◌≡◌, refl, ◌∙◌, false, Option, some, nat_eq, string_eq, beq_refl}
use konstantin.Common.Outcome.{Result, ok}
use konstantin.Common.Int.{pos}
use konstantin.Common.Files.{Files, Paths}
use konstantin.Proto.Admin.{
  AdminRequest, AdminResponse, EnvelopeCodec, new, to_json, from_json, from_json_iff,
}
use konstantin.Daemon.Control.{World, Controller, handle}
use konstantin.Daemon.Control.Auth.{Operator}
use konstantin.Daemon.Control.Xpc.{handle_peer_message}
use konstantin.Daemon.Control.Xpc.Replies.{handle_peer_message_lem}
use mathlib.Core.Path.{subst}
use konstantin.Tray.AdminClient.{
  Xpc, releasing, disconnecting, has_nul, cstring, key_payload_json, set_string, get_string,
  connect, read_reply, exchange, with_message, send_blocking,
}

-- A library whose service is up: its calls succeed, a message holds the text that was put in, and
-- the reply to a message holds what `serve` makes of the message's text. `outside` is what lies
-- behind the service.
pub record Reliable {W O : Type 0} (xpc : Xpc W) (outside : W → O) (text : ℕ → W → Option String)
    (serve : String → O → String × O) : Type 0 where
  pub connects :
      (w : W)
      → (c : ℕ) × (v : W) × (xpc.create_mach_service w ≡ (some c, v)) × (outside v ≡ outside w)
  pub accepts :
      (c : ℕ) (w : W)
      → (v : W) × (xpc.set_peer_team_identity_requirement c w ≡ (pos 0, v))
        × (outside v ≡ outside w)
  pub activates : (c : ℕ) (w : W) → outside (xpc.activate c w) ≡ outside w
  pub cancels : (c : ℕ) (w : W) → outside (xpc.cancel c w) ≡ outside w
  pub releases : (h : ℕ) (w : W) → outside (xpc.release h w) ≡ outside w
  pub creates :
      (w : W)
      → (m : ℕ) × (v : W) × (xpc.dictionary_create_empty w ≡ (some m, v)) × (outside v ≡ outside w)
  pub holds :
      (m : ℕ) (value : String) (w : W)
      → text m (xpc.dictionary_set_string m key_payload_json value w) ≡ some value
  pub puts :
      (m : ℕ) (value : String) (w : W)
      → outside (xpc.dictionary_set_string m key_payload_json value w) ≡ outside w
  pub replies :
      (c m : ℕ) (request : String) (w : W)
      → text m w ≡ some request
      → (reply : ℕ) × (v : W) × (xpc.send_message_with_reply_sync c m w ≡ (some reply, v))
        × (xpc.dictionary_get_string reply key_payload_json v
            ≡ ok (some (serve request (outside w)).0))
        × (outside v ≡ (serve request (outside w)).1)

module _ {W O : Type 0} (xpc : Xpc W) (outside : W → O) (text : ℕ → W → Option String)
    (serve : String → O → String × O) (up : Reliable xpc outside text serve)
    (requests : EnvelopeCodec AdminRequest) (responses : EnvelopeCodec AdminResponse) where
  -- How a request ends, and what lies behind the service then.
  abbrev Ends : AdminResponse → O → Result AdminResponse × W → Type 0
  Ends answer o q = (q.0 ≡ ok answer) × (outside q.1 ≡ o)

  exchange-Ends :
      (request_id json : String) (c m : ℕ) (answer : AdminResponse) (w : W)
      → text m w ≡ some json
      → from_json responses (serve json (outside w)).0 ≡ ok (new request_id answer)
      → Ends answer
          (serve json (outside w)).1
          (exchange xpc requests responses request_id c m (ok tt, w))
  unfolding read_reply get_string cstring has_nul
  exchange-Ends request_id json c m answer w t back =
      let (reply, v, sent, payload, after) = up.replies c m json w t in
      rw sent (rw (payload, back, beq_refl request_id) (refl, up.releases reply v ∙ after))

  releasing-Ends :
      (h : ℕ) (answer : AdminResponse) (o : O) (q : Result AdminResponse × W)
      → Ends answer o q
      → Ends answer o (releasing xpc h q)
  releasing-Ends h answer o (r, w) e = (e.0, up.releases h w ∙ e.1)

  disconnecting-Ends :
      (h : ℕ) (answer : AdminResponse) (o : O) (q : Result AdminResponse × W)
      → Ends answer o q
      → Ends answer o (disconnecting xpc h q)
  disconnecting-Ends h answer o (r, w) e =
      (e.0, up.releases h (xpc.cancel h w) ∙ up.cancels h w ∙ e.1)

  set_string_clean :
      (m : ℕ) (json : String) (w : W)
      → has_nul json ≡ false
      → set_string xpc m key_payload_json json w
        ≡ (ok tt, xpc.dictionary_set_string m key_payload_json json w)
  unfolding set_string cstring has_nul
  set_string_clean m json w clean = rw clean

  with_message-Ends :
      (request_id json : String) (c m : ℕ) (answer : AdminResponse) (w : W)
      → has_nul json ≡ false
      → from_json responses (serve json (outside w)).0 ≡ ok (new request_id answer)
      → Ends answer
          (serve json (outside w)).1
          (with_message xpc requests responses request_id c json (some m, w))
  with_message-Ends request_id json c m answer w clean back =
      let held = up.puts m json w in
      releasing-Ends m answer (serve json (outside w)).1 _ (
        rw (set_string_clean m json w clean) (
          subst
            (λ o. Ends answer (serve json o).1 (
              exchange xpc requests responses request_id c m
                (ok tt, xpc.dictionary_set_string m key_payload_json json w)))
            held (exchange-Ends request_id json c m answer _ (up.holds m json w) (rw held back))))

  -- Over a transport that is up, a request whose text has no NUL ends with the answer that the
  -- service's reply holds under the request's id, and the service has served that text once.
  pub send_blocking-Reliable :
      (request_id json : String) (request : AdminRequest) (answer : AdminResponse) (w : W)
      → to_json requests (new request_id request) ≡ ok json
      → has_nul json ≡ false
      → from_json responses (serve json (outside w)).0 ≡ ok (new request_id answer)
      → ((send_blocking xpc requests responses request_id request w).0 ≡ ok answer)
        × (outside (send_blocking xpc requests responses request_id request w).1
            ≡ (serve json (outside w)).1)
  unfolding send_blocking connect
  send_blocking-Reliable request_id json request answer w encoded clean back =
      let (c, v, made, o1) = up.connects w in
      let (u, accepted, o2) = up.accepts c v in
      let (m, x, created, o4) = up.creates (xpc.activate c u) in
      let o : outside x ≡ outside w = o4 ∙ up.activates c u ∙ o2 ∙ o1 in
      rw (made, accepted)
        (disconnecting-Ends c answer (serve json (outside w)).1 _ (
          rw (encoded, created)
            (subst
              (λ p.
                Ends answer (serve json p).1
                  (with_message xpc requests responses request_id c json (some m, x)))
              o (with_message-Ends request_id json c m answer x clean (rw o back)))))

module _ {Fs : Type 0} (files : Files Fs) (paths : Paths) (controller : Controller)
    (operator : Operator) (requests : EnvelopeCodec AdminRequest)
    (responses : EnvelopeCodec AdminResponse) where
  -- The daemon behind the transport, for the operator of the connection.
  abbrev pub daemon : String → World Fs → String × World Fs
  daemon request_json w =
      let (reply, after) =
        handle_peer_message files paths controller requests responses operator
          (ok (some request_json)) w in
      (reply.0, after)

module _ {Fs W : Type 0} (files : Files Fs) (paths : Paths) (controller : Controller)
    (operator : Operator) (requests : EnvelopeCodec AdminRequest)
    (responses : EnvelopeCodec AdminResponse) (xpc : Xpc W) (outside : W → World Fs)
    (text : ℕ → W → Option String) where
  -- The menu bar's call of the daemon is the controller's: over a transport that is up, a request that
  -- can be written, and whose answer can, ends with exactly the answer that the controller gives the
  -- operator, and leaves the daemon's files and restarts as the controller leaves them.
  pub send_blocking-handle :
      (request_id json reply : String) (request : AdminRequest) (w : W)
      → Reliable xpc outside text (daemon files paths controller operator requests responses)
      → to_json requests (new request_id request) ≡ ok json
      → has_nul json ≡ false
      → to_json responses
          (new request_id (handle files paths controller operator request (outside w)).0)
        ≡ ok reply
      → let (answer, after) = handle files paths controller operator request (outside w) in
        let r = send_blocking xpc requests responses request_id request w in
        (r.0 ≡ ok answer) × (outside r.1 ≡ after)
  unfolding to_json
  send_blocking-handle request_id json reply request w up encoded clean answered =
      let received =
        (from_json_iff requests json (new request_id request)).1
          (requests.decodes (new request_id request) json encoded, refl) in
      let (back, flag, after) =
        handle_peer_message_lem files paths controller requests responses operator json reply
          (new request_id request) (outside w) received answered in
      let (got, left) =
        send_blocking-Reliable xpc outside text
          (daemon files paths controller operator requests responses) up requests responses
          request_id json request (handle files paths controller operator request (outside w)).0 w
          encoded clean back in
      (got, left ∙ after)
