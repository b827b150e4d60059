-- ===== src/Daemon/Control/Xpc/Replies.antt =====
-- What the peer reads in a reply of crates/daemon/src/control/xpc.rs.
use konstantin.Common.{String, ◌≡◌, inl, refl, false, Option, none, some, nat_eq, string_eq}
use konstantin.Common.Outcome.{Result, ok, err}
use konstantin.Common.Files.{Files, Paths}
use konstantin.Proto.Admin.{
  AdminRequest, AdminResponse, Envelope, EnvelopeCodec, new, to_json, from_json, from_json_iff,
}
use konstantin.Daemon.Control.{World, Controller, handle}
use konstantin.Daemon.Control.Auth.{Operator}
use konstantin.Daemon.Control.Denied.{handle_keeps}
use konstantin.Daemon.Control.Xpc.{
  is_success, answer_envelope, response_json, handle_request_json, handle_peer_message,
}

module _ {Fs : Type 0} (files : Files Fs) (paths : Paths) (c : Controller)
    (requests : EnvelopeCodec AdminRequest) (responses : EnvelopeCodec AdminResponse) where
  written_back :
      (e : Envelope AdminResponse) (text : String)
      → e.version ≡ 2
      → to_json responses e ≡ ok text
      → from_json responses text ≡ ok e
  unfolding to_json
  written_back e text v t = (from_json_iff responses text e).1 (responses.decodes e text t, v)

  -- When a message carries a request of the program's version and the answer can be serialized, the
  -- peer reads back that answer under the id of the request, the files and restarts are those of the
  -- request, and the success flag is set exactly if the answer is neither an error nor a refusal.
  pub handle_peer_message_lem :
      (operator : Operator) (json text : String) (env : Envelope AdminRequest) (w : World Fs)
      → from_json requests json ≡ ok env
      → to_json responses (new env.request_id (handle files paths c operator env.body w).0)
        ≡ ok text
      → let (answer, w') = handle files paths c operator env.body w in
        let ((reply, flag), after) =
          handle_peer_message files paths c requests responses operator (ok (some json)) w in
        (from_json responses reply ≡ ok (new env.request_id answer))
        × (flag ≡ is_success answer)
        × (after ≡ w')
  unfolding handle_peer_message handle_request_json
  handle_peer_message_lem operator json text env w e t =
      let back =
        written_back (new env.request_id (handle files paths c operator env.body w).0) text refl
          t in
      rw (e, t, back) (refl, refl, refl)

  answer_envelope-denied :
      (operator : Operator) (r : Result (Envelope AdminRequest)) (w : World Fs)
      → operator.allowed ≡ false
      → (answer_envelope files paths c requests responses operator r w).1 ≡ w
  answer_envelope-denied operator (ok env) w h =
      handle_keeps files paths c operator env.body w (inl h)
  answer_envelope-denied operator (err e) w h = refl

  response_json-denied :
      (operator : Operator) (payload : Result (Option String)) (w : World Fs)
      → operator.allowed ≡ false
      → (response_json files paths c requests responses operator payload w).1 ≡ w
  unfolding handle_request_json
  response_json-denied operator (ok (some json)) w h =
      answer_envelope-denied operator (from_json requests json) w h
  response_json-denied operator (ok none) w h = refl
  response_json-denied operator (err e) w h = refl

  -- Whatever a message of an operator who is not allowed holds, it changes no file and schedules no
  -- restart.
  pub handle_peer_message-denied :
      (operator : Operator) (payload : Result (Option String)) (w : World Fs)
      → operator.allowed ≡ false
      → (handle_peer_message files paths c requests responses operator payload w).1 ≡ w
  unfolding handle_peer_message
  handle_peer_message-denied operator payload w h = response_json-denied operator payload w h
