-- ===== src/Daemon/Control/Xpc.antt =====
-- The JSON dispatch of the admin channel: crates/daemon/src/control/xpc.rs. What the message holds
-- under its payload key is an argument; the dictionaries and connections are foreign code.
pub mod Replies
use Prim.Native.String.{◌++◌ as str_append}
use konstantin.Common.{String, Bool, true, false, Option, none, some}
use konstantin.Common.Outcome.{Result, ok, err}
use konstantin.Common.Files.{Files, Paths}
use konstantin.Proto.Admin.{
  AdminRequest, AdminResponse, error, unauthorized, Envelope, EnvelopeCodec, new, to_json,
  from_json,
}
use konstantin.Daemon.Control.{World, Controller, handle}
use konstantin.Daemon.Control.Auth.{Operator}

abbrev pub fatal_response : String
fatal_response =
    "{\"version\":1,\"request_id\":\"\",\"response\":{\"kind\":\"error\",\"message\":\"fatal response serialization error\"}}"

abbrev pub text_or : String → Result String → String
text_or other (ok text) = text
text_or other (err e) = other

-- Whether an answer counts as a success.
abbrev pub is_success : AdminResponse → Bool
is_success (error message) = false
is_success (unauthorized reason) = false
is_success _ = true

abbrev pub succeeded : Result (Envelope AdminResponse) → Bool
succeeded (ok env) = is_success env.body
succeeded (err e) = false

module _ {Fs : Type 0} (files : Files Fs) (paths : Paths) (c : Controller)
    (requests : EnvelopeCodec AdminRequest) (responses : EnvelopeCodec AdminResponse) where
  -- The text of a response, or of the error that its serialization gave.
  abbrev pub text_of_response : Result String → String
  text_of_response (ok json) = json
  text_of_response (err e) = text_or fatal_response (
      responses.to_string
        (new "" (error (str_append "serializing admin XPC response envelope: " (c.describe e)))))

  abbrev pub answer_envelope :
      Operator → Result (Envelope AdminRequest) → World Fs → Envelope AdminResponse × World Fs
  answer_envelope operator (ok env) w =
      let (response, w') = handle files paths c operator env.body w in
      (new env.request_id response, w')
  answer_envelope operator (err e) w = (new "" (error (c.describe e)), w)

  unfoldable pub handle_request_json : Operator → String → World Fs → String × World Fs
  unfolding handle to_json from_json
  handle_request_json operator request_json w =
      let (response, w') = answer_envelope operator (from_json requests request_json) w in
      (text_of_response (to_json responses response), w')

  unfoldable pub error_response_json : String → String
  unfolding to_json
  error_response_json message = text_or fatal_response (to_json responses (new "" (error message)))

  abbrev pub response_json : Operator → Result (Option String) → World Fs → String × World Fs
  response_json operator (ok (some request_json)) w = handle_request_json operator request_json w
  response_json operator (ok none) w =
      (error_response_json "admin XPC request missing payload_json", w)
  response_json operator (err e) w = (error_response_json (c.describe e), w)

  -- The payload and the success flag of the reply, where the message has a reply context.
  unfoldable pub handle_peer_message :
      Operator → Result (Option String) → World Fs → (String × Bool) × World Fs
  unfolding handle_request_json error_response_json from_json
  handle_peer_message operator payload w =
      let (json, w') = response_json operator payload w in
      ((json, succeeded (from_json responses json)), w')
