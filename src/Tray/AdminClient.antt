-- ===== src/Tray/AdminClient.antt =====
-- The client of the admin channel: crates/tray/src/admin_xpc.rs. The XPC library is a record of calls
-- on a world; an object is a handle. A connection or an object is released when its owner goes out of
-- scope, in the order opposite to that of their making.
pub mod Handles
pub mod Exchange
use Prim.Native.String.{◌++◌ as str_append}
use Prim.Native.Char.{code}
use konstantin.Common.{
  ℕ, zero, suc, String, ◌-◌, Bool, false, not, ◌||◌, Option, none, some, [], ◌∷◌, if◌then◌else◌,
  ◌==◌, nat_eq, string_eq, unwrap_or, contains,
}
use konstantin.Common.Outcome.{bail, Result, ok, err}
use konstantin.Common.Outcome as O
use konstantin.Common.Int.{ℤ, pos, negsuc}
use konstantin.Common.Decimal.{decimal}
use konstantin.Proto.Admin.{
  AdminRequest, AdminResponse, Envelope, EnvelopeCodec, new, to_json, from_json,
}

abbrev pub key_payload_json : String
key_payload_json = "payload_json"

abbrev pub key_xpc_error_description : String
key_xpc_error_description = "XPCErrorDescription"

-- The calls of the XPC library; `none` is the null pointer, and a status of 0 is success.
pub record Xpc (W : Type 0) : Type 0 where
  pub create_mach_service : W → Option ℕ × W
  pub set_peer_team_identity_requirement : ℕ → W → ℤ × W
  pub activate : ℕ → W → W
  pub cancel : ℕ → W → W
  pub release : ℕ → W → W
  pub dictionary_create_empty : W → Option ℕ × W
  pub dictionary_set_string : ℕ → String → String → W → W
  -- Bytes that are not UTF-8 are an error, a missing key is none.
  pub dictionary_get_string : ℕ → String → W → Result (Option String)
  pub send_message_with_reply_sync : ℕ → ℕ → W → Option ℕ × W

-- `CString::new`: a text without a NUL.
unfoldable pub has_nul : String → Bool
has_nul String.[] = false
has_nul (String.◌∷◌ c s) = code c == 0 || has_nul s

unfoldable pub cstring : String → String → Result String
unfolding has_nul
cstring value what =
    if has_nul value
    then err (bail (str_append what " contains an interior NUL byte"))
    else ok value

abbrev pub integer_text : ℤ → String
integer_text (pos n) = decimal n
integer_text (negsuc n) = str_append "-" (decimal (suc n))

-- What a call through `cstring` gives.
abbrev pub or_missing : Option String → Result (Option String) → Result String
or_missing (some response_json) description = ok response_json
or_missing none (ok (some description)) = err (bail (str_append "admin XPC failed: " description))
or_missing none (ok none) = err (bail "admin XPC reply missing payload_json")
or_missing none (err e) = err (bail "admin XPC reply missing payload_json")

module _ {W : Type 0} (xpc : Xpc W) where
  -- A value that owns a handle and what happens with it, and its release at the end.
  abbrev pub releasing {ℓ} : {A : Type ℓ} → ℕ → Result A × W → Result A × W
  releasing h (r, w) = (r, xpc.release h w)

  abbrev pub put_string : ℕ → Result String → Result String → W → Result (Unit {0}) × W
  put_string object (ok key) (ok value) w = (ok tt, xpc.dictionary_set_string object key value w)
  put_string object (ok key) (err e) w = (err e, w)
  put_string object (err e) value w = (err e, w)

  -- `OwnedObject::set_string`
  unfoldable pub set_string : ℕ → String → String → W → Result (Unit {0}) × W
  unfolding cstring
  set_string object key value w =
      put_string object (cstring key "dictionary key") (cstring value "dictionary string value") w

  -- `OwnedObject::get_string`
  unfoldable pub get_string : ℕ → String → W → Result (Option String)
  unfolding cstring
  get_string object key w =
      O.◌>>=◌ (cstring key "dictionary key") λ k. xpc.dictionary_get_string object k w

  abbrev pub required : ℕ → ℤ × W → Result ℕ × W
  required raw (pos zero, w) = (ok raw, xpc.activate raw w)
  required raw (status, w) = (
    err (
        bail
          (str_append "setting admin XPC peer Team ID requirement failed: " (integer_text status))),
    xpc.release raw w,
  )

  abbrev pub created : Option ℕ × W → Result ℕ × W
  created (none, w) = (err (bail "xpc_connection_create_mach_service returned NULL"), w)
  created (some raw, w) = required raw (xpc.set_peer_team_identity_requirement raw w)

  -- `Connection::connect`
  unfoldable pub connect : W → Result ℕ × W
  connect w = created (xpc.create_mach_service w)

  -- `Drop for Connection`
  abbrev pub disconnecting {ℓ} : {A : Type ℓ} → ℕ → Result A × W → Result A × W
  disconnecting raw (r, w) = (r, xpc.release raw (xpc.cancel raw w))

  module _ (requests : EnvelopeCodec AdminRequest) (responses : EnvelopeCodec AdminResponse) where
    -- The id of the reply has to be that of the request.
    abbrev pub matching : String → Envelope AdminResponse → Result AdminResponse
    matching request_id response =
        if not (response.request_id == request_id)
        then err (
            bail (
              str_append "admin XPC reply id mismatch: got "
                (str_append response.request_id (str_append ", expected " request_id))))
        else ok response.body

    unfoldable pub read_reply : String → ℕ → W → Result AdminResponse
    unfolding get_string from_json
    read_reply request_id reply w = O.◌>>=◌ (get_string reply key_payload_json w) λ payload.
        O.◌>>=◌ (or_missing payload (get_string reply key_xpc_error_description w))
          λ response_json. O.◌>>=◌ (from_json responses response_json) (matching request_id)

    abbrev pub replied : String → Option ℕ × W → Result AdminResponse × W
    replied request_id (none, w) = (err (bail "admin XPC request did not receive a reply"), w)
    replied request_id (some reply, w) = releasing reply (read_reply request_id reply w, w)

    -- The rest once the message holds the request.
    abbrev pub exchange : String → ℕ → ℕ → Result (Unit {0}) × W → Result AdminResponse × W
    exchange request_id connection message (ok _, w) =
        replied request_id (xpc.send_message_with_reply_sync connection message w)
    exchange request_id connection message (err e, w) = (err e, w)

    abbrev pub with_message : String → ℕ → String → Option ℕ × W → Result AdminResponse × W
    with_message request_id connection request_json (none, w) =
        (err (bail "xpc_dictionary_create_empty returned NULL"), w)
    with_message request_id connection request_json (some message, w) = releasing message (
        exchange request_id connection message (set_string message key_payload_json request_json w))

    abbrev pub with_text : String → ℕ → Result String → W → Result AdminResponse × W
    with_text request_id connection (ok request_json) w =
        with_message request_id connection request_json (xpc.dictionary_create_empty w)
    with_text request_id connection (err e) w = (err e, w)

    abbrev pub with_connection : String → AdminRequest → Result ℕ × W → Result AdminResponse × W
    with_connection request_id request (ok connection, w) =
        disconnecting connection
          (with_text request_id connection (to_json requests (new request_id request)) w)
    with_connection request_id request (err e, w) = (err e, w)

    -- `AdminClient::send_blocking`; the id is made of the process's id and the clock.
    unfoldable pub send_blocking : String → AdminRequest → W → Result AdminResponse × W
    unfolding connect set_string read_reply to_json
    send_blocking request_id request w = with_connection request_id request (connect w)

-- How the wait for the request's thread ends.
pub data Waited : Type 0 where
  received : Result AdminResponse → Waited
  timeout disconnected : Waited

-- `AdminClient::send_with_timeout`, once the thread has been spawned or not.
unfoldable pub send_with_timeout : ℕ → Result (Unit {0}) → Waited → Result AdminResponse
send_with_timeout seconds (err e) waited = err e
send_with_timeout seconds (ok _) (received result) = result
send_with_timeout seconds (ok _) timeout =
    err (bail (str_append "admin XPC request timed out after " (str_append (decimal seconds) "s")))
send_with_timeout seconds (ok _) disconnected =
    err (bail "admin XPC request thread exited without a response")

-- `request_id`: the process and the nanoseconds of the clock, 0 before the epoch.
unfoldable pub request_id : ℕ → Option ℕ → String
request_id process_id nanos =
    str_append (decimal process_id) (str_append "-" (decimal (unwrap_or 0 nanos)))
