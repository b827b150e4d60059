-- ===== src/Daemon/Control/Dictionary.antt =====
-- The dictionaries of crates/daemon/src/control/xpc.rs: the module `dictionary`, the reply of
-- `handle_peer_message` and the end of the listener. The XPC library is a record of calls on a world,
-- an object a handle, and the null pointer none. An owned object is released when its owner goes out
-- of scope.
pub mod Sent
use konstantin.Common.{
  ℕ, String, Bool, Option, none, some, if◌then◌else◌, nat_eq, string_eq, contains,
}
use konstantin.Common.Outcome.{bail, Result, ok, err}
use Prim.Native.String.{◌++◌ as str_append}
use konstantin.Common.Outcome as O
use konstantin.Proto.Admin.{AdminResponse, EnvelopeCodec, from_json}
use konstantin.Daemon.Control.Xpc.{succeeded}

abbrev pub key_ok : String
key_ok = "ok"

abbrev pub key_payload_json : String
key_payload_json = "payload_json"

pub record XpcCalls (W : Type 0) : Type 0 where
  pub dictionary_create_empty : W → Option ℕ × W
  pub dictionary_create_reply : ℕ → W → Option ℕ × W
  pub dictionary_set_string : ℕ → String → String → W → W
  -- Bytes that are not UTF-8 are an error, a missing key is none.
  pub dictionary_get_string : ℕ → String → W → Result (Option String)
  pub dictionary_set_bool : ℕ → String → Bool → W → W
  pub dictionary_get_bool : ℕ → String → W → Bool
  pub send_message : ℕ → ℕ → W → W
  pub cancel : ℕ → W → W
  pub release : ℕ → W → W

-- `cstring`; whether a text holds a NUL byte is an argument.
unfoldable pub cstring : (String → Bool) → String → String → Result String
cstring has_nul value what =
    if has_nul value
    then err (bail (str_append what " contains an interior NUL byte"))
    else ok value

-- `OwnedObject::from_raw`
unfoldable pub from_raw : Option ℕ → Result ℕ
from_raw (some raw) = ok raw
from_raw none = err (bail "XPC object pointer was NULL")

module _ {W : Type 0} (xpc : XpcCalls W) where
  -- `Drop for OwnedObject`
  abbrev pub drop_object : ℕ → W → W
  drop_object raw w = xpc.release raw w

  -- `Drop for ControlListener`, of a listener that is not null.
  unfoldable pub drop_listener : ℕ → W → W
  drop_listener listener w = xpc.release listener (xpc.cancel listener w)

module _ {W : Type 0} (xpc : XpcCalls W) (has_nul : String → Bool) where
  abbrev owned : Option ℕ × W → Result ℕ × W
  owned (some raw, w) = (ok raw, w)
  owned (none, w) = (err (bail "xpc_dictionary_create_empty returned NULL"), w)

  -- `OwnedObject::empty_dictionary`
  unfoldable pub empty_dictionary : W → Result ℕ × W
  empty_dictionary w = owned (xpc.dictionary_create_empty w)

  abbrev pub put_string : ℕ → Result String → Result String → W → Result (Unit {0}) × W
  put_string object (ok key) (ok value) w = (ok tt, xpc.dictionary_set_string object key value w)
  put_string object (ok key) (err e) w = (err e, w)
  put_string object (err e) value w = (err e, w)

  -- `OwnedObject::set_string`
  unfoldable pub set_string : ℕ → String → String → W → Result (Unit {0}) × W
  unfolding cstring
  set_string object key value w =
      put_string object (cstring has_nul key "dictionary key")
        (cstring has_nul value "dictionary string value") w

  -- `OwnedObject::get_string`
  unfoldable pub get_string : ℕ → String → W → Result (Option String)
  unfolding cstring
  get_string object key w =
      O.◌>>=◌ (cstring has_nul key "dictionary key") λ k. xpc.dictionary_get_string object k w

  abbrev pub put_bool : ℕ → Result String → Bool → W → Result (Unit {0}) × W
  put_bool object (ok key) value w = (ok tt, xpc.dictionary_set_bool object key value w)
  put_bool object (err e) value w = (err e, w)

  -- `OwnedObject::set_bool`
  unfoldable pub set_bool : ℕ → String → Bool → W → Result (Unit {0}) × W
  unfolding cstring
  set_bool object key value w = put_bool object (cstring has_nul key "dictionary key") value w

  -- `OwnedObject::get_bool`
  unfoldable pub get_bool : ℕ → String → W → Result Bool
  unfolding cstring
  get_bool object key w =
      O.◌>>=◌ (cstring has_nul key "dictionary key") λ k. ok (xpc.dictionary_get_bool object k w)

  module _ (responses : EnvelopeCodec AdminResponse) where
    -- What follows once the payload is in the reply, or is not.
    abbrev pub finish_reply : ℕ → String → ℕ → Result (Unit {0}) × W → W
    finish_reply peer response_json response (ok _, w) =
        xpc.send_message peer response
          (set_bool response key_ok (succeeded (from_json responses response_json)) w).1
    finish_reply peer response_json response (err e, w) = w

    abbrev pub with_response : ℕ → String → ℕ → Result ℕ → W → W
    with_response peer response_json reply (ok response) w = drop_object xpc response (
        finish_reply peer response_json response
          (set_string response key_payload_json response_json w))
    with_response peer response_json reply (err e) w = xpc.release reply w

    abbrev pub with_reply : ℕ → String → Option ℕ × W → W
    with_reply peer response_json (none, w) = w
    with_reply peer response_json (some reply, w) =
        with_response peer response_json reply (from_raw (some reply)) w

    -- The second half of `handle_peer_message`: the reply to a message.
    unfoldable pub send_reply : ℕ → ℕ → String → W → W
    unfolding set_string set_bool from_raw from_json
    send_reply message peer response_json w =
        with_reply peer response_json (xpc.dictionary_create_reply message w)
