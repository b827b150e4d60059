-- ===== src/Tray/AdminClient/Handles.antt =====
-- The handles of crates/tray/src/admin_xpc.rs: what a request obtains from the XPC library, it gives
-- back.
use konstantin.Common.{
  ℕ, zero, suc, String, ◌≡◌, refl, ◌∙◌, Option, none, some, List, ◌∷◌, nat_eq, string_eq,
}
use konstantin.Common.Outcome.{Result, ok, err}
use konstantin.Common.Int.{ℤ, pos, negsuc}
use konstantin.Proto.Admin.{AdminRequest, AdminResponse, EnvelopeCodec, new, to_json}
use konstantin.Tray.AdminClient.{
  Xpc, cstring, put_string, key_payload_json, set_string, releasing, required, created, connect,
  disconnecting, read_reply, replied, exchange, with_message, with_text, with_connection,
  send_blocking,
}

-- After a call that may give a handle: it is held on top of what was held.
abbrev pub Obtained : {W : Type 0} → (W → List ℕ) → Option ℕ × W → List ℕ → Type 0
Obtained held (none, w) before = held w ≡ before
Obtained held (some h, w) before = held w ≡ h ∷ before

-- The reference counts of the library, as a stack of what the caller holds: a call that makes an
-- object gives it to the caller, and a release gives the last one back.
pub record Held {W : Type 0} (xpc : Xpc W) (held : W → List ℕ) : Type 0 where
  pub obtains_connection : (w : W) → Obtained held (xpc.create_mach_service w) (held w)
  pub obtains_dictionary : (w : W) → Obtained held (xpc.dictionary_create_empty w) (held w)
  pub obtains_reply :
      (c m : ℕ) (w : W) → Obtained held (xpc.send_message_with_reply_sync c m w) (held w)
  pub keeps_requirement :
      (c : ℕ) (w : W) → held (xpc.set_peer_team_identity_requirement c w).1 ≡ held w
  pub keeps_activate : (c : ℕ) (w : W) → held (xpc.activate c w) ≡ held w
  pub keeps_cancel : (c : ℕ) (w : W) → held (xpc.cancel c w) ≡ held w
  pub keeps_set_string :
      (m : ℕ) (k v : String) (w : W) → held (xpc.dictionary_set_string m k v w) ≡ held w
  pub releases :
      (h : ℕ) (before : List ℕ) (w : W) → held w ≡ h ∷ before → held (xpc.release h w) ≡ before

module _ {W : Type 0} (xpc : Xpc W) (held : W → List ℕ) (laws : Held xpc held) where
  held-releasing :
      {A : Type 0} (h : ℕ) (q : Result A × W) (before : List ℕ)
      → held q.1 ≡ h ∷ before
      → held (releasing xpc h q).1 ≡ before
  held-releasing h (r, w) before e = laws.releases h before w e

  held-disconnecting :
      {A : Type 0} (h : ℕ) (q : Result A × W) (before : List ℕ)
      → held q.1 ≡ h ∷ before
      → held (disconnecting xpc h q).1 ≡ before
  held-disconnecting h (r, w) before e =
      laws.releases h before (xpc.cancel h w) (laws.keeps_cancel h w ∙ e)

  -- A connection that came up is held, and one that failed is not.
  abbrev Connected : Result ℕ × W → List ℕ → Type 0
  Connected (ok h, w) before = held w ≡ h ∷ before
  Connected (err e, w) before = held w ≡ before

  required-Connected :
      (raw : ℕ) (q : ℤ × W) (before : List ℕ)
      → held q.1 ≡ raw ∷ before
      → Connected (required xpc raw q) before
  required-Connected raw (pos zero, w) before e = laws.keeps_activate raw w ∙ e
  required-Connected raw (pos (suc n), w) before e = laws.releases raw before w e
  required-Connected raw (negsuc n, w) before e = laws.releases raw before w e

  created-Connected :
      (q : Option ℕ × W) (before : List ℕ)
      → Obtained held q before
      → Connected (created xpc q) before
  created-Connected (none, w) before e = e
  created-Connected (some raw, w) before e =
      required-Connected raw (xpc.set_peer_team_identity_requirement raw w) before
        (laws.keeps_requirement raw w ∙ e)

  held-put_string :
      (object : ℕ) (key value : Result String) (w : W)
      → held (put_string xpc object key value w).1 ≡ held w
  held-put_string object (ok k) (ok v) w = laws.keeps_set_string object k v w
  held-put_string object (ok k) (err e) w = refl
  held-put_string object (err e) value w = refl

  held-set_string :
      (object : ℕ) (key value : String) (w : W)
      → held (set_string xpc object key value w).1 ≡ held w
  unfolding set_string
  held-set_string object key value w =
      held-put_string object (cstring key "dictionary key")
        (cstring value "dictionary string value") w

  module _ (requests : EnvelopeCodec AdminRequest) (responses : EnvelopeCodec AdminResponse) where
    held-replied :
        (request_id : String) (q : Option ℕ × W) (before : List ℕ)
        → Obtained held q before
        → held (replied xpc requests responses request_id q).1 ≡ before
    held-replied request_id (none, w) before e = e
    held-replied request_id (some reply, w) before e =
        held-releasing reply (read_reply xpc requests responses request_id reply w, w) before e

    held-exchange :
        (request_id : String) (connection message : ℕ) (q : Result (Unit {0}) × W)
        → held (exchange xpc requests responses request_id connection message q).1 ≡ held q.1
    held-exchange request_id connection message (ok _, w) =
        held-replied request_id (xpc.send_message_with_reply_sync connection message w) (held w)
          (laws.obtains_reply connection message w)
    held-exchange request_id connection message (err e, w) = refl

    held-with_message :
        (request_id json : String) (connection : ℕ) (q : Option ℕ × W) (before : List ℕ)
        → Obtained held q before
        → held (with_message xpc requests responses request_id connection json q).1 ≡ before
    held-with_message request_id json connection (none, w) before e = e
    held-with_message request_id json connection (some message, w) before e =
        held-releasing message
          (exchange xpc requests responses request_id connection message
            (set_string xpc message key_payload_json json w))
          before
          (held-exchange request_id connection message
              (set_string xpc message key_payload_json json w)
            ∙ held-set_string message key_payload_json json w
            ∙ e)

    held-with_text :
        (request_id : String) (connection : ℕ) (r : Result String) (w : W)
        → held (with_text xpc requests responses request_id connection r w).1 ≡ held w
    held-with_text request_id connection (ok json) w =
        held-with_message request_id json connection (xpc.dictionary_create_empty w) (held w)
          (laws.obtains_dictionary w)
    held-with_text request_id connection (err e) w = refl

    held-with_connection :
        (request_id : String) (request : AdminRequest) (q : Result ℕ × W) (before : List ℕ)
        → Connected q before
        → held (with_connection xpc requests responses request_id request q).1 ≡ before
    held-with_connection request_id request (ok connection, w) before e =
        held-disconnecting connection
          (with_text xpc requests responses request_id connection
            (to_json requests (new request_id request)) w)
          before
          (held-with_text request_id connection (to_json requests (new request_id request)) w ∙ e)
    held-with_connection request_id request (err x, w) before e = e

    -- Over a library whose objects are the caller's from the call that makes them to the release, a
    -- request gives back every object that it obtained, exactly once and in the opposite order,
    -- however it ends: no connection, no message, no reply, a refused requirement, a text that cannot
    -- be sent or read, an answer.
    pub held-send_blocking :
        (request_id : String) (request : AdminRequest) (w : W)
        → held (send_blocking xpc requests responses request_id request w).1 ≡ held w
    unfolding send_blocking connect
    held-send_blocking request_id request w =
        held-with_connection request_id request (connect xpc w) (held w)
          (created-Connected (xpc.create_mach_service w) (held w) (laws.obtains_connection w))
