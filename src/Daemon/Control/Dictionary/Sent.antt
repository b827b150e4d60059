-- ===== src/Daemon/Control/Dictionary/Sent.antt =====
-- What the reply of crates/daemon/src/control/xpc.rs sends, and that it leaves no object behind.
use konstantin.Common.{
  ℕ, String, ◌≡◌, ◌≢◌, inl, inr, refl, ◌∙◌, Bool, true, false, Option, none, some, List, [], ◌∷◌,
  ◌++◌, eq_iff, Bool-cases, nat_eq, string_eq,
}
use konstantin.Proto.Admin.{AdminResponse, EnvelopeCodec, from_json}
use konstantin.Daemon.Control.Xpc.{succeeded}
use konstantin.Daemon.Control.Listener.{sendable}
use konstantin.Daemon.Control.Dictionary.{
  XpcCalls, key_ok, key_payload_json, cstring, set_string, set_bool, send_reply, finish_reply,
  with_reply, from_raw,
}

-- A message as its peer receives it: the peer, the payload and the success flag.
pub record Received : Type 0 where
  pub peer : ℕ
  pub payload : Option String
  pub flag : Option Bool

-- What the library documents: an object is the caller's from the call that makes it to its release,
-- as a stack; a key holds what was set last; a message carries what its dictionary holds.
pub record XpcLaws {W : Type 0} (xpc : XpcCalls W) : Type 0 where
  pub held : W → List ℕ
  pub text : ℕ → String → W → Option String
  pub flag : ℕ → String → W → Option Bool
  pub sent : W → List Received
  pub obtains :
      (m h : ℕ) (w : W)
      → (xpc.dictionary_create_reply m w).0 ≡ some h
      → held (xpc.dictionary_create_reply m w).1 ≡ h ∷ held w
  pub obtains_none :
      (m : ℕ) (w : W)
      → (xpc.dictionary_create_reply m w).0 ≡ none
      → held (xpc.dictionary_create_reply m w).1 ≡ held w
  pub sent-create_reply : (m : ℕ) (w : W) → sent (xpc.dictionary_create_reply m w).1 ≡ sent w
  pub held-set_string :
      (h : ℕ) (k v : String) (w : W) → held (xpc.dictionary_set_string h k v w) ≡ held w
  pub sent-set_string :
      (h : ℕ) (k v : String) (w : W) → sent (xpc.dictionary_set_string h k v w) ≡ sent w
  pub text-set_string :
      (h : ℕ) (k v : String) (w : W) → text h k (xpc.dictionary_set_string h k v w) ≡ some v
  pub held-set_bool :
      (h : ℕ) (k : String) (v : Bool) (w : W) → held (xpc.dictionary_set_bool h k v w) ≡ held w
  pub sent-set_bool :
      (h : ℕ) (k : String) (v : Bool) (w : W) → sent (xpc.dictionary_set_bool h k v w) ≡ sent w
  pub flag-set_bool :
      (h : ℕ) (k : String) (v : Bool) (w : W) → flag h k (xpc.dictionary_set_bool h k v w) ≡ some v
  pub text-set_bool :
      (h : ℕ) (k j : String) (v : Bool) (w : W)
      → k ≢ j
      → text h j (xpc.dictionary_set_bool h k v w) ≡ text h j w
  pub held-send_message : (p h : ℕ) (w : W) → held (xpc.send_message p h w) ≡ held w
  pub sent-send_message :
      (p h : ℕ) (w : W)
      → sent (xpc.send_message p h w)
        ≡ record { peer = p; payload = text h key_payload_json w; flag = flag h key_ok w } ∷ sent w
  pub held-release :
      (h : ℕ) (before : List ℕ) (w : W) → held w ≡ h ∷ before → held (xpc.release h w) ≡ before
  pub sent-release : (h : ℕ) (w : W) → sent (xpc.release h w) ≡ sent w

module _ {W : Type 0} {xpc : XpcCalls W} (laws : XpcLaws xpc) (has_nul : String → Bool)
    (clean : (has_nul key_ok ≡ false) × (has_nul key_payload_json ≡ false))
    (responses : EnvelopeCodec AdminResponse) (peer : ℕ) (json : String) where
  -- The replies of the listener's model, as this peer receives them.
  abbrev pub as_received : List (String × Bool) → List Received
  as_received [] = []
  as_received ((payload, flag) ∷ rest) =
      record { peer = peer; payload = some payload; flag = some flag } ∷ as_received rest

  abbrev success : Bool
  success = succeeded (from_json responses json)

  abbrev pub has_context : Option ℕ → Bool
  has_context none = false
  has_context (some h) = true

  abbrev texted : ℕ → W → W
  texted h w = xpc.dictionary_set_string h key_payload_json json w

  abbrev filled : ℕ → W → W
  filled h w = xpc.dictionary_set_bool h key_ok success (texted h w)

  sent-finish :
      (h : ℕ) (w : W)
      → laws.sent (
          finish_reply xpc has_nul responses peer json h
            (set_string xpc has_nul h key_payload_json json w))
        ≡ as_received (sendable has_nul true (json, success)) ++ laws.sent w
  unfolding set_string cstring set_bool
  sent-finish h w = elim (Bool-cases (has_nul json)) [
    | inl bad ↦ rw (clean.1, bad) refl
    | inr good ↦
        rw (clean.1, good, clean.0)
          (laws.sent-send_message peer h (filled h w)
            ∙ rw
                (
                  laws.text-set_bool h key_ok key_payload_json success (texted h w)
                      (λ e. cc ((eq_iff "ok" "payload_json").1 e)),
                  laws.text-set_string h key_payload_json json w,
                  laws.flag-set_bool h key_ok success (texted h w),
                  laws.sent-set_bool h key_ok success (texted h w),
                  laws.sent-set_string h key_payload_json json w,
                )
                refl)
  ]

  held-finish :
      (h : ℕ) (w : W)
      → laws.held (
          finish_reply xpc has_nul responses peer json h
            (set_string xpc has_nul h key_payload_json json w))
        ≡ laws.held w
  unfolding set_string cstring set_bool
  held-finish h w = elim (Bool-cases (has_nul json)) [
    | inl bad ↦ rw (clean.1, bad) refl
    | inr good ↦
        rw (clean.1, good, clean.0)
          (laws.held-send_message peer h (filled h w)
            ∙ laws.held-set_bool h key_ok success (texted h w)
            ∙ laws.held-set_string h key_payload_json json w)
  ]

  replied_lem :
      (q : Option ℕ × W) (w : W)
      → (laws.sent q.1 ≡ laws.sent w)
      → ((h : ℕ) → q.0 ≡ some h → laws.held q.1 ≡ h ∷ laws.held w)
      → (q.0 ≡ none → laws.held q.1 ≡ laws.held w)
      → (laws.sent (with_reply xpc has_nul responses peer json q)
          ≡ as_received (sendable has_nul (has_context q.0) (json, success)) ++ laws.sent w)
        × (laws.held (with_reply xpc has_nul responses peer json q) ≡ laws.held w)
  unfolding from_raw
  replied_lem (none, w') w same takes leaves = (same, leaves refl)
  replied_lem (some h, w') w same takes leaves = (
    laws.sent-release h _ ∙ sent-finish h w' ∙ rw same refl,
    laws.held-release h (laws.held w) _ (held-finish h w' ∙ takes h refl),
  )

  -- With keys that hold no NUL byte, the calls that answer a message send exactly the reply of the
  -- listener's model: one with the payload and the success flag if the message has a reply context
  -- and the payload holds no NUL byte, and none otherwise; and they give back every object that they
  -- obtain, on every path.
  pub send_reply-sendable :
      (message : ℕ) (w : W)
      → let context = has_context (xpc.dictionary_create_reply message w).0 in
        let after = send_reply xpc has_nul responses message peer json w in
        (laws.sent after ≡ as_received (sendable has_nul context (json, success)) ++ laws.sent w)
        × (laws.held after ≡ laws.held w)
  unfolding send_reply
  send_reply-sendable message w =
      replied_lem (xpc.dictionary_create_reply message w) w (laws.sent-create_reply message w)
        (λ h e. laws.obtains message h w e) (λ e. laws.obtains_none message w e)
