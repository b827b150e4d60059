-- ===== src/Proto/Admin.antt =====
-- The wire types of the admin channel: crates/proto/src/admin.rs.
use konstantin.Common.{
  ◌↔◌, ℕ, String, ◌≡◌, Bool, not, arith, if◌then◌else◌, ◌==◌, nat_eq, string_eq,
}
use konstantin.Common.Outcome.{bail, Result, ok, err, ◌>>=◌, ◌>>◌}
use Prim.Native.String.{◌++◌ as str_append}
use konstantin.Common.Decimal.{decimal}

abbrev pub protocol_version : ℕ
protocol_version = 2

pub data AdminRequest : Type 0 where
  get_config : AdminRequest
  validate_config : String → AdminRequest
  set_config : String → AdminRequest
  reload_daemon : AdminRequest
  get_daemon_info : AdminRequest
  get_enforcement_state : AdminRequest
  set_enforcement_paused : Bool → AdminRequest
  prepare_uninstall : Bool → AdminRequest

pub data AdminResponse : Type 0 where
  config : String → Bool → String → AdminResponse
  validation_ok : AdminResponse
  daemon_info : String → AdminResponse
  enforcement_state : Bool → String → AdminResponse
  done : AdminResponse
  unauthorized : String → AdminResponse
  error : String → AdminResponse

-- An envelope around a request or a response.
pub record Envelope (A : Type 0) : Type 0 where
  pub version : ℕ
  pub request_id : String
  pub body : A

-- `RequestEnvelope::new`, `ResponseEnvelope::new`
abbrev pub new : {A : Type 0} → String → A → Envelope A
new request_id body = record { version = protocol_version; request_id = request_id; body = body }

unfoldable pub ensure_protocol_version : ℕ → Result (Unit {0})
ensure_protocol_version version =
    if not (version == protocol_version)
    then err (bail (str_append "unsupported admin XPC protocol version " (decimal version)))
    else ok tt

-- `serde_json` at an envelope, with its round trip.
pub record EnvelopeCodec (A : Type 0) : Type 0 where
  pub to_string : Envelope A → Result String
  pub from_str : String → Result (Envelope A)
  pub decodes : (e : Envelope A) (text : String) → to_string e ≡ ok text → from_str text ≡ ok e

module _ {A : Type 0} (codec : EnvelopeCodec A) where
  unfoldable pub to_json : Envelope A → Result String
  to_json e = codec.to_string e

  unfoldable pub from_json : String → Result (Envelope A)
  unfolding ensure_protocol_version
  from_json json = do e ← codec.from_str json; ensure_protocol_version e.version; ok e

  accepted :
      (got : Result (Envelope A)) (e : Envelope A)
      → ((got >>= λ e'. ensure_protocol_version e'.version >> ok e') ≡ ok e)
        ↔ ((got ≡ ok e) × (e.version ≡ protocol_version))
  unfolding ensure_protocol_version
  accepted (ok got) e = (
    (λ h. (ground (arith, h), ground (arith, h))),
    λ (h, v). let same : got ≡ e = cc in ground (arith, same, v),
  )
  accepted (err f) e = ((λ h. cc), λ (h, v). cc)

  -- What arrives is taken as an envelope exactly when it decodes to that envelope and its version is
  -- the program's.
  pub from_json_iff :
      (json : String) (e : Envelope A)
      → (from_json json ≡ ok e) ↔ ((codec.from_str json ≡ ok e) × (e.version ≡ protocol_version))
  unfolding from_json
  from_json_iff json e = accepted (codec.from_str json) e
