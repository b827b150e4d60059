-- ===== src/Tests/Wire.antt =====
-- The wire of crates/proto/src/lib.rs and crates/proto/src/admin.rs, over byte lists.
use konstantin.Common.{
  ℕ, zero, suc, ◌≡◌, refl, ap, ◌∙◌, Option, none, some, List, [], ◌∷◌, ◌++◌, arith, if◌then◌else◌,
  ◌==◌, nat_eq, string_eq, unwrap_or, length,
}
use mathlib.Core.Path.{subst}
use konstantin.Common.Outcome as O
use konstantin.Common.Decimal.{decimal}
use konstantin.Proto.{Request, get_status, subscribe, report_session_state}
use konstantin.Proto.Frame.{
  StreamError, unexpected_eof, Outcome, ok, err, Json, Reader, Writer, write_frame, to_be_bytes,
}
use konstantin.Proto.Frame.RoundTrip.{read_frame-write_frame, IsReadBack}
use konstantin.Proto.Admin.{EnvelopeCodec, from_json}

abbrev push_front :
    ℕ → Outcome StreamError (List ℕ) × List ℕ → Outcome StreamError (List ℕ) × List ℕ
push_front b (ok front, back) = (ok (b ∷ front), back)
push_front b (err e, back) = (err e, back)

-- Take bytes off the front of a buffer.
abbrev take_bytes : ℕ → List ℕ → Outcome StreamError (List ℕ) × List ℕ
take_bytes zero r = (ok [], r)
take_bytes (suc n) [] = (err unexpected_eof, [])
take_bytes (suc n) (b ∷ r) = push_front b (take_bytes n r)

pub take_bytes_lem :
    (bytes rest : List ℕ) → take_bytes (length bytes) (bytes ++ rest) ≡ (ok bytes, rest)
take_bytes_lem [] rest = refl
take_bytes_lem (b ∷ bytes) rest = ap (push_front b) (take_bytes_lem bytes rest)

abbrev pub buffer_reader : Reader (List ℕ)
buffer_reader = record {
  pending = λ r. r;
  read_exact = take_bytes;
  delivers = λ bytes rest r e.
      let got : take_bytes (length bytes) r ≡ (ok bytes, rest) =
        ap (take_bytes (length bytes)) e ∙ take_bytes_lem bytes rest in
      (ap (λ p. p.0) got, ap (λ p. p.1) got);
}

abbrev pub buffer_writer : Writer (List ℕ)
buffer_writer = record {
  sent = λ w. w;
  write_all = λ bytes w. (ok tt, w ++ bytes);
  flush = λ w. (ok tt, w);
  writes = λ bytes w h. refl;
  flushes = λ w. refl;
}

abbrev encode : Request → Option (List ℕ)
encode get_status = some (0 ∷ [])
encode subscribe = some (1 ∷ [])
encode (report_session_state locked idle) = none

abbrev decode : List ℕ → Option Request
decode (zero ∷ []) = some get_status
decode (suc n ∷ []) = some subscribe
decode _ = none

pub decode-encode : (t : Request) (bytes : List ℕ) → encode t ≡ some bytes → decode bytes ≡ some t
decode-encode get_status bytes h =
    subst (λ (o : Option (List ℕ)). decode (unwrap_or [] o) ≡ some get_status) h refl
decode-encode subscribe bytes h =
    subst (λ (o : Option (List ℕ)). decode (unwrap_or [] o) ≡ some subscribe) h refl
decode-encode (report_session_state locked idle) bytes h = cc

abbrev pub tiny_codec : Json Request
tiny_codec = record { to_vec = encode; from_slice = decode; decodes = decode-encode }

read_frame-write_frame_example :
    (bytes : List ℕ) × ((write_frame buffer_writer tiny_codec subscribe (7 ∷ [])).1
      ≡ (7 ∷ []) ++ bytes)
    × IsReadBack buffer_reader buffer_writer tiny_codec subscribe bytes
unfolding write_frame to_be_bytes
read_frame-write_frame_example =
    read_frame-write_frame buffer_reader buffer_writer tiny_codec subscribe (7 ∷ []) refl

-- A codec for whose envelopes the text is the request id.
abbrev id_codec : ℕ → EnvelopeCodec (Unit {0})
id_codec version = record {
  to_string = λ e. if e.version == version then O.ok e.request_id else O.err O.decoding;
  from_str = λ t. O.ok (record { version = version; request_id = t; body = tt });
  decodes = λ e text h. ground (arith, h);
}

-- An envelope of version 1 is refused.
from_json_test :
    from_json (id_codec 1) "r1" ≡ O.err (O.bail "unsupported admin XPC protocol version 1")
unfolding from_json decimal
from_json_test = refl
