-- ===== src/Proto/Frame.antt =====
-- Length-prefixed JSON frames: `read_frame` and `write_frame` of crates/proto/src/lib.rs. A byte is
-- a number below 256.
pub mod RoundTrip
use konstantin.Common.{
  ℕ, ◌+◌, ◌*◌, ◌/◌, ◌%◌, ◌^◌, ◌≡◌, Option, none, some, List, [], ◌∷◌, ◌++◌, ltb, if◌then◌else◌,
  length, u32_mod,
}

abbrev pub max_frame_bytes : ℕ
max_frame_bytes = 2 ^ 20

-- `std::io::Error`, as far as the program tells it apart.
pub data StreamError : Type 0 where
  unexpected_eof broken : StreamError

pub data FrameError : Type 0 where
  io : StreamError → FrameError
  json : FrameError
  frame_too_large : ℕ → ℕ → FrameError
  closed : FrameError

pub data Outcome {ℓ κ} (E : Type ℓ) (A : Type κ) : Type (ℓ ⊔ κ) where
  ok : A → Outcome E A
  err : E → Outcome E A

-- `serde_json` at a type, with its round trip.
pub record Json {ℓ} (T : Type ℓ) : Type ℓ where
  pub to_vec : T → Option (List ℕ)
  pub from_slice : List ℕ → Option T
  pub decodes : (t : T) (bytes : List ℕ) → to_vec t ≡ some bytes → from_slice bytes ≡ some t

-- The reading half of a connection. `pending` is what the peer has sent and nobody has read.
pub record Reader {ℓ} (R : Type ℓ) : Type ℓ where
  pub pending : R → List ℕ
  pub read_exact : ℕ → R → Outcome StreamError (List ℕ) × R
  -- Bytes that are there are delivered in order, and the others stay.
  pub delivers :
      (bytes rest : List ℕ) (r : R)
      → pending r ≡ bytes ++ rest
      → ((read_exact (length bytes) r).0 ≡ ok bytes)
        × (pending (read_exact (length bytes) r).1 ≡ rest)

-- The writing half. `sent` is what the peer will read.
pub record Writer {ℓ} (W : Type ℓ) : Type ℓ where
  pub sent : W → List ℕ
  pub write_all : List ℕ → W → Outcome StreamError (Unit {0}) × W
  pub flush : W → Outcome StreamError (Unit {0}) × W
  pub writes :
      (bytes : List ℕ) (w : W)
      → (write_all bytes w).0 ≡ ok tt
      → sent (write_all bytes w).1 ≡ sent w ++ bytes
  pub flushes : (w : W) → sent (flush w).1 ≡ sent w

-- `u32::to_be_bytes`
unfoldable pub to_be_bytes : ℕ → List ℕ
to_be_bytes n = n / 16777216 % 256 ∷ n / 65536 % 256 ∷ n / 256 % 256 ∷ n % 256 ∷ []

-- `u32::from_be_bytes` of the four bytes of the buffer.
unfoldable pub from_be_bytes : List ℕ → ℕ
from_be_bytes (a ∷ b ∷ c ∷ d ∷ rest) = a * 16777216 + b * 65536 + c * 256 + d
from_be_bytes _ = 0

abbrev pub lost : StreamError → FrameError
lost unexpected_eof = closed
lost broken = io broken

module _ {R T : Type 0} (reader : Reader R) (codec : Json T) where
  abbrev pub decoded : Option T → Outcome FrameError T
  decoded none = err json
  decoded (some t) = ok t

  abbrev pub read_payload : Outcome StreamError (List ℕ) × R → Outcome FrameError T × R
  read_payload (ok buf, r) = (decoded (codec.from_slice buf), r)
  read_payload (err e, r) = (err (io e), r)

  abbrev pub read_body : Outcome StreamError (List ℕ) × R → Outcome FrameError T × R
  read_body (ok len_buf, r) =
      if ltb max_frame_bytes (from_be_bytes len_buf)
      then (err (frame_too_large (from_be_bytes len_buf) max_frame_bytes), r)
      else read_payload (reader.read_exact (from_be_bytes len_buf) r)
  read_body (err e, r) = (err (lost e), r)

  unfoldable pub read_frame : R → Outcome FrameError T × R
  unfolding from_be_bytes
  read_frame r = read_body (reader.read_exact 4 r)

module _ {W : Type 0} (writer : Writer W) where
  -- The next write, if the last one went through.
  abbrev pub and_then :
      Outcome StreamError (Unit {0}) × W
      → (W → Outcome FrameError (Unit {0}) × W)
      → Outcome FrameError (Unit {0}) × W
  and_then (ok _, w) next = next w
  and_then (err e, w) next = (err (io e), w)

  abbrev pub send : List ℕ → W → Outcome FrameError (Unit {0}) × W
  send payload w = and_then (writer.write_all (to_be_bytes (length payload % u32_mod)) w) λ w1.
      and_then (writer.write_all payload w1) λ w2. and_then (writer.flush w2) λ w3. (ok tt, w3)

module _ {W T : Type 0} (writer : Writer W) (codec : Json T) where
  abbrev pub write_payload : Option (List ℕ) → W → Outcome FrameError (Unit {0}) × W
  write_payload none w = (err json, w)
  write_payload (some payload) w =
      if ltb max_frame_bytes (length payload)
      then (err (frame_too_large (length payload) max_frame_bytes), w)
      else send writer payload w

  unfoldable pub write_frame : T → W → Outcome FrameError (Unit {0}) × W
  unfolding to_be_bytes
  write_frame value w = write_payload (codec.to_vec value) w
