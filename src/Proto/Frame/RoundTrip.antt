-- ===== src/Proto/Frame/RoundTrip.antt =====
-- What is written is read back: crates/proto/src/lib.rs.
use mathlib.Core.List.{append_assoc}
use konstantin.Common.{
  ℕ, ◌%◌, ◌≤◌, ◌<◌, ◌≡◌, inl, inr, refl, ap, ◌∙◌, true, false, Option, none, some, List, ◌++◌,
  arith, ltb, lt→ltb, Bool-cases, nat_eq, string_eq, length, u32_mod,
}
use konstantin.Proto.Frame.{
  max_frame_bytes, StreamError, FrameError, frame_too_large, Outcome, ok, err, Json, Reader, Writer,
  to_be_bytes, from_be_bytes, read_payload, read_body, read_frame, and_then, send, write_payload,
  write_frame,
}

-- A frame: the length of the payload, then the payload.
abbrev pub frame : List ℕ → List ℕ
frame payload = to_be_bytes (length payload) ++ payload

be_bytes : (n : ℕ) → n < u32_mod → from_be_bytes (to_be_bytes n) ≡ n
unfolding from_be_bytes to_be_bytes
be_bytes n h = omega arith

length-to_be_bytes : (n : ℕ) → length (to_be_bytes n) ≡ 4
unfolding to_be_bytes
length-to_be_bytes n = refl

module _ {R T : Type 0} (reader : Reader R) (codec : Json T) where
  read_payload_lem :
      (payload rest : List ℕ) (value : T) (q : Outcome StreamError (List ℕ) × R)
      → codec.from_slice payload ≡ some value
      → q.0 ≡ ok payload
      → reader.pending q.1 ≡ rest
      → ((read_payload reader codec q).0 ≡ ok value)
        × (reader.pending (read_payload reader codec q).1 ≡ rest)
  read_payload_lem payload rest value (ok buf, r) d e p =
      let same : buf ≡ payload = cc in (rw (same, d), p)
  read_payload_lem payload rest value (err f, r) d e p = cc

  read_body_lem :
      (payload rest : List ℕ) (value : T) (q : Outcome StreamError (List ℕ) × R)
      → length payload ≤ max_frame_bytes
      → codec.from_slice payload ≡ some value
      → q.0 ≡ ok (to_be_bytes (length payload))
      → reader.pending q.1 ≡ payload ++ rest
      → ((read_body reader codec q).0 ≡ ok value)
        × (reader.pending (read_body reader codec q).1 ≡ rest)
  read_body_lem payload rest value (ok header, r) small d e p =
      let same : header ≡ to_be_bytes (length payload) = cc in
      let size : from_be_bytes header ≡ length payload =
        ap from_be_bytes same ∙ be_bytes (length payload) (omega arith) in
      let fits : ltb max_frame_bytes (length payload) ≡ false = ground arith in
      let (got, left) = reader.delivers payload rest r p in
      rw (size, fits)
        (read_payload_lem payload rest value (reader.read_exact (length payload) r) d got left)
  read_body_lem payload rest value (err f, r) small d e p = cc

  -- Of a frame whose payload is at most a mebibyte and decodes, the reader takes exactly the frame.
  read_frame_lem :
      (payload rest : List ℕ) (value : T) (r : R)
      → length payload ≤ max_frame_bytes
      → codec.from_slice payload ≡ some value
      → reader.pending r ≡ frame payload ++ rest
      → ((read_frame reader codec r).0 ≡ ok value)
        × (reader.pending (read_frame reader codec r).1 ≡ rest)
  unfolding read_frame to_be_bytes
  read_frame_lem payload rest value r small d p =
      let (got, left) = reader.delivers (to_be_bytes (length payload)) (payload ++ rest) r p in
      read_body_lem payload rest value (reader.read_exact 4 r) small d got left

module _ {W : Type 0} (writer : Writer W) where
  sent-and_then :
      (q : Outcome StreamError (Unit {0}) × W) (next : W → Outcome FrameError (Unit {0}) × W)
      → (and_then writer q next).0 ≡ ok tt
      → (q.0 ≡ ok tt) × ((next q.1).0 ≡ ok tt) × ((and_then writer q next) ≡ next q.1)
  sent-and_then (ok _, w) next h = (refl, h, refl)
  sent-and_then (err e, w) next h = cc

  -- A send that goes through has put exactly one frame on the connection.
  sent-send :
      (payload : List ℕ) (w : W)
      → length payload ≤ max_frame_bytes
      → (send writer payload w).0 ≡ ok tt
      → writer.sent (send writer payload w).1 ≡ writer.sent w ++ frame payload
  sent-send payload w small h =
      let header = to_be_bytes (length payload % u32_mod) in
      let q1 = writer.write_all header w in
      let q2 = writer.write_all payload q1.1 in
      let last = λ (v : W). let r : Outcome FrameError (Unit {0}) × W = (ok tt, v) in r in
      let (a1, h1, e1) =
        sent-and_then q1
          (λ w1.
            and_then writer (writer.write_all payload w1)
              (λ w2. and_then writer (writer.flush w2) last))
          h in
      let (a2, h2, e2) = sent-and_then q2 (λ w2. and_then writer (writer.flush w2) last) h1 in
      let (a3, h3, e3) = sent-and_then (writer.flush q2.1) last h2 in
      let exact : length payload % u32_mod ≡ length payload = omega arith in
      ap (λ r. writer.sent r.1) (e1 ∙ e2 ∙ e3)
      ∙ writer.flushes q2.1
      ∙ writer.writes payload q1.1 a2
      ∙ ap (λ b. b ++ payload) (writer.writes header w a1)
      ∙ append_assoc (writer.sent w) header payload
      ∙ ap (λ (n : ℕ). writer.sent w ++ (to_be_bytes n ++ payload)) exact

module _ {R W T : Type 0} (reader : Reader R) (writer : Writer W) (codec : Json T) where
  -- What a peer makes of the bytes of a frame.
  abbrev pub IsReadBack : T → List ℕ → Type 0
  IsReadBack value bytes =
      (r : R) (rest : List ℕ)
      → reader.pending r ≡ bytes ++ rest
      → ((read_frame reader codec r).0 ≡ ok value)
        × (reader.pending (read_frame reader codec r).1 ≡ rest)

  write_payload-sent :
      (value : T) (o : Option (List ℕ)) (w : W)
      → codec.to_vec value ≡ o
      → (write_payload writer codec o w).0 ≡ ok tt
      → (bytes : List ℕ) × (writer.sent (write_payload writer codec o w).1 ≡ writer.sent w ++ bytes)
        × IsReadBack value bytes
  write_payload-sent value none w e h = cc
  write_payload-sent value (some payload) w e h =
      elim (Bool-cases (ltb max_frame_bytes (length payload))) [
        | inl big ↦ absurd (too_big payload w big h)
        | inr fits ↦
            let small : length payload ≤ max_frame_bytes = ground arith in
            (
              frame payload,
              rw fits (sent-send writer payload w small (rw fits at h)),
              λ r rest p.
                  read_frame_lem reader codec payload rest value r small
                    (codec.decodes value payload e) p,
            )
      ]
    where
      too_big :
          (payload : List ℕ) (w : W)
          → ltb max_frame_bytes (length payload) ≡ true
          → (write_payload writer codec (some payload) w).0 ≡ ok tt
          → ⊥
      too_big payload w big h = ground (arith, big, h)

  -- A write that succeeds has appended some bytes to the connection, and a peer before whom they
  -- lie, with anything behind them, reads the value back and is left with exactly what lay behind.
  pub read_frame-write_frame :
      (value : T) (w : W)
      → (write_frame writer codec value w).0 ≡ ok tt
      → (bytes : List ℕ) × (writer.sent (write_frame writer codec value w).1
          ≡ writer.sent w ++ bytes)
        × IsReadBack value bytes
  unfolding write_frame
  read_frame-write_frame value w h = write_payload-sent value (codec.to_vec value) w refl h

read_body_too_large :
    {R T : Type 0} (reader : Reader R) (codec : Json T) (size : ℕ) (rest : List ℕ)
    (q : Outcome StreamError (List ℕ) × R)
    → max_frame_bytes < size
    → size < u32_mod
    → q.0 ≡ ok (to_be_bytes size)
    → reader.pending q.1 ≡ rest
    → ((read_body reader codec q).0 ≡ err (frame_too_large size max_frame_bytes))
      × (reader.pending (read_body reader codec q).1 ≡ rest)
read_body_too_large reader codec size rest (ok header, r) big fits e p =
    let same : header ≡ to_be_bytes size = cc in
    let announced : from_be_bytes header ≡ size = ap from_be_bytes same ∙ be_bytes size fits in
    rw (announced, lt→ltb max_frame_bytes size big) (refl, p)
read_body_too_large reader codec size rest (err f, r) big fits e p = cc

-- A header that announces more than a mebibyte is refused at once: the reader has taken the four
-- bytes of the header and nothing of the payload.
pub read_frame_too_large :
    {R T : Type 0} (reader : Reader R) (codec : Json T) (size : ℕ) (rest : List ℕ) (r : R)
    → max_frame_bytes < size
    → size < u32_mod
    → reader.pending r ≡ to_be_bytes size ++ rest
    → ((read_frame reader codec r).0 ≡ err (frame_too_large size max_frame_bytes))
      × (reader.pending (read_frame reader codec r).1 ≡ rest)
unfolding read_frame to_be_bytes
read_frame_too_large reader codec size rest r big fits p =
    let (got, left) = reader.delivers (to_be_bytes size) rest r p in
    read_body_too_large reader codec size rest (reader.read_exact 4 r) big fits got left
