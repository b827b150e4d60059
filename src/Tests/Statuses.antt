-- ===== src/Tests/Statuses.antt =====
-- A status over plain buffers, for a user without a limit.
use konstantin.Common.{
  ℕ, String, ◌≡◌, inl, inr, refl, sym, ap, ◌∙◌, true, Option, none, some, List, [], ◌∷◌, arith,
  eq_iff, if◌then◌else◌, Bool-cases, ◌==◌, nat_eq, string_eq, lookup, contains,
}
use konstantin.Common.Outcome.{ok}
use konstantin.Common.Int.{ℤ, pos, negsuc}
use konstantin.Proto.{
  SessionState, active, paused, limit_reached, offline, not_configured, UserStatus, get_status,
  Response, status, status_update, ack, error,
}
use konstantin.Proto.Frame.{Json, write_frame, read_frame, to_be_bytes}
use konstantin.Daemon.Config.{Config, user_by_name}
use konstantin.Daemon.State.{fresh, used, is_active}
use konstantin.Daemon.Ipc.{Moment, compute_status, handle_connection}
use konstantin.Tray.Client.{fetch_status}
use konstantin.Tray.Client.Wired.{fetch_status-handle_connection}
use konstantin.Tests.{household}
use konstantin.Tests.Wire.{buffer_reader, buffer_writer, tiny_codec}

abbrev zoe : ℕ → ℕ → ℕ → ℕ → ℕ → UserStatus
zoe uid daily used remaining resets = record {
  uid = uid;
  username = "zoe";
  state = not_configured;
  daily_limit_seconds = daily;
  used_seconds = used;
  remaining_seconds = pos remaining;
  resets_at = resets;
  warn_thresholds_minutes = [];
}

-- The numbers of a status of zoe without a limit and without warnings; other values are refused.
abbrev numbers : String → SessionState → ℤ → List ℕ → ℕ → ℕ → ℕ → ℕ → Option (List ℕ)
numbers name not_configured (pos r) [] uid daily used resets =
    if name == "zoe" then some (uid ∷ daily ∷ used ∷ r ∷ resets ∷ []) else none
numbers name not_configured (pos r) (t ∷ ts) uid daily used resets = none
numbers name not_configured (negsuc r) ts uid daily used resets = none
numbers name active z ts uid daily used resets = none
numbers name paused z ts uid daily used resets = none
numbers name limit_reached z ts uid daily used resets = none
numbers name offline z ts uid daily used resets = none

abbrev encode : Response → Option (List ℕ)
encode (status s) =
    numbers s.username s.state s.remaining_seconds s.warn_thresholds_minutes s.uid
      s.daily_limit_seconds s.used_seconds s.resets_at
encode (status_update s) = none
encode ack = none
encode (error m) = none

abbrev decode : List ℕ → Option Response
decode (uid ∷ daily ∷ used ∷ r ∷ resets ∷ []) = some (status (zoe uid daily used r resets))
decode _ = none

abbrev from_fields : String → SessionState → ℤ → List ℕ → ℕ → ℕ → ℕ → ℕ → UserStatus
from_fields name state z ts uid daily used resets = record {
  uid = uid;
  username = name;
  state = state;
  daily_limit_seconds = daily;
  used_seconds = used;
  remaining_seconds = z;
  resets_at = resets;
  warn_thresholds_minutes = ts;
}

decode-numbers :
    (name : String) (state : SessionState) (z : ℤ) (ts : List ℕ) (uid daily used resets : ℕ)
    → (bytes : List ℕ) → numbers name state z ts uid daily used resets ≡ some bytes
    → decode bytes ≡ some (status (from_fields name state z ts uid daily used resets))
decode-numbers name not_configured (pos r) [] uid daily used resets bytes h =
    elim (Bool-cases (name == "zoe")) [
      | inl same ↦
          let taken : uid ∷ daily ∷ used ∷ r ∷ resets ∷ [] ≡ bytes = ground (arith, h, same) in
          ap decode (sym taken)
          ∙ ap (λ n. some (status (from_fields n not_configured (pos r) [] uid daily used resets)))
              (sym ((eq_iff name "zoe").0 same))
      | inr other ↦ absurd (ground (arith, h, other))
    ]
decode-numbers name not_configured (pos r) (t ∷ ts) uid daily used resets bytes h = cc
decode-numbers name not_configured (negsuc r) ts uid daily used resets bytes h = cc
decode-numbers name active z ts uid daily used resets bytes h = cc
decode-numbers name paused z ts uid daily used resets bytes h = cc
decode-numbers name limit_reached z ts uid daily used resets bytes h = cc
decode-numbers name offline z ts uid daily used resets bytes h = cc

decode-encode : (r : Response) (bytes : List ℕ) → encode r ≡ some bytes → decode bytes ≡ some r
decode-encode (status s) bytes h = decode-numbers _ _ _ _ _ _ _ _ bytes h
decode-encode (status_update s) bytes h = cc
decode-encode ack bytes h = cc
decode-encode (error m) bytes h = cc

abbrev status_codec : Json Response
status_codec = record { to_vec = encode; from_slice = decode; decodes = decode-encode }

abbrev quiet_household : Config
quiet_household = record household { warn_thresholds_minutes = [] }

abbrev now : Moment
now = record { state = fresh; next_midnight = 86_400; written = true }

abbrev asked : List ℕ
asked = (write_frame buffer_writer tiny_codec get_status []).1

fetch_status-handle_connection_example :
    ((handle_connection "zoe" 501 quiet_household
        (λ e. "bad frame")
        (((read_frame buffer_reader tiny_codec asked).0, now) ∷ [])
        []).0
      ≡ status (compute_status "zoe" 501 quiet_household fresh 86_400) ∷ [])
    × (fetch_status
          (λ r. "")
          (ok tt)
          (ok tt)
          (read_frame buffer_reader status_codec
            (write_frame buffer_writer status_codec
              (status (compute_status "zoe" 501 quiet_household fresh 86_400))
              []).1).0
        ≡ ok (compute_status "zoe" 501 quiet_household fresh 86_400))
unfolding write_frame to_be_bytes compute_status user_by_name used is_active lookup contains
fetch_status-handle_connection_example =
    fetch_status-handle_connection buffer_reader buffer_writer buffer_reader buffer_writer
      tiny_codec status_codec "zoe" 501 quiet_household (λ r. "") (λ e. "bad frame") now [] asked []
      (write_frame buffer_writer status_codec
        (status (compute_status "zoe" 501 quiet_household fresh 86_400)) []).1
      refl refl refl refl refl refl refl
