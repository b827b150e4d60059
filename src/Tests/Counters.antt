-- ===== src/Tests/Counters.antt =====
-- The counters and their file, over a table of files.
use konstantin.Common.{
  ◌/◌, ◌*◌, ◌<◌, ◌+◌, ℕ, String, ◌≡◌, ◌↔◌, refl, Option, none, some, [], ◌∷◌, arith, if◌then◌else◌,
  ◌==◌, nat_eq, string_eq, Map, lookup, contains,
}
use konstantin.Common.Outcome.{decoding, Result, ok, err}
use konstantin.Common.Disk.{Disk, disk_files, disk_laws, flat_paths}
use konstantin.Daemon.Config.{RawConfig, user_by_name}
use konstantin.Daemon.Enforcement.{limit_seconds}
use konstantin.Daemon.State.{State, Stored, StateCodec, fresh, used, save_atomic}
use konstantin.Daemon.State.Saving.{OldOrNew, save_atomic_all_or_nothing}
use konstantin.Daemon.Sessions.{console_users}
use konstantin.Daemon.Service.{ticked, midnight, run}
use konstantin.Common.{◌%◌, u32_mod}
use konstantin.Daemon.Service.Accounting.{account, used-run}
use konstantin.Daemon.Ipc.{compute_status}
use konstantin.Daemon.Ipc.Ranges.{FitsWire, Tells, compute_status-FitsWire}
use konstantin.Daemon.Midnight.{
  Zone, single, next_local_midnight_after, Begins, next_local_midnight_after-lt_iff,
}
use konstantin.Tests.{household}

-- Two ticks of alice on day 1, a midnight, one tick of bob and one of alice on day 2.
used-run_example :
    used
      (run household fresh (
        ticked (some "alice") 2
        ∷ ticked (some "bob") 2
        ∷ midnight 2
        ∷ ticked (some "alice") 1
        ∷ ticked (some "alice") 1
        ∷ []))
      "alice"
    ≡ 30
unfolding console_users contains lookup used
used-run_example =
    used-run household fresh "alice" (ticked (some "alice") 2)
      (ticked (some "bob") 2 ∷ midnight 2 ∷ ticked (some "alice") 1 ∷ ticked (some "alice") 1 ∷ [])
      (omega arith)

abbrev pub evening : State
evening = record { day = some 1; counters = ("alice", 60) ∷ []; active_now = "alice" ∷ [] }

compute_status-FitsWire_example :
    let st =
      compute_status "bob" 502 household (run household evening (ticked (some "bob") 1 ∷ [])) 0 in
    FitsWire st
    × Tells st
        (limit_seconds (record { daily_limit_minutes = 2 }))
        (account household evening "bob" 1 (ticked (some "bob") 1 ∷ []) % u32_mod)
unfolding user_by_name lookup
compute_status-FitsWire_example =
    compute_status-FitsWire household evening (ticked (some "bob") 1) [] "bob" 502 0
      (record { daily_limit_minutes = 2 }) (omega arith, tt) refl

abbrev pub alice : String
alice = "alice"

abbrev at_console : Option String
at_console = some "alice"

-- A codec for the states that hold one user with a minute and no day: the text is the name.
abbrev pub encode : Option ℕ → Map String ℕ → Result String
encode none ((name, n) ∷ []) = if n == 60 then ok name else err decoding
encode _ _ = err decoding

abbrev pub decode : String → Result Stored
decode text = ok (record { day = none; counters = (text, 60) ∷ [] })

pub decode-encode :
    (day : Option ℕ) (counters : Map String ℕ) (text : String)
    → encode day counters ≡ ok text
    → decode text ≡ ok (record { day = day; counters = counters })
decode-encode none [] text h = cc
decode-encode (some d) [] text h = cc
decode-encode none ((name, n) ∷ []) text h = ground (arith, h)
decode-encode (some d) ((name, n) ∷ []) text h = cc
decode-encode none (a ∷ b ∷ rest) text h = cc
decode-encode (some d) (a ∷ b ∷ rest) text h = cc

abbrev pub name_codec : StateCodec
name_codec = record {
  to_vec_pretty = λ x. encode x.day x.counters;
  from_slice = decode;
  decodes = λ x text h. decode-encode x.day x.counters text h;
}

abbrev minute_of_bob : State
minute_of_bob = record { day = none; counters = ("bob", 60) ∷ []; active_now = "bob" ∷ [] }

abbrev pub old_disk : Disk
old_disk =
    ("/", record { text = ""; bits = 493 }) ∷ ("/state", record { text = "alice"; bits = 420 }) ∷ []

save_atomic_all_or_nothing_example :
    OldOrNew disk_laws flat_paths name_codec "/state" "alice" minute_of_bob
      (save_atomic disk_files flat_paths name_codec minute_of_bob "/state" old_disk)
unfolding lookup
save_atomic_all_or_nothing_example =
    save_atomic_all_or_nothing disk_laws flat_paths name_codec minute_of_bob "/state" "alice"
      old_disk refl

-- Keys that set the tick and one user.
abbrev pub keys : RawConfig
keys = record {
  socket_path = none;
  state_path = none;
  tick_seconds = some 30;
  warn_thresholds_minutes = none;
  default_policy = none;
  enforcement = none;
  kill_switch_path = none;
  users = some (("alice", record { daily_limit_minutes = 1 }) ∷ []);
}

abbrev pub from_keys : String → Result RawConfig
from_keys text = if text == "" then err decoding else ok keys

abbrev empty_disk : Disk
empty_disk = []

-- A zone without changes of its clock.
abbrev utc : Zone
utc = record { date_of = λ t. t / 86_400; midnight_of = λ day. single (day * 86_400) }

utc-Begins : Begins utc
utc-Begins day t now e = (λ h. omega (arith, e), λ h. omega (arith, e))

next_local_midnight_after-lt_iff_example :
    (100_000 < next_local_midnight_after utc 100_000)
    ↔ (utc.date_of 100_000 < utc.date_of (100_000 + 86_400))
next_local_midnight_after-lt_iff_example =
    next_local_midnight_after-lt_iff utc 100_000 172_800 utc-Begins refl
