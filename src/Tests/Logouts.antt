-- ===== src/Tests/Logouts.antt =====
-- Decisions and logouts, with the recorded system.
use konstantin.Common.{
  ℕ, String, ◌+◌, ◌%◌, ◌≡◌, refl, true, false, none, some, [], ◌∷◌, arith, eq_iff, nat_eq,
  string_eq, u32_mod, Map, lookup, contains,
}
use konstantin.Common.Outcome.{ok}
use konstantin.Common.Disk.{Disk, disk_files, disk_laws, flat_paths}
use konstantin.Daemon.Config.{Config, log, user_by_name}
use konstantin.Daemon.State.{Stored, used}
use konstantin.Daemon.Enforcement.{Enforcer, step, force_logout, new}
use konstantin.Daemon.Enforcement.Deciding.{IsUsedUp}
use konstantin.Daemon.Enforcement.Recorder.{FakeState, fake_runner}
use konstantin.Daemon.Enforcement.Gates.{step_switched}
use konstantin.Daemon.Enforcement.Backoff.{step_skips_recent}
use konstantin.Daemon.Service.{Shared, Ticker, Wake, ticker_round}
use konstantin.Daemon.Service.{startup}
use konstantin.Daemon.Service.Recovery.{startup-ticker_round}
use konstantin.Daemon.State.{Stored, StateCodec, save_atomic}
use konstantin.Common.Outcome.{Failure, Result, err, decoding}
use konstantin.Common.{Option, ℕ, if◌then◌else◌, ◌==◌, ◌&&◌}
use konstantin.Daemon.Enforcement.{act_on, decide, visit, force_logout}
use konstantin.Daemon.Enforcement.Runner.{Host, hangs, real_runner}
use konstantin.Daemon.Enforcement.Runner.Bounded.{ClockLaws, step-bounded}
use konstantin.Common.{◌*◌, ◌≤◌, insert}
use konstantin.Daemon.Service.Promise.{Forces, run_ticker-Forces}
use konstantin.Daemon.Service.Rounds.{ticker_round_enforces}
use konstantin.Daemon.Service.Accounting.{carried}
use konstantin.Tests.{household, uid_of}
use konstantin.Tests.Counters.{name_codec, old_disk, evening, alice}

-- A system on which alice stays listed until `pkill` matches a process.
abbrev clinging : FakeState
clinging = record {
  calls = [];
  user_queries = ("alice" ∷ []) ∷ [];
  run_results = ok false ∷ ok false ∷ ok true ∷ [];
  settled = [];
  clock = 50_000;
  files = [];
}

abbrev switched : FakeState
switched = record clinging { files = "/disable" ∷ [] }

abbrev counters : Map String ℕ
counters = ("alice", 600) ∷ []

step_switched_example :
    step (fake_runner uid_of) household ("alice" ∷ []) counters new switched ≡ (new, switched)
unfolding contains
step_switched_example =
    step_switched (fake_runner uid_of) household counters ("alice" ∷ []) new switched refl

abbrev logging : Config
logging = record household { enforcement = log }

abbrev stamped : Enforcer
stamped = record { last_kicked = (501, 45_000) ∷ [] }

step_skips_recent_example :
    step (fake_runner uid_of) household ("bob" ∷ "alice" ∷ []) counters stamped clinging
    ≡ step (fake_runner uid_of) household ("bob" ∷ []) counters stamped clinging
unfolding lookup
step_skips_recent_example =
    step_skips_recent (fake_runner uid_of) household counters ("bob" ∷ []) [] "alice" 501 45_000
      stamped clinging refl refl (omega arith)

abbrev shared : Shared Disk
shared = record { state = evening; fs = old_disk; wakeups = 0 }

abbrev ticker : Ticker FakeState
ticker = record { enforcer = new; world = clinging }

-- The second tick past the minute of alice.
ticker_round_enforces_example :
    let total = (carried evening "alice" 1 + 30) % u32_mod in
    let after =
      ticker_round disk_files flat_paths name_codec household
        (fake_runner uid_of)
        (some "alice")
        1
        (shared, ticker) in
    (IsUsedUp (record { daily_limit_minutes = 1 }) total
      → after.1.world ≡ (force_logout (fake_runner uid_of) "alice" 501 clinging).1)
    × ((¬ IsUsedUp (record { daily_limit_minutes = 1 }) total)
        → (after.1.world ≡ clinging) × (after.1.enforcer ≡ new))
unfolding user_by_name lookup contains used
ticker_round_enforces_example =
    ticker_round_enforces (fake_runner uid_of) household disk_files flat_paths name_codec "alice"
      501 1 (record { daily_limit_minutes = 1 }) shared ticker (λ e. cc ((eq_iff alice "").1 e))
      (λ e. cc ((eq_iff alice "loginwindow").1 e)) refl refl refl (λ h. h) refl

abbrev quiet : Wake FakeState
quiet = record { alarms = 1 ∷ []; elapse = λ w. w; name = some "alice"; today = 1 }

abbrev morning : Shared Disk
morning = record shared {
  state = record { day = some 1; counters = ("alice", 10) ∷ []; active_now = [] };
}

-- The second of three ticks forces the logout.
run_ticker-Forces_example :
    Forces disk_files flat_paths name_codec household
      (fake_runner uid_of)
      "alice"
      501
      (record { daily_limit_minutes = 1 })
      1
      (quiet ∷ quiet ∷ quiet ∷ [])
      (morning, ticker)
unfolding user_by_name lookup contains used
run_ticker-Forces_example =
    run_ticker-Forces disk_files flat_paths name_codec household (fake_runner uid_of) "alice" 501 1
      (record { daily_limit_minutes = 1 }) (λ e. cc ((eq_iff alice "").1 e))
      (λ e. cc ((eq_iff alice "loginwindow").1 e)) refl refl refl (quiet ∷ quiet ∷ quiet ∷ [])
      morning ticker
      (
        refl,
        refl,
        (refl, tt),
        refl,
        (refl, refl, (refl, tt), refl, (refl, refl, (refl, tt), refl, tt)),
      )
      refl (omega arith) (omega arith) (omega arith)

-- A codec for one user with 40 seconds on day 1.
abbrev encode_day : Option ℕ → Map String ℕ → Result String
encode_day (some d) ((name, n) ∷ []) = if d == 1 && n == 40 then ok name else err decoding
encode_day _ _ = err decoding

abbrev decode_day : String → Result Stored
decode_day text = ok (record { day = some 1; counters = (text, 40) ∷ [] })

decode-encode_day :
    (day : Option ℕ) (counters : Map String ℕ) (text : String)
    → encode_day day counters ≡ ok text
    → decode_day text ≡ ok (record { day = day; counters = counters })
decode-encode_day none [] text h = cc
decode-encode_day (some d) [] text h = cc
decode-encode_day none ((name, n) ∷ []) text h = cc
decode-encode_day (some d) ((name, n) ∷ []) text h = ground (arith, h)
decode-encode_day none (a ∷ b ∷ rest) text h = cc
decode-encode_day (some d) (a ∷ b ∷ rest) text h = cc

abbrev day_codec : StateCodec
day_codec = record {
  to_vec_pretty = λ x. encode_day x.day x.counters;
  from_slice = decode_day;
  decodes = λ x text h. decode-encode_day x.day x.counters text h;
}

-- The save of the tick goes through, and a start later that day reads 40 seconds.
startup-ticker_round_example :
    let after =
      (ticker_round disk_files flat_paths day_codec household
        (fake_runner uid_of)
        (some "alice")
        1
        (morning, ticker)).0 in
    let saved = (save_atomic disk_files flat_paths day_codec after.state "/state" old_disk).0 in
    let restarted = (startup disk_files flat_paths day_codec household none 1 after.fs).state in
    (saved ≡ ok tt → (restarted.day ≡ some 1) × (used restarted "alice" ≡ used after.state "alice"))
    × ((f : Failure)
        → saved ≡ err f
        → restarted ≡ (startup disk_files flat_paths day_codec household none 1 old_disk).state)
unfolding lookup
startup-ticker_round_example =
    startup-ticker_round disk_laws flat_paths day_codec household (fake_runner uid_of) "alice"
      "alice" (some "alice") none 1 1 morning ticker refl

-- A system on which every command hangs and alice stays; the world is its clock.
abbrev hanging : Host ℕ
hanging = record {
  spawn = λ program args w. (hangs, w);
  pass_time = λ n w. w + n;
  console_users = λ w. ("alice" ∷ [], w);
  now = λ w. w;
  path_exists = λ w path. false;
  from_name = λ name. ok (some 501);
}

hanging_lem : ClockLaws hanging
hanging_lem = record {
  now-pass_time = λ n w. refl;
  now-spawn = λ program args w. refl;
  now-console_users = λ w. refl;
}

step-bounded_example :
    (step (real_runner hanging) household ("alice" ∷ []) counters new 100_000).1
    ≤ 100_000 + 16_000 * 1
step-bounded_example =
    step-bounded hanging hanging_lem household ("alice" ∷ []) counters new 100_000

-- It takes all of that.
hanging_test :
    (step (real_runner hanging) household ("alice" ∷ []) counters new 100_000).1 ≡ 116_000
unfolding step real_runner contains lookup insert decide user_by_name act_on visit force_logout
hanging_test = refl
