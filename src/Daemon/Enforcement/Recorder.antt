-- ===== src/Daemon/Enforcement/Recorder.antt =====
-- The `FakeRunner` of the tests in crates/daemon/src/enforcement.rs: it records each command and
-- each pause, and answers from queues. Any answers of a real system can be put in the queues.
use konstantin.Common.{
  ℕ, String, ◌+◌, Bool, true, Option, List, [], ◌∷◌, ◌++◌, nat_eq, string_eq, contains,
}
use konstantin.Common.Outcome.{Result, ok}
use konstantin.Common.Action.{Action}
use konstantin.Daemon.Enforcement.{System}

pub record FakeState : Type 0 where
  pub calls : List (String × List String)
  pub user_queries : List (List String)
  pub run_results : List (Result Bool)
  pub settled : List ℕ
  pub clock : ℕ
  pub files : List String

abbrev pub next_result : List (Result Bool) → Result Bool
next_result [] = ok true
next_result (r ∷ rest) = r

abbrev pub next_users : List (List String) → List String
next_users [] = []
next_users (u ∷ rest) = u

abbrev pub rest_of {ℓ} : {A : Type ℓ} → List A → List A
rest_of [] = []
rest_of (a ∷ rest) = rest

abbrev fake_run : String → List String → Action FakeState Bool
fake_run program args s = (
  next_result s.run_results,
  record s { calls = s.calls ++ (program, args) ∷ []; run_results = rest_of s.run_results },
)

abbrev fake_users : FakeState → List String × FakeState
fake_users s = (next_users s.user_queries, record s { user_queries = rest_of s.user_queries })

abbrev pub fake_runner : (String → Option ℕ) → System FakeState
fake_runner uids = record {
  run = fake_run;
  settle = λ dur s. record s { settled = s.settled ++ dur ∷ []; clock = s.clock + dur };
  console_users = fake_users;
  now = λ s. s.clock;
  path_exists = λ s path. contains s.files path;
  resolve_uid = uids;
}
