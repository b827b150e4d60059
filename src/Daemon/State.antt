-- ===== src/Daemon/State.antt =====
-- The per-user counters and their file: crates/daemon/src/state.rs. A day is the number of a
-- calendar date; `+=` on a counter wraps at 2 ^ 32, as in a release build.
pub mod Counting
pub mod Saving
use Prim.Native.String.{◌++◌ as str_append}
use konstantin.Common.{
  ℕ, String, ◌+◌, ◌%◌, ◌≡◌, Bool, true, false, not, ◌&&◌, Option, none, some, List, [], ◌∷◌,
  if◌then◌else◌, ◌==◌, nat_eq, string_eq, unwrap_or, u32_mod, Map, lookup, insert, contains,
}
use konstantin.Common.Outcome.{Result, ok, err}
use konstantin.Common.Action.{Action, lift, ◌>>=◌, ◌>>◌}
use konstantin.Common.Files.{Files, Paths}

pub record State : Type 0 where
  pub day : Option ℕ
  pub counters : Map String ℕ
  pub active_now : List String

-- `State::default`
abbrev pub fresh : State
fresh = record { day = none; counters = []; active_now = [] }

unfoldable pub used : State → String → ℕ
used s username = unwrap_or 0 (lookup username s.counters)

unfoldable pub is_active : State → String → Bool
is_active s username = contains s.active_now username

abbrev pub same_day : Option ℕ → ℕ → Bool
same_day none today = false
same_day (some d) today = d == today

unfoldable pub reset_if_new_day : ℕ → State → State × Bool
reset_if_new_day today s =
    if same_day s.day today
    then (s, false)
    else (record s { day = some today; counters = [] }, true)

-- The loop of `tick`: `*counters.entry(user).or_insert(0) += delta`.
unfoldable pub add_all : List String → ℕ → Map String ℕ → Map String ℕ
add_all [] delta m = m
add_all (user ∷ rest) delta m =
    add_all rest delta (insert user ((unwrap_or 0 (lookup user m) + delta) % u32_mod) m)

unfoldable pub tick : List String → ℕ → State → State
unfolding add_all
tick active delta s = record s { counters = add_all active delta s.counters; active_now = active }

-- What serde keeps of a state: `active_now` is skipped.
pub record Stored : Type 0 where
  pub day : Option ℕ
  pub counters : Map String ℕ

-- The JSON codec of a stored state, with its round trip.
pub record StateCodec : Type 0 where
  pub to_vec_pretty : Stored → Result String
  pub from_slice : String → Result Stored
  pub decodes : (x : Stored) (text : String) → to_vec_pretty x ≡ ok text → from_slice text ≡ ok x

abbrev pub stored : State → Stored
stored s = record { day = s.day; counters = s.counters }

abbrev pub restored : Result Stored → State
restored (ok x) = record { day = x.day; counters = x.counters; active_now = [] }
restored (err e) = fresh

-- A missing, unreadable or unparseable file gives a fresh state.
abbrev pub parsed : StateCodec → Result String → State
parsed codec (ok text) = restored (codec.from_slice text)
parsed codec (err e) = fresh

module _ {Fs : Type 0} (files : Files Fs) (paths : Paths) (codec : StateCodec) where
  unfoldable pub load : Fs → String → State
  load fs path = parsed codec (files.read_to_string fs path)

  -- The directory of the file is made, with mode 0700, when it is missing.
  unfoldable pub prepare_parent : Option String → Action Fs (Unit {0})
  prepare_parent none fs = (ok tt, fs)
  prepare_parent (some dir) fs =
      if not (dir == "") && not (files.path_exists fs dir)
      then (do files.create_dir_all dir; files.set_mode dir 0o700) fs
      else (ok tt, fs)

  unfoldable pub save_atomic : State → String → Action Fs (Unit {0})
  unfolding prepare_parent
  save_atomic s path = do
    prepare_parent (paths.parent path)
    body ← lift (codec.to_vec_pretty (stored s))
    files.write (str_append path ".tmp") body
    files.rename (str_append path ".tmp") path
