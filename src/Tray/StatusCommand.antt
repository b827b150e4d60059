-- ===== src/Tray/StatusCommand.antt =====
-- The headless client: crates/tray/src/bin/status.rs. The standard output is a list of texts; the
-- format of an instant, the debug format of a state and the JSON forms are arguments.
pub mod Codes
use konstantin.Common.{
  ℕ, String, Bool, true, false, ◌||◌, Option, none, some, List, [], ◌∷◌, if◌then◌else◌, nat_eq,
  string_eq, contains,
}
use konstantin.Common.Outcome.{Result, ok, err}
use Prim.Native.String.{◌++◌ as str_append}
use konstantin.Common.Int.{pos}
use konstantin.Common.Decimal.{decimal}
use konstantin.Proto.{SessionState, UserStatus}
use konstantin.Tray.Client.{format_remaining}

-- What the program has printed, and its exit code.
pub record Exit : Type 0 where
  pub output : List String
  pub code : ℕ

pub record Format : Type 0 where
  pub instant : ℕ → String
  pub state_text : SessionState → String
  pub to_json : UserStatus → Result String
  pub to_json_pretty : UserStatus → Result String

abbrev pub any_of : List String → List String → Bool
any_of wanted [] = false
any_of wanted (arg ∷ args) = contains wanted arg || any_of wanted args

abbrev pub printing : String → Exit → Exit
printing text rest = record rest { output = text ∷ rest.output }

module _ (format : Format) where
  unfoldable pub print_status_block : UserStatus → String
  unfolding format_remaining
  print_status_block s = str_append "user      : " (
      str_append s.username (
        str_append " (uid " (
          str_append (decimal s.uid) (
            str_append ")\nstate     : " (
              str_append (format.state_text s.state) (
                str_append "\ndaily     : " (
                  str_append (format_remaining (pos s.daily_limit_seconds)) (
                    str_append "\nused      : " (
                      str_append (format_remaining (pos s.used_seconds)) (
                        str_append "\nremaining : " (
                          str_append (format_remaining s.remaining_seconds)
                            (str_append "\nresets_at : " (format.instant s.resets_at)))))))))))))

  -- With the time of day.
  unfoldable pub print_status_compact : String → UserStatus → String
  unfolding format_remaining
  print_status_compact now s = str_append "[" (
      str_append now (
        str_append "] " (
          str_append s.username (
            str_append " state=" (
              str_append (format.state_text s.state) (
                str_append " used=" (
                  str_append (format_remaining (pos s.used_seconds))
                    (str_append " remaining=" (format_remaining s.remaining_seconds)))))))))

  abbrev pub print_update : Bool → String → UserStatus → Result String
  print_update true now s = format.to_json s
  print_update false now s = ok (print_status_compact now s)

  -- A JSON text that cannot be made ends the program with the code of an error from `main`.
  abbrev pub printed : Result String → Option Exit → Option Exit
  printed (err e) rest = some (record { output = []; code = 1 })
  printed (ok text) none = none
  printed (ok text) (some exit) = some (printing text exit)

  -- The loop of `--watch` over what `next_update` gives, each with the time of day; `none` is a
  -- stream that has not ended.
  unfoldable pub watch_loop : Bool → List (Result (Option UserStatus) × String) → Option Exit
  unfolding print_status_compact
  watch_loop json [] = none
  watch_loop json ((ok (some s), now) ∷ rest) =
      printed (print_update json now s) (watch_loop json rest)
  watch_loop json ((ok none, now) ∷ rest) = some (record { output = []; code = 0 })
  watch_loop json ((err e, now) ∷ rest) = some (record { output = []; code = 2 })

  abbrev pub watch :
      Bool → Result (Unit {0}) → List (Result (Option UserStatus) × String) → Option Exit
  watch json (ok _) updates = watch_loop json updates
  watch json (err e) updates = some (record { output = []; code = 2 })

  abbrev pub block_of : Bool → UserStatus → Result String
  block_of true s = format.to_json_pretty s
  block_of false s = ok (print_status_block s)

  abbrev pub one_shot : Bool → Result UserStatus → Option Exit
  one_shot json (ok s) = printed (block_of json s) (some (record { output = []; code = 0 }))
  one_shot json (err e) = some (record { output = []; code = 2 })

  -- `main`, from the arguments, the outcome of the subscription with its updates, and that of
  -- `fetch_status`.
  unfoldable pub main :
      List String
      → Result (Unit {0})
      → List (Result (Option UserStatus) × String)
      → Result UserStatus
      → Option Exit
  unfolding watch_loop print_status_block
  main args opened updates fetched =
      if any_of ("--watch" ∷ "-w" ∷ []) args
      then watch (any_of ("--json" ∷ []) args) opened updates
      else one_shot (any_of ("--json" ∷ []) args) fetched
