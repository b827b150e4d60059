-- ===== src/Tray/StatusCommand/Codes.antt =====
-- The exit codes of crates/tray/src/bin/status.rs.
use konstantin.Common.{
  ℕ, String, ◌<◌, ◌≡◌, Bool, true, false, Option, none, some, List, [], ◌∷◌, arith, if◌then◌else◌,
  nat_eq, string_eq,
}
use konstantin.Common.Outcome.{Result, ok, err}
use mathlib.Core.Path.{subst}
use konstantin.Proto.{UserStatus}
use konstantin.Tray.StatusCommand.{
  Exit, Format, printed, print_update, watch_loop, watch, block_of, one_shot, main, any_of,
}

-- If the program ends, then with a code below the bound.
CodeBelow : ℕ → Option Exit → Type 0
CodeBelow bound none = Unit {0}
CodeBelow bound (some exit) = exit.code < bound

module _ (format : Format) where
  CodeBelow-printed :
      (r : Result String) (o : Option Exit) → CodeBelow 3 o → CodeBelow 3 (printed format r o)
  unfolding CodeBelow
  CodeBelow-printed (err e) o h = omega arith
  CodeBelow-printed (ok text) none h = h
  CodeBelow-printed (ok text) (some exit) h = h

  CodeBelow-watch_loop :
      (json : Bool) (updates : List (Result (Option UserStatus) × String))
      → CodeBelow 3 (watch_loop format json updates)
  unfolding watch_loop CodeBelow
  CodeBelow-watch_loop json [] = tt
  CodeBelow-watch_loop json ((ok (some s), now) ∷ rest) =
      CodeBelow-printed (print_update format json now s) (watch_loop format json rest)
        (CodeBelow-watch_loop json rest)
  CodeBelow-watch_loop json ((ok none, now) ∷ rest) = omega arith
  CodeBelow-watch_loop json ((err e, now) ∷ rest) = omega arith

  CodeBelow-watch :
      (json : Bool) (opened : Result (Unit {0}))
      (updates : List (Result (Option UserStatus) × String))
      → CodeBelow 3 (watch format json opened updates)
  unfolding CodeBelow
  CodeBelow-watch json (ok _) updates = CodeBelow-watch_loop json updates
  CodeBelow-watch json (err e) updates = omega arith

  CodeBelow-one_shot :
      (json : Bool) (fetched : Result UserStatus) → CodeBelow 3 (one_shot format json fetched)
  unfolding CodeBelow
  CodeBelow-one_shot json (ok s) =
      CodeBelow-printed (block_of format json s) (some (record { output = []; code = 0 }))
        (omega arith)
  CodeBelow-one_shot json (err e) = omega arith

  either :
      (b : Bool) (x y : Option Exit)
      → CodeBelow 3 x
      → CodeBelow 3 y
      → CodeBelow 3 (if b then x else y)
  either true x y hx hy = hx
  either false x y hx hy = hy

  -- Whatever the arguments, the connection, the daemon and the JSON encoder do, the exit code is 0,
  -- 1 or 2.
  pub main-code_lt :
      (args : List String) (opened : Result (Unit {0}))
      → (updates : List (Result (Option UserStatus) × String)) (fetched : Result UserStatus)
        (exit : Exit)
      → main format args opened updates fetched ≡ some exit
      → exit.code < 3
  unfolding main CodeBelow
  main-code_lt args opened updates fetched exit h = subst (CodeBelow 3) h (
      either (any_of ("--watch" ∷ "-w" ∷ []) args) _ _
        (CodeBelow-watch (any_of ("--json" ∷ []) args) opened updates)
        (CodeBelow-one_shot (any_of ("--json" ∷ []) args) fetched))
