-- ===== src/Tray/Install/Verified.antt =====
-- When the setup of the daemon counts as done: crates/tray/src/bin/tray.rs.
use konstantin.Common.{
  ℕ, String, ◌+◌, ◌≤◌, ◌≡◌, ◌⊎◌, inl, inr, refl, ap, Bool, true, false, ◌&&◌, Option, none, some,
  List, [], ◌∷◌, arith, leb, if◌then◌else◌, Bool-cases, nat_eq, string_eq, length,
}
use konstantin.Common.Outcome.{Failure, Result, ok, err}
use mathlib.Core.Path.{subst}
use mathlib.Core.Option as Option
use konstantin.Common.Polling.{stop, go, follow, poll, Spaced, Ends-poll}
use konstantin.Proto.Admin.{AdminResponse}
use konstantin.Tray.Bar.{
  Status, not_registered, enabled, requires_approval, not_found as missing, unknown,
}
use konstantin.Tray.Bundle.{Source, bundled, dev_tree}
use konstantin.Tray.Install.{
  Desktop, has_version, verify_round, verify_rounds, verified, verify_enabled_daemon, verifying,
  register_and_verify_daemon, reported, run_smappservice_install, from_bundle, confirmed,
  run_first_launch_install,
}
use konstantin.Tray.Services.{register_daemon}

-- However the daemon answers, the verification ends: 61 rounds, a quarter of a second apart, are
-- more than its deadline leaves room for.
pub Ends-verify_rounds :
    (version : String) (status : Status) (start : ℕ)
    (rounds : List (ℕ × (Bool × Result AdminResponse)))
    → Spaced 250 start rounds
    → 61 ≤ length rounds
    → (r : Result Status) × (verify_rounds version status start rounds ≡ some r)
unfolding verify_rounds
Ends-verify_rounds version status start rounds spaced enough =
    Ends-poll (verify_round version status) (start + 15000) _ 250 start tt rounds (omega arith)
      (omega arith) (omega arith) spaced

-- In some round the socket took a connection and the daemon answered with the version.
abbrev pub Answered : String → List (ℕ × (Bool × Result AdminResponse)) → Type 0
Answered version [] = ⊥
Answered version ((now, (socket, answer)) ∷ rest) =
    ((socket ≡ true) × (has_version version answer ≡ true)) ⊎ Answered version rest

answered_and : (a b : Bool) → (a && b) ≡ true → (a ≡ true) × (b ≡ true)
answered_and true true h = (refl, refl)
answered_and true false h = absurd (ground (arith, h))
answered_and false b h = absurd (ground (arith, h))

module _ (version : String) (status : Status) (deadline : ℕ) (late : Failure) where
  verifying_from : List (ℕ × (Bool × Result AdminResponse)) → Option (Result Status)
  verifying_from = poll (verify_round version status) deadline (err late) tt

  round-Answered :
      (b : Bool) (now : ℕ) (s : Status) (next : Unit {0} → Option (Result Status))
      → follow
          (verify_round version status)
          deadline
          (err late)
          (if b then stop (ok status) else go tt)
          now
          next
        ≡ some (ok s)
      → (b ≡ true) ⊎ (next tt ≡ some (ok s))
  round-Answered true now s next h = inl refl
  round-Answered false now s next h = elim (Bool-cases (leb deadline now)) [
    | inl over ↦ absurd (ground (arith, h, over))
    | inr before ↦ inr (ground (arith, h, before))
  ]

  Answered-verifying_from :
      (rounds : List (ℕ × (Bool × Result AdminResponse))) (s : Status)
      → verifying_from rounds ≡ some (ok s)
      → Answered version rounds
  unfolding verifying_from poll verify_round
  Answered-verifying_from [] s h = absurd (ground (arith, h))
  Answered-verifying_from ((now, (socket, answer)) ∷ rest) s h =
      elim (round-Answered (socket && has_version version answer) now s (λ _. verifying_from rest)
        h) [
          | inl seen ↦ inl (answered_and socket (has_version version answer) seen)
          | inr later ↦ inr (Answered-verifying_from rest s later)
        ]

module _ {W : Type 0} (desktop : Desktop W) (version : String) (show : Status → String)
    (describe : Failure → String) where
  -- The world of a run once the user has confirmed and the daemon is registered.
  abbrev pub after_registration : W → W
  after_registration w =
      (register_daemon desktop.services (desktop.confirm "Set up Konstantin" w).1).1

  -- In a run from the world given, the daemon answered with the program's version while the
  -- verification after the registration watched it.
  abbrev pub SeenRunning : W → Type 0
  SeenRunning w =
      ((desktop.confirm "Set up Konstantin" w).0 ≡ true)
      × Answered version (desktop.watch_daemon (after_registration w)).0.1

  Enabled : Type 0 → Option (Result Status × W) → Type 0
  Enabled seen none = Unit {0}
  Enabled seen (some (ok enabled, w)) = seen
  Enabled seen (some (ok not_registered, w)) = Unit {0}
  Enabled seen (some (ok requires_approval, w)) = Unit {0}
  Enabled seen (some (ok missing, w)) = Unit {0}
  Enabled seen (some (ok (unknown raw), w)) = Unit {0}
  Enabled seen (some (err e, w)) = Unit {0}

  Done : Type 0 → Option (Bool × W) → Type 0
  Done seen none = Unit {0}
  Done seen (some (true, w)) = seen
  Done seen (some (false, w)) = Unit {0}

  Enabled-some :
      (seen : Type 0) (r : Result Status) (w : W)
      → ((s : Status) → r ≡ ok s → seen)
      → Enabled seen (some (r, w))
  unfolding Enabled
  Enabled-some seen (ok enabled) w h = h enabled refl
  Enabled-some seen (ok not_registered) w h = tt
  Enabled-some seen (ok requires_approval) w h = tt
  Enabled-some seen (ok missing) w h = tt
  Enabled-some seen (ok (unknown raw)) w h = tt
  Enabled-some seen (err e) w h = tt

  Enabled-map :
      (seen : Type 0) (o : Option (Result Status)) (w : W)
      → ((s : Status) → o ≡ some (ok s) → seen)
      → Enabled seen (Option.map (λ r. (r, w)) o)
  unfolding Enabled
  Enabled-map seen none w h = tt
  Enabled-map seen (some r) w h = Enabled-some seen r w (λ s e. h s (ap some e))

  -- What the verification from a world on watches.
  abbrev Watched : W → Type 0
  Watched v = Answered version (desktop.watch_daemon v).0.1

  Enabled-verified :
      (status : Status) (v : W)
      → Enabled (Watched v) (verified desktop version show describe status (desktop.watch_daemon v))
  unfolding verify_rounds verifying_from
  Enabled-verified status v =
      Enabled-map (Watched v)
        (verify_rounds version status (desktop.watch_daemon v).0.0 (desktop.watch_daemon v).0.1)
        (desktop.watch_daemon v).1 (λ s e. Answered-verifying_from version status _ _ _ s e)

  Enabled-verify :
      (status : Status) (w : W)
      → Enabled (Watched w) (verify_enabled_daemon desktop version show describe status w)
  unfolding verify_enabled_daemon Enabled
  Enabled-verify enabled w = Enabled-verified enabled w
  Enabled-verify not_registered w = tt
  Enabled-verify requires_approval w = tt
  Enabled-verify missing w = tt
  Enabled-verify (unknown raw) w = tt

  Enabled-verifying :
      (q : Result Status × W) → Enabled (Watched q.1) (verifying desktop version show describe q)
  unfolding Enabled
  Enabled-verifying (ok status, w) = Enabled-verify status w
  Enabled-verifying (err e, w) = tt

  Done-reported :
      (seen : Type 0) (attention failed text : String) (o : Option (Result Status × W))
      → Enabled seen o
      → Done seen (Option.map (reported desktop version show describe attention failed text) o)
  unfolding Enabled Done
  Done-reported seen attention failed text none h = tt
  Done-reported seen attention failed text (some (ok enabled, w)) h = h
  Done-reported seen attention failed text (some (ok not_registered, w)) h = tt
  Done-reported seen attention failed text (some (ok requires_approval, w)) h = tt
  Done-reported seen attention failed text (some (ok missing, w)) h = tt
  Done-reported seen attention failed text (some (ok (unknown raw), w)) h = tt
  Done-reported seen attention failed text (some (err e, w)) h = tt

  Done-from_bundle :
      (seen : Type 0) (text : String) (rest : W → Option (Bool × W)) (s : Result Source) (w : W)
      → Done seen (rest w)
      → Done seen (from_bundle desktop version show describe text rest s w)
  unfolding Done
  Done-from_bundle seen text rest (ok bundled) w h = h
  Done-from_bundle seen text rest (ok dev_tree) w h = tt
  Done-from_bundle seen text rest (err e) w h = tt

  Done-confirmed :
      (seen : Type 0) (text : String) (rest : W → Option (Bool × W)) (q : Bool × W)
      → (q.0 ≡ true → Done seen (rest q.1))
      → Done seen (confirmed desktop version show describe text rest q)
  unfolding Done
  Done-confirmed seen text rest (false, w) h = tt
  Done-confirmed seen text rest (true, w) h =
      Done-from_bundle seen text rest (desktop.source w) w (h refl)

  Done-wider :
      (seen wider : Type 0) (o : Option (Bool × W)) → (seen → wider) → Done seen o → Done wider o
  unfolding Done
  Done-wider seen wider none f h = tt
  Done-wider seen wider (some (true, w)) f h = f h
  Done-wider seen wider (some (false, w)) f h = tt

  Done-install :
      (w : W)
      → Done
          (Watched (register_daemon desktop.services w).1)
          (run_smappservice_install desktop version show describe w)
  unfolding run_smappservice_install register_and_verify_daemon
  Done-install w = Done-reported _ _ _ _ _ (Enabled-verifying (register_daemon desktop.services w))

  -- The first setup succeeds only when the user confirmed it and the daemon, in one round of the
  -- verification that follows its registration in this very run, took connections on its socket
  -- and answered the admin channel with the version of the program.
  pub run_first_launch_install-SeenRunning :
      (w w' : W)
      → run_first_launch_install desktop version show describe w ≡ some (true, w')
      → SeenRunning w
  unfolding run_first_launch_install Done
  run_first_launch_install-SeenRunning w w' h = subst (Done (SeenRunning w)) h (
      Done-confirmed (SeenRunning w) _ (run_smappservice_install desktop version show describe)
        (desktop.confirm "Set up Konstantin" w)
        λ agreed. Done-wider _ (SeenRunning w) _ (λ seen. (agreed, seen)) (Done-install _))
