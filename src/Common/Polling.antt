-- ===== src/Common/Polling.antt =====
-- Loops that look at the world, give up at a deadline, and pause before they look again. What the
-- loop sees is a list of rounds: the instant of the round, in milliseconds, and what is seen then.
use konstantin.Common.{
  ℕ, ◌+◌, ◌*◌, ◌≤◌, ◌<◌, ◌≡◌, refl, Option, none, some, List, [], ◌∷◌, arith, leb, if◌then◌else◌,
  Bool-cases, inl, inr, length,
}

-- What a round decides: the result, or the state of the next round.
pub data Verdict (S A : Type 0) : Type 0 where
  stop : A → Verdict S A
  go : S → Verdict S A

module _ {S A R : Type 0} (react : S → ℕ → R → Verdict S A) (deadline : ℕ) (late : A) where
  abbrev pub follow : Verdict S A → ℕ → (S → Option A) → Option A
  follow (stop a) now next = some a
  follow (go s) now next = if leb deadline now then some late else next s

  -- `none` is a loop that has not ended with the rounds.
  unfoldable pub poll : S → List (ℕ × R) → Option A
  poll s [] = none
  poll s ((now, seen) ∷ rest) = follow (react s now seen) now (λ s'. poll s' rest)

-- The rounds come at the instant given or later, and a pause after each other.
abbrev pub Spaced : {R : Type 0} → ℕ → ℕ → List (ℕ × R) → Type 0
Spaced pause from [] = Unit {0}
Spaced pause from ((now, seen) ∷ rest) = (from ≤ now) × Spaced pause (now + pause) rest

module _ {S A R : Type 0} (react : S → ℕ → R → Verdict S A) (deadline : ℕ) (late : A)
    (pause : ℕ) where
  abbrev pub Ends : Option A → Type 0
  Ends o = (a : A) × (o ≡ some a)

  Ends-follow :
      (v : Verdict S A) (now : ℕ) (next : S → Option A)
      → ((s : S) → now < deadline → Ends (next s))
      → Ends (follow react deadline late v now next)
  Ends-follow (stop a) now next h = (a, refl)
  Ends-follow (go s) now next h = elim (Bool-cases (leb deadline now)) [
    | inl over ↦ (late, rw over)
    | inr before ↦ rw before (h s (ground (arith, before)))
  ]

  Ends-poll_from :
      (from : ℕ) (s : S) (rounds : List (ℕ × R))
      → from < deadline + pause
      → deadline + pause ≤ from + pause * length rounds
      → Spaced pause from rounds
      → Ends (poll react deadline late s rounds)
  unfolding poll
  Ends-poll_from from s [] early enough spaced = absurd (omega arith)
  Ends-poll_from from s ((now, seen) ∷ rest) early enough spaced =
      Ends-follow (react s now seen) now _ λ s' before.
        Ends-poll_from (now + pause) s' rest (omega arith) (grind (arith, enough, spaced.0))
          spaced.1

  -- However the world looks, a loop ends within the rounds that its deadline and its pauses leave
  -- room for.
  pub Ends-poll :
      (start : ℕ) (s : S) (rounds : List (ℕ × R))
      → start ≤ deadline
      → 0 < pause
      → deadline + pause ≤ start + pause * length rounds
      → Spaced pause start rounds
      → Ends (poll react deadline late s rounds)
  Ends-poll start s rounds early positive enough spaced =
      Ends-poll_from start s rounds (omega arith) enough spaced
