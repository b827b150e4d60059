-- ===== src/Tray/Uninstall/Waiting.antt =====
-- The wait for the bundle's removal: crates/tray/src/bin/tray.rs.
use konstantin.Common.{
  ℕ, ◌+◌, ◌≤◌, ◌≡◌, ◌⊎◌, inl, inr, refl, Bool, true, false, not, Option, none, some, List, [], ◌∷◌,
  arith, leb, if◌then◌else◌, Bool-cases, ◌==◌, nat_eq, string_eq, unwrap_or, length,
}
use konstantin.Common.Outcome.{not_found, other_kind, Failure, io, decoding, bail, Result, ok, err}
use konstantin.Common.Polling.{stop, go, follow, poll, Spaced, Ends-poll}
use konstantin.Tray.Uninstall.{
  original, replaced, observe_bundle, since_missing, on_observation, watch_round, missing_millis,
  wait_millis, pause_millis, wait_for_bundle_removal,
}

-- However the bundle comes and goes, the wait ends: 481 rounds, a pause apart, are more than its
-- deadline leaves room for.
pub Ends-wait_for_bundle_removal :
    (inode start : ℕ) (rounds : List (ℕ × Result ℕ))
    → Spaced pause_millis start rounds
    → 481 ≤ length rounds
    → (r : Result Bool) × (wait_for_bundle_removal inode start rounds ≡ some r)
unfolding wait_for_bundle_removal
Ends-wait_for_bundle_removal inode start rounds spaced enough =
    Ends-poll (watch_round inode) (start + wait_millis) _ pause_millis start none rounds
      (omega arith) (omega arith) (omega arith) spaced

-- The path was not there.
abbrev pub Missing : Result ℕ → Type 0
Missing (ok inode) = ⊥
Missing (err (io not_found)) = Unit {0}
Missing (err (io other_kind)) = ⊥
Missing (err decoding) = ⊥
Missing (err (bail m)) = ⊥

-- The rounds begin with ones that all miss the bundle, up to one that comes twenty seconds after
-- the instant given, or later.
abbrev pub MissingFrom : ℕ → List (ℕ × Result ℕ) → Type 0
MissingFrom since [] = ⊥
MissingFrom since ((now, seen) ∷ rest) =
    Missing seen × ((since + missing_millis ≤ now) ⊎ MissingFrom since rest)

-- Somewhere in the rounds the bundle is missing for twenty seconds.
abbrev pub Gone : List (ℕ × Result ℕ) → Type 0
Gone [] = ⊥
Gone ((now, seen) ∷ rest) = MissingFrom now ((now, seen) ∷ rest) ⊎ Gone rest

module _ (inode deadline : ℕ) (late : Failure) where
  waiting : Option ℕ → List (ℕ × Result ℕ) → Option (Result Bool)
  waiting = poll (watch_round inode) deadline (err late)

  GoneSince : Option ℕ → List (ℕ × Result ℕ) → Type 0
  GoneSince none rounds = Gone rounds
  GoneSince (some since) rounds = MissingFrom since rounds ⊎ Gone rounds

  -- A loop that goes on and says true says it later.
  follow-go :
      (s : Option ℕ) (now : ℕ) (next : Option ℕ → Option (Result Bool))
      → follow (watch_round inode) deadline (err late) (go s) now next ≡ some (ok true)
      → next s ≡ some (ok true)
  follow-go s now next h = elim (Bool-cases (leb deadline now)) [
    | inl over ↦ ground (arith, h, over)
    | inr before ↦ ground (arith, h, before)
  ]

  later :
      (since : Option ℕ) (r : ℕ × Result ℕ) (rest : List (ℕ × Result ℕ))
      → Gone rest
      → GoneSince since (r ∷ rest)
  unfolding GoneSince
  later none (now, seen) rest g = inr g
  later (some since) (now, seen) rest g = inr (inr g)

  longer :
      (since : Option ℕ) (now : ℕ) (rest : List (ℕ × Result ℕ))
      → ((unwrap_or now since + missing_millis ≤ now) ⊎ MissingFrom (unwrap_or now since) rest)
      → GoneSince since ((now, err (io not_found)) ∷ rest)
  unfolding GoneSince
  longer none now rest h = inl (tt, h)
  longer (some since) now rest h = inl (tt, h)

  -- A bundle that is there: true comes later, and the time starts anew.
  there :
      (b : Bool) (since : Option ℕ) (now : ℕ) (next : Option ℕ → Option (Result Bool))
      → follow
          (watch_round inode)
          deadline
          (err late)
          (on_observation since now (ok (if not b then replaced else original)))
          now
          next
        ≡ some (ok true)
      → next none ≡ some (ok true)
  there true since now next h = follow-go none now next h
  there false since now next h = ground (arith, h)

  -- A bundle that is missing: the twenty seconds are over, or true comes later.
  not_there_yet :
      (over : Bool) (from now : ℕ) (next : Option ℕ → Option (Result Bool))
      → follow
          (watch_round inode)
          deadline
          (err late)
          (if over then stop (ok true) else go (some from))
          now
          next
        ≡ some (ok true)
      → (over ≡ true) ⊎ (next (some from) ≡ some (ok true))
  not_there_yet true from now next h = inl refl
  not_there_yet false from now next h = inr (follow-go (some from) now next h)

  not_there :
      (from now : ℕ) (next : Option ℕ → Option (Result Bool))
      → follow (watch_round inode) deadline (err late) (since_missing from now) now next
        ≡ some (ok true)
      → (from + missing_millis ≤ now) ⊎ (next (some from) ≡ some (ok true))
  not_there from now next h =
      elim (not_there_yet (leb (from + missing_millis) now) from now next h) [
        | inl over ↦ inl (ground (arith, over))
        | inr later_on ↦ inr later_on
      ]

  continued :
      (since : Option ℕ) (now : ℕ) (rest : List (ℕ × Result ℕ))
      → ((unwrap_or now since + missing_millis ≤ now)
          ⊎ (MissingFrom (unwrap_or now since) rest ⊎ Gone rest))
      → GoneSince since ((now, err (io not_found)) ∷ rest)
  continued since now rest (inl over) = longer since now rest (inl over)
  continued since now rest (inr (inl m)) = longer since now rest (inr m)
  continued since now rest (inr (inr g)) = later since _ rest g

  GoneSince-waiting :
      (since : Option ℕ) (rounds : List (ℕ × Result ℕ))
      → waiting since rounds ≡ some (ok true)
      → GoneSince since rounds
  unfolding waiting GoneSince poll watch_round observe_bundle
  GoneSince-waiting since [] h = absurd (ground (arith, h))
  GoneSince-waiting since ((now, ok i) ∷ rest) h =
      later since _ rest
        (GoneSince-waiting none rest (there (i == inode) since now (λ s. waiting s rest) h))
  GoneSince-waiting since ((now, err (io not_found)) ∷ rest) h =
      continued since now rest (elim (not_there (unwrap_or now since) now (λ s. waiting s rest) h) [
        | inl over ↦ inl over
        | inr next ↦ inr (GoneSince-waiting (some (unwrap_or now since)) rest next)
      ])
  GoneSince-waiting since ((now, err (io other_kind)) ∷ rest) h = absurd (ground (arith, h))
  GoneSince-waiting since ((now, err decoding) ∷ rest) h = absurd (ground (arith, h))
  GoneSince-waiting since ((now, err (bail m)) ∷ rest) h = absurd (ground (arith, h))

-- The wait says that the bundle was removed only when it saw it missing for twenty seconds on end,
-- with nothing at its path in any round between.
pub Gone-wait_for_bundle_removal :
    (inode start : ℕ) (rounds : List (ℕ × Result ℕ))
    → wait_for_bundle_removal inode start rounds ≡ some (ok true)
    → Gone rounds
unfolding wait_for_bundle_removal waiting GoneSince
Gone-wait_for_bundle_removal inode start rounds h = GoneSince-waiting inode _ _ none rounds h
