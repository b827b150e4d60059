-- ===== src/Daemon/Enforcement/Deciding.antt =====
-- When `decide` of crates/daemon/src/enforcement.rs answers with a kick.
use konstantin.Common.{
  ℕ, String, ◌+◌, ◌-◌, ◌*◌, ◌≤◌, ◌<◌, ◌≡◌, ◌↔◌, ◌⊎◌, inl, inr, refl, Bool, true, false, Option,
  none, some, arith, leb, if◌then◌else◌, Bool-cases, nat_eq, string_eq, u32_mod,
}
use konstantin.Daemon.Config.{Config, UserConfig, block, user_by_name}
use konstantin.Daemon.Enforcement.{
  bootout_backoff, limit_reached, blocked_by_default_policy, no_op, kick, limit_seconds, held_off,
  decide, decide_user,
}

-- The last kick is less than the backoff ago.
abbrev pub HeldOff : Option ℕ → ℕ → Type 0
HeldOff none now = ⊥
HeldOff (some t) now = now < t + bootout_backoff

-- The daily limit is used up; a limit of 2 ^ 32 seconds or more counts as 2 ^ 32 - 1.
abbrev pub IsUsedUp : UserConfig → ℕ → Type 0
IsUsedUp u used = (u.daily_limit_minutes * 60 ≤ used) ⊎ (u32_mod - 1 ≤ used)

pub held_off_iff : (last : Option ℕ) (now : ℕ) → (held_off last now ≡ true) ↔ HeldOff last now
held_off_iff none now = ((λ h. cc), λ h. absurd h)
held_off_iff (some t) now = ground arith

pub free_iff : (last : Option ℕ) (now : ℕ) → (held_off last now ≡ false) ↔ (¬ HeldOff last now)
free_iff last now = (
  (λ f h. cc ((held_off_iff last now).1 h)),
  λ free. elim (Bool-cases (held_off last now)) [
    | inl t ↦ absurd (free ((held_off_iff last now).0 t))
    | inr f ↦ f
  ],
)

pub IsUsedUp-iff :
    (u : UserConfig) (used : ℕ) → (leb (limit_seconds u) used ≡ true) ↔ IsUsedUp u used
IsUsedUp-iff u used = ground arith

module _ (cfg : Config) (username : String) (used : ℕ) (last : Option ℕ) (now : ℕ) where
  limit_iff :
      (o : Option UserConfig) (b : Bool)
      → ((if b then no_op else decide_user cfg o used) ≡ kick limit_reached)
        ↔ ((b ≡ false) × ((u : UserConfig) × (o ≡ some u) × (leb (limit_seconds u) used ≡ true)))
  limit_iff none b = ground arith
  limit_iff (some u) b = ((λ h. (ground arith, (u, refl, ground arith))), λ h. ground arith)

  default_iff :
      (o : Option UserConfig) (b : Bool)
      → ((if b then no_op else decide_user cfg o used) ≡ kick blocked_by_default_policy)
        ↔ ((b ≡ false) × (o ≡ none) × (cfg.default_policy ≡ block))
  default_iff none b = ground arith
  default_iff (some u) b = ground arith

  -- A user is kicked for the limit exactly when no kick is less than the backoff ago, the user is
  -- configured, and the daily limit is used up; and for the default policy exactly when no kick is
  -- less than the backoff ago, the user is not configured, and the policy blocks.
  pub decide_iff :
      ((decide cfg username used last now ≡ kick limit_reached) ↔ (
        (¬ HeldOff last now)
        × ((u : UserConfig) × (user_by_name cfg username ≡ some u) × IsUsedUp u used)))
      × ((decide cfg username used last now ≡ kick blocked_by_default_policy) ↔ (
          (¬ HeldOff last now) × (user_by_name cfg username ≡ none) × (cfg.default_policy ≡ block)))
  unfolding decide
  decide_iff = (
    (
      (λ h.
          let (b, (u, found, over)) =
            (limit_iff (user_by_name cfg username) (held_off last now)).0 h in
          ((free_iff last now).0 b, (u, found, (IsUsedUp-iff u used).0 over))),
      λ (free, (u, found, over)).
          (limit_iff (user_by_name cfg username) (held_off last now)).1
            ((free_iff last now).1 free, (u, found, (IsUsedUp-iff u used).1 over)),
    ),
    (
      (λ h.
          let (b, found, policy) =
            (default_iff (user_by_name cfg username) (held_off last now)).0 h in
          ((free_iff last now).0 b, found, policy)),
      λ (free, found, policy).
          (default_iff (user_by_name cfg username) (held_off last now)).1
            ((free_iff last now).1 free, found, policy),
    ),
  )
