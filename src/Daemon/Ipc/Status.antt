-- ===== src/Daemon/Ipc/Status.antt =====
-- What `compute_status` of crates/daemon/src/ipc.rs says, against what the enforcer decides.
use konstantin.Common.{
  ℕ, suc, String, if◌then◌else◌, ◌+◌, ◌-◌, ◌<◌, ◌≡◌, ◌≢◌, ◌↔◌, ◌⊎◌, inl, inr, refl, ◌∙◌, [], ◌∷◌,
  lookup, unwrap_or, Bool, true, false, Option, none, some, arith, leb, Bool-cases, nat_eq,
  string_eq,
}
use mathlib.Core.Option.{some-injective}
use konstantin.Common.Int.{pos, sub_ℕ}
use konstantin.Proto.{active, limit_reached, offline, not_configured}
use konstantin.Daemon.Config.{Config, UserConfig, logout, user_by_name}
use konstantin.Daemon.State.{State, used, is_active}
use konstantin.Daemon.Enforcement.{
  KickReason, Decision, no_op, kick, decide, limit_seconds, System, Enforcer, force_logout,
  after_logout, act_on, visit, visit_all, step,
}
use konstantin.Daemon.Enforcement as E
use konstantin.Daemon.Ipc.{compute_status, state_and_limit}

-- The three states below the limit, for the entry of a user.
abbrev pub Below : Option UserConfig → ℕ → Type 0
Below o used = (u : UserConfig) × (o ≡ some u) × (used < limit_seconds u)

state_lem :
    (o : Option UserConfig) (used : ℕ) (here : Bool)
    → let st = (state_and_limit o used here).0 in
      ((st ≡ active) ↔ (Below o used × (here ≡ true)))
      × ((st ≡ offline) ↔ (Below o used × (here ≡ false)))
      × ((st ≡ not_configured) ↔ (o ≡ none))
state_lem none used here = (
  ((λ h. cc), λ h. absurd (ground arith)),
  ((λ h. cc), λ h. absurd (ground arith)),
  ((λ h. refl), λ h. refl),
)
state_lem (some u) used here = (
  ((λ h. ((u, refl, ground arith), ground arith)), λ h. ground (arith, some-injective h.0.1)),
  ((λ h. ((u, refl, ground arith), ground arith)), λ h. ground (arith, some-injective h.0.1)),
  ((λ h. absurd (ground arith)), λ h. cc),
)

remaining_lem :
    (limit used : ℕ)
    → ((leb limit used ≡ true) × ((n : ℕ) × (sub_ℕ limit used ≡ sub_ℕ 0 n) × (used ≡ limit + n)))
      ⊎ ((leb limit used ≡ false)
          × ((n : ℕ) × (sub_ℕ limit used ≡ pos (suc n)) × (used + suc n ≡ limit)))
remaining_lem limit used = elim (Bool-cases (leb limit used)) [
  | inl over ↦ inl (over, (used - limit, ground arith, ground arith))
  | inr under ↦ inr (under, (limit - used - 1, ground arith, ground arith))
]

-- A pass over a configured user without a stamp, in logout mode and without the kill-switch file, by
-- whether the limit is reached.
pass_lem :
    {W : Type 0} (sys : System W) (cfg : Config) (username : String) (uid : ℕ) (s : State)
    (e : Enforcer) (w : W) (u : UserConfig)
    → cfg.enforcement ≡ logout
    → sys.path_exists w cfg.kill_switch_path ≡ false
    → sys.resolve_uid username ≡ some uid
    → lookup uid e.last_kicked ≡ none
    → user_by_name cfg username ≡ some u
    → step sys cfg (username ∷ []) s.counters e w ≡ (
        if leb (limit_seconds u) (used s username)
        then after_logout sys uid e (force_logout sys username uid w)
        else (e, w))
unfolding step visit_all visit act_on decide used
pass_lem sys cfg username uid s e w u mode clear known free listed =
    rw (known, free, listed)
      (elim (Bool-cases (leb (limit_seconds u) (unwrap_or 0 (lookup username s.counters)))) [
        | inl over ↦ rw (over, clear, mode)
        | inr under ↦ rw under
      ])

-- In logout mode, in a system that has no kill-switch file, let a configured user with no stamp be
-- at the console, under the uid that the user database has. If the status that the socket shows is
-- `limit_reached`, the enforcement pass is the forced logout, with its stamp if it succeeds; with
-- any other status the pass does nothing at all.
pub step-compute_status :
    {W : Type 0} (sys : System W) (cfg : Config) (username : String) (uid midnight : ℕ) (s : State)
    (e : Enforcer) (w : W) (u : UserConfig)
    → cfg.enforcement ≡ logout
    → sys.path_exists w cfg.kill_switch_path ≡ false
    → sys.resolve_uid username ≡ some uid
    → lookup uid e.last_kicked ≡ none
    → user_by_name cfg username ≡ some u
    → let shown = (compute_status username uid cfg s midnight).state in
      let pass = step sys cfg (username ∷ []) s.counters e w in
      (shown ≡ limit_reached → pass ≡ after_logout sys uid e (force_logout sys username uid w))
      × (shown ≢ limit_reached → pass ≡ (e, w))
unfolding compute_status
step-compute_status sys cfg username uid midnight s e w u mode clear known free listed =
    let pass = pass_lem sys cfg username uid s e w u mode clear known free listed in
    elim (Bool-cases (leb (limit_seconds u) (used s username))) [
      | inl over ↦ ((λ shown. pass ∙ rw over), λ other. absurd (other (rw (listed, over))))
      | inr under ↦
          ((λ shown. absurd (ground (arith, shown, listed, under))), λ other. pass ∙ rw under)
    ]

module _ (cfg : Config) (username : String) (uid now midnight : ℕ) (s : State) where
  -- The status shows a user as over the limit exactly when `decide`, with no recent kick, says to
  -- kick that user for the limit.
  pub limit_reached_iff_kick :
      ((compute_status username uid cfg s midnight).state ≡ limit_reached)
      ↔ (decide cfg username (used s username) none now ≡ kick E.limit_reached)
  unfolding compute_status decide
  limit_reached_iff_kick = ground arith

  -- A user is shown as active exactly when configured, at the console at the last tick, and below
  -- the limit; as offline when configured, away and below the limit; and as not configured exactly
  -- when the configuration lacks the user.
  pub state-compute_status :
      let st = (compute_status username uid cfg s midnight).state in
      let below = Below (user_by_name cfg username) (used s username) in
      ((st ≡ active) ↔ (below × (is_active s username ≡ true)))
      × ((st ≡ offline) ↔ (below × (is_active s username ≡ false)))
      × ((st ≡ not_configured) ↔ (user_by_name cfg username ≡ none))
  unfolding compute_status
  state-compute_status =
      state_lem (user_by_name cfg username) (used s username) (is_active s username)

  -- For a configured user the remaining seconds are positive exactly when the limit is not reached,
  -- and then they and the used seconds make up the daily limit.
  pub remaining-compute_status :
      (u : UserConfig)
      → user_by_name cfg username ≡ some u
      → let status = compute_status username uid cfg s midnight in
        ((status.state ≡ limit_reached)
          × ((n : ℕ) × (status.remaining_seconds ≡ sub_ℕ 0 n)
              × (status.used_seconds ≡ status.daily_limit_seconds + n)))
        ⊎ ((status.state ≢ limit_reached)
            × ((n : ℕ) × (status.remaining_seconds ≡ pos (suc n))
                × (status.used_seconds + suc n ≡ status.daily_limit_seconds)))
  unfolding compute_status
  remaining-compute_status u known =
      rw known (elim (remaining_lem (limit_seconds u) (used s username)) [
        | inl (over, rest) ↦ inl (rw over, rest)
        | inr (under, rest) ↦ inr ((rw under (λ h. ground arith)), rest)
      ])
