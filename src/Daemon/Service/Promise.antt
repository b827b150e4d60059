-- ===== src/Daemon/Service/Promise.antt =====
-- What the ticker promises over many rounds: crates/daemon/src/main.rs.
use konstantin.Common.{
  ℕ, suc, String, ◌+◌, ◌*◌, ◌%◌, ◌≤◌, ◌<◌, ◌≡◌, ◌≢◌, ◌⊎◌, inl, inr, refl, sym, ap, ◌∙◌, ◌++◌, false,
  Option, none, some, List, [], ◌∷◌, arith, leb, Bool-cases, nat_eq, string_eq, length, u32_mod,
  lookup,
}
use konstantin.Common.Files.{Files, Paths}
use mathlib.Core.Path.{subst}
use native.Mathlib.Nat.{suc-mul}
use konstantin.Daemon.Config.{Config, UserConfig, logout, user_by_name}
use konstantin.Daemon.State.{StateCodec}
use konstantin.Daemon.Enforcement.{System, limit_seconds, force_logout}
use konstantin.Daemon.Enforcement.Deciding.{HeldOff, IsUsedUp-iff}
use konstantin.Daemon.Service.{
  Shared, Ticker, ticker_section, ticker_round, midnight_round, Wake, midnight_rounds, wake_up,
  run_ticker, ticked,
}
use konstantin.Daemon.Service.Accounting.{carried, carried-midnight, carried-ticker, seconds}
use konstantin.Daemon.Service.Rounds.{ticker_round_enforces, console_users-some, contains-one}

abbrev AllOn : ℕ → List ℕ → Type 0
AllOn day [] = Unit {0}
AllOn day (d ∷ rest) = (d ≡ day) × AllOn day rest

suc_mul : (n t : ℕ) → suc n * t ≡ t + n * t
suc_mul n t = omega (arith, suc-mul n t)

module _ {W : Type 0} (sys : System W) (cfg : Config) where
  -- Every round, and every alarm, is of one day, and every round finds the user at the console of a
  -- system without the kill-switch file, as long as the daemon does nothing to the system.
  abbrev pub AtConsole : String → ℕ → List (Wake W) → W → Type 0
  AtConsole user day [] w = Unit {0}
  AtConsole user day (k ∷ rest) w =
      (k.name ≡ some user)
      × (k.today ≡ day)
      × AllOn day k.alarms
      × (sys.path_exists (k.elapse w) cfg.kill_switch_path ≡ false)
      × AtConsole user day rest (k.elapse w)

-- What becomes of the system by itself.
abbrev pub left_alone : {W : Type 0} → List (Wake W) → W → W
left_alone [] w = w
left_alone (k ∷ rest) w = left_alone rest (k.elapse w)

module _ {Fs W : Type 0} (files : Files Fs) (paths : Paths) (codec : StateCodec) (cfg : Config)
    (sys : System W) where
  carried-midnight_rounds :
      (user : String) (day : ℕ) (alarms : List ℕ) (sh : Shared Fs)
      → AllOn day alarms
      → carried (midnight_rounds files paths codec cfg sys alarms sh).state user day
        ≡ carried sh.state user day
  unfolding midnight_rounds midnight_round
  carried-midnight_rounds user day [] sh h = refl
  carried-midnight_rounds user day (d ∷ rest) sh h =
      carried-midnight_rounds user day rest _ h.1
      ∙ carried-midnight d day sh.state user
      ∙ ground (arith, h.0)

  state-ticker_round :
      (name : Option String) (today : ℕ) (sh : Shared Fs) (t : Ticker W)
      → (ticker_round files paths codec cfg sys name today (sh, t)).0.state
        ≡ ticker_section cfg name today sh.state
  unfolding ticker_round
  state-ticker_round name today sh t = refl

  -- Some round finds the limit reached, by less than a tick, and forces the logout; the rounds before
  -- it find the limit not reached and leave the system alone.
  abbrev ForcedOnce : String → ℕ → UserConfig → ℕ → List (Wake W) → Shared Fs × Ticker W → Type 0
  ForcedOnce user uid u day [] s = ⊥
  ForcedOnce user uid u day (k ∷ rest) (sh, t) =
      let after = wake_up files paths codec cfg sys k (sh, t) in
      let total = carried after.0.state user day in
      ((limit_seconds u ≤ total)
        × (total < limit_seconds u + cfg.tick_seconds)
        × (after.1.world ≡ (force_logout sys user uid (k.elapse t.world)).1))
      ⊎ ((total < limit_seconds u)
          × (after.1.world ≡ k.elapse t.world)
          × ForcedOnce user uid u day rest after)

  -- The rounds split at one of them: the ticker comes to it below the limit and with the system as it
  -- is by itself, and it forces the logout with the limit reached by less than a tick.
  abbrev pub Forces : String → ℕ → UserConfig → ℕ → List (Wake W) → Shared Fs × Ticker W → Type 0
  unfolding run_ticker
  Forces user uid u day wakes s =
      (before after : List (Wake W)) × (k : Wake W) × (wakes ≡ before ++ k ∷ after)
      × let reached = run_ticker files paths codec cfg sys before s in
        let forced = wake_up files paths codec cfg sys k reached in
        let total = carried forced.0.state user day in
        (carried reached.0.state user day < limit_seconds u)
        × (reached.1.world ≡ left_alone before s.1.world)
        × (limit_seconds u ≤ total)
        × (total < limit_seconds u + cfg.tick_seconds)
        × (forced.1.world ≡ (force_logout sys user uid (k.elapse reached.1.world)).1)

  first_forced :
      (user : String) (uid : ℕ) (u : UserConfig) (day : ℕ) (wakes : List (Wake W)) (sh : Shared Fs)
      (t : Ticker W)
      → carried sh.state user day < limit_seconds u
      → ForcedOnce user uid u day wakes (sh, t)
      → Forces user uid u day wakes (sh, t)
  unfolding run_ticker
  first_forced user uid u day [] sh t below h = absurd h
  first_forced user uid u day (k ∷ rest) sh t below (inl (reached, less, forced)) =
      ([], rest, k, refl, (below, refl, reached, less, forced))
  first_forced user uid u day (k ∷ rest) sh t below (inr (spared, calm, later)) =
      let next = wake_up files paths codec cfg sys k (sh, t) in
      let (before, after, last, split, (under, alone, enough, less, forced)) =
        first_forced user uid u day rest next.0 next.1 spared later in
      (
        k ∷ before,
        after,
        last,
        ap (λ ks. k ∷ ks) split,
        (under, alone ∙ ap (left_alone before) calm, enough, less, forced),
      )

  module _ (user : String) (uid day : ℕ) (u : UserConfig) (named : user ≢ "")
      (inside : user ≢ "loginwindow") (mode : cfg.enforcement ≡ logout)
      (known : user_by_name cfg user ≡ some u) (resolved : sys.resolve_uid user ≡ some uid) where
    total-wake_up :
        (k : Wake W) (sh : Shared Fs) (t : Ticker W)
        → k.name ≡ some user
        → k.today ≡ day
        → AllOn day k.alarms
        → carried sh.state user day + cfg.tick_seconds < u32_mod
        → carried (wake_up files paths codec cfg sys k (sh, t)).0.state user day
          ≡ carried sh.state user day + cfg.tick_seconds
    unfolding wake_up
    total-wake_up k sh t at_console of_day on fits =
        let sh' : Shared Fs = midnight_rounds files paths codec cfg sys k.alarms sh in
        let same : carried sh'.state user day ≡ carried sh.state user day =
          carried-midnight_rounds user day k.alarms sh on in
        let counted : seconds cfg user (ticked (some user) day) ≡ cfg.tick_seconds =
          rw (console_users-some user named inside, contains-one user) in
        rw (at_console, of_day)
          (carried-ticker cfg (some user) day day sh'.state user (omega (arith, same, fits))
            ∙ ground (arith, same, counted, fits))

    wake_up_enforces :
        (k : Wake W) (sh : Shared Fs) (t : Ticker W)
        → k.name ≡ some user
        → k.today ≡ day
        → AllOn day k.alarms
        → sys.path_exists (k.elapse t.world) cfg.kill_switch_path ≡ false
        → lookup uid t.enforcer.last_kicked ≡ none
        → carried sh.state user day + cfg.tick_seconds < u32_mod
        → let after = wake_up files paths codec cfg sys k (sh, t) in
          let total = carried sh.state user day + cfg.tick_seconds in
          (limit_seconds u ≤ total
            → after.1.world ≡ (force_logout sys user uid (k.elapse t.world)).1)
          × (total < limit_seconds u
              → (after.1.world ≡ k.elapse t.world) × (after.1.enforcer ≡ t.enforcer))
    unfolding wake_up
    wake_up_enforces k sh t at_console of_day on off free fits =
        let sh' : Shared Fs = midnight_rounds files paths codec cfg sys k.alarms sh in
        let same : carried sh'.state user day ≡ carried sh.state user day =
          carried-midnight_rounds user day k.alarms sh on in
        let enforced =
          ticker_round_enforces sys cfg files paths codec user uid day u sh'
            (record t { world = k.elapse t.world }) named inside mode known resolved
            (λ held. subst (λ o. HeldOff o (sys.now (k.elapse t.world))) free held) off in
        let over = IsUsedUp-iff u ((carried sh'.state user day + cfg.tick_seconds) % u32_mod) in
        rw (at_console, of_day)
          (
            (λ reached. enforced.0 (over.0 (ground (arith, same, reached, fits)))),
            λ spared. enforced.1 (λ up. ground (arith, over.1 up, same, spared, fits)),
          )

    forced_once :
        (wakes : List (Wake W)) (sh : Shared Fs) (t : Ticker W)
        → AtConsole sys cfg user day wakes t.world
        → lookup uid t.enforcer.last_kicked ≡ none
        → carried sh.state user day < limit_seconds u
        → limit_seconds u ≤ carried sh.state user day + length wakes * cfg.tick_seconds
        → carried sh.state user day + length wakes * cfg.tick_seconds < u32_mod
        → ForcedOnce user uid u day wakes (sh, t)
    forced_once [] sh t there free below enough fits = absurd (omega (arith, below, enough))
    forced_once (k ∷ rest) sh t there free below enough fits =
        let after = wake_up files paths codec cfg sys k (sh, t) in
        let tick_fits : carried sh.state user day + cfg.tick_seconds < u32_mod =
          omega (arith, suc_mul (length rest) cfg.tick_seconds, fits) in
        let counted = total-wake_up k sh t there.0 there.1 there.2 tick_fits in
        let enforced = wake_up_enforces k sh t there.0 there.1 there.2 there.3 free tick_fits in
        elim (Bool-cases (leb (limit_seconds u) (carried sh.state user day + cfg.tick_seconds))) [
          | inl reached ↦ inl (
            ground (arith, counted, reached),
            ground (arith, counted, below),
            enforced.0 (ground (arith, reached)),
          )
          | inr spared ↦
              let calm = enforced.1 (ground (arith, spared)) in
              inr (
                ground (arith, counted, spared),
                calm.0,
                forced_once rest after.0 after.1
                    (subst (AtConsole sys cfg user day rest) (sym calm.0) there.4) (rw calm.1 free)
                    (ground (arith, counted, spared))
                    (omega (arith, counted, enough, suc_mul (length rest) cfg.tick_seconds))
                    (omega (arith, counted, fits, suc_mul (length rest) cfg.tick_seconds)),
              )
        ]

    -- In logout mode, let a configured user with a real user's name and a uid that resolves be at the
    -- console in every round of one day, in a system that has no kill-switch file as long as the
    -- daemon leaves it alone, with no stamp for the uid. If the seconds of the day start below the
    -- limit, and reach it with all the rounds without passing 2 ^ 32, then the ticker comes to a
    -- round that forces the logout, less than a tick past the limit; up to that round the seconds are
    -- below the limit and the daemon has done nothing to the system.
    pub run_ticker-Forces :
        (wakes : List (Wake W)) (sh : Shared Fs) (t : Ticker W)
        → AtConsole sys cfg user day wakes t.world
        → lookup uid t.enforcer.last_kicked ≡ none
        → carried sh.state user day < limit_seconds u
        → limit_seconds u ≤ carried sh.state user day + length wakes * cfg.tick_seconds
        → carried sh.state user day + length wakes * cfg.tick_seconds < u32_mod
        → Forces user uid u day wakes (sh, t)
    run_ticker-Forces wakes sh t there free below enough fits =
        first_forced user uid u day wakes sh t below
          (forced_once wakes sh t there free below enough fits)
