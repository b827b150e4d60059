-- ===== src/Daemon/Service/Rounds.antt =====
-- A whole round of the ticker in crates/daemon/src/main.rs: from the console to the logout.
use konstantin.Common.{
  ℕ, String, ◌+◌, ◌%◌, ◌≡◌, ◌≢◌, inl, inr, refl, ap, ◌∙◌, Bool, true, false, Option, some, [], ◌∷◌,
  leb, if◌then◌else◌, Bool-cases, nat_eq, string_eq, unwrap_or, u32_mod, Map, lookup, contains,
  beq_refl, beq_ne,
}
use konstantin.Common.Outcome.{Result, ok, err}
use konstantin.Common.Files.{Files, Paths}
use konstantin.Daemon.Config.{Config, UserConfig, logout, user_by_name}
use konstantin.Daemon.Sessions.{console_users}
use konstantin.Daemon.State.{State, StateCodec, used}
use konstantin.Daemon.Enforcement.{
  System, Enforcer, no_op, kick, limit_reached, held_off, limit_seconds, decide, act_on,
  after_logout, carry_out, visit, visit_all, visit_uid, step, force_logout,
}
use konstantin.Daemon.Enforcement.Deciding.{HeldOff, IsUsedUp, free_iff, IsUsedUp-iff}
use konstantin.Daemon.Service.{Shared, Ticker, ticker_section, ticker_round}
use konstantin.Daemon.Service.Accounting.{carried, used-ticker}

pub console_users-some :
    (user : String) → user ≢ "" → user ≢ "loginwindow" → console_users (some user) ≡ user ∷ []
unfolding console_users
console_users-some user h k = rw (beq_ne user "" h, beq_ne user "loginwindow" k)

pub contains-one : (user : String) → contains (user ∷ []) user ≡ true
unfolding contains
contains-one user = rw (beq_refl user)

module _ {W : Type 0} (sys : System W) (cfg : Config) where
  step_one :
      (user : String) (counters : Map String ℕ) (e : Enforcer) (w : W)
      → step sys cfg (user ∷ []) counters e w
        ≡ visit_uid sys cfg counters (sys.now w) user (sys.resolve_uid user) e w
  unfolding step visit_all visit
  step_one user counters e w = refl

  decide_configured :
      (user : String) (used : ℕ) (u : UserConfig) (last : Option ℕ) (now : ℕ)
      → user_by_name cfg user ≡ some u
      → held_off last now ≡ false
      → decide cfg user used last now
        ≡ (if leb (limit_seconds u) used then kick limit_reached else no_op)
  unfolding decide
  decide_configured user used u last now known free = rw (free, known)

  kick_configured :
      (user : String) (uid : ℕ) (d : Bool) (e : Enforcer) (w : W)
      → cfg.enforcement ≡ logout
      → sys.path_exists w cfg.kill_switch_path ≡ false
      → carry_out sys cfg user uid (if d then kick limit_reached else no_op) e w
        ≡ (if d then after_logout sys uid e (force_logout sys user uid w) else (e, w))
  unfolding act_on
  kick_configured user uid true e w mode off = rw (off, mode)
  kick_configured user uid false e w mode off = refl

  -- A pass over the one user at the console, in logout mode, with no kill switch and no recent kick.
  step_configured :
      (user : String) (uid : ℕ) (u : UserConfig) (counters : Map String ℕ) (e : Enforcer) (w : W)
      → cfg.enforcement ≡ logout
      → user_by_name cfg user ≡ some u
      → sys.resolve_uid user ≡ some uid
      → held_off (lookup uid e.last_kicked) (sys.now w) ≡ false
      → sys.path_exists w cfg.kill_switch_path ≡ false
      → step sys cfg (user ∷ []) counters e w ≡ (
          if leb (limit_seconds u) (unwrap_or 0 (lookup user counters))
          then after_logout sys uid e (force_logout sys user uid w)
          else (e, w))
  step_configured user uid u counters e w mode known r free off =
      step_one user counters e w
      ∙ rw
          (
            r,
            decide_configured user (unwrap_or 0 (lookup user counters)) u (lookup uid e.last_kicked)
                (sys.now w) known free,
          )
          (kick_configured user uid _ e w mode off)

  world-after_logout :
      (uid : ℕ) (e : Enforcer) (r : Result (Unit {0}) × W) → (after_logout sys uid e r).1 ≡ r.1
  world-after_logout uid e (ok _, w) = refl
  world-after_logout uid e (err f, w) = refl

  total-ticker :
      (user : String) (today : ℕ) (s : State)
      → user ≢ ""
      → user ≢ "loginwindow"
      → unwrap_or 0 (lookup user (ticker_section cfg (some user) today s).counters)
        ≡ (carried s user today + cfg.tick_seconds) % u32_mod
  unfolding used
  total-ticker user today s h k =
      used-ticker cfg (some user) today s user ∙ rw (console_users-some user h k, contains-one user)

  module _ {Fs : Type 0} (files : Files Fs) (paths : Paths) (codec : StateCodec) where
    -- A tick that finds a configured user at the console, with enforcement in logout mode, no
    -- kill-switch file, and no kick of the uid less than the backoff ago, forces that user's logout
    -- if the seconds of the day with this tick use up the limit, and otherwise leaves the system and
    -- the stamps as they were.
    pub ticker_round_enforces :
        (user : String) (uid today : ℕ) (u : UserConfig) (sh : Shared Fs) (t : Ticker W)
        → user ≢ ""
        → user ≢ "loginwindow"
        → cfg.enforcement ≡ logout
        → user_by_name cfg user ≡ some u
        → sys.resolve_uid user ≡ some uid
        → ¬ HeldOff (lookup uid t.enforcer.last_kicked) (sys.now t.world)
        → sys.path_exists t.world cfg.kill_switch_path ≡ false
        → let total = (carried sh.state user today + cfg.tick_seconds) % u32_mod in
          let after = ticker_round files paths codec cfg sys (some user) today (sh, t) in
          (IsUsedUp u total → after.1.world ≡ (force_logout sys user uid t.world).1)
          × ((¬ IsUsedUp u total) → (after.1.world ≡ t.world) × (after.1.enforcer ≡ t.enforcer))
    unfolding ticker_round
    ticker_round_enforces user uid today u sh t h k mode known r free off = (
      (λ over.
          ap (λ p. p.1) (taken true ((IsUsedUp-iff u total).1 over))
          ∙ world-after_logout uid t.enforcer (force_logout sys user uid t.world)),
      λ spared. elim (Bool-cases (leb (limit_seconds u) total)) [
        | inl over ↦ absurd (spared ((IsUsedUp-iff u total).0 over))
        | inr under ↦ (ap (λ p. p.1) (taken false under), ap (λ p. p.0) (taken false under))
      ],
    )
      where
        total : ℕ
        total = (carried sh.state user today + cfg.tick_seconds) % u32_mod

        passed :
            step sys cfg
              (console_users (some user))
              (ticker_section cfg (some user) today sh.state).counters
              t.enforcer
              t.world
            ≡ (if leb (limit_seconds u) total
                then after_logout sys uid t.enforcer (force_logout sys user uid t.world)
                else (t.enforcer, t.world))
        passed = rw (console_users-some user h k) (
            step_configured user uid u _ t.enforcer t.world mode known r
              ((free_iff (lookup uid t.enforcer.last_kicked) (sys.now t.world)).1 free) off
            ∙ ap
                (λ (n : ℕ).
                  if leb (limit_seconds u) n
                  then after_logout sys uid t.enforcer (force_logout sys user uid t.world)
                  else (t.enforcer, t.world))
                (total-ticker user today sh.state h k))

        taken :
            (b : Bool)
            → leb (limit_seconds u) total ≡ b
            → step sys cfg
                (console_users (some user))
                (ticker_section cfg (some user) today sh.state).counters
                t.enforcer
                t.world
              ≡ (if b
                  then after_logout sys uid t.enforcer (force_logout sys user uid t.world)
                  else (t.enforcer, t.world))
        taken b e =
            passed
            ∙ ap
                (λ (c : Bool).
                  if c
                  then after_logout sys uid t.enforcer (force_logout sys user uid t.world)
                  else (t.enforcer, t.world))
                e
