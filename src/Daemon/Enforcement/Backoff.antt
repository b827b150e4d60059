-- ===== src/Daemon/Enforcement/Backoff.antt =====
-- The per-uid backoff of crates/daemon/src/enforcement.rs.
use konstantin.Common.{
  ℕ, String, ◌+◌, ◌-◌, ◌<◌, ◌≡◌, ◌≢◌, inl, inr, refl, sym, ap, ◌∙◌, Option, none, some, List, [],
  ◌∷◌, ◌++◌, arith, nat_beq_iff, lt→ltb, Bool-cases, ◌==◌, nat_eq, string_eq, Map, lookup,
  lookup-insert_ne,
}
use konstantin.Common.Outcome.{Result, ok, err}
use konstantin.Daemon.Config.{Config, Enforcement, log, logout}
use konstantin.Daemon.Enforcement.{
  Decision, no_op, kick, System, Enforcer, act_on, carry_out, enforce, after_logout, force_logout,
  visit_uid, visit, visit_all, step, decide, bootout_backoff,
}

module _ {W : Type 0} (sys : System W) (cfg : Config) (counters : Map String ℕ) (now : ℕ) where
  -- The uid was kicked at `t`, less than the backoff before `now`.
  abbrev RecentlyKicked : ℕ → ℕ → Enforcer → Type 0
  RecentlyKicked uid t e = (lookup uid e.last_kicked ≡ some t) × (now < t + bootout_backoff)

  decide_held :
      (username : String) (used uid t : ℕ) (e : Enforcer)
      → RecentlyKicked uid t e
      → decide cfg username used (lookup uid e.last_kicked) now ≡ no_op
  unfolding decide
  decide_held username used uid t e k = rw k.0 (rw (lt→ltb (now - t) bootout_backoff (omega arith)))

  visit_uid_held :
      (username : String) (uid t : ℕ) (e : Enforcer) (w : W)
      → RecentlyKicked uid t e
      → visit_uid sys cfg counters now username (some uid) e w ≡ (e, w)
  visit_uid_held username uid t e w k = rw (decide_held username _ uid t e k)

  visit_held :
      (username : String) (uid t : ℕ) (e : Enforcer) (w : W)
      → sys.resolve_uid username ≡ some uid
      → RecentlyKicked uid t e
      → visit sys cfg counters now username (e, w) ≡ (e, w)
  unfolding visit
  visit_held username uid t e w r k = rw r (visit_uid_held username uid t e w k)

  after_logout-lookup :
      (uid other : ℕ) (e : Enforcer) (r : Result (Unit {0}) × W)
      → other ≢ uid
      → lookup uid (after_logout sys other e r).0.last_kicked ≡ lookup uid e.last_kicked
  after_logout-lookup uid other e (ok _, w) h =
      lookup-insert_ne other uid (sys.now w) e.last_kicked h
  after_logout-lookup uid other e (err f, w) h = refl

  enforce-lookup :
      (mode : Enforcement) (username : String) (uid other : ℕ) (e : Enforcer) (w : W)
      → other ≢ uid
      → lookup uid (enforce sys mode username other e w).0.last_kicked ≡ lookup uid e.last_kicked
  enforce-lookup log username uid other e w h =
      lookup-insert_ne other uid (sys.now w) e.last_kicked h
  enforce-lookup logout username uid other e w h =
      after_logout-lookup uid other e (force_logout sys username other w) h

  carry_out-lookup :
      (d : Decision) (username : String) (uid other : ℕ) (e : Enforcer) (w : W)
      → other ≢ uid
      → lookup uid (carry_out sys cfg username other d e w).0.last_kicked ≡ lookup uid e.last_kicked
  unfolding act_on
  carry_out-lookup no_op username uid other e w h = refl
  carry_out-lookup (kick r) username uid other e w h =
      elim (Bool-cases (sys.path_exists w cfg.kill_switch_path)) [
        | inl t ↦ rw t
        | inr f ↦ rw f (enforce-lookup cfg.enforcement username uid other e w h)
      ]

  visit_uid-RecentlyKicked :
      (username : String) (o : Option ℕ) (uid t : ℕ) (e : Enforcer) (w : W)
      → RecentlyKicked uid t e
      → RecentlyKicked uid t (visit_uid sys cfg counters now username o e w).0
  visit_uid-RecentlyKicked username none uid t e w k = k
  visit_uid-RecentlyKicked username (some other) uid t e w k = elim (Bool-cases (other == uid)) [
    | inl same ↦
        let here : RecentlyKicked other t e = rw ((nat_beq_iff other uid).0 same) k in
        rw (visit_uid_held username other t e w here) k
    | inr differs ↦ (
      carry_out-lookup _ username uid other e w (λ p. cc ((nat_beq_iff other uid).1 p)) ∙ k.0,
      k.1,
    )
  ]

  -- Visiting any user leaves the stamp of a uid that was kicked a moment ago.
  visit-RecentlyKicked :
      (username : String) (uid t : ℕ) (s : Enforcer × W)
      → RecentlyKicked uid t s.0
      → RecentlyKicked uid t (visit sys cfg counters now username s).0
  unfolding visit
  visit-RecentlyKicked username uid t s k =
      visit_uid-RecentlyKicked username (sys.resolve_uid username) uid t s.0 s.1 k

  visit_all-append :
      (xs ys : List String) (s : Enforcer × W)
      → visit_all sys cfg counters now (xs ++ ys) s
        ≡ visit_all sys cfg counters now ys (visit_all sys cfg counters now xs s)
  unfolding visit_all
  visit_all-append [] ys s = refl
  visit_all-append (x ∷ xs) ys s = visit_all-append xs ys (visit sys cfg counters now x s)

  visit_all-RecentlyKicked :
      (xs : List String) (uid t : ℕ) (s : Enforcer × W)
      → RecentlyKicked uid t s.0
      → RecentlyKicked uid t (visit_all sys cfg counters now xs s).0
  unfolding visit_all
  visit_all-RecentlyKicked [] uid t s k = k
  visit_all-RecentlyKicked (x ∷ xs) uid t s k =
      visit_all-RecentlyKicked xs uid t _ (visit-RecentlyKicked x uid t s k)

module _ {W : Type 0} (sys : System W) (cfg : Config) (counters : Map String ℕ) where
  -- A user whose uid was stamped less than ten seconds before the pass begins makes no difference
  -- to it, wherever the user stands among the others: the pass without that user ends in the same
  -- enforcer and the same system.
  pub step_skips_recent :
      (before after : List String) (username : String) (uid t : ℕ) (e : Enforcer) (w : W)
      → sys.resolve_uid username ≡ some uid
      → lookup uid e.last_kicked ≡ some t
      → sys.now w < t + 10_000
      → step sys cfg (before ++ username ∷ after) counters e w
        ≡ step sys cfg (before ++ after) counters e w
  unfolding step visit_all
  step_skips_recent before after username uid t e w r k h =
      let now = sys.now w in
      let s = visit_all sys cfg counters now before (e, w) in
      let held = visit_all-RecentlyKicked sys cfg counters now before uid t (e, w) (k, h) in
      visit_all-append sys cfg counters now before (username ∷ after) (e, w)
      ∙ ap (visit_all sys cfg counters now after)
          (visit_held sys cfg counters now username uid t s.0 s.1 r held)
      ∙ sym (visit_all-append sys cfg counters now before after (e, w))
