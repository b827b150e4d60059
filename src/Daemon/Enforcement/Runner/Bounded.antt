-- ===== src/Daemon/Enforcement/Runner/Bounded.antt =====
-- How long a pass of the enforcer can take: crates/daemon/src/enforcement.rs.
use konstantin.Common.{
  ℕ, String, ◌+◌, ◌*◌, ◌≤◌, ◌≡◌, inl, inr, refl, Bool, true, false, Option, none, some, List, [],
  ◌∷◌, arith, leb, Bool-cases, nat_eq, string_eq, length, Map, contains,
}
use konstantin.Common.Outcome.{Result, ok, err}
use konstantin.Common.Action.{continue}
use konstantin.Daemon.Config.{Config, log, logout, Enforcement}
use konstantin.Daemon.Enforcement.{
  System, Enforcer, Decision, no_op, kick, bootouts, confirm, escalate, force_logout, gui_domain,
  user_domain, kill_args, after_logout, enforce, act_on, carry_out, visit_uid, visit, visit_all,
  step, settle_after_bootout,
}
use konstantin.Daemon.Enforcement.Runner.{
  Child, unspawned, ends_after, hangs, Host, awaited, run, real_runner, bootout_timeout,
}

-- What the clock does: it goes on with the time that passes, and stands still for the rest.
pub record ClockLaws {W : Type 0} (host : Host W) : Type 0 where
  pub now-pass_time : (n : ℕ) (w : W) → host.now (host.pass_time n w) ≡ host.now w + n
  pub now-spawn :
      (program : String) (args : List String) (w : W)
      → host.now (host.spawn program args w).1 ≡ host.now w
  pub now-console_users : (w : W) → host.now (host.console_users w).1 ≡ host.now w

module _ {W : Type 0} (host : Host W) (laws : ClockLaws host) where
  abbrev sys : System W
  sys = real_runner host

  now-awaited : (q : Child × W) → host.now (awaited host q).1 ≤ host.now q.1 + bootout_timeout
  now-awaited (unspawned e, w) = omega arith
  now-awaited (ends_after time success, w) = elim (Bool-cases (leb time bootout_timeout)) [
    | inl soon ↦ rw soon (ground (arith, laws.now-pass_time time w, soon))
    | inr late ↦ rw late (omega (arith, laws.now-pass_time bootout_timeout w))
  ]
  now-awaited (hangs, w) = omega (arith, laws.now-pass_time bootout_timeout w)

  now-run :
      (program : String) (args : List String) (w : W)
      → host.now (sys.run program args w).1 ≤ host.now w + bootout_timeout
  unfolding run real_runner
  now-run program args w =
      omega (arith, now-awaited (host.spawn program args w), laws.now-spawn program args w)

  now-confirm :
      (username : String) (uid : ℕ) (matched : Bool) (w : W)
      → host.now (confirm sys username uid matched w).1 ≡ host.now w
  unfolding confirm real_runner
  now-confirm username uid true w = refl
  now-confirm username uid false w = laws.now-console_users w

  now-confirmed :
      (username : String) (uid : ℕ) (q : Result Bool × W)
      → host.now (continue q.0 (confirm sys username uid) q.1).1 ≡ host.now q.1
  now-confirmed username uid (ok matched, w) = now-confirm username uid matched w
  now-confirmed username uid (err e, w) = refl

  now-escalate :
      (username : String) (uid : ℕ) (w : W)
      → host.now (escalate sys username uid w).1 ≤ host.now w + bootout_timeout
  unfolding escalate real_runner
  now-escalate username uid w = omega (
    arith,
    now-confirmed username uid (sys.run "/usr/bin/pkill" (kill_args uid) w),
    now-run "/usr/bin/pkill" (kill_args uid) w,
  )

  now-bootouts : (uid : ℕ) (w : W) → host.now (bootouts sys uid w) ≤ host.now w + 11_000
  unfolding bootouts real_runner
  now-bootouts uid w =
      let gui = (sys.run "/bin/launchctl" (gui_domain uid) w).1 in
      let user = (sys.run "/bin/launchctl" (user_domain uid) gui).1 in
      omega (
        arith,
        now-run "/bin/launchctl" (gui_domain uid) w,
        now-run "/bin/launchctl" (user_domain uid) gui,
        laws.now-pass_time settle_after_bootout user,
      )

  now-force_logout :
      (username : String) (uid : ℕ) (w : W)
      → host.now (force_logout sys username uid w).1 ≤ host.now w + 16_000
  unfolding force_logout real_runner
  now-force_logout username uid w =
      let (listed, w') = host.console_users (bootouts sys uid w) in
      let before = now-bootouts uid w in
      let same = laws.now-console_users (bootouts sys uid w) in
      elim (Bool-cases (contains listed username)) [
        | inl there ↦ rw there (omega (arith, before, same, now-escalate username uid w'))
        | inr gone ↦ rw gone (omega (arith, before, same))
      ]

  now-after_logout :
      (uid : ℕ) (e : Enforcer) (q : Result (Unit {0}) × W)
      → host.now (after_logout sys uid e q).1 ≡ host.now q.1
  now-after_logout uid e (ok _, w) = refl
  now-after_logout uid e (err f, w) = refl

  now-enforce :
      (mode : Enforcement) (username : String) (uid : ℕ) (e : Enforcer) (w : W)
      → host.now (enforce sys mode username uid e w).1 ≤ host.now w + 16_000
  now-enforce log username uid e w = omega arith
  now-enforce logout username uid e w = omega (
    arith,
    now-after_logout uid e (force_logout sys username uid w),
    now-force_logout username uid w,
  )

  now-carry_out :
      (cfg : Config) (username : String) (uid : ℕ) (d : Decision) (e : Enforcer) (w : W)
      → host.now (carry_out sys cfg username uid d e w).1 ≤ host.now w + 16_000
  unfolding act_on real_runner
  now-carry_out cfg username uid no_op e w = omega arith
  now-carry_out cfg username uid (kick reason) e w =
      elim (Bool-cases (host.path_exists w cfg.kill_switch_path)) [
        | inl off ↦ rw off (omega arith)
        | inr on ↦ rw on (now-enforce cfg.enforcement username uid e w)
      ]

  now-visit_uid :
      (cfg : Config) (counters : Map String ℕ) (now : ℕ) (username : String) (o : Option ℕ)
      (e : Enforcer) (w : W)
      → host.now (visit_uid sys cfg counters now username o e w).1 ≤ host.now w + 16_000
  now-visit_uid cfg counters now username none e w = omega arith
  now-visit_uid cfg counters now username (some uid) e w = now-carry_out cfg username uid _ e w

  now-visit_all :
      (cfg : Config) (counters : Map String ℕ) (now : ℕ) (active : List String) (s : Enforcer × W)
      → host.now (visit_all sys cfg counters now active s).1 ≤ host.now s.1 + 16_000 * length active
  unfolding visit_all visit real_runner
  now-visit_all cfg counters now [] s = omega arith
  now-visit_all cfg counters now (username ∷ rest) s = omega (
    arith,
    now-visit_all cfg counters now rest (visit sys cfg counters now username s),
    now-visit_uid cfg counters now username (sys.resolve_uid username) s.0 s.1,
  )

  -- However the commands behave, also if all of them hang, a pass of the enforcer is over after at
  -- most 16 seconds for each user it goes over.
  pub step-bounded :
      (cfg : Config) (active : List String) (counters : Map String ℕ) (e : Enforcer) (w : W)
      → host.now (step sys cfg active counters e w).1 ≤ host.now w + 16_000 * length active
  unfolding step real_runner
  step-bounded cfg active counters e w = now-visit_all cfg counters (host.now w) active (e, w)
