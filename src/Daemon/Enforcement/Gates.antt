-- ===== src/Daemon/Enforcement/Gates.antt =====
-- The kill switch and the log mode of crates/daemon/src/enforcement.rs.
use konstantin.Common.{
  ℕ, String, ◌≡◌, inl, inr, refl, ◌∙◌, true, Option, none, some, List, [], ◌∷◌, Bool-cases, nat_eq,
  string_eq, Map,
}
use konstantin.Daemon.Config.{Config, log}
use konstantin.Daemon.Enforcement.{
  Decision, no_op, kick, System, Enforcer, act_on, carry_out, visit_uid, visit, visit_all, step,
}

module _ {W : Type 0} (sys : System W) (cfg : Config) (counters : Map String ℕ) where
  module _ (now : ℕ) where
    carry_out_switched :
        (username : String) (uid : ℕ) (d : Decision) (e : Enforcer) (w : W)
        → sys.path_exists w cfg.kill_switch_path ≡ true
        → carry_out sys cfg username uid d e w ≡ (e, w)
    unfolding act_on
    carry_out_switched username uid no_op e w h = refl
    carry_out_switched username uid (kick r) e w h = rw h

    visit_uid_switched :
        (username : String) (uid : Option ℕ) (e : Enforcer) (w : W)
        → sys.path_exists w cfg.kill_switch_path ≡ true
        → visit_uid sys cfg counters now username uid e w ≡ (e, w)
    visit_uid_switched username none e w h = refl
    visit_uid_switched username (some uid) e w h = carry_out_switched username uid _ e w h

    visit_all_switched :
        (active : List String) (e : Enforcer) (w : W)
        → sys.path_exists w cfg.kill_switch_path ≡ true
        → visit_all sys cfg counters now active (e, w) ≡ (e, w)
    unfolding visit_all visit
    visit_all_switched [] e w h = refl
    visit_all_switched (name ∷ rest) e w h =
        rw (visit_uid_switched name (sys.resolve_uid name) e w h) (visit_all_switched rest e w h)

    carry_out_logged :
        (username : String) (uid : ℕ) (d : Decision) (e : Enforcer) (w : W)
        → cfg.enforcement ≡ log
        → (carry_out sys cfg username uid d e w).1 ≡ w
    unfolding act_on
    carry_out_logged username uid no_op e w h = refl
    carry_out_logged username uid (kick r) e w h =
        elim (Bool-cases (sys.path_exists w cfg.kill_switch_path)) [
          | inl t ↦ rw t
          | inr f ↦ rw (f, h)
        ]

    visit_uid_logged :
        (username : String) (uid : Option ℕ) (e : Enforcer) (w : W)
        → cfg.enforcement ≡ log
        → (visit_uid sys cfg counters now username uid e w).1 ≡ w
    visit_uid_logged username none e w h = refl
    visit_uid_logged username (some uid) e w h = carry_out_logged username uid _ e w h

    visit_all_logged :
        (active : List String) (s : Enforcer × W)
        → cfg.enforcement ≡ log
        → (visit_all sys cfg counters now active s).1 ≡ s.1
    unfolding visit_all visit
    visit_all_logged [] s h = refl
    visit_all_logged (name ∷ rest) s h =
        visit_all_logged rest _ h ∙ visit_uid_logged name (sys.resolve_uid name) s.0 s.1 h

  -- While the kill-switch file is there, an enforcement pass over any users runs no command and
  -- stamps nobody, whatever the mode.
  pub step_switched :
      (active : List String) (e : Enforcer) (w : W)
      → sys.path_exists w cfg.kill_switch_path ≡ true
      → step sys cfg active counters e w ≡ (e, w)
  unfolding step
  step_switched active e w h = visit_all_switched (sys.now w) active e w h

  -- In log mode an enforcement pass over any users leaves the system as it was: no command is run,
  -- whoever is over the limit.
  pub step_logged :
      (active : List String) (e : Enforcer) (w : W)
      → cfg.enforcement ≡ log
      → (step sys cfg active counters e w).1 ≡ w
  unfolding step
  step_logged active e w h = visit_all_logged (sys.now w) active (e, w) h
