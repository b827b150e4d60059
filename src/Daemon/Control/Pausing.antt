-- ===== src/Daemon/Control/Pausing.antt =====
-- The kill switch from the outside: SetEnforcementPaused of crates/daemon/src/control/mod.rs.
use konstantin.Common.{ℕ, String, ◌≡◌, refl, ◌∙◌, Bool, true, false, arith, nat_eq, string_eq}
use konstantin.Common.Outcome.{not_found, other_kind, io, decoding, bail, Result, ok, err}
use konstantin.Common.Action.{pure, lift, reads, continue, >>=-cases, >>-cases, outcome_cases}
use konstantin.Common.Files.{Files, FileLaws, Paths}
use konstantin.Daemon.Config.{Config}
use konstantin.Proto.Admin.{set_enforcement_paused, AdminResponse, enforcement_state}
use konstantin.Daemon.Control.{
  World, Controller, handle_authorized, handle, respond, load, tmp_name, unless_missing,
  replace_file, marker_parent, write_marker_atomic, remove_file_if_exists,
  validate_kill_switch_path, set_paused,
}
use konstantin.Daemon.Control.Auth.{Operator}

module _ {Fs : Type 0} {files : Files Fs} (laws : FileLaws files) (paths : Paths)
    (pid : String) where
  abbrev pub Stands : String → Bool → Result (Unit {0}) × Fs → Type 0
  Stands path b (ok _, fs) = files.path_exists fs path ≡ b
  Stands path b (err e, fs) = Unit {0}

  replace_file-Stands :
      (ext path text : String) (fs : Fs)
      → Stands path true (replace_file files paths pid ext path text fs)
  unfolding replace_file
  replace_file-Stands ext path text fs =
      let P = Stands path true in
      let tmp = tmp_name files paths pid ext path in
      >>-cases P (files.write tmp text) _ fs
        (λ _.
          >>-cases P (files.set_mode tmp 0o600) _ _
            (λ _.
              >>-cases P (files.rename tmp path) _ _
                (λ moved.
                  outcome_cases P (files.set_mode path 0o600 _)
                    (λ _ _.
                      laws.path_exists-set_mode path path 0o600 _
                      ∙ laws.path_exists-rename tmp path _ moved)
                    (λ _ _. tt))
                (λ _ _. tt))
            (λ _ _. tt))
        (λ _ _. tt)

  write_marker_atomic-Stands :
      (path : String) (fs : Fs) → Stands path true (write_marker_atomic files paths pid path fs)
  unfolding write_marker_atomic
  write_marker_atomic-Stands path fs =
      >>-cases (Stands path true) (marker_parent files paths pid (paths.parent path)) _ fs
        (λ _. replace_file-Stands "marker" path _ _) (λ _ _. tt)

  removed :
      (path : String) (fs : Fs) (r : Result (Unit {0}))
      → (files.remove_file path fs).0 ≡ r
      → Stands path false (unless_missing r, (files.remove_file path fs).1)
  removed path fs (ok _) e = laws.path_exists-remove_file path fs e
  removed path fs (err (io not_found)) e = laws.remove_file_missing path fs e
  removed path fs (err (io other_kind)) e = tt
  removed path fs (err decoding) e = tt
  removed path fs (err (bail m)) e = tt

  remove_file_if_exists-Stands :
      (path : String) (fs : Fs) → Stands path false (remove_file_if_exists files path fs)
  unfolding remove_file_if_exists
  remove_file_if_exists-Stands path fs = removed path fs (files.remove_file path fs).0 refl

  valid_path : (path got : String) → validate_kill_switch_path paths path ≡ ok got → got ≡ path
  unfolding validate_kill_switch_path
  valid_path path got h = ground arith

  -- Pausing that succeeds leaves the kill-switch file of the configuration in place, and unpausing
  -- that succeeds leaves none there.
  pub set_paused-Stands :
      (cfg : Config) (paused : Bool) (fs : Fs)
      → Stands cfg.kill_switch_path paused (set_paused files paths pid cfg paused fs)
  unfolding set_paused
  set_paused-Stands cfg true fs =
      >>=-cases (Stands cfg.kill_switch_path true)
        (lift (validate_kill_switch_path paths cfg.kill_switch_path)) _ fs
        (λ got e.
          rw (valid_path cfg.kill_switch_path got e)
            (write_marker_atomic-Stands cfg.kill_switch_path fs))
        (λ _ _. tt)
  set_paused-Stands cfg false fs =
      >>=-cases (Stands cfg.kill_switch_path false)
        (lift (validate_kill_switch_path paths cfg.kill_switch_path)) _ fs
        (λ got e.
          rw (valid_path cfg.kill_switch_path got e)
            (remove_file_if_exists-Stands cfg.kill_switch_path fs))
        (λ _ _. tt)

module _ {Fs : Type 0} {files : Files Fs} (laws : FileLaws files) (paths : Paths)
    (c : Controller) where
  -- After a request that did not fail, what it did to the kill switch.
  abbrev Switched : Bool → Result AdminResponse × World Fs → Type 0
  Switched b (ok answer, w) =
      (cfg : Config) × (answer ≡ enforcement_state b cfg.kill_switch_path)
      × (files.path_exists w.fs cfg.kill_switch_path ≡ b)
  Switched b (err e, w) = Unit {0}

  switched :
      (cfg : Config) (b : Bool) (kickstarts : ℕ) (q : Result (Unit {0}) × Fs)
      → Stands laws paths c.process_id cfg.kill_switch_path b q
      → Switched b (
          continue q.0
            (λ _. pure (enforcement_state b cfg.kill_switch_path))
            (record { fs = q.1; kickstarts = kickstarts }))
  switched cfg b k (ok _, fs) h = (cfg, refl, h)
  switched cfg b k (err e, fs) h = tt

  authorized_Switched :
      (b : Bool) (w : World Fs)
      → Switched b (handle_authorized files paths c (set_enforcement_paused b) w)
  unfolding handle_authorized
  authorized_Switched b w =
      >>=-cases (Switched b) (reads (λ w. load files paths c w.fs)) _ w
        (λ cfg _.
          switched cfg b w.kickstarts (set_paused files paths c.process_id cfg b w.fs)
            (set_paused-Stands laws paths c.process_id cfg b w.fs))
        (λ _ _. tt)

  responded :
      (b paused : Bool) (path : String) (q : Result AdminResponse × World Fs)
      → Switched b q
      → (respond files paths c q).0 ≡ enforcement_state paused path
      → (paused ≡ b) × (files.path_exists (respond files paths c q).1.fs path ≡ b)
  responded b paused path (ok answer, w) (cfg, e, h) r =
      let same : cfg.kill_switch_path ≡ path = cc in (cc, rw same at h)
  responded b paused path (err e, w) h r = cc

  -- When an allowed operator's request to pause or unpause is answered with a state, it is the state
  -- that was asked for, and the kill-switch file at the path of the answer is there exactly if
  -- enforcement is paused.
  pub handle-set_enforcement_paused :
      (operator : Operator) (b paused : Bool) (path : String) (w : World Fs)
      → operator.allowed ≡ true
      → (handle files paths c operator (set_enforcement_paused b) w).0
        ≡ enforcement_state paused path
      → (paused ≡ b)
        × (files.path_exists (handle files paths c operator (set_enforcement_paused b) w).1.fs path
            ≡ b)
  unfolding handle
  handle-set_enforcement_paused operator b paused path w granted h =
      let r = responded b paused path _ (authorized_Switched b w) in
      rw granted (r (rw granted at h))
