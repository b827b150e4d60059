-- ===== src/Daemon/Enforcement/Escalation.antt =====
-- `force_logout` of crates/daemon/src/enforcement.rs.
use konstantin.Common.{
  ℕ, String, ◌≡◌, ◌↔◌, ◌⊎◌, inl, inr, refl, ◌∙◌, Bool, true, false, Option, List, [], ◌∷◌, ◌++◌,
  arith, if◌then◌else◌, Bool-cases, nat_eq, string_eq, contains,
}
use konstantin.Common.Outcome.{Result, ok, err}
use konstantin.Common.Action.{continue}
use mathlib.Core.List.{append_assoc}
use konstantin.Daemon.Enforcement.{
  System, bootouts, confirm, escalate, force_logout, gui_domain, user_domain, kill_args,
}
use konstantin.Daemon.Enforcement.Recorder.{FakeState, fake_runner, next_users}

module _ {W : Type 0} (sys : System W) (username : String) (uid : ℕ) where
  -- What the program sees on the way: who is listed after the bootouts, what `pkill` answers, and
  -- who is listed after that.
  abbrev pub listed : W → List String × W
  listed w = sys.console_users (bootouts sys uid w)

  abbrev pub killed : W → Result Bool × W
  killed w = sys.run "/usr/bin/pkill" (kill_args uid) (listed w).1

  abbrev pub listed_after_kill : W → List String
  listed_after_kill w = (sys.console_users (killed w).1).0

  confirm_iff :
      (matched : Bool) (w : W)
      → ((confirm sys username uid matched w).0 ≡ ok tt)
        ↔ ((matched ≡ true) ⊎ (contains (sys.console_users w).0 username ≡ false))
  unfolding confirm
  confirm_iff true w = ground arith
  confirm_iff false w = ground arith

  escalate_iff :
      (r : Result Bool) (w : W)
      → ((continue r (confirm sys username uid) w).0 ≡ ok tt) ↔ (
          (b : Bool) × (r ≡ ok b)
          × ((b ≡ true) ⊎ (contains (sys.console_users w).0 username ≡ false)))
  escalate_iff (ok b) w = (
    (λ h. (b, refl, (confirm_iff b w).0 h)),
    λ (c, same, h). let p : b ≡ c = cc in (confirm_iff b w).1 (rw p h),
  )
  escalate_iff (err f) w = ((λ h. cc), λ (c, same, h). cc)

  -- A forced logout succeeds exactly when the user is not listed any more after the two bootouts
  -- and the pause; or `pkill` answers, and either it matched a process or the user is not listed
  -- after it.
  pub force_logout_iff :
      (w : W)
      → ((force_logout sys username uid w).0 ≡ ok tt) ↔ (
          (contains (listed w).0 username ≡ false)
          ⊎ ((b : Bool) × ((killed w).0 ≡ ok b)
              × ((b ≡ true) ⊎ (contains (listed_after_kill w) username ≡ false))))
  unfolding force_logout escalate
  force_logout_iff w = elim (Bool-cases (contains (listed w).0 username)) [
    | inl there ↦ rw there ((λ h. inr ((escalate_iff (killed w).0 (killed w).1).0 h)), back)
    | inr gone ↦ rw gone ((λ _. inl refl), λ _. refl)
  ]
    where
      back :
          (true ≡ false)
            ⊎ ((b : Bool) × ((killed w).0 ≡ ok b)
                × ((b ≡ true) ⊎ (contains (listed_after_kill w) username ≡ false)))
          → (escalate sys username uid (listed w).1).0 ≡ ok tt
      back (inl e) = cc
      back (inr q) = (escalate_iff (killed w).0 (killed w).1).1 q

-- What the last steps leave in the record.
calls-confirm :
    (uids : String → Option ℕ) (username : String) (uid : ℕ) (r : Result Bool) (s : FakeState)
    → let s' = (continue r (confirm (fake_runner uids) username uid) s).1 in
      (s'.calls ≡ s.calls) × (s'.settled ≡ s.settled)
unfolding confirm
calls-confirm uids username uid (ok true) s = (refl, refl)
calls-confirm uids username uid (ok false) s = (refl, refl)
calls-confirm uids username uid (err e) s = (refl, refl)

-- Whatever the commands answer, a forced logout asks for the bootout of the graphical domain, then
-- of the user's domain, pauses once, and sends the kill exactly when the user is still listed; all
-- commands name the uid.
pub calls-force_logout :
    (uids : String → Option ℕ) (username : String) (uid : ℕ) (s : FakeState)
    → let s' = (force_logout (fake_runner uids) username uid s).1 in
      (s'.calls
        ≡ s.calls
          ++ ("/bin/launchctl", gui_domain uid)
            ∷ ("/bin/launchctl", user_domain uid)
            ∷ (if contains (next_users s.user_queries) username
                then ("/usr/bin/pkill", kill_args uid) ∷ []
                else []))
      × (s'.settled ≡ s.settled ++ 1_000 ∷ [])
unfolding force_logout
calls-force_logout uids username uid s =
    elim (Bool-cases (contains (next_users s.user_queries) username)) [
      | inl there ↦
          let last =
            calls-confirm uids username uid (killed (fake_runner uids) username uid s).0
              (killed (fake_runner uids) username uid s).1 in
          rw there (last.0 ∙ simp append_assoc, last.1)
      | inr gone ↦ rw gone (simp append_assoc, refl)
    ]
