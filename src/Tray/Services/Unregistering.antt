-- ===== src/Tray/Services/Unregistering.antt =====
-- What unregistering does to the services: crates/tray/src/bin/tray.rs.
use konstantin.Common.{ℕ, ◌≡◌, refl, sym, none, some, nat_eq, string_eq}
use konstantin.Common.Outcome.{Result, ok, err}
use konstantin.Common.Action.{Action, continue}
use mathlib.Core.Path.{subst}
use konstantin.Tray.Bar.{
  Status, not_registered, enabled, requires_approval, not_found as missing, unknown,
}
use konstantin.Tray.Services.{
  ServiceCalls, Completion, completed, timeout, disconnected, UnregisterHandles, status_of,
  completion, unregister_service, unregister_unless_absent, unregister_if_present, unregister,
}

abbrev pub Absent : Status → Type 0
Absent not_registered = Unit {0}
Absent missing = Unit {0}
Absent enabled = ⊥
Absent requires_approval = ⊥
Absent (unknown raw) = ⊥

-- The framework's promise: an unregistration that completes without an error has removed the service.
abbrev pub Removed : {W : Type 0} → (W → Status) → Completion × W → Type 0
Removed status (completed none, w) = Absent (status w)
Removed status (completed (some m), w) = Unit {0}
Removed status (timeout, w) = Unit {0}
Removed status (disconnected, w) = Unit {0}

pub record Framework {W : Type 0} (services : ServiceCalls W) : Type 0 where
  pub removes :
      (h : ℕ) (w : W) → Removed (status_of services h) (services.unregister_with_completion h w)
  -- Unregistering one service registers no other.
  pub keeps_absent :
      (h other : ℕ) (w : W)
      → Absent (status_of services other w)
      → Absent (status_of services other (services.unregister_with_completion h w).1)

-- What holds of the world after a step that succeeded.
abbrev pub Succeeds : {W : Type 0} → (W → Type 0) → Result (Unit {0}) × W → Type 0
Succeeds P (ok _, w) = P w
Succeeds P (err e, w) = Unit {0}

module _ {W : Type 0} (services : ServiceCalls W) (laws : Framework services) where
  completion-Absent :
      (service : ℕ) (q : Completion × W)
      → Removed (status_of services service) q
      → Succeeds (λ w. Absent (status_of services service w)) (completion services q)
  completion-Absent service (completed none, w) h = h
  completion-Absent service (completed (some m), w) h = tt
  completion-Absent service (timeout, w) h = tt
  completion-Absent service (disconnected, w) h = tt

  unless-Absent :
      (service : ℕ) (status : Status) (w : W)
      → status_of services service w ≡ status
      → Succeeds
          (λ w'. Absent (status_of services service w'))
          (unregister_unless_absent services service status w)
  unfolding unregister_service
  unless-Absent service not_registered w h = subst Absent (sym h) tt
  unless-Absent service missing w h = subst Absent (sym h) tt
  unless-Absent service enabled w h = completion-Absent service _ (laws.removes service w)
  unless-Absent service requires_approval w h = completion-Absent service _ (laws.removes service w)
  unless-Absent service (unknown raw) w h = completion-Absent service _ (laws.removes service w)

  completion-world : (q : Completion × W) → (completion services q).1 ≡ q.1
  completion-world (completed none, w) = refl
  completion-world (completed (some m), w) = refl
  completion-world (timeout, w) = refl
  completion-world (disconnected, w) = refl

  unregister_service-keeps :
      (service other : ℕ) (w : W)
      → Absent (status_of services other w)
      → Absent (status_of services other (unregister_service services service w).1)
  unfolding unregister_service
  unregister_service-keeps service other w h =
      subst (λ w'. Absent (status_of services other w'))
        (sym (completion-world (services.unregister_with_completion service w)))
        (laws.keeps_absent service other w h)

  unless-keeps :
      (service other : ℕ) (status : Status) (w : W)
      → Absent (status_of services other w)
      → Absent (status_of services other (unregister_unless_absent services service status w).1)
  unless-keeps service other not_registered w h = h
  unless-keeps service other missing w h = h
  unless-keeps service other enabled w h = unregister_service-keeps service other w h
  unless-keeps service other requires_approval w h = unregister_service-keeps service other w h
  unless-keeps service other (unknown raw) w h = unregister_service-keeps service other w h

  paired :
      (P Q : W → Type 0) (r : Result (Unit {0}) × W)
      → P r.1
      → Succeeds Q r
      → Succeeds (λ w. P w × Q w) r
  paired P Q (ok _, w) p q = (p, q)
  paired P Q (err e, w) p q = tt

  -- Both steps succeed, the first one holds after it, and the second keeps it.
  both :
      (P Q : W → Type 0) (q : Result (Unit {0}) × W) (then' : Action W (Unit {0}))
      → Succeeds P q
      → ((w : W) → P w → P (then' w).1)
      → ((w : W) → Succeeds Q (then' w))
      → Succeeds (λ w. P w × Q w) (continue q.0 (λ _. then') q.1)
  both P Q (err e, w) then' h keep next = tt
  both P Q (ok _, w) then' h keep next = paired P Q (then' w) (keep w h) (next w)

  -- If the framework removes a service whose unregistration completes without an error, and registers
  -- none by that, then when the unregistration reports success, neither the login agent nor the daemon is registered
  -- any more, whatever the two were before.
  pub unregister-Absent :
      (handles : UnregisterHandles) (w : W)
      → Succeeds
          (λ w'.
            Absent (status_of services handles.agent w')
            × Absent (status_of services handles.daemon w'))
          (unregister services handles w)
  unfolding unregister unregister_if_present
  unregister-Absent handles w =
      both (λ w'. Absent (status_of services handles.agent w'))
        (λ w'. Absent (status_of services handles.daemon w'))
        (unregister_if_present services handles.agent w)
        (unregister_if_present services handles.daemon) (unless-Absent handles.agent _ w refl)
        (λ w'. unless-keeps handles.daemon handles.agent _ w')
        (λ w'. unless-Absent handles.daemon _ w' refl)
