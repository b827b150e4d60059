-- ===== src/Daemon/Control/Denied.antt =====
-- Which requests may change what: crates/daemon/src/control/mod.rs.
use konstantin.Common.{
  ◌≡◌, ◌↔◌, ◌⊎◌, inl, inr, refl, ◌∙◌, Bool, true, false, arith, Bool-cases, nat_eq, string_eq,
}
use konstantin.Common.Outcome.{Result, ok, err}
use konstantin.Common.Files.{Files, Paths}
use konstantin.Proto.Admin.{
  AdminRequest, get_config, validate_config, set_config, reload_daemon, get_daemon_info,
  get_enforcement_state, set_enforcement_paused, prepare_uninstall, AdminResponse, unauthorized,
}
use konstantin.Daemon.Control.{World, Controller, handle_authorized, handle, respond}
use konstantin.Daemon.Control.Auth.{Operator}

-- Requests that ask and change nothing.
abbrev pub IsReadOnly : AdminRequest → Type 0
IsReadOnly get_config = Unit {0}
IsReadOnly (validate_config toml) = Unit {0}
IsReadOnly get_daemon_info = Unit {0}
IsReadOnly get_enforcement_state = Unit {0}
IsReadOnly _ = ⊥

abbrev pub is_unauthorized : AdminResponse → Bool
is_unauthorized (unauthorized reason) = true
is_unauthorized _ = false

module _ {Fs : Type 0} (files : Files Fs) (paths : Paths) (c : Controller) where
  authorized_keeps :
      (req : AdminRequest) (w : World Fs)
      → IsReadOnly req
      → (handle_authorized files paths c req w).1 ≡ w
  unfolding handle_authorized
  authorized_keeps get_config w h = ground arith
  authorized_keeps (validate_config toml) w h = ground arith
  authorized_keeps (set_config toml) w h = absurd h
  authorized_keeps reload_daemon w h = absurd h
  authorized_keeps get_daemon_info w h = refl
  authorized_keeps get_enforcement_state w h = ground arith
  authorized_keeps (set_enforcement_paused b) w h = absurd h
  authorized_keeps (prepare_uninstall b) w h = absurd h

  world-respond : (q : Result AdminResponse × World Fs) → (respond files paths c q).1 ≡ q.1
  world-respond (ok r, w) = refl
  world-respond (err e, w) = refl

  -- A request changes no file and schedules no restart if the operator is not allowed, whatever it
  -- asks, or if it only asks: for the configuration, for its validity, for the version, or for the
  -- state of the kill switch.
  pub handle_keeps :
      (operator : Operator) (req : AdminRequest) (w : World Fs)
      → (operator.allowed ≡ false) ⊎ IsReadOnly req
      → (handle files paths c operator req w).1 ≡ w
  unfolding handle
  handle_keeps operator req w (inl denied) = rw denied
  handle_keeps operator req w (inr asks) = elim (Bool-cases operator.allowed) [
    | inl granted ↦ rw granted (world-respond _ ∙ authorized_keeps req w asks)
    | inr denied ↦ rw denied
  ]

  abbrev Never : Result AdminResponse × World Fs → Type 0
  Never (ok r, w) = is_unauthorized r ≡ false
  Never (err e, w) = Unit {0}

  Never-handle_authorized :
      (req : AdminRequest) (w : World Fs) → Never (handle_authorized files paths c req w)
  unfolding handle_authorized
  Never-handle_authorized get_config w = ground arith
  Never-handle_authorized (validate_config toml) w = ground arith
  Never-handle_authorized (set_config toml) w = ground arith
  Never-handle_authorized reload_daemon w = ground arith
  Never-handle_authorized get_daemon_info w = refl
  Never-handle_authorized get_enforcement_state w = ground arith
  Never-handle_authorized (set_enforcement_paused b) w = ground arith
  Never-handle_authorized (prepare_uninstall b) w = ground arith

  respond-Never :
      (q : Result AdminResponse × World Fs)
      → Never q
      → is_unauthorized (respond files paths c q).0 ≡ false
  respond-Never (ok r, w) h = h
  respond-Never (err e, w) h = refl

  -- Unauthorized is the answer exactly to an operator who is not allowed: no request of an allowed
  -- operator is ever answered so, whatever fails.
  pub handle-unauthorized_iff :
      (operator : Operator) (req : AdminRequest) (w : World Fs)
      → (is_unauthorized (handle files paths c operator req w).0 ≡ true)
        ↔ (operator.allowed ≡ false)
  unfolding handle
  handle-unauthorized_iff operator req w = elim (Bool-cases operator.allowed) [
    | inl granted ↦
        let never = respond-Never _ (Never-handle_authorized req w) in
        rw granted ((λ h. cc), λ h. cc)
    | inr denied ↦ rw denied ((λ h. refl), λ h. refl)
  ]
