-- ===== src/Tray/Services.antt =====
-- The daemon and the login agent as services of ServiceManagement: `service_management` of
-- crates/tray/src/bin/tray.rs. The framework is a record of calls on a world.
pub mod Unregistering
use konstantin.Common.{
  ℕ, zero, suc, String, Bool, true, false, Option, none, some, if◌then◌else◌, ◌==◌, nat_eq,
  string_eq,
}
use konstantin.Common.Outcome.{bail, Result, ok, err}
use konstantin.Common.Outcome as O
use konstantin.Common.Action.{Action, pure, reads, ◌>>=◌, ◌>>◌}
use konstantin.Common.Int.{ℤ, pos, negsuc}
use konstantin.Tray.Bar.{
  Status, not_registered, enabled, requires_approval, not_found as missing, unknown,
}

-- How the wait for the completion handler of an unregistration ends: with an error's description,
-- which is empty where there is none, or without an error.
pub data Completion : Type 0 where
  completed : Option String → Completion
  timeout disconnected : Completion

-- A service is a handle; making one fails without the framework.
pub record ServiceCalls (W : Type 0) : Type 0 where
  pub daemon_service : W → Result ℕ
  pub agent_service : W → Result ℕ
  pub raw_status : ℕ → W → ℤ
  -- `registerAndReturnError:`: whether it succeeded, and the description of the error.
  pub register : ℕ → W → (Bool × Option String) × W
  pub unregister_with_completion : ℕ → W → Completion × W

unfoldable pub from_raw : ℤ → Status
from_raw (pos zero) = not_registered
from_raw (pos (suc zero)) = enabled
from_raw (pos (suc (suc zero))) = requires_approval
from_raw (pos (suc (suc (suc zero)))) = missing
from_raw (pos (suc (suc (suc (suc n))))) = unknown (pos (suc (suc (suc (suc n)))))
from_raw (negsuc n) = unknown (negsuc n)

-- The description of an error, unless there is none or it is empty.
unfoldable pub error_message : Option String → String
error_message none = "ServiceManagement registration failed"
error_message (some description) =
    if description == "" then "ServiceManagement registration failed" else description

-- The services are looked up before the bundle goes.
pub record UnregisterHandles : Type 0 where
  pub agent : ℕ
  pub daemon : ℕ

module _ {W : Type 0} (services : ServiceCalls W) where
  unfoldable pub status_of : ℕ → W → Status
  unfolding from_raw
  status_of service w = from_raw (services.raw_status service w)

  abbrev status_in : Result ℕ → W → Result Status
  status_in (ok service) w = ok (status_of service w)
  status_in (err e) w = err e

  unfoldable pub daemon_status : W → Result Status
  daemon_status w = status_in (services.daemon_service w) w

  unfoldable pub agent_status : W → Result Status
  agent_status w = status_in (services.agent_service w) w

  -- A registration that failed counts where the service is registered all the same.
  abbrev pub despite : Option String → Result Status → Result Status
  despite error (ok enabled) = ok enabled
  despite error (ok requires_approval) = ok requires_approval
  despite error (ok not_registered) = err (bail (error_message error))
  despite error (ok missing) = err (bail (error_message error))
  despite error (ok (unknown raw)) = err (bail (error_message error))
  despite error (err e) = err (bail (error_message error))

  abbrev pub registration : (W → Result Status) → (Bool × Option String) × W → Result Status × W
  registration status ((true, error), w) = (status w, w)
  registration status ((false, error), w) = (despite error (status w), w)

  unfoldable pub register_service : ℕ → (W → Result Status) → Action W Status
  register_service service status w = registration status (services.register service w)

  unfoldable pub register_daemon : Action W Status
  unfolding register_service daemon_status
  register_daemon =
      reads services.daemon_service >>= λ service. register_service service daemon_status

  abbrev pub ensure_registered : Status → Action W Status
  ensure_registered enabled = pure enabled
  ensure_registered requires_approval = pure requires_approval
  ensure_registered not_registered =
      reads services.agent_service >>= λ service. register_service service agent_status
  ensure_registered missing =
      reads services.agent_service >>= λ service. register_service service agent_status
  ensure_registered (unknown raw) =
      reads services.agent_service >>= λ service. register_service service agent_status

  unfoldable pub ensure_agent_registered : Action W Status
  unfolding register_service agent_status
  ensure_agent_registered = reads agent_status >>= ensure_registered

  abbrev pub completion : Completion × W → Result (Unit {0}) × W
  completion (completed none, w) = (ok tt, w)
  completion (completed (some message), w) = (err (bail (error_message (some message))), w)
  completion (timeout, w) = (err (bail "timed out waiting for ServiceManagement to unregister"), w)
  completion (disconnected, w) =
      (err (bail "ServiceManagement unregister callback disconnected"), w)

  unfoldable pub unregister_service : ℕ → Action W (Unit {0})
  unregister_service service w = completion (services.unregister_with_completion service w)

  abbrev pub unregister_unless_absent : ℕ → Status → Action W (Unit {0})
  unregister_unless_absent service not_registered = pure tt
  unregister_unless_absent service missing = pure tt
  unregister_unless_absent service enabled = unregister_service service
  unregister_unless_absent service requires_approval = unregister_service service
  unregister_unless_absent service (unknown raw) = unregister_service service

  unfoldable pub unregister_if_present : ℕ → Action W (Unit {0})
  unfolding unregister_service status_of
  unregister_if_present service w = unregister_unless_absent service (status_of service w) w

  unfoldable pub refresh_daemon_registration : Action W Status
  unfolding unregister_service register_daemon
  refresh_daemon_registration =
      (reads services.daemon_service >>= unregister_service) >> register_daemon

  unfoldable pub unregister_handles : W → Result UnregisterHandles
  unregister_handles w = O.◌>>=◌ (services.agent_service w) λ agent.
      O.◌>>=◌ (services.daemon_service w) λ daemon. ok (record { agent = agent; daemon = daemon })

  -- `UnregisterHandles::unregister`
  unfoldable pub unregister : UnregisterHandles → Action W (Unit {0})
  unfolding unregister_if_present
  unregister handles = unregister_if_present handles.agent >> unregister_if_present handles.daemon
