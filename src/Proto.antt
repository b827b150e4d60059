-- ===== src/Proto.antt =====
-- The wire types of the status socket: crates/proto/src/lib.rs. An instant is a number of seconds.
pub mod Frame
pub mod Admin
use konstantin.Common.{
  ℕ, zero, suc, String, ◌+◌, ◌-◌, ◌*◌, ◌/◌, ◌%◌, ◌^◌, ◌≤◌, ◌<◌, ◌≡◌, ◌≢◌, ◌↔◌, ◌⊎◌, inl, inr, refl,
  sym, ap, ◌∙◌, Bool, true, false, not, ◌&&◌, ◌||◌, Option, none, some, List, [], ◌∷◌, ◌++◌, map,
  arith, eq_iff, ltb, leb, nat_beq, nat_beq_iff, if◌then◌else◌, lt→ltb, ltb→lt, Bool-cases,
  Option-cases, ◌==◌, nat_eq, string_eq, unwrap_or, length, length-append, u32_mod,
  u32_saturating_mul, Map, lookup, insert, contains, Distinct, beq_refl, beq_ne, contains-append,
  lookup-insert_self, lookup-insert_ne, lookup-insert,
}
use konstantin.Common.Int.{ℤ}

pub data Request : Type 0 where
  get_status : Request
  subscribe : Request
  report_session_state : Bool → ℕ → Request

pub data SessionState : Type 0 where
  active paused limit_reached offline not_configured : SessionState

pub record UserStatus : Type 0 where
  pub uid : ℕ
  pub username : String
  pub state : SessionState
  pub daily_limit_seconds : ℕ
  pub used_seconds : ℕ
  pub remaining_seconds : ℤ
  pub resets_at : ℕ
  pub warn_thresholds_minutes : List ℕ

pub data Response : Type 0 where
  status : UserStatus → Response
  status_update : UserStatus → Response
  ack : Response
  error : String → Response
