-- ===== src/Tray/Progress.antt =====
-- A panel while a worker thread works: the module `progress` of crates/tray/src/bin/tray.rs. The two
-- threads share a channel for one value; a step is what one of them does between two looks at the
-- channel, so steps interleave as the threads do.
pub mod Returns
use konstantin.Common.{String, ◌-◌, ◌≡◌, Bool, true, false}

-- What a panic carries.
pub data Payload : Type 0 where
  static_text owned_text : String → Payload
  other_payload : Payload

unfoldable pub panic_payload_message : Payload → String
panic_payload_message (static_text s) = s
panic_payload_message (owned_text s) = s
panic_payload_message other_payload = "non-string panic payload"

-- What `catch_unwind` makes of the work.
pub data Caught (T : Type 0) : Type 0 where
  returned : T → Caught T
  panicked : Payload → Caught T

-- What `try_recv` finds: nothing yet, the value, or no sender and no value.
pub data Channel (T : Type 0) : Type 0 where
  vacant hung_up : Channel T
  holds : T → Channel T

-- The worker works, has logged a panic while its sender still lives, or has ended.
pub data Worker : Type 0 where
  working ended : Worker
  logged : String → Worker

-- The main thread pumps its run loop, has the value, or has reached `unreachable!`.
pub data Main (T : Type 0) : Type 0 where
  pumping crashed : Main T
  got : T → Main T

pub record Panel (T : Type 0) : Type 0 where
  pub visible : Bool
  pub channel : Channel T
  pub worker : Worker
  pub main : Main T

-- `run_with_panel`, once the panel is up and the worker is spawned.
abbrev pub panel_up : {T : Type 0} → Panel T
panel_up = record { visible = true; channel = vacant; worker = working; main = pumping }

-- The worker's thread: the value is sent, or the panic is logged and the sender goes.
unfoldable pub finish_work : {T : Type 0} → Caught T → Panel T → Panel T
unfolding panic_payload_message
finish_work (returned v) p = record p { channel = holds v; worker = ended }
finish_work (panicked payload) p = record p { worker = logged (panic_payload_message payload) }

unfoldable pub drop_sender : {T : Type 0} → Panel T → Panel T
drop_sender p = record p { channel = hung_up; worker = ended }

abbrev pub received : {T : Type 0} → Channel T → Panel T → Panel T
received vacant p = p
received (holds v) p = record p { visible = false; channel = hung_up; main = got v }
received hung_up p = record p { main = crashed }

-- One slice of `pump_run_loop_until`, with the closing of the panel after the last.
unfoldable pub pump_slice : {T : Type 0} → Panel T → Panel T
pump_slice p = received p.channel p

pub data Step {T : Type 0} (work : Caught T) (p : Panel T) : Panel T → Type 0 where
  finishes : p.worker ≡ working → Step work p (finish_work work p)
  hangs_up : (message : String) → p.worker ≡ logged message → Step work p (drop_sender p)
  slices : p.main ≡ pumping → Step work p (pump_slice p)

pub data Reach {T : Type 0} (work : Caught T) : Panel T → Type 0 where
  starts : Reach work panel_up
  steps : (p q : Panel T) → Reach work p → Step work p q → Reach work q
