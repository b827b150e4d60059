-- ===== src/Tray/Progress/Returns.antt =====
-- What the panel of crates/tray/src/bin/tray.rs gives back.
use konstantin.Common.{String, ◌≡◌, ◌≢◌, ◌⊎◌, inl, inr, refl, true, false, arith, nat_eq, string_eq}
use konstantin.Tray.Progress.{
  Payload, Caught, returned, panicked, panic_payload_message, vacant, hung_up, holds, working,
  ended, logged, pumping, crashed, got, Panel, panel_up, finish_work, drop_sender, pump_slice,
  finishes, hangs_up, slices, Reach, starts, steps,
}

-- The six ways in which the threads can stand.
data Stage {T : Type 0} (work : Caught T) : Panel T → Type 0 where
  at_work : Stage work panel_up
  sends :
      (v : T)
      → work ≡ returned v
      → Stage work (record { visible = true; channel = holds v; worker = ended; main = pumping })
  arrives :
      (v : T)
      → work ≡ returned v
      → Stage work (record { visible = false; channel = hung_up; worker = ended; main = got v })
  logs :
      (payload : Payload) (message : String)
      → work ≡ panicked payload
      → Stage work
          (record { visible = true; channel = vacant; worker = logged message; main = pumping })
  goes :
      (payload : Payload)
      → work ≡ panicked payload
      → Stage work (record { visible = true; channel = hung_up; worker = ended; main = pumping })
  fails :
      (payload : Payload)
      → work ≡ panicked payload
      → Stage work (record { visible = true; channel = hung_up; worker = ended; main = crashed })

module _ {T : Type 0} where
  finished : (work : Caught T) → Stage work (finish_work work panel_up)
  unfolding finish_work
  finished (returned v) = sends v refl
  finished (panicked payload) = logs payload (panic_payload_message payload) refl

  Stage-pump_slice :
      (work : Caught T) (p : Panel T) → Stage work p → p.main ≡ pumping → Stage work (pump_slice p)
  unfolding pump_slice
  Stage-pump_slice work _ at_work h = at_work
  Stage-pump_slice work _ (sends v e) h = arrives v e
  Stage-pump_slice work _ (arrives v e) h = absurd (ground (arith, h))
  Stage-pump_slice work _ (logs payload s e) h = logs payload s e
  Stage-pump_slice work _ (goes payload e) h = fails payload e
  Stage-pump_slice work _ (fails payload e) h = absurd (ground (arith, h))

  Stage-finish_work :
      (work : Caught T) (p : Panel T)
      → Stage work p
      → p.worker ≡ working
      → Stage work (finish_work work p)
  Stage-finish_work work _ at_work h = finished work
  Stage-finish_work work _ (sends v e) h = absurd (ground (arith, h))
  Stage-finish_work work _ (arrives v e) h = absurd (ground (arith, h))
  Stage-finish_work work _ (logs payload s e) h = absurd (ground (arith, h))
  Stage-finish_work work _ (goes payload e) h = absurd (ground (arith, h))
  Stage-finish_work work _ (fails payload e) h = absurd (ground (arith, h))

  Stage-drop_sender :
      (work : Caught T) (p : Panel T) (s : String)
      → Stage work p
      → p.worker ≡ logged s
      → Stage work (drop_sender p)
  unfolding drop_sender
  Stage-drop_sender work _ s at_work h = absurd (ground (arith, h))
  Stage-drop_sender work _ s (sends v e) h = absurd (ground (arith, h))
  Stage-drop_sender work _ s (arrives v e) h = absurd (ground (arith, h))
  Stage-drop_sender work _ s (logs payload t e) h = goes payload e
  Stage-drop_sender work _ s (goes payload e) h = absurd (ground (arith, h))
  Stage-drop_sender work _ s (fails payload e) h = absurd (ground (arith, h))

  Reach-Stage : (work : Caught T) (p : Panel T) → Reach work p → Stage work p
  Reach-Stage work _ starts = at_work
  Reach-Stage work _ (steps p _ r (finishes h)) = Stage-finish_work work p (Reach-Stage work p r) h
  Reach-Stage work _ (steps p _ r (hangs_up s h)) =
      Stage-drop_sender work p s (Reach-Stage work p r) h
  Reach-Stage work _ (steps p _ r (slices h)) = Stage-pump_slice work p (Reach-Stage work p r) h

  -- The main thread stands so: it pumps with the panel up, it has the value of the work with the
  -- panel closed, or it has crashed over a panic of the work.
  abbrev pub Outcome : Caught T → Panel T → Type 0
  Outcome work p =
      ((p.main ≡ pumping) × (p.visible ≡ true))
      ⊎ ((v : T) × (p.main ≡ got v) × (work ≡ returned v) × (p.visible ≡ false))
      ⊎ ((payload : Payload) × (p.main ≡ crashed) × (work ≡ panicked payload))

  Stage-Outcome : (work : Caught T) (p : Panel T) → Stage work p → Outcome work p
  Stage-Outcome work _ at_work = inl (refl, refl)
  Stage-Outcome work _ (sends v e) = inl (refl, refl)
  Stage-Outcome work _ (arrives v e) = inr (inl (v, refl, e, refl))
  Stage-Outcome work _ (logs payload s e) = inl (refl, refl)
  Stage-Outcome work _ (goes payload e) = inl (refl, refl)
  Stage-Outcome work _ (fails payload e) = inr (inr (payload, refl, e))

  slice_ends :
      (work : Caught T) (p : Panel T)
      → Stage work p
      → p.worker ≡ ended
      → (pump_slice p).main ≢ pumping
  unfolding pump_slice
  slice_ends work _ at_work h k = ground (arith, h)
  slice_ends work _ (sends v e) h k = ground (arith, k)
  slice_ends work _ (arrives v e) h k = ground (arith, k)
  slice_ends work _ (logs payload s e) h k = ground (arith, h)
  slice_ends work _ (goes payload e) h k = ground (arith, k)
  slice_ends work _ (fails payload e) h k = ground (arith, k)

  -- However the two threads interleave: the main thread comes back with a value only if the work
  -- returned this value, and then the panel is closed; it stops without one only if the work
  -- panicked; until then it pumps with the panel up. Once the worker's thread has ended, the next
  -- slice ends the wait.
  pub Reach-Outcome :
      (work : Caught T) (p : Panel T)
      → Reach work p
      → Outcome work p × (p.worker ≡ ended → (pump_slice p).main ≢ pumping)
  Reach-Outcome work p r =
      (Stage-Outcome work p (Reach-Stage work p r), slice_ends work p (Reach-Stage work p r))
