-- ===== src/Daemon/State/Counting.antt =====
-- What the operations of crates/daemon/src/state.rs do to the counters.
use konstantin.Common.{
  ℕ, String, ◌+◌, ◌%◌, ◌≡◌, ◌≢◌, ◌⊎◌, refl, ◌∙◌, true, false, some, List, [], ◌∷◌, arith, eq_iff,
  if◌then◌else◌, ◌==◌, nat_eq, string_eq, unwrap_or, u32_mod, Map, lookup, insert, contains,
  Distinct, lookup-insert,
}
use konstantin.Daemon.State.{State, used, is_active, reset_if_new_day, add_all, tick}

abbrev pub amount : Map String ℕ → String → ℕ
amount m user = unwrap_or 0 (lookup user m)

amount-insert :
    (k j : String) (v : ℕ) (m : Map String ℕ)
    → amount (insert k v m) j ≡ (if k == j then v else amount m j)
amount-insert k j v m = ground (arith, lookup-insert k j v m)

amount-add_all :
    (active : List String) (delta : ℕ) (m : Map String ℕ) (user : String)
    → Distinct active
    → amount (add_all active delta m) user
      ≡ (if contains active user then (amount m user + delta) % u32_mod else amount m user)
unfolding add_all contains
amount-add_all [] delta m user d = refl
amount-add_all (x ∷ rest) delta m user d =
    let m' = insert x ((amount m x + delta) % u32_mod) m in
    amount-add_all rest delta m' user d.1
    ∙ ground (arith, amount-insert x user ((amount m x + delta) % u32_mod) m, eq_iff x user, d.0)

-- A tick adds its seconds to the counter of each active user, modulo 2 ^ 32, leaves every other
-- counter and the day as they were, and from then on exactly the given users are active.
pub used-tick :
    (active : List String) (delta : ℕ) (s : State) (user : String)
    → Distinct active
    → (used (tick active delta s) user
        ≡ (if contains active user then (used s user + delta) % u32_mod else used s user))
      × (is_active (tick active delta s) user ≡ contains active user)
      × ((tick active delta s).day ≡ s.day)
unfolding used tick is_active
used-tick active delta s user d = (amount-add_all active delta s.counters user d, refl, refl)

-- On the day of the counters nothing changes; on any other day, or on a fresh state, every counter
-- reads 0 from then on, the state belongs to that day, and the users seen last stay. The result
-- tells the two apart.
pub reset_if_new_day_lem :
    (today : ℕ) (s : State) (user : String)
    → let r = reset_if_new_day today s in
      ((r.1 ≡ false) × (s.day ≡ some today) × (r.0 ≡ s))
      ⊎ ((r.1 ≡ true)
          × (s.day ≢ some today)
          × (r.0.day ≡ some today)
          × (used r.0 user ≡ 0)
          × (r.0.active_now ≡ s.active_now))
unfolding reset_if_new_day used lookup
reset_if_new_day_lem today s user = ground (arith)
