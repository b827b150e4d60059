-- ===== src/Tray/Notifications/Thresholds.antt =====
-- Which threshold `evaluate` of crates/tray/src/notifications.rs announces.
use konstantin.Common.{
  ℕ, ◌/◌, ◌≤◌, ◌<◌, ◌≡◌, ◌↔◌, ◌⊎◌, inl, inr, refl, ap, ◌∙◌, true, false, Option, none, some, List,
  [], ◌∷◌, arith, Bool-cases, Option-cases, nat_eq, string_eq, u32_mod, u32_saturating_mul,
  contains, beq_refl,
}
use konstantin.Common.Int.{ℤ, pos, negsuc}
use konstantin.Proto.{UserStatus}
use konstantin.Tray.Notifications.{
  NotifTracker, rearm, is_active_state, try_u32, insert_sorted, thresholds_sec, candidate, fire,
  evaluate, same_reset,
}

-- Strictly ascending, above a bound.
abbrev Above : ℕ → List ℕ → Type 0
Above lo [] = Unit {0}
Above lo (x ∷ xs) = (lo < x) × Above x xs

insert_sorted-Above :
    (n lo : ℕ) (xs : List ℕ) → lo < n → Above lo xs → Above lo (insert_sorted n xs)
unfolding insert_sorted
insert_sorted-Above n lo [] h a = (h, tt)
insert_sorted-Above n lo (x ∷ xs) h a = ground (arith, insert_sorted-Above n x xs)

contains-insert_sorted :
    (n : ℕ) (xs : List ℕ) (c : ℕ)
    → contains (insert_sorted n xs) c ≡ true
    → (n ≡ c) ⊎ (contains xs c ≡ true)
unfolding insert_sorted contains
contains-insert_sorted n [] c h = ground arith
contains-insert_sorted n (x ∷ xs) c h = ground (arith, contains-insert_sorted n xs c)

-- No entry that the time is within is tighter.
abbrev IsTightest : ℕ → ℕ → List ℕ → Type 0
IsTightest r c [] = Unit {0}
IsTightest r c (x ∷ xs) = (r ≤ x → c ≤ x) × IsTightest r c xs

IsTightest-Above : (r c lo : ℕ) (xs : List ℕ) → c ≤ lo → Above lo xs → IsTightest r c xs
IsTightest-Above r c lo [] h a = tt
IsTightest-Above r c lo (x ∷ xs) h a =
    ((λ _. omega arith), IsTightest-Above r c x xs (omega arith) a.1)

candidate_lem :
    (r c lo : ℕ) (xs : List ℕ)
    → Above lo xs
    → candidate r xs ≡ some c
    → (r ≤ c) × (contains xs c ≡ true) × IsTightest r c xs
unfolding candidate contains
candidate_lem r c lo [] a h = cc
candidate_lem r c lo (x ∷ xs) a h =
    ground (arith, candidate_lem r c x xs a.1, IsTightest-Above r c x xs, beq_refl c)

IsTightest-contains :
    (r c : ℕ) (xs : List ℕ) → IsTightest r c xs → (x : ℕ) → contains xs x ≡ true → r ≤ x → c ≤ x
unfolding contains
IsTightest-contains r c [] h x m l = ground arith
IsTightest-contains r c (y ∷ xs) h x m l = ground (arith, h.0, IsTightest-contains r c xs h.1 x)

candidate-none :
    (r : ℕ) (xs : List ℕ) → candidate r xs ≡ none → (x : ℕ) → contains xs x ≡ true → x < r
unfolding candidate contains
candidate-none r [] h x m = ground arith
candidate-none r (y ∷ xs) h x m =
    ground (arith, λ (e : candidate r xs ≡ none). candidate-none r xs e x)

contains-insert_sorted_self : (n : ℕ) (xs : List ℕ) → contains (insert_sorted n xs) n ≡ true
unfolding insert_sorted contains
contains-insert_sorted_self n [] = ground (arith, beq_refl n)
contains-insert_sorted_self n (x ∷ xs) =
    ground (arith, beq_refl n, contains-insert_sorted_self n xs)

contains-insert_sorted_keep :
    (n : ℕ) (xs : List ℕ) (c : ℕ) → contains xs c ≡ true → contains (insert_sorted n xs) c ≡ true
unfolding insert_sorted contains
contains-insert_sorted_keep n [] c h = ground arith
contains-insert_sorted_keep n (x ∷ xs) c h = ground (arith, contains-insert_sorted_keep n xs c)

thresholds_sec-Above : (ms : List ℕ) → Above 0 (thresholds_sec ms)
unfolding thresholds_sec
thresholds_sec-Above [] = tt
thresholds_sec-Above (m ∷ ms) = ground (
  arith,
  thresholds_sec-Above ms,
  insert_sorted-Above (u32_saturating_mul m 60) 0 (thresholds_sec ms),
)

-- The list of minutes has one that is `c` seconds.
abbrev pub IsConfigured : List ℕ → ℕ → Type 0
IsConfigured [] c = ⊥
IsConfigured (m ∷ ms) c = (u32_saturating_mul m 60 ≡ c) ⊎ IsConfigured ms c

IsConfigured-thresholds_sec :
    (ms : List ℕ) (c : ℕ) → contains (thresholds_sec ms) c ≡ true → (0 < c) × IsConfigured ms c
unfolding thresholds_sec contains
IsConfigured-thresholds_sec [] c h = ground arith
IsConfigured-thresholds_sec (m ∷ ms) c h = ground (
  arith,
  IsConfigured-thresholds_sec ms c,
  contains-insert_sorted (u32_saturating_mul m 60) (thresholds_sec ms) c,
)

thresholds_sec-IsConfigured :
    (ms : List ℕ) (c : ℕ) → 0 < c → IsConfigured ms c → contains (thresholds_sec ms) c ≡ true
unfolding thresholds_sec contains
thresholds_sec-IsConfigured [] c l i = elim i [ ]
thresholds_sec-IsConfigured (x ∷ ms) c l i = ground (
  arith,
  thresholds_sec-IsConfigured ms c l,
  contains-insert_sorted_self c (thresholds_sec ms),
  contains-insert_sorted_keep (u32_saturating_mul x 60) (thresholds_sec ms) c,
)

-- `c` is the least of the thresholds in `ms` that `n` seconds are within.
abbrev pub IsCrossed : List ℕ → ℕ → ℕ → Type 0
IsCrossed ms n c =
    (0 < c) × IsConfigured ms c × (n ≤ c) × ((x : ℕ) → 0 < x → IsConfigured ms x → n ≤ x → c ≤ x)

pub IsCrossed-candidate :
    (ms : List ℕ) (n c : ℕ) → candidate n (thresholds_sec ms) ≡ some c → IsCrossed ms n c
IsCrossed-candidate ms n c e =
    let (l, m, t) = candidate_lem n c 0 (thresholds_sec ms) (thresholds_sec-Above ms) e in
    let (p, i) = IsConfigured-thresholds_sec ms c m in
    (
      p,
      i,
      l,
      λ x q j k.
          IsTightest-contains n c (thresholds_sec ms) t x (thresholds_sec-IsConfigured ms x q j) k,
    )

pub candidate_iff :
    (ms : List ℕ) (n c : ℕ) → (candidate n (thresholds_sec ms) ≡ some c) ↔ IsCrossed ms n c
candidate_iff ms n c = (there, back)
  where
    ts : List ℕ
    ts = thresholds_sec ms

    there : candidate n ts ≡ some c → IsCrossed ms n c
    there = IsCrossed-candidate ms n c

    back : IsCrossed ms n c → candidate n ts ≡ some c
    back (p, i, l, t) = elim (Option-cases (candidate n ts)) [
      | inl e ↦ ground (arith, candidate-none n ts e c (thresholds_sec-IsConfigured ms c p i))
      | inr (d, e) ↦
          let (q, j, k, u) = IsCrossed-candidate ms n d e in
          e ∙ ap some (omega (arith, t d q j k, u c p i l))
    ]

abbrev pub IsTighter : ℕ → Option ℕ → Type 0
IsTighter c none = Unit {0}
IsTighter c (some p) = c < p

-- In the cycle that ends at the status's reset instant, nothing this tight was announced.
abbrev pub IsFresh : UserStatus → NotifTracker → ℕ → Type 0
IsFresh s t c = (same_reset t.last_resets_at s.resets_at ≡ false) ⊎ IsTighter c t.fired_at_or_below

abbrev pub IsWarning : UserStatus → NotifTracker → ℕ → Type 0
IsWarning s t c =
    (is_active_state s.state ≡ true)
    × ((n : ℕ) × (s.remaining_seconds ≡ pos n)
        × (n < u32_mod)
        × IsCrossed s.warn_thresholds_minutes n c)
    × IsFresh s t c

pub fire_there :
    (o prev last : Option ℕ) (m : ℕ)
    → (fire o (record { last_resets_at = last; fired_at_or_below = prev })).0 ≡ some m
    → (c : ℕ) × (o ≡ some c) × IsTighter c prev × (m ≡ c / 60)
unfolding fire
fire_there none prev last m e = ground arith
fire_there (some c) none last m e = (c, refl, tt, ground arith)
fire_there (some c) (some p) last m e = (c, refl, ground arith, ground arith)

fire_back :
    (c : ℕ) (t : NotifTracker)
    → IsTighter c t.fired_at_or_below
    → (fire (some c) t).0 ≡ some (c / 60)
unfolding fire
fire_back c t h = ground arith

IsTighter-rearm_iff :
    (s : UserStatus) (t : NotifTracker) (c : ℕ)
    → IsTighter c (rearm s.resets_at t).fired_at_or_below ↔ IsFresh s t c
unfolding rearm
IsTighter-rearm_iff s t c = ground arith

pub try_u32_iff : (z : ℤ) (n : ℕ) → (try_u32 z ≡ some n) ↔ ((z ≡ pos n) × (n < u32_mod))
unfolding try_u32
try_u32_iff (pos k) n = ground arith
try_u32_iff (negsuc k) n = ground arith

-- A status makes the tracker announce some minutes exactly when its user is active, its remaining
-- seconds are not negative and fit in a `u32`, and the minutes are those of a positive threshold of
-- the status that is the least of those that the remaining seconds are within, provided that the
-- cycle is a new one or nothing as tight was announced in it.
pub evaluate_iff :
    (s : UserStatus) (t : NotifTracker) (m : ℕ)
    → ((evaluate s t).0 ≡ some m) ↔ ((c : ℕ) × IsWarning s t c × (m ≡ c / 60))
unfolding evaluate
evaluate_iff s t m = (there, back)
  where
    armed : NotifTracker
    armed = rearm s.resets_at t

    there : (evaluate s t).0 ≡ some m → (c : ℕ) × IsWarning s t c × (m ≡ c / 60)
    there e = elim (Bool-cases (is_active_state s.state)) [
      | inl a ↦ elim (Option-cases (try_u32 s.remaining_seconds)) [
        | inl n ↦ ground arith
        | inr (n, r) ↦
            let (c, o, f, q) =
              fire_there (candidate n (thresholds_sec s.warn_thresholds_minutes))
                armed.fired_at_or_below armed.last_resets_at m (ground arith) in
            (
              c,
              (
                a,
                (
                  n,
                  ((try_u32_iff s.remaining_seconds n).0 r).0,
                  ((try_u32_iff s.remaining_seconds n).0 r).1,
                  (candidate_iff s.warn_thresholds_minutes n c).0 o,
                ),
                (IsTighter-rearm_iff s t c).0 f,
              ),
              q,
            )
      ]
      | inr a ↦ ground arith
    ]

    back : ((c : ℕ) × IsWarning s t c × (m ≡ c / 60)) → (evaluate s t).0 ≡ some m
    back (c, (a, (n, r, l, x), f), q) = ground (
      arith,
      a,
      (try_u32_iff s.remaining_seconds n).1 (r, l),
      (candidate_iff s.warn_thresholds_minutes n c).1 x,
      q,
      fire_back c armed ((IsTighter-rearm_iff s t c).1 f),
    )
