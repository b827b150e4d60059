-- ===== src/Common/Membership.antt =====
-- What is a member of a list, case by case.
use mathlib.Core.List.Memᴰ
use mathlib.Core.List.{Memᴰ}
use konstantin.Common.{◌≡◌, ◌↔◌, ◌⊎◌, inl, inr, List, [], ◌∷◌, ◌++◌}

pub cons_iff : {A : Type 0} (a b : A) (l : List A) → Memᴰ a (b ∷ l) ↔ ((a ≡ b) ⊎ Memᴰ a l)
cons_iff a b l =
    ((λ m. Memᴰ.cases_cons m), λ m. elim m [ inl e ↦ Memᴰ.head e | inr n ↦ Memᴰ.tail n ])

pub single_iff : {A : Type 0} (a b : A) → Memᴰ a (b ∷ []) ↔ (a ≡ b)
single_iff a b = (
  (λ m. elim (Memᴰ.cases_cons m) [ inl e ↦ e | inr n ↦ absurd (Memᴰ.not-nil n) ]),
  λ e. Memᴰ.head e,
)

pub append_iff : {A : Type 0} (a : A) (s t : List A) → Memᴰ a (s ++ t) ↔ (Memᴰ a s ⊎ Memᴰ a t)
append_iff a s t = (
  (λ m. Memᴰ.append_cases s m),
  λ m. elim m [ inl n ↦ Memᴰ.append_left t n | inr n ↦ Memᴰ.append_right s n ],
)
