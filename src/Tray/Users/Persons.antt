-- ===== src/Tray/Users/Persons.antt =====
-- Which accounts are those of persons: `is_real_user` of crates/tray/src/users.rs.
use Prim.Native.Char.{code}
use konstantin.Common.{
  ℕ, String, ◌≤◌, ◌≡◌, ◌≢◌, ◌↔◌, refl, sym, true, false, List, [], ◌∷◌, arith, nat_eq, string_eq,
  beq_refl, beq_ne, contains,
}
use konstantin.Tray.Users.{denylist, starts_underscore, is_real_user}

-- The names that macOS keeps for itself begin with an underscore.
abbrev pub IsPlain : String → Type 0
IsPlain String.[] = Unit {0}
IsPlain (String.◌∷◌ c s) = code c ≢ b'_'

-- None of the names.
abbrev pub IsOther : String → List String → Type 0
IsOther name [] = Unit {0}
IsOther name (x ∷ xs) = (name ≢ x) × IsOther name xs

-- The name and the uid of a person.
pub record IsPerson (name : String) (uid : ℕ) : Type 0 where
  pub over : 500 ≤ uid
  pub plain : IsPlain name
  pub unreserved : IsOther name ("nobody" ∷ "daemon" ∷ "root" ∷ "Guest" ∷ "Shared" ∷ [])

starts_underscore_iff : (name : String) → (starts_underscore name ≡ false) ↔ IsPlain name
starts_underscore_iff String.[] = ((λ h. tt), λ h. refl)
starts_underscore_iff (String.◌∷◌ c s) = ((λ h. ground (arith, h)), λ h. ground (arith, h))

denied_iff : (xs : List String) (name : String) → (contains xs name ≡ false) ↔ IsOther name xs
unfolding contains
denied_iff [] name = ((λ h. tt), λ h. refl)
denied_iff (x ∷ xs) name =
    let ih = denied_iff xs name in
    (
      (λ h. ((λ e. ground (arith, h, e, beq_refl x)), ih.0 (ground (arith, h)))),
      λ h. let rest = ih.1 h.1 in ground (arith, beq_ne x name (λ e. h.0 (sym e)), rest),
    )

is_real_user_cases :
    (name : String) (uid : ℕ)
    → (is_real_user name uid ≡ true)
      ↔ ((500 ≤ uid) × (starts_underscore name ≡ false) × (contains denylist name ≡ false))
unfolding is_real_user
is_real_user_cases name uid = ground arith

pub real_iff : (name : String) (uid : ℕ) → (is_real_user name uid ≡ true) ↔ IsPerson name uid
real_iff name uid =
    let cases = is_real_user_cases name uid in
    (
      (λ h.
          let tests = cases.0 h in
          record {
            over = tests.0;
            plain = (starts_underscore_iff name).0 tests.1;
            unreserved = (denied_iff denylist name).0 tests.2;
          }),
      λ p. cases.1 (
        p.over,
        (starts_underscore_iff name).1 p.plain,
        (denied_iff denylist name).1 p.unreserved,
      ),
    )
