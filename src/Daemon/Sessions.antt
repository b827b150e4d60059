-- ===== src/Daemon/Sessions.antt =====
-- Who is at the console: crates/daemon/src/sessions.rs. `console_users` is a function of the name
-- that the system reports, if it reports one; the calls that give the name are a record.
use konstantin.Common.Int.{ℤ, pos}
use konstantin.Common.{
  ℕ, zero, suc, String, ◌≡◌, ◌≢◌, ◌↔◌, inl, inr, refl, Bool, true, ◌||◌, Option, none, some, List,
  [], ◌∷◌, arith, eq_iff, if◌then◌else◌, Bool-cases, ◌==◌, nat_eq, string_eq, contains, Distinct,
}

-- The names for "nobody is logged in".
unfoldable pub is_nobody : String → Bool
is_nobody name = name == "" || name == "loginwindow"

unfoldable pub console_users : Option String → List String
unfolding is_nobody
console_users none = []
console_users (some name) = if is_nobody name then [] else name ∷ []

pub console_users-Distinct : (name : Option String) → Distinct (console_users name)
unfolding console_users contains
console_users-Distinct none = tt
console_users-Distinct (some name) = elim (Bool-cases (is_nobody name)) [
  | inl e ↦ rw e tt
  | inr e ↦ rw e (refl, tt)
]

-- At most one user is ever active, and it is the one that the system reports: a name is active
-- exactly when the system reports it and it is neither empty nor the login window's.
pub contains-console_users :
    (name : Option String) (user : String)
    → (contains (console_users name) user ≡ true)
      ↔ ((name ≡ some user) × (user ≢ "") × (user ≢ "loginwindow"))
unfolding console_users contains
contains-console_users none user = ground arith
contains-console_users (some name) user =
    ground (arith, eq_iff name user, eq_iff name "", eq_iff name "loginwindow")

-- The calls of SystemConfiguration and CoreFoundation; a string is a handle, none the null pointer.
-- A copy that succeeds is a text, or bytes that are not UTF-8.
pub record ConsoleCalls (W : Type 0) : Type 0 where
  pub copy_console_user : W → Option ℕ × W
  pub get_length : ℕ → W → ℤ
  pub maximum_size : ℤ → ℤ
  pub get_cstring : ℕ → ℤ → W → Option (Option String)
  pub release : ℕ → W → W

abbrev pub transcoded : Option (Option String) → Option String
transcoded none = none
transcoded (some text) = text

-- The first argument is the length, the second the size that the encoding may take; the copy gets a
-- buffer with one byte more.
abbrev pub with_sizes : ℤ → ℤ → (ℤ → Option (Option String)) → Option String
with_sizes (pos zero) max copy = some ""
with_sizes length (pos (suc n)) copy = transcoded (copy (pos (suc (suc n))))
with_sizes length max copy = none

module _ {W : Type 0} (calls : ConsoleCalls W) where
  unfoldable pub cfstring_to_owned : ℕ → W → Option String
  cfstring_to_owned cf w =
      with_sizes (calls.get_length cf w) (calls.maximum_size (calls.get_length cf w))
        (λ capacity. calls.get_cstring cf capacity w)

  abbrev pub owned_name : Option ℕ × W → Option String × W
  owned_name (none, w) = (none, w)
  owned_name (some cf, w) = (cfstring_to_owned cf w, calls.release cf w)

  unfoldable pub copy_console_user_name : W → Option String × W
  unfolding cfstring_to_owned
  copy_console_user_name w = owned_name (calls.copy_console_user w)
