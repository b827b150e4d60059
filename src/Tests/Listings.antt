-- ===== src/Tests/Listings.antt =====
-- The settings window's users.
use konstantin.Common.{
  String, refl, true, false, Option, none, some, List, [], ◌∷◌, if◌then◌else◌, ◌==◌, nat_eq,
  string_eq, contains,
}
use konstantin.Common.Outcome.{Result, ok}
use konstantin.Common.Int.{ℤ, pos}
use konstantin.Daemon.Control.Auth.{Output}
use konstantin.Tray.Users.{LocalUser, UserAttributes, enumerate}
use konstantin.Tray.Users.Entries.{OnLine}
use konstantin.Tray.Users.Ordered.{IsOrdered}
use konstantin.Tray.Users.Listed.{IsShown, enumerate_iff}
use konstantin.Common.{◌≡◌, ◌↔◌, ℕ, ◌++◌}
use konstantin.Common.Words.{lines, split_whitespace, trim_start, strip_prefix}
use konstantin.Daemon.Control.Auth.Members.{header}
use mathlib.Core.List.{Memᴰ}

abbrev parse : String → Option ℤ
parse text = if text == "501" then some (pos 501) else none

abbrev attributes : String → Result UserAttributes
attributes name = ok (record { home = none; picture = none })

abbrev bob_and_alice : List LocalUser
bob_and_alice =
    record { username = "alice"; uid = 501; home = "/Users/alice"; is_admin = true; picture = none }
    ∷ record { username = "bob"; uid = 501; home = "/Users/bob"; is_admin = false; picture = none }
    ∷ []

abbrev listing : Output
listing = record { success = true; stdout = "bob 501\nalice 501\nroot 0\n"; stderr = "" }

abbrev group : Output
group = record { success = true; stdout = "GroupMembership: alice\n"; stderr = "" }

group_lines : lines group.stdout ≡ "GroupMembership: alice" ∷ []
unfolding lines
group_lines = refl

group_header : header "GroupMembership: alice" ≡ some " alice"
unfolding trim_start strip_prefix
group_header = refl

enumerate_iff_example :
    (users : List LocalUser) × (enumerate parse (λ path. true) attributes (ok listing) (ok group)
      ≡ ok users)
    × IsOrdered users
    × ((u : LocalUser)
        → Memᴰ u users ↔ (
            (name : String) × (uid : ℕ) × OnLine parse (lines listing.stdout) name uid
            × IsShown (λ path. true) attributes (split_whitespace " alice" ++ []) name uid u))
enumerate_iff_example =
    enumerate_iff parse (λ path. true) attributes listing group [] "GroupMembership: alice" " alice"
      [] refl refl group_lines tt group_header tt

-- What the theorem's users are at this input.
enumerate_test :
    enumerate parse (λ path. true) attributes (ok listing) (ok group) ≡ ok bob_and_alice
unfolding enumerate contains
enumerate_test = refl
