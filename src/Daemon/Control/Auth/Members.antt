-- ===== src/Daemon/Control/Auth/Members.antt =====
-- Who counts as an administrator: crates/daemon/src/control/auth.rs.
use konstantin.Common.{
  String, ◌≡◌, Bool, true, false, ◌||◌, Option, none, some, List, [], ◌∷◌, ◌++◌, ◌==◌, nat_eq,
  string_eq,
}
use konstantin.Common.Words.{split_whitespace, trim, trim_start, strip_prefix, has_char}
use konstantin.Daemon.Control.Auth.{collect_members}

-- The kinds of line in `dscl`'s answer.
abbrev pub header : String → Option String
header line = strip_prefix "GroupMembership:" (trim_start line)

-- A line that ends the section: blank, or the start of another attribute.
abbrev pub ends_section : String → Bool
ends_section line = trim line == "" || has_char b':' (trim line)

abbrev pub AllPreamble : List String → Type 0
AllPreamble [] = Unit {0}
AllPreamble (l ∷ ls) = (header l ≡ none) × AllPreamble ls

abbrev pub AllMembers : List String → Type 0
AllMembers [] = Unit {0}
AllMembers (l ∷ ls) = (header l ≡ none) × (ends_section l ≡ false) × AllMembers ls

abbrev pub words_of : List String → List String
words_of [] = []
words_of (l ∷ ls) = split_whitespace (trim l) ++ words_of ls

members_section :
    (members : List String) (stop : String) (rest : List String)
    → AllMembers members
    → header stop ≡ none
    → ends_section stop ≡ true
    → collect_members true (members ++ stop ∷ rest) ≡ words_of members
unfolding collect_members
members_section [] stop rest h n e = rw (n, e)
members_section (l ∷ ls) stop rest h n e = rw (h.0, h.1, members_section ls stop rest h.2 n e)

-- The members are the words behind the header and those of the lines up to the first line that is
-- blank or names another attribute; nothing before the header and nothing after that line, whatever
-- it says, makes anyone an administrator.
pub collect_members_lem :
    (before : List String) (first names : String) (members : List String) (stop : String)
    (rest : List String)
    → AllPreamble before
    → header first ≡ some names
    → AllMembers members
    → header stop ≡ none
    → ends_section stop ≡ true
    → collect_members false (before ++ first ∷ (members ++ stop ∷ rest))
      ≡ split_whitespace names ++ words_of members
unfolding collect_members
collect_members_lem [] first names members stop rest p f h n e =
    rw (f, members_section members stop rest h n e)
collect_members_lem (l ∷ ls) first names members stop rest p f h n e =
    rw p.0 (collect_members_lem ls first names members stop rest p.1 f h n e)
