-- ===== src/Tray/Users/Members.antt =====
-- The administrators that the settings window finds, against those that the daemon finds:
-- `parse_admin_members` of crates/tray/src/users.rs and of crates/daemon/src/control/auth.rs.
use konstantin.Common.{
  String, ◌≡◌, refl, true, false, none, some, List, [], ◌∷◌, ◌++◌, nat_eq, string_eq,
}
use konstantin.Common.Words.{split_whitespace}
use konstantin.Daemon.Control.Auth.Members.{header, AllPreamble}
use konstantin.Tray.Users.{collect_members}

abbrev pub AllUntitled : List String → Type 0
AllUntitled [] = Unit {0}
AllUntitled (l ∷ ls) = (header l ≡ none) × AllUntitled ls

abbrev pub raw_words : List String → List String
raw_words [] = []
raw_words (l ∷ ls) = split_whitespace l ++ raw_words ls

section_words : (ls : List String) → AllUntitled ls → collect_members true ls ≡ raw_words ls
unfolding collect_members
section_words [] h = refl
section_words (l ∷ ls) h = rw (h.0, section_words ls h.1)

-- The window takes every word behind the header for an administrator, to the end of the output: the
-- words of an attribute that follows the section as well, which the daemon leaves out.
pub collect_members-raw_words :
    (before : List String) (first names : String) (after : List String)
    → AllPreamble before
    → header first ≡ some names
    → AllUntitled after
    → collect_members false (before ++ first ∷ after) ≡ split_whitespace names ++ raw_words after
unfolding collect_members
collect_members-raw_words [] first names after p f h = rw (f, section_words after h)
collect_members-raw_words (l ∷ ls) first names after p f h =
    rw p.0 (collect_members-raw_words ls first names after p.1 f h)
