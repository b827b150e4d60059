-- ===== src/Tray/Users/Listed.antt =====
-- Whom the settings window lists: `enumerate` of crates/tray/src/users.rs.
use Prim.Native.String.{◌++◌ as str_append}
use mathlib.Core.List.Memᴰ
use mathlib.Core.List.{Memᴰ}
use mathlib.Core.Path.{subst}
use konstantin.Common.{
  ℕ, String, ◌≡◌, ◌↔◌, inl, inr, refl, Bool, true, Option, some, List, [], ◌∷◌, ◌++◌, arith,
  Bool-cases, nat_eq, string_eq, unwrap_or, contains,
}
use konstantin.Common.Outcome.{Result, ok, Result-cases}
use konstantin.Common.Int.{ℤ}
use konstantin.Common.Words.{lines, split_whitespace}
use konstantin.Daemon.Control.Auth.{Output}
use konstantin.Daemon.Control.Auth.Members.{header, AllPreamble}
use konstantin.Tray.Users.Members.{AllUntitled, raw_words, collect_members-raw_words}
use konstantin.Tray.Users.Ordered.{IsOrdered, IsOrdered-sort_users, sort_iff}
use konstantin.Tray.Users.{
  LocalUser, UserAttributes, list_entries, parse_list_users, is_real_user, list_users,
  parse_admin_members, read_admin_members, sort_users, candidate, collect_users, or_no_admins,
  enumerate,
}
use konstantin.Common.Membership.{cons_iff, single_iff, append_iff}
use konstantin.Tray.Users.Entries.{OnLine, entries_iff}
use konstantin.Tray.Users.Persons.{IsPerson, real_iff}

module _ (is_dir : String → Bool) (attributes : String → Result UserAttributes)
    (admins : List String) where
  -- The user that the window shows for a name and a uid: a person with a home directory under
  -- `/Users` and with attributes that can be read.
  abbrev pub IsShown : String → ℕ → LocalUser → Type 0
  IsShown name uid u =
      IsPerson name uid
      × (is_dir (str_append "/Users/" name) ≡ true)
      × ((attrs : UserAttributes) × (attributes name ≡ ok attrs)
          × (u ≡ record {
            username = name;
            uid = uid;
            home = unwrap_or (str_append "/Users/" name) attrs.home;
            is_admin = contains admins name;
            picture = attrs.picture;
          }))

  candidate_iff :
      (name : String) (uid : ℕ) (u : LocalUser)
      → Memᴰ u (candidate is_dir attributes admins name uid) ↔ IsShown name uid u
  unfolding candidate
  candidate_iff name uid u =
      let real = real_iff name uid in
      elim (Bool-cases (is_real_user name uid)) [
        | inl person ↦ elim (Bool-cases (is_dir (str_append "/Users/" name))) [
          | inl there ↦ elim (Result-cases (attributes name)) [
            | inl (attrs, read) ↦
                rw (person, there, read)
                  (
                    (λ m. (real.0 person, refl, (attrs, refl, (single_iff u _).0 m))),
                    λ (p, d, (other, e, same)). Memᴰ.head (ground (arith, e, same)),
                  )
            | inr (f, failed) ↦
                rw (person, there, failed)
                  (
                    (λ m. absurd (Memᴰ.not-nil m)),
                    λ (p, d, (other, e, same)). absurd (ground (arith, e)),
                  )
          ]
          | inr gone ↦
              rw (person, gone)
                (
                  (λ m. absurd (Memᴰ.not-nil m)),
                  λ (p, d, (other, e, same)). absurd (ground (arith, d)),
                )
        ]
        | inr odd ↦ rw odd (
          (λ m. absurd (Memᴰ.not-nil m)),
          λ (p, d, (other, e, same)). let yes = real.1 p in absurd (ground (arith, yes, odd)),
        )
      ]

  collect_iff :
      (entries : List (String × ℕ)) (u : LocalUser)
      → Memᴰ u (collect_users is_dir attributes admins entries)
        ↔ ((name : String) × (uid : ℕ) × Memᴰ (name, uid) entries × IsShown name uid u)
  unfolding collect_users
  collect_iff [] u =
      ((λ m. absurd (Memᴰ.not-nil m)), λ (name, uid, m, shown). absurd (Memᴰ.not-nil m))
  collect_iff ((name0, uid0) ∷ rest) u =
      let both =
        append_iff u (candidate is_dir attributes admins name0 uid0)
          (collect_users is_dir attributes admins rest) in
      let here = candidate_iff name0 uid0 u in
      let ih = collect_iff rest u in
      (
        (λ m. elim (both.0 m) [
          | inl n ↦ (name0, uid0, Memᴰ.head refl, here.0 n)
          | inr n ↦ let (name, uid, there, shown) = ih.0 n in (name, uid, Memᴰ.tail there, shown)
        ]),
        λ (name, uid, m, shown). elim ((cons_iff (name, uid) (name0, uid0) rest).0 m) [
          | inl same ↦ both.1 (inl (here.1 (subst (λ q. IsShown q.0 q.1 u) same shown)))
          | inr there ↦ both.1 (inr (ih.1 (name, uid, there, shown)))
        ],
      )

  -- The users listed, once the listing is read.
  listed_iff :
      (entries : List (String × ℕ)) (u : LocalUser)
      → Memᴰ u (sort_users (collect_users is_dir attributes admins entries))
        ↔ ((name : String) × (uid : ℕ) × Memᴰ (name, uid) entries × IsShown name uid u)
  listed_iff entries u =
      let sorted = sort_iff u (collect_users is_dir attributes admins entries) in
      let collected = collect_iff entries u in
      ((λ m. collected.0 (sorted.0 m)), λ h. sorted.1 (collected.1 h))

entries_of :
    (parse : String → Option ℤ) (listing : Output)
    → listing.success ≡ true
    → list_users parse (ok listing) ≡ ok (list_entries parse (lines listing.stdout))
unfolding list_users parse_list_users
entries_of parse listing worked = rw worked

administrators :
    (group : Output) (before : List String) (first names : String) (after : List String)
    → group.success ≡ true
    → lines group.stdout ≡ before ++ first ∷ after
    → AllPreamble before
    → header first ≡ some names
    → AllUntitled after
    → or_no_admins (read_admin_members (ok group)) ≡ split_whitespace names ++ raw_words after
unfolding read_admin_members parse_admin_members
administrators group before first names after worked split preamble starts untitled =
    rw (worked, split, collect_members-raw_words before first names after preamble starts untitled)

-- Let both queries of `dscl` succeed, and let the answer about the admin group have a header line,
-- none before it and none behind it. Then `enumerate` succeeds, its users come in the order of their
-- names, and they are exactly the users that stand on a line of the listing with a uid of at least
-- 500 and a name that begins with no underscore and is none of the five reserved ones, and that have
-- a directory under `/Users` and attributes that can be read. Each has its name, its uid, the picture
-- of its attributes, their home or else that directory, and is marked as an administrator exactly if
-- the name is a word behind the header, to the end of the answer.
pub enumerate_iff :
    (parse : String → Option ℤ) (is_dir : String → Bool)
    (attributes : String → Result UserAttributes) (listing group : Output) (before : List String)
    (first names : String) (after : List String)
    → listing.success ≡ true
    → group.success ≡ true
    → lines group.stdout ≡ before ++ first ∷ after
    → AllPreamble before
    → header first ≡ some names
    → AllUntitled after
    → (users : List LocalUser) × (enumerate parse is_dir attributes (ok listing) (ok group)
        ≡ ok users)
      × IsOrdered users
      × ((u : LocalUser)
          → Memᴰ u users ↔ (
              (name : String) × (uid : ℕ) × OnLine parse (lines listing.stdout) name uid
              × IsShown is_dir attributes (split_whitespace names ++ raw_words after) name uid u))
unfolding enumerate
enumerate_iff parse is_dir attributes listing group before first names after heard read split
      preamble starts untitled =
    let admins = split_whitespace names ++ raw_words after in
    let entries = list_entries parse (lines listing.stdout) in
    let known = administrators group before first names after read split preamble starts untitled in
    let found = collect_users is_dir attributes admins entries in
    (
      sort_users found,
      rw (entries_of parse listing heard, known),
      IsOrdered-sort_users found,
      λ u.
          let shown = listed_iff is_dir attributes admins entries u in
          (
            (λ m.
                let (name, uid, there, h) = shown.0 m in
                (name, uid, (entries_iff parse (lines listing.stdout) name uid).0 there, h)),
            λ (name, uid, line, h).
                shown.1 (name, uid, (entries_iff parse (lines listing.stdout) name uid).1 line, h),
          ),
    )
