-- ===== src/Tray/Users/Entries.antt =====
-- What `parse_list_users` of crates/tray/src/users.rs takes from a line.
use mathlib.Core.List.Memᴰ
use mathlib.Core.List.{Memᴰ}
use konstantin.Common.{
  ℕ, String, ◌<◌, ◌≡◌, ◌↔◌, inl, inr, refl, sym, ap, ◌∙◌, Option, none, some, List, [], ◌∷◌, arith,
  ltb, Bool-cases, nat_eq, string_eq, u32_mod,
}
use konstantin.Common.Int.{ℤ, pos, negsuc}
use konstantin.Common.Words.{split_whitespace, trim}
use konstantin.Tray.Users.{entry_of, entry_of_words, list_entries}
use konstantin.Common.Membership.{cons_iff, single_iff, append_iff}

-- A line of the listing that begins with the name and the uid.
abbrev pub OnLine : (String → Option ℤ) → List String → String → ℕ → Type 0
OnLine parse ls name uid =
    (line : String) × Memᴰ line ls
    × ((uid_str : String) × (rest : List String) × (split_whitespace (trim line)
          ≡ name ∷ uid_str ∷ rest)
        × (parse uid_str ≡ some (pos uid))
        × (uid < u32_mod))

entry_iff :
    (name0 : String) (r : Option ℤ) (name : String) (uid : ℕ)
    → Memᴰ (name, uid) (entry_of name0 r)
      ↔ ((name0 ≡ name) × (r ≡ some (pos uid)) × (uid < u32_mod))
entry_iff name0 none name uid = ((λ m. absurd (Memᴰ.not-nil m)), λ h. absurd (ground (arith, h)))
entry_iff name0 (some (negsuc n)) name uid =
    ((λ m. absurd (Memᴰ.not-nil m)), λ h. absurd (ground (arith, h)))
entry_iff name0 (some (pos n)) name uid = elim (Bool-cases (ltb n u32_mod)) [
  | inl fits ↦ rw fits (
    (λ m.
        let same = (single_iff (name, uid) (name0, n)).0 m in
        let numbers : uid ≡ n = ap (λ q. q.1) same in
        (
          ap (λ q. q.0) (sym same),
          ap (λ k. some (pos k)) (sym numbers),
          ground (arith, numbers, fits),
        )),
    λ h. Memᴰ.head (ground (arith, h)),
  )
  | inr large ↦ rw large ((λ m. absurd (Memᴰ.not-nil m)), λ h. absurd (ground (arith, h, large)))
]

words_iff :
    (parse : String → Option ℤ) (ws : List String) (name : String) (uid : ℕ)
    → Memᴰ (name, uid) (entry_of_words parse ws) ↔ (
        (uid_str : String) × (rest : List String) × (ws ≡ name ∷ uid_str ∷ rest)
        × (parse uid_str ≡ some (pos uid))
        × (uid < u32_mod))
words_iff parse [] name uid =
    ((λ m. absurd (Memᴰ.not-nil m)), λ (x, rest, e, p, k). absurd (ground (arith, e)))
words_iff parse (w ∷ []) name uid =
    ((λ m. absurd (Memᴰ.not-nil m)), λ (x, rest, e, p, k). absurd (ground (arith, e)))
words_iff parse (w ∷ x ∷ ws) name uid =
    let entry = entry_iff w (parse x) name uid in
    (
      (λ m. let h = entry.0 m in (x, ws, rw h.0, h.1, h.2)),
      λ (y, rest, e, p, k).
          let uids : x ≡ y = ground (arith, e) in entry.1 (ground (arith, e), ap parse uids ∙ p, k),
    )

pub entries_iff :
    (parse : String → Option ℤ) (ls : List String) (name : String) (uid : ℕ)
    → Memᴰ (name, uid) (list_entries parse ls) ↔ OnLine parse ls name uid
entries_iff parse [] name uid =
    ((λ m. absurd (Memᴰ.not-nil m)), λ (line, m, h). absurd (Memᴰ.not-nil m))
entries_iff parse (l ∷ ls) name uid =
    let both =
      append_iff (name, uid) (entry_of_words parse (split_whitespace (trim l)))
        (list_entries parse ls) in
    let words = words_iff parse (split_whitespace (trim l)) name uid in
    let ih = entries_iff parse ls name uid in
    (
      (λ m. elim (both.0 m) [
        | inl n ↦ (l, Memᴰ.head refl, words.0 n)
        | inr n ↦ let (line, there, h) = ih.0 n in (line, Memᴰ.tail there, h)
      ]),
      λ (line, m, (x, rest, e, p, k)). elim ((cons_iff line l ls).0 m) [
        | inl same ↦
            both.1
              (inl (words.1 (x, rest, ap (λ t. split_whitespace (trim t)) (sym same) ∙ e, p, k)))
        | inr there ↦ both.1 (inr (ih.1 (line, there, (x, rest, e, p, k))))
      ],
    )
