-- ===== src/Tray/Users/Ordered.antt =====
-- The sorting in `enumerate` of crates/tray/src/users.rs: the order of its users, and that it keeps
-- them.
use mathlib.Core.List.{Memᴰ}
use konstantin.Common.{
  String, ◌≡◌, ◌↔◌, ◌⊎◌, inl, inr, refl, true, false, List, [], ◌∷◌, arith, Bool-cases, nat_eq,
  string_eq,
}
use konstantin.Tray.Users.{LocalUser, str_leb, insert_user, sort_users}
use konstantin.Common.Membership.{cons_iff}

-- Each name stands before the next.
abbrev pub FromName : LocalUser → List LocalUser → Type 0
FromName u [] = Unit {0}
FromName u (v ∷ vs) = (str_leb u.username v.username ≡ true) × FromName v vs

abbrev pub IsOrdered : List LocalUser → Type 0
IsOrdered [] = Unit {0}
IsOrdered (u ∷ us) = FromName u us

str_leb_total : (s t : String) → str_leb s t ≡ false → str_leb t s ≡ true
unfolding str_leb
str_leb_total String.[] t h = cc
str_leb_total (String.◌∷◌ c s) String.[] h = refl
str_leb_total (String.◌∷◌ c s) (String.◌∷◌ d t) h = ground (arith, h, str_leb_total s t)

FromName-insert_user :
    (w u : LocalUser) (us : List LocalUser)
    → str_leb w.username u.username ≡ true
    → FromName w us
    → FromName w (insert_user u us)
unfolding insert_user
FromName-insert_user w u [] h k = (h, tt)
FromName-insert_user w u (v ∷ vs) h k = elim (Bool-cases (str_leb u.username v.username)) [
  | inl first ↦ rw first (h, (first, k.1))
  | inr later ↦
      rw later (k.0, FromName-insert_user v u vs (str_leb_total u.username v.username later) k.1)
]

IsOrdered-insert_user :
    (u : LocalUser) (us : List LocalUser) → IsOrdered us → IsOrdered (insert_user u us)
unfolding insert_user
IsOrdered-insert_user u [] k = tt
IsOrdered-insert_user u (v ∷ vs) k = elim (Bool-cases (str_leb u.username v.username)) [
  | inl first ↦ rw first (first, k)
  | inr later ↦ rw later (FromName-insert_user v u vs (str_leb_total u.username v.username later) k)
]

pub IsOrdered-sort_users : (us : List LocalUser) → IsOrdered (sort_users us)
unfolding sort_users
IsOrdered-sort_users [] = tt
IsOrdered-sort_users (u ∷ us) = IsOrdered-insert_user u (sort_users us) (IsOrdered-sort_users us)

insert_iff :
    (u v : LocalUser) (us : List LocalUser) → Memᴰ u (insert_user v us) ↔ ((u ≡ v) ⊎ Memᴰ u us)
unfolding insert_user
insert_iff u v [] = cons_iff u v []
insert_iff u v (x ∷ xs) =
    let here = cons_iff u v (x ∷ xs) in
    let there = cons_iff u x xs in
    let moved = cons_iff u x (insert_user v xs) in
    let ih = insert_iff u v xs in
    elim (Bool-cases (str_leb v.username x.username)) [
      | inl first ↦ rw first here
      | inr later ↦ rw later (
        (λ m. elim (moved.0 m) [
          | inl e ↦ inr (Memᴰ.head e)
          | inr n ↦ elim (ih.0 n) [ inl e ↦ inl e | inr k ↦ inr (Memᴰ.tail k) ]
        ]),
        λ m. elim m [
          | inl e ↦ Memᴰ.tail (ih.1 (inl e))
          | inr n ↦ elim (there.0 n) [ inl e ↦ Memᴰ.head e | inr k ↦ Memᴰ.tail (ih.1 (inr k)) ]
        ],
      )
    ]

pub sort_iff : (u : LocalUser) (us : List LocalUser) → Memᴰ u (sort_users us) ↔ Memᴰ u us
unfolding sort_users
sort_iff u [] = ((λ m. m), λ m. m)
sort_iff u (v ∷ vs) =
    let put = insert_iff u v (sort_users vs) in
    let ih = sort_iff u vs in
    (
      (λ m. elim (put.0 m) [ inl e ↦ Memᴰ.head e | inr n ↦ Memᴰ.tail (ih.0 n) ]),
      λ m. elim ((cons_iff u v vs).0 m) [ inl e ↦ put.1 (inl e) | inr n ↦ put.1 (inr (ih.1 n)) ],
    )
