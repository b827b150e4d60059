-- ===== src/Common/Disk.antt =====
-- A file system that runs: a table of files with their texts and modes, in which no call runs out
-- of space. It meets the laws of Files, and the tests use it.
use Prim.Native.String.{◌++◌}
use text.Mathlib.Text.{starts_with}
use konstantin.Common.{
  ℕ, String, ◌≡◌, ◌≢◌, refl, Bool, true, false, Option, none, some, [], ◌∷◌, Map, lookup, insert,
  ◌==◌, if◌then◌else◌, string_eq, lookup-insert, lookup-insert_self, lookup-insert_ne, arith,
  eq_iff, Bool-cases, inl, inr,
}
use konstantin.Common.Outcome.{Failure, Result, ok, err, io, not_found}
use konstantin.Common.Action.{Action}
use konstantin.Common.Files.{Files, FileLaws, Paths}

pub record Node : Type 0 where
  pub text : String
  pub bits : ℕ

abbrev pub Disk : Type 0
Disk = Map String Node

unfoldable pub without : String → Disk → Disk
without p [] = []
without p ((q, n) ∷ rest) = let kept = without p rest in if q == p then kept else (q, n) ∷ kept

lookup-without_self : (p : String) (d : Disk) → lookup p (without p d) ≡ none
unfolding without lookup
lookup-without_self p [] = refl
lookup-without_self p ((q, n) ∷ rest) = ground (arith, lookup-without_self p rest)

lookup-without_ne : (p q : String) (d : Disk) → p ≢ q → lookup q (without p d) ≡ lookup q d
unfolding without lookup
lookup-without_ne p q [] h = refl
lookup-without_ne p q ((r, n) ∷ rest) h =
    ground (arith, eq_iff r p, eq_iff r q, lookup-without_ne p q rest h)

abbrev text_of : Option Node → Result String
text_of none = err (io not_found)
text_of (some n) = ok n.text

abbrev is_there : Option Node → Bool
is_there none = false
is_there (some n) = true

abbrev bits_of : Option Node → Option ℕ
bits_of none = none
bits_of (some n) = some n.bits

abbrev save : String → String → Action Disk (Unit {0})
save p t d = (ok tt, insert p (record { text = t; bits = 420 }) d)

abbrev move_node : Option Node → String → String → Action Disk (Unit {0})
move_node none a b d = (err (io not_found), d)
move_node (some n) a b d = (ok tt, insert b n (if a == b then d else without a d))

abbrev delete_node : Option Node → String → Action Disk (Unit {0})
delete_node none p d = (err (io not_found), d)
delete_node (some n) p d = (ok tt, without p d)

abbrev mark_node : Option Node → String → ℕ → Action Disk (Unit {0})
mark_node none p m d = (err (io not_found), d)
mark_node (some n) p m d = (ok tt, insert p (record n { bits = m }) d)

abbrev pub disk_files : Files Disk
disk_files = record {
  read_to_string = λ d p. text_of (lookup p d);
  path_exists = λ d p. is_there (lookup p d);
  mode = λ d p. bits_of (lookup p d);
  write = save;
  rename = λ a b d. move_node (lookup a d) a b d;
  remove_file = λ p d. delete_node (lookup p d) p d;
  remove_dir_all = λ p d. delete_node (lookup p d) p d;
  create_dir_all = λ p d. (ok tt, d);
  set_mode = λ p m d. mark_node (lookup p d) p m d;
}

read-move :
    (o : Option Node) (a b : String) (d : Disk)
    → lookup a d ≡ o
    → (move_node o a b d).0 ≡ ok tt
    → text_of (lookup b (move_node o a b d).1) ≡ text_of (lookup a d)
read-move none a b d e h = cc
read-move (some n) a b d e h = rw (lookup-insert_self b n (if a == b then d else without a d), e)

exists-move :
    (o : Option Node) (a b : String) (d : Disk)
    → (move_node o a b d).0 ≡ ok tt
    → is_there (lookup b (move_node o a b d).1) ≡ true
exists-move none a b d h = cc
exists-move (some n) a b d h = rw (lookup-insert_self b n (if a == b then d else without a d))

move_err :
    (o : Option Node) (a b q : String) (d : Disk) (e : Failure)
    → (move_node o a b d).0 ≡ err e
    → text_of (lookup q (move_node o a b d).1) ≡ text_of (lookup q d)
move_err none a b q d e h = refl
move_err (some n) a b q d e h = cc

read-mark :
    (o : Option Node) (p q : String) (m : ℕ) (d : Disk)
    → lookup p d ≡ o
    → text_of (lookup q (mark_node o p m d).1) ≡ text_of (lookup q d)
read-mark none p q m d e = refl
read-mark (some n) p q m d e = elim (Bool-cases (p == q)) [
  | inl t ↦ rw (lookup-insert p q (record n { bits = m }) d, t, ← (eq_iff p q).0 t, e)
  | inr f ↦ rw (lookup-insert p q (record n { bits = m }) d, f)
]

exists-mark :
    (o : Option Node) (p q : String) (m : ℕ) (d : Disk)
    → lookup p d ≡ o
    → is_there (lookup q (mark_node o p m d).1) ≡ is_there (lookup q d)
exists-mark none p q m d e = refl
exists-mark (some n) p q m d e = elim (Bool-cases (p == q)) [
  | inl t ↦ rw (lookup-insert p q (record n { bits = m }) d, t, ← (eq_iff p q).0 t, e)
  | inr f ↦ rw (lookup-insert p q (record n { bits = m }) d, f)
]

bits-mark :
    (o : Option Node) (p : String) (m : ℕ) (d : Disk)
    → (mark_node o p m d).0 ≡ ok tt
    → bits_of (lookup p (mark_node o p m d).1) ≡ some m
bits-mark none p m d h = cc
bits-mark (some n) p m d h = rw (lookup-insert_self p (record n { bits = m }) d)

exists-delete :
    (o : Option Node) (p : String) (d : Disk)
    → (delete_node o p d).0 ≡ ok tt
    → is_there (lookup p (delete_node o p d).1) ≡ false
exists-delete none p d h = cc
exists-delete (some n) p d h = rw (lookup-without_self p d)

delete_missing :
    (o : Option Node) (p : String) (d : Disk)
    → lookup p d ≡ o
    → (delete_node o p d).0 ≡ err (io not_found)
    → is_there (lookup p (delete_node o p d).1) ≡ false
delete_missing none p d e h = rw e
delete_missing (some n) p d e h = cc

pub disk_laws : FileLaws disk_files
disk_laws = record {
  read-write = λ p t fs h. rw (lookup-insert_self p (record { text = t; bits = 420 }) fs);
  read-write_ne = λ p t q fs h. rw (lookup-insert_ne p q (record { text = t; bits = 420 }) fs h);
  read-rename = λ a b fs h. read-move (lookup a fs) a b fs refl h;
  rename_err = λ a b q fs e h. move_err (lookup a fs) a b q fs e h;
  read-create_dir_all = λ d q t fs h. h;
  read-set_mode = λ p q m fs. read-mark (lookup p fs) p q m fs refl;
  mode-set_mode = λ p m fs h. bits-mark (lookup p fs) p m fs h;
  path_exists-rename = λ a b fs h. exists-move (lookup a fs) a b fs h;
  path_exists-set_mode = λ p q m fs. exists-mark (lookup p fs) p q m fs refl;
  path_exists-remove_file = λ p fs h. exists-delete (lookup p fs) p fs h;
  remove_file_missing = λ p fs h. delete_missing (lookup p fs) p fs refl h;
}

-- Paths of the tests: the parent of a path is the root, and an extension is put behind.
abbrev pub flat_paths : Paths
flat_paths = record {
  parent = λ p. some "/";
  is_absolute = λ p. starts_with p "/";
  extension = λ p. none;
  with_extension = λ p e. p ++ "." ++ e;
}
