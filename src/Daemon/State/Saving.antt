-- ===== src/Daemon/State/Saving.antt =====
-- The state file: `save_atomic` and `load` of crates/daemon/src/state.rs.
use Prim.Native.String.{◌++◌ as str_append, count}
use text.Mathlib.TextLemmas.{length-append as count-append}
use konstantin.Common.{
  String, ◌≡◌, ◌≢◌, ◌⊎◌, inl, inr, sym, ap, ◌∙◌, not, ◌&&◌, Option, none, some, [], arith,
  Bool-cases, ◌==◌, nat_eq, string_eq,
}
use konstantin.Common.Outcome.{Failure, Result, ok, err, Result-cases}
use konstantin.Common.Action.{lift, ◌>>◌, >>=-cases, >>-cases}
use mathlib.Core.Path.{subst}
use konstantin.Common.Files.{Files, FileLaws, Paths}
use konstantin.Daemon.State.{
  State, Stored, StateCodec, stored, restored, load, prepare_parent, save_atomic,
}

tmp_ne : (path : String) → str_append path ".tmp" ≢ path
tmp_ne path e = absurd (omega (arith, ap count e, count-append path ".tmp"))

module _ {Fs : Type 0} {files : Files Fs} (laws : FileLaws files) (paths : Paths)
    (codec : StateCodec) where
  -- What stands in the file after a save: the new text if the save succeeded, else the old one.
  abbrev pub OldOrNew : String → String → State → Result (Unit {0}) × Fs → Type 0
  OldOrNew path old s (ok _, fs) =
      (body : String) × (codec.to_vec_pretty (stored s) ≡ ok body)
      × (files.read_to_string fs path ≡ ok body)
  OldOrNew path old s (err e, fs) = files.read_to_string fs path ≡ ok old

  read-prepare_parent :
      (parent : Option String) (path old : String) (fs : Fs)
      → files.read_to_string fs path ≡ ok old
      → files.read_to_string (prepare_parent files paths codec parent fs).1 path ≡ ok old
  unfolding prepare_parent
  read-prepare_parent none path old fs h = h
  read-prepare_parent (some dir) path old fs h =
      elim (Bool-cases (not (dir == "") && not (files.path_exists fs dir))) [
        | inl make ↦ rw make (
            >>-cases (λ r. files.read_to_string r.1 path ≡ ok old) (files.create_dir_all dir)
              (files.set_mode dir 0o700) fs
              (λ _.
                laws.read-set_mode dir path 0o700 _ ∙ laws.read-create_dir_all dir path old fs h)
              (λ e _. laws.read-create_dir_all dir path old fs h))
        | inr there ↦ rw there h
      ]

  -- The last two steps, once the directory stands and the body is there.
  finish_save :
      (s : State) (path old body : String) (fs : Fs)
      → codec.to_vec_pretty (stored s) ≡ ok body
      → files.read_to_string fs path ≡ ok old
      → OldOrNew path old s (
          (files.write (str_append path ".tmp") body >> files.rename (str_append path ".tmp") path)
            fs)
  finish_save s path old body fs encoded h =
      let tmp : String = str_append path ".tmp" in
      let kept : files.read_to_string (files.write tmp body fs).1 path ≡ ok old =
        laws.read-write_ne tmp body path fs (tmp_ne path) ∙ h in
      >>-cases (OldOrNew path old s) (files.write tmp body) (files.rename tmp path) fs
        (λ written.
          renamed tmp (files.write tmp body fs).1 kept (laws.read-write tmp body fs written)
            (Result-cases (files.rename tmp path (files.write tmp body fs).1).0))
        (λ e _. kept)
    where
      renamed :
          (tmp : String) (w : Fs)
          → files.read_to_string w path ≡ ok old
          → files.read_to_string w tmp ≡ ok body
          → ((a : Unit {0}) × ((files.rename tmp path w).0 ≡ ok a))
            ⊎ ((e : Failure) × ((files.rename tmp path w).0 ≡ err e))
          → OldOrNew path old s (files.rename tmp path w)
      renamed tmp w kept new (inl (tt, e)) =
          subst (λ r. OldOrNew path old s (r, (files.rename tmp path w).1)) (sym e)
            (body, encoded, laws.read-rename tmp path w e ∙ new)
      renamed tmp w kept new (inr (f, e)) =
          subst (λ r. OldOrNew path old s (r, (files.rename tmp path w).1)) (sym e)
            (laws.rename_err tmp path path w f e ∙ kept)

  -- Whichever step of a save fails, the state file still holds its old text; a save that succeeds
  -- leaves the encoding of the new state in it.
  pub save_atomic_all_or_nothing :
      (s : State) (path old : String) (fs : Fs)
      → files.read_to_string fs path ≡ ok old
      → OldOrNew path old s (save_atomic files paths codec s path fs)
  unfolding save_atomic
  save_atomic_all_or_nothing s path old fs h =
      >>-cases (OldOrNew path old s) (prepare_parent files paths codec (paths.parent path)) _ fs
        (λ _.
          >>=-cases (OldOrNew path old s) (lift (codec.to_vec_pretty (stored s))) _ _
            (λ body encoded. finish_save s path old body _ encoded prepared) (λ e _. prepared))
        (λ e _. prepared)
    where
      prepared :
          files.read_to_string (prepare_parent files paths codec (paths.parent path) fs).1 path
          ≡ ok old
      prepared = read-prepare_parent (paths.parent path) path old fs h

  restored-load :
      (path body : String) (x : Stored) (fs : Fs)
      → files.read_to_string fs path ≡ ok body
      → codec.to_vec_pretty x ≡ ok body
      → load files paths codec fs path ≡ restored (ok x)
  unfolding load
  restored-load path body x fs r e = rw (r, codec.decodes x body e)

  -- A daemon that starts after a save that succeeded reads back the day and every counter, and takes
  -- nobody to be logged in.
  pub load-save_atomic :
      (s : State) (path old : String) (fs : Fs)
      → files.read_to_string fs path ≡ ok old
      → (save_atomic files paths codec s path fs).0 ≡ ok tt
      → load files paths codec (save_atomic files paths codec s path fs).1 path
        ≡ record s { active_now = [] }
  load-save_atomic s path old fs h saved =
      reload _ saved (save_atomic_all_or_nothing s path old fs h)
    where
      reload :
          (r : Result (Unit {0}) × Fs)
          → r.0 ≡ ok tt
          → OldOrNew path old s r
          → load files paths codec r.1 path ≡ record s { active_now = [] }
      reload (ok _, w) e (body, encoded, there) = restored-load path body (stored s) w there encoded
      reload (err f, w) e h = cc
