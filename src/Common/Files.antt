-- ===== src/Common/Files.antt =====
-- The file system and the path functions of `std`, which the program calls and does not
-- implement: the calls, and what their documentation says of them for a process that runs as
-- root, as the daemon does.
use konstantin.Common.{ℕ, String, ◌≡◌, ◌≢◌, Bool, true, false, Option, some, string_eq}
use konstantin.Common.Outcome.{Failure, Result, ok, err, io, not_found}
use konstantin.Common.Action.{Action}

pub record Files {ℓ} (Fs : Type ℓ) : Type ℓ where
  pub read_to_string : Fs → String → Result String
  pub path_exists : Fs → String → Bool
  pub mode : Fs → String → Option ℕ
  pub write : String → String → Action Fs (Unit {0})
  pub rename : String → String → Action Fs (Unit {0})
  pub remove_file : String → Action Fs (Unit {0})
  pub remove_dir_all : String → Action Fs (Unit {0})
  pub create_dir_all : String → Action Fs (Unit {0})
  pub set_mode : String → ℕ → Action Fs (Unit {0})

-- `std::path`: functions of the text alone.
pub record Paths : Type 0 where
  pub parent : String → Option String
  pub is_absolute : String → Bool
  pub extension : String → Option String
  pub with_extension : String → String → String

-- What the calls guarantee.
pub record FileLaws {ℓ} {Fs : Type ℓ} (f : Files Fs) : Type ℓ where
  pub read-write :
      (p t : String) (fs : Fs)
      → (f.write p t fs).0 ≡ ok tt
      → f.read_to_string (f.write p t fs).1 p ≡ ok t
  pub read-write_ne :
      (p t q : String) (fs : Fs)
      → p ≢ q
      → f.read_to_string (f.write p t fs).1 q ≡ f.read_to_string fs q
  pub read-rename :
      (a b : String) (fs : Fs)
      → (f.rename a b fs).0 ≡ ok tt
      → f.read_to_string (f.rename a b fs).1 b ≡ f.read_to_string fs a
  -- A rename that fails changes nothing.
  pub rename_err :
      (a b q : String) (fs : Fs) (e : Failure)
      → (f.rename a b fs).0 ≡ err e
      → f.read_to_string (f.rename a b fs).1 q ≡ f.read_to_string fs q
  pub read-create_dir_all :
      (d q t : String) (fs : Fs)
      → f.read_to_string fs q ≡ ok t
      → f.read_to_string (f.create_dir_all d fs).1 q ≡ ok t
  -- Root reads a file whatever its mode.
  pub read-set_mode :
      (p q : String) (m : ℕ) (fs : Fs)
      → f.read_to_string (f.set_mode p m fs).1 q ≡ f.read_to_string fs q
  pub mode-set_mode :
      (p : String) (m : ℕ) (fs : Fs)
      → (f.set_mode p m fs).0 ≡ ok tt
      → f.mode (f.set_mode p m fs).1 p ≡ some m
  pub path_exists-rename :
      (a b : String) (fs : Fs)
      → (f.rename a b fs).0 ≡ ok tt
      → f.path_exists (f.rename a b fs).1 b ≡ true
  pub path_exists-set_mode :
      (p q : String) (m : ℕ) (fs : Fs) → f.path_exists (f.set_mode p m fs).1 q ≡ f.path_exists fs q
  pub path_exists-remove_file :
      (p : String) (fs : Fs)
      → (f.remove_file p fs).0 ≡ ok tt
      → f.path_exists (f.remove_file p fs).1 p ≡ false
  pub remove_file_missing :
      (p : String) (fs : Fs)
      → (f.remove_file p fs).0 ≡ err (io not_found)
      → f.path_exists (f.remove_file p fs).1 p ≡ false
