-- ===== src/Daemon/Config/Seeding.antt =====
-- The configuration at the daemon's start: `Config::load_or_seed` of crates/daemon/src/config.rs. The
-- example configuration that the build includes is an argument.
use konstantin.Common.{
  String, ◌≡◌, inl, inr, refl, ◌∙◌, Bool, true, false, Option, none, some, if◌then◌else◌, ◌==◌,
  nat_eq, string_eq,
}
use konstantin.Common.Outcome.{
  IoKind, not_found, other_kind, Failure, io, decoding, bail, Result, ok, err, Result-cases,
}
use konstantin.Common.Outcome as O
use konstantin.Common.Action.{Action, pure, lift, reads, continue, ◌>>◌, >>-cases, outcome_cases}
use konstantin.Common.Files.{Files, FileLaws, Paths}
use konstantin.Daemon.Config.{Config, RawConfig, parse_toml}

-- The error's chain holds an operating-system error of this kind.
abbrev pub is_not_found : Failure → Bool
is_not_found (io not_found) = true
is_not_found _ = false

module _ {Fs : Type 0} (files : Files Fs) (paths : Paths) (from_str : String → Result RawConfig)
    (example : String) where
  unfoldable pub load : String → Fs → Result Config
  load path fs = O.◌>>=◌ (files.read_to_string fs path) (parse_toml from_str)

  unfoldable pub config_missing : String → Failure → Fs → Bool
  config_missing path e fs = if files.path_exists fs path then false else is_not_found e

  abbrev pub make_dir : Option String → Action Fs (Unit {0})
  make_dir none = pure tt
  make_dir (some dir) = if dir == "" then pure tt else files.create_dir_all dir

  -- `SelfCheck::parse`
  abbrev pub self_check : Result (Unit {0})
  self_check = O.◌>>=◌ (parse_toml from_str example) λ cfg. ok tt

  unfoldable pub seed_default_config : String → Action Fs (Unit {0})
  seed_default_config path = do
    lift self_check
    make_dir (paths.parent path)
    files.write path example
    files.set_mode path 0o600

  abbrev pub seed_if_missing : String → Result Config → Action Fs Config
  seed_if_missing path (ok cfg) fs = (ok cfg, fs)
  seed_if_missing path (err e) fs =
      if config_missing path e fs
      then (do seed_default_config path; reads (load path)) fs
      else (err e, fs)

  unfoldable pub load_or_seed : String → Action Fs Config
  unfolding load config_missing seed_default_config
  load_or_seed path fs = seed_if_missing path (load path fs) fs

  seed_if_missing-there :
      (path : String) (r : Result Config) (fs : Fs)
      → files.path_exists fs path ≡ true
      → seed_if_missing path r fs ≡ (r, fs)
  unfolding config_missing
  seed_if_missing-there path (ok cfg) fs h = refl
  seed_if_missing-there path (err e) fs h = rw h

  -- A configuration file that is there is loaded as it is, and no file is touched, however bad it is.
  pub load_or_seed-there :
      (path : String) (fs : Fs)
      → files.path_exists fs path ≡ true
      → load_or_seed path fs ≡ (load path fs, fs)
  unfolding load_or_seed
  load_or_seed-there path fs h = seed_if_missing-there path (load path fs) fs h

module _ {Fs : Type 0} {files : Files Fs} (laws : FileLaws files) (paths : Paths)
    (from_str : String → Result RawConfig) (example : String) where
  abbrev pub Seeded : String → Result Config × Fs → Type 0
  Seeded path (ok cfg, fs) =
      (parse_toml from_str example ≡ ok cfg)
      × (files.read_to_string fs path ≡ ok example)
      × (files.mode fs path ≡ some 0o600)
  Seeded path (err e, fs) = Unit {0}

  reloaded :
      (path : String) (fs : Fs)
      → files.read_to_string fs path ≡ ok example
      → files.mode fs path ≡ some 0o600
      → Seeded path (load files paths from_str example path fs, fs)
  unfolding load
  reloaded path fs r m = elim (Result-cases (parse_toml from_str example)) [
    | inl (cfg, e) ↦ rw (r, e) (e, r, m)
    | inr (f, e) ↦ rw (r, e) tt
  ]

  abbrev IsPlaced : String → Result (Unit {0}) × Fs → Type 0
  IsPlaced path (ok _, fs) =
      (files.read_to_string fs path ≡ ok example) × (files.mode fs path ≡ some 0o600)
  IsPlaced path (err e, fs) = Unit {0}

  seed_default_config-IsPlaced :
      (path : String) (fs : Fs)
      → IsPlaced path (seed_default_config files paths from_str example path fs)
  unfolding seed_default_config
  seed_default_config-IsPlaced path fs =
      let P = IsPlaced path in
      >>-cases P (lift (self_check files paths from_str example)) _ fs
        (λ _.
          >>-cases P (make_dir files paths from_str example (paths.parent path)) _ _
            (λ _.
              >>-cases P (files.write path example) _ _
                (λ written.
                  outcome_cases P (files.set_mode path 0o600 _)
                    (λ _ e. (
                      laws.read-set_mode path path 0o600 _ ∙ laws.read-write path example _ written,
                      laws.mode-set_mode path 0o600 _ e,
                    ))
                    (λ _ _. tt))
                (λ _ _. tt))
            (λ _ _. tt))
        (λ _ _. tt)

  placed :
      (path : String) (q : Result (Unit {0}) × Fs)
      → IsPlaced path q
      → Seeded path (continue q.0 (λ _. reads (load files paths from_str example path)) q.1)
  placed path (ok _, fs) h = reloaded path fs h.0 h.1
  placed path (err e, fs) h = tt

  -- Where no file is, a configuration that comes out is the example's, and the example stands in the
  -- file with mode 0600.
  pub load_or_seed-Seeded :
      (path : String) (fs : Fs)
      → files.path_exists fs path ≡ false
      → files.read_to_string fs path ≡ err (io not_found)
      → Seeded path (load_or_seed files paths from_str example path fs)
  unfolding load_or_seed load config_missing
  load_or_seed-Seeded path fs h r =
      rw (r, h)
        (placed path (seed_default_config files paths from_str example path fs)
          (seed_default_config-IsPlaced path fs))
