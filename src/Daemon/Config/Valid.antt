-- ===== src/Daemon/Config/Valid.antt =====
-- What `validate` of crates/daemon/src/config.rs establishes.
use konstantin.Common.{
  ◌<◌, String, ◌≡◌, ◌↔◌, inl, inr, refl, sym, [], ◌∷◌, Map, lookup, arith, some, string_eq, nat_eq,
}
use mathlib.Core.Path.{subst}
use konstantin.Common.Outcome.{Failure, Result, Result-cases, ok, err}
use konstantin.Daemon.Config.{
  UserConfig, Config, RawConfig, with_defaults, check_users, validate, parse_toml,
}

-- Every user of the table may spend some time each day.
abbrev pub AllPositive : Map String UserConfig → Type 0
AllPositive [] = Unit {0}
AllPositive ((name, u) ∷ rest) = (0 < u.daily_limit_minutes) × AllPositive rest

pub record IsValid (cfg : Config) : Type 0 where
  pub ticks : 0 < cfg.tick_seconds
  pub limits : AllPositive cfg.users

check_users-AllPositive : (m : Map String UserConfig) → check_users m ≡ ok tt → AllPositive m
unfolding check_users
check_users-AllPositive [] h = tt
check_users-AllPositive ((name, u) ∷ rest) h = ground (arith, check_users-AllPositive rest)

AllPositive-check_users : (m : Map String UserConfig) → AllPositive m → check_users m ≡ ok tt
unfolding check_users
AllPositive-check_users [] h = refl
AllPositive-check_users ((name, u) ∷ rest) h = ground (arith, AllPositive-check_users rest h.1)

pub validate-IsValid : (cfg : Config) → validate cfg ≡ ok tt → IsValid cfg
unfolding validate
validate-IsValid cfg h = ground (arith, check_users-AllPositive cfg.users)

pub IsValid-validate : (cfg : Config) → IsValid cfg → validate cfg ≡ ok tt
unfolding validate
IsValid-validate cfg v = ground (arith, AllPositive-check_users cfg.users v.limits)

pub lookup-positive :
    (m : Map String UserConfig) (name : String) (u : UserConfig)
    → AllPositive m
    → lookup name m ≡ some u
    → 0 < u.daily_limit_minutes
unfolding lookup
lookup-positive [] name u v h = cc
lookup-positive ((n, w) ∷ rest) name u v h = ground (arith, lookup-positive rest name u v.1)

module _ (from_str : String → Result RawConfig) where
  decoded_IsValid :
      (text : String) (raw : RawConfig) (cfg : Config)
      → from_str text ≡ ok raw
      → parse_toml from_str text ≡ ok cfg
      → (cfg ≡ with_defaults raw) × IsValid cfg
  unfolding parse_toml
  decoded_IsValid text raw cfg e h = elim (Result-cases (validate (with_defaults raw))) [
    | inl (tt, v) ↦
        let same : with_defaults raw ≡ cfg = ground (arith, e, v, h) in
        (sym same, subst IsValid same (validate-IsValid (with_defaults raw) v))
    | inr (f, v) ↦ absurd (ground (arith, e, v, h))
  ]

  undecoded :
      (text : String) (cfg : Config) (f : Failure)
      → from_str text ≡ err f
      → parse_toml from_str text ≡ ok cfg
      → ⊥
  unfolding parse_toml
  undecoded text cfg f e h = ground (arith, e, h)

  IsValid-parse_toml :
      (text : String) (raw : RawConfig)
      → from_str text ≡ ok raw
      → IsValid (with_defaults raw)
      → parse_toml from_str text ≡ ok (with_defaults raw)
  unfolding parse_toml
  IsValid-parse_toml text raw e v = rw e (rw (IsValid-validate (with_defaults raw) v))

  -- A configuration is the result of parsing exactly when the text decodes to some keys, the
  -- configuration is those keys with the defaults filled in, and its tick and every daily limit are
  -- positive.
  pub parse_toml_iff :
      (text : String) (cfg : Config)
      → (parse_toml from_str text ≡ ok cfg)
        ↔ ((raw : RawConfig) × (from_str text ≡ ok raw) × (cfg ≡ with_defaults raw) × IsValid cfg)
  parse_toml_iff text cfg = (forward, backward)
    where
      Parsed : Type 0
      Parsed =
          (raw : RawConfig) × (from_str text ≡ ok raw) × (cfg ≡ with_defaults raw) × IsValid cfg

      forward : parse_toml from_str text ≡ ok cfg → Parsed
      forward h = elim (Result-cases (from_str text)) [
        | inl (raw, e) ↦ let (same, v) = decoded_IsValid text raw cfg e h in (raw, e, same, v)
        | inr (f, e) ↦ absurd (undecoded text cfg f e h)
      ]

      backward : Parsed → parse_toml from_str text ≡ ok cfg
      backward (raw, e, same, v) = rw same (IsValid-parse_toml text raw e (subst IsValid same v))
