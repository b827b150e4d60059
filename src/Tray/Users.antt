-- ===== src/Tray/Users.antt =====
-- The local users of the settings window: crates/tray/src/users.rs. The output of `dscl` and of `id`,
-- the home directories and the attributes of a user are arguments, as is `str::parse::<i64>`.
pub mod Listed
pub mod Persons
pub mod Entries
pub mod Ordered
pub mod Members
pub mod Attributes
use Prim.Native.String.{◌++◌ as str_append}
use Prim.Native.Char.{code}
use konstantin.Common.{
  ℕ, String, ◌+◌, ◌-◌, ◌/◌, Bool, true, false, not, Option, none, some, List, [], ◌∷◌, ◌++◌, ltb,
  if◌then◌else◌, ◌==◌, nat_eq, string_eq, unwrap_or, u32_mod, contains,
}
use konstantin.Common.Outcome.{bail, Result, ok, err}
use konstantin.Common.Outcome.{◌>>=◌, ◌>>◌, ensure}
use konstantin.Common.Int.{ℤ, pos, negsuc}
use konstantin.Common.Words.{lines, split_whitespace, trim, trim_start, strip_prefix}
use konstantin.Daemon.Control.Auth.{Output}

pub data UserPicture : Type 0 where
  file : String → UserPicture
  jpeg : List ℕ → UserPicture

pub record LocalUser : Type 0 where
  pub username : String
  pub uid : ℕ
  pub home : String
  pub is_admin : Bool
  pub picture : Option UserPicture

pub record UserAttributes : Type 0 where
  pub home : Option String
  pub picture : Option UserPicture

-- A number that is a `u32` makes an entry.
abbrev pub entry_of : String → Option ℤ → List (String × ℕ)
entry_of name (some (pos uid)) = if ltb uid u32_mod then (name, uid) ∷ [] else []
entry_of name (some (negsuc n)) = []
entry_of name none = []

abbrev pub entry_of_words : (String → Option ℤ) → List String → List (String × ℕ)
entry_of_words parse (name ∷ uid_str ∷ rest) = entry_of name (parse uid_str)
entry_of_words parse _ = []

abbrev pub list_entries : (String → Option ℤ) → List String → List (String × ℕ)
list_entries parse [] = []
list_entries parse (line ∷ rest) =
    entry_of_words parse (split_whitespace (trim line)) ++ list_entries parse rest

unfoldable pub parse_list_users : (String → Option ℤ) → String → List (String × ℕ)
unfolding lines split_whitespace trim
parse_list_users parse stdout = list_entries parse (lines stdout)

abbrev pub denylist : List String
denylist = "nobody" ∷ "daemon" ∷ "root" ∷ "Guest" ∷ "Shared" ∷ []

abbrev pub starts_underscore : String → Bool
starts_underscore String.[] = false
starts_underscore (String.◌∷◌ c s) = code c == b'_'

unfoldable pub is_real_user : String → ℕ → Bool
is_real_user name uid =
    if ltb uid 500
    then false
    else if starts_underscore name
    then false
    else if contains denylist name
    then false
    else true

unfoldable pub list_users : (String → Option ℤ) → Result Output → Result (List (String × ℕ))
unfolding parse_list_users
list_users parse output = do
  o ← output
  ensure o.success (str_append "dscl list failed: " o.stderr)
  ok (parse_list_users parse o.stdout)

-- One line: a header opens the section, and every line inside it adds its words.
abbrev pub take_line : Bool → String → Option String → List String → List String → List String
take_line in_section line (some rest) inside outside = split_whitespace rest ++ inside
take_line true line none inside outside = split_whitespace line ++ inside
take_line false line none inside outside = outside

-- The loop of the window's own `parse_admin_members`.
unfoldable pub collect_members : Bool → List String → List String
collect_members in_section [] = []
collect_members in_section (line ∷ rest) =
    let inside = collect_members true rest in
    let outside = collect_members false rest in
    take_line in_section line (strip_prefix "GroupMembership:" (trim_start line)) inside outside

unfoldable pub parse_admin_members : String → List String
unfolding collect_members lines split_whitespace trim_start strip_prefix
parse_admin_members stdout = collect_members false (lines stdout)

-- A lookup that fails counts as no administrators.
unfoldable pub read_admin_members : Result Output → Result (List String)
unfolding parse_admin_members
read_admin_members output = do
  o ← output
  if not o.success then ok [] else ok (parse_admin_members o.stdout)

unfoldable pub parse_current_username : String → Result String
unfolding trim
parse_current_username stdout =
    if trim stdout == "" then err (bail "id -un returned an empty username") else ok (trim stdout)

unfoldable pub current_username : Result Output → Result String
unfolding parse_current_username
current_username output = do
  o ← output
  ensure o.success (str_append "id -un failed: " o.stderr)
  parse_current_username o.stdout

unfoldable pub current_user_is_admin : Result Output → Result Output → Result Bool
unfolding current_username read_admin_members
current_user_is_admin id group = do
  username ← current_username id
  if username == "root"
      then ok true
      else (read_admin_members group >>= λ members. ok (contains members username))

-- The order of names, by their characters.
unfoldable pub str_leb : String → String → Bool
str_leb String.[] t = true
str_leb (String.◌∷◌ c s) String.[] = false
str_leb (String.◌∷◌ c s) (String.◌∷◌ d t) =
    let rest = str_leb s t in
    if ltb (code c) (code d) then true else if code c == code d then rest else false

unfoldable pub insert_user : LocalUser → List LocalUser → List LocalUser
unfolding str_leb
insert_user u [] = u ∷ []
insert_user u (v ∷ vs) =
    let rest = insert_user u vs in if str_leb u.username v.username then u ∷ v ∷ vs else v ∷ rest

unfoldable pub sort_users : List LocalUser → List LocalUser
unfolding insert_user
sort_users [] = []
sort_users (u ∷ us) = insert_user u (sort_users us)

module _ (is_dir : String → Bool) (read_user_attributes : String → Result UserAttributes)
    (admins : List String) where
  abbrev pub home_guess : String → String
  home_guess username = str_append "/Users/" username

  -- A user whose attributes cannot be read is skipped.
  abbrev pub with_attributes : String → ℕ → Result UserAttributes → List LocalUser
  with_attributes username uid (ok attrs) =
      record {
        username = username;
        uid = uid;
        home = unwrap_or (home_guess username) attrs.home;
        is_admin = contains admins username;
        picture = attrs.picture;
      }
      ∷ []
  with_attributes username uid (err e) = []

  -- One round of the loop of `enumerate`.
  unfoldable pub candidate : String → ℕ → List LocalUser
  unfolding is_real_user
  candidate username uid =
      if not (is_real_user username uid)
      then []
      else if not (is_dir (home_guess username))
      then []
      else with_attributes username uid (read_user_attributes username)

  unfoldable pub collect_users : List (String × ℕ) → List LocalUser
  unfolding candidate
  collect_users [] = []
  collect_users ((username, uid) ∷ rest) = candidate username uid ++ collect_users rest

abbrev pub or_no_admins : Result (List String) → List String
or_no_admins (ok members) = members
or_no_admins (err e) = []

unfoldable pub enumerate :
    (String → Option ℤ)
    → (String → Bool)
    → (String → Result UserAttributes)
    → Result Output
    → Result Output
    → Result (List LocalUser)
unfolding list_users read_admin_members collect_users sort_users
enumerate parse is_dir attributes listing group = do
  candidates ← list_users parse listing
  ok (
      sort_users
        (collect_users is_dir attributes (or_no_admins (read_admin_members group)) candidates))
