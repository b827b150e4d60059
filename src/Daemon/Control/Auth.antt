-- ===== src/Daemon/Control/Auth.antt =====
-- Who may administer the daemon: crates/daemon/src/control/auth.rs. The user database's answer and
-- the output of `dscl` are arguments; a set of names is a list, in which a name may stand twice.
pub mod Members
use Prim.Native.String.{◌++◌ as str_append}
use konstantin.Common.{
  ℕ, String, ◌+◌, Bool, true, false, not, ◌||◌, Option, none, some, List, [], ◌∷◌, ◌++◌,
  if◌then◌else◌, ◌==◌, nat_eq, string_eq, lookup, contains,
}
use konstantin.Common.Outcome.{Failure, bail, Result, ok, err, ensure, ◌>>=◌, ◌>>◌}
use konstantin.Common.Decimal.{decimal}
use konstantin.Common.Words.{lines, split_whitespace, trim, trim_start, strip_prefix, has_char}

pub record Operator : Type 0 where
  pub uid : ℕ
  pub username : String
  pub allowed : Bool
  pub reason : String

-- One line: a header opens the section; a line inside it adds its words, unless it ends the loop.
abbrev pub take_line : Bool → String → Option String → List String → List String → List String
take_line in_members line (some names) inside outside = split_whitespace names ++ inside
take_line true line none inside outside =
    if trim line == "" || has_char b':' (trim line)
    then []
    else split_whitespace (trim line) ++ inside
take_line false line none inside outside = outside

-- The loop of `parse_admin_members` over the lines.
unfoldable pub collect_members : Bool → List String → List String
collect_members in_members [] = []
collect_members in_members (line ∷ rest) =
    let inside = collect_members true rest in
    let outside = collect_members false rest in
    take_line in_members line (strip_prefix "GroupMembership:" (trim_start line)) inside outside

unfoldable pub parse_admin_members : String → List String
unfolding collect_members lines split_whitespace trim strip_prefix has_char
parse_admin_members stdout = collect_members false (lines stdout)

-- The output of a process that ran.
pub record Output : Type 0 where
  pub success : Bool
  pub stdout : String
  pub stderr : String

unfoldable pub admin_members : Result Output → Result (List String)
unfolding parse_admin_members
admin_members output = do
  o ← output
  ensure o.success (str_append "dscl admin group lookup failed: " o.stderr)
  ok (parse_admin_members o.stdout)

-- `User::from_uid`: an error, no such user, or the name.
unfoldable pub resolve_username : ℕ → Result (Option String) → Result String
resolve_username uid answer = do
  found ← answer
  elim found [
    | some name ↦ ok name
    | none ↦
        err
          (bail (str_append "uid " (str_append (decimal uid) " does not resolve to a local user")))
  ]

-- The operator of a known user who is not root.
abbrev pub judge_member : (Failure → String) → ℕ → String → Result (List String) → Operator
judge_member describe uid username (ok admins) =
    if contains admins username
    then record { uid = uid; username = username; allowed = true; reason = "admin group member" }
    else record {
      uid = uid;
      username = username;
      allowed = false;
      reason = "user is not in the local admin group";
    }
judge_member describe uid username (err e) = record {
  uid = uid;
  username = username;
  allowed = false;
  reason = str_append "could not read local admin group: " (describe e);
}

abbrev pub judge : (Failure → String) → ℕ → Result String → Result (List String) → Operator
judge describe uid (ok username) admins =
    if uid == 0
    then record { uid = uid; username = username; allowed = true; reason = "root" }
    else judge_member describe uid username admins
judge describe uid (err e) admins = record {
  uid = uid;
  username = str_append "uid:" (decimal uid);
  allowed = false;
  reason = describe e;
}

unfoldable pub operator_from_uid :
    (Failure → String) → ℕ → Result (Option String) → Result Output → Operator
unfolding resolve_username admin_members
operator_from_uid describe uid answer output =
    judge describe uid (resolve_username uid answer) (admin_members output)
