-- ===== src/Tray/Bundle.antt =====
-- Where the program runs from: the module `bundle` of crates/tray/src/bin/tray.rs. Paths are of a
-- type with its operations as arguments.
use konstantin.Common.{String, Bool, Option, none, some, if◌then◌else◌, nat_eq, string_eq}
use konstantin.Common.Outcome.{bail, Result, ok, err}

-- `bundle::Source`
pub data Source : Type 0 where
  bundled dev_tree : Source

pub record Paths (P : Type 0) : Type 0 where
  pub daemon_binary : P
  pub source : Source
  pub bundle_root : Option P

module _ {P : Type 0} (parent : P → Option P) (join : P → String → P) (is_file : P → Bool) where
  abbrev pub development : P → Paths P
  development exe_dir = record {
    daemon_binary = join exe_dir "screentimed";
    source = dev_tree;
    bundle_root = none;
  }

  abbrev pub in_contents : P → Option P → Paths P
  in_contents exe_dir none = development exe_dir
  in_contents exe_dir (some contents) =
      if is_file (join (join contents "Resources") "screentimed")
      then record {
        daemon_binary = join (join contents "Resources") "screentimed";
        source = bundled;
        bundle_root = parent contents;
      }
      else development exe_dir

  abbrev pub beside : Option P → Result (Paths P)
  beside none = err (bail "exe has no parent dir")
  beside (some exe_dir) = ok (in_contents exe_dir (parent exe_dir))

  -- `bundle::Paths::resolve`, from the path of the running program.
  unfoldable pub resolve : Result P → Result (Paths P)
  resolve (ok exe) = beside (parent exe)
  resolve (err e) = err e
