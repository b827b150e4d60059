-- ===== src/Tests/Admins.antt =====
-- The admin requests, over a table of files.
use konstantin.Common.{
  ◌+◌, ◌≡◌, ◌≢◌, inl, refl, true, false, some, [], ◌∷◌, eq_iff, nat_eq, string_eq, lookup, insert,
}
use konstantin.Common.Outcome.{decoding, bail, Result, ok}
use konstantin.Common.Disk.{Disk, disk_files, disk_laws, flat_paths, without}
use konstantin.Daemon.Config.{parse_toml, with_defaults}
use konstantin.Proto.Admin.{set_config, set_enforcement_paused, reload_daemon, error}
use konstantin.Daemon.Control.{
  World, Controller, handle, write_config_atomic, tmp_name, system_config_path,
  validate_kill_switch_path,
}
use konstantin.Daemon.Control.Auth.{
  Operator, Output, operator_from_uid, resolve_username, admin_members,
}
use konstantin.Daemon.Control.Denied.{handle_keeps}
use konstantin.Daemon.Control.Replacing.{
  IsWhole, write_config_atomic-IsWhole, set_config_bad_kill_switch,
}
use konstantin.Daemon.Control.Pausing.{handle-set_enforcement_paused}
use konstantin.Proto.Admin.{AdminRequest, AdminResponse, done, EnvelopeCodec}
use konstantin.Common.{◌&&◌, ◌==◌, if◌then◌else◌, Bool, arith}
use konstantin.Common.Outcome.{err}
use konstantin.Daemon.Control.Listener.{connected, message, null_peer, serve_events}
use konstantin.Daemon.Control.Listener.Denied.{serve_events-denied}
use konstantin.Tray.AdminClient.{has_nul}
use konstantin.Tests.Counters.{keys, from_keys}

abbrev pub controller : Controller
controller = record {
  config_path = "/c";
  version = "1.0";
  process_id = "9";
  from_str = from_keys;
  describe = λ e. "failed";
}

abbrev pub disk : Disk
disk = ("/c", record { text = "old"; bits = 420 }) ∷ []

abbrev pub world : World Disk
world = record { fs = disk; kickstarts = 0 }

abbrev pub admin : Operator
admin = record { uid = 501; username = "alice"; allowed = true; reason = "admin group member" }

abbrev guest : Operator
guest = record { uid = 502; username = "bob"; allowed = false; reason = "no" }

handle_keeps_example :
    (handle disk_files flat_paths controller guest (set_config "new") world).1 ≡ world
handle_keeps_example =
    handle_keeps disk_files flat_paths controller guest (set_config "new") world (inl refl)

pub apart : tmp_name disk_files flat_paths "9" "toml" "/c" ≢ "/c"
unfolding tmp_name
apart e = cc ((eq_iff (tmp_name disk_files flat_paths "9" "toml" "/c") "/c").1 e)

write_config_atomic-IsWhole_example :
    IsWhole disk_laws flat_paths "9" "/c" "old" "new"
      (write_config_atomic disk_files flat_paths "9" "/c" "new" disk)
unfolding lookup
write_config_atomic-IsWhole_example =
    write_config_atomic-IsWhole disk_laws flat_paths "9" "/c" "old" "new" disk apart refl

-- The same keys with a kill-switch path that is not absolute.
abbrev careless : Controller
careless = record controller {
  from_str = λ text. ok (record keys { kill_switch_path = some "disable" });
}

set_config_bad_kill_switch_example :
    ((handle disk_files flat_paths careless admin (set_config "new") world).0 ≡ error "failed")
    × ((handle disk_files flat_paths careless admin (set_config "new") world).1.fs
        ≡ (write_config_atomic disk_files flat_paths "9" "/c" "new" disk).1)
    × (careless.config_path ≡ system_config_path
        → (handle disk_files flat_paths careless admin (set_config "new") world).1.kickstarts
          ≡ 0 + 1)
unfolding parse_toml validate_kill_switch_path write_config_atomic lookup insert without
set_config_bad_kill_switch_example =
    set_config_bad_kill_switch disk_files flat_paths careless admin "new"
      (with_defaults (record keys { kill_switch_path = some "disable" }))
      (bail "kill_switch_path must be absolute: disable") world refl refl refl refl

handle-set_enforcement_paused_example :
    (true ≡ true)
    × (disk_files.path_exists
          (handle disk_files flat_paths controller admin (set_enforcement_paused true) world).1.fs
          "/etc/screentimed/disable"
        ≡ true)
unfolding handle lookup insert without parse_toml
handle-set_enforcement_paused_example =
    handle-set_enforcement_paused disk_laws flat_paths controller admin true true
      "/etc/screentimed/disable" world refl refl

abbrev listing : Result Output
listing = ok (record { success = true; stdout = "GroupMembership: root alice\n"; stderr = "" })

abbrev is_reload : AdminRequest → Bool
is_reload reload_daemon = true
is_reload _ = false

abbrev is_done : AdminResponse → Bool
is_done done = true
is_done _ = false

pub is_reload_lem : (r : AdminRequest) → is_reload r ≡ true → r ≡ reload_daemon
is_reload_lem r h = ground arith

pub is_done_lem : (r : AdminResponse) → is_done r ≡ true → r ≡ done
is_done_lem r h = ground arith

-- A codec for requests to reload: the text is the request's id.
abbrev pub reload_codec : EnvelopeCodec AdminRequest
reload_codec = record {
  to_string = λ e. if e.version == 2 && is_reload e.body then ok e.request_id else err decoding;
  from_str = λ t. ok (record { version = 2; request_id = t; body = reload_daemon });
  decodes = λ e text h. ground (arith, h, is_reload_lem e.body);
}

abbrev pub done_codec : EnvelopeCodec AdminResponse
done_codec = record {
  to_string = λ e. if e.version == 2 && is_done e.body then ok e.request_id else err decoding;
  from_str = λ t. ok (record { version = 2; request_id = t; body = done });
  decodes = λ e text h. ground (arith, h, is_done_lem e.body);
}

-- A guest who connects and asks for a restart, twice.
serve_events-denied_example :
    (serve_events disk_files flat_paths controller reload_codec done_codec has_nul
      (connected 7 502 (ok (some "bob")) (err decoding)
        ∷ message 7 (ok (some "r1")) true
        ∷ null_peer
        ∷ message 7 (ok (some "r2")) true
        ∷ [])
      (record { operators = []; world = world })).1.world
    ≡ world
unfolding lookup operator_from_uid resolve_username admin_members
serve_events-denied_example =
    serve_events-denied disk_files flat_paths controller reload_codec done_codec has_nul
      (connected 7 502 (ok (some "bob")) (err decoding)
        ∷ message 7 (ok (some "r1")) true
        ∷ null_peer
        ∷ message 7 (ok (some "r2")) true
        ∷ [])
      (record { operators = []; world = world }) (λ peer o h. absurd (ground (arith, h))) (refl, tt)
