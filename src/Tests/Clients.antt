-- ===== src/Tests/Clients.antt =====
-- The admin client over plain worlds, and a picture.
use konstantin.Common.{
  ℕ, String, ◌≡◌, refl, ap, Option, none, some, List, [], ◌∷◌, nat_eq, string_eq, lookup,
}
use konstantin.Common.Outcome.{ok}
use konstantin.Common.Int.{pos}
use konstantin.Common.Disk.{Disk, disk_files, flat_paths}
use konstantin.Proto.Admin.{reload_daemon, to_json}
use konstantin.Daemon.Config.{parse_toml}
use konstantin.Daemon.Control.{World, handle}
use konstantin.Tray.AdminClient.{Xpc, has_nul, send_blocking}
use konstantin.Tray.AdminClient.Handles.{Held, held-send_blocking}
use konstantin.Tray.AdminClient.Exchange.{Reliable, daemon, send_blocking-handle}
use konstantin.Tests.Admins.{controller, world, admin, reload_codec, done_codec}

abbrev drop_first : List ℕ → List ℕ
drop_first [] = []
drop_first (h ∷ hs) = hs

-- A library that only counts: the world is what is held.
abbrev counting : Xpc (List ℕ)
counting = record {
  create_mach_service = λ w. (some 7, 7 ∷ w);
  set_peer_team_identity_requirement = λ c w. (pos 0, w);
  activate = λ c w. w;
  cancel = λ c w. w;
  release = λ h w. drop_first w;
  dictionary_create_empty = λ w. (some 8, 8 ∷ w);
  dictionary_set_string = λ m k v w. w;
  dictionary_get_string = λ m k w. ok (some "r1");
  send_message_with_reply_sync = λ c m w. (some 9, 9 ∷ w);
}

counts : Held counting (λ w. w)
counts = record {
  obtains_connection = λ w. refl;
  obtains_dictionary = λ w. refl;
  obtains_reply = λ c m w. refl;
  keeps_requirement = λ c w. refl;
  keeps_activate = λ c w. refl;
  keeps_cancel = λ c w. refl;
  keeps_set_string = λ m k v w. refl;
  releases = λ h before w e. ap drop_first e;
}

held-send_blocking_example :
    (send_blocking counting reload_codec done_codec "r1" reload_daemon (3 ∷ [])).1 ≡ 3 ∷ []
held-send_blocking_example =
    held-send_blocking counting (λ w. w) counts reload_codec done_codec "r1" reload_daemon (3 ∷ [])

-- A message, a reply, and the daemon's world behind the service.
record Line : Type 0 where
  message : Option String
  reply : Option String
  behind : World Disk

abbrev serve : String → World Disk → String × World Disk
serve = daemon disk_files flat_paths controller admin reload_codec done_codec

abbrev answered : Option String → Line → Option ℕ × Line
answered none w = (none, w)
answered (some request) w = (
  some 3,
  record w { reply = some (serve request w.behind).0; behind = (serve request w.behind).1 },
)

-- A library whose service is the daemon.
abbrev wired : Xpc Line
wired = record {
  create_mach_service = λ w. (some 1, w);
  set_peer_team_identity_requirement = λ c w. (pos 0, w);
  activate = λ c w. w;
  cancel = λ c w. w;
  release = λ h w. w;
  dictionary_create_empty = λ w. (some 2, w);
  dictionary_set_string = λ m k v w. record w { message = some v };
  dictionary_get_string = λ m k w. ok w.reply;
  send_message_with_reply_sync = λ c m w. answered w.message w;
}

up : Reliable wired (λ w. w.behind) (λ m w. w.message) serve
up = record {
  connects = λ w. (1, w, refl, refl);
  accepts = λ c w. (w, refl, refl);
  activates = λ c w. refl;
  cancels = λ c w. refl;
  releases = λ h w. refl;
  creates = λ w. (2, w, refl, refl);
  holds = λ m value w. refl;
  puts = λ m value w. refl;
  replies = λ c m request w t. (
    3,
    record w { reply = some (serve request w.behind).0; behind = (serve request w.behind).1 },
    ap (λ o. answered o w) t,
    refl,
    refl,
  );
}

abbrev line : Line
line = record { message = none; reply = none; behind = world }

send_blocking-handle_example :
    let (answer, after) = handle disk_files flat_paths controller admin reload_daemon world in
    let r = send_blocking wired reload_codec done_codec "r1" reload_daemon line in
    (r.0 ≡ ok answer) × (r.1.behind ≡ after)
unfolding handle lookup parse_toml to_json has_nul
send_blocking-handle_example =
    send_blocking-handle disk_files flat_paths controller admin reload_codec done_codec wired
      (λ w. w.behind) (λ m w. w.message) "r1" "r1" "r1" reload_daemon line up refl refl refl
