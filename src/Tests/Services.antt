-- ===== src/Tests/Services.antt =====
-- The daemon's start and its replies, over plain tables.
use konstantin.Common.{
  ℕ, String, ◌≡◌, refl, ap, Bool, true, false, Option, none, some, List, [], ◌∷◌, if◌then◌else◌,
  ◌==◌, nat_eq, string_eq, beq_refl,
}
use konstantin.Common.Outcome.{bail, Result, ok, err}
use konstantin.Common.Disk.{Disk, disk_files, disk_laws, flat_paths}
use konstantin.Daemon.Control.Listener.{Listening}
use konstantin.Daemon.Config.{Config}
use konstantin.Daemon.Config.Seeding.{load_or_seed}
use konstantin.Daemon.Ipc.Server.{bind}
use konstantin.Daemon.Boot.{Running, start_daemon}
use konstantin.Daemon.Boot.Ready.{IsReady, start_daemon-IsReady}
use konstantin.Daemon.Control.Dictionary.{XpcCalls, key_ok, key_payload_json, send_reply}
use konstantin.Daemon.Control.Dictionary.Sent.{Received, XpcLaws, send_reply-sendable}
use konstantin.Tray.AdminClient.{has_nul}
use konstantin.Proto.Admin.{from_json}
use mathlib.Core.Option.{some-injective}
use konstantin.Tests.Counters.{name_codec, from_keys}
use konstantin.Tests.Admins.{done_codec}

abbrev no_listener : String → Result Listening
no_listener path = err (bail "none")

abbrev first_disk : Disk
first_disk = ("/c", record { text = "x"; bits = 384 }) ∷ []

start_daemon-IsReady_example :
    let before = load_or_seed disk_files flat_paths from_keys "example" "/c" first_disk in
    let after =
      start_daemon disk_files flat_paths name_codec from_keys "example"
        (λ path. disk_files.write path "")
        (some "/c")
        (some "alice")
        3
        no_listener
        first_disk in
    ((cfg : Config)
      → before.0 ≡ ok cfg
      → (bind disk_files flat_paths (λ path. disk_files.write path "") cfg.socket_path before.1).0
        ≡ ok tt
      → (r : Running) × (after.0 ≡ ok r) × (r.cfg ≡ cfg))
    × IsReady disk_laws flat_paths name_codec from_keys "example"
        (λ path. disk_files.write path "")
        (some "alice")
        3
        no_listener
        "/c"
        after
start_daemon-IsReady_example =
    start_daemon-IsReady disk_laws flat_paths name_codec from_keys "example"
      (λ path. disk_files.write path "") (some "alice") 3 no_listener (some "/c") first_disk

-- A library with one dictionary, which it hands out again for each reply.
record Library : Type 0 where
  pub owned : List ℕ
  pub texts : String → Option String
  pub flags : String → Option Bool
  pub messages : List Received

abbrev drop_first : List ℕ → List ℕ
drop_first [] = []
drop_first (h ∷ hs) = hs

abbrev put : {A : Type 0} → String → A → (String → Option A) → String → Option A
put key a f k = if key == k then some a else f k

abbrev calls : XpcCalls Library
calls = record {
  dictionary_create_empty = λ w. (some 4, record w { owned = 4 ∷ w.owned });
  dictionary_create_reply = λ m w. (some 5, record w { owned = 5 ∷ w.owned });
  dictionary_set_string = λ h k v w. record w { texts = put k v w.texts };
  dictionary_get_string = λ h k w. ok (w.texts k);
  dictionary_set_bool = λ h k v w. record w { flags = put k v w.flags };
  dictionary_get_bool = λ h k w. false;
  send_message = λ p h w. record w {
    messages =
        record { peer = p; payload = w.texts key_payload_json; flag = w.flags key_ok } ∷ w.messages;
  };
  cancel = λ h w. w;
  release = λ h w. record w { owned = drop_first w.owned };
}

abbrev calls_lem : XpcLaws calls
calls_lem = record {
  held = λ w. w.owned;
  text = λ h k w. w.texts k;
  flag = λ h k w. w.flags k;
  sent = λ w. w.messages;
  obtains = λ m h w e. ap (λ n. n ∷ w.owned) (some-injective _ _ e);
  obtains_none = λ m w e. cc;
  sent-create_reply = λ m w. refl;
  held-set_string = λ h k v w. refl;
  sent-set_string = λ h k v w. refl;
  text-set_string = λ h k v w. rw (beq_refl k) refl;
  held-set_bool = λ h k v w. refl;
  sent-set_bool = λ h k v w. refl;
  flag-set_bool = λ h k v w. rw (beq_refl k) refl;
  text-set_bool = λ h k j v w apart. refl;
  held-send_message = λ p h w. refl;
  sent-send_message = λ p h w. refl;
  held-release = λ h before w e. ap drop_first e;
  sent-release = λ h w. refl;
}

abbrev idle : Library
idle = record { owned = 3 ∷ []; texts = λ k. none; flags = λ k. none; messages = [] }

send_reply-sendable_example :
    let after = send_reply calls has_nul done_codec 1 7 "r1" idle in
    (after.messages ≡ record { peer = 7; payload = some "r1"; flag = some true } ∷ [])
    × (after.owned ≡ 3 ∷ [])
unfolding has_nul from_json
send_reply-sendable_example =
    send_reply-sendable calls_lem has_nul (refl, refl) done_codec 7 "r1" 1 idle
