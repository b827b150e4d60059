-- ===== src/Daemon/Ipc/Server.antt =====
-- The server around the connections: `Server` of crates/daemon/src/ipc.rs. Binding a socket is an
-- action on the files; an accepted stream is of any type.
use konstantin.Common.{
  String, ◌≡◌, not, ◌&&◌, Option, none, some, List, [], ◌∷◌, arith, if◌then◌else◌, ◌==◌, nat_eq,
  string_eq,
}
use konstantin.Common.Outcome.{Result, ok, err}
use konstantin.Common.Action.{Action, ◌>>◌}
use konstantin.Common.Action.{>>-cases, outcome_cases}
use konstantin.Common.Files.{Files, Paths, FileLaws}

-- `Server::bind`
module _ {Fs : Type 0} (files : Files Fs) (paths : Paths)
    (bind_listener : String → Action Fs (Unit {0})) where
  unfoldable pub prepare_socket_dir : Option String → Action Fs (Unit {0})
  prepare_socket_dir none fs = (ok tt, fs)
  prepare_socket_dir (some dir) fs =
      if not (dir == "") && not (files.path_exists fs dir)
      then files.create_dir_all dir fs
      else (ok tt, fs)

  unfoldable pub remove_stale : String → Action Fs (Unit {0})
  remove_stale socket_path fs =
      if files.path_exists fs socket_path then files.remove_file socket_path fs else (ok tt, fs)

  unfoldable pub bind : String → Action Fs (Unit {0})
  unfolding prepare_socket_dir remove_stale
  bind socket_path = do
    prepare_socket_dir (paths.parent socket_path)
    remove_stale socket_path
    bind_listener socket_path
    files.set_mode socket_path 0o666

-- `Server::run` over what `accept` gives: the streams that get a connection of their own.
unfoldable pub run_server : {Stream : Type 0} → List (Result Stream) → List Stream
run_server [] = []
run_server (ok stream ∷ rest) = stream ∷ run_server rest
run_server (err e ∷ rest) = run_server rest

-- `Drop for Server`
unfoldable pub drop_server : {Fs : Type 0} → Files Fs → String → Fs → Fs
drop_server files socket_path fs = (files.remove_file socket_path fs).1

module _ {Fs : Type 0} (files : Files Fs) (laws : FileLaws files) (paths : Paths)
    (bind_listener : String → Action Fs (Unit {0})) where
  -- If the step succeeded, the socket can be used by everyone.
  abbrev Open : String → Result (Unit {0}) × Fs → Type 0
  Open path (ok _, fs) = files.mode fs path ≡ some 0o666
  Open path (err e, fs) = Unit {0}

  Open-set_mode : (path : String) (fs : Fs) → Open path (files.set_mode path 0o666 fs)
  Open-set_mode path fs =
      outcome_cases (Open path) (files.set_mode path 0o666 fs)
        (λ a h. laws.mode-set_mode path 0o666 fs h) (λ e h. tt)

  came_up :
      (path : String) (q : Result (Unit {0}) × Fs)
      → q.0 ≡ ok tt
      → Open path q
      → files.mode q.1 path ≡ some 0o666
  came_up path (ok _, fs) h ready = ready
  came_up path (err e, fs) h ready = absurd (ground (arith, h))

  -- A server that came up has a socket with mode 0666 at its path, which every user can connect to,
  -- whatever was there before and whatever the mode with which the socket was made.
  pub bind-mode :
      (socket_path : String) (fs : Fs)
      → (bind files paths bind_listener socket_path fs).0 ≡ ok tt
      → files.mode (bind files paths bind_listener socket_path fs).1 socket_path ≡ some 0o666
  unfolding bind
  bind-mode socket_path fs h =
      came_up socket_path (bind files paths bind_listener socket_path fs) h (
        >>-cases (Open socket_path)
          (prepare_socket_dir files paths bind_listener (paths.parent socket_path)) _ fs
          (λ _.
            >>-cases (Open socket_path) (remove_stale files paths bind_listener socket_path) _ _
              (λ _.
                >>-cases (Open socket_path) (bind_listener socket_path) _ _
                  (λ _. Open-set_mode socket_path _) (λ _ _. tt))
              (λ _ _. tt))
          (λ _ _. tt))
