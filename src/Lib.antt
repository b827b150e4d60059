-- ===== src/Lib.antt =====
-- Konstantin limits the daily screen time of the users of a Mac. A daemon, `screentimed`, runs as
-- root: each tick it finds the user at the console, adds the tick's seconds to that user's counter,
-- saves the counters, wakes the clients that subscribed, and logs a user out whose limit is used up.
-- Clients ask for their status on a Unix socket. Administrators change the configuration and the
-- kill switch with requests that arrive as JSON envelopes. A menu-bar program shows the status and
-- warns before the limit.
--
-- Proto models crates/proto/src/lib.rs: the messages, and Proto/Frame `read_frame` and
--   `write_frame` over a reader, a writer and a JSON codec that are records of calls with what they
--   guarantee. Proto/Admin models crates/proto/src/admin.rs.
-- Daemon/Config models crates/daemon/src/config.rs: `Config::parse_toml` and `Config::validate`;
--   the TOML decoder is an argument. A configuration is a record, its users an association list.
--   Daemon/Config/Seeding models `Config::load_or_seed`.
-- Daemon/State models crates/daemon/src/state.rs: `State` with its day, its counters and the users
--   seen last. `save_atomic` and `load` run over the file system of Common/Files.
-- Daemon/Sessions models crates/daemon/src/sessions.rs: the filter over the reported name, and the
--   copy of the name over a record of calls.
-- Daemon/Enforcement models crates/daemon/src/enforcement.rs: `decide`, and `Enforcer::step` over a
--   System, which is the trait `LogoutRunner` with the clock, the user database and the test for the
--   kill-switch file. Daemon/Enforcement/Recorder is the fake runner of the source's tests,
--   Daemon/Enforcement/Runner the daemon's own over a record of what the system does.
-- Daemon/Service models crates/daemon/src/main.rs: a round of `run_ticker` and of
--   `run_midnight_resetter` as functions on what the tasks share. The state's mutex makes each locked
--   block one step, and `run` is the state after any sequence of those. `run_ticker` is the loop over
--   a list of what comes before each round: midnight alarms, changes of the system, the user at the
--   console and the date. Daemon/Boot is `main` up to its tasks and at its end.
-- Daemon/Ipc models crates/daemon/src/ipc.rs: `compute_status`, and a connection as a run over what
--   its reads give and over the events of its subscription, from the peer's uid on, which the kernel
--   gives. Daemon/Ipc/Server is `Server`.
-- Daemon/Midnight models crates/daemon/src/time.rs over a time zone that is an argument.
-- Daemon/Control models crates/daemon/src/control/mod.rs: every admin request as an action on the
--   files and on the count of scheduled restarts. Daemon/Control/Auth models
--   crates/daemon/src/control/auth.rs: who may make a request. Daemon/Control/Xpc models the JSON
--   dispatch of crates/daemon/src/control/xpc.rs, Daemon/Control/Listener its listener and its peers,
--   and Daemon/Control/Dictionary its dictionaries and the reply over a record of the XPC library's
--   calls.
-- Tray/Notifications models `NotifTracker` of crates/tray/src/notifications.rs, and
--   Tray/Notifications/Delivery the posting over a record of the notification center's calls.
--   Tray/Client models crates/tray/src/lib.rs and Tray/StatusCommand crates/tray/src/bin/status.rs.
--   Tray/Users models crates/tray/src/users.rs, with Tray/Users/Attributes for the home and the
--   picture of a user over a record of views of plist values. Tray/AdminClient models
--   crates/tray/src/admin_xpc.rs over a record of the XPC library's calls.
-- The other modules of Tray model crates/tray/src/bin/tray.rs. Tray/Bar is what a status looks like
--   and how the daemon's service is classified. Tray/Subscriber is the state `Latest` with the
--   threads around it: `run_subscriber`, the timer of `install_drain_timer` and the refreshes, as a
--   step relation with a step for each lock. Tray/Settings is the module `config_ui`, over a record
--   of operations on TOML values, with Tray/Settings/Flow for opening and saving,
--   Tray/Settings/Window for the widgets and their places, and Tray/Settings/Inputs for what is done
--   to the window, where AppKit's part of a click and of typing is written out. Tray/Services is the
--   module `service_management`, Tray/Install the module `install`, Tray/Bundle the module `bundle`,
--   Tray/Launch `main` and the menu's actions, Tray/Menu the status item, its menu and the alerts,
--   Tray/Progress the panel with its worker thread, and Tray/Uninstall the deferred uninstallation,
--   each over a record of calls on a world or over what its calls give.
-- Common holds what these share: tests on numbers and texts, association lists, `anyhow::Result`
--   with its actions, the file system's calls with their laws, and the text functions of `std`.
--   Common/Polling is a loop that looks at the world until a deadline, and
--   Common/Membership what is a member of a list.
-- Tests holds runs at concrete inputs.
--
-- A `u32` counter wraps at 2 ^ 32; `saturating_mul` stops at 2 ^ 32 - 1. A number is printed with at
-- most 20 digits, which every 64-bit number has at most. All other recursion is on lists or texts.
-- An instant is a number of milliseconds or seconds, a date the number of a day, a set a list.
--
-- A loop that polls runs on the list of what its rounds see, and gives none where the list is too
-- short; 481 rounds are enough for the 120 seconds of the uninstallation and 61 for the 15 seconds
-- of the setup, with a pause of a quarter of a second.
--
-- Not modelled: the calls of CoreFoundation, XPC, AppKit and ServiceManagement, sockets, processes
-- and threads themselves, and logging, which are foreign code or have no effect on the program; and
-- what AppKit draws of the menu, of the alerts and of the panels.

pub mod Common
pub mod Proto
pub mod Daemon
pub mod Tray
pub mod Tests
