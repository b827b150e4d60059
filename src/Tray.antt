-- ===== src/Tray.antt =====
-- The programs of the user's session: crates/tray/src.
pub mod Menu
pub mod Progress
pub mod Notifications
pub mod Client
pub mod Users
pub mod Bar
pub mod Settings
pub mod AdminClient
pub mod Services
pub mod Uninstall
pub mod Subscriber
pub mod Bundle
pub mod Install
pub mod Launch
pub mod StatusCommand
