-- ===== src/Interface.antt =====
-- user/interface.c, the menu over the device.
pub mod Stdio
pub mod Messages
pub mod Calls
pub mod Shows
pub mod Options
pub mod Reading
pub mod Keeps
pub mod Main
pub mod Termination
pub mod Validity
pub mod Reports
pub mod Lists
