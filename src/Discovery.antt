-- ===== src/Discovery.antt =====
-- How the module finds and redirects the dispatch of system calls: src/my_usctm.c.
pub mod Scan
pub mod Found
pub mod Patch
pub mod Walk
pub mod Protection
pub mod Route
