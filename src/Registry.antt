-- ===== src/Registry.antt =====
-- The three registries of the module: system calls, user ids and program names.
pub mod Table
pub mod Uid
pub mod Prog
pub mod Syscall
pub mod Lengths
pub mod Validity
pub mod Start
pub mod Histories
