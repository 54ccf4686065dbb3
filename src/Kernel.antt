-- ===== src/Kernel.antt =====
-- What the module takes from the kernel: hash tables with RCU lists, `jhash`, the bounds clamp and
-- the clock's units. None of it is code of the repository, so it is a parameter, with the
-- documented behaviour that the module relies on.
pub mod Chains
mod Defs
unfoldable pub use Defs.*
