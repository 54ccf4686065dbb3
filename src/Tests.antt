-- ===== src/Tests.antt =====
-- The theorems at concrete inputs, and runs of the code.
mod Registries
mod Monitoring
mod Calls
mod Device
mod Discovery
mod Cleanup
mod Loading
mod Rcu
mod Interface
mod Switching
mod Histories
mod Updates
mod Threads
mod Spam
