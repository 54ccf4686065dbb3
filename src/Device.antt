-- ===== src/Device.antt =====
-- `throttling_ioctl` in src/throttling_dev.c, over the functions of src/throttling_api.c. What a command
-- reads from user space is part of it, none where the copy faults; what is written to user space is
-- the reply. The messages to the log are left out.
pub mod Queries
pub mod Controls
pub mod Access
pub mod Numbers
pub mod Validity
pub mod Steps
pub mod Times
use soa_repo.Base.{ℕ, ◌==◌, ℤ, eperm, if◌then◌else◌}
use soa_repo.Kernel.{Kernel}
use soa_repo.State.{State}
use Queries.{Query, Reply, nothing, query, Env}
use Controls.{Control, control}

pub data Command : Type 0 where
  -- the first `switch`, for everybody
  queries : Query → Command
  -- the second `switch`, for root; also for an unknown number
  controls : Control → Command

module _ (K : Kernel) where
  unfoldable pub throttling_ioctl : Env → Command → State K → State K × ℤ × Reply
  throttling_ioctl env (queries q) s = query K env q s
  throttling_ioctl env (controls c) s =
      if env.euid == 0
      then (let (t, result) = control K env c s in (t, result, nothing))
      else (s, eperm, nothing)
