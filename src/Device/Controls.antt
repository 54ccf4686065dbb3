-- ===== src/Device/Controls.antt =====
-- The second `switch` of `throttling_ioctl`: the commands for root.
use soa_repo.Base.{ℕ, List, Option, none, some, take, ℤ, efault, einval}
use soa_repo.Kernel.{Kernel}
use soa_repo.State.{State}
use soa_repo.Registry.Uid.{register_user_id, deregister_user_id}
use soa_repo.Registry.Prog.{register_prog_name, deregister_prog_name}
use soa_repo.Registry.Syscall.{register_system_call, deregister_system_call}
use soa_repo.Monitor.{switch_on_monitor, switch_off_monitor, set_max_syscall}
use soa_repo.Device.Queries.{Env, checked}

-- What `strncpy_from_user` makes of the user's string: an error, or its bytes.
pub data Copied : Type 0 where
  fault : ℤ → Copied
  bytes : List ℕ → Copied

pub data Control : Type 0 where
  register_syscall : Option ℤ → Control
  register_uid : Option ℕ → Control
  register_prog : Copied → Control
  deregister_syscall : Option ℤ → Control
  deregister_uid : Option ℕ → Control
  deregister_prog : Copied → Control
  set_max_calls : Option ℤ → Control
  monitor_on monitor_off unknown : Control

module _ (K : Kernel) (env : Env) where
  open env use {now, first_mem, second_mem, junk}

  -- At most TASK_COMM_LEN - 1 bytes of a name are copied.
  unfoldable pub control : Control → State K → State K × ℤ
  control (register_syscall none) s = (s, efault)
  control (register_syscall (some nr)) s = elim (checked nr K.nr_syscalls) [
    | none ↦ (s, einval)
    | some n ↦ register_system_call K first_mem second_mem junk n s
  ]
  control (register_uid none) s = (s, efault)
  control (register_uid (some uid)) s = register_user_id K first_mem uid s
  control (register_prog (fault e)) s = (s, e)
  control (register_prog (bytes name)) s = register_prog_name K first_mem (take 15 name) s
  control (deregister_syscall none) s = (s, efault)
  control (deregister_syscall (some nr)) s = elim (checked nr K.nr_syscalls) [
    | none ↦ (s, einval)
    | some n ↦ deregister_system_call K n s
  ]
  control (deregister_uid none) s = (s, efault)
  control (deregister_uid (some uid)) s = deregister_user_id K uid s
  control (deregister_prog (fault e)) s = (s, e)
  control (deregister_prog (bytes name)) s = deregister_prog_name K (take 15 name) s
  control (set_max_calls none) s = (s, efault)
  control (set_max_calls (some max)) s = set_max_syscall K max s
  control monitor_on s = switch_on_monitor K now s
  control monitor_off s = switch_off_monitor K now s
  control unknown s = (s, einval)
