-- ===== src/Interface/Messages.antt =====
-- What user/interface.c prints: a constructor for each text, with the values in it.
use soa_repo.Base.{ℕ, List, ℤ}
use soa_repo.State.{SyscallStats}

pub data Message : Type 0 where
  menu goodbye invalid_choice bad_value bad_number bad_limit no_memory : Message
  -- perror, with errno
  ioctl_error fetch_error : ℕ → Message
  syscall_registered syscall_exists syscall_deregistered syscall_missing : ℤ → Message
  uid_registered uid_exists uid_deregistered uid_missing : ℕ → Message
  prog_registered prog_exists prog_deregistered prog_missing : List ℕ → Message
  limit_set : ℤ → Message
  switched_on already_on switched_off already_off : Message
  -- sum_blocked over elapsed, and the peak; the exponential mean over 1024
  arithmetic_mean : ℕ → ℕ → ℕ → Message
  exponential_mean : ℕ → Message
  stats_missing : ℤ → Message
  stats_of : SyscallStats → Message
  -- the last is `check`
  syscall_checked : ℤ → ℕ → Message
  uid_checked : ℕ → ℕ → Message
  prog_checked : List ℕ → ℕ → Message
  number_of : ℤ → Message
  no_syscalls no_uids no_progs : Message
  -- `copied`, and the lines
  syscalls uids : ℕ → List ℕ → Message
  progs : ℕ → List (List ℕ) → Message
