-- ===== src/Device/Queries.antt =====
-- The first `switch` of `throttling_ioctl`: the commands that anybody may give.
use soa_repo.Base.{
  ℕ, ◌==◌, Bool, List, Option, none, some, take, ltb, int_of, ℤ, pos, negsuc, eperm, efault, einval,
  enomem, if◌then◌else◌,
}
use soa_repo.Kernel.{Kernel}
use soa_repo.State.{SyscallStats, State, kfree}
use soa_repo.Registry.Uid.{check_uid, get_all_uids}
use soa_repo.Registry.Prog.{check_progname, get_all_progs}
use soa_repo.Registry.Syscall.{check_syscall, get_all_syscalls}
use soa_repo.Registry.Lengths.{get_lenght}
use soa_repo.Monitor.{ThreadStatsCr, get_thread_stats}
use soa_repo.Stats.{get_syscall_stats, report, fails}

-- What the handler meets besides the command: the clock, the caller, the results of `kmalloc`, what
-- fresh memory holds, and whether the first and the second copy to user space go through.
pub record Env : Type 0 where
  pub now : ℕ
  pub euid : ℕ
  pub first_mem : Option ℕ
  pub second_mem : Option ℕ
  pub junk : List ℕ
  pub first_copy : Bool
  pub second_copy : Bool

-- `struct fetch_all_syscalls` and its two kin: the pointer, 0 for NULL, and the unsigned bound.
pub record Fetch : Type 0 where
  pub list : ℕ
  pub max : ℕ

pub data Query : Type 0 where
  get_thread_stats_cmd : Option ℤ → Query
  get_syscall_stats_cmd : Option ℤ → Query
  check_syscall_cmd : Option ℤ → Query
  check_uid_cmd : Option ℕ → Query
  check_prog_cmd : Option (List ℕ) → Query
  get_number : Option ℤ → Query
  get_all_syscalls_cmd : Option Fetch → Query
  get_all_uids_cmd : Option Fetch → Query
  get_all_progs_cmd : Option Fetch → Query

-- What is written to user space. Of a list also the field `copied`, if its copy goes through.
pub data Reply : Type 0 where
  nothing : Reply
  thread_stats : ThreadStatsCr → Reply
  syscall_stats : SyscallStats → Reply
  check : ℕ → Reply
  number : ℤ → Reply
  numbers : List ℕ → Option ℕ → Reply
  names : List (List ℕ) → Option ℕ → Reply

-- The value of an `int` that passes `0 <= x && x < size`.
abbrev pub checked : ℤ → ℕ → Option ℕ
checked (pos n) size = if ltb n size then some n else none
checked (negsuc n) size = none

-- Is the `int` positive?
abbrev pub copied_of : ℤ → Option ℕ
copied_of (pos ℕ.zero) = none
copied_of (pos (ℕ.suc n)) = some (ℕ.suc n)
copied_of (negsuc n) = none

module _ (K : Kernel) (env : Env) where
  open env use {now, first_mem, first_copy, second_copy}

  -- The end of a command with one copy to user space.
  abbrev pub answer : State K → Reply → State K × ℤ × Reply
  answer s reply = if first_copy then (s, pos 0, reply) else (s, efault, nothing)

  -- The block of `get_thread_stats` is not given back.
  unfoldable pub do_thread_stats : Option ℤ → State K → State K × ℤ × Reply
  do_thread_stats none s = (s, efault, nothing)
  do_thread_stats (some type) s = elim (checked type 2) [
    | none ↦ (s, einval, nothing)
    | some t ↦
        let (s', out) = get_thread_stats K first_mem t now s in
        elim out [ none ↦ (s', enomem, nothing) | some stats ↦ answer s' (thread_stats stats) ]
  ]

  -- The block at `p`, if there is one, is given back.
  abbrev pub release : Option ℕ → State K → State K
  release none s = s
  release (some p) s = record s { heap = kfree p s.heap }

  unfoldable pub do_syscall_stats : Option ℤ → State K → State K × ℤ × Reply
  do_syscall_stats none s = (s, efault, nothing)
  do_syscall_stats (some nr) s = elim (checked nr K.nr_syscalls) [
    | none ↦ (s, einval, nothing)
    | some n ↦
        let (s', out) = get_syscall_stats K first_mem n s in
        elim out [
          | fails e ↦ (s', e, nothing)
          | report stats ↦ answer (release first_mem s') (syscall_stats stats)
        ]
  ]

  unfoldable pub do_check_syscall : Option ℤ → State K → State K × ℤ × Reply
  do_check_syscall none s = (s, efault, nothing)
  do_check_syscall (some nr) s = elim (checked nr K.nr_syscalls) [
    | none ↦ (s, eperm, nothing)
    | some n ↦ answer s (check (check_syscall K n s))
  ]

  unfoldable pub do_check_uid : Option ℕ → State K → State K × ℤ × Reply
  do_check_uid none s = (s, efault, nothing)
  do_check_uid (some uid) s = answer s (check (check_uid K uid s))

  -- The last byte of the name is overwritten by the terminator.
  unfoldable pub do_check_prog : Option (List ℕ) → State K → State K × ℤ × Reply
  do_check_prog none s = (s, efault, nothing)
  do_check_prog (some name) s = answer s (check (check_progname K (take 15 name) s))

  unfoldable pub do_get_number : Option ℤ → State K → State K × ℤ × Reply
  do_get_number none s = (s, efault, nothing)
  do_get_number (some choose) s = elim (checked choose 3) [
    | none ↦ (s, einval, nothing)
    | some c ↦ elim (get_lenght K c s) [
      | pos n ↦ answer s (number (pos n))
      | negsuc n ↦ (s, eperm, nothing)
    ]
  ]

  -- The end of the three commands that copy a list, and then the struct with `copied`.
  abbrev pub answer_list : (Option ℕ → Reply) → State K → ℤ → State K × ℤ × Reply
  answer_list reply s copied = elim (copied_of copied) [
    | none ↦ (s, copied, nothing)
    | some n ↦
        let freed = release first_mem s in
        if first_copy
        then if second_copy then (freed, pos 0, reply (some n)) else (freed, efault, reply none)
        else (freed, efault, nothing)
  ]

  unfoldable pub do_all_syscalls : Option Fetch → State K → State K × ℤ × Reply
  do_all_syscalls none s = (s, efault, nothing)
  do_all_syscalls (some codes) s =
      let (s', copied, sys_buffer) = get_all_syscalls K first_mem (int_of codes.max) s in
      if codes.max == 0
      then (s, efault, nothing)
      else if codes.list == 0
      then (s, efault, nothing)
      else answer_list (numbers sys_buffer) s' copied

  unfoldable pub do_all_uids : Option Fetch → State K → State K × ℤ × Reply
  do_all_uids none s = (s, efault, nothing)
  do_all_uids (some uids) s =
      let (s', copied, uids_buffer) = get_all_uids K first_mem (int_of uids.max) s in
      if uids.max == 0
      then (s, efault, nothing)
      else if uids.list == 0
      then (s, efault, nothing)
      else answer_list (numbers uids_buffer) s' copied

  unfoldable pub do_all_progs : Option Fetch → State K → State K × ℤ × Reply
  do_all_progs none s = (s, efault, nothing)
  do_all_progs (some all_progs) s =
      let (s', copied, prog_buf) = get_all_progs K first_mem (int_of all_progs.max) s in
      if all_progs.max == 0
      then (s, efault, nothing)
      else if all_progs.list == 0
      then (s, efault, nothing)
      else answer_list (names prog_buf) s' copied

  unfoldable pub query : Query → State K → State K × ℤ × Reply
  query (get_thread_stats_cmd input) s = do_thread_stats input s
  query (get_syscall_stats_cmd input) s = do_syscall_stats input s
  query (check_syscall_cmd input) s = do_check_syscall input s
  query (check_uid_cmd input) s = do_check_uid input s
  query (check_prog_cmd input) s = do_check_prog input s
  query (get_number input) s = do_get_number input s
  query (get_all_syscalls_cmd input) s = do_all_syscalls input s
  query (get_all_uids_cmd input) s = do_all_uids input s
  query (get_all_progs_cmd input) s = do_all_progs input s
