-- ===== src/Wrapper.antt =====
-- `throttling_wrapper` in src/throttling_api.c, one shared access at a time. An RCU read section is one
-- access. The call of the original system call and its result are outside the module.
pub mod Alone
pub mod Threads
use soa_repo.Base.{
  ℕ, ◌+◌, ◌-◌, ◌^◌, Bool, true, false, ◌&&◌, ◌||◌, Option, none, some, ltb, ◌==◌, if◌then◌else◌,
  u64, ℤ, eintr, enosys,
}
use soa_repo.Kernel.{Kernel}
use soa_repo.State.{State}
use soa_repo.Registry.Uid.{check_uid}
use soa_repo.Registry.Prog.{check_progname}
use soa_repo.Registry.Syscall.{find_hack}
use soa_repo.Monitor.{sub64}
use soa_repo.Stats.{Request, check_and_set_statistic}

-- How a call of the wrapper ends: in a call of the function at an address, or with an error.
pub data Outcome : Type 0 where
  calls : ℕ → Outcome
  fails : ℤ → Outcome

-- Where a thread stands, with the local variables that are live there.
pub data Pc : Type 0 where
  -- outside the wrapper
  outside : Pc
  -- before the first test of the monitor
  entered : Request → Pc
  -- before the checks of the user id and of the program name
  checking : Request → Pc
  naming : Request → Pc
  -- before the look-up of the original system call, with `need_mon`
  looking : Request → ℕ → Pc
  -- before `atomic_dec_if_positive`, with `to_call` and `delay`
  taking : Request → ℕ → ℕ → Pc
  -- before the test of the monitor in the loop
  testing : Request → ℕ → ℕ → Pc
  -- in `wait_event_interruptible`, before its condition and asleep; the last is `start_time`
  waiting : Request → ℕ → ℕ → ℕ → Pc
  asleep : Request → ℕ → ℕ → ℕ → Pc
  -- at the label `original_system_call`
  finishing : Request → ℕ → ℕ → Pc
  returned : Request → Outcome → Pc

-- A positive `int`.
abbrev pub is_positive : ℕ → Bool
is_positive w = ltb 0 w && ltb w (2 ^ 31)

-- `to_call` is an address, 0 for NULL.
abbrev pub outcome_of : ℕ → Outcome
outcome_of to_call = if to_call == 0 then fails enosys else calls to_call

module _ (K : Kernel) where
  abbrev pub saved_call : ℕ → State K → ℕ
  saved_call nr s = elim (find_hack K nr s) [
    | none ↦ 0
    | some entry_sys ↦ entry_sys.val.original_syscall
  ]

  -- The condition of the wait.
  abbrev pub may_go : State K → Bool
  may_go s = s.is_monitor_active == 0 || is_positive s.curr_syscalls

  -- The next access of a thread.
  unfoldable pub advance : ℕ → State K → Pc → State K × Pc
  advance now s outside = (s, outside)
  advance now s (entered r) = (s, if s.is_monitor_active == 0 then finishing r 0 0 else checking r)
  advance now s (checking r) = (s, if check_uid K r.euid s == 0 then naming r else looking r 1)
  advance now s (naming r) = (s, looking r (check_progname K r.comm s))
  advance now s (looking r need_mon) =
      let to_call = saved_call r.sysnum s in
      (s, if need_mon == 0 then finishing r to_call 0 else taking r to_call 0)
  advance now s (taking r to_call delay) =
      if is_positive s.curr_syscalls
      then (record s { curr_syscalls = s.curr_syscalls - 1 }, finishing r to_call delay)
      else (s, testing r to_call delay)
  advance now s (testing r to_call delay) =
      if s.is_monitor_active == 0
      then (s, finishing r to_call delay)
      else (record s { blocked_thread = u64 (s.blocked_thread + 1) }, waiting r to_call delay now)
  advance now s (waiting r to_call delay start_time) =
      if may_go s
      then (
        record s { blocked_thread = u64 (s.blocked_thread + 2 ^ 64 - 1) },
        taking r to_call (u64 (delay + sub64 now start_time)),
      )
      else (s, asleep r to_call delay start_time)
  advance now s (asleep r to_call delay start_time) = (s, asleep r to_call delay start_time)
  advance now s (finishing r to_call delay) = (
    if ltb 0 delay then check_and_set_statistic K delay r s else s,
    returned r (outcome_of to_call),
  )
  advance now s (returned r outcome) = (s, returned r outcome)

  -- A signal ends a wait.
  unfoldable pub interrupt : State K → Pc → State K × Pc
  interrupt s (asleep r to_call delay start_time) =
      (record s { blocked_thread = u64 (s.blocked_thread + 2 ^ 64 - 1) }, returned r (fails eintr))
  interrupt s pc = (s, pc)

-- What `wake_up_all` and `wake_up_interruptible` do to a thread: it tests its condition again.
unfoldable pub wake : Pc → Pc
wake (asleep r to_call delay start_time) = waiting r to_call delay start_time
wake pc = pc
