-- ===== src/Tests/Threads.antt =====
-- Threads in the wrapper, interleaved with the timer and the administrator, on the stand-in kernel.
use soa_repo.Base.{
  ℕ, zero, suc, ◌+◌, ◌-◌, ◌*◌, ◌≤◌, ◌/◌, ◌%◌, ◌≡◌, ◌⊎◌, refl, ap, inr, none, arith, some, ◌∷◌, [],
  ◌==◌, if◌then◌else◌, u64, u32, length, enosys, eintr, find, count, keep, bytes_eq,
}
use soa_repo.Kernel.{unlink}
use soa_repo.Kernel.Chains.{test_kernel, chains, byte_sum, clamp}
use soa_repo.State.{initial, kfree}
use soa_repo.Registry.Uid.{register_user_id, check_uid, find_uid}
use soa_repo.Registry.Prog.{check_progname, find_prog}
use soa_repo.Registry.Syscall.{register_system_call, check_syscall, find_hack}
use soa_repo.Monitor.{core_setup, core_cleanup, epoch_handler, switch_off_monitor, sub64}
use soa_repo.Monitor.Timer.{epoch_timer_fires}
use soa_repo.Stats.{Request, check_and_set_statistic}
use soa_repo.Wrapper.{entered, taking, calls, fails, advance, interrupt, wake}
use soa_repo.Wrapper.Alone.{alone}
use soa_repo.Wrapper.Threads.{
  System, dispatches, runs, expires, administers, Run, start, later, loaded, sets_max, adds_uid,
  adds_syscall, admin, put,
}
use soa_repo.Wrapper.Threads.Waiting.{blocked_among}
use soa_repo.Wrapper.Threads.Safety.{blocked_thread-counts, returned_original, registries_agree}
use soa_repo.Discovery.Patch.{
  Dispatch, init_system_call_table, cleanup_system_call_table, jump_target,
}
use soa_repo.Discovery.Route.{call, init_system_call_table-call}
use soa_repo.Wrapper.Threads.Release.{expiry_releases_sleeper}
use soa_repo.Wrapper.Threads.Rate.{IsLimited, tokens_taken-rate}
use soa_repo.Wrapper.Threads.Progress.{CanFinish, thread-CanFinish}
use soa_repo.Wrapper.Threads.Throttle.{tokens_taken, expiries, after_expiry, tokens_taken-limit}

abbrev table : ℕ → ℕ
table i = 1000 + i

program : ℕ
unfolding initial kfree chains byte_sum clamp unlink register_user_id check_uid find_uid
    check_progname find_prog register_system_call check_syscall find_hack find count keep bytes_eq
    core_setup core_cleanup epoch_handler switch_off_monitor epoch_timer_fires
    check_and_set_statistic advance interrupt wake alone admin blocked_among tokens_taken expiries
program = 0

abbrev opens : Request
opens = record { sysnum = 2; euid = 1000; comm = b'c' ∷ b'a' ∷ b't' ∷ [] }

-- One thread that calls again and again: three calls get a token, and the fourth sleeps.
abbrev turn : System test_kernel → System test_kernel
turn s = put test_kernel s 0 (advance test_kernel 20 s.shared (s.pc 0))

abbrev turns : ℕ → System test_kernel → System test_kernel
turns zero s = s
turns (suc k) s = turn (turns k s)

abbrev enter : System test_kernel → System test_kernel
enter s = put test_kernel s 0 (s.shared, entered opens)

abbrev base : System test_kernel
base = loaded test_kernel table 10

turns-Run :
    {s : System test_kernel} (k : ℕ) → Run test_kernel 1 base s → Run test_kernel 1 base (turns k s)
turns-Run zero r = r
turns-Run (suc k) r = later (turns-Run k r) (runs 0 20 (omega arith))

abbrev with_hack : System test_kernel
with_hack = record {
  shared = admin test_kernel (adds_syscall (some 300) (some 301) [] 2) base.shared;
  pc = base.pc;
}

abbrev uid_added : System test_kernel
uid_added = record {
  shared = admin test_kernel (adds_uid (some 100) 1000) with_hack.shared;
  pc = base.pc;
}

abbrev once : System test_kernel
once = turns 5 (enter uid_added)

abbrev sleeping : System test_kernel
sleeping = turns 6 (enter (turns 5 (enter (turns 5 (enter once)))))

once-Run : Run test_kernel 1 base once
unfolding program
once-Run = turns-Run 5 (
    later
      (later
        (later start
          (administers (adds_syscall (some 300) (some 301) [] 2) (refl, refl, omega arith)))
        (administers (adds_uid (some 100) 1000) refl))
      (dispatches 0 opens (omega arith) refl refl))

sleeping-Run : Run test_kernel 1 base sleeping
unfolding program
sleeping-Run = turns-Run 6 (
    later
      (turns-Run 5 (
        later (turns-Run 5 (later once-Run (dispatches 0 opens (omega arith) refl refl)))
          (dispatches 0 opens (omega arith) refl refl)))
      (dispatches 0 opens (omega arith) refl refl))

blocked_thread-counts_example : sleeping.shared.blocked_thread ≡ u64 (blocked_among 1 sleeping.pc)
blocked_thread-counts_example = blocked_thread-counts test_kernel table 1 10 sleeping sleeping-Run

returned_original_example :
    (calls 1002 ≡ calls (table opens.sysnum))
    ⊎ (calls 1002 ≡ fails enosys)
    ⊎ (calls 1002 ≡ fails eintr)
unfolding program
returned_original_example =
    returned_original test_kernel table 1 10 once once-Run 0 opens (calls 1002) refl

registries_agree_example :
    (once.shared.hacked_syscall_tbl 2 ≡ (
      if check_syscall test_kernel 2 once.shared == 0
      then table 2
      else test_kernel.wrapper_address))
    × (once.shared.sys_len
        ≡ u32 (length (test_kernel.hack_api.all once.shared.hacked_syscall_hash)))
    × (once.shared.uids_len ≡ u64 (length (test_kernel.uid_api.all once.shared.uid_hash)))
    × (once.shared.prog_name_len ≡ u64 (length (test_kernel.prog_api.all once.shared.prog_hash)))
unfolding program
registries_agree_example = registries_agree test_kernel table 1 10 once once-Run 2 (omega arith)

-- The sleeper is woken, and takes one of the new tokens.
abbrev refilled : System test_kernel
refilled = after_expiry test_kernel 260 sleeping

refilled-Run : Run test_kernel 1 refilled (turns 2 refilled)
refilled-Run = later (later start (runs 0 20 (omega arith))) (runs 0 20 (omega arith))

-- The limit is lowered before the sleeper makes its next access, at 270.
abbrev lowered : System test_kernel
lowered = record refilled { shared = admin test_kernel (sets_max 1) refilled.shared }

lowered-Run : Run test_kernel 1 refilled lowered
lowered-Run = later start (administers (sets_max 1) tt)

expiry_releases_sleeper_example :
    (1 ≤ lowered.shared.curr_syscalls)
    × ((advance test_kernel 270 lowered.shared (lowered.pc 0)).1
        ≡ taking opens 1002 (u64 (0 + sub64 270 20)))
unfolding program lowered-Run
expiry_releases_sleeper_example =
    expiry_releases_sleeper test_kernel table 1 10 260 270 0 1002 0 20 opens sleeping lowered
      sleeping-Run refl lowered-Run refl (omega arith) refl

tokens_taken-limit_example :
    tokens_taken test_kernel refilled-Run + (turns 2 refilled).shared.curr_syscalls
    ≡ sleeping.shared.max_syscalls_per_sec
unfolding program refilled-Run
tokens_taken-limit_example =
    tokens_taken-limit test_kernel table 1 10 260 260 sleeping (turns 2 refilled) sleeping-Run refl
      refilled-Run refl

refilled_takes_one : tokens_taken test_kernel refilled-Run ≡ 1
unfolding program refilled-Run
refilled_takes_one = refl

abbrev sent_there : Dispatch
sent_there = record {
  text = λ a. a % 256;
  hacked_syscall_tbl = none;
  x64_sys_call_addr = 0;
  jump_inst = [];
  original_inst = [];
}

-- The words of the table at 9000.
abbrev words : ℕ → ℕ
words a = once.shared.hacked_syscall_tbl ((a - 9000) / 8)

init_system_call_table-call_example :
    ((init_system_call_table (some 9000) (some 100000) 34469 sent_there).0.text 100000 ≡ 233)
    × (jump_target (init_system_call_table (some 9000) (some 100000) 34469 sent_there).0.text 100000
        ≡ 34469)
    × (call words 9000 2 ≡ (
        if check_syscall test_kernel 2 once.shared == 0
        then table 2
        else test_kernel.wrapper_address))
    × ((j : ℕ)
        → (cleanup_system_call_table
              (init_system_call_table (some 9000) (some 100000) 34469 sent_there).0).text
            j
          ≡ sent_there.text j)
unfolding program
init_system_call_table-call_example =
    init_system_call_table-call test_kernel table 1 10 once once-Run words 9000 100000 34469
      sent_there (omega arith) (omega arith) (inr (omega arith))
      (λ i in_range. ap once.shared.hacked_syscall_tbl (omega arith)) 2 (omega arith)

-- Four calls and one expiry, from the loading on.
abbrev finished : System test_kernel
finished = turns 3 refilled

finished-Run : Run test_kernel 1 base finished
unfolding program sleeping-Run once-Run
finished-Run = turns-Run 3 (later sleeping-Run (expires 260 260 refl))

tokens_taken-rate_example :
    tokens_taken test_kernel finished-Run ≤ (expiries test_kernel finished-Run + 1) * 3
unfolding program IsLimited finished-Run sleeping-Run once-Run turns-Run
tokens_taken-rate_example =
    tokens_taken-rate test_kernel 3 finished-Run (omega arith) (omega arith) ((tt, tt), tt)

takes_four : (tokens_taken test_kernel finished-Run ≡ 4) × (expiries test_kernel finished-Run ≡ 1)
unfolding program finished-Run sleeping-Run once-Run turns-Run
takes_four = (refl, refl)

thread-CanFinish_example : CanFinish test_kernel 1 0 sleeping
unfolding program
thread-CanFinish_example =
    thread-CanFinish test_kernel 1 table 10 0 260 sleeping (omega arith) sleeping-Run refl
