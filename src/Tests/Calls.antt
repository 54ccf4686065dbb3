-- ===== src/Tests/Calls.antt =====
-- One call through the wrapper, and the statistics of delayed calls, on the stand-in kernel.
use soa_repo.Base.{
  ℕ, ◌+◌, ◌-◌, ◌≡◌, refl, arith, some, ◌∷◌, [], List, if◌then◌else◌, find, count, keep, bytes_eq,
}
use soa_repo.Kernel.{unlink, Node, HackedSyscall}
use soa_repo.Kernel.Chains.{test_kernel, chains, byte_sum, clamp}
use soa_repo.State.{State, initial, kfree}
use soa_repo.Registry.Validity.{IsValid}
use soa_repo.Registry.Start.{initial-IsValid}
use soa_repo.Registry.Uid.{register_user_id, check_uid, find_uid}
use soa_repo.Registry.Prog.{check_progname, find_prog}
use soa_repo.Registry.Syscall.{register_system_call, check_syscall, find_hack}
use soa_repo.Registry.Uid.Validity.{register_user_id-IsValid}
use soa_repo.Registry.Syscall.Validity.{register_system_call-IsValid}
use soa_repo.Monitor.{core_setup, core_cleanup, epoch_handler, switch_off_monitor}
use soa_repo.Monitor.Timer.{epoch_timer_fires}
use soa_repo.Stats.{Request, report, check_and_set_statistic, get_syscall_stats}
use soa_repo.Stats.Longest.{
  Delayed, record_all, longest, expected, is_call, get_syscall_stats-record_all,
}
use soa_repo.Wrapper.{entered, returned, calls, advance, interrupt, wake}
use soa_repo.Wrapper.Alone.{alone, is_monitored, alone_with_token}
use soa_repo.Wrapper.Threads.{admin}
use soa_repo.Wrapper.Threads.Waiting.{blocked_among}
use soa_repo.Wrapper.Threads.Throttle.{tokens_taken, expiries}

abbrev table : ℕ → ℕ
table i = 1000 + i

program : ℕ
unfolding initial kfree chains byte_sum clamp unlink register_user_id check_uid find_uid
    check_progname find_prog register_system_call check_syscall find_hack find count keep bytes_eq
    core_setup core_cleanup epoch_handler switch_off_monitor epoch_timer_fires
    check_and_set_statistic advance interrupt wake alone admin blocked_among tokens_taken expiries
    get_syscall_stats record_all longest expected is_call
program = 0

-- System call 2 and user id 1000 are registered.
abbrev hacked : State test_kernel
hacked = (register_system_call test_kernel (some 300) (some 301) [] 2 (initial test_kernel table)).0

abbrev ready : State test_kernel
ready = (register_user_id test_kernel (some 100) 1000 hacked).0

ready-IsValid : IsValid test_kernel table ready
unfolding program
ready-IsValid =
    register_user_id-IsValid test_kernel table hacked
      (register_system_call-IsValid test_kernel table (initial test_kernel table)
        (initial-IsValid test_kernel table) 2 300 301 [] refl refl (omega arith))
      100 1000 refl

abbrev opens : Request
opens = record { sysnum = 2; euid = 1000; comm = b'c' ∷ b'a' ∷ b't' ∷ [] }

alone_with_token_example : alone test_kernel 6 0 ready (entered opens) ≡ (
  if is_monitored test_kernel opens ready
      then record ready { curr_syscalls = ready.curr_syscalls - 1 }
      else ready,
  returned opens (calls (table 2)),
)
unfolding program
alone_with_token_example =
    alone_with_token test_kernel table ready opens 0 ready-IsValid (omega arith) (omega arith) refl
      (omega arith) (omega arith)

-- No token left.
abbrev dry : State test_kernel
dry = record ready { curr_syscalls = 0 }

dry-IsValid : IsValid test_kernel table dry
unfolding program
dry-IsValid =
    let v = ready-IsValid in
    record { uids = v.uids; progs = v.progs; hacks = v.hacks; heaped = v.heaped }

abbrev off : State test_kernel
off = (switch_off_monitor test_kernel 50 ready).0

abbrev open_node : Node HackedSyscall
open_node = record {
  addr = 301;
  val = record { syscall_nr = 2; original_syscall = 1002; stats = 300 };
}

-- A call of read, and one of open by another user who waits as long as the first.
abbrev delays : List Delayed
delays =
    record { delay = 4; request = opens }
    ∷ record { delay = 30; request = record opens { sysnum = 0 } }
    ∷ record { delay = 9; request = opens }
    ∷ record { delay = 9; request = record opens { euid = 1001 } }
    ∷ []

-- 9 ticks are 9 milliseconds on the stand-in kernel.
get_syscall_stats-record_all_example :
    (get_syscall_stats test_kernel (some 700) 2 (record_all test_kernel delays ready)).1
    ≡ report (record {
      syscall_nr = 2;
      peak_delay = 9;
      peak_prog_name = b'c' ∷ b'a' ∷ b't' ∷ [];
      peak_uid = 1000;
    })
unfolding program
get_syscall_stats-record_all_example =
    get_syscall_stats-record_all test_kernel table ready delays 2 700 open_node ready-IsValid
      (omega arith) refl
