-- ===== src/Tests/Device.antt =====
-- Commands of the device, on the stand-in kernel.
use soa_repo.Base.{
  ℕ, ◌+◌, ◌≡◌, refl, arith, pos, true, some, none, [], eperm, find, count, keep, bytes_eq,
}
use soa_repo.Kernel.{unlink}
use soa_repo.Kernel.Chains.{test_kernel, chains, byte_sum, clamp}
use soa_repo.State.{State, initial, kfree}
use soa_repo.Registry.Validity.{IsValid}
use soa_repo.Registry.Start.{initial-IsValid}
use soa_repo.Registry.Lengths.{get_lenght}
use soa_repo.Registry.Uid.{register_user_id, find_uid}
use soa_repo.Registry.Uid.Validity.{register_user_id-IsValid}
use soa_repo.Monitor.{core_setup}
use soa_repo.Monitor.Timer.{core_setup-MonitorIsValid}
use soa_repo.Device.{Command, queries, controls, throttling_ioctl}
use soa_repo.Device.Queries.{Env, get_thread_stats_cmd, nothing, query, do_get_number}
use soa_repo.Device.Controls.{Control, control, register_uid, monitor_off}
use soa_repo.Device.Times.{told, throttling_ioctl-get_thread_stats}
use soa_repo.Device.Steps.{commanded, at_start, obeys, Served-Run}
use soa_repo.Wrapper.Threads.{System, loaded, Run}
use soa_repo.Device.Access.{user_changes_nothing}
use soa_repo.Device.Validity.{throttling_ioctl-Valid, BothAreValid}

abbrev table : ℕ → ℕ
table i = 1000 + i

program : ℕ
unfolding initial kfree chains byte_sum clamp unlink register_user_id find_uid find count keep
    bytes_eq core_setup query do_get_number get_lenght control throttling_ioctl
program = 0

abbrev env_of : ℕ → Env
env_of euid = record {
  now = 7000;
  euid = euid;
  first_mem = some 100;
  second_mem = some 101;
  junk = [];
  first_copy = true;
  second_copy = true;
}

abbrev set_up : State test_kernel
set_up = core_setup test_kernel 5000 (initial test_kernel table)

set_up-IsValid : IsValid test_kernel table set_up
unfolding program
set_up-IsValid =
    (let v = initial-IsValid test_kernel table in
      record { uids = v.uids; progs = v.progs; hacks = v.hacks; heaped = v.heaped })

abbrev with_user : State test_kernel
with_user = (register_user_id test_kernel (some 200) 1000 set_up).0

with_user-IsValid : IsValid test_kernel table with_user
unfolding program
with_user-IsValid = register_user_id-IsValid test_kernel table set_up set_up-IsValid 200 1000 refl

user_changes_nothing_example :
    ((cmd : Command)
      → (throttling_ioctl test_kernel (env_of 1000) cmd with_user).0 ≡ record with_user {
        heap = (throttling_ioctl test_kernel (env_of 1000) cmd with_user).0.heap;
      })
    × ((c : Control)
        → throttling_ioctl test_kernel (env_of 1000) (controls c) with_user
          ≡ (with_user, eperm, nothing))
user_changes_nothing_example =
    user_changes_nothing test_kernel (env_of 1000) with_user (omega arith)

throttling_ioctl-Valid_example :
    BothAreValid test_kernel table
      (throttling_ioctl test_kernel (env_of 0) (controls (register_uid (some 1000))) set_up).0
unfolding program
throttling_ioctl-Valid_example =
    throttling_ioctl-Valid test_kernel table (env_of 0) set_up
      (set_up-IsValid, core_setup-MonitorIsValid test_kernel table 5000) refl refl
      (controls (register_uid (some 1000))) tt

abbrev full_of : ℕ → Env
full_of euid = record (env_of euid) { first_mem = none }

-- Root registers user id 1000, who asks for the statistics and tries to switch the monitor off; root
-- does.
abbrev one_uid : System test_kernel
one_uid =
    commanded test_kernel (env_of 0) (controls (register_uid (some 1000)))
      (loaded test_kernel table 5000)

abbrev asks : Env
asks = record (env_of 1000) { first_mem = some 102 }

abbrev asked : System test_kernel
asked = commanded test_kernel asks (queries (get_thread_stats_cmd (some (pos 0)))) one_uid

abbrev refused : System test_kernel
refused = commanded test_kernel (full_of 1000) (controls monitor_off) asked

Served-Run_example :
    Run test_kernel 1
      (loaded test_kernel table 5000)
      (commanded test_kernel (full_of 0) (controls monitor_off) refused)
unfolding program
Served-Run_example =
    Served-Run test_kernel 1 (loaded test_kernel table 5000)
      (commanded test_kernel (full_of 0) (controls monitor_off) refused)
      (obeys (full_of 0) (controls monitor_off)
        (obeys (full_of 1000) (controls monitor_off)
          (obeys asks (queries (get_thread_stats_cmd (some (pos 0))))
            (obeys (env_of 0) (controls (register_uid (some 1000))) at_start refl refl tt) refl refl
            tt)
          tt tt tt)
        tt tt tt)

-- The monitor has been on since 5000, and it is 7000.
throttling_ioctl-get_thread_stats_example :
    (throttling_ioctl test_kernel
        (env_of 1000)
        (queries (get_thread_stats_cmd (some (pos 0))))
        set_up
      ≡ told test_kernel (env_of 1000) 100 set_up (record {
        type = 0;
        mean = 0;
        sum_blocked = 0;
        elapsed = test_kernel.jiffies_to_msecs 2000;
        peak_blocked = 0;
      }))
    × (throttling_ioctl test_kernel
          (env_of 1000)
          (queries (get_thread_stats_cmd (some (pos 1))))
          set_up
        ≡ told test_kernel
            (env_of 1000)
            100
            set_up
            (record { type = 1; mean = 0; sum_blocked = 0; elapsed = 0; peak_blocked = 0 }))
unfolding program
throttling_ioctl-get_thread_stats_example =
    throttling_ioctl-get_thread_stats test_kernel (env_of 1000) set_up 100 refl (omega arith)
      (omega arith) (omega arith)
