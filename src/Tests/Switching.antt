-- ===== src/Tests/Switching.antt =====
-- Switches of the monitor beside the handler of its timer, other switches, and a thread that sleeps.
use soa_repo.Base.{
  ℕ, zero, suc, ◌+◌, ◌≤◌, ◌≡◌, ◌≢◌, refl, arith, none, some, false, ◌∷◌, [], find, count, keep,
  bytes_eq,
}
use soa_repo.Kernel.{unlink}
use soa_repo.Kernel.Chains.{test_kernel, chains, byte_sum, clamp}
use soa_repo.State.{initial, kfree}
use soa_repo.Registry.Uid.{register_user_id, check_uid, find_uid}
use soa_repo.Registry.Syscall.{find_hack}
use soa_repo.Monitor.{core_setup}
use soa_repo.Monitor.Timer.{is_armed}
use soa_repo.Stats.{Request, check_and_set_statistic}
use soa_repo.Wrapper.{entered, advance, wake, is_positive}
use soa_repo.Wrapper.Threads.{adds_uid, admin}
use soa_repo.Monitor.Switching.{
  outside, before_wake, before_times, before_delete, resting, working, System, activated, counted,
  put, put_thread, switches_on, sets_start, arms, switches_off, wakes_all, sets_elapsed, deletes,
  fires, finds_on, counts, wakes, rearms, administers, enters, runs, Reach, here, later, loaded,
  NobodySwitches, IsSerial, timer_set, elapsed_set, timer_down, woken,
}
use soa_repo.Monitor.Switching.Armed.{is_running, timer_in_step}
use soa_repo.Monitor.Switching.Sleepers.{WakeComes, asleep_awaits_wake, asleep_awaits_expiry}

abbrev table : ℕ → ℕ
table i = 1000 + i

program : ℕ
unfolding initial kfree chains byte_sum clamp unlink register_user_id check_uid find_uid find_hack
    find count keep bytes_eq core_setup check_and_set_statistic advance wake admin counted
program = 0

abbrev base : System test_kernel
base = loaded test_kernel table 5000

is_on : ◌≢◌ {A = ℕ} 1 0
is_on = omega arith

abbrev set_off : ℕ → System test_kernel → System test_kernel
set_off j s = put test_kernel j before_wake (activated test_kernel 0 s.shared) s

abbrev all_woken : ℕ → System test_kernel → System test_kernel
all_woken j s = put test_kernel j before_times s.shared (record s { pc = woken test_kernel s.pc })

abbrev timed : ℕ → ℕ → System test_kernel → System test_kernel
timed j now s = put test_kernel j before_delete (elapsed_set test_kernel now s.shared) s

abbrev down : ℕ → System test_kernel → System test_kernel
down j s = put test_kernel j outside (timer_down test_kernel s.shared) s

-- The handler finds the monitor on, the switch goes as far as the times, the handler arms the timer
-- again, and timer_delete_sync takes it down.
abbrev fired : System test_kernel
fired = record base { shared = timer_down test_kernel base.shared; handler = working }

abbrev rearmed : System test_kernel
rearmed =
    let t = timed 0 5280 (all_woken 0 (set_off 0 fired)) in
    record t {
      shared = timer_set test_kernel 5300 (counted test_kernel t.shared);
      pc = woken test_kernel t.pc;
      handler = resting;
    }

abbrev deleted : System test_kernel
deleted = down 0 rearmed

deleted-Reach : Reach test_kernel table 5000 deleted
unfolding program
deleted-Reach =
    let a = later here (fires 5250 refl refl) in
    let b = later a (finds_on refl is_on) in
    let c = later b (switches_off 0 refl refl) in
    let d = later c (wakes_all 0 refl) in
    let e = later d (sets_elapsed 0 5280 refl) in
    let f = later e (counts refl) in
    let g = later f (wakes refl) in
    let h = later g (rearms 5300 refl) in later h (deletes 0 refl refl)

timer_in_step_example :
    (is_armed deleted.shared.epoch_timer + is_running deleted.handler
      ≡ deleted.shared.is_monitor_active)
    × (deleted.shared.is_monitor_active ≤ 1)
unfolding program IsSerial deleted-Reach
timer_in_step_example =
    timer_in_step test_kernel table 5000 deleted deleted-Reach (tt, λ j. refl) (λ j. ground arith)

-- Two administrators: one is in the middle of switching off while the other switches on. It is a run of
-- the model, and the monitor is left on without a timer.
on_without_timer :
    (s : System test_kernel) × Reach test_kernel table 5000 s
    × NobodySwitches test_kernel s
    × (s.shared.is_monitor_active ≡ 1)
    × (s.shared.epoch_timer ≡ none)
unfolding program
on_without_timer =
    let a = later here (switches_off 0 refl refl) in
    let b = later a (switches_on 1 refl refl) in
    let c = later b (sets_start 1 5270 refl) in
    let d = later c (arms 1 5270 refl) in
    let e = later d (wakes_all 0 refl) in
    let f = later e (sets_elapsed 0 5280 refl) in
    (_, later f (deletes 0 refl refl), λ j. ground arith, refl, refl)

-- User id 1000 is registered, and one thread calls again and again: three calls get a token, and the
-- fourth sleeps.
abbrev opens : Request
opens = record { sysnum = 2; euid = 1000; comm = b'c' ∷ b'a' ∷ b't' ∷ [] }

abbrev turns : ℕ → System test_kernel → System test_kernel
turns zero s = s
turns (suc k) s =
    let t = turns k s in put_thread test_kernel 0 (advance test_kernel 5020 t.shared (t.pc 0)) t

turns-Reach :
    (k : ℕ) (s : System test_kernel)
    → Reach test_kernel table 5000 s
    → Reach test_kernel table 5000 (turns k s)
turns-Reach zero s path = path
turns-Reach (suc k) s path = later (turns-Reach k s path) (runs 0 5020)

turns-IsSerial :
    (k : ℕ) (s : System test_kernel) (path : Reach test_kernel table 5000 s)
    → IsSerial test_kernel path
    → IsSerial test_kernel (turns-Reach k s path)
unfolding IsSerial turns-Reach
turns-IsSerial zero s path serial = serial
turns-IsSerial (suc k) s path serial = turns-IsSerial k s path serial

abbrev calls : System test_kernel → System test_kernel
calls s = put_thread test_kernel 0 (s.shared, entered opens) s

abbrev registered : System test_kernel
registered = record base { shared = admin test_kernel (adds_uid (some 100) 1000) base.shared }

abbrev thrice : System test_kernel
thrice = turns 5 (calls (turns 5 (calls (turns 5 (calls registered)))))

abbrev sleeping : System test_kernel
sleeping = turns 6 (calls thrice)

sleeping-Reach : Reach test_kernel table 5000 sleeping
unfolding program
sleeping-Reach = turns-Reach 6 _ (
    later
      (turns-Reach 5 _ (
        later
          (turns-Reach 5 _ (
            later
              (turns-Reach 5 _ (
                later (later here (administers (adds_uid (some 100) 1000) refl refl))
                  (enters 0 opens refl)))
              (enters 0 opens refl)))
          (enters 0 opens refl)))
      (enters 0 opens refl))

sleeping-IsSerial : IsSerial test_kernel sleeping-Reach
unfolding program IsSerial sleeping-Reach
sleeping-IsSerial =
    turns-IsSerial 6 _ _ (turns-IsSerial 5 _ _ (turns-IsSerial 5 _ _ (turns-IsSerial 5 _ _ tt)))

asleep_awaits_expiry_example :
    (sleeping.shared.is_monitor_active ≡ 1)
    × (is_positive sleeping.shared.curr_syscalls ≡ false)
    × ((due : ℕ) × (sleeping.shared.epoch_timer ≡ some due))
unfolding program
asleep_awaits_expiry_example =
    asleep_awaits_expiry test_kernel table 5000 0 sleeping sleeping-Reach sleeping-IsSerial
      (λ j. refl) refl refl

-- An administrator has switched off and has not woken anybody yet.
asleep_awaits_wake_example :
    WakeComes test_kernel (set_off 0 sleeping).handler (set_off 0 sleeping).switches
unfolding program
asleep_awaits_wake_example =
    asleep_awaits_wake test_kernel table 5000 0 (set_off 0 sleeping)
      (later sleeping-Reach (switches_off 0 refl refl)) refl refl
