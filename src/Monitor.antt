-- ===== src/Monitor.antt =====
-- Switching, limit and statistics of the monitor in src/throttling_api.c, and the epoch timer of
-- src/throttling_hidden.c. `now` is `jiffies`, which does not move on during one function.
-- Each function is what it does with nothing in between; `Switching` has the accesses of the switches and of
-- the handler one by one.
pub mod Timer
pub mod Epochs
pub mod Sessions
pub mod Switching
use soa_repo.Base.{
  ℕ, ◌+◌, ◌-◌, ◌*◌, ◌/◌, ◌^◌, List, Bool, true, false, Option, none, some, ◌==◌, ltb, if◌then◌else◌,
  u32, u64, sign_extend, ℤ, pos, negsuc, einval, ealready, enomem, ◌∷◌,
}
use soa_repo.Kernel.{Kernel}
use soa_repo.State.{ThreadStats, State}

-- Unsigned subtraction of 64-bit numbers.
abbrev pub sub64 : ℕ → ℕ → ℕ
sub64 a b = u64 (a + 2 ^ 64 - b)

-- The step of the exponential mean: a quarter of it is replaced by a quarter of the new value.
unfoldable pub next_mean : ℕ → ℕ → ℕ
next_mean temp curr_blocked =
    if temp == 0 then curr_blocked else u64 (temp - temp / 2 ^ 2 + curr_blocked / 2 ^ 2)

-- `struct thread_stats_cr_struct`
pub record ThreadStatsCr : Type 0 where
  pub type : ℕ
  pub mean : ℕ
  pub sum_blocked : ℕ
  pub elapsed : ℕ
  pub peak_blocked : ℕ

module _ (K : Kernel) where
  unfoldable pub core_setup : ℕ → State K → State K
  core_setup now s = record s {
    info_threads = record (s.info_threads) { start_time = now };
    epoch_timer = some (u64 (now + K.hz));
  }

  unfoldable pub core_cleanup : State K → State K
  core_cleanup s = record s { epoch_timer = none }

  -- The wake-up of the waiting threads is a step of `Wrapper.Threads`.
  unfoldable pub epoch_handler : ℕ → State K → State K
  epoch_handler now s =
      let curr_blocked = s.blocked_thread in
      let peak = s.info_threads.peak_blocked in
      if s.is_monitor_active == 0 then s else record s {
        info_threads = record (s.info_threads) {
          sum_blocked = u64 (s.info_threads.sum_blocked + curr_blocked);
          peak_blocked = if ltb (sign_extend peak) curr_blocked then u32 curr_blocked else peak;
        };
        exponential = next_mean s.exponential (u64 (curr_blocked * 2 ^ 10));
        curr_syscalls = s.max_syscalls_per_sec;
        epoch_timer = some (u64 (now + K.hz));
      }

  unfoldable pub switch_on_monitor : ℕ → State K → State K × ℤ
  unfolding core_setup
  switch_on_monitor now s =
      if s.is_monitor_active == 0
      then (core_setup now (record s { is_monitor_active = 1 }), pos 0)
      else (s, ealready)

  unfoldable pub switch_off_monitor : ℕ → State K → State K × ℤ
  unfolding core_cleanup
  switch_off_monitor now s =
      if s.is_monitor_active == 1
      then (
        core_cleanup (record s {
          is_monitor_active = 0;
          info_threads = record (s.info_threads) { elapsed = sub64 now s.info_threads.start_time };
        }),
        pos 0,
      )
      else (s, ealready)

  unfoldable pub set_max_syscall : ℤ → State K → State K × ℤ
  set_max_syscall (pos ℕ.zero) s = (s, einval)
  set_max_syscall (pos (ℕ.suc n)) s = (record s { max_syscalls_per_sec = ℕ.suc n }, pos 0)
  set_max_syscall (negsuc n) s = (s, einval)

  -- The block that is returned holds what the second part says; none is `ERR_PTR(-ENOMEM)`.
  unfoldable pub get_thread_stats : Option ℕ → ℕ → ℕ → State K → State K × Option ThreadStatsCr
  get_thread_stats none type now s = (s, none)
  get_thread_stats (some p) type now s =
      let before = s.info_threads.elapsed in
      let temp =
        if s.is_monitor_active == 0
        then before
        else u64 (before + sub64 now s.info_threads.start_time) in
      (
        record s { heap = p ∷ s.heap },
        some (
            if type == 1
            then record {
              type = 1;
              mean = s.exponential;
              sum_blocked = 0;
              elapsed = 0;
              peak_blocked = 0;
            }
            else record {
              type = 0;
              mean = 0;
              sum_blocked = s.info_threads.sum_blocked;
              elapsed = K.jiffies_to_msecs temp;
              peak_blocked = s.info_threads.peak_blocked;
            }),
      )
