-- ===== src/Monitor/Switching.antt =====
-- switch_on_monitor, switch_off_monitor and epoch_handler, where `Monitor` takes each as one step: any
-- number of administrators switch at the same time, each at its own access, beside the threads of the
-- wrapper and the timer, whose handler can be under way at any switch. What epoch_handler does between
-- its test and its wake-up is one step.
pub mod Armed
pub mod Sleepers
use soa_repo.Base.{
  ℕ, ◌+◌, ◌*◌, ◌^◌, ◌≡◌, ◌≢◌, refl, arith, Option, none, some, ltb, if◌then◌else◌, u32, u64, ◌==◌,
  true, false, sign_extend, Bool,
}
use soa_repo.Kernel.{Kernel}
use soa_repo.State.{State, initial, update}
use soa_repo.Monitor.{
  sub64, next_mean, core_setup, core_cleanup, epoch_handler, switch_on_monitor, switch_off_monitor,
}
use soa_repo.Stats.{Request}
use soa_repo.Wrapper.{Pc, entered, advance, interrupt, wake}
use soa_repo.Wrapper.Threads.{is_away, Admin, admin, IsAllowed}

-- Administrators switch the monitor on access by access.
abbrev pub is_switch : Admin → Bool
is_switch (Admin.switches_on now) = true
is_switch a = false

-- An administrator: outside the two functions; in switch_on_monitor before core_setup and before
-- mod_timer; in switch_off_monitor before wake_up_all, before the times and before timer_delete_sync.
pub data Switch : Type 0 where
  outside before_setup before_mod_timer before_wake before_times before_delete : Switch

-- The handler: not running, before its test of the monitor, after it, before its wake-up, and before
-- mod_timer.
pub data Handler : Type 0 where
  resting testing working waking rearming : Handler

pub record System (K : Kernel) : Type 0 where
  pub shared : State K
  pub switches : ℕ → Switch
  pub handler : Handler
  pub pc : ℕ → Pc

module _ (K : Kernel) where
  abbrev pub activated : ℕ → State K → State K
  activated n s = record s { is_monitor_active = n }

  abbrev pub start_set : ℕ → State K → State K
  start_set now s = record s { info_threads = record (s.info_threads) { start_time = now } }

  abbrev pub timer_set : ℕ → State K → State K
  timer_set now s = record s { epoch_timer = some (u64 (now + K.hz)) }

  abbrev pub elapsed_set : ℕ → State K → State K
  elapsed_set now s = record s {
    info_threads = record (s.info_threads) { elapsed = sub64 now s.info_threads.start_time };
  }

  abbrev pub timer_down : State K → State K
  timer_down s = record s { epoch_timer = none }

  -- epoch_handler after its test, up to the wake-up.
  unfoldable pub counted : State K → State K
  counted s =
      let curr_blocked = s.blocked_thread in
      let peak = s.info_threads.peak_blocked in
      record s {
        info_threads = record (s.info_threads) {
          sum_blocked = u64 (s.info_threads.sum_blocked + curr_blocked);
          peak_blocked = if ltb (sign_extend peak) curr_blocked then u32 curr_blocked else peak;
        };
        exponential = next_mean s.exponential (u64 (curr_blocked * 2 ^ 10));
        curr_syscalls = s.max_syscalls_per_sec;
      }

  -- What administrator `j` does to the shared state, and where it stands then.
  abbrev pub put : ℕ → Switch → State K → System K → System K
  put j place t s = record s { shared = t; switches = update s.switches j place }

  abbrev pub put_thread : ℕ → State K × Pc → System K → System K
  put_thread i (t, p) s = record s { shared = t; pc = update s.pc i p }

  abbrev pub woken : (ℕ → Pc) → ℕ → Pc
  woken pc i = wake (pc i)

  -- timer_delete_sync returns when the handler is not running; a timer that is armed goes off once.
  pub data Step (s : System K) : System K → Type 0 where
    switches_on :
        (j : ℕ)
        → s.switches j ≡ outside
        → s.shared.is_monitor_active ≡ 0
        → Step s (put j before_setup (activated 1 s.shared) s)
    sets_start :
        (j now : ℕ)
        → s.switches j ≡ before_setup
        → Step s (put j before_mod_timer (start_set now s.shared) s)
    arms :
        (j now : ℕ)
        → s.switches j ≡ before_mod_timer
        → Step s (put j outside (timer_set now s.shared) s)
    switches_off :
        (j : ℕ)
        → s.switches j ≡ outside
        → s.shared.is_monitor_active ≡ 1
        → Step s (put j before_wake (activated 0 s.shared) s)
    wakes_all :
        (j : ℕ)
        → s.switches j ≡ before_wake
        → Step s (put j before_times s.shared (record s { pc = woken s.pc }))
    sets_elapsed :
        (j now : ℕ)
        → s.switches j ≡ before_times
        → Step s (put j before_delete (elapsed_set now s.shared) s)
    deletes :
        (j : ℕ)
        → s.switches j ≡ before_delete
        → s.handler ≡ resting
        → Step s (put j outside (timer_down s.shared) s)
    -- the registries and the limit
    administers :
        (a : Admin)
        → is_switch a ≡ false
        → IsAllowed K a s.shared
        → Step s (record s { shared = admin K a s.shared })
    fires :
        (due : ℕ)
        → s.shared.epoch_timer ≡ some due
        → s.handler ≡ resting
        → Step s (record s { shared = timer_down s.shared; handler = testing })
    finds_off :
        s.handler ≡ testing
        → s.shared.is_monitor_active ≡ 0
        → Step s (record s { handler = resting })
    finds_on :
        s.handler ≡ testing
        → s.shared.is_monitor_active ≢ 0
        → Step s (record s { handler = working })
    counts : s.handler ≡ working → Step s (record s { shared = counted s.shared; handler = waking })
    wakes : s.handler ≡ waking → Step s (record s { pc = woken s.pc; handler = rearming })
    rearms :
        (now : ℕ)
        → s.handler ≡ rearming
        → Step s (record s { shared = timer_set now s.shared; handler = resting })
    -- the threads of the wrapper
    enters :
        (i : ℕ) (r : Request)
        → is_away (s.pc i) ≡ true
        → Step s (put_thread i (s.shared, entered r) s)
    runs : (i now : ℕ) → Step s (put_thread i (advance K now s.shared (s.pc i)) s)
    signals : (i : ℕ) → Step s (put_thread i (interrupt K s.shared (s.pc i)) s)

  -- After the module is loaded.
  abbrev pub loaded : (ℕ → ℕ) → ℕ → System K
  loaded table now = record {
    shared = core_setup K now (initial K table);
    switches = λ j. outside;
    handler = resting;
    pc = λ i. Pc.outside;
  }

  pub data Reach (table : ℕ → ℕ) (boot : ℕ) : System K → Type 0 where
    here : Reach table boot (loaded table boot)
    later : {s t : System K} → Reach table boot s → Step s t → Reach table boot t

  -- Nobody is in the middle of a switch.
  abbrev pub NobodySwitches : System K → Type 0
  NobodySwitches s = (j : ℕ) → s.switches j ≡ outside

  -- Each switch of the run begins when no other is under way.
  unfoldable pub IsSerial : {table : ℕ → ℕ} {boot : ℕ} {s : System K} → Reach table boot s → Type 0
  IsSerial here = Unit
  IsSerial (later {s = s} path (switches_on j stands off)) = IsSerial path × NobodySwitches s
  IsSerial (later {s = s} path (switches_off j stands on)) = IsSerial path × NobodySwitches s
  IsSerial (later path step) = IsSerial path

  -- With nothing in between, the accesses of each function make up the function.
  accesses_make_functions :
      (now : ℕ) (s : State K)
      → (s.is_monitor_active ≡ 0
          → (switch_on_monitor K now s).0 ≡ timer_set now (start_set now (activated 1 s)))
        × (s.is_monitor_active ≡ 1
            → (switch_off_monitor K now s).0 ≡ timer_down (elapsed_set now (activated 0 s)))
        × (s.is_monitor_active ≢ 0 → epoch_handler K now s ≡ timer_set now (counted s))
  unfolding switch_on_monitor switch_off_monitor epoch_handler counted
  accesses_make_functions now s = (λ off. ground arith, λ on. ground arith, λ on. ground arith)
