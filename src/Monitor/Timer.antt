-- ===== src/Monitor/Timer.antt =====
-- The life of `epoch_timer` and of the limit, over any history of switches, limits and expiries.
use soa_repo.Base.{ℕ, ◌≤◌, ◌<◌, ◌^◌, ◌≡◌, List, [], ◌∷◌, Option, none, some, arith, int_of}
use soa_repo.Kernel.{Kernel}
use soa_repo.State.{State, initial}
use soa_repo.Monitor.{
  core_setup, epoch_handler, switch_on_monitor, switch_off_monitor, set_max_syscall,
}

abbrev pub is_armed : Option ℕ → ℕ
is_armed none = 0
is_armed (some due) = 1

module _ (K : Kernel) where
  -- When the timer goes off the kernel takes it down, then it runs the handler. A timer that is not
  -- armed does not go off.
  unfoldable pub epoch_timer_fires : ℕ → State K → State K
  epoch_timer_fires now s = elim s.epoch_timer [
    | none ↦ s
    | some due ↦ epoch_handler K now (record s { epoch_timer = none })
  ]

  -- The monitor is on or off, the timer is armed just while it is on, and the limit and the tokens
  -- are numbers that an `int` holds, the limit a positive one.
  pub record MonitorIsValid (s : State K) : Type 0 where
    pub switched : s.is_monitor_active ≤ 1
    pub armed : is_armed s.epoch_timer ≡ s.is_monitor_active
    pub limited : (0 < s.max_syscalls_per_sec) × (s.max_syscalls_per_sec < 2 ^ 31)
    pub tokens : s.curr_syscalls < 2 ^ 31

  pub core_setup-MonitorIsValid :
      (table : ℕ → ℕ) (now : ℕ) → MonitorIsValid (core_setup K now (initial K table))
  unfolding core_setup initial
  core_setup-MonitorIsValid table now = ground arith

  pub epoch_timer_fires-MonitorIsValid :
      (now : ℕ) (s : State K) → MonitorIsValid s → MonitorIsValid (epoch_timer_fires now s)
  unfolding epoch_timer_fires epoch_handler
  epoch_timer_fires-MonitorIsValid now s v = ground arith

  pub switch_on_monitor-MonitorIsValid :
      (now : ℕ) (s : State K) → MonitorIsValid s → MonitorIsValid (switch_on_monitor K now s).0
  unfolding switch_on_monitor
  switch_on_monitor-MonitorIsValid now s v = ground arith

  pub switch_off_monitor-MonitorIsValid :
      (now : ℕ) (s : State K) → MonitorIsValid s → MonitorIsValid (switch_off_monitor K now s).0
  unfolding switch_off_monitor
  switch_off_monitor-MonitorIsValid now s v = ground arith

  pub set_max_syscall-MonitorIsValid :
      (w : ℕ) (s : State K) → MonitorIsValid s → MonitorIsValid (set_max_syscall K (int_of w) s).0
  unfolding set_max_syscall
  set_max_syscall-MonitorIsValid w s v = ground arith

-- A call of the administrator, or the timer.
pub data Call : Type 0 where
  switches_on switches_off fires : Call
  sets_max : ℕ → Call

module _ (K : Kernel) where
  unfoldable pub step : State K → ℕ × Call → State K
  step s (now, switches_on) = (switch_on_monitor K now s).0
  step s (now, switches_off) = (switch_off_monitor K now s).0
  step s (now, fires) = epoch_timer_fires K now s
  step s (now, sets_max w) = (set_max_syscall K (int_of w) s).0

  unfoldable pub run : State K → List (ℕ × Call) → State K
  run s [] = s
  run s (c ∷ cs) = run (step s c) cs

  step-MonitorIsValid :
      (s : State K) (c : ℕ × Call) → MonitorIsValid K s → MonitorIsValid K (step s c)
  unfolding step
  step-MonitorIsValid s (now, switches_on) v = switch_on_monitor-MonitorIsValid K now s v
  step-MonitorIsValid s (now, switches_off) v = switch_off_monitor-MonitorIsValid K now s v
  step-MonitorIsValid s (now, fires) v = epoch_timer_fires-MonitorIsValid K now s v
  step-MonitorIsValid s (now, sets_max w) v = set_max_syscall-MonitorIsValid K w s v

  run-keeps :
      (s : State K) (cs : List (ℕ × Call)) → MonitorIsValid K s → MonitorIsValid K (run s cs)
  unfolding run
  run-keeps s [] v = v
  run-keeps s (c ∷ cs) v = run-keeps (step s c) cs (step-MonitorIsValid s c v)

  -- After the module is loaded and any history of switches, limits and expiries, the monitor is on
  -- or off, the timer is armed just while it is on, the limit is positive, and limit and tokens are
  -- below 2 ^ 31.
  pub run-MonitorIsValid :
      (table : ℕ → ℕ) (now : ℕ) (cs : List (ℕ × Call))
      → MonitorIsValid K (run (core_setup K now (initial K table)) cs)
  run-MonitorIsValid table now cs = run-keeps _ cs (core_setup-MonitorIsValid K table now)
