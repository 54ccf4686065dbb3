-- ===== src/Device/Validity.antt =====
-- The invariants of the registries and of the monitor, under the commands of the device.
use soa_repo.Base.{ℕ, refl, Bool-cases, inl, inr, ◌==◌}
use soa_repo.Kernel.{Kernel}
use soa_repo.State.{State}
use soa_repo.Registry.Validity.{IsValid}
use soa_repo.Monitor.Timer.{MonitorIsValid, switch_off_monitor-MonitorIsValid}
use soa_repo.Wrapper.Threads.{Admin, admin, FreshOrNull, SecondIsFresh, IsAllowed}
use soa_repo.Wrapper.Threads.Validity.{admin-IsValid, switch_off_monitor-IsValid}
use soa_repo.Wrapper.Threads.Waiting.{admin-monitor}
use soa_repo.Device.{Command, controls, throttling_ioctl}
use soa_repo.Device.Queries.{Env}
use soa_repo.Device.Steps.{FitsInt, Obeyed, throttling_ioctl-Obeyed}
use soa_repo.Device.Controls.{monitor_off, control}

module _ (K : Kernel) where
  -- Both invariants.
  abbrev pub BothAreValid : (ℕ → ℕ) → State K → Type 0
  BothAreValid original s = IsValid K original s × MonitorIsValid K s

  module _ (original : ℕ → ℕ) (env : Env) (s : State K) (v : BothAreValid original s)
      (fresh : FreshOrNull K env.first_mem s.heap)
      (fresh_too : SecondIsFresh K env.first_mem env.second_mem s.heap) where
    by_admin : (a : Admin) → IsAllowed K a s → BothAreValid original (admin K a s)
    by_admin a h = (admin-IsValid K a s h v.0, (admin-monitor K a s v.1).0)

    Obeyed-Valid : {t : State K} → Obeyed K s t → BothAreValid original t
    Obeyed-Valid (inl same) = rw same v
    Obeyed-Valid (inr (a, allowed, same)) = rw same (by_admin a allowed)

    -- If the blocks that `kmalloc` gives out are not out already, every command of the device, given
    -- by anybody, keeps the invariants of the registries and of the monitor.
    pub throttling_ioctl-Valid :
        (cmd : Command) → FitsInt cmd → BothAreValid original (throttling_ioctl K env cmd s).0
    unfolding throttling_ioctl control
    throttling_ioctl-Valid (controls monitor_off) h = elim (Bool-cases (env.euid == 0)) [
      | inl e ↦ rw e (
        switch_off_monitor-IsValid K env.now s v.0,
        switch_off_monitor-MonitorIsValid K env.now s v.1,
      )
      | inr e ↦ rw e v
    ]
    throttling_ioctl-Valid c h =
        Obeyed-Valid (throttling_ioctl-Obeyed K env s fresh fresh_too c h refl)
