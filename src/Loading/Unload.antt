-- ===== src/Loading/Unload.antt =====
-- Loading that fails half way, and loading followed by unloading.
use soa_repo.Base.{ℕ, ◌≡◌, refl, arith, false, none, some, ℤ, pos, negsuc, eperm}
use soa_repo.Kernel.{Kernel}
use soa_repo.State.{State, kfree-cons}
use soa_repo.Monitor.{switch_off_monitor}
use soa_repo.Monitor.Timer.{MonitorIsValid}
use soa_repo.Cleanup.{cleanup_rcu, drop_entries}
use soa_repo.Discovery.Patch.{init_system_call_table, cleaned_text, jump_written}
use soa_repo.Loading.{Module, Boot, init_module, cleanup_module}
use soa_repo.Loading.Devices.{
  Pointer, valid, err_ptr, devices_of, dev_init, dev_cleanup, all_work, IsError, mkdev,
}

-- The search and the kprobe work.
abbrev pub found : ℕ → ℕ → ℕ → ℤ → Pointer → Pointer → ℕ → Boot
found table addr call chrdev class device now = record {
  table = some table;
  kprobe = some addr;
  call = call;
  chrdev = chrdev;
  class = class;
  device = device;
  now = now;
}

module _ (K : Kernel) (m : Module K) (table addr call now : ℕ) where
  -- If the search and the kprobe work but the registration of the device does not, init_module returns
  -- -1, the kernel has the devices that it had, and the jump over x64_sys_call is still in place.
  pub init_module_half_way :
      (chrdev : ℤ) (class device : Pointer)
      → IsError class
      → IsError device
      → all_work chrdev class device ≡ false
      → ((init_module K (found table addr call chrdev class device now) m).1 ≡ eperm)
        × (devices_of
              (init_module K (found table addr call chrdev class device now) m).0.registration
            ≡ devices_of m.registration)
        × ((init_module K (found table addr call chrdev class device now) m).0.dispatch.text addr
            ≡ 233)
  unfolding init_module init_system_call_table dev_init
  init_module_half_way (negsuc e) class device h h' fails =
      (refl, refl, jump_written table addr call m.dispatch)
  init_module_half_way (pos major) (err_ptr (pos e)) device h h' fails = absurd h
  init_module_half_way (pos major) (err_ptr (negsuc e)) device h h' fails = (
    refl,
    ground (arith, kfree-cons major m.registration.chrdevs),
    jump_written table addr call m.dispatch,
  )
  init_module_half_way (pos major) (valid class) (err_ptr (pos e)) h h' fails = absurd h'
  init_module_half_way (pos major) (valid class) (err_ptr (negsuc e)) h h' fails = (
    refl,
    ground
        (arith, kfree-cons major m.registration.chrdevs, kfree-cons class m.registration.classes),
    jump_written table addr call m.dispatch,
  )
  init_module_half_way (pos major) (valid class) (valid device) h h' fails = cc

  module _ (major class device : ℕ) where
    -- The module after a loading that works.
    abbrev pub boot : Boot
    boot = found table addr call (pos major) (valid class) (valid device) now

    -- ... and then unloaded in the state `s`.
    abbrev pub unloaded : ℕ → State K → Module K
    unloaded later s = cleanup_module K later (record ((init_module K boot m).0) { shared = s })

    -- After a loading that works, and then anything that leaves the monitor valid, cleanup_module gives
    -- every byte of the kernel's code, where the jump was written, its old value, leaves the devices
    -- that the kernel had, and leaves the monitor off and its timer down; the system call table it
    -- leaves as it is, also where a system call that is still registered is patched.
    pub init_module-cleanup_module :
        (later : ℕ) (s : State K)
        → MonitorIsValid K s
        → ((init_module K boot m).1 ≡ pos 0)
          × ((j : ℕ) → (unloaded later s).dispatch.text j ≡ m.dispatch.text j)
          × (devices_of (unloaded later s).registration ≡ devices_of m.registration)
          × ((unloaded later s).shared.is_monitor_active ≡ 0)
          × ((unloaded later s).shared.epoch_timer ≡ none)
          × ((unloaded later s).shared.hacked_syscall_tbl ≡ s.hacked_syscall_tbl)
    unfolding init_module cleanup_module init_system_call_table dev_init dev_cleanup cleanup_rcu
        drop_entries switch_off_monitor
    init_module-cleanup_module later s v = (
      refl,
      cleaned_text table addr call m.dispatch,
      ground (
        arith,
        kfree-cons major m.registration.chrdevs,
        kfree-cons class m.registration.classes,
        kfree-cons (mkdev major) m.registration.nodes,
      ),
      ground arith,
      ground arith,
      ground arith,
    )
