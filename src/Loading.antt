-- ===== src/Loading.antt =====
-- init_module and cleanup_module in src/throttling_mod.c.
pub mod Devices
pub mod Unload
use soa_repo.Base.{ℕ, ℤ, pos, negsuc, eperm, Option}
use soa_repo.Kernel.{Kernel}
use soa_repo.State.{State}
use soa_repo.Monitor.{core_setup}
use soa_repo.Cleanup.{cleanup_rcu}
use soa_repo.Discovery.Patch.{Dispatch, init_system_call_table, cleanup_system_call_table}
use Devices.{Pointer, Registration, dev_init, dev_cleanup}

-- The module's globals, with what it changed in the kernel.
pub record Module (K : Kernel) : Type 0 where
  pub shared : State K
  pub dispatch : Dispatch
  pub registration : Registration

-- What the steps of the loading meet: what the search and the kprobe find, the address of `call`, the
-- answers to the three registrations, and the clock.
pub record Boot : Type 0 where
  pub table : Option ℕ
  pub kprobe : Option ℕ
  pub call : ℕ
  pub chrdev : ℤ
  pub class : Pointer
  pub device : Pointer
  pub now : ℕ

module _ (K : Kernel) where
  -- The steps after init_system_call_table and after dev_init, by what those returned.
  -- core_setup returns 0.
  abbrev pub set_up_core : ℕ → ℤ → Module K → Module K × ℤ
  set_up_core now (pos ℕ.zero) m = (record m { shared = core_setup K now m.shared }, pos 0)
  set_up_core now (pos (ℕ.suc n)) m = (m, eperm)
  set_up_core now (negsuc n) m = (m, eperm)

  abbrev pub set_up_device : Boot → ℤ → Module K → Module K × ℤ
  set_up_device b (pos ℕ.zero) m =
      let (registration, result) = dev_init b.chrdev b.class b.device m.registration in
      set_up_core b.now result (record m { registration = registration })
  set_up_device b (pos (ℕ.suc n)) m = (m, eperm)
  set_up_device b (negsuc n) m = (m, eperm)

  unfoldable pub init_module : Boot → Module K → Module K × ℤ
  init_module b m =
      let (dispatch, result) = init_system_call_table b.table b.kprobe b.call m.dispatch in
      set_up_device b result (record m { dispatch = dispatch })

  unfoldable pub cleanup_module : ℕ → Module K → Module K
  cleanup_module now m = record {
    dispatch = cleanup_system_call_table m.dispatch;
    registration = dev_cleanup m.registration;
    shared = cleanup_rcu K now m.shared;
  }
