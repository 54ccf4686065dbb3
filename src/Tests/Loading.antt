-- ===== src/Tests/Loading.antt =====
-- Loading and unloading, on the stand-in kernel.
use soa_repo.Base.{ℕ, ◌+◌, ◌%◌, ◌≡◌, refl, false, none, [], ◌∷◌, pos, negsuc, eperm}
use soa_repo.Kernel.Chains.{test_kernel}
use soa_repo.State.{initial}
use soa_repo.Monitor.{core_setup}
use soa_repo.Monitor.Timer.{core_setup-MonitorIsValid}
use soa_repo.Loading.{Module, init_module}
use soa_repo.Loading.Devices.{
  Registration, valid, err_ptr, devices_of, dev_init, returns_zero, dev_init-dev_cleanup,
}
use soa_repo.Loading.Unload.{
  found, unloaded, boot, init_module_half_way, init_module-cleanup_module,
}

abbrev table : ℕ → ℕ
table i = 1000 + i

abbrev registration : Registration
registration = record {
  major = pos 0;
  throttling_class = valid 0;
  throttling_device = valid 0;
  chrdevs = 4 ∷ 5 ∷ [];
  classes = 70 ∷ [];
  nodes = [];
}

dev_init-dev_cleanup_example :
    (returns_zero (dev_init (pos 240) (valid 71) (err_ptr (negsuc 11)) registration).1 ≡ false)
    × (devices_of (dev_init (pos 240) (valid 71) (err_ptr (negsuc 11)) registration).0
        ≡ (4 ∷ 5 ∷ [], 70 ∷ [], []))
dev_init-dev_cleanup_example =
    dev_init-dev_cleanup (pos 240) (valid 71) (err_ptr (negsuc 11)) registration tt tt

abbrev loaded : Module test_kernel
loaded = record {
  shared = initial test_kernel table;
  dispatch = record {
    text = λ a. a % 251;
    hacked_syscall_tbl = none;
    x64_sys_call_addr = 0;
    jump_inst = [];
    original_inst = [];
  };
  registration = registration;
}

-- The device cannot be created, and the byte at 4096 is the jump's.
init_module_half_way_example :
    ((init_module test_kernel
        (found 900 4096 8192 (pos 240) (valid 71) (err_ptr (negsuc 11)) 5000)
        loaded).1
      ≡ eperm)
    × (devices_of (
          (init_module test_kernel
            (found 900 4096 8192 (pos 240) (valid 71) (err_ptr (negsuc 11)) 5000)
            loaded).0.registration)
        ≡ (4 ∷ 5 ∷ [], 70 ∷ [], []))
    × ((init_module test_kernel
            (found 900 4096 8192 (pos 240) (valid 71) (err_ptr (negsuc 11)) 5000)
            loaded).0.dispatch.text
          4096
        ≡ 233)
init_module_half_way_example =
    init_module_half_way test_kernel loaded 900 4096 8192 5000 (pos 240) (valid 71)
      (err_ptr (negsuc 11)) tt tt refl

-- Unloaded a while after it was loaded.
init_module-cleanup_module_example :
    ((init_module test_kernel (boot test_kernel loaded 900 4096 8192 5000 240 71 72) loaded).1
      ≡ pos 0)
    × ((j : ℕ)
        → (unloaded test_kernel loaded 900 4096 8192 5000 240 71 72 9000
              (core_setup test_kernel 5000 (initial test_kernel table))).dispatch.text
            j
          ≡ j % 251)
    × (devices_of (
          (unloaded test_kernel loaded 900 4096 8192 5000 240 71 72 9000
            (core_setup test_kernel 5000 (initial test_kernel table))).registration)
        ≡ (4 ∷ 5 ∷ [], 70 ∷ [], []))
    × ((unloaded test_kernel loaded 900 4096 8192 5000 240 71 72 9000
          (core_setup test_kernel 5000 (initial test_kernel table))).shared.is_monitor_active
        ≡ 0)
    × ((unloaded test_kernel loaded 900 4096 8192 5000 240 71 72 9000
          (core_setup test_kernel 5000 (initial test_kernel table))).shared.epoch_timer
        ≡ none)
    × ((unloaded test_kernel loaded 900 4096 8192 5000 240 71 72 9000
          (core_setup test_kernel 5000 (initial test_kernel table))).shared.hacked_syscall_tbl
        ≡ (core_setup test_kernel 5000 (initial test_kernel table)).hacked_syscall_tbl)
init_module-cleanup_module_example =
    init_module-cleanup_module test_kernel loaded 900 4096 8192 5000 240 71 72 9000
      (core_setup test_kernel 5000 (initial test_kernel table))
      (core_setup-MonitorIsValid test_kernel table 5000)
