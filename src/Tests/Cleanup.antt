-- ===== src/Tests/Cleanup.antt =====
-- The clean-up, on the stand-in kernel.
use soa_repo.Base.{ℕ, ◌+◌, ◌≡◌, ◌≤◌, refl, arith, some, [], ◌∷◌, count, find, keep}
use soa_repo.Kernel.{at, unlink}
use soa_repo.Kernel.Chains.{test_kernel, chains, clamp}
use soa_repo.State.{State, initial, is, kfree}
use soa_repo.Registry.Validity.{IsValid}
use soa_repo.Registry.Start.{initial-IsValid}
use soa_repo.Registry.Syscall.{register_system_call, find_hack}
use soa_repo.Registry.Syscall.Validity.{register_system_call-IsValid}
use soa_repo.Monitor.{switch_off_monitor, core_cleanup}
use soa_repo.Cleanup.{del_all, free_all, drop_entries, cleanup_rcu, cleanup_rcu-leaves}

abbrev table : ℕ → ℕ
table i = 1000 + i

program : ℕ
unfolding initial kfree chains clamp unlink register_system_call find_hack find count keep
    switch_off_monitor core_cleanup del_all free_all drop_entries cleanup_rcu
program = 0

abbrev one_hack : State test_kernel
one_hack =
    (register_system_call test_kernel (some 300) (some 301) [] 2 (initial test_kernel table)).0

one_hack-IsValid : IsValid test_kernel table one_hack
unfolding program
one_hack-IsValid =
    register_system_call-IsValid test_kernel table (initial test_kernel table)
      (initial-IsValid test_kernel table) 2 300 301 [] refl refl (omega arith)

cleanup_rcu-leaves_example :
    (count
        (at 300)
        (test_kernel.hack_api.all (cleanup_rcu test_kernel 50 one_hack).hacked_syscall_hash)
      ≡ 0)
    × (count (at 300) (test_kernel.uid_api.all (cleanup_rcu test_kernel 50 one_hack).uid_hash) ≡ 0)
    × (count (at 300) (test_kernel.prog_api.all (cleanup_rcu test_kernel 50 one_hack).prog_hash)
        ≡ 0)
    × (1 ≤ count (is 300) (cleanup_rcu test_kernel 50 one_hack).heap)
    × ((cleanup_rcu test_kernel 50 one_hack).hacked_syscall_tbl 2 ≡ 4096)
unfolding program
cleanup_rcu-leaves_example = cleanup_rcu-leaves test_kernel table one_hack one_hack-IsValid 50 300 2

-- Of the two blocks of the registration, the one with the statistics stays out.
leaked : (cleanup_rcu test_kernel 50 one_hack).heap ≡ 300 ∷ []
unfolding program
leaked = refl
