-- ===== src/Tests/Histories.antt =====
-- Histories of the three registries.
use soa_repo.Base.{
  ℕ, ◌+◌, ◌<◌, ◌≡◌, if◌then◌else◌, refl, arith, Option, none, some, [], ◌∷◌, List, pos, enoent,
  enomem, eexist, ◌==◌, find, count, keep, bytes_eq,
}
use soa_repo.Kernel.{unlink}
use soa_repo.Kernel.Chains.{test_kernel, chains, byte_sum, clamp}
use soa_repo.State.{State, initial, kfree}
use soa_repo.Registry.Start.{initial-IsValid}
use soa_repo.Registry.Histories.{
  Change, registers, deregisters, is_some, run, AreAllowed, specified,
}
use soa_repo.Registry.Uid.{register_user_id, deregister_user_id, check_uid, find_uid}
use soa_repo.Registry.Uid.History.{change_uid, uid_registry, uid_registry-specified}
use soa_repo.Registry.Syscall.{
  register_system_call, deregister_system_call, check_syscall, find_hack,
}
use soa_repo.Registry.Syscall.History.{
  Blocks, are_enough, Number, same_number, change_syscall, syscall_registry,
  syscall_registry-specified,
}
use soa_repo.Registry.Prog.{
  register_prog_name, deregister_prog_name, check_progname, find_prog, same_name,
}
use soa_repo.Registry.Prog.History.{change_prog, prog_registry, prog_registry-specified}

abbrev table : ℕ → ℕ
table i = 1000 + i

abbrev start : State test_kernel
start = initial test_kernel table

program : ℕ
unfolding initial kfree chains byte_sum clamp unlink register_user_id deregister_user_id check_uid
    find_uid register_prog_name deregister_prog_name check_progname find_prog find count keep
    bytes_eq change_uid change_prog change_syscall register_system_call deregister_system_call
    check_syscall find_hack run AreAllowed specified
program = 0

-- User id 1000 is registered twice, 7 cannot be, and 1000 is deregistered twice.
abbrev uid_changes : List (Change (Option ℕ) ℕ)
uid_changes =
    registers (some 100) 1000
    ∷ registers (some 101) 1000
    ∷ registers none 7
    ∷ registers (some 102) 9
    ∷ deregisters 1000
    ∷ deregisters 1000
    ∷ []

uid_registry-specified_example :
    ((run (uid_registry test_kernel table) start uid_changes).1
      ≡ pos 0 ∷ eexist ∷ enomem ∷ pos 0 ∷ pos 0 ∷ enoent ∷ [])
    × ((w : ℕ)
        → check_uid test_kernel w (run (uid_registry test_kernel table) start uid_changes).0
          ≡ (specified is_some ◌==◌ (λ u. check_uid test_kernel u start) uid_changes).0 w)
unfolding program
uid_registry-specified_example =
    uid_registry-specified test_kernel table start uid_changes (initial-IsValid test_kernel table)
      (refl, (refl, (tt, (refl, (tt, (tt, tt))))))

abbrev cat : List ℕ
cat = b'c' ∷ b'a' ∷ b't' ∷ []

abbrev prog_changes : List (Change (Option ℕ) (List ℕ))
prog_changes = registers (some 200) cat ∷ registers (some 201) cat ∷ deregisters cat ∷ []

prog_registry-specified_example :
    ((run (prog_registry test_kernel table) start prog_changes).1 ≡ pos 0 ∷ eexist ∷ pos 0 ∷ [])
    × ((w : List ℕ)
        → check_progname test_kernel w (run (prog_registry test_kernel table) start prog_changes).0
          ≡ (specified is_some same_name (λ u. check_progname test_kernel u start) prog_changes).0
              w)
unfolding program
prog_registry-specified_example =
    prog_registry-specified test_kernel table start prog_changes (initial-IsValid test_kernel table)
      ((refl, omega arith), ((refl, omega arith), (tt, tt)))

-- System call 2 is registered twice, 60 cannot be, and 2 is deregistered twice.
one : 1 < test_kernel.nr_syscalls
unfolding program
one = omega arith

two : 2 < test_kernel.nr_syscalls
unfolding program
two = omega arith

sixty : 60 < test_kernel.nr_syscalls
unfolding program
sixty = omega arith

abbrev blocks : Option ℕ → Option ℕ → Blocks
blocks stats new_hack = record { stats = stats; new_hack = new_hack; junk = [] }

abbrev opens : Number test_kernel
opens = (2, two)

abbrev syscall_changes : List (Change Blocks (Number test_kernel))
syscall_changes =
    registers (blocks (some 300) (some 301)) opens
    ∷ registers (blocks (some 302) (some 303)) opens
    ∷ registers (blocks (some 304) none) (60, sixty)
    ∷ registers (blocks (some 304) (some 305)) (1, one)
    ∷ deregisters opens
    ∷ deregisters opens
    ∷ []

syscall_registry-specified_example :
    ((run (syscall_registry test_kernel table) start syscall_changes).1
      ≡ pos 0 ∷ eexist ∷ enomem ∷ pos 0 ∷ pos 0 ∷ enoent ∷ [])
    × ((w : Number test_kernel)
        → check_syscall test_kernel w.0
            (run (syscall_registry test_kernel table) start syscall_changes).0
          ≡ (specified are_enough
                (same_number test_kernel)
                (λ (u : Number test_kernel). check_syscall test_kernel u.0 start)
                syscall_changes).0
              w)
    × ((w : Number test_kernel)
        → (run (syscall_registry test_kernel table) start syscall_changes).0.hacked_syscall_tbl w.0
          ≡ (if (specified are_enough
                    (same_number test_kernel)
                    (λ (u : Number test_kernel). check_syscall test_kernel u.0 start)
                    syscall_changes).0
                  w
                == 0
              then table w.0
              else test_kernel.wrapper_address))
unfolding program
syscall_registry-specified_example =
    syscall_registry-specified test_kernel table start syscall_changes
      (initial-IsValid test_kernel table)
      ((refl, refl), ((refl, refl), (tt, ((refl, refl), (tt, (tt, tt))))))
