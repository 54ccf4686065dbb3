-- ===== src/Tests/Registries.antt =====
-- The registries of src/throttling_api.c, run on the stand-in kernel.
use soa_repo.Base.{
  ℕ, ◌+◌, ◌≡◌, ◌≤◌, refl, arith, some, ◌∷◌, [], List, pos, eexist, count, ◌==◌, length, min, take,
  find, keep, bytes_eq,
}
use soa_repo.Kernel.{unlink}
use soa_repo.Kernel.Chains.{test_kernel, chains, byte_sum, clamp}
use soa_repo.State.{State, initial, kfree, is}
use soa_repo.Registry.Validity.{IsValid}
use soa_repo.Registry.Start.{initial-IsValid}
use soa_repo.Registry.Uid.{
  register_user_id, deregister_user_id, check_uid, get_all_uids, find_uid, copy_uids,
}
use soa_repo.Registry.Prog.{
  register_prog_name, deregister_prog_name, check_progname, same_name, get_all_progs, copy_progs,
  find_prog,
}
use soa_repo.Registry.Syscall.{
  register_system_call, deregister_system_call, check_syscall, find_hack, get_all_syscalls,
  copy_syscalls,
}
use soa_repo.Registry.Uid.Validity.{register_user_id-IsValid}
use soa_repo.Registry.Uid.Listing.{get_all_uids-check_uid}
use soa_repo.Registry.Prog.Listing.{get_all_progs-check_progname}
use soa_repo.Registry.Syscall.Listing.{numbers, get_all_syscalls-check_syscall}
use soa_repo.Registry.Prog.Validity.{register_prog_name-IsValid}
use soa_repo.Registry.Syscall.Validity.{register_system_call-IsValid}

abbrev table : ℕ → ℕ
table i = 1000 + i

abbrev start : State test_kernel
start = initial test_kernel table

-- user id 1000, then the program `cat`, then system call 2
abbrev one_uid : State test_kernel
one_uid = (register_user_id test_kernel (some 100) 1000 start).0

abbrev cat : List ℕ
cat = b'c' ∷ b'a' ∷ b't' ∷ []

abbrev one_prog : State test_kernel
one_prog = (register_prog_name test_kernel (some 200) cat start).0

abbrev one_hack : State test_kernel
one_hack = (register_system_call test_kernel (some 300) (some 301) [] 2 start).0

program : ℕ
unfolding initial kfree chains byte_sum clamp unlink register_user_id deregister_user_id check_uid
    get_all_uids find_uid copy_uids register_prog_name deregister_prog_name check_progname find_prog
    get_all_progs copy_progs get_all_syscalls copy_syscalls numbers register_system_call
    deregister_system_call check_syscall find_hack find count keep bytes_eq
program = 0

one_uid-IsValid : IsValid test_kernel table one_uid
unfolding program
one_uid-IsValid =
    register_user_id-IsValid test_kernel table start (initial-IsValid test_kernel table) 100 1000
      refl

get_all_uids-check_uid_example :
    ((get_all_uids test_kernel (some 101) (pos 5) one_uid).1
      ≡ pos (length (get_all_uids test_kernel (some 101) (pos 5) one_uid).2))
    × (length (get_all_uids test_kernel (some 101) (pos 5) one_uid).2
        ≡ min 5 (length (test_kernel.uid_api.all one_uid.uid_hash)))
    × ((u : ℕ)
        → count (is u) (get_all_uids test_kernel (some 101) (pos 5) one_uid).2
          ≤ check_uid test_kernel u one_uid)
    × ((u : ℕ)
        → check_uid test_kernel u one_uid
          ≤ count (is u) (get_all_uids test_kernel (some 101) (pos 5) one_uid).2)
unfolding program
get_all_uids-check_uid_example =
    get_all_uids-check_uid test_kernel table one_uid one_uid-IsValid 101 5 (omega arith)

one_prog-IsValid : IsValid test_kernel table one_prog
unfolding program
one_prog-IsValid =
    register_prog_name-IsValid test_kernel table start (initial-IsValid test_kernel table) 200 cat
      refl (omega arith)

one_hack-IsValid : IsValid test_kernel table one_hack
unfolding program
one_hack-IsValid =
    register_system_call-IsValid test_kernel table start (initial-IsValid test_kernel table) 2 300
      301 [] refl refl (omega arith)

get_all_syscalls-check_syscall_example :
    ((get_all_syscalls test_kernel (some 302) (pos 5) one_hack).1 ≡ pos 1)
    × ((get_all_syscalls test_kernel (some 302) (pos 5) one_hack).2
        ≡ take 5 (keep (λ i. check_syscall test_kernel i one_hack == 1) (numbers 64 0)))
unfolding program
get_all_syscalls-check_syscall_example =
    get_all_syscalls-check_syscall test_kernel table one_hack one_hack-IsValid 302 5 (omega arith)

lists_two : (get_all_syscalls test_kernel (some 302) (pos 5) one_hack).2 ≡ 2 ∷ []
unfolding program
lists_two = refl

get_all_progs-check_progname_example :
    ((get_all_progs test_kernel (some 201) (pos 5) one_prog).1
      ≡ pos (length (get_all_progs test_kernel (some 201) (pos 5) one_prog).2))
    × (length (get_all_progs test_kernel (some 201) (pos 5) one_prog).2
        ≡ min 5 (length (test_kernel.prog_api.all one_prog.prog_hash)))
    × ((w : List ℕ)
        → count (λ a. same_name a w) (get_all_progs test_kernel (some 201) (pos 5) one_prog).2
          ≤ check_progname test_kernel w one_prog)
    × ((w : List ℕ)
        → check_progname test_kernel w one_prog
          ≤ count (λ a. same_name a w) (get_all_progs test_kernel (some 201) (pos 5) one_prog).2)
unfolding program
get_all_progs-check_progname_example =
    get_all_progs-check_progname test_kernel table one_prog one_prog-IsValid 201 5 (omega arith)

-- A second registration of one user id is refused, and the block is given back.
register_twice : register_user_id test_kernel (some 101) 1000 one_uid ≡ (one_uid, eexist)
unfolding program
register_twice = refl

-- A registration and its undoing leave no block behind.
register_deregister : (deregister_system_call test_kernel 2 one_hack).0.heap ≡ []
unfolding program
register_deregister = refl
