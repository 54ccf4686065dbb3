-- ===== src/Discovery/Route.antt =====
-- The way of a system call from x64_sys_call through `call` in src/my_usctm.c to the function that the
-- system call table has for it.
use soa_repo.Base.{ℕ, ◌+◌, ◌-◌, ◌*◌, ◌^◌, ◌<◌, ◌≤◌, ◌≡◌, ◌⊎◌, ◌∙◌, some, ◌==◌, u64, if◌then◌else◌}
use soa_repo.Kernel.{Kernel}
use soa_repo.Registry.Syscall.{check_syscall}
use soa_repo.Wrapper.Threads.{System, Run, loaded}
use soa_repo.Wrapper.Threads.Safety.{registries_agree}
use soa_repo.Discovery.Patch.{
  Dispatch, init_system_call_table, cleanup_system_call_table, jump_target,
  init_system_call_table-cleanup,
}

-- `mov (tbl, nr, 8), %rax; jmp *rax`: where it goes, in a memory of 64-bit words.
unfoldable pub call : (ℕ → ℕ) → ℕ → ℕ → ℕ
call words hacked_syscall_tbl nr = words (u64 (hacked_syscall_tbl + 8 * nr))

module _ (K : Kernel) (original : ℕ → ℕ) (n now : ℕ) (s : System K)
    (run : Run K n (loaded K original now) s) where
  -- In every reachable state, with the words of the table where the search found it, and with
  -- `call` at less than 2 ^ 31 bytes from the byte behind the patch: the instruction written over
  -- x64_sys_call is a jump to `call`; a system call in range goes from there to the wrapper if it is
  -- registered and to its own function if it is not; and after the clean-up every byte is as it was.
  pub init_system_call_table-call :
      (words : ℕ → ℕ) (table addr entry : ℕ) (d : Dispatch)
      → addr < 2 ^ 64
      → entry < 2 ^ 64
      → (u64 (entry + 2 ^ 65 - addr - 5) < 2 ^ 31)
        ⊎ (2 ^ 64 - 2 ^ 31 ≤ u64 (entry + 2 ^ 65 - addr - 5))
      → ((i : ℕ) → i < K.nr_syscalls → words (u64 (table + 8 * i)) ≡ s.shared.hacked_syscall_tbl i)
      → (nr : ℕ) → nr < K.nr_syscalls
      → ((init_system_call_table (some table) (some addr) entry d).0.text addr ≡ 233)
        × (jump_target (init_system_call_table (some table) (some addr) entry d).0.text addr
            ≡ entry)
        × (call words table nr
            ≡ (if check_syscall K nr s.shared == 0 then original nr else K.wrapper_address))
        × ((j : ℕ)
            → (cleanup_system_call_table
                  (init_system_call_table (some table) (some addr) entry d).0).text
                j
              ≡ d.text j)
  unfolding call
  init_system_call_table-call words table addr entry d low low' near holds nr in_range =
      let (opcode, target, cleaned) =
        init_system_call_table-cleanup table addr entry d low low' near in
      (
        opcode,
        target,
        holds nr in_range ∙ (registries_agree K original n now s run nr in_range).0,
        cleaned,
      )
