-- ===== src/Tests/Discovery.antt =====
-- The search for the system call table, the page walk and the jump, at concrete inputs.
use soa_repo.Base.{
  ℕ, ◌+◌, ◌-◌, ◌*◌, ◌/◌, ◌%◌, ◌^◌, ◌<◌, ◌≤◌, ◌≡◌, refl, arith, true, false, some, none, [], ◌∷◌,
  ◌==◌, ltb, ℤ, pos, if◌then◌else◌,
}
use soa_repo.Discovery.Scan.{
  is_no_map, first_page, pages, good_entries, matches, validate_from, find_from,
  syscall_table_finder,
}
use soa_repo.Discovery.Found.{syscall_table_finder-matches, syscall_table_finder-le}
use soa_repo.Discovery.Patch.{Dispatch, init_system_call_table, cleanup_system_call_table}
use soa_repo.Discovery.Protection.{
  Cpu, restored, write_cr0_forced, unprotect_memory, memcpy, protected_init, protected_cleanup,
  protected_init-init_system_call_table,
}
use soa_repo.Discovery.Walk.{sys_vtpmo}
use soa_repo.Discovery.Walk.Translation.{translate, IsOrdinary, sys_vtpmo-translate}

-- From entry 134 on, all system calls of the table at `base` are not implemented.
abbrev words : ℕ → ℕ → ℕ
words base x = if ltb x (base + 8 * 134) then x else 2 ^ 64 - 2 ^ 31

abbrev at_start : ℕ → ℕ
at_start = words first_page

abbrev all_mapped : ℕ → ℤ
all_mapped x = pos 7

syscall_table_finder-matches_example :
    (matches at_start all_mapped first_page ≡ true)
    × (first_page ≤ first_page)
    × (first_page < first_page + 4096 * pages)
    × (is_no_map (all_mapped (first_page / 4096 * 4096)) ≡ false)
unfolding syscall_table_finder find_from validate_from matches good_entries
syscall_table_finder-matches_example =
    syscall_table_finder-matches at_start all_mapped first_page refl

-- A table in the second page.
abbrev in_second : ℕ → ℕ
in_second = words (first_page + 4096 * 1 + 8 * 2)

syscall_table_finder-le_example :
    (a : ℕ) × (syscall_table_finder in_second all_mapped ≡ some a)
    × (a ≤ first_page + 4096 * 1 + 8 * 2)
unfolding matches good_entries
syscall_table_finder-le_example =
    syscall_table_finder-le in_second all_mapped 1 2 (omega arith) (omega arith) refl
      (λ x low high. refl) refl

abbrev kernel_text : Dispatch
kernel_text = record {
  text = λ a. a % 256;
  hacked_syscall_tbl = none;
  x64_sys_call_addr = 0;
  jump_inst = [];
  original_inst = [];
}

-- One table that is its own child at every level.
abbrev one_table : ℕ → ℕ
one_table a = if a == 8192 then 8193 else 0

one_table-IsOrdinary : IsOrdinary one_table 8192 5
one_table-IsOrdinary = record {
  root = omega arith;
  pgd_plain = λ a. omega arith;
  pud_plain = λ a b. (omega arith, refl);
  pmd_plain = λ a b c. (omega arith, λ large. cc);
  pte_plain = λ a b c d. omega arith;
}

sys_vtpmo-translate_example : sys_vtpmo one_table 8192 5 ≡ pos 2
unfolding translate
sys_vtpmo-translate_example = sys_vtpmo-translate one_table 8192 5 one_table-IsOrdinary

-- The first page is mapped, and the second is not.
walks : (sys_vtpmo one_table 8192 0 ≡ pos 2) × (is_no_map (sys_vtpmo one_table 8192 4096) ≡ true)
unfolding sys_vtpmo
walks = (refl, refl)

-- Write protection and CET are on.
abbrev cpu : Cpu
cpu = record {
  cr0 = 2 ^ 31 + 2 ^ 16 + 51;
  cr4 = 2 ^ 23 + 2 ^ 21 + 160;
  preempt = 1;
  saved_cr0 = 0;
  saved_cr4 = 0;
}

protected_init-init_system_call_table_example :
    ((saved : Cpu) × (protected_init (some 9000) (some 100000) 34469 cpu kernel_text
        ≡ some (
          saved,
          (init_system_call_table (some 9000) (some 100000) 34469 kernel_text).0,
          (init_system_call_table (some 9000) (some 100000) 34469 kernel_text).1,
        ))
      × (saved.cr0 ≡ 2 ^ 31 + 2 ^ 16 + 51)
      × (saved.cr4 ≡ 2 ^ 23 + 2 ^ 21 + 160)
      × (saved.preempt ≡ 1))
    × (protected_cleanup cpu kernel_text
        ≡ some (restored cpu, cleanup_system_call_table kernel_text))
protected_init-init_system_call_table_example =
    protected_init-init_system_call_table (some 9000) (some 100000) 34469 cpu kernel_text
      (λ h. refl)

-- Without begin_syscall_table_hack the write faults, and so does clearing CR0.WP under CET.
unprotected_only :
    (memcpy cpu (233 ∷ []) 100000 kernel_text.text ≡ none)
    × (unprotect_memory (restored cpu) ≡ none)
unfolding memcpy unprotect_memory write_cr0_forced
unprotected_only = (refl, refl)
