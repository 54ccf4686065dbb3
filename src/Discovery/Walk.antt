-- ===== src/Discovery/Walk.antt =====
-- sys_vtpmo in src/my_vtpmo.c: the walk through the page table. The words of physical memory, which
-- the code reads through phys_to_virt and __va, and the register CR3 are parameters.
pub mod Translation
use soa_repo.Base.{
  ℕ, ◌+◌, ◌*◌, ◌/◌, ◌%◌, ◌^◌, ◌<◌, ◌≡◌, arith, refl, Bool, true, false, not, ◌&&◌, ◌||◌, List, [],
  ◌∷◌, ℤ, eperm, int_of, u64, ◌==◌, if◌then◌else◌,
}
use soa_repo.Discovery.Scan.{is_no_map}

-- `& VALID` and `& LH_MAPPING`
abbrev pub is_valid_entry : ℕ → Bool
is_valid_entry e = e % 2 == 1

abbrev pub is_large : ℕ → Bool
is_large e = e / 2 ^ 7 % 2 == 1

-- `& PT_ADDRESS_MASK`, bits 12 to 62
abbrev pub frame_addr : ℕ → ℕ
frame_addr e = e % 2 ^ 63 / 4096 * 4096

-- PML4, PDP, PDE and PTE, by the shift
abbrev pub index : ℕ → ℕ → ℕ
index shift vaddr = vaddr / 2 ^ shift % 512

-- An `int` from a frame's address.
abbrev pub frame_number : ℕ → ℤ
frame_number e = int_of (frame_addr e / 2 ^ 12)

module _ (phys : ℕ → ℕ) (cr3 : ℕ) where
  abbrev pub entry_of : ℕ → ℕ → ℕ → ℕ
  entry_of table shift vaddr = phys (u64 (table + 8 * index shift vaddr))

  -- NO_MAP has the value of -EPERM.
  unfoldable pub sys_vtpmo : ℕ → ℤ
  sys_vtpmo vaddr =
      let pgd = entry_of (cr3 / 4096 * 4096) 39 vaddr in
      let pud = entry_of (frame_addr pgd) 30 vaddr in
      let pmd = entry_of (frame_addr pud) 21 vaddr in
      let pte = entry_of (frame_addr pmd) 12 vaddr in
      if not (is_valid_entry pgd)
      then eperm
      else if not (is_valid_entry pud)
      then eperm
      else if not (is_valid_entry pmd)
      then eperm
      else if is_large pmd
      then frame_number pmd
      else if is_valid_entry pte
      then frame_number pte
      else eperm
