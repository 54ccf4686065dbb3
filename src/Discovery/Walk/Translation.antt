-- ===== src/Discovery/Walk/Translation.antt =====
-- The answer of sys_vtpmo, compared with how the processor translates an address.
use soa_repo.Base.{
  ℕ, ◌+◌, ◌*◌, ◌/◌, ◌%◌, ◌^◌, ◌<◌, ◌≡◌, arith, refl, Bool, true, false, not, ◌&&◌, List, [], ◌∷◌,
  Option, none, some, ℤ, pos, eperm, u64, ◌==◌, if◌then◌else◌, Bool-cases, inl, inr,
}
use soa_repo.Discovery.Walk.{sys_vtpmo, frame_addr, frame_number, index, entry_of}

-- A level of the page table: which bits of an address choose the entry, and whether an entry may map a
-- page of its own, of 1 GB or of 2 MB.
pub record Level : Type 0 where
  pub shift : ℕ
  pub may_end : Bool

-- An entry of the processor: bit 0 says that it is present and bit 7, where it may, that it maps a page;
-- the physical address is in the bits from the size of what it maps up to bit 51.
abbrev pub present : ℕ → Bool
present e = e % 2 == 1

abbrev pub ends : Level → ℕ → Bool
ends l e = l.may_end && (e / 128 % 2 == 1)

abbrev pub base_of : ℕ → ℕ → ℕ
base_of shift e = e % 2 ^ 52 / 2 ^ shift * 2 ^ shift

abbrev pub levels : List Level
levels =
    record { shift = 39; may_end = false }
    ∷ record { shift = 30; may_end = true }
    ∷ record { shift = 21; may_end = true }
    ∷ record { shift = 12; may_end = false }
    ∷ []

module _ (phys : ℕ → ℕ) where
  -- The physical address of the page of an address, none if it is not mapped.
  unfoldable pub translate : List Level → ℕ → ℕ → Option ℕ
  translate [] table vaddr = some table
  translate (l ∷ ls) table vaddr =
      let e = phys (table + vaddr / 2 ^ l.shift % 512 * 8) in
      if not (present e)
      then none
      else if ends l e
      then some (base_of l.shift e)
      else translate ls (base_of 12 e) vaddr

-- The entry lies, and points, below 8 TB, and none of the bits that the processor leaves to software or
-- to protection keys is set.
abbrev pub IsPlain : ℕ → Type 0
IsPlain e = e % 2 ^ 63 < 2 ^ 43

base_plain : (e : ℕ) → IsPlain e → base_of 12 e ≡ frame_addr e
base_plain e plain = omega arith

large_plain : (e : ℕ) → IsPlain e → e % 2 ^ 21 / 4096 ≡ 0 → base_of 21 e ≡ frame_addr e
large_plain e plain aligned = omega arith

frame_plain : (e : ℕ) → IsPlain e → frame_number e ≡ pos (frame_addr e / 4096)
frame_plain e plain = ground arith

module _ (phys : ℕ → ℕ) (cr3 vaddr : ℕ) where
  abbrev pub pgd : ℕ
  pgd = entry_of phys cr3 (cr3 / 4096 * 4096) 39 vaddr

  abbrev pub pud : ℕ
  pud = entry_of phys cr3 (frame_addr pgd) 30 vaddr

  abbrev pub pmd : ℕ
  pmd = entry_of phys cr3 (frame_addr pud) 21 vaddr

  abbrev pub pte : ℕ
  pte = entry_of phys cr3 (frame_addr pmd) 12 vaddr

  -- What is asked of the entries on the way of one address, as far as the way goes: those that are
  -- present are plain, none of them maps 1 GB, and one that maps 2 MB has no bit between the flags
  -- and the address.
  pub record IsOrdinary : Type 0 where
    pub root : cr3 < 2 ^ 52
    pub pgd_plain : present pgd ≡ true → IsPlain pgd
    pub pud_plain :
        present pgd ≡ true → present pud ≡ true → IsPlain pud × ((pud / 128 % 2 == 1) ≡ false)
    pub pmd_plain :
        present pgd ≡ true
        → present pud ≡ true
        → present pmd ≡ true
        → IsPlain pmd × ((pmd / 128 % 2 == 1) ≡ true → pmd % 2 ^ 21 / 4096 ≡ 0)
    pub pte_plain :
        present pgd ≡ true
        → present pud ≡ true
        → present pmd ≡ true
        → present pte ≡ true
        → IsPlain pte

  word :
      (table shift : ℕ)
      → table < 2 ^ 63
      → table + vaddr / 2 ^ shift % 512 * 8 ≡ u64 (table + 8 * index shift vaddr)
  word table shift low = omega arith

  -- The frame of a page, as sys_vtpmo answers it.
  abbrev pub answer : Option ℕ → ℤ
  answer none = eperm
  answer (some base) = pos (base / 4096)

  -- On an ordinary way the answer is the number of the frame at which the processor finds the page of the
  -- address, and NO_MAP just where it finds none.
  pub sys_vtpmo-translate :
      IsOrdinary
      → sys_vtpmo phys cr3 vaddr ≡ answer (translate phys levels (cr3 / 4096 * 4096) vaddr)
  unfolding sys_vtpmo translate
  sys_vtpmo-translate o =
      let root = o.root in
      let first = word (cr3 / 4096 * 4096) 39 (omega arith) in
      elim (Bool-cases (present pgd)) [
        | inr no_pgd ↦ rw (sys_vtpmo, translate, first, no_pgd) refl
        | inl has_pgd ↦
            let base1 = base_plain pgd (o.pgd_plain has_pgd) in
            let second = word (frame_addr pgd) 30 (omega arith) in
            elim (Bool-cases (present pud)) [
              | inr no_pud ↦ rw (sys_vtpmo, translate, first, has_pgd, base1, second, no_pud) refl
              | inl has_pud ↦
                  let (pud_plain, no_1gb) = o.pud_plain has_pgd has_pud in
                  let base2 = base_plain pud pud_plain in
                  let third = word (frame_addr pud) 21 (omega arith) in
                  elim (Bool-cases (present pmd)) [
                    | inr no_pmd ↦
                        rw
                          (
                            sys_vtpmo, translate, first, has_pgd, base1, second, has_pud, no_1gb,
                            base2, third, no_pmd,
                          )
                          refl
                    | inl has_pmd ↦
                        let (pmd_plain, aligned) = o.pmd_plain has_pgd has_pud has_pmd in
                        elim (Bool-cases (pmd / 128 % 2 == 1)) [
                          | inl large ↦
                              rw
                                (
                                  sys_vtpmo,
                                  translate,
                                  first,
                                  has_pgd,
                                  base1,
                                  second,
                                  has_pud,
                                  no_1gb,
                                  base2,
                                  third,
                                  has_pmd,
                                  large,
                                  large_plain pmd pmd_plain (aligned large),
                                )
                                (frame_plain pmd pmd_plain)
                          | inr small ↦
                              let base3 = base_plain pmd pmd_plain in
                              let fourth = word (frame_addr pmd) 12 (omega arith) in
                              elim (Bool-cases (present pte)) [
                                | inr no_pte ↦
                                    rw
                                      (
                                        sys_vtpmo, translate, first, has_pgd, base1, second,
                                        has_pud, no_1gb, base2, third, has_pmd, small, base3,
                                        fourth, no_pte,
                                      )
                                      refl
                                | inl has_pte ↦
                                    let pte_plain = o.pte_plain has_pgd has_pud has_pmd has_pte in
                                    rw
                                      (
                                        sys_vtpmo,
                                        translate,
                                        first,
                                        has_pgd,
                                        base1,
                                        second,
                                        has_pud,
                                        no_1gb,
                                        base2,
                                        third,
                                        has_pmd,
                                        small,
                                        base3,
                                        fourth,
                                        has_pte,
                                        base_plain pte pte_plain,
                                      )
                                      (frame_plain pte pte_plain)
                              ]
                        ]
                  ]
            ]
      ]
