-- ===== src/Discovery/Scan.antt =====
-- The search for the system call table in src/my_usctm.c: good_area, validate_page and
-- syscall_table_finder. Memory is a function from addresses to words; sys_vtpmo is a parameter.
use soa_repo.Base.{
  ℕ, zero, suc, ◌+◌, ◌-◌, ◌*◌, ◌/◌, ◌%◌, ◌^◌, ◌==◌, Bool, true, false, not, ◌&&◌, Option, none,
  some, ltb, if◌then◌else◌, u64, ℤ, pos, negsuc,
}

-- NO_MAP is -1.
abbrev pub is_no_map : ℤ → Bool
is_no_map (pos n) = false
is_no_map (negsuc n) = n == 0

-- START, and the pages from there to MAX_ADDR.
abbrev pub first_page : ℕ
first_page = 2 ^ 64 - 2 ^ 32

abbrev pub pages : ℕ
pages = 2 ^ 20 - 2 ^ 8

module _ (word : ℕ → ℕ) (sys_vtpmo : ℕ → ℤ) where
  -- `addr[i]`
  abbrev pub entry : ℕ → ℕ → ℕ
  entry addr i = word (u64 (addr + 8 * i))

  -- The loop of `good_area`, with so many rounds left.
  unfoldable pub good_entries : ℕ → ℕ → ℕ → Bool
  good_entries zero i addr = true
  good_entries (suc n) i addr =
      let rest = good_entries n (i + 1) addr in
      if entry addr i == entry addr 134 then false else rest

  abbrev pub good_area : ℕ → Bool
  good_area addr = good_entries 133 1 addr

  -- The pattern that `validate_page` looks for.
  unfoldable pub matches : ℕ → Bool
  matches addr =
      entry addr 134 % 4 == 0
      && not (entry addr 134 == 0)
      && ltb (2 ^ 64 - 2 ^ 32) (entry addr 134)
      && entry addr 134 == entry addr 174
      && entry addr 134 == entry addr 182
      && entry addr 134 == entry addr 183
      && entry addr 134 == entry addr 214
      && entry addr 134 == entry addr 215
      && entry addr 134 == entry addr 236
      && good_area addr

  -- The loop of `validate_page` from offset `i`; the table's address where it returns 1.
  unfoldable pub validate_from : ℕ → ℕ → ℕ → Option ℕ
  validate_from zero i page = none
  validate_from (suc n) i page =
      let new_page = u64 (page + i + 236 * 8) in
      let rest = validate_from n (i + 8) page in
      if u64 (page + 4096) == new_page / 4096 * 4096 && is_no_map (sys_vtpmo new_page)
      then none
      else if matches (u64 (page + i))
      then some (u64 (page + i))
      else rest

  -- PAGE_SIZE / sizeof(void*) rounds.
  abbrev pub validate_page : ℕ → Option ℕ
  validate_page page = validate_from 512 0 page

  -- The loop of `syscall_table_finder` from page `k`, and what it leaves in `hacked_syscall_tbl`.
  unfoldable pub find_from : ℕ → ℕ → Option ℕ
  find_from zero k = none
  find_from (suc n) k =
      let rest = find_from n (k + 4096) in
      if is_no_map (sys_vtpmo k)
      then rest
      else elim (validate_page k) [ none ↦ rest | some table ↦ some table ]

  unfoldable pub syscall_table_finder : Option ℕ
  syscall_table_finder = find_from pages first_page
