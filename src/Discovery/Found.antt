-- ===== src/Discovery/Found.antt =====
-- What `syscall_table_finder` finds.
use mathlib.Core.Path.{subst}
use soa_repo.Base.{
  ℕ, zero, suc, ◌+◌, ◌*◌, ◌/◌, ◌%◌, ◌^◌, ◌<◌, ◌≤◌, ◌≡◌, refl, arith, eq_of_==, ◌==◌, Bool, true,
  false, ◌&&◌, some, u64, ℤ, Bool-cases, Option-cases, inl, inr,
}
use soa_repo.Discovery.Scan.{
  is_no_map, first_page, pages, matches, validate_from, validate_page, find_from,
  syscall_table_finder,
}

module _ (word : ℕ → ℕ) (sys_vtpmo : ℕ → ℤ) where
  -- The loop stops early for the page behind, and not where that one is mapped.
  abbrev stops : ℕ → ℕ → Bool
  stops page new_page =
      u64 (page + 4096) == new_page / 4096 * 4096 && is_no_map (sys_vtpmo new_page)

  validate_from-matches :
      (n i page a : ℕ)
      → page + i + 8 * n < 2 ^ 64
      → validate_from word sys_vtpmo n i page ≡ some a
      → (matches word sys_vtpmo a ≡ true) × (page + i ≤ a) × (a < page + i + 8 * n)
  unfolding validate_from
  validate_from-matches zero i page a h e = cc
  validate_from-matches (suc n) i page a h e =
      ground (arith, validate_from-matches n (i + 8) page a (omega arith))

  goes_on :
      (page i : ℕ)
      → ((x : ℕ) → page + 4096 ≤ x → x < page + 8192 → is_no_map (sys_vtpmo x) ≡ false)
      → i < 4096
      → page + 8192 < 2 ^ 64
      → stops page (u64 (page + i + 236 * 8)) ≡ false
  goes_on page i mapped small bound =
      elim (Bool-cases (u64 (page + 4096) == u64 (page + i + 236 * 8) / 4096 * 4096)) [
        | inl e ↦
            let behind = eq_of_== (u64 (page + 4096)) (u64 (page + i + 236 * 8) / 4096 * 4096) e in
            rw (e, mapped (u64 (page + i + 236 * 8)) (omega arith) (omega arith)) refl
        | inr e ↦ rw e refl
      ]

  validate_from-le :
      (n i page t : ℕ)
      → ((x : ℕ) → page + 4096 ≤ x → x < page + 8192 → is_no_map (sys_vtpmo x) ≡ false)
      → t < n
      → i + 8 * n ≤ 4096
      → page + 8192 < 2 ^ 64
      → matches word sys_vtpmo (page + i + 8 * t) ≡ true
      → (a : ℕ) × (validate_from word sys_vtpmo n i page ≡ some a) × (a ≤ page + i + 8 * t)
  unfolding validate_from
  validate_from-le zero i page t mapped h within bound there = absurd (omega arith)
  validate_from-le (suc n) i page zero mapped h within bound there =
      let here : matches word sys_vtpmo (u64 (page + i)) ≡ true =
        subst (λ a. matches word sys_vtpmo a ≡ true) (omega arith) there in
      (
        u64 (page + i),
        rw (validate_from, goes_on page i mapped (omega arith) bound, here) refl,
        omega arith,
      )
  validate_from-le (suc n) i page (suc t) mapped h within bound there =
      elim (Bool-cases (matches word sys_vtpmo (u64 (page + i)))) [
        | inl here ↦ (
          u64 (page + i),
          rw (validate_from, goes_on page i mapped (omega arith) bound, here) refl,
          omega arith,
        )
        | inr not_here ↦
            let (a, e, le) =
              validate_from-le n (i + 8) page t mapped (omega arith) (omega arith) bound
                (subst (λ a. matches word sys_vtpmo a ≡ true) (omega arith) there) in
            (
              a,
              rw (validate_from, goes_on page i mapped (omega arith) bound, not_here) e,
              omega arith,
            )
      ]

  find_from-matches :
      (n k a : ℕ)
      → k % 4096 ≡ 0
      → k + 4096 * n < 2 ^ 64
      → find_from word sys_vtpmo n k ≡ some a
      → (matches word sys_vtpmo a ≡ true)
        × (k ≤ a)
        × (a < k + 4096 * n)
        × (is_no_map (sys_vtpmo (a / 4096 * 4096)) ≡ false)
  unfolding find_from
  find_from-matches zero k a whole bound e = cc
  find_from-matches (suc n) k a whole bound e = elim (Bool-cases (is_no_map (sys_vtpmo k))) [
    | inl absent ↦
        let (m, low, high, mapped) =
          find_from-matches n (k + 4096) a (omega arith) (omega arith) (ground arith) in
        (m, omega arith, omega arith, mapped)
    | inr present ↦ elim (Option-cases (validate_page word sys_vtpmo k)) [
      | inl nowhere ↦
          let (m, low, high, mapped) =
            find_from-matches n (k + 4096) a (omega arith) (omega arith)
              (rw (find_from, present, nowhere) at e) in
          (m, omega arith, omega arith, mapped)
      | inr (b, there) ↦
          let (m, low, high) = validate_from-matches 512 0 k a (omega arith) (
            subst (λ o. validate_page word sys_vtpmo k ≡ o) (rw (find_from, present, there) at e)
              there) in
          (
            m,
            omega arith,
            omega arith,
            subst (λ x. is_no_map (sys_vtpmo x) ≡ false) (omega arith) present,
          )
    ]
  ]

  find_from-le :
      (n k p t : ℕ)
      → p < n
      → t < 512
      → k + 4096 * n + 8192 < 2 ^ 64
      → is_no_map (sys_vtpmo (k + 4096 * p)) ≡ false
      → ((x : ℕ)
          → k + 4096 * p + 4096 ≤ x
          → x < k + 4096 * p + 8192
          → is_no_map (sys_vtpmo x) ≡ false)
      → matches word sys_vtpmo (k + 4096 * p + 8 * t) ≡ true
      → (a : ℕ) × (find_from word sys_vtpmo n k ≡ some a) × (a ≤ k + 4096 * p + 8 * t)
  unfolding find_from
  find_from-le zero k p t h small bound present mapped there = absurd (omega arith)
  find_from-le (suc n) k zero t h small bound present mapped there =
      let (a, e, le) =
        validate_from-le 512 0 k t (λ x low high. mapped x (omega arith) (omega arith)) small
          (omega arith) (omega arith)
          (subst (λ x. matches word sys_vtpmo x ≡ true) (omega arith) there) in
      let here : is_no_map (sys_vtpmo k) ≡ false =
        subst (λ x. is_no_map (sys_vtpmo x) ≡ false) (omega arith) present in
      (a, rw (find_from, here, e) refl, omega arith)
  find_from-le (suc n) k (suc p) t h small bound present mapped there =
      let (a, e, le) =
        find_from-le n (k + 4096) p t (omega arith) small (omega arith)
          (subst (λ x. is_no_map (sys_vtpmo x) ≡ false) (omega arith) present)
          (λ x low high. mapped x (omega arith) (omega arith))
          (subst (λ x. matches word sys_vtpmo x ≡ true) (omega arith) there) in
      elim (Bool-cases (is_no_map (sys_vtpmo k))) [
        | inl absent ↦ (a, rw (find_from, absent) e, omega arith)
        | inr here ↦ elim (Option-cases (validate_page word sys_vtpmo k)) [
          | inl nowhere ↦ (a, rw (find_from, here, nowhere) e, omega arith)
          | inr (b, found) ↦
              let (m, low, high) = validate_from-matches 512 0 k b (omega arith) found in
              (b, rw (find_from, here, found) refl, omega arith)
        ]
      ]

  -- What the search finds: if it leaves an address in `hacked_syscall_tbl`, that lies between START
  -- and MAX_ADDR, in a mapped page, and the words there have the pattern.
  pub syscall_table_finder-matches :
      (a : ℕ)
      → syscall_table_finder word sys_vtpmo ≡ some a
      → (matches word sys_vtpmo a ≡ true)
        × (first_page ≤ a)
        × (a < first_page + 4096 * pages)
        × (is_no_map (sys_vtpmo (a / 4096 * 4096)) ≡ false)
  unfolding syscall_table_finder
  syscall_table_finder-matches a e =
      find_from-matches pages first_page a (omega arith) (omega arith) e

  -- That the search finds something: if the pattern stands at a word of a mapped page between START
  -- and MAX_ADDR, and the page behind it is mapped, the search leaves an address, and one that is
  -- not above it.
  pub syscall_table_finder-le :
      (p t : ℕ)
      → p < pages
      → t < 512
      → is_no_map (sys_vtpmo (first_page + 4096 * p)) ≡ false
      → ((x : ℕ)
          → first_page + 4096 * p + 4096 ≤ x
          → x < first_page + 4096 * p + 8192
          → is_no_map (sys_vtpmo x) ≡ false)
      → matches word sys_vtpmo (first_page + 4096 * p + 8 * t) ≡ true
      → (a : ℕ) × (syscall_table_finder word sys_vtpmo ≡ some a)
        × (a ≤ first_page + 4096 * p + 8 * t)
  unfolding syscall_table_finder
  syscall_table_finder-le p t h small present mapped there =
      find_from-le pages first_page p t h small (omega arith) present mapped there
