-- ===== src/Registry/Syscall/Listing.antt =====
-- `get_all_syscalls`: what the copied array holds.
use soa_repo.Base.{
  ℕ, zero, suc, ◌+◌, ◌<◌, ◌≤◌, ◌^◌, ◌≡◌, ◌∙◌, refl, ap, sym, arith, leb, take-length, some, Bool,
  not, ◌==◌, List, [], ◌∷◌, count, keep, take, pos, length, int_of, room, min, Bool-cases, inl, inr,
}
use soa_repo.Kernel.{Node, Kernel, HackedSyscall}
use soa_repo.State.{State}
use soa_repo.Registry.Validity.{IsValid}
use soa_repo.Registry.Syscall.{hack_hit, copy_syscalls, get_all_syscalls, check_syscall}

-- The numbers from `i` on.
unfoldable pub numbers : ℕ → ℕ → List ℕ
numbers zero i = []
numbers (suc n) i = i ∷ numbers n (i + 1)

keep-numbers :
    (p q : ℕ → Bool) (n i : ℕ)
    → ((j : ℕ) → j < i + n → p j ≡ q j)
    → keep p (numbers n i) ≡ keep q (numbers n i)
unfolding numbers keep
keep-numbers p q zero i h = refl
keep-numbers p q (suc n) i h =
    let rest = keep-numbers p q n (i + 1) (λ j lt. h j (omega arith)) in
    let first = h i (omega arith) in ground arith

module _ (K : Kernel) where
  copy_syscalls-keep :
      (rounds i n : ℕ) (array : ℕ → ℕ)
      → copy_syscalls K rounds i n array
        ≡ take n (keep (λ j. not (array j == 0)) (numbers rounds i))
  unfolding copy_syscalls numbers keep
  copy_syscalls-keep zero i zero array = refl
  copy_syscalls-keep zero i (suc n) array = refl
  copy_syscalls-keep (suc rounds) i zero array = refl
  copy_syscalls-keep (suc rounds) i (suc n) array = elim (Bool-cases (array i == 0)) [
    | inl off ↦ rw (off, copy_syscalls) (copy_syscalls-keep rounds (i + 1) (suc n) array)
    | inr on ↦ rw (on, copy_syscalls) (ap (λ l. i ∷ l) (copy_syscalls-keep rounds (i + 1) n array))
  ]

-- The entries of `n` system calls, each for itself.
unfoldable hits : ℕ → ℕ → List (Node HackedSyscall) → ℕ
hits zero i l = 0
hits (suc n) i l = count (λ e. hack_hit i e.val) l + hits n (i + 1) l

hits-nil : (n i : ℕ) → hits n i [] ≡ 0
unfolding hits count
hits-nil zero i = refl
hits-nil (suc n) i = omega (arith, hits-nil n (i + 1))

hits-below : (n i : ℕ) (e : Node HackedSyscall) → e.val.syscall_nr < i → hits n i (e ∷ []) ≡ 0
unfolding hits count
hits-below zero i e h = refl
hits-below (suc n) i e h = ground (arith, hits-below n (i + 1) e)

hits-one : (n i : ℕ) (e : Node HackedSyscall) → hits n i (e ∷ []) ≤ 1
unfolding hits count
hits-one zero i e = omega arith
hits-one (suc n) i e = ground (arith, hits-one n (i + 1) e, hits-below n (i + 1) e)

hits-cons :
    (n i : ℕ) (e : Node HackedSyscall) (l : List (Node HackedSyscall))
    → hits n i (e ∷ l) ≡ hits n i (e ∷ []) + hits n i l
unfolding hits count
hits-cons zero i e l = refl
hits-cons (suc n) i e l = omega (arith, hits-cons n (i + 1) e l)

-- An entry is of one system call.
hits-le : (n i : ℕ) (l : List (Node HackedSyscall)) → hits n i l ≤ length l
hits-le n i [] = omega (arith, hits-nil n i)
hits-le n i (e ∷ l) = omega (arith, hits-cons n i e l, hits-one n i e, hits-le n i l)

length-keep-le :
    (array : ℕ → ℕ) (l : List (Node HackedSyscall)) (n i : ℕ)
    → ((j : ℕ) → array j ≡ count (λ e. hack_hit j e.val) l)
    → length (keep (λ j. not (array j == 0)) (numbers n i)) ≤ hits n i l
unfolding numbers keep hits
length-keep-le array l zero i flagged = omega arith
length-keep-le array l (suc n) i flagged =
    let ih = length-keep-le array l n (i + 1) flagged in let flag = flagged i in ground arith

-- A bound that is no smaller than the list changes nothing.
take-min : (n m : ℕ) (l : List ℕ) → length l ≤ n → take (min n m) l ≡ take m l
take-min n m l h = elim (Bool-cases (leb m n)) [
  | inl le ↦ ap (λ k. take k l) (ground arith)
  | inr gt ↦
      let bound : min n m ≡ n = ground arith in
      rw bound (take-length n l h ∙ sym (take-length m l (ground arith)))
]

module _ (K : Kernel) (original : ℕ → ℕ) (s : State K) (v : IsValid K original s) where
  open K.hack_api use {all}

  -- With memory at hand, a bound `max` that is no negative number, and fewer than 2 ^ 31 system calls
  -- registered: the array holds the numbers for which `check_syscall` answers 1, in ascending order,
  -- the first `max` of them if there are more, and the return value is its length.
  pub get_all_syscalls-check_syscall :
      (p max : ℕ)
      → length (all s.hacked_syscall_hash) < 2 ^ 31
      → ((get_all_syscalls K (some p) (pos max) s).1
          ≡ pos (length (get_all_syscalls K (some p) (pos max) s).2))
        × ((get_all_syscalls K (some p) (pos max) s).2
            ≡ take max (keep (λ i. check_syscall K i s == 1) (numbers K.nr_syscalls 0)))
  unfolding get_all_syscalls check_syscall
  get_all_syscalls-check_syscall p max small = (
    rw (get_all_syscalls, room_left) refl,
    rw (get_all_syscalls, room_left)
        (copy_syscalls-keep K K.nr_syscalls 0 (min (length (all s.hacked_syscall_hash)) max)
            s.syscall_array
          ∙ take-min (length (all s.hacked_syscall_hash)) max
              (keep (λ j. not (s.syscall_array j == 0)) (numbers K.nr_syscalls 0)) enough
          ∙ ap (take max) (
              keep-numbers (λ j. not (s.syscall_array j == 0)) (λ i. check_syscall K i s == 1)
                K.nr_syscalls 0 checked)),
  )
    where
      room_left :
          room (int_of s.sys_len) (pos max) ≡ some (min (length (all s.hacked_syscall_hash)) max)
      room_left = ground (arith, v.hacks.counted)

      enough :
          length (keep (λ j. not (s.syscall_array j == 0)) (numbers K.nr_syscalls 0))
          ≤ length (all s.hacked_syscall_hash)
      enough = omega (
        arith,
        length-keep-le s.syscall_array (all s.hacked_syscall_hash) K.nr_syscalls 0 v.hacks.flagged,
        hits-le K.nr_syscalls 0 (all s.hacked_syscall_hash),
      )

      checked :
          (j : ℕ)
          → j < 0 + K.nr_syscalls
          → not (s.syscall_array j == 0) ≡ (check_syscall K j s == 1)
      checked j lt = rw (K.nospec_in_range j K.nr_syscalls (omega arith)) (ground arith)
