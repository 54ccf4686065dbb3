-- ===== src/Tests/Interface.antt =====
-- The interface on concrete input, with a scanf for which a character is a number or a word.
use mathlib.Core.Path.{subst}
use soa_repo.Base.{
  ℕ, ◌+◌, ◌-◌, ◌*◌, ◌%◌, ◌==◌, ◌<◌, ◌≤◌, ◌≡◌, ◌≢◌, refl, arith, true, some, none, List, [], ◌∷◌, ℤ,
  pos, length, count, find, keep, bytes_eq, ltb, if◌then◌else◌, Bool-cases, inl, inr,
}
use soa_repo.Kernel.{unlink}
use soa_repo.Kernel.Chains.{test_kernel, chains, byte_sum, clamp}
use soa_repo.State.{State, initial, is}
use soa_repo.Registry.Validity.{IsValid}
use soa_repo.Registry.Start.{initial-IsValid}
use soa_repo.Registry.Syscall.{register_system_call, check_syscall, find_hack}
use soa_repo.Registry.Syscall.Validity.{register_system_call-IsValid}
use soa_repo.Registry.Uid.{register_user_id, check_uid, find_uid, get_all_uids, copy_uids}
use soa_repo.Registry.Uid.Validity.{register_user_id-IsValid}
use soa_repo.Monitor.{core_setup}
use soa_repo.Monitor.Timer.{core_setup-MonitorIsValid}
use soa_repo.Device.Validity.{BothAreValid}
use soa_repo.Wrapper.Threads.{FreshOrNull, SecondIsFresh}
use soa_repo.Interface.Stdio.{Scan, matched, mismatch, at_eof, IntFits, Stdio}
use soa_repo.Interface.Messages.{syscall_registered, syscall_exists, uids}
use soa_repo.Interface.Calls.{World, Session}
use soa_repo.Interface.Options.{registers_syscall, lists_uids, dispatch}
use soa_repo.Interface.Main.{out_of_fuel, main_loop}
use soa_repo.Interface.Termination.{main_loop_ends}
use soa_repo.Interface.Validity.{Leaves, main_loop-Valid}
use soa_repo.Interface.Reports.{registers_syscall-check_syscall}
use soa_repo.Interface.Lists.{lists_uids-check_uid}

-- '0' is 48, and the characters before it are no numbers.
unfoldable scan_number : List ℕ → Scan ℤ
scan_number [] = at_eof
scan_number (c ∷ rest) =
    if ltb c 48 then mismatch (c ∷ rest) else matched (pos ((c - 48) % 128)) rest

unfoldable scan_letter : List ℕ → Scan (List ℕ)
scan_letter [] = at_eof
scan_letter (c ∷ rest) = matched (c ∷ []) rest

scan_number_matched :
    (input : List ℕ) (z : ℤ) (rest : List ℕ)
    → scan_number input ≡ matched z rest
    → (length rest < length input) × IntFits z
unfolding scan_number
scan_number_matched [] z rest e = cc
scan_number_matched (c ∷ l) z rest e = elim (Bool-cases (ltb c 48)) [
  | inl small ↦ absurd (ground arith)
  | inr large ↦
      let e' : matched (pos ((c - 48) % 128)) l ≡ matched z rest = ground arith in
      let number : pos ((c - 48) % 128) ≡ z = cc in
      let left : l ≡ rest = cc in (ground arith, subst IntFits number (omega arith))
]

scan_number_mismatch :
    (input rest : List ℕ) → scan_number input ≡ mismatch rest → length rest ≤ length input
unfolding scan_number
scan_number_mismatch [] rest e = cc
scan_number_mismatch (c ∷ l) rest e = ground arith

scan_letter_matched :
    (input word rest : List ℕ)
    → scan_letter input ≡ matched word rest
    → (length rest < length input) × (length word ≤ 15)
unfolding scan_letter
scan_letter_matched [] word rest e = cc
scan_letter_matched (c ∷ l) word rest e = ground arith

scan_letter_mismatch :
    (input rest : List ℕ) → scan_letter input ≡ mismatch rest → length rest ≤ length input
unfolding scan_letter
scan_letter_mismatch [] rest e = cc
scan_letter_mismatch (c ∷ l) rest e = cc

-- An allocator: no block that is out reaches the sum of all.
unfoldable total : List ℕ → ℕ
total [] = 0
total (p ∷ heap) = p + total heap

above : (p : ℕ) (heap : List ℕ) → total heap < p → count (is p) heap ≡ 0
unfolding total count
above p [] h = refl
above p (q ∷ heap) h = let ih = above p heap (omega arith) in ground arith

abbrev stdio : Stdio
stdio = record {
  scan_int = scan_number;
  scan_int_matched = scan_number_matched;
  scan_int_mismatch = scan_number_mismatch;
  scan_word = scan_letter;
  scan_word_matched = scan_letter_matched;
  scan_word_mismatch = scan_letter_mismatch;
}

-- Root, with memory, or without it at every third call.
abbrev world : World
world = record {
  env = λ k heap. record {
    now = 7000 + 100 * k;
    euid = 0;
    first_mem = if k % 3 == 2 then none else some (1 + total heap);
    second_mem = some (2 + 2 * total heap);
    junk = [];
    first_copy = true;
    second_copy = true;
  };
  malloc = λ k. some 5000;
}

fresh : (k : ℕ) (heap : List ℕ) → FreshOrNull test_kernel (world.env k heap).first_mem heap
fresh k heap = elim (Bool-cases (k % 3 == 2)) [
  | inl no_memory ↦ rw no_memory tt
  | inr memory ↦ rw memory (above (1 + total heap) heap (omega arith))
]

fresh_too :
    (k : ℕ) (heap : List ℕ)
    → SecondIsFresh test_kernel (world.env k heap).first_mem (world.env k heap).second_mem heap
unfolding total
fresh_too k heap = elim (Bool-cases (k % 3 == 2)) [
  | inl no_memory ↦ rw no_memory tt
  | inr memory ↦ rw memory (above (2 + 2 * total heap) ((1 + total heap) ∷ heap) (omega arith))
]

abbrev table : ℕ → ℕ
table i = 1000 + i

abbrev set_up : State test_kernel
set_up = core_setup test_kernel 5000 (initial test_kernel table)

program : ℕ
unfolding initial chains byte_sum clamp unlink find count keep bytes_eq core_setup find_hack
    find_uid register_system_call register_user_id check_uid
program = 0

set_up-IsValid : IsValid test_kernel table set_up
unfolding program
set_up-IsValid =
    let v = initial-IsValid test_kernel table in
    record { uids = v.uids; progs = v.progs; hacks = v.hacks; heaped = v.heaped }

-- Option 1 and the number 3, the list of user ids, and the end of the program.
abbrev session : Session test_kernel
session = record {
  shared = set_up;
  int_val = pos 0;
  uid_val = 0;
  str_val = [];
  input = 49 ∷ 51 ∷ 65 ∷ 48 ∷ [];
  output = [];
  calls = 0;
}

main_loop_ends_example :
    (main_loop test_kernel stdio world 5 session ≢ out_of_fuel)
    × (main_loop test_kernel stdio world 5 session ≡ main_loop test_kernel stdio world 90 session)
main_loop_ends_example =
    main_loop_ends test_kernel stdio world 5 90 session (omega arith) (omega arith) (omega arith)

main_loop-Valid_example :
    Leaves test_kernel
      (BothAreValid test_kernel table)
      (main_loop test_kernel stdio world 5 session)
main_loop-Valid_example =
    main_loop-Valid test_kernel stdio world table fresh fresh_too 5 session (omega arith)
      (omega arith) (set_up-IsValid, core_setup-MonitorIsValid test_kernel table 5000)

-- Option 1, with 3 still to be typed.
abbrev typing : Session test_kernel
typing = record session { input = 51 ∷ 65 ∷ [] }

registers_syscall-check_syscall_example :
    ((dispatch test_kernel stdio world registers_syscall typing).output
      ≡ (if check_syscall test_kernel 3 set_up == 0
          then syscall_registered (pos 3)
          else syscall_exists (pos 3))
        ∷ [])
    × (check_syscall test_kernel 3
          (dispatch test_kernel stdio world registers_syscall typing).shared
        ≡ 1)
    × ((dispatch test_kernel stdio world registers_syscall typing).input ≡ 65 ∷ [])
unfolding program total scan_number
registers_syscall-check_syscall_example =
    registers_syscall-check_syscall test_kernel stdio world table typing set_up-IsValid 3 1 2
      (omega arith) refl refl refl (65 ∷ []) refl refl refl

-- A registered system call and two user ids, and then the list.
abbrev with_hack : State test_kernel
with_hack = (register_system_call test_kernel (some 200) (some 300) [] 3 set_up).0

with_hack-IsValid : IsValid test_kernel table with_hack
unfolding program
with_hack-IsValid =
    register_system_call-IsValid test_kernel table set_up set_up-IsValid 3 200 300 [] refl refl
      (omega arith)

abbrev with_one : State test_kernel
with_one = (register_user_id test_kernel (some 400) 1000 with_hack).0

with_one-IsValid : IsValid test_kernel table with_one
unfolding program
with_one-IsValid =
    register_user_id-IsValid test_kernel table with_hack with_hack-IsValid 400 1000 refl

abbrev listing : Session test_kernel
listing = record session { shared = with_one }

lists_uids-check_uid_example :
    ((dispatch test_kernel stdio world lists_uids listing).output ≡ uids 1 (1000 ∷ []) ∷ [])
    × (length {A = ℕ} (1000 ∷ []) ≡ 1)
    × (count (is 1000) (1000 ∷ []) ≤ check_uid test_kernel 1000 with_one)
unfolding program total get_all_uids copy_uids
lists_uids-check_uid_example =
    lists_uids-check_uid test_kernel stdio world table listing with_one-IsValid 901 5000
      (omega arith) (omega arith) (omega arith) refl refl refl refl refl (λ e. cc) 1000
