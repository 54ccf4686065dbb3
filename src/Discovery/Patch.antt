-- ===== src/Discovery/Patch.antt =====
-- init_system_call_table and cleanup_system_call_table in src/my_usctm.c: the jump written over the
-- first bytes of `x64_sys_call`. Memory is a function from addresses to bytes; write protection and
-- preemption are in Discovery/Protection.
use mathlib.Core.Path.{subst}
use soa_repo.Base.{
  ℕ, zero, suc, ◌+◌, ◌-◌, ◌*◌, ◌/◌, ◌%◌, ◌^◌, ◌<◌, ◌≤◌, ◌≡◌, ◌⊎◌, arith, sym, Option, none, some,
  List, [], ◌∷◌, ℤ, pos, eperm, u64, u32, sign_extend,
}
use soa_repo.State.{update}

-- memcpy from memory, and to memory.
unfoldable pub read : ℕ → ℕ → (ℕ → ℕ) → List ℕ
read zero a text = []
read (suc n) a text = text a ∷ read n (a + 1) text

unfoldable pub write : List ℕ → ℕ → (ℕ → ℕ) → ℕ → ℕ
write [] a text = text
write (b ∷ bs) a text = write bs (a + 1) (update text a b)

-- The globals, and the bytes of the kernel's code. The words of the system call table are in `State`.
pub record Dispatch : Type 0 where
  pub text : ℕ → ℕ
  pub hacked_syscall_tbl : Option ℕ
  pub x64_sys_call_addr : ℕ
  pub jump_inst : List ℕ
  pub original_inst : List ℕ

-- The bytes of an `int`, the lowest first.
abbrev pub int_bytes : ℕ → List ℕ
int_bytes w = w % 256 ∷ w / 256 % 256 ∷ w / 2 ^ 16 % 256 ∷ w / 2 ^ 24 % 256 ∷ []

-- With what the search leaves, the address that the kprobe gives, none if it cannot be registered,
-- and the address of `call`.
unfoldable pub init_system_call_table : Option ℕ → Option ℕ → ℕ → Dispatch → Dispatch × ℤ
init_system_call_table none kprobe call d = (record d { hacked_syscall_tbl = none }, eperm)
init_system_call_table (some table) none call d =
    (record d { hacked_syscall_tbl = some table }, eperm)
init_system_call_table (some table) (some addr) call d =
    let jump = 233 ∷ int_bytes (u32 (call + 2 ^ 65 - addr - 5)) in
    (
      record {
        text = write jump addr d.text;
        hacked_syscall_tbl = some table;
        x64_sys_call_addr = addr;
        jump_inst = jump;
        original_inst = read 5 addr d.text;
      },
      pos 0,
    )

unfoldable pub cleanup_system_call_table : Dispatch → Dispatch
cleanup_system_call_table d = record d { text = write d.original_inst d.x64_sys_call_addr d.text }

-- Where a jump instruction at an address goes: behind it, and on by its signed distance.
abbrev pub jump_target : (ℕ → ℕ) → ℕ → ℕ
jump_target text a = u64 (
    a
    + 5
    + sign_extend
        (text (a + 1) + 256 * text (a + 2) + 2 ^ 16 * text (a + 3) + 2 ^ 24 * text (a + 4)))

bytes_sum :
    (w : ℕ)
    → w < 2 ^ 32
    → w % 256 + 256 * (w / 256 % 256) + 2 ^ 16 * (w / 2 ^ 16 % 256) + 2 ^ 24 * (w / 2 ^ 24 % 256)
      ≡ w
bytes_sum w h = omega arith

-- The distance survives the cut to an `int`.
jump_distance :
    (addr call : ℕ)
    → addr < 2 ^ 64
    → call < 2 ^ 64
    → (u64 (call + 2 ^ 65 - addr - 5) < 2 ^ 31) ⊎ (2 ^ 64 - 2 ^ 31 ≤ u64 (call + 2 ^ 65 - addr - 5))
    → u64 (addr + 5 + sign_extend (u32 (call + 2 ^ 65 - addr - 5))) ≡ call
jump_distance addr call low low' near = ground arith

-- The clean-up gives every byte its old value.
pub cleaned_text :
    (table addr call : ℕ) (d : Dispatch) (j : ℕ)
    → (cleanup_system_call_table (init_system_call_table (some table) (some addr) call d).0).text j
      ≡ d.text j
unfolding init_system_call_table cleanup_system_call_table read write
cleaned_text table addr call d j = ground arith

pub jump_written :
    (table addr call : ℕ) (d : Dispatch)
    → (init_system_call_table (some table) (some addr) call d).0.text addr ≡ 233
unfolding init_system_call_table write
jump_written table addr call d = ground arith

-- With the table found and the kprobe registered, the instruction written over `x64_sys_call` is a
-- jump to `call`, if that is less than 2^31 bytes away from the byte behind it; and the clean-up
-- gives every byte its old value.
pub init_system_call_table-cleanup :
    (table addr call : ℕ) (d : Dispatch)
    → addr < 2 ^ 64
    → call < 2 ^ 64
    → (u64 (call + 2 ^ 65 - addr - 5) < 2 ^ 31) ⊎ (2 ^ 64 - 2 ^ 31 ≤ u64 (call + 2 ^ 65 - addr - 5))
    → ((init_system_call_table (some table) (some addr) call d).0.text addr ≡ 233)
      × (jump_target (init_system_call_table (some table) (some addr) call d).0.text addr ≡ call)
      × ((j : ℕ)
          → (cleanup_system_call_table
                (init_system_call_table (some table) (some addr) call d).0).text
              j
            ≡ d.text j)
unfolding init_system_call_table write
init_system_call_table-cleanup table addr call d low low' near = (
  jump_written table addr call d,
  subst (λ w. u64 (addr + 5 + sign_extend w) ≡ call)
      (sym (sum_written (u32 (call + 2 ^ 65 - addr - 5)) (omega arith)))
      (jump_distance addr call low low' near),
  cleaned_text table addr call d,
)
  where
    sum_written :
        (w : ℕ)
        → w < 2 ^ 32
        → write (233 ∷ int_bytes w) addr d.text (addr + 1)
            + 256 * write (233 ∷ int_bytes w) addr d.text (addr + 2)
            + 2 ^ 16 * write (233 ∷ int_bytes w) addr d.text (addr + 3)
            + 2 ^ 24 * write (233 ∷ int_bytes w) addr d.text (addr + 4)
          ≡ w
    sum_written w h = ground (arith, bytes_sum w)
