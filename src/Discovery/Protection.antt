-- ===== src/Discovery/Protection.antt =====
-- The write protection around the patches: begin_syscall_table_hack and end_syscall_table_hack in
-- src/my_usctm.c, with init_system_call_table and cleanup_system_call_table on a processor that can
-- fault. CR0.WP is bit 16 of CR0 and protects the kernel's text, CR4.CET is bit 23 of CR4.
use soa_repo.Base.{
  ℕ, ◌+◌, ◌-◌, ◌/◌, ◌%◌, ◌^◌, ◌≡◌, refl, arith, Bool, true, ◌==◌, if◌then◌else◌, Option, none, some,
  List, ◌∷◌, ℤ, pos, eperm, u32,
}
use soa_repo.Discovery.Patch.{
  Dispatch, read, write, int_bytes, init_system_call_table, cleanup_system_call_table,
}

infixl 5 ◌>>=◌
abbrev ◌>>=◌ : {A B : Type 0} → Option A → (A → Option B) → Option B
none >>= f = none
some a >>= f = f a

-- The registers, the depth of preempt_disable, and the globals `cr0` and `cr4`.
pub record Cpu : Type 0 where
  pub cr0 : ℕ
  pub cr4 : ℕ
  pub preempt : ℕ
  pub saved_cr0 : ℕ
  pub saved_cr4 : ℕ

abbrev pub wp : ℕ → Bool
wp cr0 = cr0 / 2 ^ 16 % 2 == 1

abbrev pub cet : ℕ → Bool
cet cr4 = cr4 / 2 ^ 23 % 2 == 1

abbrev without_wp : ℕ → ℕ
without_wp cr0 = if wp cr0 then cr0 - 2 ^ 16 else cr0

abbrev without_cet : ℕ → ℕ
without_cet cr4 = if cet cr4 then cr4 - 2 ^ 23 else cr4

-- `mov` to CR0 and to CR4: none is the fault of the processor for CET without WP.
unfoldable pub write_cr0_forced : ℕ → Cpu → Option Cpu
write_cr0_forced val c =
    if cet c.cr4
    then (if wp val then some (record c { cr0 = val }) else none)
    else some (record c { cr0 = val })

unfoldable pub write_cr4_forced : ℕ → Cpu → Option Cpu
write_cr4_forced val c =
    if cet val
    then (if wp c.cr0 then some (record c { cr4 = val }) else none)
    else some (record c { cr4 = val })

unfoldable pub protect_memory : Cpu → Option Cpu
protect_memory c = write_cr0_forced c.saved_cr0 c

unfoldable pub unprotect_memory : Cpu → Option Cpu
unprotect_memory c = write_cr0_forced (without_wp c.saved_cr0) c

unfoldable pub conditional_cet_disable : Cpu → Option Cpu
conditional_cet_disable c =
    if cet c.saved_cr4 then write_cr4_forced (without_cet c.saved_cr4) c else some c

unfoldable pub conditional_cet_enable : Cpu → Option Cpu
conditional_cet_enable c = if cet c.saved_cr4 then write_cr4_forced c.saved_cr4 c else some c

unfoldable pub begin_syscall_table_hack : Cpu → Option Cpu
begin_syscall_table_hack c = do
  let saved = record c { preempt = c.preempt + 1; saved_cr0 = c.cr0; saved_cr4 = c.cr4 }
  disabled ← conditional_cet_disable saved
  unprotect_memory disabled

unfoldable pub end_syscall_table_hack : Cpu → Option Cpu
end_syscall_table_hack c = do
  protected ← protect_memory c
  enabled ← conditional_cet_enable protected
  some (record enabled { preempt = enabled.preempt - 1 })

-- memcpy to the kernel's text faults under write protection.
unfoldable pub memcpy : Cpu → List ℕ → ℕ → (ℕ → ℕ) → Option (ℕ → ℕ)
memcpy c bytes addr text = if wp c.cr0 then none else some (write bytes addr text)

unfoldable pub protected_init :
    Option ℕ → Option ℕ → ℕ → Cpu → Dispatch → Option (Cpu × Dispatch × ℤ)
protected_init none kprobe call c d = some (c, record d { hacked_syscall_tbl = none }, eperm)
protected_init (some table) none call c d =
    some (c, record d { hacked_syscall_tbl = some table }, eperm)
protected_init (some table) (some addr) call c d = do
  let jump = 233 ∷ int_bytes (u32 (call + 2 ^ 65 - addr - 5))
  open_cpu ← begin_syscall_table_hack c
  let original = read 5 addr d.text
  text ← memcpy open_cpu jump addr d.text
  closed ← end_syscall_table_hack open_cpu
  some (
    closed,
    record {
      text = text;
      hacked_syscall_tbl = some table;
      x64_sys_call_addr = addr;
      jump_inst = jump;
      original_inst = original;
    },
    pos 0,
  )

unfoldable pub protected_cleanup : Cpu → Dispatch → Option (Cpu × Dispatch)
protected_cleanup c d = do
  open_cpu ← begin_syscall_table_hack c
  text ← memcpy open_cpu d.original_inst d.x64_sys_call_addr d.text
  closed ← end_syscall_table_hack open_cpu
  some (closed, record d { text = text })

-- What begin_syscall_table_hack leaves, and what end_syscall_table_hack leaves after it.
abbrev opened : Cpu → Cpu
opened c = record {
  cr0 = without_wp c.cr0;
  cr4 = without_cet c.cr4;
  preempt = c.preempt + 1;
  saved_cr0 = c.cr0;
  saved_cr4 = c.cr4;
}

abbrev pub restored : Cpu → Cpu
restored c = record c { saved_cr0 = c.cr0; saved_cr4 = c.cr4 }

begins :
    (c : Cpu) → (cet c.cr4 ≡ true → wp c.cr0 ≡ true) → begin_syscall_table_hack c ≡ some (opened c)
unfolding begin_syscall_table_hack conditional_cet_disable unprotect_memory write_cr0_forced
    write_cr4_forced
begins c consistent = ground arith

ends :
    (c : Cpu)
    → (cet c.cr4 ≡ true → wp c.cr0 ≡ true)
    → end_syscall_table_hack (opened c) ≡ some (restored c)
unfolding end_syscall_table_hack conditional_cet_enable protect_memory write_cr0_forced
    write_cr4_forced
ends c consistent = ground arith

writable :
    (c : Cpu) (bytes : List ℕ) (addr : ℕ) (text : ℕ → ℕ)
    → memcpy (opened c) bytes addr text ≡ some (write bytes addr text)
unfolding memcpy
writable c bytes addr text = ground arith

cleans :
    (c : Cpu) (d : Dispatch)
    → (cet c.cr4 ≡ true → wp c.cr0 ≡ true)
    → protected_cleanup c d ≡ some (restored c, cleanup_system_call_table d)
unfolding protected_cleanup cleanup_system_call_table
cleans c d consistent =
    rw
      (
        begins c consistent,
        writable c d.original_inst d.x64_sys_call_addr d.text,
        ends c consistent,
      )
      refl

-- The patches never fault on a processor that has write protection wherever it has CET, with any
-- outcome of the search and of the kprobe: both functions leave the registers and the depth of
-- preempt_disable as they were, and do to the module and the text what init_system_call_table and
-- cleanup_system_call_table do.
pub protected_init-init_system_call_table :
    (table kprobe : Option ℕ) (call : ℕ) (c : Cpu) (d : Dispatch)
    → (cet c.cr4 ≡ true → wp c.cr0 ≡ true)
    → ((saved : Cpu) × (protected_init table kprobe call c d
          ≡ some (
            saved,
            (init_system_call_table table kprobe call d).0,
            (init_system_call_table table kprobe call d).1,
          ))
        × (saved.cr0 ≡ c.cr0)
        × (saved.cr4 ≡ c.cr4)
        × (saved.preempt ≡ c.preempt))
      × (protected_cleanup c d ≡ some (restored c, cleanup_system_call_table d))
unfolding protected_init init_system_call_table
protected_init-init_system_call_table none kprobe call c d consistent =
    ((c, refl, refl, refl, refl), cleans c d consistent)
protected_init-init_system_call_table (some table) none call c d consistent =
    ((c, refl, refl, refl, refl), cleans c d consistent)
protected_init-init_system_call_table (some table) (some addr) call c d consistent =
    let jump = 233 ∷ int_bytes (u32 (call + 2 ^ 65 - addr - 5)) in
    (
      (
        restored c,
        rw (begins c consistent, writable c jump addr d.text, ends c consistent) refl,
        refl,
        refl,
        refl,
      ),
      cleans c d consistent,
    )
