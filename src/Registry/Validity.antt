-- ===== src/Registry/Validity.antt =====
-- The invariant of the registries: each table is consistent, each counter is the number of entries,
-- each linked block is out, the array and the system call table agree with the entries.
use soa_repo.Base.{
  ℕ, ◌+◌, ◌≤◌, ◌≡◌, Bool, not, ◌&&◌, List, ◌==◌, if◌then◌else◌, length, count, u32, u64, ltb,
}
use soa_repo.Kernel.{Node, at, HackedSyscall, Kernel}
use soa_repo.State.{State, is}
use soa_repo.Registry.Table.{IsConsistent}
use soa_repo.Registry.Uid.{uid_hit, uid_key}
use soa_repo.Registry.Prog.{prog_hit, prog_key}
use soa_repo.Registry.Syscall.{hack_hit, hack_key}

-- The test that an entry's statistics stand at an address.
abbrev pub stats_are_at : ℕ → Node HackedSyscall → Bool
stats_are_at a n = n.val.stats == a

-- The test that an entry is of a system call and has not saved this function pointer.
abbrev pub saved_wrong : ℕ → ℕ → Node HackedSyscall → Bool
saved_wrong nr original n = hack_hit nr n.val && not (n.val.original_syscall == original)

-- The test that an entry's name has more than 15 bytes.
abbrev pub is_long : Node (List ℕ) → Bool
is_long n = ltb 15 (length n.val)

module _ (K : Kernel) where
  pub record UidsAreValid (uid_hash : K.uid_api.Table) (uids_len : ℕ) : Type 0 where
    pub consistent : IsConsistent K.uid_api uid_hit uid_key uid_hash
    pub counted : uids_len ≡ u64 (length (K.uid_api.all uid_hash))

  pub record ProgsAreValid (prog_hash : K.prog_api.Table) (prog_name_len : ℕ) : Type 0 where
    pub consistent : IsConsistent K.prog_api prog_hit (prog_key K) prog_hash
    pub counted : prog_name_len ≡ u64 (length (K.prog_api.all prog_hash))
    -- no name is longer than its field
    pub short : count is_long (K.prog_api.all prog_hash) ≡ 0

  -- `original` is the system call table before the module touched it.
  pub record HacksAreValid (original : ℕ → ℕ) (hack_hash : K.hack_api.Table) (sys_len : ℕ)
      (array table : ℕ → ℕ) : Type 0 where
    pub consistent : IsConsistent K.hack_api hack_hit hack_key hack_hash
    pub counted : sys_len ≡ u32 (length (K.hack_api.all hack_hash))
    pub flagged : (i : ℕ) → array i ≡ count (λ n. hack_hit i n.val) (K.hack_api.all hack_hash)
    pub patched : (i : ℕ) → table i ≡ (if array i == 0 then original i else K.wrapper_address)
    pub saved : (i : ℕ) → count (saved_wrong i (original i)) (K.hack_api.all hack_hash) ≡ 0

  module _ (uid_hash : K.uid_api.Table) (prog_hash : K.prog_api.Table)
      (hack_hash : K.hack_api.Table) where
    -- How many objects of the registries are at an address.
    abbrev pub blocks : ℕ → ℕ
    blocks a =
        count (at a) (K.uid_api.all uid_hash)
        + count (at a) (K.prog_api.all prog_hash)
        + count (at a) (K.hack_api.all hack_hash)
        + count (stats_are_at a) (K.hack_api.all hack_hash)

    -- No block is out twice, and each object has a block of its own.
    pub record BlocksAreOut (heap : List ℕ) : Type 0 where
      pub distinct : (a : ℕ) → count (is a) heap ≤ 1
      pub owned : (a : ℕ) → blocks a ≤ count (is a) heap

  abbrev pub HeapIsValid : State K → Type 0
  HeapIsValid s = BlocksAreOut s.uid_hash s.prog_hash s.hacked_syscall_hash s.heap

  pub record IsValid (original : ℕ → ℕ) (s : State K) : Type 0 where
    pub uids : UidsAreValid s.uid_hash s.uids_len
    pub progs : ProgsAreValid s.prog_hash s.prog_name_len
    pub hacks :
        HacksAreValid original s.hacked_syscall_hash s.sys_len s.syscall_array s.hacked_syscall_tbl
    pub heaped : HeapIsValid s

  -- `kmalloc` gives out a block that is not out already.
  abbrev pub IsFresh : ℕ → State K → Type 0
  IsFresh p s = count (is p) s.heap ≡ 0
