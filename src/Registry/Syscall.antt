-- ===== src/Registry/Syscall.antt =====
-- The registry of system calls in src/throttling_api.c. A system call number has passed the range check
-- of the ioctl handler. `begin_syscall_table_hack` and its end change the processor's write
-- protection only.
pub mod Validity
pub mod Lookup
pub mod History
pub mod Listing
use soa_repo.Base.{
  ℕ, ◌+◌, ◌-◌, ◌^◌, Bool, true, false, List, [], ◌∷◌, Option, none, some, ◌==◌, find, length, u32,
  ℤ, pos, room, int_of, eexist, enoent, enomem, efault, if◌then◌else◌,
}
use soa_repo.Kernel.{Node, HackedSyscall, Kernel}
use soa_repo.State.{SyscallStats, State, update, kfree}

abbrev pub hack_hit : ℕ → HackedSyscall → Bool
hack_hit nr h = h.syscall_nr == nr

abbrev pub hack_key : ℕ → ℕ
hack_key nr = nr

module _ (K : Kernel) where
  open K.hack_api use {add, del, possible}
  open K use {nr_syscalls, array_index_nospec, wrapper_address}

  -- the search loop over one chain
  unfoldable pub find_hack : ℕ → State K → Option (Node HackedSyscall)
  find_hack nr s = find (λ n. n.val.syscall_nr == nr) (possible nr s.hacked_syscall_hash)

  -- `kmalloc` leaves `junk` in the field that the function does not write.
  unfoldable pub register_system_call : Option ℕ → Option ℕ → List ℕ → ℕ → State K → State K × ℤ
  register_system_call none new_hack junk sys_num s = (s, enomem)
  register_system_call (some stats) none junk sys_num s =
      (record s { heap = kfree stats (stats ∷ s.heap) }, enomem)
  register_system_call (some stats) (some new_hack) junk sys_num s =
      let safe_nr = array_index_nospec sys_num nr_syscalls in
      let fresh_stats : SyscallStats = record {
        syscall_nr = safe_nr;
        peak_delay = 0;
        peak_prog_name = junk;
        peak_uid = 0;
      } in
      let allocated = record s {
        heap = new_hack ∷ stats ∷ s.heap;
        stats_at = update s.stats_at stats fresh_stats;
      } in
      let node : Node HackedSyscall = record {
        addr = new_hack;
        val = record {
          syscall_nr = safe_nr;
          original_syscall = s.hacked_syscall_tbl safe_nr;
          stats = stats;
        };
      } in
      if s.syscall_array safe_nr == 0
      then (
        record allocated {
          hacked_syscall_tbl = update s.hacked_syscall_tbl safe_nr wrapper_address;
          syscall_array = update s.syscall_array safe_nr 1;
          hacked_syscall_hash = add node safe_nr s.hacked_syscall_hash;
          sys_len = u32 (s.sys_len + 1);
        },
        pos 0,
      )
      else (record allocated { heap = kfree new_hack (kfree stats allocated.heap) }, eexist)

  unfoldable pub deregister_system_call : ℕ → State K → State K × ℤ
  deregister_system_call sys_num s =
      let safe_nr = array_index_nospec sys_num nr_syscalls in
      if s.syscall_array safe_nr == 0 then (s, enoent) else elim (find_hack safe_nr s) [
        | none ↦ (s, efault)
        | some to_remove ↦ (
          record s {
            hacked_syscall_tbl = update s.hacked_syscall_tbl safe_nr to_remove.val.original_syscall;
            syscall_array = update s.syscall_array safe_nr 0;
            hacked_syscall_hash = del to_remove.addr s.hacked_syscall_hash;
            sys_len = u32 (s.sys_len + 2 ^ 32 - 1);
            heap = kfree to_remove.addr (kfree to_remove.val.stats s.heap);
          },
          pos 0,
        )
      ]

  unfoldable pub check_syscall : ℕ → State K → ℕ
  check_syscall sys_num s =
      if s.syscall_array (array_index_nospec sys_num nr_syscalls) == 0 then 0 else 1

  -- The scan of `syscall_array` from `i`, with the rounds and the room that are left.
  unfoldable pub copy_syscalls : ℕ → ℕ → ℕ → (ℕ → ℕ) → List ℕ
  copy_syscalls ℕ.zero i n array = []
  copy_syscalls (ℕ.suc rounds) i ℕ.zero array = []
  copy_syscalls (ℕ.suc rounds) i (ℕ.suc n) array = elim (array i == 0) [
    | true ↦ copy_syscalls rounds (i + 1) (ℕ.suc n) array
    | false ↦ i ∷ copy_syscalls rounds (i + 1) n array
  ]

  -- The bound `max` is the smaller of the counter and `in_max`. For no bytes at all `kmalloc` gives
  -- out no block. The result is the return value, and what `*out_sys` then points to.
  unfoldable pub get_all_syscalls : Option ℕ → ℤ → State K → State K × ℤ × List ℕ
  get_all_syscalls none in_max s = (s, enomem, [])
  get_all_syscalls (some p) in_max s = elim (room (int_of s.sys_len) in_max) [
    | none ↦ (s, enomem, [])
    | some max ↦
        let temp_buf = copy_syscalls nr_syscalls 0 max s.syscall_array in
        (
          record s { heap = if max == 0 then s.heap else p ∷ s.heap },
          pos (length temp_buf),
          temp_buf,
        )
  ]
