-- ===== src/Registry/Prog.antt =====
-- The registry of program names in src/throttling_api.c. A C string is the list of its bytes before the
-- terminator. TASK_COMM_LEN and the size of `name` are 16.
pub mod Validity
pub mod Lookup
pub mod History
pub mod Listing
use soa_repo.Base.{
  ◌==◌, if◌then◌else◌, ℕ, ◌+◌, ◌-◌, ◌^◌, Bool, List, [], ◌∷◌, Option, none, some, find, take,
  length, u64, ℤ, pos, room, long_of, eexist, enoent, enomem, bytes_eq,
}
use soa_repo.Kernel.{Node, Kernel}
use soa_repo.State.{State, kfree}

-- strncmp(a, b, 16) == 0
abbrev pub same_name : List ℕ → List ℕ → Bool
same_name a b = bytes_eq (take 16 a) (take 16 b)

abbrev pub prog_hit : List ℕ → List ℕ → Bool
prog_hit name v = same_name v name

-- strncpy of 15 bytes, then the terminator
abbrev pub stored_name : List ℕ → List ℕ
stored_name = take 15

module _ (K : Kernel) where
  open K.prog_api use {add, del, possible, all}

  -- jhash(name, strnlen(name, TASK_COMM_LEN), 0)
  abbrev pub prog_key : List ℕ → ℕ
  prog_key name = K.jhash (take 16 name)

  -- the search loop over one chain
  unfoldable pub find_prog : List ℕ → ℕ → State K → Option (Node (List ℕ))
  find_prog prog_name hash_value s =
      find (λ n. same_name n.val prog_name) (possible hash_value s.prog_hash)

  unfoldable pub register_prog_name : Option ℕ → List ℕ → State K → State K × ℤ
  register_prog_name none prog_name s = (s, enomem)
  register_prog_name (some p) prog_name s =
      let name : List ℕ = stored_name prog_name in
      let new_prog : Node (List ℕ) = record { addr = p; val = name } in
      let hash_value = prog_key name in
      let allocated = record s { heap = p ∷ s.heap } in
      elim (find_prog prog_name hash_value s) [
        | some curr ↦ (record allocated { heap = kfree p allocated.heap }, eexist)
        | none ↦ (
          record allocated {
            prog_hash = add new_prog hash_value s.prog_hash;
            prog_name_len = u64 (s.prog_name_len + 1);
          },
          pos 0,
        )
      ]

  unfoldable pub deregister_prog_name : List ℕ → State K → State K × ℤ
  deregister_prog_name prog_name s = elim (find_prog prog_name (prog_key prog_name) s) [
    | some curr ↦ (
      record s {
        prog_hash = del curr.addr s.prog_hash;
        prog_name_len = u64 (s.prog_name_len + 2 ^ 64 - 1);
        heap = kfree curr.addr s.heap;
      },
      pos 0,
    )
    | none ↦ (s, enoent)
  ]

  unfoldable pub check_progname : List ℕ → State K → ℕ
  check_progname prog_name s = elim (find_prog prog_name (prog_key prog_name) s) [
    | some entry ↦ 1
    | none ↦ 0
  ]

  -- the copy loop over all chains, with the room that is left; `strscpy` keeps 15 bytes
  unfoldable pub copy_progs : ℕ → List (Node (List ℕ)) → List (List ℕ)
  copy_progs n [] = []
  copy_progs ℕ.zero (entry ∷ rest) = []
  copy_progs (ℕ.suc n) (entry ∷ rest) = take 15 entry.val ∷ copy_progs n rest

  -- The bound `max` is the smaller of the counter and `in_max`. For no bytes at all `kmalloc` gives
  -- out no block. The result is the return value, and what `*out_buf` then points to.
  unfoldable pub get_all_progs : Option ℕ → ℤ → State K → State K × ℤ × List (List ℕ)
  get_all_progs none in_max s = (s, enomem, [])
  get_all_progs (some p) in_max s = elim (room (long_of s.prog_name_len) in_max) [
    | none ↦ (s, enomem, [])
    | some max ↦
        let temp_buf = copy_progs max (all s.prog_hash) in
        (
          record s { heap = if max == 0 then s.heap else p ∷ s.heap },
          pos (length temp_buf),
          temp_buf,
        )
  ]
