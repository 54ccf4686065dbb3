-- ===== src/Registry/Uid.antt =====
-- The registry of user ids in src/throttling_api.c. The result of a call of `kmalloc` is an argument:
-- the address of a block, or none.
pub mod Validity
pub mod Lookup
pub mod Listing
pub mod History
use soa_repo.Base.{
  if◌then◌else◌, ℕ, ◌+◌, ◌-◌, ◌^◌, Bool, List, [], ◌∷◌, Option, none, some, ◌==◌, find, length, u64,
  ℤ, pos, room, long_of, eexist, enoent, enomem,
}
use soa_repo.Kernel.{Node, Kernel}
use soa_repo.State.{State, kfree}

abbrev pub uid_hit : ℕ → ℕ → Bool
uid_hit u v = v == u

abbrev pub uid_key : ℕ → ℕ
uid_key u = u

module _ (K : Kernel) where
  open K.uid_api use {add, del, possible, all}

  -- the search loop over one chain
  unfoldable pub find_uid : ℕ → State K → Option (Node ℕ)
  find_uid user_id s = find (λ n. n.val == user_id) (possible user_id s.uid_hash)

  unfoldable pub register_user_id : Option ℕ → ℕ → State K → State K × ℤ
  register_user_id none user_id s = (s, enomem)
  register_user_id (some p) user_id s =
      let new_uid : Node ℕ = record { addr = p; val = user_id } in
      let allocated = record s { heap = p ∷ s.heap } in
      elim (find_uid user_id s) [
        | some curr ↦ (record allocated { heap = kfree p allocated.heap }, eexist)
        | none ↦ (
          record allocated {
            uid_hash = add new_uid user_id s.uid_hash;
            uids_len = u64 (s.uids_len + 1);
          },
          pos 0,
        )
      ]

  unfoldable pub deregister_user_id : ℕ → State K → State K × ℤ
  deregister_user_id user_id s = elim (find_uid user_id s) [
    | some curr ↦ (
      record s {
        uid_hash = del curr.addr s.uid_hash;
        uids_len = u64 (s.uids_len + 2 ^ 64 - 1);
        heap = kfree curr.addr s.heap;
      },
      pos 0,
    )
    | none ↦ (s, enoent)
  ]

  unfoldable pub check_uid : ℕ → State K → ℕ
  check_uid user_id s = elim (find_uid user_id s) [ some entry ↦ 1 | none ↦ 0 ]

  -- the copy loop over all chains, with the room that is left
  unfoldable pub copy_uids : ℕ → List (Node ℕ) → List ℕ
  copy_uids n [] = []
  copy_uids ℕ.zero (entry ∷ rest) = []
  copy_uids (ℕ.suc n) (entry ∷ rest) = entry.val ∷ copy_uids n rest

  -- The bound `max` is the smaller of the counter and `in_max`. For no bytes at all `kmalloc` gives
  -- out no block. The result is the return value, and what `*out_uids` then points to.
  unfoldable pub get_all_uids : Option ℕ → ℤ → State K → State K × ℤ × List ℕ
  get_all_uids none in_max s = (s, enomem, [])
  get_all_uids (some p) in_max s = elim (room (long_of s.uids_len) in_max) [
    | none ↦ (s, enomem, [])
    | some max ↦
        let temp_buf = copy_uids max (all s.uid_hash) in
        (
          record s { heap = if max == 0 then s.heap else p ∷ s.heap },
          pos (length temp_buf),
          temp_buf,
        )
  ]
