-- ===== src/Device/Access.antt =====
-- Who may change what through the device, and what every command keeps.
use soa_repo.Base.{
  room, long_of, [], zero, suc, ℕ, ◌≡◌, ◌≢◌, refl, arith, false, Option, none, some, List, ◌∷◌,
  eperm, int_of, Option-cases, ◌⊎◌, inl, inr, ◌==◌,
}
use soa_repo.Kernel.{Kernel, Node}
use soa_repo.State.{State, kfree-cons}
use soa_repo.Registry.Uid.{get_all_uids, copy_uids}
use soa_repo.Registry.Prog.{get_all_progs, copy_progs}
use soa_repo.Registry.Syscall.{get_all_syscalls, copy_syscalls}
use soa_repo.Monitor.{get_thread_stats}
use soa_repo.Stats.{get_syscall_stats}
use soa_repo.Device.{Command, queries, controls, throttling_ioctl}
use soa_repo.Device.Queries.{
  Env, Query, nothing, query, get_thread_stats_cmd, get_syscall_stats_cmd, get_all_syscalls_cmd,
  get_all_uids_cmd, get_all_progs_cmd, do_thread_stats, do_syscall_stats, do_check_syscall,
  do_check_uid, do_check_prog, do_get_number, do_all_syscalls, do_all_uids, do_all_progs,
}
use soa_repo.Device.Controls.{Control}

module _ (K : Kernel) where
  -- With no room nothing is copied.
  copy_uids-none : (n : ℕ) (l : List (Node ℕ)) → n ≡ 0 → copy_uids K n l ≡ []
  unfolding copy_uids
  copy_uids-none n [] h = refl
  copy_uids-none zero (e ∷ l) h = refl
  copy_uids-none (suc n) (e ∷ l) h = absurd (omega arith)

  copy_progs-none : (n : ℕ) (l : List (Node (List ℕ))) → n ≡ 0 → copy_progs K n l ≡ []
  unfolding copy_progs
  copy_progs-none n [] h = refl
  copy_progs-none zero (e ∷ l) h = refl
  copy_progs-none (suc n) (e ∷ l) h = absurd (omega arith)

  copy_syscalls-none :
      (rounds i n : ℕ) (array : ℕ → ℕ) → n ≡ 0 → copy_syscalls K rounds i n array ≡ []
  unfolding copy_syscalls
  copy_syscalls-none zero i n array h = refl
  copy_syscalls-none (suc rounds) i zero array h = refl
  copy_syscalls-none (suc rounds) i (suc n) array h = absurd (omega arith)

module _ (K : Kernel) (env : Env) where
  -- A query leaves the state alone, but for the one block of `get_thread_stats`, which stays out.
  pub query-heap :
      (q : Query) (s : State K) → (query K env q s).0 ≡ record s { heap = (query K env q s).0.heap }
  unfolding query do_thread_stats do_syscall_stats do_check_syscall do_check_uid do_check_prog
      do_get_number do_all_syscalls do_all_uids do_all_progs get_all_uids get_all_progs
      get_all_syscalls get_thread_stats get_syscall_stats
  query-heap (get_thread_stats_cmd none) s = refl
  query-heap (get_thread_stats_cmd (some type)) s = ground arith
  query-heap (get_syscall_stats_cmd none) s = refl
  query-heap (get_syscall_stats_cmd (some nr)) s = ground arith
  query-heap q s = ground arith

  -- The heap after a query: as it was, or with the block that its `kmalloc` gave out.
  abbrev pub HeapAfter : List ℕ → Option ℕ → List ℕ → Type 0
  HeapAfter heap none after = after ≡ heap
  HeapAfter heap (some p) after = (after ≡ heap) ⊎ (after ≡ p ∷ heap)

  pub query-HeapAfter :
      (q : Query) (s : State K) → HeapAfter s.heap env.first_mem (query K env q s).0.heap
  unfolding query do_thread_stats do_syscall_stats do_check_syscall do_check_uid do_check_prog
      do_get_number do_all_syscalls do_all_uids do_all_progs get_all_uids get_all_progs
      get_all_syscalls get_thread_stats get_syscall_stats
  query-HeapAfter (get_thread_stats_cmd none) s = elim (Option-cases env.first_mem) [
    | inl e ↦ rw e refl
    | inr (p, e) ↦ rw e (inl refl)
  ]
  query-HeapAfter (get_thread_stats_cmd (some type)) s = elim (Option-cases env.first_mem) [
    | inl e ↦ rw e (ground arith)
    | inr (p, e) ↦ rw e (ground (arith, kfree-cons p s.heap))
  ]
  query-HeapAfter (get_all_syscalls_cmd none) s = elim (Option-cases env.first_mem) [
    | inl e ↦ rw e refl
    | inr (p, e) ↦ rw e (inl refl)
  ]
  query-HeapAfter (get_all_syscalls_cmd (some fetch)) s = elim (Option-cases env.first_mem) [
    | inl e ↦ rw e (ground arith)
    | inr (p, e) ↦ elim (Option-cases (room (int_of s.sys_len) (int_of fetch.max))) [
      | inl negative ↦ rw (e, get_all_syscalls, negative) (ground arith)
      | inr (max, bound) ↦
          rw (e, get_all_syscalls, bound)
            (ground (
              arith,
              kfree-cons p s.heap,
              copy_syscalls-none K K.nr_syscalls 0 max s.syscall_array,
            ))
    ]
  ]
  query-HeapAfter (get_all_uids_cmd none) s = elim (Option-cases env.first_mem) [
    | inl e ↦ rw e refl
    | inr (p, e) ↦ rw e (inl refl)
  ]
  query-HeapAfter (get_all_uids_cmd (some fetch)) s = elim (Option-cases env.first_mem) [
    | inl e ↦ rw e (ground arith)
    | inr (p, e) ↦ elim (Option-cases (room (long_of s.uids_len) (int_of fetch.max))) [
      | inl negative ↦ rw (e, get_all_uids, negative) (ground arith)
      | inr (max, bound) ↦
          rw (e, get_all_uids, bound)
            (ground (arith, kfree-cons p s.heap, copy_uids-none K max (K.uid_api.all s.uid_hash)))
    ]
  ]
  query-HeapAfter (get_all_progs_cmd none) s = elim (Option-cases env.first_mem) [
    | inl e ↦ rw e refl
    | inr (p, e) ↦ rw e (inl refl)
  ]
  query-HeapAfter (get_all_progs_cmd (some fetch)) s = elim (Option-cases env.first_mem) [
    | inl e ↦ rw e (ground arith)
    | inr (p, e) ↦ elim (Option-cases (room (long_of s.prog_name_len) (int_of fetch.max))) [
      | inl negative ↦ rw (e, get_all_progs, negative) (ground arith)
      | inr (max, bound) ↦
          rw (e, get_all_progs, bound)
            (ground
              (arith, kfree-cons p s.heap, copy_progs-none K max (K.prog_api.all s.prog_hash)))
    ]
  ]
  query-HeapAfter q s = elim (Option-cases env.first_mem) [
    | inl e ↦ rw e (ground arith)
    | inr (p, e) ↦ rw e (ground (arith, kfree-cons p s.heap))
  ]

  -- A caller who is not root changes nothing of the module but the blocks that are out, by any
  -- command; and every command of the second group, an unknown one too, gets -EPERM.
  pub user_changes_nothing :
      (s : State K)
      → env.euid ≢ 0
      → ((cmd : Command)
          → (throttling_ioctl K env cmd s).0
            ≡ record s { heap = (throttling_ioctl K env cmd s).0.heap })
        × ((c : Control) → throttling_ioctl K env (controls c) s ≡ (s, eperm, nothing))
  unfolding throttling_ioctl
  user_changes_nothing s user = (all_commands, λ c. rw (not_root) refl)
    where
      not_root : (env.euid == 0) ≡ false
      not_root = ground arith

      all_commands :
          (cmd : Command)
          → (throttling_ioctl K env cmd s).0
            ≡ record s { heap = (throttling_ioctl K env cmd s).0.heap }
      all_commands (queries q) = query-heap q s
      all_commands (controls c) = rw (not_root) refl
