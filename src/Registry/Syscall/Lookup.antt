-- ===== src/Registry/Syscall/Lookup.antt =====
-- The system calls as a set, and the system call table: what `check_syscall` answers and which function
-- an entry of the table points to, after each operation of src/throttling_api.c.
use soa_repo.Base.{
  ℕ, ◌≡◌, ◌<◌, refl, some, arith, ◌==◌, if◌then◌else◌, count, Option-cases, inl, inr, pos, eexist,
  enoent, ◌∷◌, Bool-cases, eq_of_==, List,
}
use soa_repo.Kernel.{Kernel}
use soa_repo.State.{State, is}
use soa_repo.Registry.Validity.{IsValid, IsFresh}
use soa_repo.Registry.Syscall.{
  find_hack, register_system_call, deregister_system_call, check_syscall,
}
use soa_repo.Registry.Syscall.Validity.{
  link_hack, unlink_hack, register_new, register_again, deregister_there, deregister_missing,
  found_flag, found_original,
}

module _ (K : Kernel) (original : ℕ → ℕ) (s : State K) (v : IsValid K original s) (nr : ℕ)
    (in_range : nr < K.nr_syscalls) where
  -- Registration of a number in range, with memory at hand. It returns 0 for a system call that was
  -- not registered and -EEXIST for one that was. Afterwards `check_syscall` answers 1 for it and the
  -- system call table sends it to the wrapper; for every other number in range both the answer and
  -- the entry of the table are what they were.
  pub register_system_call-check_syscall :
      (stats new_hack : ℕ) (junk : List ℕ) (i : ℕ)
      → IsFresh K stats s
      → count (is new_hack) (stats ∷ s.heap) ≡ 0
      → i < K.nr_syscalls
      → ((register_system_call K (some stats) (some new_hack) junk nr s).1
          ≡ (if check_syscall K nr s == 0 then pos 0 else eexist))
        × (check_syscall K i (register_system_call K (some stats) (some new_hack) junk nr s).0
            ≡ (if nr == i then 1 else check_syscall K i s))
        × ((register_system_call K (some stats) (some new_hack) junk nr s).0.hacked_syscall_tbl i
            ≡ (if nr == i then K.wrapper_address else s.hacked_syscall_tbl i))
  unfolding check_syscall link_hack
  register_system_call-check_syscall stats new_hack junk i fresh_stats fresh_hack i_in_range =
      elim (Bool-cases (s.syscall_array nr == 0)) [
        | inl off ↦
            rw
              (register_new K original s v nr stats new_hack junk fresh_stats fresh_hack in_range
                (eq_of_== _ _ off))
              (
                rw (K.nospec_in_range nr K.nr_syscalls in_range, off) refl,
                rw (K.nospec_in_range i K.nr_syscalls i_in_range) (ground arith),
                ground arith,
              )
        | inr on ↦
            rw
              (register_again K original s v nr stats new_hack junk fresh_stats fresh_hack in_range
                (ground arith))
              (
                rw (K.nospec_in_range nr K.nr_syscalls in_range, on) refl,
                rw (K.nospec_in_range i K.nr_syscalls i_in_range) (ground arith),
                ground (arith, v.hacks.patched i),
              )
      ]

  -- Deregistration of a number in range. It returns 0 for a system call that was registered and
  -- -ENOENT for one that was not; -EFAULT never comes out. Afterwards `check_syscall` answers 0 for
  -- it and its entry of the system call table is the one from before the module was loaded; for
  -- every other number in range both the answer and the entry of the table are what they were.
  pub deregister_system_call-check_syscall :
      (i : ℕ)
      → i < K.nr_syscalls
      → ((deregister_system_call K nr s).1 ≡ (if check_syscall K nr s == 0 then enoent else pos 0))
        × (check_syscall K i (deregister_system_call K nr s).0
            ≡ (if nr == i then 0 else check_syscall K i s))
        × ((deregister_system_call K nr s).0.hacked_syscall_tbl i
            ≡ (if nr == i then original i else s.hacked_syscall_tbl i))
  unfolding check_syscall unlink_hack
  deregister_system_call-check_syscall i i_in_range = elim (Option-cases (find_hack K nr s)) [
    | inl missing ↦
        let off = deregister_missing K original s v nr in_range missing in
        rw (off.1) (
          rw (K.nospec_in_range nr K.nr_syscalls in_range) (ground (arith, off.0)),
          rw (K.nospec_in_range i K.nr_syscalls i_in_range) (ground (arith, off.0)),
          ground (arith, off.0, v.hacks.patched i),
        )
    | inr (n, there) ↦
        let on = found_flag K original s v nr n there in
        rw (deregister_there K original s v nr n there in_range) (
          rw (K.nospec_in_range nr K.nr_syscalls in_range) (ground (arith, on)),
          rw (K.nospec_in_range i K.nr_syscalls i_in_range) (ground (arith, on)),
          ground (arith, on, found_original K original s v nr n there),
        )
  ]
