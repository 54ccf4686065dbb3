-- ===== src/Device/Numbers.antt =====
-- What GET_NUMBER answers, compared with the registries.
use soa_repo.Base.{ℕ, ◌<◌, ◌^◌, ◌≡◌, arith, true, some, pos, length}
use soa_repo.Kernel.{Kernel}
use soa_repo.State.{State}
use soa_repo.Registry.Lengths.{get_lenght}
use soa_repo.Registry.Validity.{IsValid}
use soa_repo.Device.Queries.{Env, number, query, get_number, do_get_number}

module _ (K : Kernel) (original : ℕ → ℕ) (env : Env) (s : State K) (v : IsValid K original s)
    (copies : env.first_copy ≡ true) where
  -- While no registry holds 2^31 entries, GET_NUMBER answers for 0 the number of registered user
  -- ids, for 1 of system calls and for 2 of program names, if the copy to user space goes through.
  pub get_number-length :
      length (K.uid_api.all s.uid_hash) < 2 ^ 31
      → length (K.hack_api.all s.hacked_syscall_hash) < 2 ^ 31
      → length (K.prog_api.all s.prog_hash) < 2 ^ 31
      → (query K env (get_number (some (pos 0))) s
          ≡ (s, pos 0, number (pos (length (K.uid_api.all s.uid_hash)))))
        × (query K env (get_number (some (pos 1))) s
            ≡ (s, pos 0, number (pos (length (K.hack_api.all s.hacked_syscall_hash)))))
        × (query K env (get_number (some (pos 2))) s
            ≡ (s, pos 0, number (pos (length (K.prog_api.all s.prog_hash)))))
  unfolding query do_get_number get_lenght
  get_number-length few_uids few_syscalls few_progs = (
    ground (arith, v.uids.counted),
    ground (arith, v.hacks.counted),
    ground (arith, v.progs.counted),
  )
