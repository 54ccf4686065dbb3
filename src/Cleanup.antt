-- ===== src/Cleanup.antt =====
-- `cleanup_rcu` in src/throttling_api.c, and what it leaves behind.
use soa_repo.Base.{
  ℕ, ◌+◌, ◌≤◌, ◌≡◌, refl, arith, List, [], ◌∷◌, count, ◌==◌, if◌then◌else◌, keep, Bool-cases, inl,
  inr,
}
use soa_repo.Kernel.{HackedSyscall, Kernel, HashApi, Node, at, unlink}
use soa_repo.State.{State, is, kfree, count-kfree}
use soa_repo.Monitor.{switch_off_monitor}
use soa_repo.Registry.Validity.{IsValid, stats_are_at}

-- The loops with `hash_for_each_safe`: each entry is taken out, and its block is given back.
unfoldable pub del_all : {V : Type 0} (api : HashApi V) → List (Node V) → api.Table → api.Table
del_all api [] t = t
del_all api (n ∷ l) t = del_all api l (api.del n.addr t)

unfoldable pub free_all : {V : Type 0} → List (Node V) → List ℕ → List ℕ
free_all [] heap = heap
free_all (n ∷ l) heap = free_all l (kfree n.addr heap)

-- The part under the lock.
unfoldable pub drop_entries : (K : Kernel) → State K → State K
drop_entries K s =
    let hacks = K.hack_api.all s.hacked_syscall_hash in
    let uids = K.uid_api.all s.uid_hash in
    let progs = K.prog_api.all s.prog_hash in
    record s {
      hacked_syscall_hash = del_all K.hack_api hacks s.hacked_syscall_hash;
      uid_hash = del_all K.uid_api uids s.uid_hash;
      prog_hash = del_all K.prog_api progs s.prog_hash;
      heap = free_all progs (free_all uids (free_all hacks s.heap));
    }

unfoldable pub cleanup_rcu : (K : Kernel) → ℕ → State K → State K
cleanup_rcu K now s = drop_entries K (switch_off_monitor K now s).0

module _ {V : Type 0} where
  count-unlink :
      (a b : ℕ) (l : List (Node V))
      → count (at a) (unlink b l) ≡ (if a == b then 0 else count (at a) l)
  unfolding unlink keep count
  count-unlink a b [] = ground arith
  count-unlink a b (n ∷ l) = ground (arith, count-unlink a b l)

  count-del_all :
      (api : HashApi V) (l : List (Node V)) (t : api.Table) (a : ℕ)
      → count (at a) (api.all (del_all api l t))
        ≡ (if count (at a) l == 0 then count (at a) (api.all t) else 0)
  unfolding del_all count
  count-del_all api [] t a = refl
  count-del_all api (n ∷ l) t a =
      rw
        (
          count-del_all api l (api.del n.addr t) a,
          api.all-del n.addr t,
          count-unlink a n.addr (api.all t),
        )
        (ground arith)

  out :
      (n : Node V) (l : List (Node V)) (heap : List ℕ)
      → ((a : ℕ) → count (at a) (n ∷ l) ≤ count (is a) heap)
      → 1 ≤ count (is n.addr) heap
  unfolding count
  out n l heap h = ground (arith, h n.addr)

  fewer :
      (n : Node V) (l : List (Node V)) (heap : List ℕ)
      → ((a : ℕ) → count (at a) (n ∷ l) ≤ count (is a) heap)
      → (a : ℕ) → count (at a) l ≤ count (is a) (kfree n.addr heap)
  unfolding count
  fewer n l heap h a = ground (arith, h a, count-kfree n.addr a heap (out n l heap h))

  count-free_all :
      (l : List (Node V)) (heap : List ℕ)
      → ((a : ℕ) → count (at a) l ≤ count (is a) heap)
      → (a : ℕ) → count (is a) (free_all l heap) + count (at a) l ≡ count (is a) heap
  unfolding free_all count
  count-free_all [] heap h a = omega arith
  count-free_all (n ∷ l) heap h a =
      let rest = count-free_all l (kfree n.addr heap) (fewer n l heap h) a in
      omega (arith, rest, count-kfree n.addr a heap (out n l heap h))

  none_left :
      (api : HashApi V) (t : api.Table) (a : ℕ)
      → count (at a) (api.all (del_all api (api.all t) t)) ≡ 0
  none_left api t a = rw (count-del_all api (api.all t) t a) (ground arith)

module _ (K : Kernel) (original : ℕ → ℕ) (s : State K) (v : IsValid K original s) where
  abbrev hacks : List (Node HackedSyscall)
  hacks = K.hack_api.all s.hacked_syscall_hash

  abbrev uids : List (Node ℕ)
  uids = K.uid_api.all s.uid_hash

  abbrev progs : List (Node (List ℕ))
  progs = K.prog_api.all s.prog_hash

  freed_hacks :
      (a : ℕ) → count (is a) (free_all hacks s.heap) + count (at a) hacks ≡ count (is a) s.heap
  freed_hacks = count-free_all hacks s.heap (λ a. omega (arith, v.heaped.owned a))

  freed_uids :
      (a : ℕ)
      → count (is a) (free_all uids (free_all hacks s.heap)) + count (at a) uids
        ≡ count (is a) (free_all hacks s.heap)
  freed_uids =
      count-free_all uids (free_all hacks s.heap)
        (λ a. omega (arith, v.heaped.owned a, freed_hacks a))

  freed_progs :
      (a : ℕ)
      → count (is a) (drop_entries K s).heap + count (at a) progs
        ≡ count (is a) (free_all uids (free_all hacks s.heap))
  unfolding drop_entries
  freed_progs =
      count-free_all progs (free_all uids (free_all hacks s.heap))
        (λ a. omega (arith, v.heaped.owned a, freed_hacks a, freed_uids a))

  -- After the clean-up of a valid state no entry is linked, but the block with the statistics of every
  -- system call that was registered is still out, and its entry of the system call table still goes
  -- to the wrapper.
  pub cleanup_rcu-leaves :
      (now a i : ℕ)
      → (count (at a) (K.hack_api.all (cleanup_rcu K now s).hacked_syscall_hash) ≡ 0)
        × (count (at a) (K.uid_api.all (cleanup_rcu K now s).uid_hash) ≡ 0)
        × (count (at a) (K.prog_api.all (cleanup_rcu K now s).prog_hash) ≡ 0)
        × (count (stats_are_at a) (K.hack_api.all s.hacked_syscall_hash)
            ≤ count (is a) (cleanup_rcu K now s).heap)
        × ((cleanup_rcu K now s).hacked_syscall_tbl i
            ≡ (if s.syscall_array i == 0 then original i else K.wrapper_address))
  unfolding cleanup_rcu switch_off_monitor drop_entries
  cleanup_rcu-leaves now a i = elim (Bool-cases (s.is_monitor_active == 1)) [
    | inl e ↦ rw (e, switch_off_monitor) left
    | inr e ↦ rw (e, switch_off_monitor) left
  ]
    where
      left :
          (count (at a) (K.hack_api.all (drop_entries K s).hacked_syscall_hash) ≡ 0)
          × (count (at a) (K.uid_api.all (drop_entries K s).uid_hash) ≡ 0)
          × (count (at a) (K.prog_api.all (drop_entries K s).prog_hash) ≡ 0)
          × (count (stats_are_at a) (K.hack_api.all s.hacked_syscall_hash)
              ≤ count (is a) (drop_entries K s).heap)
          × (s.hacked_syscall_tbl i
              ≡ (if s.syscall_array i == 0 then original i else K.wrapper_address))
      left = (
        none_left K.hack_api s.hacked_syscall_hash a,
        none_left K.uid_api s.uid_hash a,
        none_left K.prog_api s.prog_hash a,
        omega (arith, v.heaped.owned a, freed_hacks a, freed_uids a, freed_progs a),
        v.hacks.patched i,
      )
