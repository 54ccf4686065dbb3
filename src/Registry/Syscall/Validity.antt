-- ===== src/Registry/Syscall/Validity.antt =====
-- `register_system_call` and `deregister_system_call` keep the invariant of the registries, the one on
-- the system call table included.
use soa_repo.Base.{
  Bool, ℕ, ◌+◌, ◌-◌, ◌^◌, ◌≤◌, ◌<◌, ◌≡◌, refl, none, some, arith, ◌==◌, ◌∷◌, count, count-true,
  Option-cases, inl, inr, u32, pos, eexist, enoent, true, false, to_nat, eq_of_==, Bool-cases, List,
  ◌∙◌, ◌≢◌,
}
use soa_repo.Kernel.{Node, Kernel, at, HackedSyscall}
use soa_repo.State.{State, SyscallStats, kfree, count-kfree, is, update}
use soa_repo.Registry.Table.{
  add-IsConsistent, count-add, count-del, del-IsConsistent, count-missing, count-present,
  test_found,
}
use soa_repo.Registry.Validity.{
  HacksAreValid, HeapIsValid, IsValid, IsFresh, saved_wrong, stats_are_at,
}
use soa_repo.Registry.Syscall.{
  hack_hit, hack_key, find_hack, register_system_call, deregister_system_call,
}

module _ (K : Kernel) (original : ℕ → ℕ) (s : State K) (v : IsValid K original s) (nr : ℕ) where
  open K.hack_api use {add, del, all, possible}

  hack_count : s.syscall_array nr ≡ count (λ n. hack_hit nr n.val) (all s.hacked_syscall_hash)
  hack_count = v.hacks.flagged nr

  -- The two blocks of a registration.
  module _ (stats new_hack : ℕ) (junk : List ℕ) (fresh_stats : IsFresh K stats s)
      (fresh_hack : count (is new_hack) (stats ∷ s.heap) ≡ 0) where
    abbrev pub new_stats : SyscallStats
    new_stats = record { syscall_nr = nr; peak_delay = 0; peak_prog_name = junk; peak_uid = 0 }

    abbrev pub new_node : Node HackedSyscall
    new_node = record {
      addr = new_hack;
      val = record { syscall_nr = nr; original_syscall = s.hacked_syscall_tbl nr; stats = stats };
    }

    unfoldable pub link_hack : State K
    link_hack = record s {
      heap = new_hack ∷ stats ∷ s.heap;
      stats_at = update s.stats_at stats new_stats;
      hacked_syscall_tbl = update s.hacked_syscall_tbl nr K.wrapper_address;
      syscall_array = update s.syscall_array nr 1;
      hacked_syscall_hash = add new_node nr s.hacked_syscall_hash;
      sys_len = u32 (s.sys_len + 1);
    }

    pub unlinked : count (at new_hack) (all s.hacked_syscall_hash) ≡ 0
    unfolding count
    unlinked = ground (arith, v.heaped.owned new_hack, fresh_hack)

    link_hack-HacksAreValid :
        s.syscall_array nr ≡ 0
        → HacksAreValid K original link_hack.hacked_syscall_hash link_hack.sys_len
            link_hack.syscall_array link_hack.hacked_syscall_tbl
    unfolding link_hack
    link_hack-HacksAreValid off = record {
      consistent =
          add-IsConsistent K.hack_api hack_hit hack_key s.hacked_syscall_hash new_node nr unlinked
            v.hacks.consistent (λ x h. ground (arith, hack_count));
      counted = omega (
        arith,
        v.hacks.counted,
        count-true (all s.hacked_syscall_hash),
        count-true (all (add new_node nr s.hacked_syscall_hash)),
        added (λ _. true),
      );
      flagged = λ i. ground (arith, v.hacks.flagged i, added (λ n. hack_hit i n.val), hack_count);
      patched = λ i. ground (arith, v.hacks.patched i);
      saved = λ i.
          ground (arith, v.hacks.saved i, added (saved_wrong i (original i)), v.hacks.patched nr);
    }
      where
        added :
            (q : Node HackedSyscall → Bool)
            → count q (all (add new_node nr s.hacked_syscall_hash))
              ≡ to_nat (q new_node) + count q (all s.hacked_syscall_hash)
        added q =
            count-add K.hack_api hack_hit hack_key s.hacked_syscall_hash new_node nr unlinked q

    link_hack-HeapIsValid : HeapIsValid K link_hack
    unfolding link_hack count
    link_hack-HeapIsValid = record {
      distinct = λ a. ground (arith, v.heaped.distinct a, fresh_stats, fresh_hack);
      owned = λ a. ground (
        arith,
        v.heaped.owned a,
        count-add K.hack_api hack_hit hack_key s.hacked_syscall_hash new_node nr unlinked (at a),
        count-add K.hack_api hack_hit hack_key s.hacked_syscall_hash new_node nr unlinked
            (stats_are_at a),
      );
    }

    module _ (in_range : nr < K.nr_syscalls) where
      pub register_new :
          s.syscall_array nr ≡ 0
          → register_system_call K (some stats) (some new_hack) junk nr s ≡ (link_hack, pos 0)
      unfolding register_system_call link_hack
      register_new off = rw (K.nospec_in_range nr K.nr_syscalls in_range, off)

      pub register_again :
          s.syscall_array nr ≢ 0
          → register_system_call K (some stats) (some new_hack) junk nr s
            ≡ (record s { stats_at = update s.stats_at stats new_stats }, eexist)
      unfolding register_system_call kfree count
      register_again on =
          let set : (s.syscall_array nr == 0) ≡ false = ground arith in
          rw (K.nospec_in_range nr K.nr_syscalls in_range, set, freed)
        where
          freed : kfree new_hack (kfree stats (new_hack ∷ stats ∷ s.heap)) ≡ s.heap
          freed = ground (arith, fresh_hack)

      -- A registration keeps the invariant, whether or not the system call was registered.
      pub register_system_call-IsValid :
          IsValid K original (register_system_call K (some stats) (some new_hack) junk nr s).0
      unfolding link_hack
      register_system_call-IsValid = elim (Bool-cases (s.syscall_array nr == 0)) [
        | inl off ↦ rw (register_new (eq_of_== _ _ off)) (record {
          uids = v.uids;
          progs = v.progs;
          hacks = link_hack-HacksAreValid (eq_of_== _ _ off);
          heaped = link_hack-HeapIsValid;
        })
        | inr on ↦
            rw (register_again (ground arith))
              (record { uids = v.uids; progs = v.progs; hacks = v.hacks; heaped = v.heaped })
      ]

  module _ (n : Node HackedSyscall) (there : find_hack K nr s ≡ some n) where
    unfoldable pub unlink_hack : State K
    unlink_hack = record s {
      hacked_syscall_tbl = update s.hacked_syscall_tbl nr n.val.original_syscall;
      syscall_array = update s.syscall_array nr 0;
      hacked_syscall_hash = del n.addr s.hacked_syscall_hash;
      sys_len = u32 (s.sys_len + 2 ^ 32 - 1);
      heap = kfree n.addr (kfree n.val.stats s.heap);
    }

    pub removed :
        (q : Node HackedSyscall → Bool)
        → count q (all (del n.addr s.hacked_syscall_hash)) + to_nat (q n)
          ≡ count q (all s.hacked_syscall_hash)
    unfolding find_hack
    removed q =
        count-del K.hack_api hack_hit hack_key s.hacked_syscall_hash v.hacks.consistent nr n there q

    pub found_nr : hack_hit nr n.val ≡ true
    unfolding find_hack
    found_nr =
        test_found K.hack_api hack_hit hack_key s.hacked_syscall_hash v.hacks.consistent nr n there

    -- The entry of a registered system call has saved the original function pointer.
    pub found_original : n.val.original_syscall ≡ original nr
    found_original =
        ground (arith, removed (saved_wrong nr (original nr)), v.hacks.saved nr, found_nr)

    pub found_flag : s.syscall_array nr ≡ 1
    unfolding find_hack
    found_flag =
        hack_count
        ∙ count-present K.hack_api hack_hit hack_key s.hacked_syscall_hash v.hacks.consistent nr n
            there

    unlink_hack-HacksAreValid :
        HacksAreValid K original unlink_hack.hacked_syscall_hash unlink_hack.sys_len
          unlink_hack.syscall_array unlink_hack.hacked_syscall_tbl
    unfolding unlink_hack find_hack
    unlink_hack-HacksAreValid = record {
      consistent =
          del-IsConsistent K.hack_api hack_hit hack_key s.hacked_syscall_hash v.hacks.consistent nr
            n there;
      counted = omega (
        arith,
        v.hacks.counted,
        count-true (all s.hacked_syscall_hash),
        count-true (all (del n.addr s.hacked_syscall_hash)),
        removed (λ _. true),
      );
      flagged = λ i.
          ground (arith, v.hacks.flagged i, removed (λ m. hack_hit i m.val), found_nr, found_flag);
      patched = λ i. ground (arith, v.hacks.patched i, found_original);
      saved = λ i. omega (arith, v.hacks.saved i, removed (saved_wrong i (original i)));
    }

    unlink_hack-HeapIsValid : HeapIsValid K unlink_hack
    unfolding unlink_hack
    unlink_hack-HeapIsValid = record {
      distinct = λ a. omega (
        arith,
        count-kfree n.val.stats a s.heap stats_out,
        count-kfree n.addr a (kfree n.val.stats s.heap) node_out,
        v.heaped.distinct a,
      );
      owned = λ a. omega (
        arith,
        count-kfree n.val.stats a s.heap stats_out,
        count-kfree n.addr a (kfree n.val.stats s.heap) node_out,
        v.heaped.owned a,
        removed (at a),
        removed (stats_are_at a),
      );
    }
      where
        stats_out : 1 ≤ count (is n.val.stats) s.heap
        stats_out = ground (arith, removed (stats_are_at n.val.stats), v.heaped.owned n.val.stats)

        node_out : 1 ≤ count (is n.addr) (kfree n.val.stats s.heap)
        node_out = ground (
          arith,
          count-kfree n.val.stats n.addr s.heap stats_out,
          removed (stats_are_at n.addr),
          removed (at n.addr),
          v.heaped.owned n.addr,
        )

    pub deregister_there : nr < K.nr_syscalls → deregister_system_call K nr s ≡ (unlink_hack, pos 0)
    unfolding deregister_system_call unlink_hack
    deregister_there in_range =
        let clamped = K.nospec_in_range nr K.nr_syscalls in_range in
        let set : (s.syscall_array (K.array_index_nospec nr K.nr_syscalls) == 0) ≡ false =
          rw clamped (ground (arith, found_flag)) in
        let there_clamped : find_hack K (K.array_index_nospec nr K.nr_syscalls) s ≡ some n =
          rw clamped there in
        rw (set, there_clamped, clamped)

  pub missing_flag : find_hack K nr s ≡ none → s.syscall_array nr ≡ 0
  unfolding find_hack
  missing_flag missing =
      hack_count
      ∙ count-missing K.hack_api hack_hit hack_key s.hacked_syscall_hash v.hacks.consistent nr
          missing

  -- A system call with no entry is not flagged: deregistration reports it as not registered.
  pub deregister_missing :
      nr < K.nr_syscalls
      → find_hack K nr s ≡ none
      → (s.syscall_array nr ≡ 0) × (deregister_system_call K nr s ≡ (s, enoent))
  unfolding deregister_system_call
  deregister_missing in_range missing = (
    missing_flag missing,
    rw (K.nospec_in_range nr K.nr_syscalls in_range, missing_flag missing) refl,
  )

  -- A deregistration keeps the invariant, whether or not the system call was registered.
  pub deregister_system_call-IsValid :
      nr < K.nr_syscalls → IsValid K original (deregister_system_call K nr s).0
  unfolding unlink_hack
  deregister_system_call-IsValid in_range = elim (Option-cases (find_hack K nr s)) [
    | inl missing ↦ rw ((deregister_missing in_range missing).1) v
    | inr (n, there) ↦ rw (deregister_there n there in_range) (record {
      uids = v.uids;
      progs = v.progs;
      hacks = unlink_hack-HacksAreValid n there;
      heaped = unlink_hack-HeapIsValid n there;
    })
  ]
