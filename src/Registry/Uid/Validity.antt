-- ===== src/Registry/Uid/Validity.antt =====
-- `register_user_id` and `deregister_user_id`, and the invariant of the registries.
use soa_repo.Base.{
  ℕ, ◌+◌, ◌-◌, ◌^◌, ◌≤◌, ◌≡◌, none, some, arith, ◌==◌, ◌∷◌, count, count-true, Option-cases, inl,
  inr, u64, pos, eexist, true, to_nat,
}
use soa_repo.Kernel.{Node, Kernel, at}
use soa_repo.State.{State, kfree, kfree-cons, count-kfree, is}
use soa_repo.Registry.Table.{
  add-IsConsistent, count-add, count-del, del-IsConsistent, count-missing,
}
use soa_repo.Registry.Validity.{UidsAreValid, HeapIsValid, IsValid, IsFresh}
use soa_repo.Registry.Uid.{uid_hit, uid_key, find_uid, register_user_id, deregister_user_id}

module _ (K : Kernel) (original : ℕ → ℕ) (s : State K) (v : IsValid K original s) where
  open K.uid_api use {add, del, all}

  module _ (p user_id : ℕ) (fresh : IsFresh K p s) where
    abbrev pub new_uid : Node ℕ
    new_uid = record { addr = p; val = user_id }

    pub unlinked : count (at p) (all s.uid_hash) ≡ 0
    unlinked = omega (arith, v.heaped.owned p)

    unfoldable pub link_uid : State K
    link_uid = record s {
      heap = p ∷ s.heap;
      uid_hash = add new_uid user_id s.uid_hash;
      uids_len = u64 (s.uids_len + 1);
    }

    link_uid-UidsAreValid :
        find_uid K user_id s ≡ none → UidsAreValid K link_uid.uid_hash link_uid.uids_len
    unfolding link_uid find_uid
    link_uid-UidsAreValid missing = record {
      consistent =
          add-IsConsistent K.uid_api uid_hit uid_key s.uid_hash new_uid user_id unlinked
            v.uids.consistent
            (λ x h. ground (
              arith,
              count-missing K.uid_api uid_hit uid_key s.uid_hash v.uids.consistent user_id missing,
            ));
      counted = omega (
        arith,
        v.uids.counted,
        count-true (all s.uid_hash),
        count-true (all (add new_uid user_id s.uid_hash)),
        count-add K.uid_api uid_hit uid_key s.uid_hash new_uid user_id unlinked (λ _. true),
      );
    }

    link_uid-HeapIsValid : HeapIsValid K link_uid
    unfolding link_uid count
    link_uid-HeapIsValid = record {
      distinct = λ a. ground (arith, v.heaped.distinct a);
      owned = λ a. ground (
        arith,
        v.heaped.owned a,
        count-add K.uid_api uid_hit uid_key s.uid_hash new_uid user_id unlinked (at a),
      );
    }

    pub register_new :
        find_uid K user_id s ≡ none → register_user_id K (some p) user_id s ≡ (link_uid, pos 0)
    unfolding register_user_id link_uid
    register_new missing = rw (missing, register_user_id)

    pub register_again :
        (curr : Node ℕ)
        → find_uid K user_id s ≡ some curr
        → register_user_id K (some p) user_id s ≡ (s, eexist)
    unfolding register_user_id
    register_again curr there = rw (there, register_user_id, kfree-cons p s.heap)

    -- A registration keeps the invariant, whether or not the user id was there.
    pub register_user_id-IsValid : IsValid K original (register_user_id K (some p) user_id s).0
    unfolding link_uid
    register_user_id-IsValid = elim (Option-cases (find_uid K user_id s)) [
      | inl missing ↦ rw (register_new missing) (record {
        uids = link_uid-UidsAreValid missing;
        progs = v.progs;
        hacks = v.hacks;
        heaped = link_uid-HeapIsValid;
      })
      | inr (curr, there) ↦ rw (register_again curr there) v
    ]

  module _ (user_id : ℕ) (curr : Node ℕ) (there : find_uid K user_id s ≡ some curr) where
    unfoldable pub unlink_uid : State K
    unlink_uid = record s {
      uid_hash = del curr.addr s.uid_hash;
      uids_len = u64 (s.uids_len + 2 ^ 64 - 1);
      heap = kfree curr.addr s.heap;
    }

    unlink_uid-UidsAreValid : UidsAreValid K unlink_uid.uid_hash unlink_uid.uids_len
    unfolding unlink_uid find_uid
    unlink_uid-UidsAreValid = record {
      consistent =
          del-IsConsistent K.uid_api uid_hit uid_key s.uid_hash v.uids.consistent user_id curr
            there;
      counted = omega (
        arith,
        v.uids.counted,
        count-true (all s.uid_hash),
        count-true (all (del curr.addr s.uid_hash)),
        count-del K.uid_api uid_hit uid_key s.uid_hash v.uids.consistent user_id curr there
            (λ _. true),
      );
    }

    unlink_uid-HeapIsValid : HeapIsValid K unlink_uid
    unfolding unlink_uid find_uid
    unlink_uid-HeapIsValid = record {
      distinct = λ a. omega (arith, count-kfree curr.addr a s.heap out, v.heaped.distinct a);
      owned = λ a. omega (arith, count-kfree curr.addr a s.heap out, v.heaped.owned a, fewer a);
    }
      where
        fewer :
            (a : ℕ)
            → count (at a) (all (del curr.addr s.uid_hash)) + to_nat (curr.addr == a)
              ≡ count (at a) (all s.uid_hash)
        fewer a =
            count-del K.uid_api uid_hit uid_key s.uid_hash v.uids.consistent user_id curr there
              (at a)

        out : 1 ≤ count (is curr.addr) s.heap
        out = ground (arith, fewer curr.addr, v.heaped.owned curr.addr)

    pub deregister_there : deregister_user_id K user_id s ≡ (unlink_uid, pos 0)
    unfolding deregister_user_id unlink_uid
    deregister_there = rw (there, deregister_user_id)

  -- A deregistration keeps the invariant, whether or not the user id was there.
  pub deregister_user_id-IsValid :
      (user_id : ℕ) → IsValid K original (deregister_user_id K user_id s).0
  unfolding unlink_uid deregister_user_id
  deregister_user_id-IsValid user_id = elim (Option-cases (find_uid K user_id s)) [
    | inl missing ↦ rw (missing, deregister_user_id) v
    | inr (curr, there) ↦ rw (deregister_there user_id curr there) (record {
      uids = unlink_uid-UidsAreValid user_id curr there;
      progs = v.progs;
      hacks = v.hacks;
      heaped = unlink_uid-HeapIsValid user_id curr there;
    })
  ]
