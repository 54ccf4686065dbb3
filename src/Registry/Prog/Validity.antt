-- ===== src/Registry/Prog/Validity.antt =====
-- `register_prog_name` and `deregister_prog_name`, and the invariant of the registries.
use mathlib.Core.Path.{subst}
use soa_repo.Base.{
  take, take-length, length-take, eq_of_bytes_eq, bytes_eq, List, ◌∙◌, ℕ, ◌+◌, ◌-◌, ◌^◌, ◌≤◌, ◌≡◌,
  none, some, arith, ◌==◌, ◌∷◌, count, count-true, Option-cases, inl, inr, u64, pos, eexist, length,
  true, to_nat, ap, sym,
}
use soa_repo.Kernel.{Node, Kernel, at}
use soa_repo.State.{State, kfree, kfree-cons, count-kfree, is}
use soa_repo.Registry.Table.{
  add-IsConsistent, count-add, count-del, del-IsConsistent, count-missing,
}
use soa_repo.Registry.Validity.{is_long, ProgsAreValid, HeapIsValid, IsValid, IsFresh}
use soa_repo.Registry.Prog.{
  prog_hit, prog_key, stored_name, find_prog, register_prog_name, deregister_prog_name,
}

module _ (K : Kernel) (original : ℕ → ℕ) (s : State K) (v : IsValid K original s) where
  open K.prog_api use {add, del, all}

  module _ (p : ℕ) (prog_name : List ℕ) (fresh : IsFresh K p s)
      (short : length prog_name ≤ 15) where
    abbrev pub new_prog : Node (List ℕ)
    new_prog = record { addr = p; val = stored_name prog_name }

    pub unlinked : count (at p) (all s.prog_hash) ≡ 0
    unlinked = omega (arith, v.heaped.owned p)

    unfoldable pub link_prog : State K
    link_prog = record s {
      heap = p ∷ s.heap;
      prog_hash = add new_prog (prog_key K (stored_name prog_name)) s.prog_hash;
      prog_name_len = u64 (s.prog_name_len + 1);
    }

    pub stored : stored_name prog_name ≡ prog_name
    stored = take-length 15 prog_name short

    -- A name that looks for the new node agrees with it on 16 bytes.
    same :
        (x : List ℕ)
        → prog_hit x (stored_name prog_name) ≡ true
        → take 16 (stored_name prog_name) ≡ take 16 x
    same x h = eq_of_bytes_eq _ _ h

    same_count :
        (x : List ℕ)
        → prog_hit x (stored_name prog_name) ≡ true
        → count (λ n. prog_hit prog_name n.val) (all s.prog_hash) ≡ 0
        → count (λ n. prog_hit x n.val) (all s.prog_hash) ≡ 0
    same_count x h =
        subst (λ (y : List ℕ). count (λ n. bytes_eq (take 16 n.val) y) (all s.prog_hash) ≡ 0)
          (ap (take 16) (sym stored) ∙ same x h)

    link_prog-ProgsAreValid :
        find_prog K prog_name (prog_key K prog_name) s ≡ none
        → ProgsAreValid K link_prog.prog_hash link_prog.prog_name_len
    unfolding link_prog find_prog
    link_prog-ProgsAreValid missing = record {
      short = ground (
        arith,
        v.progs.short,
        length-take 15 prog_name,
        count-add K.prog_api prog_hit (prog_key K) s.prog_hash new_prog
            (prog_key K (stored_name prog_name)) unlinked is_long,
      );
      consistent =
          add-IsConsistent K.prog_api prog_hit (prog_key K) s.prog_hash new_prog
            (prog_key K (stored_name prog_name)) unlinked v.progs.consistent
            (λ x h. (
              ap K.jhash (sym (same x h)),
              same_count x h (
                  count-missing K.prog_api prog_hit (prog_key K) s.prog_hash v.progs.consistent
                    prog_name missing),
            ));
      counted = omega (
        arith,
        v.progs.counted,
        count-true (all s.prog_hash),
        count-true (all (add new_prog (prog_key K (stored_name prog_name)) s.prog_hash)),
        count-add K.prog_api prog_hit (prog_key K) s.prog_hash new_prog
            (prog_key K (stored_name prog_name)) unlinked (λ _. true),
      );
    }

    link_prog-HeapIsValid : HeapIsValid K link_prog
    unfolding link_prog count
    link_prog-HeapIsValid = record {
      distinct = λ a. ground (arith, v.heaped.distinct a);
      owned = λ a. ground (
        arith,
        v.heaped.owned a,
        count-add K.prog_api prog_hit (prog_key K) s.prog_hash new_prog
            (prog_key K (stored_name prog_name)) unlinked (at a),
      );
    }

    pub register_new :
        find_prog K prog_name (prog_key K prog_name) s ≡ none
        → register_prog_name K (some p) prog_name s ≡ (link_prog, pos 0)
    unfolding register_prog_name link_prog
    register_new missing =
        let missing_stored : find_prog K prog_name (prog_key K (stored_name prog_name)) s ≡ none =
          rw stored missing in
        rw (missing_stored, register_prog_name)

    pub register_again :
        (curr : Node (List ℕ))
        → find_prog K prog_name (prog_key K prog_name) s ≡ some curr
        → register_prog_name K (some p) prog_name s ≡ (s, eexist)
    unfolding register_prog_name
    register_again curr there =
        let there_stored : find_prog K prog_name (prog_key K (stored_name prog_name)) s
            ≡ some curr =
          rw stored there in
        rw (there_stored, register_prog_name, kfree-cons p s.heap)

    -- A registration keeps the invariant, whether or not the name was there.
    pub register_prog_name-IsValid :
        IsValid K original (register_prog_name K (some p) prog_name s).0
    unfolding link_prog
    register_prog_name-IsValid =
        elim (Option-cases (find_prog K prog_name (prog_key K prog_name) s)) [
          | inl missing ↦ rw (register_new missing) (record {
            progs = link_prog-ProgsAreValid missing;
            uids = v.uids;
            hacks = v.hacks;
            heaped = link_prog-HeapIsValid;
          })
          | inr (curr, there) ↦ rw (register_again curr there) v
        ]

  module _ (prog_name : List ℕ) (curr : Node (List ℕ))
      (there : find_prog K prog_name (prog_key K prog_name) s ≡ some curr) where
    unfoldable pub unlink_prog : State K
    unlink_prog = record s {
      prog_hash = del curr.addr s.prog_hash;
      prog_name_len = u64 (s.prog_name_len + 2 ^ 64 - 1);
      heap = kfree curr.addr s.heap;
    }

    unlink_prog-ProgsAreValid : ProgsAreValid K unlink_prog.prog_hash unlink_prog.prog_name_len
    unfolding unlink_prog find_prog
    unlink_prog-ProgsAreValid = record {
      short = omega (
        arith,
        v.progs.short,
        count-del K.prog_api prog_hit (prog_key K) s.prog_hash v.progs.consistent prog_name curr
            there is_long,
      );
      consistent =
          del-IsConsistent K.prog_api prog_hit (prog_key K) s.prog_hash v.progs.consistent prog_name
            curr there;
      counted = omega (
        arith,
        v.progs.counted,
        count-true (all s.prog_hash),
        count-true (all (del curr.addr s.prog_hash)),
        count-del K.prog_api prog_hit (prog_key K) s.prog_hash v.progs.consistent prog_name curr
            there (λ _. true),
      );
    }

    unlink_prog-HeapIsValid : HeapIsValid K unlink_prog
    unfolding unlink_prog find_prog
    unlink_prog-HeapIsValid = record {
      distinct = λ a. omega (arith, count-kfree curr.addr a s.heap out, v.heaped.distinct a);
      owned = λ a. omega (arith, count-kfree curr.addr a s.heap out, v.heaped.owned a, fewer a);
    }
      where
        fewer :
            (a : ℕ)
            → count (at a) (all (del curr.addr s.prog_hash)) + to_nat (curr.addr == a)
              ≡ count (at a) (all s.prog_hash)
        fewer a =
            count-del K.prog_api prog_hit (prog_key K) s.prog_hash v.progs.consistent prog_name curr
              there (at a)

        out : 1 ≤ count (is curr.addr) s.heap
        out = ground (arith, fewer curr.addr, v.heaped.owned curr.addr)

    pub deregister_there : deregister_prog_name K prog_name s ≡ (unlink_prog, pos 0)
    unfolding deregister_prog_name unlink_prog
    deregister_there = rw (there, deregister_prog_name)

  -- A deregistration keeps the invariant, whether or not the name was there.
  pub deregister_prog_name-IsValid :
      (prog_name : List ℕ) → IsValid K original (deregister_prog_name K prog_name s).0
  unfolding unlink_prog deregister_prog_name
  deregister_prog_name-IsValid prog_name =
      elim (Option-cases (find_prog K prog_name (prog_key K prog_name) s)) [
        | inl missing ↦ rw (missing, deregister_prog_name) v
        | inr (curr, there) ↦ rw (deregister_there prog_name curr there) (record {
          progs = unlink_prog-ProgsAreValid prog_name curr there;
          uids = v.uids;
          hacks = v.hacks;
          heaped = unlink_prog-HeapIsValid prog_name curr there;
        })
      ]
