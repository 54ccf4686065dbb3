-- ===== src/Registry/Prog/Lookup.antt =====
-- The program names as a set: what `check_progname` answers after each operation of src/throttling_api.c.
use soa_repo.Base.{
  true, take, eq_of_bytes_eq, bytes_eq, List, length, ℕ, ◌≡◌, ap, ◌∙◌, Option, none, some, arith,
  ◌==◌, if◌then◌else◌, count, Option-cases, inl, inr, pos, eexist, enoent, ◌≤◌, find,
}
use soa_repo.Kernel.{Node, Kernel}
use soa_repo.State.{State}
use soa_repo.Registry.Table.{
  count-add, count-del, count-missing, count-present, found-count, test_found,
}
use soa_repo.Registry.Validity.{IsValid, IsFresh}
use soa_repo.Registry.Prog.{
  prog_hit, prog_key, same_name, stored_name, find_prog, register_prog_name, deregister_prog_name,
  check_progname,
}
use soa_repo.Registry.Prog.Validity.{
  stored, unlinked, new_prog, link_prog, unlink_prog, register_new, register_again,
  deregister_there, register_prog_name-IsValid, deregister_prog_name-IsValid,
}

module _ (K : Kernel) (original : ℕ → ℕ) where
  open K.prog_api use {all, possible}

  -- `check_progname` counts the entries for a program name, over all chains.
  pub check_progname-count :
      (s : State K)
      → IsValid K original s
      → (w : List ℕ) → check_progname K w s ≡ count (λ n. same_name n.val w) (all s.prog_hash)
  unfolding check_progname find_prog
  check_progname-count s v w =
      ground (arith, found-count K.prog_api prog_hit (prog_key K) s.prog_hash v.progs.consistent w)

  -- Names that agree on 16 bytes get the same answer.
  pub check_progname-same_name :
      (s : State K) (a b : List ℕ)
      → same_name a b ≡ true
      → check_progname K a s ≡ check_progname K b s
  unfolding check_progname find_prog
  check_progname-same_name s a b h =
      ap
        (λ (y : List ℕ).
          check_of (find (λ n. bytes_eq (take 16 n.val) y) (possible (K.jhash y) s.prog_hash)))
        (eq_of_bytes_eq (take 16 a) (take 16 b) h)
    where
      check_of : Option (Node (List ℕ)) → ℕ
      check_of o = elim o [ some entry ↦ 1 | none ↦ 0 ]

  module _ (s : State K) (v : IsValid K original s) where
    -- Registration with memory at hand. It returns 0 for a program name that was not registered and
    -- -EEXIST for one that was. Afterwards `check_progname` answers 1 for that program name, and for every
    -- other one what it answered before.
    pub register_prog_name-check_progname :
        (p : ℕ) (prog_name : List ℕ)
        → IsFresh K p s
        → length prog_name ≤ 15
        → ((register_prog_name K (some p) prog_name s).1
            ≡ (if check_progname K prog_name s == 0 then pos 0 else eexist))
          × ((w : List ℕ)
              → check_progname K w (register_prog_name K (some p) prog_name s).0
                ≡ (if same_name prog_name w then 1 else check_progname K w s))
    unfolding link_prog find_prog
    register_prog_name-check_progname p prog_name fresh short =
        elim (Option-cases (find_prog K prog_name (prog_key K prog_name) s)) [
          | inl missing ↦ (
            ground (
              arith,
              register_new K original s v p prog_name fresh short missing,
              none_there missing,
            ),
            λ w.
                check_progname-count _
                  (register_prog_name-IsValid K original s v p prog_name fresh short) w
                ∙ rw (register_new K original s v p prog_name fresh short missing) (
                    ground (
                      arith,
                      count-add K.prog_api prog_hit (prog_key K) s.prog_hash
                          (new_prog K original s v p prog_name fresh short)
                          (prog_key K (stored_name prog_name))
                          (unlinked K original s v p prog_name fresh short)
                          (λ n. same_name n.val w),
                      check_progname-count s v w,
                      check_progname-same_name s prog_name w,
                      ap (λ y. bytes_eq (take 16 y) (take 16 w))
                          (stored K original s v p prog_name fresh short),
                      check_progname-count s v prog_name,
                      none_there missing,
                    )),
          )
          | inr (curr, there) ↦
              rw (register_again K original s v p prog_name fresh short curr there) (
                ground (arith, one_there curr there),
                λ w. ground (arith, one_there curr there, check_progname-same_name s prog_name w),
              )
        ]
      where
        none_there :
            find_prog K prog_name (prog_key K prog_name) s ≡ none → check_progname K prog_name s ≡ 0
        none_there e =
            check_progname-count s v prog_name
            ∙ count-missing K.prog_api prog_hit (prog_key K) s.prog_hash v.progs.consistent
                prog_name e

        one_there :
            (n : Node (List ℕ))
            → find_prog K prog_name (prog_key K prog_name) s ≡ some n
            → check_progname K prog_name s ≡ 1
        one_there n e =
            check_progname-count s v prog_name
            ∙ count-present K.prog_api prog_hit (prog_key K) s.prog_hash v.progs.consistent
                prog_name n e

    -- Deregistration. It returns 0 for a program name that was registered and -ENOENT for one that was
    -- not. Afterwards `check_progname` answers 0 for that program name, and for every other one what it
    -- answered before.
    pub deregister_prog_name-check_progname :
        (prog_name : List ℕ)
        → ((deregister_prog_name K prog_name s).1
            ≡ (if check_progname K prog_name s == 0 then enoent else pos 0))
          × ((w : List ℕ)
              → check_progname K w (deregister_prog_name K prog_name s).0
                ≡ (if same_name prog_name w then 0 else check_progname K w s))
    unfolding unlink_prog find_prog deregister_prog_name
    deregister_prog_name-check_progname prog_name =
        elim (Option-cases (find_prog K prog_name (prog_key K prog_name) s)) [
          | inl missing ↦
              rw (missing, deregister_prog_name)
                (
                  ground (arith, none_there missing),
                  λ w. ground (arith, none_there missing, check_progname-same_name s prog_name w),
                )
          | inr (curr, there) ↦ (
            ground
                (arith, deregister_there K original s v prog_name curr there, one_there curr there),
            λ w.
                check_progname-count _ (deregister_prog_name-IsValid K original s v prog_name) w
                ∙ rw (deregister_there K original s v prog_name curr there) (
                    ground (
                      arith,
                      count-del K.prog_api prog_hit (prog_key K) s.prog_hash v.progs.consistent
                          prog_name curr there (λ n. same_name n.val w),
                      check_progname-count s v w,
                      check_progname-same_name s prog_name w,
                      same_hit w curr there,
                      check_progname-count s v prog_name,
                      one_there curr there,
                    )),
          )
        ]
      where
        -- The node that was found is one that just the names like `prog_name` look for.
        same_hit :
            (w : List ℕ) (n : Node (List ℕ))
            → find_prog K prog_name (prog_key K prog_name) s ≡ some n
            → same_name n.val w ≡ same_name prog_name w
        same_hit w n e =
            ap (λ y. bytes_eq y (take 16 w))
              (eq_of_bytes_eq (take 16 n.val) (take 16 prog_name) (
                test_found K.prog_api prog_hit (prog_key K) s.prog_hash v.progs.consistent prog_name
                  n e))

        none_there :
            find_prog K prog_name (prog_key K prog_name) s ≡ none → check_progname K prog_name s ≡ 0
        none_there e =
            check_progname-count s v prog_name
            ∙ count-missing K.prog_api prog_hit (prog_key K) s.prog_hash v.progs.consistent
                prog_name e

        one_there :
            (n : Node (List ℕ))
            → find_prog K prog_name (prog_key K prog_name) s ≡ some n
            → check_progname K prog_name s ≡ 1
        one_there n e =
            check_progname-count s v prog_name
            ∙ count-present K.prog_api prog_hit (prog_key K) s.prog_hash v.progs.consistent
                prog_name n e
