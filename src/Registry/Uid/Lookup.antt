-- ===== src/Registry/Uid/Lookup.antt =====
-- The user ids as a set: what `check_uid` answers after each operation of src/throttling_api.c.
use soa_repo.Base.{
  ℕ, ◌≡◌, ◌∙◌, none, some, arith, ◌==◌, if◌then◌else◌, count, Option-cases, inl, inr, pos, eexist,
  enoent,
}
use soa_repo.Kernel.{Node, Kernel}
use soa_repo.State.{State}
use soa_repo.Registry.Table.{
  count-add, count-del, count-missing, count-present, found-count, test_found,
}
use soa_repo.Registry.Validity.{IsValid, IsFresh}
use soa_repo.Registry.Uid.{
  uid_hit, uid_key, find_uid, register_user_id, deregister_user_id, check_uid,
}
use soa_repo.Registry.Uid.Validity.{
  unlinked, new_uid, link_uid, unlink_uid, register_new, register_again, deregister_there,
  register_user_id-IsValid, deregister_user_id-IsValid,
}

module _ (K : Kernel) (original : ℕ → ℕ) where
  open K.uid_api use {all}

  -- `check_uid` counts the entries for a user id, over all chains.
  pub check_uid-count :
      (s : State K)
      → IsValid K original s
      → (w : ℕ) → check_uid K w s ≡ count (λ n. n.val == w) (all s.uid_hash)
  unfolding check_uid find_uid
  check_uid-count s v w =
      ground (arith, found-count K.uid_api uid_hit uid_key s.uid_hash v.uids.consistent w)

  module _ (s : State K) (v : IsValid K original s) where
    -- Registration with memory at hand. It returns 0 for a user id that was not registered and
    -- -EEXIST for one that was. Afterwards `check_uid` answers 1 for that user id, and for every
    -- other one what it answered before.
    pub register_user_id-check_uid :
        (p user_id : ℕ)
        → IsFresh K p s
        → ((register_user_id K (some p) user_id s).1
            ≡ (if check_uid K user_id s == 0 then pos 0 else eexist))
          × ((w : ℕ)
              → check_uid K w (register_user_id K (some p) user_id s).0
                ≡ (if user_id == w then 1 else check_uid K w s))
    unfolding link_uid find_uid
    register_user_id-check_uid p user_id fresh = elim (Option-cases (find_uid K user_id s)) [
      | inl missing ↦ (
        ground (arith, register_new K original s v p user_id fresh missing, none_there missing),
        λ w.
            check_uid-count _ (register_user_id-IsValid K original s v p user_id fresh) w
            ∙ rw (register_new K original s v p user_id fresh missing) (
                ground (
                  arith,
                  count-add K.uid_api uid_hit uid_key s.uid_hash
                      (new_uid K original s v p user_id fresh) user_id
                      (unlinked K original s v p user_id fresh) (λ n. n.val == w),
                  check_uid-count s v w,
                  check_uid-count s v user_id,
                  none_there missing,
                )),
      )
      | inr (curr, there) ↦
          rw (register_again K original s v p user_id fresh curr there)
            (ground (arith, one_there curr there), λ w. ground (arith, one_there curr there))
    ]
      where
        none_there : find_uid K user_id s ≡ none → check_uid K user_id s ≡ 0
        none_there e =
            check_uid-count s v user_id
            ∙ count-missing K.uid_api uid_hit uid_key s.uid_hash v.uids.consistent user_id e

        one_there : (n : Node ℕ) → find_uid K user_id s ≡ some n → check_uid K user_id s ≡ 1
        one_there n e =
            check_uid-count s v user_id
            ∙ count-present K.uid_api uid_hit uid_key s.uid_hash v.uids.consistent user_id n e

    -- Deregistration. It returns 0 for a user id that was registered and -ENOENT for one that was
    -- not. Afterwards `check_uid` answers 0 for that user id, and for every other one what it
    -- answered before.
    pub deregister_user_id-check_uid :
        (user_id : ℕ)
        → ((deregister_user_id K user_id s).1
            ≡ (if check_uid K user_id s == 0 then enoent else pos 0))
          × ((w : ℕ)
              → check_uid K w (deregister_user_id K user_id s).0
                ≡ (if user_id == w then 0 else check_uid K w s))
    unfolding unlink_uid find_uid deregister_user_id
    deregister_user_id-check_uid user_id = elim (Option-cases (find_uid K user_id s)) [
      | inl missing ↦
          rw (missing, deregister_user_id)
            (ground (arith, none_there missing), λ w. ground (arith, none_there missing))
      | inr (curr, there) ↦ (
        ground (arith, deregister_there K original s v user_id curr there, one_there curr there),
        λ w.
            check_uid-count _ (deregister_user_id-IsValid K original s v user_id) w
            ∙ rw (deregister_there K original s v user_id curr there) (
                ground (
                  arith,
                  count-del K.uid_api uid_hit uid_key s.uid_hash v.uids.consistent user_id curr
                      there (λ n. n.val == w),
                  test_found K.uid_api uid_hit uid_key s.uid_hash v.uids.consistent user_id curr
                      there,
                  check_uid-count s v w,
                  check_uid-count s v user_id,
                  one_there curr there,
                )),
      )
    ]
      where
        none_there : find_uid K user_id s ≡ none → check_uid K user_id s ≡ 0
        none_there e =
            check_uid-count s v user_id
            ∙ count-missing K.uid_api uid_hit uid_key s.uid_hash v.uids.consistent user_id e

        one_there : (n : Node ℕ) → find_uid K user_id s ≡ some n → check_uid K user_id s ≡ 1
        one_there n e =
            check_uid-count s v user_id
            ∙ count-present K.uid_api uid_hit uid_key s.uid_hash v.uids.consistent user_id n e
