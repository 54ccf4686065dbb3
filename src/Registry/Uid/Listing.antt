-- ===== src/Registry/Uid/Listing.antt =====
-- `get_all_uids`: what the copied array holds.
use soa_repo.Base.{
  if◌then◌else◌, leb, Bool-cases, inl, inr, ℕ, ◌<◌, ◌≤◌, ◌^◌, ◌≡◌, refl, some, arith, ◌==◌, List,
  [], ◌∷◌, count, pos, length, long_of, room, min, zero, suc,
}
use soa_repo.Kernel.{Node, Kernel}
use soa_repo.State.{State, is}
use soa_repo.Registry.Validity.{IsValid}
use soa_repo.Registry.Uid.{copy_uids, get_all_uids, check_uid}
use soa_repo.Registry.Uid.Lookup.{check_uid-count}

module _ (K : Kernel) where
  length-copy_uids : (n : ℕ) (l : List (Node ℕ)) → length (copy_uids K n l) ≡ min n (length l)
  unfolding copy_uids
  length-copy_uids zero [] = omega arith
  length-copy_uids (suc n) [] = omega arith
  length-copy_uids zero (e ∷ l) = omega arith
  length-copy_uids (suc n) (e ∷ l) = omega (arith, length-copy_uids n l)

  count-copy_uids-le :
      (u n : ℕ) (l : List (Node ℕ)) → count (is u) (copy_uids K n l) ≤ count (λ e. e.val == u) l
  unfolding copy_uids count
  count-copy_uids-le u zero [] = omega arith
  count-copy_uids-le u (suc n) [] = omega arith
  count-copy_uids-le u zero (e ∷ l) = omega arith
  count-copy_uids-le u (suc n) (e ∷ l) = omega (arith, count-copy_uids-le u n l)

  count-copy_uids :
      (u n : ℕ) (l : List (Node ℕ))
      → length l ≤ n
      → count (is u) (copy_uids K n l) ≡ count (λ e. e.val == u) l
  unfolding copy_uids count
  count-copy_uids u zero [] h = refl
  count-copy_uids u (suc n) [] h = refl
  count-copy_uids u zero (e ∷ l) h = absurd (omega arith)
  count-copy_uids u (suc n) (e ∷ l) h = omega (arith, count-copy_uids u n l)

  module _ (original : ℕ → ℕ) (s : State K) (v : IsValid K original s) where
    open K.uid_api use {all}

    -- With memory at hand, a bound `max` that is no negative number, and fewer than 2 ^ 63 user
    -- ids registered: the return value is the length of the array, which is the smaller of `max`
    -- and the number of entries; a user id is in the array at most once, and only if `check_uid`
    -- answers 1 for it; and if `max` is not below the number of entries, the array holds just
    -- those for which it does.
    pub get_all_uids-check_uid :
        (p max : ℕ)
        → length (all s.uid_hash) < 2 ^ 63
        → ((get_all_uids K (some p) (pos max) s).1
            ≡ pos (length (get_all_uids K (some p) (pos max) s).2))
          × (length (get_all_uids K (some p) (pos max) s).2 ≡ min max (length (all s.uid_hash)))
          × ((u : ℕ) → count (is u) (get_all_uids K (some p) (pos max) s).2 ≤ check_uid K u s)
          × ((u : ℕ)
              → (if leb (length (all s.uid_hash)) max then check_uid K u s else 0)
                ≤ count (is u) (get_all_uids K (some p) (pos max) s).2)
    unfolding get_all_uids
    get_all_uids-check_uid p max small =
        rw (get_all_uids, room_left)
          (
            refl,
            omega (arith, length-copy_uids (min (length (all s.uid_hash)) max) (all s.uid_hash)),
            λ u. omega (
              arith,
              count-copy_uids-le u (min (length (all s.uid_hash)) max) (all s.uid_hash),
              check_uid-count K original s v u,
            ),
            λ u. elim (Bool-cases (leb (length (all s.uid_hash)) max)) [
              | inl wide ↦ rw wide (
                  omega (
                    arith,
                    count-copy_uids u (min (length (all s.uid_hash)) max) (all s.uid_hash)
                        (ground arith),
                    check_uid-count K original s v u,
                  ))
              | inr narrow ↦ rw narrow (omega arith)
            ],
          )
      where
        room_left : room (long_of s.uids_len) (pos max) ≡ some (min (length (all s.uid_hash)) max)
        room_left = ground (arith, v.uids.counted)
