-- ===== src/Registry/Prog/Listing.antt =====
-- `get_all_progs`: what the copied array holds.
use soa_repo.Base.{
  if◌then◌else◌, leb, Bool-cases, inl, inr, ℕ, ◌<◌, ◌≤◌, ◌^◌, ◌≡◌, refl, some, arith, List, [], ◌∷◌,
  count, take, take-length, pos, length, long_of, room, min, zero, suc,
}
use soa_repo.Kernel.{Node, Kernel}
use soa_repo.State.{State}
use soa_repo.Registry.Validity.{IsValid, is_long}
use soa_repo.Registry.Prog.{same_name, copy_progs, get_all_progs, check_progname}
use soa_repo.Registry.Prog.Lookup.{check_progname-count}

module _ (K : Kernel) where
  length-copy_progs :
      (n : ℕ) (l : List (Node (List ℕ))) → length (copy_progs K n l) ≡ min n (length l)
  unfolding copy_progs
  length-copy_progs zero [] = omega arith
  length-copy_progs (suc n) [] = omega arith
  length-copy_progs zero (e ∷ l) = omega arith
  length-copy_progs (suc n) (e ∷ l) = omega (arith, length-copy_progs n l)

  -- Names that fit their field are copied whole.
  count-copy_progs-le :
      (w : List ℕ) (n : ℕ) (l : List (Node (List ℕ)))
      → count is_long l ≡ 0
      → count (λ a. same_name a w) (copy_progs K n l) ≤ count (λ e. same_name e.val w) l
  unfolding copy_progs count
  count-copy_progs-le w zero [] short = omega arith
  count-copy_progs-le w (suc n) [] short = omega arith
  count-copy_progs-le w zero (e ∷ l) short = omega arith
  count-copy_progs-le w (suc n) (e ∷ l) short =
      let whole : take 15 e.val ≡ e.val = take-length 15 e.val (ground arith) in
      rw whole (omega (arith, count-copy_progs-le w n l (ground arith)))

  count-copy_progs :
      (w : List ℕ) (n : ℕ) (l : List (Node (List ℕ)))
      → count is_long l ≡ 0
      → length l ≤ n
      → count (λ a. same_name a w) (copy_progs K n l) ≡ count (λ e. same_name e.val w) l
  unfolding copy_progs count
  count-copy_progs w zero [] short h = refl
  count-copy_progs w (suc n) [] short h = refl
  count-copy_progs w zero (e ∷ l) short h = absurd (omega arith)
  count-copy_progs w (suc n) (e ∷ l) short h =
      let whole : take 15 e.val ≡ e.val = take-length 15 e.val (ground arith) in
      rw whole (omega (arith, count-copy_progs w n l (ground arith) (omega arith)))

  module _ (original : ℕ → ℕ) (s : State K) (v : IsValid K original s) where
    open K.prog_api use {all}

    -- With memory at hand, a bound `max` that is no negative number, and fewer than 2 ^ 63 program
    -- names registered: the return value is the length of the array, which is the smaller of `max`
    -- and the number of entries; a name is in the array at most once, and only if `check_progname`
    -- answers 1 for it; and if `max` is not below the number of entries, the array holds just those
    -- for which it does.
    pub get_all_progs-check_progname :
        (p max : ℕ)
        → length (all s.prog_hash) < 2 ^ 63
        → ((get_all_progs K (some p) (pos max) s).1
            ≡ pos (length (get_all_progs K (some p) (pos max) s).2))
          × (length (get_all_progs K (some p) (pos max) s).2 ≡ min max (length (all s.prog_hash)))
          × ((w : List ℕ)
              → count (λ a. same_name a w) (get_all_progs K (some p) (pos max) s).2
                ≤ check_progname K w s)
          × ((w : List ℕ)
              → (if leb (length (all s.prog_hash)) max then check_progname K w s else 0)
                ≤ count (λ a. same_name a w) (get_all_progs K (some p) (pos max) s).2)
    unfolding get_all_progs
    get_all_progs-check_progname p max small =
        rw (get_all_progs, room_left)
          (
            refl,
            omega (arith, length-copy_progs (min (length (all s.prog_hash)) max) (all s.prog_hash)),
            λ w. omega (
              arith,
              count-copy_progs-le w (min (length (all s.prog_hash)) max) (all s.prog_hash)
                  v.progs.short,
              check_progname-count K original s v w,
            ),
            λ w. elim (Bool-cases (leb (length (all s.prog_hash)) max)) [
              | inl wide ↦ rw wide (
                  omega (
                    arith,
                    count-copy_progs w (min (length (all s.prog_hash)) max) (all s.prog_hash)
                        v.progs.short (ground arith),
                    check_progname-count K original s v w,
                  ))
              | inr narrow ↦ rw narrow (omega arith)
            ],
          )
      where
        room_left :
            room (long_of s.prog_name_len) (pos max) ≡ some (min (length (all s.prog_hash)) max)
        room_left = ground (arith, v.progs.counted)
