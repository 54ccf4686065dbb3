-- ===== src/Registry/Uid/History.antt =====
-- The registry of user ids as a set.
use soa_repo.Base.{ℕ, ◌≡◌, refl, List, Option, none, some, ◌==◌, ℤ}
use soa_repo.Kernel.{Kernel}
use soa_repo.State.{State}
use soa_repo.Registry.Validity.{IsValid, IsFresh}
use soa_repo.Registry.Histories.{
  Change, registers, deregisters, is_some, changed, answer, specified, Registry, run, AreAllowed,
  run-specified,
}
use soa_repo.Registry.Uid.{register_user_id, deregister_user_id, check_uid}
use soa_repo.Registry.Uid.Validity.{register_user_id-IsValid, deregister_user_id-IsValid}
use soa_repo.Registry.Uid.Lookup.{register_user_id-check_uid, deregister_user_id-check_uid}

module _ (K : Kernel) where
  unfoldable pub change_uid : Change (Option ℕ) ℕ → State K → State K × ℤ
  change_uid (registers mem k) s = register_user_id K mem k s
  change_uid (deregisters k) s = deregister_user_id K k s

  -- kmalloc gives out no block that is out already.
  abbrev pub UidIsAllowed : Change (Option ℕ) ℕ → State K → Type 0
  UidIsAllowed (registers none k) s = Unit
  UidIsAllowed (registers (some p) k) s = IsFresh K p s
  UidIsAllowed (deregisters k) s = Unit

  module _ (original : ℕ → ℕ) where
    pub change_uid-IsValid :
        (s : State K) (c : Change (Option ℕ) ℕ)
        → IsValid K original s
        → UidIsAllowed c s
        → IsValid K original (change_uid c s).0
    unfolding change_uid register_user_id
    change_uid-IsValid s (registers none k) v allowed = v
    change_uid-IsValid s (registers (some p) k) v fresh =
        register_user_id-IsValid K original s v p k fresh
    change_uid-IsValid s (deregisters k) v allowed = deregister_user_id-IsValid K original s v k

    pub change_uid-answer :
        (s : State K) (c : Change (Option ℕ) ℕ)
        → IsValid K original s
        → UidIsAllowed c s
        → (change_uid c s).1 ≡ answer is_some ◌==◌ (λ w. check_uid K w s) c
    unfolding change_uid register_user_id
    change_uid-answer s (registers none k) v allowed = refl
    change_uid-answer s (registers (some p) k) v fresh =
        (register_user_id-check_uid K original s v p k fresh).0
    change_uid-answer s (deregisters k) v allowed =
        (deregister_user_id-check_uid K original s v k).0

    pub change_uid-check :
        (s : State K) (c : Change (Option ℕ) ℕ)
        → IsValid K original s
        → UidIsAllowed c s
        → (w : ℕ)
        → check_uid K w (change_uid c s).0 ≡ changed is_some ◌==◌ (λ u. check_uid K u s) c w
    unfolding change_uid register_user_id
    change_uid-check s (registers none k) v allowed w = refl
    change_uid-check s (registers (some p) k) v fresh w =
        (register_user_id-check_uid K original s v p k fresh).1 w
    change_uid-check s (deregisters k) v allowed w =
        (deregister_user_id-check_uid K original s v k).1 w

    abbrev pub uid_registry : Registry K original (Option ℕ) ℕ
    uid_registry = record {
      is_enough = is_some;
      same = ◌==◌;
      apply = change_uid;
      check = check_uid K;
      IsAllowed = UidIsAllowed;
      apply-IsValid = change_uid-IsValid;
      apply-answer = change_uid-answer;
      apply-check = change_uid-check;
    }

    -- Any history of registrations, with or without memory at hand, and deregistrations of user ids,
    -- from a valid state and with each kmalloc giving out a block that is not out: the answers are
    -- those of a set, -EEXIST for the registration of a member, -ENOENT for the deregistration of any
    -- other and -ENOMEM without memory, and afterwards check_uid answers just what the set holds.
    pub uid_registry-specified :
        (s : State K) (cs : List (Change (Option ℕ) ℕ))
        → IsValid K original s
        → AreAllowed uid_registry s cs
        → ((run uid_registry s cs).1 ≡ (specified is_some ◌==◌ (λ w. check_uid K w s) cs).1)
          × ((w : ℕ)
              → check_uid K w (run uid_registry s cs).0
                ≡ (specified is_some ◌==◌ (λ u. check_uid K u s) cs).0 w)
    uid_registry-specified s cs v allowed = run-specified uid_registry s cs v allowed
