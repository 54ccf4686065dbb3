-- ===== src/Registry/Prog/History.antt =====
-- The registry of program names as a set, where names that agree on 16 bytes are the same.
use soa_repo.Base.{ℕ, ◌≤◌, ◌≡◌, refl, List, Option, none, some, length, ℤ}
use soa_repo.Kernel.{Kernel}
use soa_repo.State.{State}
use soa_repo.Registry.Validity.{IsValid, IsFresh}
use soa_repo.Registry.Histories.{
  Change, registers, deregisters, is_some, changed, answer, specified, Registry, run, AreAllowed,
  run-specified,
}
use soa_repo.Registry.Prog.{register_prog_name, deregister_prog_name, check_progname, same_name}
use soa_repo.Registry.Prog.Validity.{register_prog_name-IsValid, deregister_prog_name-IsValid}
use soa_repo.Registry.Prog.Lookup.{
  register_prog_name-check_progname, deregister_prog_name-check_progname,
}

module _ (K : Kernel) where
  unfoldable pub change_prog : Change (Option ℕ) (List ℕ) → State K → State K × ℤ
  change_prog (registers mem k) s = register_prog_name K mem k s
  change_prog (deregisters k) s = deregister_prog_name K k s

  -- kmalloc gives out no block that is out already, and the device passes names of 15
  -- bytes at most.
  abbrev pub ProgIsAllowed : Change (Option ℕ) (List ℕ) → State K → Type 0
  ProgIsAllowed (registers none k) s = Unit
  ProgIsAllowed (registers (some p) k) s = IsFresh K p s × (length k ≤ 15)
  ProgIsAllowed (deregisters k) s = Unit

  module _ (original : ℕ → ℕ) where
    pub change_prog-IsValid :
        (s : State K) (c : Change (Option ℕ) (List ℕ))
        → IsValid K original s
        → ProgIsAllowed c s
        → IsValid K original (change_prog c s).0
    unfolding change_prog register_prog_name
    change_prog-IsValid s (registers none k) v allowed = v
    change_prog-IsValid s (registers (some p) k) v (fresh, few) =
        register_prog_name-IsValid K original s v p k fresh few
    change_prog-IsValid s (deregisters k) v allowed = deregister_prog_name-IsValid K original s v k

    pub change_prog-answer :
        (s : State K) (c : Change (Option ℕ) (List ℕ))
        → IsValid K original s
        → ProgIsAllowed c s
        → (change_prog c s).1 ≡ answer is_some same_name (λ w. check_progname K w s) c
    unfolding change_prog register_prog_name
    change_prog-answer s (registers none k) v allowed = refl
    change_prog-answer s (registers (some p) k) v (fresh, few) =
        (register_prog_name-check_progname K original s v p k fresh few).0
    change_prog-answer s (deregisters k) v allowed =
        (deregister_prog_name-check_progname K original s v k).0

    pub change_prog-check :
        (s : State K) (c : Change (Option ℕ) (List ℕ))
        → IsValid K original s
        → ProgIsAllowed c s
        → (w : List ℕ)
        → check_progname K w (change_prog c s).0
          ≡ changed is_some same_name (λ u. check_progname K u s) c w
    unfolding change_prog register_prog_name
    change_prog-check s (registers none k) v allowed w = refl
    change_prog-check s (registers (some p) k) v (fresh, few) w =
        (register_prog_name-check_progname K original s v p k fresh few).1 w
    change_prog-check s (deregisters k) v allowed w =
        (deregister_prog_name-check_progname K original s v k).1 w

    abbrev pub prog_registry : Registry K original (Option ℕ) (List ℕ)
    prog_registry = record {
      is_enough = is_some;
      same = same_name;
      apply = change_prog;
      check = check_progname K;
      IsAllowed = ProgIsAllowed;
      apply-IsValid = change_prog-IsValid;
      apply-answer = change_prog-answer;
      apply-check = change_prog-check;
    }

    -- Any history of registrations of names of at most 15 bytes, with or without memory at hand, and of
    -- deregistrations, from a valid state and with each kmalloc giving out a block that is not out:
    -- the answers are those of a set in which names that agree on 16 bytes are the same, -EEXIST for
    -- the registration of a member, -ENOENT for the deregistration of any other and -ENOMEM without
    -- memory, and afterwards check_progname answers just what the set holds.
    pub prog_registry-specified :
        (s : State K) (cs : List (Change (Option ℕ) (List ℕ)))
        → IsValid K original s
        → AreAllowed prog_registry s cs
        → ((run prog_registry s cs).1
            ≡ (specified is_some same_name (λ w. check_progname K w s) cs).1)
          × ((w : List ℕ)
              → check_progname K w (run prog_registry s cs).0
                ≡ (specified is_some same_name (λ u. check_progname K u s) cs).0 w)
    prog_registry-specified s cs v allowed = run-specified prog_registry s cs v allowed
