-- ===== src/Registry/Syscall/History.antt =====
-- The registry of system calls as a set, with the system call table beside it.
use soa_repo.Base.{
  ℕ, ◌<◌, ◌≡◌, ◌∙◌, refl, ap, arith, List, Option, none, some, Bool, true, false, ◌==◌,
  if◌then◌else◌, ℤ, count, ◌∷◌,
}
use soa_repo.Kernel.{Kernel}
use soa_repo.State.{State, is, kfree-cons}
use soa_repo.Registry.Validity.{IsValid, IsFresh}
use soa_repo.Registry.Histories.{
  Change, registers, deregisters, changed, answer, specified, Registry, run, AreAllowed,
  run-specified, run-IsValid,
}
use soa_repo.Registry.Syscall.{register_system_call, deregister_system_call, check_syscall}
use soa_repo.Registry.Syscall.Validity.{
  register_system_call-IsValid, deregister_system_call-IsValid,
}
use soa_repo.Registry.Syscall.Lookup.{
  register_system_call-check_syscall, deregister_system_call-check_syscall,
}

-- What the two calls of kmalloc give, and what the new statistics hold where nothing is written.
pub record Blocks : Type 0 where
  pub stats : Option ℕ
  pub new_hack : Option ℕ
  pub junk : List ℕ

abbrev both : Option ℕ → Option ℕ → Bool
both (some stats) (some new_hack) = true
both (some stats) none = false
both none new_hack = false

abbrev pub are_enough : Blocks → Bool
are_enough b = both b.stats b.new_hack

module _ (K : Kernel) where
  -- A system call in range.
  abbrev pub Number : Type 0
  Number = (nr : ℕ) × (nr < K.nr_syscalls)

  abbrev pub same_number : Number → Number → Bool
  same_number a b = a.0 == b.0

  unfoldable pub change_syscall : Change Blocks Number → State K → State K × ℤ
  change_syscall (registers b k) s = register_system_call K b.stats b.new_hack b.junk k.0 s
  change_syscall (deregisters k) s = deregister_system_call K k.0 s

  abbrev AreFresh : Option ℕ → Option ℕ → State K → Type 0
  AreFresh none new_hack s = Unit
  AreFresh (some stats) none s = Unit
  AreFresh (some stats) (some new_hack) s =
      IsFresh K stats s × (count (is new_hack) (stats ∷ s.heap) ≡ 0)

  -- kmalloc gives out no block that is out already.
  abbrev pub SyscallIsAllowed : Change Blocks Number → State K → Type 0
  SyscallIsAllowed (registers b k) s = AreFresh b.stats b.new_hack s
  SyscallIsAllowed (deregisters k) s = Unit

  module _ (original : ℕ → ℕ) (s : State K) (v : IsValid K original s) where
    registers-IsValid :
        (stats new_hack : Option ℕ) (junk : List ℕ) (k : Number)
        → AreFresh stats new_hack s
        → IsValid K original (register_system_call K stats new_hack junk k.0 s).0
    unfolding register_system_call
    registers-IsValid none new_hack junk k fresh = v
    registers-IsValid (some stats) none junk k fresh = rw (kfree-cons stats s.heap) v
    registers-IsValid (some stats) (some new_hack) junk k (fresh, fresh') =
        register_system_call-IsValid K original s v k.0 stats new_hack junk fresh fresh' k.1

    registers-answer :
        (stats new_hack : Option ℕ) (junk : List ℕ) (k : Number)
        → AreFresh stats new_hack s
        → (register_system_call K stats new_hack junk k.0 s).1
          ≡ answer are_enough same_number
              (λ (u : Number). check_syscall K u.0 s)
              (registers (record { stats = stats; new_hack = new_hack; junk = junk }) k)
    unfolding register_system_call
    registers-answer none new_hack junk k fresh = refl
    registers-answer (some stats) none junk k fresh = refl
    registers-answer (some stats) (some new_hack) junk k (fresh, fresh') =
        (register_system_call-check_syscall K original s v k.0 k.1 stats new_hack junk k.0 fresh
          fresh' k.1).0

    registers-check :
        (stats new_hack : Option ℕ) (junk : List ℕ) (k : Number)
        → AreFresh stats new_hack s
        → (w : Number)
        → check_syscall K w.0 (register_system_call K stats new_hack junk k.0 s).0
          ≡ changed are_enough same_number
              (λ (u : Number). check_syscall K u.0 s)
              (registers (record { stats = stats; new_hack = new_hack; junk = junk }) k)
              w
    unfolding register_system_call check_syscall
    registers-check none new_hack junk k fresh w = refl
    registers-check (some stats) none junk k fresh w = refl
    registers-check (some stats) (some new_hack) junk k (fresh, fresh') w =
        (register_system_call-check_syscall K original s v k.0 k.1 stats new_hack junk w.0 fresh
          fresh' w.1).1

  module _ (original : ℕ → ℕ) where
    pub change_syscall-IsValid :
        (s : State K) (c : Change Blocks Number)
        → IsValid K original s
        → SyscallIsAllowed c s
        → IsValid K original (change_syscall c s).0
    unfolding change_syscall
    change_syscall-IsValid s (registers b k) v fresh =
        registers-IsValid original s v b.stats b.new_hack b.junk k fresh
    change_syscall-IsValid s (deregisters k) v fresh =
        deregister_system_call-IsValid K original s v k.0 k.1

    pub change_syscall-answer :
        (s : State K) (c : Change Blocks Number)
        → IsValid K original s
        → SyscallIsAllowed c s
        → (change_syscall c s).1
          ≡ answer are_enough same_number (λ (w : Number). check_syscall K w.0 s) c
    unfolding change_syscall
    change_syscall-answer s (registers b k) v fresh =
        registers-answer original s v b.stats b.new_hack b.junk k fresh
    change_syscall-answer s (deregisters k) v fresh =
        (deregister_system_call-check_syscall K original s v k.0 k.1 k.0 k.1).0

    pub change_syscall-check :
        (s : State K) (c : Change Blocks Number)
        → IsValid K original s
        → SyscallIsAllowed c s
        → (w : Number)
        → check_syscall K w.0 (change_syscall c s).0
          ≡ changed are_enough same_number (λ (u : Number). check_syscall K u.0 s) c w
    unfolding change_syscall
    change_syscall-check s (registers b k) v fresh w =
        registers-check original s v b.stats b.new_hack b.junk k fresh w
    change_syscall-check s (deregisters k) v fresh w =
        (deregister_system_call-check_syscall K original s v k.0 k.1 w.0 w.1).1

    abbrev pub syscall_registry : Registry K original Blocks Number
    syscall_registry = record {
      is_enough = are_enough;
      same = same_number;
      apply = change_syscall;
      check = λ w. check_syscall K w.0;
      IsAllowed = SyscallIsAllowed;
      apply-IsValid = change_syscall-IsValid;
      apply-answer = change_syscall-answer;
      apply-check = change_syscall-check;
    }

    table-check :
        (s : State K) (w : Number)
        → IsValid K original s
        → s.hacked_syscall_tbl w.0
          ≡ (if check_syscall K w.0 s == 0 then original w.0 else K.wrapper_address)
    unfolding check_syscall
    table-check s w v =
        rw (K.nospec_in_range w.0 K.nr_syscalls w.1) (ground (arith, v.hacks.patched w.0))

    -- Any history of registrations, with or without memory at hand, and deregistrations of system
    -- calls in range, from a valid state and with each kmalloc giving out a block that is not out: the
    -- answers are those of a set, -EEXIST for the registration of a member, -ENOENT for the
    -- deregistration of any other and -ENOMEM without memory; afterwards check_syscall answers just
    -- what the set holds, and the system call table sends the members to the wrapper and the others
    -- where they went before the module was loaded.
    pub syscall_registry-specified :
        (s : State K) (cs : List (Change Blocks Number))
        → IsValid K original s
        → AreAllowed syscall_registry s cs
        → ((run syscall_registry s cs).1
            ≡ (specified are_enough same_number (λ (w : Number). check_syscall K w.0 s) cs).1)
          × ((w : Number)
              → check_syscall K w.0 (run syscall_registry s cs).0
                ≡ (specified are_enough same_number (λ (u : Number). check_syscall K u.0 s) cs).0 w)
          × ((w : Number)
              → (run syscall_registry s cs).0.hacked_syscall_tbl w.0 ≡ (
                  if (specified are_enough same_number (λ (u : Number). check_syscall K u.0 s) cs).0
                      w
                    == 0
                  then original w.0
                  else K.wrapper_address))
    syscall_registry-specified s cs v allowed =
        let (answers, members) = run-specified syscall_registry s cs v allowed in
        let valid = run-IsValid syscall_registry s cs v allowed in
        (
          answers,
          members,
          λ w.
              table-check (run syscall_registry s cs).0 w valid
              ∙ ap (λ (m : ℕ). if m == 0 then original w.0 else K.wrapper_address) (members w),
        )
