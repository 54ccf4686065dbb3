-- ===== src/Interface/Reports.antt =====
-- What the interface prints, compared with the registries.
use soa_repo.Base.{
  ℕ, ◌<◌, ◌≡◌, refl, arith, List, [], ◌∷◌, ◌++◌, ◌==◌, some, ℤ, pos, count, true, if◌then◌else◌,
  ltb,
}
use soa_repo.Kernel.{Kernel}
use soa_repo.State.{State, is}
use soa_repo.Registry.Validity.{IsValid, IsFresh}
use soa_repo.Registry.Syscall.{register_system_call, check_syscall}
use soa_repo.Registry.Syscall.Lookup.{register_system_call-check_syscall}
use soa_repo.Device.{Command, controls, throttling_ioctl}
use soa_repo.Device.Queries.{Env, nothing}
use soa_repo.Device.Controls.{register_syscall, control}
use soa_repo.Interface.Stdio.{Stdio, matched}
use soa_repo.Interface.Messages.{Message, syscall_registered, syscall_exists}
use soa_repo.Interface.Calls.{World, Session, Answer, ioctl, call, read_int}
use soa_repo.Interface.Shows.{by_errno}
use soa_repo.Interface.Options.{registers_syscall, with_syscall, dispatch}

module _ (K : Kernel) (io : Stdio) (w : World) (original : ℕ → ℕ) (s : Session K)
    (v : IsValid K original s.shared) where
  -- What the device meets at the next call.
  abbrev pub next_env : Env
  next_env = w.env s.calls s.shared.heap

  -- A number that is typed is the command's parameter.
  with_syscall_typed :
      (cmd : ℤ → Command) (show : ℤ → Answer → List Message) (nr : ℕ) (rest : List ℕ)
      → io.scan_int s.input ≡ matched (pos nr) rest
      → with_syscall K io w cmd show s
        ≡ call K w (cmd (pos nr)) (show (pos nr)) (record s { input = rest; int_val = pos nr })
  unfolding with_syscall read_int
  with_syscall_typed cmd show nr rest typed = rw (with_syscall, read_int, typed) refl

  module _ (nr stats new_hack : ℕ) (in_range : nr < K.nr_syscalls) (root : next_env.euid ≡ 0)
      (mem : next_env.first_mem ≡ some stats) (mem' : next_env.second_mem ≡ some new_hack) where
    -- The answer of the registration.
    abbrev registers : State K × ℤ
    registers = register_system_call K (some stats) (some new_hack) next_env.junk nr s.shared

    device_registers :
        throttling_ioctl K next_env (controls (register_syscall (some (pos nr)))) s.shared
        ≡ (registers.0, registers.1, nothing)
    unfolding throttling_ioctl control
    device_registers =
        let is_root : (next_env.euid == 0) ≡ true = ground arith in
        let is_small : ltb nr K.nr_syscalls ≡ true = ground arith in
        rw (is_root, throttling_ioctl, control, is_small, mem, mem') refl

    -- Option 1 for root, with memory at hand and the number of a system call typed: the text says
    -- whether the system call was registered before, and it is registered afterwards.
    pub registers_syscall-check_syscall :
        (rest : List ℕ)
        → io.scan_int s.input ≡ matched (pos nr) rest
        → IsFresh K stats s.shared
        → count (is new_hack) (stats ∷ s.shared.heap) ≡ 0
        → ((dispatch K io w registers_syscall s).output
            ≡ s.output
              ++ (if check_syscall K nr s.shared == 0
                  then syscall_registered (pos nr)
                  else syscall_exists (pos nr))
                ∷ [])
          × (check_syscall K nr (dispatch K io w registers_syscall s).shared ≡ 1)
          × ((dispatch K io w registers_syscall s).input ≡ rest)
    unfolding dispatch call ioctl
    registers_syscall-check_syscall rest typed fresh fresh' =
        let (result, there, table) =
          register_system_call-check_syscall K original s.shared v nr in_range stats new_hack
            next_env.junk nr fresh fresh' in_range in
        rw
          (
            with_syscall_typed (λ n. controls (register_syscall (some n)))
                (λ n. by_errno 17 (syscall_registered n) (syscall_exists n)) nr rest typed,
            call,
            ioctl,
            device_registers,
            result,
          )
          (ground (arith, there))
