-- ===== src/Wrapper/Alone.antt =====
-- One call of the wrapper with nobody else at work: what it ends in, by who calls and by the monitor.
use soa_repo.Base.{
  ℕ, zero, suc, ◌+◌, ◌-◌, ◌^◌, ◌<◌, ◌≡◌, ◌≢◌, refl, arith, ◌==◌, ◌||◌, if◌then◌else◌, u64,
  Option-cases, inl, inr, enosys, Bool, not, true,
}
use soa_repo.Kernel.{Kernel}
use soa_repo.State.{State}
use soa_repo.Registry.Validity.{IsValid}
use soa_repo.Registry.Uid.{check_uid}
use soa_repo.Registry.Prog.{check_progname}
use soa_repo.Registry.Syscall.{find_hack}
use soa_repo.Registry.Syscall.Validity.{missing_flag, found_flag, found_original}
use soa_repo.Stats.{Request}
use soa_repo.Wrapper.{Pc, entered, asleep, returned, calls, fails, advance, saved_call}

module _ (K : Kernel) where
  -- So many accesses of one thread.
  unfoldable pub alone : ℕ → ℕ → State K → Pc → State K × Pc
  alone zero now s pc = (s, pc)
  alone (suc n) now s pc = let (t, pc') = advance K now s pc in alone n now t pc'

  -- The caller's user id or program name is registered.
  abbrev pub is_monitored : Request → State K → Bool
  is_monitored r s = not (check_uid K r.euid s == 0) || not (check_progname K r.comm s == 0)

  -- The look-up finds the saved function of a registered system call, and none of another.
  pub saved_call-original :
      (original : ℕ → ℕ) (s : State K) (v : IsValid K original s) (nr : ℕ)
      → saved_call K nr s ≡ (if s.syscall_array nr == 0 then 0 else original nr)
  saved_call-original original s v nr = elim (Option-cases (find_hack K nr s)) [
    | inl missing ↦ rw (missing, saved_call, missing_flag K original s v nr missing) refl
    | inr (n, there) ↦
        rw (there, saved_call)
          (ground
            (arith, found_flag K original s v nr n there, found_original K original s v nr n there))
  ]

  -- With the monitor on and a token left, a call of a registered system call ends in a call of
  -- the function that the system call table had at first; a monitored caller takes one token, and
  -- nothing else changes. A table entry is not NULL.
  pub alone_with_token :
      (original : ℕ → ℕ) (s : State K) (r : Request) (now : ℕ)
      → IsValid K original s
      → s.syscall_array r.sysnum ≢ 0
      → original r.sysnum ≢ 0
      → s.is_monitor_active ≡ 1
      → 0 < s.curr_syscalls
      → s.curr_syscalls < 2 ^ 31
      → alone 6 now s (entered r) ≡ (
        if is_monitored r s then record s { curr_syscalls = s.curr_syscalls - 1 } else s,
        returned r (calls (original r.sysnum)),
      )
  unfolding alone advance
  alone_with_token original s r now v there real on some_left fits =
      ground (arith, saved_call-original original s v r.sysnum)

  -- With the monitor on and no token left, a monitored caller goes to sleep, counted as blocked.
  pub alone_without_token :
      (original : ℕ → ℕ) (s : State K) (r : Request) (now : ℕ)
      → IsValid K original s
      → s.syscall_array r.sysnum ≢ 0
      → s.is_monitor_active ≡ 1
      → s.curr_syscalls ≡ 0
      → is_monitored r s ≡ true
      → alone 7 now s (entered r) ≡ (
        record s { blocked_thread = u64 (s.blocked_thread + 1) },
        asleep r (original r.sysnum) 0 now,
      )
  unfolding alone advance
  alone_without_token original s r now v there on none_left monitored =
      ground (arith, saved_call-original original s v r.sysnum)

  -- With the monitor off, every call through the wrapper ends in -ENOSYS, and the original system
  -- call is not made.
  pub alone_when_off :
      (s : State K) (r : Request) (now : ℕ)
      → s.is_monitor_active ≡ 0
      → alone 2 now s (entered r) ≡ (s, returned r (fails enosys))
  unfolding alone advance
  alone_when_off s r now off = ground arith
