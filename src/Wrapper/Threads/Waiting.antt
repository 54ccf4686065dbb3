-- ===== src/Wrapper/Threads/Waiting.antt =====
-- Threads in the wait of the wrapper: how many there are, and who sleeps.
use soa_repo.Base.{
  ℕ, zero, suc, ◌+◌, ◌≤◌, ◌<◌, ◌≡◌, refl, arith, none, some, Bool, true, false, ◌==◌, u64,
  Bool-cases, inl, inr,
}
use soa_repo.Kernel.{Kernel}
use soa_repo.State.{State, update}
use soa_repo.Registry.Uid.{register_user_id, deregister_user_id}
use soa_repo.Registry.Prog.{register_prog_name, deregister_prog_name}
use soa_repo.Registry.Syscall.{register_system_call, deregister_system_call}
use soa_repo.Monitor.{get_thread_stats, switch_on_monitor, set_max_syscall}
use soa_repo.Monitor.Timer.{MonitorIsValid}
use soa_repo.Stats.{check_and_set_statistic}
use soa_repo.Wrapper.{Pc, outside, waiting, asleep, returned, advance, interrupt, wake}
use soa_repo.Wrapper.Threads.{Admin, adds_uid, admin, wake_all, is_away}

-- The threads between the increment of `blocked_thread` and its decrement.
abbrev pub in_wait : Pc → ℕ
in_wait (waiting r c d t) = 1
in_wait (asleep r c d t) = 1
in_wait p = 0

abbrev pub is_asleep : Pc → Bool
is_asleep (asleep r c d t) = true
is_asleep p = false

-- How many of the first `n` threads are in the wait.
unfoldable pub blocked_among : ℕ → (ℕ → Pc) → ℕ
blocked_among zero pc = 0
blocked_among (suc n) pc = in_wait (pc n) + blocked_among n pc

blocked_among-update_above :
    (n : ℕ) (pc : ℕ → Pc) (i : ℕ) (p : Pc)
    → n ≤ i
    → blocked_among n (update pc i p) ≡ blocked_among n pc
unfolding blocked_among
blocked_among-update_above zero pc i p h = refl
blocked_among-update_above (suc n) pc i p h =
    let other : (i == n) ≡ false = ground arith in
    rw other (omega (arith, blocked_among-update_above n pc i p (omega arith)))

pub blocked_among-update :
    (n : ℕ) (pc : ℕ → Pc) (i : ℕ) (p : Pc)
    → i < n
    → blocked_among n (update pc i p) + in_wait (pc i) ≡ blocked_among n pc + in_wait p
unfolding blocked_among
blocked_among-update zero pc i p h = absurd (omega arith)
blocked_among-update (suc n) pc i p h = elim (Bool-cases (i == n)) [
  | inl same ↦ ground (arith, blocked_among-update_above n pc i p)
  | inr other ↦ rw other (omega (arith, blocked_among-update n pc i p (ground arith)))
]

pub in_wait-le : (n : ℕ) (pc : ℕ → Pc) (i : ℕ) → i < n → in_wait (pc i) ≤ blocked_among n pc
unfolding blocked_among
in_wait-le zero pc i h = absurd (omega arith)
in_wait-le (suc n) pc i h = elim (Bool-cases (i == n)) [
  | inl same ↦ ground arith
  | inr other ↦ omega (arith, in_wait-le n pc i (ground arith))
]

in_wait-wake : (p : Pc) → in_wait (wake p) ≡ in_wait p
unfolding wake
in_wait-wake (asleep r c d t) = refl
in_wait-wake p = refl

pub is_asleep-wake : (p : Pc) → is_asleep (wake p) ≡ false
unfolding wake
is_asleep-wake (asleep r c d t) = refl
is_asleep-wake p = refl

pub in_wait-away : (p : Pc) → is_away p ≡ true → in_wait p ≡ 0
in_wait-away outside h = refl
in_wait-away (returned r o) h = refl
in_wait-away p h = cc

pub blocked_among-outside : (n : ℕ) → blocked_among n (λ i. outside) ≡ 0
unfolding blocked_among
blocked_among-outside zero = refl
blocked_among-outside (suc n) = omega (arith, blocked_among-outside n)

module _ (K : Kernel) where
  pub blocked_among-wake :
      (n : ℕ) (pc : ℕ → Pc) → blocked_among n (wake_all K pc) ≡ blocked_among n pc
  unfolding blocked_among
  blocked_among-wake zero pc = refl
  blocked_among-wake (suc n) pc = omega (arith, in_wait-wake (pc n), blocked_among-wake n pc)

  -- An access keeps count: `m` is the number of the other threads in the wait.
  pub advance-counts :
      (now m : ℕ) (s : State K) (p : Pc)
      → s.blocked_thread ≡ u64 (in_wait p + m)
      → (advance K now s p).0.blocked_thread ≡ u64 (in_wait (advance K now s p).1 + m)
  unfolding advance check_and_set_statistic
  advance-counts now m s (waiting r c d t) h = ground arith
  advance-counts now m s p h = ground arith

  pub interrupt-counts :
      (m : ℕ) (s : State K) (p : Pc)
      → s.blocked_thread ≡ u64 (in_wait p + m)
      → (interrupt K s p).0.blocked_thread ≡ u64 (in_wait (interrupt K s p).1 + m)
  unfolding interrupt
  interrupt-counts m s (asleep r c d t) h = ground arith
  interrupt-counts m s p h = h

  pub interrupt-MonitorIsValid :
      (s : State K) (p : Pc) → MonitorIsValid K s → MonitorIsValid K (interrupt K s p).0
  unfolding interrupt
  interrupt-MonitorIsValid s (asleep r c d t) v = ground arith
  interrupt-MonitorIsValid s p v = v

  pub interrupt-awake : (s : State K) (p : Pc) → is_asleep (interrupt K s p).1 ≡ false
  unfolding interrupt
  interrupt-awake s (asleep r c d t) = refl
  interrupt-awake s p = refl

  pub advance-MonitorIsValid :
      (now : ℕ) (s : State K) (p : Pc) → MonitorIsValid K s → MonitorIsValid K (advance K now s p).0
  unfolding advance check_and_set_statistic
  advance-MonitorIsValid now s (waiting r c d t) v = ground arith
  advance-MonitorIsValid now s p v = ground arith

  -- Nobody may go.
  abbrev pub IsClosed : State K → Type 0
  IsClosed s = (s.is_monitor_active ≡ 1) × (s.curr_syscalls ≡ 0)

  pub interrupt-IsClosed : (s : State K) (p : Pc) → IsClosed s → IsClosed (interrupt K s p).0
  unfolding interrupt
  interrupt-IsClosed s (asleep r c d t) h = h
  interrupt-IsClosed s p h = h

  -- While nobody may go, an access of any thread lets nobody go.
  pub advance-IsClosed :
      (now : ℕ) (s : State K) (p : Pc) → IsClosed s → IsClosed (advance K now s p).0
  unfolding advance check_and_set_statistic
  advance-IsClosed now s (waiting r c d t) h = ground arith
  advance-IsClosed now s p h = ground arith

  -- A thread falls asleep only while it may not go.
  pub advance_asleep :
      (now : ℕ) (s : State K) (p : Pc)
      → MonitorIsValid K s
      → (is_asleep p ≡ true → IsClosed s)
      → is_asleep (advance K now s p).1 ≡ true
      → IsClosed (advance K now s p).0
  unfolding advance
  advance_asleep now s (asleep r c d t) v h e = h refl
  advance_asleep now s p v h e = ground arith

  -- The administrator's other calls leave the monitor and the threads' count alone.
  pub admin-monitor :
      (a : Admin) (s : State K)
      → MonitorIsValid K s
      → MonitorIsValid K (admin K a s)
        × ((admin K a s).blocked_thread ≡ s.blocked_thread)
        × (IsClosed s → IsClosed (admin K a s))
  unfolding admin get_thread_stats register_user_id deregister_user_id register_prog_name
      deregister_prog_name register_system_call deregister_system_call switch_on_monitor
      set_max_syscall
  admin-monitor (adds_uid none u) s v = ground arith
  admin-monitor (adds_uid (some p) u) s v = ground arith
  admin-monitor a s v = ground arith
