-- ===== src/Wrapper/Threads/Rate.antt =====
-- The limit over many expiries of the timer.
use soa_repo.Base.{ℕ, ◌+◌, ◌*◌, ◌≤◌, ◌≡◌, refl, arith, none, int_of}
use soa_repo.Kernel.{Kernel}
use soa_repo.State.{State}
use soa_repo.Registry.Uid.{register_user_id, deregister_user_id}
use soa_repo.Registry.Prog.{register_prog_name, deregister_prog_name}
use soa_repo.Registry.Syscall.{register_system_call, deregister_system_call}
use soa_repo.Monitor.{
  get_thread_stats, switch_on_monitor, switch_off_monitor, set_max_syscall, epoch_handler,
}
use soa_repo.Monitor.Timer.{epoch_timer_fires}
use soa_repo.Stats.{check_and_set_statistic}
use soa_repo.Wrapper.{Pc, asleep, advance, interrupt}
use soa_repo.Wrapper.Threads.{
  System, dispatches, runs, signals, expires, switches_off, administers, Run, start, later, Admin,
  sets_max, adds_uid, admin,
}
use soa_repo.Wrapper.Threads.Throttle.{
  tokens_taken, expiries, advance-token, interrupt-token, admin-token, switch_off-token,
}

-- A limit that the administrator sets is at most this, or is refused.
abbrev pub IsAtMost : ℕ → Admin → Type 0
IsAtMost most (sets_max w) = w ≤ most
IsAtMost most a = Unit

module _ (K : Kernel) (most : ℕ) where
  -- No limit above `most` is set in a run.
  unfoldable pub IsLimited : {n : ℕ} {s t : System K} → Run K n s t → Type 0
  IsLimited start = Unit
  IsLimited (later run (administers a allowed)) = IsLimited run × IsAtMost most a
  IsLimited (later run step) = IsLimited run

  advance_max :
      (now : ℕ) (s : State K) (p : Pc)
      → (advance K now s p).0.max_syscalls_per_sec ≡ s.max_syscalls_per_sec
  unfolding advance check_and_set_statistic
  advance_max now s p = ground arith

  interrupt_max :
      (s : State K) (p : Pc) → (interrupt K s p).0.max_syscalls_per_sec ≡ s.max_syscalls_per_sec
  unfolding interrupt
  interrupt_max s (asleep r c d t) = refl
  interrupt_max s p = refl

  switch_off_max :
      (now : ℕ) (s : State K)
      → (switch_off_monitor K now s).0.max_syscalls_per_sec ≡ s.max_syscalls_per_sec
  unfolding switch_off_monitor
  switch_off_max now s = ground arith

  set_max_max :
      (w : ℕ) (s : State K)
      → s.max_syscalls_per_sec ≤ most
      → w ≤ most
      → (set_max_syscall K (int_of w) s).0.max_syscalls_per_sec ≤ most
  unfolding set_max_syscall
  set_max_max w s h k = ground arith

  admin_max :
      (a : Admin) (s : State K)
      → s.max_syscalls_per_sec ≤ most
      → IsAtMost most a
      → (admin K a s).max_syscalls_per_sec ≤ most
  unfolding admin get_thread_stats register_user_id deregister_user_id register_prog_name
      deregister_prog_name register_system_call deregister_system_call switch_on_monitor
  admin_max (sets_max w) s h k = set_max_max w s h k
  admin_max (adds_uid none u) s h k = h
  admin_max a s h k = ground arith

  expiry_max :
      (now : ℕ) (s : State K)
      → s.max_syscalls_per_sec ≤ most
      → s.curr_syscalls ≤ most
      → ((epoch_timer_fires K now s).max_syscalls_per_sec ≤ most)
        × ((epoch_timer_fires K now s).curr_syscalls ≤ most)
  unfolding epoch_timer_fires epoch_handler
  expiry_max now s h k = ground arith

  abbrev IsWithin : {n : ℕ} {s t : System K} → Run K n s t → Type 0
  IsWithin {t = t} run =
      (tokens_taken K run + t.shared.curr_syscalls ≤ expiries K run * most + most)
      × (t.shared.curr_syscalls ≤ most)
      × (t.shared.max_syscalls_per_sec ≤ most)

  run-IsWithin :
      {n : ℕ} {s t : System K} (run : Run K n s t)
      → s.shared.curr_syscalls ≤ most
      → s.shared.max_syscalls_per_sec ≤ most
      → IsLimited run
      → IsWithin run
  unfolding tokens_taken expiries IsLimited
  run-IsWithin start h k limited = (omega arith, h, k)
  run-IsWithin (later {t = t} run (dispatches i r lt away patched)) h k limited =
      run-IsWithin run h k limited
  run-IsWithin (later {t = t} run (runs i now lt)) h k limited =
      let (sum, tokens, limit) = run-IsWithin run h k limited in
      let moved = advance-token K now t.shared (t.pc i) in
      (omega arith, omega arith, omega (arith, advance_max now t.shared (t.pc i)))
  run-IsWithin (later {t = t} run (signals i lt)) h k limited =
      let (sum, tokens, limit) = run-IsWithin run h k limited in
      let moved = interrupt-token K t.shared (t.pc i) in
      (omega arith, omega arith, omega (arith, interrupt_max t.shared (t.pc i)))
  run-IsWithin (later {t = t} run (expires now due armed)) h k limited =
      let (sum, tokens, limit) = run-IsWithin run h k limited in
      let (limit', tokens') = expiry_max now t.shared limit tokens in (grind arith, tokens', limit')
  run-IsWithin (later {t = t} run (switches_off now)) h k limited =
      let (sum, tokens, limit) = run-IsWithin run h k limited in
      let moved = switch_off-token K now t.shared in
      (omega arith, omega arith, omega (arith, switch_off_max now t.shared))
  run-IsWithin (later {t = t} run (administers a allowed)) h k (limited, a_limited) =
      let (sum, tokens, limit) = run-IsWithin run h k limited in
      let moved = admin-token K a t.shared in
      (omega arith, omega arith, admin_max a t.shared limit a_limited)

  -- The rate is kept: in any run, whatever the threads, signals and the administrator do, from a
  -- state whose limit and tokens are at most `most` and with no limit above it set, the calls that
  -- get a token are at most `most` for each expiry of the timer, and as many again before the first.
  pub tokens_taken-rate :
      {n : ℕ} {s t : System K} (run : Run K n s t)
      → s.shared.curr_syscalls ≤ most
      → s.shared.max_syscalls_per_sec ≤ most
      → IsLimited run
      → tokens_taken K run ≤ (expiries K run + 1) * most
  tokens_taken-rate run h k limited =
      let (sum, tokens, limit) = run-IsWithin run h k limited in grind arith
