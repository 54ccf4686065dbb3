-- ===== src/Wrapper/Threads/Throttle.antt =====
-- The limit: how many calls get a token between two expiries of the timer.
use soa_repo.Base.{ℕ, ◌+◌, ◌≡◌, ◌∙◌, refl, arith, none, some, ◌==◌, if◌then◌else◌}
use soa_repo.Kernel.{Kernel}
use soa_repo.State.{State}
use soa_repo.Registry.Uid.{register_user_id, deregister_user_id}
use soa_repo.Registry.Prog.{register_prog_name, deregister_prog_name}
use soa_repo.Registry.Syscall.{register_system_call, deregister_system_call}
use soa_repo.Monitor.{
  get_thread_stats, switch_on_monitor, switch_off_monitor, set_max_syscall, epoch_handler,
}
use soa_repo.Monitor.Timer.{epoch_timer_fires}
use soa_repo.Stats.{check_and_set_statistic}
use soa_repo.Wrapper.{Pc, taking, asleep, advance, interrupt, is_positive}
use soa_repo.Wrapper.Threads.{
  System, dispatches, runs, signals, expires, switches_off, administers, Run, start, later, loaded,
  Admin, adds_uid, admin, wake_all,
}
use soa_repo.Wrapper.Threads.Invariant.{Run-Inv}

module _ (K : Kernel) where
  -- Whether the next access of a thread gets a token.
  abbrev pub takes_token : State K → Pc → ℕ
  takes_token s (taking r to_call delay) = if is_positive s.curr_syscalls then 1 else 0
  takes_token s p = 0

  pub advance-token :
      (now : ℕ) (s : State K) (p : Pc)
      → (advance K now s p).0.curr_syscalls + takes_token s p ≡ s.curr_syscalls
  unfolding advance check_and_set_statistic
  advance-token now s (taking r c d) = ground arith
  advance-token now s p = ground arith

  pub interrupt-token : (s : State K) (p : Pc) → (interrupt K s p).0.curr_syscalls ≡ s.curr_syscalls
  unfolding interrupt
  interrupt-token s (asleep r c d t) = refl
  interrupt-token s p = refl

  pub admin-token : (a : Admin) (s : State K) → (admin K a s).curr_syscalls ≡ s.curr_syscalls
  unfolding admin get_thread_stats register_user_id deregister_user_id register_prog_name
      deregister_prog_name register_system_call deregister_system_call switch_on_monitor
      set_max_syscall
  admin-token (adds_uid none u) s = refl
  admin-token a s = ground arith

  pub switch_off-token :
      (now : ℕ) (s : State K) → (switch_off_monitor K now s).0.curr_syscalls ≡ s.curr_syscalls
  unfolding switch_off_monitor
  switch_off-token now s = ground arith

  -- The tokens that are taken in a run, and the expiries of the timer in it.
  unfoldable pub tokens_taken : {n : ℕ} {s t : System K} → Run K n s t → ℕ
  tokens_taken start = 0
  tokens_taken (later {t = t} run (runs i now lt)) =
      tokens_taken run + takes_token t.shared (t.pc i)
  tokens_taken (later run step) = tokens_taken run

  unfoldable pub expiries : {n : ℕ} {s t : System K} → Run K n s t → ℕ
  expiries start = 0
  expiries (later run (expires now due armed)) = expiries run + 1
  expiries (later run step) = expiries run

  -- Between two expiries no token appears or is lost but to a call.
  tokens_taken-balance :
      {n : ℕ} {s t : System K} (run : Run K n s t)
      → expiries run ≡ 0
      → tokens_taken run + t.shared.curr_syscalls ≡ s.shared.curr_syscalls
  unfolding tokens_taken expiries
  tokens_taken-balance start h = omega arith
  tokens_taken-balance (later {t = t} run (dispatches i r lt away patched)) h =
      tokens_taken-balance run h
  tokens_taken-balance (later {t = t} run (runs i now lt)) h =
      omega (arith, tokens_taken-balance run h, advance-token now t.shared (t.pc i))
  tokens_taken-balance (later {t = t} run (signals i lt)) h =
      omega (arith, tokens_taken-balance run h, interrupt-token t.shared (t.pc i))
  tokens_taken-balance (later {t = t} run (expires now due armed)) h = absurd (omega arith)
  tokens_taken-balance (later {t = t} run (switches_off now)) h =
      omega (arith, tokens_taken-balance run h, switch_off-token now t.shared)
  tokens_taken-balance (later {t = t} run (administers a allowed)) h =
      omega (arith, tokens_taken-balance run h, admin-token a t.shared)

  -- The system when the timer has gone off.
  abbrev pub after_expiry : ℕ → System K → System K
  after_expiry now s = record {
    shared = epoch_timer_fires K now s.shared;
    pc = if s.shared.is_monitor_active == 0 then s.pc else wake_all K s.pc;
  }

  expiry-tokens :
      (now due : ℕ) (s : State K)
      → s.epoch_timer ≡ some due
      → s.is_monitor_active ≡ 1
      → (epoch_timer_fires K now s).curr_syscalls ≡ s.max_syscalls_per_sec
  unfolding epoch_timer_fires epoch_handler
  expiry-tokens now due s armed on = ground arith

  -- The limit is kept: from any reachable state in which the timer goes off, whatever the threads
  -- and the administrator do until the next expiry, the calls that get a token and the tokens that
  -- are left add up to the limit that was set when the timer went off.
  pub tokens_taken-limit :
      (original : ℕ → ℕ) (n load now due : ℕ) (s t : System K)
      → Run K n (loaded K original load) s
      → s.shared.epoch_timer ≡ some due
      → (run : Run K n (after_expiry now s) t) → expiries run ≡ 0
      → tokens_taken run + t.shared.curr_syscalls ≡ s.shared.max_syscalls_per_sec
  tokens_taken-limit original n load now due s t reached armed run no_expiry =
      tokens_taken-balance run no_expiry
      ∙ expiry-tokens now due s.shared armed
          (ground (arith, (Run-Inv original K n load reached).monitor.armed))
