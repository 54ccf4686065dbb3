-- ===== src/Wrapper/Threads/Validity.antt =====
-- Every step of the threads, the timer and the administrator keeps the invariants of the registries and
-- of the monitor.
use mathlib.Core.Path.{subst}
use soa_repo.Base.{count, ℕ, ◌≡◌, refl, sym, arith, none, some, int_of}
use soa_repo.Kernel.{Kernel}
use soa_repo.State.{State, kfree-cons}
use soa_repo.Registry.Validity.{IsValid}
use soa_repo.Registry.Uid.{register_user_id}
use soa_repo.Registry.Prog.{register_prog_name}
use soa_repo.Registry.Syscall.{register_system_call}
use soa_repo.Registry.Uid.Validity.{register_user_id-IsValid, deregister_user_id-IsValid}
use soa_repo.Registry.Prog.Validity.{register_prog_name-IsValid, deregister_prog_name-IsValid}
use soa_repo.Registry.Syscall.Validity.{
  register_system_call-IsValid, deregister_system_call-IsValid,
}
use soa_repo.Monitor.{
  get_thread_stats, epoch_handler, switch_on_monitor, switch_off_monitor, set_max_syscall,
}
use soa_repo.Monitor.Timer.{epoch_timer_fires}
use soa_repo.Stats.{check_and_set_statistic}
use soa_repo.Wrapper.{Pc, taking, testing, waiting, asleep, finishing, advance, interrupt}
use soa_repo.Wrapper.Threads.{
  Admin, adds_uid, drops_uid, adds_prog, drops_prog, adds_syscall, drops_syscall, sets_max,
  switches_on, reads_stats, admin, IsAllowed,
}

module _ (K : Kernel) where
  -- `s` with all that is no registry from `t`.
  abbrev pub rest_of : State K → State K → State K
  rest_of s t = record s {
    stats_at = t.stats_at;
    is_monitor_active = t.is_monitor_active;
    max_syscalls_per_sec = t.max_syscalls_per_sec;
    curr_syscalls = t.curr_syscalls;
    blocked_thread = t.blocked_thread;
    exponential = t.exponential;
    info_threads = t.info_threads;
    epoch_timer = t.epoch_timer;
  }

  pub rest_of-IsValid :
      {original : ℕ → ℕ} (s t : State K)
      → t ≡ rest_of s t
      → IsValid K original s
      → IsValid K original t
  rest_of-IsValid {original} s t same v =
      subst (λ u. IsValid K original u) (sym same)
        (record { uids = v.uids; progs = v.progs; hacks = v.hacks; heaped = v.heaped })

  advance-rest_of :
      (now : ℕ) (s : State K) (p : Pc) → (advance K now s p).0 ≡ rest_of s (advance K now s p).0
  unfolding advance check_and_set_statistic
  advance-rest_of now s (finishing r c d) = ground arith
  advance-rest_of now s (taking r c d) = ground arith
  advance-rest_of now s (testing r c d) = ground arith
  advance-rest_of now s (waiting r c d t) = ground arith
  advance-rest_of now s p = refl

  pub advance-IsValid :
      {original : ℕ → ℕ} (now : ℕ) (s : State K) (p : Pc)
      → IsValid K original s
      → IsValid K original (advance K now s p).0
  advance-IsValid now s p = rest_of-IsValid s (advance K now s p).0 (advance-rest_of now s p)

  pub interrupt-IsValid :
      {original : ℕ → ℕ} (s : State K) (p : Pc)
      → IsValid K original s
      → IsValid K original (interrupt K s p).0
  unfolding interrupt
  interrupt-IsValid s (asleep r c d t) = rest_of-IsValid s (interrupt K s (asleep r c d t)).0 refl
  interrupt-IsValid s p = λ v. v

  pub epoch_timer_fires-IsValid :
      {original : ℕ → ℕ} (now : ℕ) (s : State K)
      → IsValid K original s
      → IsValid K original (epoch_timer_fires K now s)
  unfolding epoch_timer_fires epoch_handler
  epoch_timer_fires-IsValid now s = rest_of-IsValid s (epoch_timer_fires K now s) (ground arith)

  pub switch_off_monitor-IsValid :
      {original : ℕ → ℕ} (now : ℕ) (s : State K)
      → IsValid K original s
      → IsValid K original (switch_off_monitor K now s).0
  unfolding switch_off_monitor
  switch_off_monitor-IsValid now s = rest_of-IsValid s (switch_off_monitor K now s).0 (ground arith)

  switch_on_monitor-IsValid :
      {original : ℕ → ℕ} (now : ℕ) (s : State K)
      → IsValid K original s
      → IsValid K original (switch_on_monitor K now s).0
  unfolding switch_on_monitor
  switch_on_monitor-IsValid now s = rest_of-IsValid s (switch_on_monitor K now s).0 (ground arith)

  set_max_syscall-IsValid :
      {original : ℕ → ℕ} (w : ℕ) (s : State K)
      → IsValid K original s
      → IsValid K original (set_max_syscall K (int_of w) s).0
  unfolding set_max_syscall
  set_max_syscall-IsValid w s = rest_of-IsValid s (set_max_syscall K (int_of w) s).0 (ground arith)

  -- A call of the administrator keeps the invariant of the registries, without memory too.
  pub admin-IsValid :
      {original : ℕ → ℕ} (a : Admin) (s : State K)
      → IsAllowed K a s
      → IsValid K original s
      → IsValid K original (admin K a s)
  unfolding admin register_user_id register_prog_name register_system_call get_thread_stats count
  admin-IsValid (adds_uid none u) s h v = v
  admin-IsValid {original} (adds_uid (some p) u) s h v =
      register_user_id-IsValid K original s v p u h
  admin-IsValid {original} (drops_uid u) s h v = deregister_user_id-IsValid K original s v u
  admin-IsValid (adds_prog none name) s h v = v
  admin-IsValid {original} (adds_prog (some p) name) s h v =
      register_prog_name-IsValid K original s v p name h.0 h.1
  admin-IsValid {original} (drops_prog name) s h v =
      deregister_prog_name-IsValid K original s v name
  admin-IsValid (adds_syscall none new_hack junk nr) s h v = v
  admin-IsValid (adds_syscall (some stats) none junk nr) s h v = rw (kfree-cons stats s.heap) v
  admin-IsValid {original} (adds_syscall (some stats) (some new_hack) junk nr) s h v =
      register_system_call-IsValid K original s v nr stats new_hack junk h.0 h.1 h.2
  admin-IsValid {original} (drops_syscall nr) s h v =
      deregister_system_call-IsValid K original s v nr h
  admin-IsValid (sets_max w) s h v = set_max_syscall-IsValid w s v
  admin-IsValid (switches_on now) s h v = switch_on_monitor-IsValid now s v
  admin-IsValid (reads_stats none type now) s h v = v
  admin-IsValid (reads_stats (some p) type now) s h v = record {
    uids = v.uids;
    progs = v.progs;
    hacks = v.hacks;
    heaped = record {
      distinct = λ a. ground (arith, v.heaped.distinct a);
      owned = λ a. ground (arith, v.heaped.owned a);
    };
  }
