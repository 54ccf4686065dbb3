-- ===== src/Wrapper/Threads/Release.antt =====
-- A thread that slept when the timer went off, and the others that take tokens before it.
use soa_repo.Base.{ℕ, ◌+◌, ◌<◌, ◌≤◌, ◌≡◌, refl, arith, true, u64}
use soa_repo.Kernel.{Kernel}
use soa_repo.Monitor.{sub64}
use soa_repo.Stats.{Request}
use soa_repo.Wrapper.{asleep, waiting, taking, advance, wake, is_positive}
use soa_repo.Wrapper.Threads.{System, Run, loaded}
use soa_repo.Wrapper.Threads.Invariant.{Run-Inv}
use soa_repo.Wrapper.Threads.Safety.{asleep_awaits_timer}
use soa_repo.Wrapper.Threads.Throttle.{after_expiry, expiries, tokens_taken, tokens_taken-limit}

module _ (K : Kernel) where
  -- An expiry gives a sleeper a chance while there are tokens: where the timer goes off in a reachable
  -- state in which a thread sleeps, and then the threads and the administrator do anything but let
  -- that thread make an access, with fewer calls that get a token than the limit and no further expiry,
  -- a token is left, and the next access of that thread takes it back to the token test, with its
  -- waiting time added to its delay.
  pub expiry_releases_sleeper :
      (original : ℕ → ℕ) (n load expiry now i to_call delay start_time : ℕ) (r : Request)
      (s t : System K)
      → Run K n (loaded K original load) s
      → s.pc i ≡ asleep r to_call delay start_time
      → (run : Run K n (after_expiry K expiry s) t) → expiries K run ≡ 0
      → tokens_taken K run < s.shared.max_syscalls_per_sec
      → t.pc i ≡ wake (s.pc i)
      → (1 ≤ t.shared.curr_syscalls)
        × ((advance K now t.shared (t.pc i)).1
            ≡ taking r to_call (u64 (delay + sub64 now start_time)))
  unfolding wake advance
  expiry_releases_sleeper original n load expiry now i to_call delay start_time r s t reached sleeps
        run once few still =
      let (on, none_left, (due, armed)) =
        asleep_awaits_timer K original n load s reached i (rw sleeps refl) in
      let sum = tokens_taken-limit K original n load expiry due s t reached armed run once in
      let limited = (Run-Inv original K n load reached).monitor.limited in
      let at : t.pc i ≡ waiting r to_call delay start_time = rw (still, sleeps) refl in
      let positive : is_positive t.shared.curr_syscalls ≡ true = ground arith in
      (omega arith, rw at (ground arith))
