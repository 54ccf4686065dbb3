-- ===== src/Wrapper/Threads/Safety.antt =====
-- What the invariant says of the threads: who sleeps, how many are blocked, what a call ends in, and the
-- registries beside them.
use soa_repo.Base.{
  inl, inr, ℕ, ◌+◌, ◌<◌, ◌≡◌, ◌⊎◌, ◌∙◌, refl, arith, Option, none, some, true, ◌==◌, u64, u32,
  length, enosys, eintr, if◌then◌else◌,
}
use soa_repo.Kernel.{Kernel}
use soa_repo.Registry.Syscall.{check_syscall}
use soa_repo.Monitor.{sub64, epoch_handler}
use soa_repo.Monitor.Timer.{epoch_timer_fires, is_armed}
use soa_repo.Stats.{Request}
use soa_repo.Wrapper.{Outcome, asleep, taking, returned, calls, fails, advance, wake}
use soa_repo.Wrapper.Threads.{System, Run, loaded}
use soa_repo.Wrapper.Threads.Waiting.{is_asleep, blocked_among}
use soa_repo.Wrapper.Threads.Invariant.{Run-Inv}

module _ (K : Kernel) (original : ℕ → ℕ) (n now : ℕ) (s : System K)
    (run : Run K n (loaded K original now) s) where
  armed_due : (timer : Option ℕ) → is_armed timer ≡ 1 → (due : ℕ) × (timer ≡ some due)
  armed_due none h = cc
  armed_due (some due) h = (due, refl)

  -- With each switch and each run of the handler one step: in every reachable state, a thread that
  -- sleeps in the wrapper has no reason to go (the monitor is on and no token is left), and the timer
  -- that will give new tokens is armed.
  pub asleep_awaits_timer :
      (i : ℕ)
      → is_asleep (s.pc i) ≡ true
      → (s.shared.is_monitor_active ≡ 1)
        × (s.shared.curr_syscalls ≡ 0)
        × ((due : ℕ) × (s.shared.epoch_timer ≡ some due))
  asleep_awaits_timer i e =
      let inv = Run-Inv original K n now run in
      let (on, none_left) = inv.asleep_closed i e in
      (on, none_left, armed_due s.shared.epoch_timer (inv.monitor.armed ∙ on))

  -- In every reachable state, when the timer goes off the tokens are as many as the limit, which is
  -- positive, and a thread that slept since `start_time` goes back to the token test if it makes the
  -- next access of all, at the same time.
  pub expiry_releases :
      (i later start_time delay to_call : ℕ) (r : Request)
      → s.pc i ≡ asleep r to_call delay start_time
      → (0 < (epoch_timer_fires K later s.shared).curr_syscalls)
        × ((epoch_timer_fires K later s.shared).curr_syscalls ≡ s.shared.max_syscalls_per_sec)
        × ((advance K later (epoch_timer_fires K later s.shared) (wake (s.pc i))).1
            ≡ taking r to_call (u64 (delay + sub64 later start_time)))
  unfolding epoch_timer_fires epoch_handler advance wake
  expiry_releases i later start_time delay to_call r e =
      let inv = Run-Inv original K n now run in
      let woken = asleep_awaits_timer i (rw e refl) in ground arith

  -- `blocked_thread` is the number of the threads between its increment and its decrement, modulo
  -- 2 ^ 64, in every reachable state.
  pub blocked_thread-counts : s.shared.blocked_thread ≡ u64 (blocked_among n s.pc)
  blocked_thread-counts = (Run-Inv original K n now run).counted

  -- In every reachable state, a thread that is through the wrapper has made the call that the system
  -- call table had for its number before the module was loaded, or has got -ENOSYS or -EINTR.
  pub returned_original :
      (i : ℕ) (r : Request) (outcome : Outcome)
      → s.pc i ≡ returned r outcome
      → (outcome ≡ calls (original r.sysnum)) ⊎ (outcome ≡ fails enosys) ⊎ (outcome ≡ fails eintr)
  returned_original i r (calls f) e =
      inl (rw (rw e at ((Run-Inv original K n now run).honest i)) refl)
  returned_original i r (fails c) e = elim (rw e at ((Run-Inv original K n now run).honest i)) [
    | inl no_call ↦ inr (inl (rw no_call refl))
    | inr signal ↦ inr (inr (rw signal refl))
  ]

  -- In every reachable state the system call table sends the registered numbers in range to the
  -- wrapper and the others where they went before the module was loaded, and the three counters are
  -- the numbers of entries, modulo the width of their type.
  pub registries_agree :
      (i : ℕ)
      → i < K.nr_syscalls
      → (s.shared.hacked_syscall_tbl i
          ≡ (if check_syscall K i s.shared == 0 then original i else K.wrapper_address))
        × (s.shared.sys_len ≡ u32 (length (K.hack_api.all s.shared.hacked_syscall_hash)))
        × (s.shared.uids_len ≡ u64 (length (K.uid_api.all s.shared.uid_hash)))
        × (s.shared.prog_name_len ≡ u64 (length (K.prog_api.all s.shared.prog_hash)))
  unfolding check_syscall
  registries_agree i in_range =
      let v = (Run-Inv original K n now run).valid in
      (
        rw (K.nospec_in_range i K.nr_syscalls in_range) (ground (arith, v.hacks.patched i)),
        v.hacks.counted,
        v.uids.counted,
        v.progs.counted,
      )
