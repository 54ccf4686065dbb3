-- ===== src/Device/Steps.antt =====
-- Commands of the device among the steps of the threads, the timer and the administrator.
use soa_repo.Base.{
  List, Option, ℕ, ◌<◌, ◌^◌, ◌≡◌, refl, arith, sym, none, some, ℤ, pos, negsuc, take, length-take,
  Bool-cases, Option-cases, inl, inr, ◌==◌, ◌&&◌, Bool, true, false, ◌⊎◌, if◌then◌else◌, int_of,
}
use mathlib.Core.Path.{subst}
use soa_repo.Kernel.{Kernel}
use soa_repo.State.{State}
use soa_repo.Monitor.{get_thread_stats, set_max_syscall}
use soa_repo.Wrapper.Threads.{
  System, Admin, adds_uid, drops_uid, adds_prog, drops_prog, adds_syscall, drops_syscall, sets_max,
  switches_on, reads_stats, admin, FreshOrNull, SecondIsFresh, IsAllowed, wake_all, Step,
  administers, switches_off, Run, start, later,
}
use soa_repo.Device.Access.{query-heap, query-HeapAfter, HeapAfter}
use soa_repo.Device.{Command, queries, controls, throttling_ioctl}
use soa_repo.Device.Queries.{Env, Query, query, checked}
use soa_repo.Device.Controls.{
  Control, register_syscall, register_uid, register_prog, deregister_syscall, deregister_uid,
  deregister_prog, set_max_calls, monitor_on, monitor_off, unknown, control, fault, bytes,
}

-- A limit comes from user space as an `int`.
abbrev pub FitsInt : Command → Type 0
FitsInt (controls (set_max_calls (some (pos n)))) = n < 2 ^ 31
FitsInt _ = Unit

int_of_small : (n : ℕ) → n < 2 ^ 31 → int_of n ≡ pos n
int_of_small n small = ground arith

-- The command that switches the monitor off.
abbrev pub is_off : Command → Bool
is_off (controls monitor_off) = true
is_off c = false

module _ (K : Kernel) where
  -- The system after a command. The one that switches the monitor off wakes the threads that wait.
  abbrev pub commanded : Env → Command → System K → System K
  commanded env c s = record {
    shared = (throttling_ioctl K env c s.shared).0;
    pc =
        if is_off c && (env.euid == 0) && (s.shared.is_monitor_active == 1)
        then wake_all K s.pc
        else s.pc;
  }

  -- Threads, the timer and commands that come through the device, in any order; what a command gets
  -- from `kmalloc` is not out, and a limit is an `int`.
  pub data Served (n : ℕ) (s : System K) : System K → Type 0 where
    at_start : Served n s s
    goes_on : {t u : System K} → Served n s t → Step K n t u → Served n s u
    obeys :
        {t : System K} (env : Env) (c : Command)
        → Served n s t
        → FreshOrNull K env.first_mem t.shared.heap
        → SecondIsFresh K env.first_mem env.second_mem t.shared.heap
        → FitsInt c
        → Served n s (commanded env c t)

  checked_range : (z : ℤ) (size n : ℕ) → checked z size ≡ some n → n < size
  checked_range (pos m) size n h = ground arith
  checked_range (negsuc m) size n h = cc

  -- Nothing was done, or one call of the administrator.
  abbrev pub Obeyed : State K → State K → Type 0
  Obeyed s t = (t ≡ s) ⊎ ((a : Admin) × IsAllowed K a s × (t ≡ admin K a s))

  module _ (env : Env) (s : State K) (fresh : FreshOrNull K env.first_mem s.heap)
      (fresh_too : SecondIsFresh K env.first_mem env.second_mem s.heap) where
    set_max-Obeyed :
        (max : ℤ)
        → FitsInt (controls (set_max_calls (some max)))
        → Obeyed s (set_max_syscall K max s).0
    unfolding set_max_syscall admin
    set_max-Obeyed (pos n) fits = inr (sets_max n, tt, rw (admin, int_of_small n fits) refl)
    set_max-Obeyed (negsuc n) fits = inl refl

    pub control-Obeyed :
        (c : Control)
        → FitsInt (controls c)
        → is_off (controls c) ≡ false
        → Obeyed s (control K env c s).0
    unfolding control admin
    control-Obeyed (register_syscall none) h other = inl refl
    control-Obeyed (register_syscall (some nr)) h other =
        elim (Option-cases (checked nr K.nr_syscalls)) [
          | inl e ↦ rw (e, control) (inl refl)
          | inr (n, e) ↦
              rw (e, control)
                (inr (
                  adds_syscall env.first_mem env.second_mem env.junk n,
                  (fresh, fresh_too, checked_range nr K.nr_syscalls n e),
                  refl,
                ))
        ]
    control-Obeyed (register_uid none) h other = inl refl
    control-Obeyed (register_uid (some uid)) h other = inr (adds_uid env.first_mem uid, fresh, refl)
    control-Obeyed (register_prog (fault e)) h other = inl refl
    control-Obeyed (register_prog (bytes name)) h other =
        inr (
          adds_prog env.first_mem (take 15 name),
          (fresh, omega (arith, length-take 15 name)),
          refl,
        )
    control-Obeyed (deregister_syscall none) h other = inl refl
    control-Obeyed (deregister_syscall (some nr)) h other =
        elim (Option-cases (checked nr K.nr_syscalls)) [
          | inl e ↦ rw (e, control) (inl refl)
          | inr (n, e) ↦
              rw (e, control) (inr (drops_syscall n, checked_range nr K.nr_syscalls n e, refl))
        ]
    control-Obeyed (deregister_uid none) h other = inl refl
    control-Obeyed (deregister_uid (some uid)) h other = inr (drops_uid uid, tt, refl)
    control-Obeyed (deregister_prog (fault e)) h other = inl refl
    control-Obeyed (deregister_prog (bytes name)) h other =
        inr (drops_prog (take 15 name), tt, refl)
    control-Obeyed (set_max_calls none) h other = inl refl
    control-Obeyed (set_max_calls (some max)) h other = set_max-Obeyed max h
    control-Obeyed monitor_on h other = inr (switches_on env.now, tt, refl)
    control-Obeyed monitor_off h other = cc
    control-Obeyed unknown h other = inl refl

    -- A query leaves the state as it is, or takes the block of `get_thread_stats`.
    query-Obeyed : (q : Query) → Obeyed s (query K env q s).0
    unfolding admin get_thread_stats
    query-Obeyed q =
        subst (Obeyed s) (sym (query-heap K env q s))
          (grown env.first_mem fresh (query-HeapAfter K env q s))
      where
        grown :
            {heap : List ℕ} (mem : Option ℕ)
            → FreshOrNull K mem s.heap
            → HeapAfter K env s.heap mem heap
            → Obeyed s (record s { heap = heap })
        grown none f e = inl (rw e refl)
        grown (some p) f (inl e) = inl (rw e refl)
        grown (some p) f (inr e) = inr (reads_stats (some p) 0 0, f, rw e refl)

    pub throttling_ioctl-Obeyed :
        (c : Command) → FitsInt c → is_off c ≡ false → Obeyed s (throttling_ioctl K env c s).0
    unfolding throttling_ioctl
    throttling_ioctl-Obeyed (queries q) fits other = query-Obeyed q
    throttling_ioctl-Obeyed (controls c) fits other = elim (Bool-cases (env.euid == 0)) [
      | inl root ↦ rw root (control-Obeyed c fits other)
      | inr user ↦ rw user (inl refl)
    ]

  module _ (n : ℕ) (s : System K) where
    obeyed-Run :
        (t : System K) (u : State K)
        → Run K n s t
        → Obeyed t.shared u
        → Run K n s (record t { shared = u })
    obeyed-Run t u run (inl same) = subst (λ v. Run K n s (record t { shared = v })) (sym same) run
    obeyed-Run t u run (inr (a, allowed, same)) =
        subst (λ v. Run K n s (record t { shared = v })) (sym same)
          (later run (administers a allowed))

    commanded-Run :
        (env : Env) (c : Command) (t : System K)
        → Run K n s t
        → FreshOrNull K env.first_mem t.shared.heap
        → SecondIsFresh K env.first_mem env.second_mem t.shared.heap
        → FitsInt c
        → Run K n s (commanded env c t)
    unfolding throttling_ioctl control
    commanded-Run env (controls monitor_off) t run fresh fresh_too fits =
        elim (Bool-cases (env.euid == 0)) [
          | inl root ↦ rw root (later run (switches_off env.now))
          | inr user ↦ rw user run
        ]
    commanded-Run env c t run fresh fresh_too fits =
        obeyed-Run t _ run (throttling_ioctl-Obeyed env t.shared fresh fresh_too c fits refl)

    -- Commands that anybody gives through the device, in any order with the steps of the threads and of
    -- the timer, and with each kmalloc giving out a block that is not out and limits that an `int` holds,
    -- bring the module where the steps of the threads, of the timer and of an administrator bring it.
    pub Served-Run : (t : System K) → Served n s t → Run K n s t
    Served-Run t at_start = start
    Served-Run t (goes_on served step) = later (Served-Run _ served) step
    Served-Run t (obeys env c served fresh fresh_too fits) =
        commanded-Run env c _ (Served-Run _ served) fresh fresh_too fits
