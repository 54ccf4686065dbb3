-- ===== src/Wrapper/Threads/Invariant.antt =====
-- What holds in every state that the threads, the timer and the administrator can reach.
use soa_repo.Base.{
  ℕ, ◌+◌, ◌-◌, ◌<◌, ◌≡◌, ◌⊎◌, ◌∙◌, refl, arith, true, false, ◌==◌, u64, Bool-cases, inl, inr,
  enosys, eintr,
}
use soa_repo.Kernel.{Kernel}
use soa_repo.State.{State, update, initial}
use soa_repo.Registry.Validity.{IsValid}
use soa_repo.Registry.Start.{initial-IsValid}
use soa_repo.Monitor.{core_setup, switch_off_monitor, epoch_handler}
use soa_repo.Monitor.Timer.{
  MonitorIsValid, core_setup-MonitorIsValid, epoch_timer_fires, epoch_timer_fires-MonitorIsValid,
  switch_off_monitor-MonitorIsValid,
}
use soa_repo.Stats.{Request}
use soa_repo.Wrapper.{
  Pc, outside, entered, looking, taking, testing, waiting, asleep, finishing, returned, calls,
  fails, advance, interrupt, wake,
}
use soa_repo.Wrapper.Alone.{saved_call-original}
use soa_repo.Wrapper.Threads.{
  System, Step, dispatches, runs, signals, expires, switches_off, administers, Run, start, later,
  loaded, wake_all,
}
use soa_repo.Wrapper.Threads.Validity.{
  rest_of-IsValid, advance-IsValid, interrupt-IsValid, epoch_timer_fires-IsValid,
  switch_off_monitor-IsValid, admin-IsValid,
}
use soa_repo.Wrapper.Threads.Waiting.{
  in_wait, is_asleep, blocked_among, blocked_among-update, in_wait-le, blocked_among-wake,
  is_asleep-wake, advance-counts, interrupt-counts, interrupt-MonitorIsValid, interrupt-IsClosed,
  interrupt-awake, blocked_among-outside, in_wait-away, advance-MonitorIsValid, IsClosed,
  advance-IsClosed, advance_asleep, admin-monitor,
}

module _ (original : ℕ → ℕ) where
  -- A pointer to the original system call of a request, or NULL.
  abbrev pub MayCall : Request → ℕ → Type 0
  MayCall r to_call = (to_call ≡ 0) ⊎ (to_call ≡ original r.sysnum)

  abbrev pub KnowsOriginal : Pc → Type 0
  KnowsOriginal (taking r to_call delay) = MayCall r to_call
  KnowsOriginal (testing r to_call delay) = MayCall r to_call
  KnowsOriginal (waiting r to_call delay start_time) = MayCall r to_call
  KnowsOriginal (asleep r to_call delay start_time) = MayCall r to_call
  KnowsOriginal (finishing r to_call delay) = MayCall r to_call
  KnowsOriginal (returned r (calls f)) = f ≡ original r.sysnum
  KnowsOriginal (returned r (fails e)) = (e ≡ enosys) ⊎ (e ≡ eintr)
  KnowsOriginal _ = Unit

  wake-KnowsOriginal : (p : Pc) → KnowsOriginal p → KnowsOriginal (wake p)
  unfolding wake
  wake-KnowsOriginal (asleep r c d t) k = k
  wake-KnowsOriginal p k = k

  module _ (K : Kernel) where
    interrupt-KnowsOriginal :
        (s : State K) (p : Pc) → KnowsOriginal p → KnowsOriginal (interrupt K s p).1
    unfolding interrupt
    interrupt-KnowsOriginal s (asleep r c d t) k = inr refl
    interrupt-KnowsOriginal s p k = k

    advance-KnowsOriginal :
        (now : ℕ) (s : State K) (p : Pc)
        → IsValid K original s
        → KnowsOriginal p
        → KnowsOriginal (advance K now s p).1
    unfolding advance
    advance-KnowsOriginal now s (looking r need) v k =
        ground (arith, saved_call-original K original s v r.sysnum)
    advance-KnowsOriginal now s outside v k = tt
    advance-KnowsOriginal now s (returned r o) v k = k
    advance-KnowsOriginal now s (asleep r c d t) v k = k
    advance-KnowsOriginal now s p v k = ground arith

    pub record Inv (n : ℕ) (s : System K) : Type 0 where
      pub valid : IsValid K original s.shared
      pub monitor : MonitorIsValid K s.shared
      pub counted : s.shared.blocked_thread ≡ u64 (blocked_among n s.pc)
      pub asleep_closed : (i : ℕ) → is_asleep (s.pc i) ≡ true → IsClosed K s.shared
      pub honest : (i : ℕ) → KnowsOriginal (s.pc i)

    -- What an access of thread `i` has to keep.
    put-Inv :
        (n i : ℕ) (s : System K) (t : State K) (p : Pc)
        → i < n
        → Inv n s
        → IsValid K original t
        → MonitorIsValid K t
        → ((m : ℕ)
            → s.shared.blocked_thread ≡ u64 (in_wait (s.pc i) + m)
            → t.blocked_thread ≡ u64 (in_wait p + m))
        → (IsClosed K s.shared → IsClosed K t)
        → (is_asleep p ≡ true → IsClosed K t)
        → KnowsOriginal p
        → Inv n (record { shared = t; pc = update s.pc i p })
    put-Inv n i s t p lt inv valid monitor counts closed sleeps knows = record {
      valid = valid;
      monitor = monitor;
      counted = ground (
        arith,
        inv.counted,
        blocked_among-update n s.pc i p lt,
        in_wait-le n s.pc i lt,
        counts (blocked_among n s.pc - in_wait (s.pc i)),
      );
      asleep_closed = λ j. elim (Bool-cases (i == j)) [
        | inl same ↦ rw same sleeps
        | inr other ↦ rw other (λ e. closed (inv.asleep_closed j e))
      ];
      honest = λ j. elim (Bool-cases (i == j)) [
        | inl same ↦ rw same knows
        | inr other ↦ rw other (inv.honest j)
      ];
    }

    -- What a step of nobody's thread has to keep, where it wakes the threads.
    wake-Inv :
        (n : ℕ) (s : System K) (t : State K)
        → Inv n s
        → IsValid K original t
        → MonitorIsValid K t
        → t.blocked_thread ≡ s.shared.blocked_thread
        → Inv n (record { shared = t; pc = wake_all K s.pc })
    wake-Inv n s t inv valid monitor same = record {
      valid = valid;
      monitor = monitor;
      counted = ground (arith, inv.counted, blocked_among-wake K n s.pc);
      asleep_closed = λ i e. ground (arith, is_asleep-wake (s.pc i));
      honest = λ i. wake-KnowsOriginal (s.pc i) (inv.honest i);
    }

    switch_off_blocked :
        (now : ℕ) (s : State K) → (switch_off_monitor K now s).0.blocked_thread ≡ s.blocked_thread
    unfolding switch_off_monitor
    switch_off_blocked now s = ground arith

    switch_off_again :
        (now : ℕ) (s : State K)
        → (s.is_monitor_active == 1) ≡ false
        → (switch_off_monitor K now s).0 ≡ s
    unfolding switch_off_monitor
    switch_off_again now s off = rw off

    Step-Inv : {n : ℕ} {s t : System K} → Inv n s → Step K n s t → Inv n t
    unfolding epoch_timer_fires epoch_handler
    Step-Inv {n} {s} inv (dispatches i r lt away patched) =
        put-Inv n i s s.shared (entered r) lt inv inv.valid inv.monitor
          (λ m h. ground (arith, in_wait-away (s.pc i) away)) (λ c. c) (λ e. cc) tt
    Step-Inv {n} {s} inv (runs i now lt) =
        put-Inv n i s _ _ lt inv (advance-IsValid K now s.shared (s.pc i) inv.valid)
          (advance-MonitorIsValid K now s.shared (s.pc i) inv.monitor)
          (λ m. advance-counts K now m s.shared (s.pc i)) (advance-IsClosed K now s.shared (s.pc i))
          (advance_asleep K now s.shared (s.pc i) inv.monitor (inv.asleep_closed i))
          (advance-KnowsOriginal now s.shared (s.pc i) inv.valid (inv.honest i))
    Step-Inv {n} {s} inv (signals i lt) =
        put-Inv n i s _ _ lt inv (interrupt-IsValid K s.shared (s.pc i) inv.valid)
          (interrupt-MonitorIsValid K s.shared (s.pc i) inv.monitor)
          (λ m. interrupt-counts K m s.shared (s.pc i)) (interrupt-IsClosed K s.shared (s.pc i))
          (λ e. cc (interrupt-awake K s.shared (s.pc i)))
          (interrupt-KnowsOriginal s.shared (s.pc i) (inv.honest i))
    Step-Inv {n} {s} inv (expires now due armed) =
        let on : (s.shared.is_monitor_active == 0) ≡ false = ground (arith, inv.monitor.armed) in
        rw on (
          wake-Inv n s _ inv (epoch_timer_fires-IsValid K now s.shared inv.valid)
            (epoch_timer_fires-MonitorIsValid K now s.shared inv.monitor) (ground arith))
    Step-Inv {n} {s} inv (switches_off now) = elim (Bool-cases (s.shared.is_monitor_active == 1)) [
      | inl on ↦ rw on (
          wake-Inv n s _ inv (switch_off_monitor-IsValid K now s.shared inv.valid)
            (switch_off_monitor-MonitorIsValid K now s.shared inv.monitor)
            (switch_off_blocked now s.shared))
      | inr off ↦ rw (off, switch_off_again now s.shared off) inv
    ]
    Step-Inv {n} {s} inv (administers a allowed) =
        let kept = admin-monitor K a s.shared inv.monitor in
        record {
          valid = admin-IsValid K a s.shared allowed inv.valid;
          monitor = kept.0;
          counted = kept.1 ∙ inv.counted;
          asleep_closed = λ i e. kept.2 (inv.asleep_closed i e);
          honest = inv.honest;
        }

    loaded_blocked : (now : ℕ) → (core_setup K now (initial K original)).blocked_thread ≡ 0
    unfolding core_setup initial
    loaded_blocked now = refl

    loaded-Inv : (n now : ℕ) → Inv n (loaded K original now)
    unfolding core_setup
    loaded-Inv n now = record {
      valid =
          rest_of-IsValid K (initial K original) (core_setup K now (initial K original)) refl
            (initial-IsValid K original);
      monitor = core_setup-MonitorIsValid K original now;
      counted = ground (arith, blocked_among-outside n, loaded_blocked now);
      asleep_closed = λ i e. cc;
      honest = λ i. tt;
    }

    pub Run-Inv : (n now : ℕ) {s : System K} → Run K n (loaded K original now) s → Inv n s
    Run-Inv n now start = loaded-Inv n now
    Run-Inv n now (later run st) = Step-Inv (Run-Inv n now run) st
