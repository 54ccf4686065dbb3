-- ===== src/Wrapper/Threads/Progress.antt =====
-- Runs that bring a thread of the wrapper to the end of its call.
use soa_repo.Base.{
  ℕ, ◌+◌, ◌<◌, ◌≡◌, refl, arith, Bool, not, pos, negsuc, true, false, ◌==◌, Bool-cases, inl, inr,
  ==_refl, u64,
}
use soa_repo.Kernel.{Kernel}
use soa_repo.Registry.Uid.{check_uid}
use soa_repo.Registry.Prog.{check_progname}
use soa_repo.Monitor.{sub64}
use soa_repo.Stats.{Request}
use soa_repo.Wrapper.{
  Pc, outside, entered, checking, naming, looking, taking, testing, waiting, asleep, finishing,
  returned, calls, fails, outcome_of, advance, wake, is_positive, may_go, saved_call,
}
use soa_repo.Wrapper.Threads.{System, Step, runs, expires, Run, start, later, loaded, put, is_away}
use soa_repo.Wrapper.Threads.Throttle.{after_expiry}
use soa_repo.Wrapper.Threads.Safety.{asleep_awaits_timer, expiry_releases}
use soa_repo.Wrapper.Threads.Invariant.{Run-Inv}

-- Through the wrapper, and not by a signal.
abbrev pub is_through : Pc → Bool
is_through (returned r (calls f)) = true
is_through (returned r (fails (pos e))) = true
is_through (returned r (fails (negsuc e))) = not (e == 3)
is_through p = false

outcome_of-is_through :
    (r : Request) (to_call : ℕ) → is_through (returned r (outcome_of to_call)) ≡ true
outcome_of-is_through r to_call = elim (Bool-cases (to_call == 0)) [
  | inl null ↦ rw null refl
  | inr real ↦ rw real refl
]

module _ (K : Kernel) (n : ℕ) where
  first_step : {s t u : System K} → Step K n s t → Run K n t u → Run K n s u
  first_step step start = later start step
  first_step step (later run last) = later (first_step step run) last

  -- A run from `s` that ends with thread `i` through the wrapper.
  abbrev pub CanFinish : ℕ → System K → Type 0
  CanFinish i s = (u : System K) × Run K n s u × (is_through (u.pc i) ≡ true)

  after : {s t : System K} (i : ℕ) → Step K n s t → CanFinish i t → CanFinish i s
  after i step (u, run, ended) = (u, first_step step run, ended)

  -- The thread's own next access.
  abbrev moved : ℕ → ℕ → System K → System K
  moved i now s = put K s i (advance K now s.shared (s.pc i))

  moved_pc : (i now : ℕ) (s : System K) → (moved i now s).pc i ≡ (advance K now s.shared (s.pc i)).1
  moved_pc i now s = rw (==_refl i) refl

  module _ (i now : ℕ) (lt : i < n) where
    goes : (s : System K) → CanFinish i (moved i now s) → CanFinish i s
    goes s = after i (runs i now lt)

    from_finishing :
        (s : System K) (r : Request) (c d : ℕ) → s.pc i ≡ finishing r c d → CanFinish i s
    unfolding advance
    from_finishing s r c d e =
        goes s (moved i now s, start, rw (moved_pc i now s, e, advance) (outcome_of-is_through r c))

    from_taking_some :
        (s : System K) (r : Request) (c d : ℕ)
        → s.pc i ≡ taking r c d
        → is_positive s.shared.curr_syscalls ≡ true
        → CanFinish i s
    unfolding advance
    from_taking_some s r c d e some_left =
        goes s
          (from_finishing (moved i now s) r c d (rw (moved_pc i now s, e, advance, some_left) refl))

    from_waiting_some :
        (s : System K) (r : Request) (c d t : ℕ)
        → s.pc i ≡ waiting r c d t
        → is_positive s.shared.curr_syscalls ≡ true
        → CanFinish i s
    unfolding advance
    from_waiting_some s r c d t e some_left =
        let opened : may_go K s.shared ≡ true = ground arith in
        goes s (
          from_taking_some (moved i now s) r c (u64 (d + sub64 now t))
            (rw (moved_pc i now s, e, advance, opened) refl) (rw (e, advance, opened) some_left))

    module _ (original : ℕ → ℕ) (boot : ℕ) where
      -- A state that the loaded module can reach.
      abbrev IsReached : System K → Type 0
      IsReached s = Run K n (loaded K original boot) s

      from_asleep :
          (s : System K) (r : Request) (c d t : ℕ)
          → IsReached s
          → s.pc i ≡ asleep r c d t
          → CanFinish i s
      unfolding advance wake
      from_asleep s r c d t reached e =
          let (on, none_left, (due, armed)) =
            asleep_awaits_timer K original n boot s reached i (rw e refl) in
          let (some_given, given, woken) =
            expiry_releases K original n boot s reached i now t d c r e in
          let limited = (Run-Inv original K n boot reached).monitor.limited in
          let positive : is_positive (after_expiry K now s).shared.curr_syscalls ≡ true =
            ground arith in
          let up : (after_expiry K now s).pc i ≡ waiting r c d t = rw (on, e) refl in
          after i (expires now due armed)
            (from_waiting_some (after_expiry K now s) r c d t up positive)

      from_waiting_closed :
          (s : System K) (r : Request) (c d t : ℕ)
          → IsReached s
          → s.pc i ≡ waiting r c d t
          → may_go K s.shared ≡ false
          → CanFinish i s
      unfolding advance
      from_waiting_closed s r c d t reached e closed = goes s (
          from_asleep (moved i now s) r c d t (later reached (runs i now lt))
            (rw (moved_pc i now s, e, advance, closed) refl))

      from_testing_closed :
          (s : System K) (r : Request) (c d : ℕ)
          → IsReached s
          → s.pc i ≡ testing r c d
          → is_positive s.shared.curr_syscalls ≡ false
          → CanFinish i s
      unfolding advance
      from_testing_closed s r c d reached e none_left =
          elim (Bool-cases (s.shared.is_monitor_active == 0)) [
            | inl off ↦
                goes s (
                  from_finishing (moved i now s) r c d
                    (rw (moved_pc i now s, e, advance, off) refl))
            | inr on ↦ goes s (
                from_waiting_closed (moved i now s) r c d now (later reached (runs i now lt))
                  (rw (moved_pc i now s, e, advance, on) refl)
                  (rw (e, advance, on, none_left, on) refl))
          ]

      from_taking :
          (s : System K) (r : Request) (c d : ℕ)
          → IsReached s
          → s.pc i ≡ taking r c d
          → CanFinish i s
      unfolding advance
      from_taking s r c d reached e = elim (Bool-cases (is_positive s.shared.curr_syscalls)) [
        | inl some_left ↦ from_taking_some s r c d e some_left
        | inr none_left ↦ goes s (
            from_testing_closed (moved i now s) r c d (later reached (runs i now lt))
              (rw (moved_pc i now s, e, advance, none_left) refl)
              (rw (e, advance, none_left, none_left) refl))
      ]

      from_waiting :
          (s : System K) (r : Request) (c d t : ℕ)
          → IsReached s
          → s.pc i ≡ waiting r c d t
          → CanFinish i s
      unfolding advance
      from_waiting s r c d t reached e = elim (Bool-cases (may_go K s.shared)) [
        | inl opened ↦ goes s (
            from_taking (moved i now s) r c (u64 (d + sub64 now t)) (later reached (runs i now lt))
              (rw (moved_pc i now s, e, advance, opened) refl))
        | inr closed ↦ from_waiting_closed s r c d t reached e closed
      ]

      from_testing :
          (s : System K) (r : Request) (c d : ℕ)
          → IsReached s
          → s.pc i ≡ testing r c d
          → CanFinish i s
      unfolding advance
      from_testing s r c d reached e = elim (Bool-cases (s.shared.is_monitor_active == 0)) [
        | inl off ↦
            goes s
              (from_finishing (moved i now s) r c d (rw (moved_pc i now s, e, advance, off) refl))
        | inr on ↦ goes s (
            from_waiting (moved i now s) r c d now (later reached (runs i now lt))
              (rw (moved_pc i now s, e, advance, on) refl))
      ]

      from_looking :
          (s : System K) (r : Request) (m : ℕ) → IsReached s → s.pc i ≡ looking r m → CanFinish i s
      unfolding advance
      from_looking s r m reached e = elim (Bool-cases (m == 0)) [
        | inl free ↦ goes s (
            from_finishing (moved i now s) r (saved_call K r.sysnum s.shared) 0
              (rw (moved_pc i now s, e, advance, free) refl))
        | inr monitored ↦ goes s (
            from_taking (moved i now s) r (saved_call K r.sysnum s.shared) 0
              (later reached (runs i now lt)) (rw (moved_pc i now s, e, advance, monitored) refl))
      ]

      from_naming : (s : System K) (r : Request) → IsReached s → s.pc i ≡ naming r → CanFinish i s
      unfolding advance
      from_naming s r reached e = goes s (
          from_looking (moved i now s) r (check_progname K r.comm s.shared)
            (later reached (runs i now lt)) (rw (moved_pc i now s, e, advance) refl))

      from_checking :
          (s : System K) (r : Request) → IsReached s → s.pc i ≡ checking r → CanFinish i s
      unfolding advance
      from_checking s r reached e = elim (Bool-cases (check_uid K r.euid s.shared == 0)) [
        | inl unknown ↦ goes s (
            from_naming (moved i now s) r (later reached (runs i now lt))
              (rw (moved_pc i now s, e, advance, unknown) refl))
        | inr known ↦ goes s (
            from_looking (moved i now s) r 1 (later reached (runs i now lt))
              (rw (moved_pc i now s, e, advance, known) refl))
      ]

      from_entered : (s : System K) (r : Request) → IsReached s → s.pc i ≡ entered r → CanFinish i s
      unfolding advance
      from_entered s r reached e = elim (Bool-cases (s.shared.is_monitor_active == 0)) [
        | inl off ↦
            goes s
              (from_finishing (moved i now s) r 0 0 (rw (moved_pc i now s, e, advance, off) refl))
        | inr on ↦ goes s (
            from_checking (moved i now s) r (later reached (runs i now lt))
              (rw (moved_pc i now s, e, advance, on) refl))
      ]

      from_anywhere :
          (s : System K) (p : Pc) → IsReached s → s.pc i ≡ p → is_away p ≡ false → CanFinish i s
      from_anywhere s outside reached e inside = cc
      from_anywhere s (entered r) reached e inside = from_entered s r reached e
      from_anywhere s (checking r) reached e inside = from_checking s r reached e
      from_anywhere s (naming r) reached e inside = from_naming s r reached e
      from_anywhere s (looking r m) reached e inside = from_looking s r m reached e
      from_anywhere s (taking r c d) reached e inside = from_taking s r c d reached e
      from_anywhere s (testing r c d) reached e inside = from_testing s r c d reached e
      from_anywhere s (waiting r c d t) reached e inside = from_waiting s r c d t reached e
      from_anywhere s (asleep r c d t) reached e inside = from_asleep s r c d t reached e
      from_anywhere s (finishing r c d) reached e inside = from_finishing s r c d e
      from_anywhere s (returned r o) reached e inside = cc

  -- No deadlock: from every reachable state there is a run in which a given thread that is in the
  -- wrapper gets through it, to a call or to -ENOSYS, and not by a signal.
  pub thread-CanFinish :
      (original : ℕ → ℕ) (boot i now : ℕ) (s : System K)
      → i < n
      → Run K n (loaded K original boot) s
      → is_away (s.pc i) ≡ false
      → CanFinish i s
  thread-CanFinish original boot i now s lt reached inside =
      from_anywhere i now lt original boot s (s.pc i) reached refl inside
