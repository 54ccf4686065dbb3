-- ===== src/Monitor/Switching/Sleepers.antt =====
-- The threads that sleep in the wrapper, while switches and the handler are under way.
use soa_repo.Base.{
  ℕ, ◌≡◌, ◌⊎◌, refl, arith, Bool, true, false, Option, none, some, ◌==◌, ==_refl, Bool-cases, inl,
  inr, eq_of_==, sym, ◌∙◌,
}
use soa_repo.Kernel.{Kernel}
use soa_repo.State.{State, update}
use soa_repo.Monitor.Timer.{is_armed}
use soa_repo.Stats.{check_and_set_statistic}
use soa_repo.Wrapper.{Pc, asleep, entered, advance, interrupt, may_go, is_positive}
use soa_repo.Wrapper.Threads.Waiting.{is_asleep, is_asleep-wake, interrupt-awake}
use soa_repo.Monitor.Switching.{
  Switch, outside, before_setup, before_mod_timer, before_wake, before_times, before_delete,
  Handler, resting, testing, working, waking, System, counted, Step, switches_on, sets_start, arms,
  switches_off, wakes_all, sets_elapsed, deletes, administers, is_switch, fires, finds_off,
  finds_on, counts, wakes, rearms, enters, runs, signals, Reach, here, later, NobodySwitches,
  IsSerial, put_thread,
}
use soa_repo.Monitor.Switching.Armed.{is_running, timer_in_step, admin-SameTimer}
use soa_repo.Wrapper.Threads.{Admin, admin}
use soa_repo.Wrapper.Threads.Throttle.{admin-token}

-- Is the administrator before its wake_up_all, and the handler before its wake-up?
abbrev is_before_wake : Switch → Bool
is_before_wake before_wake = true
is_before_wake place = false

abbrev is_waking : Handler → Bool
is_waking waking = true
is_waking h = false

before_wake_of : (place : Switch) → is_before_wake place ≡ true → place ≡ before_wake
before_wake_of before_wake h = refl
before_wake_of place h = cc

module _ (K : Kernel) where
  -- A wake-up is still to come: of the handler, or of an administrator who switches off.
  abbrev pub WakeComes : Handler → (ℕ → Switch) → Type 0
  WakeComes handler switches = (handler ≡ waking) ⊎ ((j : ℕ) × (switches j ≡ before_wake))

  abbrev Inv : System K → Type 0
  Inv s =
      (i : ℕ)
      → is_asleep (s.pc i) ≡ true
      → may_go K s.shared ≡ true
      → WakeComes s.handler s.switches

  -- An administrator who is not before the wake-up moves, and nobody may go who might not before.
  put-WakeComes :
      (s : System K) (j : ℕ) (old place : Switch)
      → s.switches j ≡ old
      → is_before_wake old ≡ false
      → WakeComes s.handler s.switches
      → WakeComes s.handler (update s.switches j place)
  put-WakeComes s j old place stands busy (inl h) = inl h
  put-WakeComes s j old place stands busy (inr (k, at)) = inr (
    k,
    elim (Bool-cases (j == k)) [
      | inl same ↦ let one = eq_of_== j k same in absurd (cc)
      | inr differs ↦ rw differs at
    ],
  )

  -- The handler moves, and was not before its wake-up.
  moved-WakeComes :
      (s : System K) (handler : Handler)
      → is_waking s.handler ≡ false
      → WakeComes s.handler s.switches
      → WakeComes handler s.switches
  moved-WakeComes s handler busy (inl h) = cc
  moved-WakeComes s handler busy (inr at) = inr at

  advance_go :
      (now : ℕ) (s : State K) (p : Pc) → may_go K (advance K now s p).0 ≡ true → may_go K s ≡ true
  unfolding advance check_and_set_statistic
  advance_go now s p go = ground arith

  advance_sleeps :
      (now : ℕ) (s : State K) (p : Pc)
      → is_asleep (advance K now s p).1 ≡ true
      → may_go K (advance K now s p).0 ≡ true
      → is_asleep p ≡ true
  unfolding advance
  advance_sleeps now s p sleeps go = ground arith

  interrupt_go : (s : State K) (p : Pc) → may_go K (interrupt K s p).0 ≡ may_go K s
  unfolding interrupt
  interrupt_go s (asleep r c d t) = refl
  interrupt_go s p = refl

  admin_go : (a : Admin) (s : State K) → is_switch a ≡ false → may_go K (admin K a s) ≡ may_go K s
  admin_go a s other =
      let (flag, timer) = admin-SameTimer K a s other in
      let tokens = admin-token K a s in rw (flag, tokens) refl

  -- An access of thread `i`.
  thread-Inv :
      (s : System K) (i : ℕ) (t : State K) (p : Pc)
      → Inv s
      → (may_go K t ≡ true → may_go K s.shared ≡ true)
      → (is_asleep p ≡ true → may_go K t ≡ true → is_asleep (s.pc i) ≡ true)
      → Inv (put_thread K i (t, p) s)
  thread-Inv s i t p v go sleeps k sleep may = elim (Bool-cases (i == k)) [
    | inl same ↦ v i (sleeps (rw same at sleep) may) (go may)
    | inr differs ↦ v k (rw differs at sleep) (go may)
  ]

  Step-Inv : {s t : System K} → Step K s t → Inv s → Inv t
  unfolding counted
  Step-Inv {s} (switches_on j stands off) v i sleep go =
      put-WakeComes s j outside before_setup stands refl (v i sleep (rw off refl))
  Step-Inv {s} (sets_start j now stands) v i sleep go =
      put-WakeComes s j before_setup before_mod_timer stands refl (v i sleep go)
  Step-Inv {s} (arms j now stands) v i sleep go =
      put-WakeComes s j before_mod_timer outside stands refl (v i sleep go)
  Step-Inv {s} (switches_off j stands on) v i sleep go = inr (j, rw (==_refl j) refl)
  Step-Inv {s} (wakes_all j stands) v i sleep go =
      let awake = is_asleep-wake (s.pc i) in absurd (cc)
  Step-Inv {s} (sets_elapsed j now stands) v i sleep go =
      put-WakeComes s j before_times before_delete stands refl (v i sleep go)
  Step-Inv {s} (deletes j stands rests) v i sleep go =
      put-WakeComes s j before_delete outside stands refl (v i sleep go)
  Step-Inv {s} (administers a other allowed) v i sleep go =
      v i sleep (sym (admin_go a s.shared other) ∙ go)
  Step-Inv {s} (fires due armed rests) v i sleep go =
      moved-WakeComes s testing (rw rests refl) (v i sleep go)
  Step-Inv {s} (finds_off tests off) v i sleep go =
      moved-WakeComes s resting (rw tests refl) (v i sleep go)
  Step-Inv {s} (finds_on tests on) v i sleep go =
      moved-WakeComes s working (rw tests refl) (v i sleep go)
  Step-Inv {s} (counts works) v i sleep go = inl refl
  Step-Inv {s} (wakes at_wake) v i sleep go = let awake = is_asleep-wake (s.pc i) in absurd (cc)
  Step-Inv {s} (rearms now at_end) v i sleep go =
      moved-WakeComes s resting (rw at_end refl) (v i sleep go)
  Step-Inv {s} (enters i r away) v k sleep go =
      thread-Inv s i s.shared (entered r) v (λ h. h) (λ h h'. cc) k sleep go
  Step-Inv {s} (runs i now) v k sleep go =
      thread-Inv s i (advance K now s.shared (s.pc i)).0 (advance K now s.shared (s.pc i)).1 v
        (advance_go now s.shared (s.pc i)) (advance_sleeps now s.shared (s.pc i)) k sleep go
  Step-Inv {s} (signals i) v k sleep go =
      thread-Inv s i (interrupt K s.shared (s.pc i)).0 (interrupt K s.shared (s.pc i)).1 v
        (λ h. sym (interrupt_go s.shared (s.pc i)) ∙ h)
        (λ h h'. let awake = interrupt-awake K s.shared (s.pc i) in absurd (cc)) k sleep go

  Reach-Inv : {table : ℕ → ℕ} {boot : ℕ} {s : System K} → Reach K table boot s → Inv s
  Reach-Inv here i sleep go = cc
  Reach-Inv (later path step) i sleep go = Step-Inv step (Reach-Inv path) i sleep go

  -- No lost wake-up: in every reachable state, with any number of switches under way at once, where a
  -- thread sleeps in the wrapper and its condition holds, since the monitor is off or there is a token,
  -- the handler or an administrator who switches off has its wake-up still to come.
  pub asleep_awaits_wake :
      (table : ℕ → ℕ) (boot i : ℕ) (s : System K)
      → Reach K table boot s
      → is_asleep (s.pc i) ≡ true
      → may_go K s.shared ≡ true
      → WakeComes s.handler s.switches
  asleep_awaits_wake table boot i s path sleep go = Reach-Inv path i sleep go

  due_of : (timer : Option ℕ) → is_armed timer ≡ 1 → (due : ℕ) × (timer ≡ some due)
  due_of none h = cc
  due_of (some due) h = (due, refl)

  none-WakeComes :
      (s : System K) → NobodySwitches K s → s.handler ≡ resting → WakeComes s.handler s.switches → ⊥
  none-WakeComes s nobody rests (inl h) = cc
  none-WakeComes s nobody rests (inr (j, at)) = let out = nobody j in cc

  -- Where each switch begins when no other is under way: in every reachable state with no switch and no
  -- handler under way in which a thread sleeps in the wrapper, the monitor is on, no token is left, and
  -- the timer, which will give new ones, is armed.
  pub asleep_awaits_expiry :
      (table : ℕ → ℕ) (boot i : ℕ) (s : System K)
      → (path : Reach K table boot s) → IsSerial K path
      → NobodySwitches K s
      → s.handler ≡ resting
      → is_asleep (s.pc i) ≡ true
      → (s.shared.is_monitor_active ≡ 1)
        × (is_positive s.shared.curr_syscalls ≡ false)
        × ((due : ℕ) × (s.shared.epoch_timer ≡ some due))
  asleep_awaits_expiry table boot i s path serial nobody rests sleep =
      let (sum, bound) = timer_in_step K table boot s path serial nobody in
      elim (Bool-cases (may_go K s.shared)) [
        | inl go ↦ absurd (none-WakeComes s nobody rests (Reach-Inv path i sleep go))
        | inr stays ↦
            let on : s.shared.is_monitor_active ≡ 1 = ground arith in
            let idle : is_running s.handler ≡ 0 = rw rests refl in
            (on, ground arith, due_of s.shared.epoch_timer (omega (arith, sum, on, idle)))
      ]
