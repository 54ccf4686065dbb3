-- ===== src/Monitor/Switching/Armed.antt =====
-- The timer, its handler and the flag, while switches come one after another.
use mathlib.Core.Path.{subst}
use soa_repo.Base.{
  ℕ, ◌+◌, ◌≤◌, ◌≡◌, refl, arith, Bool, true, false, ◌==◌, ==_refl, Bool-cases, inl, inr, eq_of_==,
  none,
}
use soa_repo.Kernel.{Kernel}
use soa_repo.State.{State, initial, update}
use soa_repo.Monitor.{core_setup, set_max_syscall, get_thread_stats}
use soa_repo.Monitor.Timer.{is_armed}
use soa_repo.Stats.{check_and_set_statistic}
use soa_repo.Wrapper.{Pc, asleep, advance, interrupt}
use soa_repo.Registry.Uid.{register_user_id, deregister_user_id}
use soa_repo.Registry.Prog.{register_prog_name, deregister_prog_name}
use soa_repo.Registry.Syscall.{register_system_call, deregister_system_call}
use soa_repo.Wrapper.Threads.{Admin, adds_uid, admin}
use soa_repo.Monitor.Switching.{
  Switch, outside, before_setup, before_mod_timer, before_wake, before_times, before_delete,
  Handler, resting, testing, working, waking, rearming, System, counted, switches_on, sets_start,
  arms, switches_off, wakes_all, sets_elapsed, deletes, administers, is_switch, fires, finds_off,
  finds_on, counts, wakes, rearms, enters, runs, signals, Reach, here, later, NobodySwitches,
  IsSerial,
}

abbrev pub is_running : Handler → ℕ
is_running resting = 0
is_running testing = 1
is_running working = 1
is_running waking = 1
is_running rearming = 1

-- Where the administrator who switches stands, with the flag, and how often the timer is armed or under way.
abbrev IsInStep : Switch → ℕ → ℕ → Type 0
IsInStep outside active n = (n ≡ active) × (active ≤ 1)
IsInStep before_setup active n = (n ≡ 0) × (active ≡ 1)
IsInStep before_mod_timer active n = (n ≡ 0) × (active ≡ 1)
IsInStep before_wake active n = active ≡ 0
IsInStep before_times active n = active ≡ 0
IsInStep before_delete active n = active ≡ 0

rearms-IsInStep :
    (place : Switch) (active n : ℕ) → IsInStep place active (n + 1) → IsInStep place active 1
rearms-IsInStep outside active n h = omega arith
rearms-IsInStep before_setup active n h = absurd (omega arith)
rearms-IsInStep before_mod_timer active n h = absurd (omega arith)
rearms-IsInStep place active n h = h

finds_off-IsInStep : (place : Switch) (n : ℕ) → IsInStep place 0 (n + 1) → IsInStep place 0 (n + 0)
finds_off-IsInStep outside n h = absurd (omega arith)
finds_off-IsInStep before_setup n h = absurd (omega arith)
finds_off-IsInStep before_mod_timer n h = absurd (omega arith)
finds_off-IsInStep place n h = h

abbrev is_outside : Switch → Bool
is_outside outside = true
is_outside place = false

module _ (K : Kernel) where
  abbrev timers : System K → ℕ
  timers s = is_armed s.shared.epoch_timer + is_running s.handler

  -- One administrator at most is in the middle of a switch.
  record Inv (s : System K) : Type 0 where
    owner : ℕ
    others : (k : ℕ) → (owner == k) ≡ false → s.switches k ≡ outside
    in_step : IsInStep (s.switches owner) s.shared.is_monitor_active (timers s)

  -- Who is in the middle of a switch is the one that may be.
  owns :
      (s : System K) (v : Inv s) (j : ℕ) (place : Switch)
      → s.switches j ≡ place
      → is_outside place ≡ false
      → v.owner ≡ j
  owns s v j place stands busy = elim (Bool-cases (v.owner == j)) [
    | inl same ↦ eq_of_== v.owner j same
    | inr differs ↦ let out = v.others j differs in absurd (cc)
  ]

  -- A step of that administrator.
  moves-Inv :
      (s : System K) (v : Inv s) (j : ℕ) (place : Switch) (t : State K) (handler : Handler)
      (pc : ℕ → Pc)
      → ((k : ℕ) → (j == k) ≡ false → s.switches k ≡ outside)
      → IsInStep place t.is_monitor_active (is_armed t.epoch_timer + is_running handler)
      → Inv
          (record { shared = t; switches = update s.switches j place; handler = handler; pc = pc })
  moves-Inv s v j place t handler pc others in_step = record {
    owner = j;
    others = λ k differs. rw differs (others k differs);
    in_step = rw (==_refl j) in_step;
  }

  at_place :
      (s : System K) (v : Inv s) (j : ℕ) (place : Switch)
      → s.switches j ≡ place
      → is_outside place ≡ false
      → ((k : ℕ) → (j == k) ≡ false → s.switches k ≡ outside)
        × IsInStep place s.shared.is_monitor_active (timers s)
  at_place s v j place stands busy =
      let own = owns s v j place stands busy in
      (
        λ k differs. v.others k (rw own differs),
        rw stands at (
            subst (λ k. IsInStep (s.switches k) s.shared.is_monitor_active (timers s)) own
              v.in_step),
      )

  -- Nobody, or the timer's handler, moves.
  stays-Inv :
      (s : System K) (v : Inv s) (t : State K) (handler : Handler) (pc : ℕ → Pc)
      → IsInStep
          (s.switches v.owner)
          t.is_monitor_active
          (is_armed t.epoch_timer + is_running handler)
      → Inv (record { shared = t; switches = s.switches; handler = handler; pc = pc })
  stays-Inv s v t handler pc in_step = record {
    owner = v.owner;
    others = v.others;
    in_step = in_step;
  }

  -- The threads and the limit leave the flag and the timer alone.
  abbrev pub SameTimer : State K → State K → Type 0
  SameTimer s t = (t.is_monitor_active ≡ s.is_monitor_active) × (t.epoch_timer ≡ s.epoch_timer)

  advance-SameTimer : (now : ℕ) (s : State K) (p : Pc) → SameTimer s (advance K now s p).0
  unfolding advance check_and_set_statistic
  advance-SameTimer now s p = ground arith

  interrupt-SameTimer : (s : State K) (p : Pc) → SameTimer s (interrupt K s p).0
  unfolding interrupt
  interrupt-SameTimer s (asleep r c d t) = (refl, refl)
  interrupt-SameTimer s p = (refl, refl)

  pub admin-SameTimer : (a : Admin) (s : State K) → is_switch a ≡ false → SameTimer s (admin K a s)
  unfolding admin get_thread_stats register_user_id deregister_user_id register_prog_name
      deregister_prog_name register_system_call deregister_system_call set_max_syscall
  admin-SameTimer (adds_uid none u) s other = (refl, refl)
  admin-SameTimer (Admin.switches_on now) s other = cc
  admin-SameTimer a s other = ground arith

  same-Inv :
      (s : System K) (v : Inv s) (t : State K) (pc : ℕ → Pc)
      → SameTimer s.shared t
      → Inv (record { shared = t; switches = s.switches; handler = s.handler; pc = pc })
  same-Inv s v t pc (flag, timer) = stays-Inv s v t s.handler pc (rw (flag, timer) v.in_step)

  -- With nobody in the middle of a switch.
  free_step :
      (s : System K) (v : Inv s)
      → NobodySwitches K s
      → (timers s ≡ s.shared.is_monitor_active) × (s.shared.is_monitor_active ≤ 1)
  free_step s v nobody = rw (nobody v.owner) at v.in_step

  Reach-Inv :
      {table : ℕ → ℕ} {boot : ℕ} {s : System K} (path : Reach K table boot s)
      → IsSerial K path
      → Inv s
  unfolding IsSerial core_setup initial counted
  Reach-Inv here serial = record {
    owner = 0;
    others = λ k differs. refl;
    in_step = (refl, omega arith);
  }
  Reach-Inv (later {s = s} path (switches_on j stands off)) (serial, nobody) =
      let v = Reach-Inv path serial in
      let (sum, bound) = free_step s v nobody in
      moves-Inv s v j before_setup _ s.handler s.pc (λ k differs. nobody k)
        (omega (arith, off, sum), refl)
  Reach-Inv (later {s = s} path (switches_off j stands on)) (serial, nobody) =
      let v = Reach-Inv path serial in
      moves-Inv s v j before_wake _ s.handler s.pc (λ k differs. nobody k) refl
  Reach-Inv (later {s = s} path (sets_start j now stands)) serial =
      let v = Reach-Inv path serial in
      let (others, in_step) = at_place s v j before_setup stands refl in
      moves-Inv s v j before_mod_timer _ s.handler s.pc others in_step
  Reach-Inv (later {s = s} path (arms j now stands)) serial =
      let v = Reach-Inv path serial in
      let (others, in_step) = at_place s v j before_mod_timer stands refl in
      moves-Inv s v j outside _ s.handler s.pc others
        (omega (arith, in_step), omega (arith, in_step))
  Reach-Inv (later {s = s} path (wakes_all j stands)) serial =
      let v = Reach-Inv path serial in
      let (others, in_step) = at_place s v j before_wake stands refl in
      moves-Inv s v j before_times _ s.handler _ others in_step
  Reach-Inv (later {s = s} path (sets_elapsed j now stands)) serial =
      let v = Reach-Inv path serial in
      let (others, in_step) = at_place s v j before_times stands refl in
      moves-Inv s v j before_delete _ s.handler s.pc others in_step
  Reach-Inv (later {s = s} path (deletes j stands rests)) serial =
      let v = Reach-Inv path serial in
      let (others, in_step) = at_place s v j before_delete stands refl in
      moves-Inv s v j outside _ s.handler s.pc others
        (rw rests (omega (arith, in_step), omega (arith, in_step)))
  Reach-Inv (later {s = s} path (administers a other allowed)) serial =
      same-Inv s (Reach-Inv path serial) _ s.pc (admin-SameTimer a s.shared other)
  Reach-Inv (later {s = s} path (fires due armed rests)) serial =
      let v = Reach-Inv path serial in stays-Inv s v _ testing s.pc (rw (armed, rests) at v.in_step)
  Reach-Inv (later {s = s} path (finds_off tests off)) serial =
      let v = Reach-Inv path serial in
      stays-Inv s v _ resting s.pc
        (rw off (finds_off-IsInStep (s.switches v.owner) _ (rw (tests, off) at v.in_step)))
  Reach-Inv (later {s = s} path (finds_on tests on)) serial =
      let v = Reach-Inv path serial in stays-Inv s v _ working s.pc (rw tests at v.in_step)
  Reach-Inv (later {s = s} path (counts works)) serial =
      let v = Reach-Inv path serial in stays-Inv s v _ waking s.pc (rw works at v.in_step)
  Reach-Inv (later {s = s} path (wakes at_wake)) serial =
      let v = Reach-Inv path serial in stays-Inv s v _ rearming _ (rw at_wake at v.in_step)
  Reach-Inv (later {s = s} path (rearms now at_end)) serial =
      let v = Reach-Inv path serial in
      stays-Inv s v _ resting s.pc
        (rearms-IsInStep (s.switches v.owner) _ _ (rw at_end at v.in_step))
  Reach-Inv (later {s = s} path (enters i r away)) serial =
      same-Inv s (Reach-Inv path serial) _ _ (refl, refl)
  Reach-Inv (later {s = s} path (runs i now)) serial =
      same-Inv s (Reach-Inv path serial) _ _ (advance-SameTimer now s.shared (s.pc i))
  Reach-Inv (later {s = s} path (signals i)) serial =
      same-Inv s (Reach-Inv path serial) _ _ (interrupt-SameTimer s.shared (s.pc i))

  -- Where each switch begins when no other is under way: in every reachable state in which nobody is
  -- in the middle of a switch, the timer is armed or its handler is under way, and not both, just
  -- while the monitor is on: also where a switch came while the handler was under way.
  pub timer_in_step :
      (table : ℕ → ℕ) (boot : ℕ) (s : System K)
      → (path : Reach K table boot s) → IsSerial K path
      → NobodySwitches K s
      → (is_armed s.shared.epoch_timer + is_running s.handler ≡ s.shared.is_monitor_active)
        × (s.shared.is_monitor_active ≤ 1)
  timer_in_step table boot s path serial nobody = free_step s (Reach-Inv path serial) nobody
