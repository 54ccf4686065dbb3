-- ===== src/Wrapper/Threads.antt =====
-- The module at work: threads in the wrapper, the epoch timer and the administrator's calls, interleaved
-- in any order. A call of the administrator is one step.
pub mod Validity
pub mod Waiting
pub mod Invariant
pub mod Safety
pub mod Throttle
pub mod Rate
pub mod Progress
pub mod Release
use soa_repo.Base.{
  ℕ, ◌<◌, ◌≡◌, ◌==◌, if◌then◌else◌, List, length, ◌≤◌, Option, none, some, count, ◌∷◌, int_of, Bool,
  true, false,
}
use soa_repo.Kernel.{Kernel}
use soa_repo.State.{State, update, is, initial}
use soa_repo.Registry.Validity.{IsFresh}
use soa_repo.Registry.Uid.{register_user_id, deregister_user_id}
use soa_repo.Registry.Prog.{register_prog_name, deregister_prog_name}
use soa_repo.Registry.Syscall.{register_system_call, deregister_system_call}
use soa_repo.Monitor.{
  get_thread_stats, core_setup, switch_on_monitor, switch_off_monitor, set_max_syscall,
}
use soa_repo.Monitor.Timer.{epoch_timer_fires}
use soa_repo.Stats.{Request}
use soa_repo.Wrapper.{Pc, outside, entered, returned, asleep, advance, interrupt, wake}

pub record System (K : Kernel) : Type 0 where
  pub shared : State K
  pub pc : ℕ → Pc

-- The calls that the administrator makes, each with the results of its `kmalloc`, and the one by which
-- anybody takes a block.
pub data Admin : Type 0 where
  adds_uid : Option ℕ → ℕ → Admin
  drops_uid : ℕ → Admin
  adds_prog : Option ℕ → List ℕ → Admin
  drops_prog : List ℕ → Admin
  adds_syscall : Option ℕ → Option ℕ → List ℕ → ℕ → Admin
  drops_syscall : ℕ → Admin
  sets_max : ℕ → Admin
  switches_on : ℕ → Admin
  reads_stats : Option ℕ → ℕ → ℕ → Admin

-- A thread that is not in the wrapper.
abbrev pub is_away : Pc → Bool
is_away outside = true
is_away (returned r outcome) = true
is_away pc = false

module _ (K : Kernel) where
  unfoldable pub admin : Admin → State K → State K
  admin (adds_uid mem user_id) s = (register_user_id K mem user_id s).0
  admin (drops_uid user_id) s = (deregister_user_id K user_id s).0
  admin (adds_prog mem name) s = (register_prog_name K mem name s).0
  admin (drops_prog name) s = (deregister_prog_name K name s).0
  admin (adds_syscall stats new_hack junk nr) s =
      (register_system_call K stats new_hack junk nr s).0
  admin (drops_syscall nr) s = (deregister_system_call K nr s).0
  admin (sets_max w) s = (set_max_syscall K (int_of w) s).0
  admin (switches_on now) s = (switch_on_monitor K now s).0
  admin (reads_stats mem type now) s = (get_thread_stats K mem type now s).0

  -- `kmalloc` gives out blocks that are not out; numbers and names come as the ioctl handler passes
  -- them on.
  abbrev pub FreshOrNull : Option ℕ → List ℕ → Type 0
  FreshOrNull none heap = Unit
  FreshOrNull (some p) heap = count (is p) heap ≡ 0

  abbrev pub SecondIsFresh : Option ℕ → Option ℕ → List ℕ → Type 0
  SecondIsFresh none mem heap = Unit
  SecondIsFresh (some stats) mem heap = FreshOrNull mem (stats ∷ heap)

  abbrev pub IsAllowed : Admin → State K → Type 0
  IsAllowed (adds_uid mem user_id) s = FreshOrNull mem s.heap
  IsAllowed (adds_prog mem name) s = FreshOrNull mem s.heap × (length name ≤ 15)
  IsAllowed (adds_syscall stats new_hack junk nr) s =
      FreshOrNull stats s.heap × SecondIsFresh stats new_hack s.heap × (nr < K.nr_syscalls)
  IsAllowed (drops_syscall nr) s = nr < K.nr_syscalls
  IsAllowed (reads_stats mem type now) s = FreshOrNull mem s.heap
  IsAllowed _ s = Unit

  -- A thread's access: the outcome for the shared state and for the thread.
  abbrev pub put : System K → ℕ → State K × Pc → System K
  put s i (shared, p) = record { shared = shared; pc = update s.pc i p }

  abbrev pub wake_all : (ℕ → Pc) → ℕ → Pc
  wake_all pc i = wake (pc i)

  -- `n` threads.
  pub data Step (n : ℕ) (s : System K) : System K → Type 0 where
    -- the processor enters the wrapper through the system call table
    dispatches :
        (i : ℕ) (r : Request)
        → i < n
        → is_away (s.pc i) ≡ true
        → s.shared.hacked_syscall_tbl r.sysnum ≡ K.wrapper_address
        → Step n s (put s i (s.shared, entered r))
    runs : (i now : ℕ) → i < n → Step n s (put s i (advance K now s.shared (s.pc i)))
    signals : (i : ℕ) → i < n → Step n s (put s i (interrupt K s.shared (s.pc i)))
    -- the armed timer goes off; `wake_up_interruptible`
    expires :
        (now due : ℕ)
        → s.shared.epoch_timer ≡ some due
        → Step n s (record {
          shared = epoch_timer_fires K now s.shared;
          pc = if s.shared.is_monitor_active == 0 then s.pc else wake_all s.pc;
        })
    -- switch_off_monitor, with its `wake_up_all`
    switches_off :
        (now : ℕ)
        → Step n s (record {
          shared = (switch_off_monitor K now s.shared).0;
          pc = if s.shared.is_monitor_active == 1 then wake_all s.pc else s.pc;
        })
    administers :
        (a : Admin)
        → IsAllowed a s.shared
        → Step n s (record { shared = admin a s.shared; pc = s.pc })

  -- The module as loaded, with no thread in the wrapper.
  abbrev pub loaded : (ℕ → ℕ) → ℕ → System K
  loaded table now = record { shared = core_setup K now (initial K table); pc = λ i. outside }

  pub data Run (n : ℕ) (s : System K) : System K → Type 0 where
    start : Run n s s
    later : {t u : System K} → Run n s t → Step n t u → Run n s u
