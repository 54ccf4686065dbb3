-- ===== src/Stats/Updates.antt =====
-- check_and_set_statistic in src/throttling_api.c one access at a time, for one system call: the test
-- is outside stats_lock, and the three fields are written one after the other inside it.
pub mod Whole
use soa_repo.Base.{ℕ, ◌≤◌, ◌<◌, ◌≡◌, Option, none, some, take, List}
use soa_repo.State.{SyscallStats, update}
use soa_repo.Stats.{Request}

-- Where a thread stands, with its delay and what it is: before the test, before the lock, before each
-- write and before the unlock.
pub data Pc : Type 0 where
  outside : Pc
  testing locking writing_delay writing_uid writing_name unlocking : ℕ → Request → Pc

pub record System : Type 0 where
  pub stats : SyscallStats
  -- the thread that holds the lock
  pub stats_lock : Option ℕ
  pub pc : ℕ → Pc
  -- the statistics of the last thread that is through; no code reads it
  pub last : SyscallStats

-- The statistics with a thread's three fields.
abbrev pub of_thread : ℕ → Request → SyscallStats → SyscallStats
of_thread delay r stats = record {
  syscall_nr = stats.syscall_nr;
  peak_delay = delay;
  peak_prog_name = take 15 r.comm;
  peak_uid = r.euid;
}

abbrev pub to : ℕ → Pc → System → System
to i p s = record s { pc = update s.pc i p }

pub data Step (s : System) : System → Type 0 where
  comes : (i delay : ℕ) (r : Request) → s.pc i ≡ outside → Step s (to i (testing delay r) s)
  passes :
      (i delay : ℕ) (r : Request)
      → s.pc i ≡ testing delay r
      → s.stats.peak_delay < delay
      → Step s (to i (locking delay r) s)
  goes :
      (i delay : ℕ) (r : Request)
      → s.pc i ≡ testing delay r
      → delay ≤ s.stats.peak_delay
      → Step s (to i outside s)
  locks :
      (i delay : ℕ) (r : Request)
      → s.pc i ≡ locking delay r
      → s.stats_lock ≡ none
      → Step s (to i (writing_delay delay r) (record s { stats_lock = some i }))
  writes_delay :
      (i delay : ℕ) (r : Request)
      → s.pc i ≡ writing_delay delay r
      → Step s (
          to i (writing_uid delay r) (record s { stats = record (s.stats) { peak_delay = delay } }))
  writes_uid :
      (i delay : ℕ) (r : Request)
      → s.pc i ≡ writing_uid delay r
      → Step s (
          to i (writing_name delay r) (record s { stats = record (s.stats) { peak_uid = r.euid } }))
  writes_name :
      (i delay : ℕ) (r : Request)
      → s.pc i ≡ writing_name delay r
      → Step s (
          to i
            (unlocking delay r)
            (record s { stats = record (s.stats) { peak_prog_name = take 15 r.comm } }))
  unlocks :
      (i delay : ℕ) (r : Request)
      → s.pc i ≡ unlocking delay r
      → Step s (to i outside (record s { stats_lock = none; last = of_thread delay r s.last }))

-- A new registration, with nobody in the function.
abbrev pub registered : SyscallStats → System
registered stats = record { stats = stats; stats_lock = none; pc = λ i. outside; last = stats }

pub data Reach (stats : SyscallStats) : System → Type 0 where
  here : Reach stats (registered stats)
  later : {s t : System} → Reach stats s → Step s t → Reach stats t
