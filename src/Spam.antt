-- ===== src/Spam.antt =====
-- The test program user/user.c: `main` starts NUM_THREADS threads, and each opens a file
-- NUM_OPENS_PER_THREAD times and closes it. The threads share the process's file descriptors.
pub mod Calls
use soa_repo.Base.{ℕ, ◌+◌, ◌<◌, ◌≡◌, List, ◌∷◌, count}
use soa_repo.State.{update, is, kfree}

abbrev pub num_threads : ℕ
num_threads = 5

abbrev pub num_opens_per_thread : ℕ
num_opens_per_thread = 30

-- A thread: not started, at the test of its loop with `i`, before `close` with `i` and `test_fd`, and
-- returned.
pub data Pc : Type 0 where
  unborn ended : Pc
  looping : ℕ → Pc
  closing : ℕ → ℕ → Pc

-- `main`: in its first loop, in its second loop, and at its ends.
pub data Main : Type 0 where
  creating joining : ℕ → Main
  exit_success exit_failure : Main

pub record Process : Type 0 where
  pub in_main : Main
  pub pc : ℕ → Pc
  -- the descriptors that are open, and how often SYS_open was called
  pub files : List ℕ
  pub opens : ℕ

abbrev pub to : ℕ → Pc → Process → Process
to j p s = record s { pc = update s.pc j p }

-- After the return of `main` the process is over, so no thread takes a step.
pub data IsRunning : Main → Type 0 where
  creates_more : {k : ℕ} → IsRunning (creating k)
  joins_more : {k : ℕ} → IsRunning (joining k)

pub data Step (s : Process) : Process → Type 0 where
  creates :
      (k : ℕ)
      → s.in_main ≡ creating k
      → k < num_threads
      → Step s (to k (looping 0) (record s { in_main = creating (k + 1) }))
  cannot_create :
      (k : ℕ)
      → s.in_main ≡ creating k
      → k < num_threads
      → Step s (record s { in_main = exit_failure })
  has_created : s.in_main ≡ creating num_threads → Step s (record s { in_main = joining 0 })
  joins :
      (k : ℕ)
      → s.in_main ≡ joining k
      → k < num_threads
      → s.pc k ≡ ended
      → Step s (record s { in_main = joining (k + 1) })
  has_joined : s.in_main ≡ joining num_threads → Step s (record s { in_main = exit_success })
  -- SYS_open with a descriptor that is not open, or with an error
  opens_file :
      (j i fd : ℕ)
      → IsRunning s.in_main
      → s.pc j ≡ looping i
      → i < num_opens_per_thread
      → count (is fd) s.files ≡ 0
      → Step s (to j (closing i fd) (record s { files = fd ∷ s.files; opens = s.opens + 1 }))
  cannot_open :
      (j i : ℕ)
      → IsRunning s.in_main
      → s.pc j ≡ looping i
      → i < num_opens_per_thread
      → Step s (to j (looping (i + 1)) (record s { opens = s.opens + 1 }))
  closes :
      (j i fd : ℕ)
      → IsRunning s.in_main
      → s.pc j ≡ closing i fd
      → Step s (to j (looping (i + 1)) (record s { files = kfree fd s.files }))
  ends :
      (j : ℕ) → IsRunning s.in_main → s.pc j ≡ looping num_opens_per_thread → Step s (to j ended s)

-- A process that starts with these descriptors.
abbrev pub started : List ℕ → Process
started files = record { in_main = creating 0; pc = λ j. unborn; files = files; opens = 0 }

pub data Reach (files : List ℕ) : Process → Type 0 where
  here : Reach files (started files)
  later : {s t : Process} → Reach files s → Step s t → Reach files t
