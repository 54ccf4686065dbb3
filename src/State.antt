-- ===== src/State.antt =====
-- include/throttling_rcu.h and the definitions at the top of src/throttling_mod.c: the data types
-- and the global variables of the module, as one record.
use soa_repo.Base.{
  ℕ, ◌+◌, ◌≤◌, ◌≡◌, Bool, List, [], ◌∷◌, Option, none, arith, ◌==◌, if◌then◌else◌, count, to_nat,
}
use soa_repo.Kernel.{Kernel}

-- `struct syscall_stats`
pub record SyscallStats : Type 0 where
  pub syscall_nr : ℕ
  pub peak_delay : ℕ
  pub peak_prog_name : List ℕ
  pub peak_uid : ℕ

-- `struct thread_stats`: three 64-bit counters and a 32-bit one, as bit patterns
pub record ThreadStats : Type 0 where
  pub sum_blocked : ℕ
  pub elapsed : ℕ
  pub start_time : ℕ
  pub peak_blocked : ℕ

pub record State (K : Kernel) : Type 0 where
  -- the blocks that `kmalloc` gave out and `kfree` has not had back
  pub heap : List ℕ
  -- the memory of `struct syscall_stats`, by address
  pub stats_at : ℕ → SyscallStats
  pub hacked_syscall_hash : K.hack_api.Table
  pub uid_hash : K.uid_api.Table
  pub prog_hash : K.prog_api.Table
  pub syscall_array : ℕ → ℕ
  pub hacked_syscall_tbl : ℕ → ℕ
  pub uids_len : ℕ
  pub prog_name_len : ℕ
  pub sys_len : ℕ
  pub is_monitor_active : ℕ
  pub max_syscalls_per_sec : ℕ
  pub curr_syscalls : ℕ
  pub blocked_thread : ℕ
  pub exponential : ℕ
  pub info_threads : ThreadStats
  -- when `epoch_timer` goes off, if it is armed
  pub epoch_timer : Option ℕ

-- The static initialisers, over the system call table that discovery found.
unfoldable pub initial : (K : Kernel) → (ℕ → ℕ) → State K
initial K table = record {
  heap = [];
  stats_at = λ _. record { syscall_nr = 0; peak_delay = 0; peak_prog_name = []; peak_uid = 0 };
  hacked_syscall_hash = K.hack_api.empty;
  uid_hash = K.uid_api.empty;
  prog_hash = K.prog_api.empty;
  syscall_array = λ _. 0;
  hacked_syscall_tbl = table;
  uids_len = 0;
  prog_name_len = 0;
  sys_len = 0;
  is_monitor_active = 1;
  max_syscalls_per_sec = 3;
  curr_syscalls = 3;
  blocked_thread = 0;
  exponential = 0;
  info_threads = record { sum_blocked = 0; elapsed = 0; start_time = 0; peak_blocked = 0 };
  epoch_timer = none;
}

-- A write to an array or to memory.
abbrev pub update {ℓ} : {A : Type ℓ} → (ℕ → A) → ℕ → A → ℕ → A
update f i v j = if i == j then v else f j

-- `kfree`, on the list of blocks that are out.
unfoldable pub kfree : ℕ → List ℕ → List ℕ
kfree a [] = []
kfree a (b ∷ h) = if b == a then h else b ∷ kfree a h

abbrev pub is : ℕ → ℕ → Bool
is a b = b == a

pub kfree-cons : (a : ℕ) (h : List ℕ) → kfree a (a ∷ h) ≡ h
unfolding kfree
kfree-cons a h = ground arith

pub count-kfree :
    (a b : ℕ) (h : List ℕ)
    → 1 ≤ count (is a) h
    → count (is b) (kfree a h) + to_nat (a == b) ≡ count (is b) h
unfolding kfree count
count-kfree a b [] out = ground arith
count-kfree a b (c ∷ h) out = ground (arith, count-kfree a b h)
