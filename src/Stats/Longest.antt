-- ===== src/Stats/Longest.antt =====
-- The statistics of a system call after any number of delayed calls.
use mathlib.Core.Path.{subst}
use soa_repo.Base.{
  ℕ, ◌<◌, ◌≡◌, ◌∙◌, refl, arith, sym, ap, List, [], Option, ◌∷◌, none, some, Bool, true, false,
  ◌==◌, ◌&&◌, if◌then◌else◌, Bool-cases, inl, inr, ltb, leb, find, take,
}
use soa_repo.Kernel.{Kernel, Node, HackedSyscall}
use soa_repo.State.{SyscallStats, State}
use soa_repo.Registry.Validity.{IsValid}
use soa_repo.Registry.Syscall.{find_hack}
use soa_repo.Stats.{Request, report, check_and_set_statistic, get_syscall_stats}
use soa_repo.Stats.Peak.{check_and_set_statistic-keeps_peak}

-- A call that was delayed, by so many ticks.
pub record Delayed : Type 0 where
  pub delay : ℕ
  pub request : Request

-- The longest delay of a call of `nr`, and 0 if there is none.
unfoldable pub longest : ℕ → List Delayed → ℕ
longest nr [] = 0
longest nr (c ∷ cs) =
    let rest = longest nr cs in if c.request.sysnum == nr && ltb rest c.delay then c.delay else rest

unfoldable pub is_call : ℕ → ℕ → Delayed → Bool
is_call nr d c = c.request.sysnum == nr && (c.delay == d)

-- Statistics that `c` has left.
abbrev pub left_by : SyscallStats → Delayed → SyscallStats
left_by old c = record {
  syscall_nr = old.syscall_nr;
  peak_delay = c.delay;
  peak_prog_name = take 15 c.request.comm;
  peak_uid = c.request.euid;
}

-- The statistics of the call that is given, if the longest delay is longer than the peak before.
abbrev pub settled : SyscallStats → ℕ → Option Delayed → SyscallStats
settled old most none = old
settled old most (some c) = if leb most old.peak_delay then old else left_by old c

-- What the statistics ought to be after these calls: those of the first call with the longest delay,
-- if that is longer than the peak before.
unfoldable pub expected : ℕ → SyscallStats → List Delayed → SyscallStats
expected nr old cs = settled old (longest nr cs) (find (is_call nr (longest nr cs)) cs)

longest-cons :
    (nr : ℕ) (c : Delayed) (cs : List Delayed)
    → longest nr (c ∷ cs)
      ≡ (if c.request.sysnum == nr && ltb (longest nr cs) c.delay then c.delay else longest nr cs)
unfolding longest
longest-cons nr c cs = refl

find-cons :
    (nr most : ℕ) (c : Delayed) (cs : List Delayed)
    → find (is_call nr most) (c ∷ cs)
      ≡ (if c.request.sysnum == nr && (c.delay == most) then some c else find (is_call nr most) cs)
unfolding find is_call
find-cons nr most c cs = refl

-- Where the longest delay is not 0, some call has it.
find-longest :
    (nr : ℕ) (cs : List Delayed) → find (is_call nr (longest nr cs)) cs ≡ none → longest nr cs ≡ 0
unfolding longest
find-longest nr [] missing = refl
find-longest nr (c ∷ cs) missing =
    elim (Bool-cases (c.request.sysnum == nr && ltb (longest nr cs) c.delay)) [
      | inl longer ↦
          let most : longest nr (c ∷ cs) ≡ c.delay = rw longer refl in
          let there = sym (find-cons nr c.delay c cs) ∙ rw most at missing in ground (arith, there)
      | inr other ↦
          let most : longest nr (c ∷ cs) ≡ longest nr cs = rw other refl in
          let there = sym (find-cons nr (longest nr cs) c cs) ∙ rw most at missing in
          rw most (find-longest nr cs (ground (arith, there)))
    ]

-- A first call with the longest delay, before calls with these results.
longer_settled :
    (nr : ℕ) (old : SyscallStats) (c : Delayed) (most : ℕ) (found later : Option Delayed)
    → (c.request.sysnum == nr && ltb most c.delay) ≡ true
    → settled old c.delay (if c.request.sysnum == nr && (c.delay == c.delay) then some c else later)
      ≡ settled
          (if c.request.sysnum == nr && ltb old.peak_delay c.delay then left_by old c else old)
          most
          found
longer_settled nr old c most none later longer = ground arith
longer_settled nr old c most (some f) later longer = ground arith

shorter_settled :
    (nr : ℕ) (old : SyscallStats) (c : Delayed) (most : ℕ) (found : Option Delayed)
    → (found ≡ none → most ≡ 0)
    → (c.request.sysnum == nr && ltb most c.delay) ≡ false
    → settled old most (if c.request.sysnum == nr && (c.delay == most) then some c else found)
      ≡ settled
          (if c.request.sysnum == nr && ltb old.peak_delay c.delay then left_by old c else old)
          most
          found
shorter_settled nr old c most none empty other = let zero_most = empty refl in ground arith
shorter_settled nr old c most (some f) empty other = ground arith

one_more :
    (nr : ℕ) (old : SyscallStats) (c : Delayed) (cs : List Delayed)
    → expected nr old (c ∷ cs)
      ≡ expected nr
          (if c.request.sysnum == nr && ltb old.peak_delay c.delay then left_by old c else old)
          cs
unfolding expected
one_more nr old c cs = elim (Bool-cases (c.request.sysnum == nr && ltb (longest nr cs) c.delay)) [
  | inl longer ↦
      let most : longest nr (c ∷ cs) ≡ c.delay = rw (longest-cons nr c cs, longer) refl in
      rw (most, find-cons nr c.delay c cs)
        (longer_settled nr old c (longest nr cs) (find (is_call nr (longest nr cs)) cs)
          (find (is_call nr c.delay) cs) longer)
  | inr other ↦
      let most : longest nr (c ∷ cs) ≡ longest nr cs = rw (longest-cons nr c cs, other) refl in
      rw (most, find-cons nr (longest nr cs) c cs)
        (shorter_settled nr old c (longest nr cs) (find (is_call nr (longest nr cs)) cs)
          (find-longest nr cs) other)
]

-- The delayed calls, the first one first.
unfoldable pub record_all : (K : Kernel) → List Delayed → State K → State K
record_all K [] s = s
record_all K (c ∷ cs) s = record_all K cs (check_and_set_statistic K c.delay c.request s)

module _ (K : Kernel) (original : ℕ → ℕ) where
  check_and_set_statistic-IsValid :
      (delay : ℕ) (r : Request) (s : State K)
      → IsValid K original s
      → IsValid K original (check_and_set_statistic K delay r s)
  unfolding check_and_set_statistic
  check_and_set_statistic-IsValid delay r s v =
      let t = check_and_set_statistic K delay r s in
      let same : record s { stats_at = t.stats_at } ≡ t = ground arith in
      subst (λ u. IsValid K original u) same
        (record { uids = v.uids; progs = v.progs; hacks = v.hacks; heaped = v.heaped })

  check_and_set_statistic-find_hack :
      (delay : ℕ) (r : Request) (s : State K) (nr : ℕ)
      → find_hack K nr (check_and_set_statistic K delay r s) ≡ find_hack K nr s
  unfolding check_and_set_statistic find_hack
  check_and_set_statistic-find_hack delay r s nr = ground arith

  record_all-find_hack :
      (cs : List Delayed) (s : State K) (nr : ℕ)
      → find_hack K nr (record_all K cs s) ≡ find_hack K nr s
  unfolding record_all
  record_all-find_hack [] s nr = refl
  record_all-find_hack (c ∷ cs) s nr =
      record_all-find_hack cs _ nr ∙ check_and_set_statistic-find_hack c.delay c.request s nr

  record_all-expected :
      (cs : List Delayed) (s : State K) (nr : ℕ) (n : Node HackedSyscall)
      → IsValid K original s
      → find_hack K nr s ≡ some n
      → (record_all K cs s).stats_at n.val.stats ≡ expected nr (s.stats_at n.val.stats) cs
  unfolding record_all expected find
  record_all-expected [] s nr n v there = refl
  record_all-expected (c ∷ cs) s nr n v there =
      let found = check_and_set_statistic-find_hack c.delay c.request s nr ∙ there in
      record_all-expected cs _ nr n (check_and_set_statistic-IsValid c.delay c.request s v) found
      ∙ ap (λ old. expected nr old cs)
          (check_and_set_statistic-keeps_peak K original s v c.delay c.request nr n there)
      ∙ sym (one_more nr (s.stats_at n.val.stats) c cs)

  -- What get_syscall_stats reports of a registered system call in range, with memory at hand, after
  -- any sequence of delayed calls of the wrapper, of this system call and others: the longest delay
  -- of a call of this system call, in milliseconds, with the user id and the first 15 bytes of the
  -- name of the first caller that had it, if it is longer than the peak before; otherwise what was
  -- there before.
  pub get_syscall_stats-record_all :
      (s : State K) (cs : List Delayed) (nr p : ℕ) (n : Node HackedSyscall)
      → IsValid K original s
      → nr < K.nr_syscalls
      → find_hack K nr s ≡ some n
      → (get_syscall_stats K (some p) nr (record_all K cs s)).1
        ≡ report (
            let stats = expected nr (s.stats_at n.val.stats) cs in
            record {
              syscall_nr = stats.syscall_nr;
              peak_delay = K.jiffies_to_msecs stats.peak_delay;
              peak_prog_name = take 15 stats.peak_prog_name;
              peak_uid = stats.peak_uid;
            })
  unfolding get_syscall_stats
  get_syscall_stats-record_all s cs nr p n v in_range there =
      rw
        (
          get_syscall_stats,
          K.nospec_in_range nr K.nr_syscalls in_range,
          record_all-find_hack cs s nr ∙ there,
          record_all-expected cs s nr n v there,
        )
        refl
