-- ===== src/Stats/Peak.antt =====
-- The statistics of a system call after one delayed call.
use mathlib.Core.Path.{subst}
use soa_repo.Base.{
  sym, ℕ, ◌≡◌, ◌≢◌, refl, arith, some, ◌==◌, ◌&&◌, not, if◌then◌else◌, Bool-cases, inl, inr,
  count-find, Option-cases, eq_of_==, ltb, take, ==_refl,
}
use soa_repo.Kernel.{Kernel, Node, HackedSyscall}
use soa_repo.State.{State}
use soa_repo.Registry.Table.{count-split}
use soa_repo.Registry.Validity.{IsValid, stats_are_at}
use soa_repo.Registry.Syscall.{find_hack, hack_hit}
use soa_repo.Registry.Syscall.Validity.{found_nr}
use soa_repo.Stats.{Request, check_and_set_statistic}

module _ (K : Kernel) (original : ℕ → ℕ) (s : State K) (v : IsValid K original s) where
  open K.hack_api use {all, possible}

  -- Two registered system calls have their statistics in two blocks.
  pub stats_apart :
      (i j : ℕ) (n m : Node HackedSyscall)
      → find_hack K i s ≡ some n
      → find_hack K j s ≡ some m
      → i ≢ j
      → n.val.stats ≢ m.val.stats
  unfolding find_hack
  stats_apart i j n m there_n there_m differ same = omega (
    arith,
    count-find (λ x. hack_hit i x.val) (λ x. stats_are_at n.val.stats x && hack_hit i x.val)
        (possible i s.hacked_syscall_hash) n there_n
        (rw (==_refl n.val.stats) (found_nr K original s v i n there_n)),
    K.hack_api.possible-le i s.hacked_syscall_hash
        (λ x. stats_are_at n.val.stats x && hack_hit i x.val),
    count-find (λ x. hack_hit j x.val) (λ x. stats_are_at n.val.stats x && not (hack_hit i x.val))
        (possible j s.hacked_syscall_hash) m there_m
        (ground (arith, found_nr K original s v j m there_m)),
    K.hack_api.possible-le j s.hacked_syscall_hash
        (λ x. stats_are_at n.val.stats x && not (hack_hit i x.val)),
    count-split (stats_are_at n.val.stats) (λ x. hack_hit i x.val) (all s.hacked_syscall_hash),
    v.heaped.owned n.val.stats,
    v.heaped.distinct n.val.stats,
  )

  -- The statistics of any registered system call, after a delayed call of the wrapper: if that call
  -- was of this system call and its delay is longer than the peak, they hold the new delay and the
  -- caller's user id and name; otherwise they are as they were.
  pub check_and_set_statistic-keeps_peak :
      (delay : ℕ) (r : Request) (nr : ℕ) (n : Node HackedSyscall)
      → find_hack K nr s ≡ some n
      → (check_and_set_statistic K delay r s).stats_at n.val.stats ≡ (
          if r.sysnum == nr && ltb (s.stats_at n.val.stats).peak_delay delay
          then record {
            syscall_nr = (s.stats_at n.val.stats).syscall_nr;
            peak_delay = delay;
            peak_prog_name = take 15 r.comm;
            peak_uid = r.euid;
          }
          else s.stats_at n.val.stats)
  unfolding check_and_set_statistic
  check_and_set_statistic-keeps_peak delay r nr n there = elim (Bool-cases (r.sysnum == nr)) [
    | inl same ↦
        rw
          (
            subst (λ i. find_hack K i s ≡ some n) (sym (eq_of_== _ _ same)) there,
            check_and_set_statistic,
            same,
          )
          (ground arith)
    | inr differ ↦ elim (Option-cases (find_hack K r.sysnum s)) [
      | inl missing ↦ rw (missing, check_and_set_statistic, differ) refl
      | inr (m, called) ↦
          rw (called, check_and_set_statistic, differ)
            (ground (arith, stats_apart r.sysnum nr m n called there (ground arith)))
    ]
  ]
