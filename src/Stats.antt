-- ===== src/Stats.antt =====
-- The statistics of one system call in src/throttling_api.c.
pub mod Peak
pub mod Longest
pub mod Updates
use soa_repo.Base.{
  ℕ, ◌∷◌, List, Option, none, some, ltb, take, if◌then◌else◌, ℤ, pos, enoent, enomem,
}
use soa_repo.Kernel.{Kernel}
use soa_repo.State.{SyscallStats, State, update, kfree}
use soa_repo.Registry.Syscall.{find_hack}

-- What a system call is made with: its number, and the caller's effective user id and `comm`.
pub record Request : Type 0 where
  pub sysnum : ℕ
  pub euid : ℕ
  pub comm : List ℕ

-- A pointer to `struct syscall_cr_struct`, or an `ERR_PTR`.
pub data StatsResult : Type 0 where
  report : SyscallStats → StatsResult
  fails : ℤ → StatsResult

module _ (K : Kernel) where
  unfoldable pub check_and_set_statistic : ℕ → Request → State K → State K
  check_and_set_statistic delay r s = elim (find_hack K r.sysnum s) [
    | none ↦ s
    | some entry_sys ↦
        let stats = s.stats_at entry_sys.val.stats in
        if ltb stats.peak_delay delay
        then record s {
          stats_at = update s.stats_at entry_sys.val.stats (record {
            syscall_nr = stats.syscall_nr;
            peak_delay = delay;
            peak_prog_name = take 15 r.comm;
            peak_uid = r.euid;
          });
        }
        else s
  ]

  unfoldable pub get_syscall_stats : Option ℕ → ℕ → State K → State K × StatsResult
  get_syscall_stats none sys_num s = (s, fails enomem)
  get_syscall_stats (some p) sys_num s =
      let safe_nr = K.array_index_nospec sys_num K.nr_syscalls in
      elim (find_hack K safe_nr s) [
        | none ↦ (record s { heap = kfree p (p ∷ s.heap) }, fails enoent)
        | some curr ↦
            let stats = s.stats_at curr.val.stats in
            (
              record s { heap = p ∷ s.heap },
              report (record {
                syscall_nr = stats.syscall_nr;
                peak_delay = K.jiffies_to_msecs stats.peak_delay;
                peak_prog_name = take 15 stats.peak_prog_name;
                peak_uid = stats.peak_uid;
              }),
            )
      ]
