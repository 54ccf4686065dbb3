-- ===== src/Device/Times.antt =====
-- GET_THREAD_STATS of throttling_ioctl: what it reports, and the block that it takes.
use soa_repo.Base.{
  ℕ, ◌+◌, ◌-◌, ◌^◌, ◌%◌, ◌≤◌, ◌<◌, ◌≡◌, ◌∷◌, refl, arith, some, pos, ℤ, efault, ◌==◌, if◌then◌else◌,
  Bool-cases, inl, inr,
}
use soa_repo.Kernel.{Kernel}
use soa_repo.State.{State}
use soa_repo.Monitor.{ThreadStatsCr, get_thread_stats, sub64}
use soa_repo.Device.{queries, throttling_ioctl}
use soa_repo.Device.Queries.{
  Env, Reply, query, nothing, thread_stats, get_thread_stats_cmd, do_thread_stats,
}

module _ (K : Kernel) (env : Env) where
  -- The block stays out, whether its copy to user space goes through or not.
  abbrev pub told : ℕ → State K → ThreadStatsCr → State K × ℤ × Reply
  told p s stats = (
    record s { heap = p ∷ s.heap },
    if env.first_copy then pos 0 else efault,
    if env.first_copy then thread_stats stats else nothing,
  )

  -- The time that the monitor was on, in ticks: in the session that is recorded, and in the one under way.
  abbrev pub time_on : State K → ℕ
  time_on s =
      if s.is_monitor_active == 0
      then s.info_threads.elapsed
      else s.info_threads.elapsed + (env.now - s.info_threads.start_time)

  time_now :
      (s : State K)
      → s.info_threads.start_time ≤ env.now
      → env.now < 2 ^ 64
      → s.info_threads.elapsed + (env.now - s.info_threads.start_time) < 2 ^ 64
      → (s.info_threads.elapsed + sub64 env.now s.info_threads.start_time) % 2 ^ 64
        ≡ s.info_threads.elapsed + (env.now - s.info_threads.start_time)
  time_now s since small fits = omega arith

  -- GET_THREAD_STATS by anybody, in any state, with memory at hand, and with times and their sum below
  -- 2 ^ 64: for type 0 the reply has the sum and the peak of the blocked threads as they stand, and in
  -- milliseconds the recorded time, with the time since the last start while the monitor is on; for type
  -- 1 it has the exponential mean; if the copy to user space fails, -EFAULT and no reply; and each time
  -- the block from kmalloc stays out, and nothing else of the module changes.
  pub throttling_ioctl-get_thread_stats :
      (s : State K) (p : ℕ)
      → env.first_mem ≡ some p
      → s.info_threads.start_time ≤ env.now
      → env.now < 2 ^ 64
      → s.info_threads.elapsed + (env.now - s.info_threads.start_time) < 2 ^ 64
      → (throttling_ioctl K env (queries (get_thread_stats_cmd (some (pos 0)))) s
          ≡ told p s (record {
            type = 0;
            mean = 0;
            sum_blocked = s.info_threads.sum_blocked;
            elapsed = K.jiffies_to_msecs (time_on s);
            peak_blocked = s.info_threads.peak_blocked;
          }))
        × (throttling_ioctl K env (queries (get_thread_stats_cmd (some (pos 1)))) s
            ≡ told p s (record {
              type = 1;
              mean = s.exponential;
              sum_blocked = 0;
              elapsed = 0;
              peak_blocked = 0;
            }))
  unfolding throttling_ioctl query do_thread_stats get_thread_stats
  throttling_ioctl-get_thread_stats s p mem since small fits =
      let now = time_now s since small fits in
      (
        elim (Bool-cases (s.is_monitor_active == 0)) [
          | inl off ↦
              rw (mem, get_thread_stats, off)
                (elim (Bool-cases env.first_copy) [
                  | inl copies ↦ rw copies refl
                  | inr faults ↦ rw faults refl
                ])
          | inr on ↦
              rw (mem, get_thread_stats, on, now)
                (elim (Bool-cases env.first_copy) [
                  | inl copies ↦ rw copies refl
                  | inr faults ↦ rw faults refl
                ])
        ],
        elim (Bool-cases env.first_copy) [
          | inl copies ↦ rw (mem, get_thread_stats, copies) refl
          | inr faults ↦ rw (mem, get_thread_stats, faults) refl
        ],
      )
