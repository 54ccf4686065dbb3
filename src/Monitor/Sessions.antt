-- ===== src/Monitor/Sessions.antt =====
-- The time that the monitor was on, over sessions between `switch_on_monitor` and `switch_off_monitor`.
use soa_repo.Base.{ℕ, ◌+◌, ◌-◌, ◌^◌, ◌≤◌, ◌<◌, ◌≡◌, ◌≢◌, arith, pos, ealready}
use soa_repo.Kernel.{Kernel}
use soa_repo.State.{State}
use soa_repo.Monitor.{switch_on_monitor, switch_off_monitor}

module _ (K : Kernel) where
  -- A switch that changes the state returns 0 and one that does not returns -EALREADY and leaves
  -- everything as it was; after a session from `on` to `off` the time recorded is the length of the
  -- session, and the monitor and its timer are down.
  pub session_length :
      (s : State K) (on off : ℕ)
      → s.is_monitor_active ≡ 0
      → on ≤ off
      → off < 2 ^ 64
      → (switch_off_monitor K on s ≡ (s, ealready))
        × ((switch_on_monitor K on s).1 ≡ pos 0)
        × (switch_on_monitor K off (switch_on_monitor K on s).0
            ≡ ((switch_on_monitor K on s).0, ealready))
        × ((switch_off_monitor K off (switch_on_monitor K on s).0).1 ≡ pos 0)
        × ((switch_off_monitor K off (switch_on_monitor K on s).0).0.info_threads.elapsed
            ≡ off - on)
        × ((switch_off_monitor K off (switch_on_monitor K on s).0).0.is_monitor_active ≡ 0)
  unfolding switch_on_monitor switch_off_monitor
  session_length s on off down order small = ground arith

  -- The time recorded of earlier sessions is lost: where there is some, what is recorded after one
  -- more session is not the sum that the arithmetic mean is taken over.
  pub session_forgets :
      (s : State K) (on off : ℕ)
      → s.is_monitor_active ≡ 0
      → on ≤ off
      → off < 2 ^ 64
      → 0 < s.info_threads.elapsed
      → (switch_off_monitor K off (switch_on_monitor K on s).0).0.info_threads.elapsed
        ≢ s.info_threads.elapsed + (off - on)
  unfolding switch_on_monitor switch_off_monitor
  session_forgets s on off down order small earlier = ground arith
