-- ===== src/Tests/Monitoring.antt =====
-- The monitor and its timer, run on the stand-in kernel.
use soa_repo.Base.{ℕ, ◌+◌, ◌≡◌, refl, arith, ◌∷◌, [], List}
use soa_repo.Kernel.Chains.{test_kernel}
use soa_repo.State.{State, initial}
use soa_repo.Monitor.{
  core_setup, core_cleanup, epoch_handler, switch_on_monitor, switch_off_monitor, get_thread_stats,
  next_mean,
}
use soa_repo.Monitor.Timer.{
  MonitorIsValid, run, run-MonitorIsValid, switches_on, switches_off, fires, sets_max, step,
  epoch_timer_fires,
}
use soa_repo.Monitor.Epochs.{run_epochs, run_epochs-sum_of, sum_of, largest}

abbrev table : ℕ → ℕ
table i = 1000 + i

abbrev up : State test_kernel
up = core_setup test_kernel 5000 (initial test_kernel table)

-- After a first session of 100 ticks.
abbrev down : State test_kernel
down = (switch_off_monitor test_kernel 5100 up).0

program : ℕ
unfolding initial core_setup core_cleanup epoch_handler switch_on_monitor switch_off_monitor run
    step epoch_timer_fires run_epochs next_mean get_thread_stats
program = 0

abbrev epochs : List (ℕ × ℕ)
epochs = (5250, 2) ∷ (5500, 7) ∷ (5750, 4) ∷ []

run-MonitorIsValid_example : MonitorIsValid test_kernel (
    run test_kernel up
      ((5100, switches_off) ∷ (5200, sets_max 10) ∷ (5300, switches_on) ∷ (5550, fires) ∷ []))
run-MonitorIsValid_example =
    run-MonitorIsValid test_kernel table 5000
      ((5100, switches_off) ∷ (5200, sets_max 10) ∷ (5300, switches_on) ∷ (5550, fires) ∷ [])

run_epochs-sum_of_example :
    ((run_epochs test_kernel up epochs).info_threads.sum_blocked
      ≡ up.info_threads.sum_blocked + sum_of epochs)
    × ((run_epochs test_kernel up epochs).info_threads.peak_blocked
        ≡ largest up.info_threads.peak_blocked epochs)
unfolding program
run_epochs-sum_of_example =
    run_epochs-sum_of test_kernel up epochs refl (omega arith) (omega arith) (omega arith)
