-- ===== src/Monitor/Epochs.antt =====
-- What the epochs add up to: the sum, the peak and the exponential mean of the blocked threads.
use Prim.Native.Nat.{max}
use soa_repo.Base.{
  ◌%◌, ◌∙◌, ap, ℕ, ◌+◌, ◌-◌, ◌*◌, ◌^◌, ◌≤◌, ◌<◌, ◌≡◌, ◌≢◌, refl, List, [], ◌∷◌, arith, min,
}
use soa_repo.Kernel.{Kernel}
use soa_repo.State.{State}
use soa_repo.Monitor.{next_mean, epoch_handler}

-- The step replaces a quarter of the mean by a quarter of the new value, rounded up by less than
-- one, and stays between the two.
pub next_mean_rounds :
    (temp new : ℕ)
    → temp ≢ 0
    → temp < 2 ^ 63
    → new * 1024 < 2 ^ 63
    → (3 * temp + new * 1024 ≤ 4 * next_mean temp (new * 1024))
      × (4 * next_mean temp (new * 1024) ≤ 3 * temp + new * 1024 + 3)
      × (min temp (new * 1024) ≤ next_mean temp (new * 1024))
      × (next_mean temp (new * 1024) ≤ max temp (new * 1024))
unfolding next_mean
next_mean_rounds temp new some_mean small small_new = ground arith

pub next_mean-le :
    (temp new most : ℕ)
    → temp ≤ most * 1024
    → new ≤ most
    → most * 1024 < 2 ^ 63
    → next_mean temp ((new * 2 ^ 10) % 2 ^ 64) ≤ most * 1024
unfolding next_mean
next_mean-le temp new most h k small = ground arith

-- The numbers of blocked threads: their sum, their largest, and that each is below a bound.
abbrev pub sum_of : List (ℕ × ℕ) → ℕ
sum_of [] = 0
sum_of ((now, b) ∷ es) = b + sum_of es

abbrev pub largest : ℕ → List (ℕ × ℕ) → ℕ
largest m [] = m
largest m ((now, b) ∷ es) = largest (max m b) es

abbrev pub AreAtMost : ℕ → List (ℕ × ℕ) → Type 0
AreAtMost n [] = Unit
AreAtMost n ((now, b) ∷ es) = (b ≤ n) × AreAtMost n es

module _ (K : Kernel) where
  -- One epoch after another, each with the number of threads that are blocked when it ends.
  unfoldable pub run_epochs : State K → List (ℕ × ℕ) → State K
  run_epochs s [] = s
  run_epochs s ((now, blocked) ∷ es) =
      run_epochs (epoch_handler K now (record s { blocked_thread = blocked })) es

  -- While the monitor is on and no number of blocked threads reaches 2 ^ 31, nor their sum 2 ^ 64,
  -- the epochs add these numbers up in `sum_blocked` and keep their largest in `peak_blocked`.
  pub run_epochs-sum_of :
      (s : State K) (es : List (ℕ × ℕ))
      → s.is_monitor_active ≡ 1
      → AreAtMost (2 ^ 31 - 1) es
      → s.info_threads.peak_blocked < 2 ^ 31
      → s.info_threads.sum_blocked + sum_of es < 2 ^ 64
      → ((run_epochs s es).info_threads.sum_blocked ≡ s.info_threads.sum_blocked + sum_of es)
        × ((run_epochs s es).info_threads.peak_blocked ≡ largest s.info_threads.peak_blocked es)
  unfolding run_epochs epoch_handler
  run_epochs-sum_of s [] on few peak total = (omega arith, refl)
  run_epochs-sum_of s ((now, b) ∷ es) on few peak total =
      let t = epoch_handler K now (record s { blocked_thread = b }) in
      let sum_step : t.info_threads.sum_blocked ≡ s.info_threads.sum_blocked + b = ground arith in
      let peak_step : t.info_threads.peak_blocked ≡ max s.info_threads.peak_blocked b =
        ground arith in
      let still_on : t.is_monitor_active ≡ 1 = ground arith in
      let rest = run_epochs-sum_of t es still_on few.1 (omega arith) (omega arith) in
      (omega (arith, rest.0), rest.1 ∙ ap (λ (m : ℕ). largest m es) peak_step)

  -- While the monitor is on, an exponential mean of at most 1024 * `most` stays there over epochs
  -- with at most `most` blocked threads each.
  pub run_epochs-exponential :
      (most : ℕ) (s : State K) (es : List (ℕ × ℕ))
      → s.is_monitor_active ≡ 1
      → most * 1024 < 2 ^ 63
      → AreAtMost most es
      → s.exponential ≤ most * 1024
      → (run_epochs s es).exponential ≤ most * 1024
  unfolding run_epochs epoch_handler
  run_epochs-exponential most s [] on small few below = below
  run_epochs-exponential most s ((now, b) ∷ es) on small few below =
      let t = epoch_handler K now (record s { blocked_thread = b }) in
      let still_on : t.is_monitor_active ≡ 1 = ground arith in
      run_epochs-exponential most t es still_on small few.1 (mean_step t.exponential (ground arith))
    where
      mean_step : (e : ℕ) → e ≡ next_mean s.exponential ((b * 2 ^ 10) % 2 ^ 64) → e ≤ most * 1024
      mean_step e h = ground (arith, next_mean-le s.exponential b most)
