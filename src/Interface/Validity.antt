-- ===== src/Interface/Validity.antt =====
-- The runs of the interface and the validity of the module behind it.
use soa_repo.Base.{
  ℕ, zero, suc, ◌≤◌, ◌<◌, arith, List, [], ◌∷◌, length, Bool-cases, Option-cases, inl, inr,
}
use soa_repo.Kernel.{Kernel}
use soa_repo.State.{State}
use soa_repo.Device.{Command}
use soa_repo.Device.Validity.{BothAreValid, throttling_ioctl-Valid}
use soa_repo.Device.Steps.{FitsInt}
use soa_repo.Wrapper.Threads.{FreshOrNull, SecondIsFresh}
use soa_repo.Interface.Stdio.{Stdio, IntFits, skip_line}
use soa_repo.Interface.Messages.{menu}
use soa_repo.Interface.Calls.{World, Session, ioctl, say}
use soa_repo.Interface.Options.{Choice, choice_of, dispatch}
use soa_repo.Interface.Reading.{Scan-cases}
use soa_repo.Interface.Keeps.{dispatch_keeps}
use soa_repo.Interface.Main.{Ending, out_of_fuel, exit_failure, exits, hangs, is_exit, main_loop}
use soa_repo.Interface.Termination.{length-skip_line}

-- The ending is one of the program's loop, and the module is left so.
abbrev pub Leaves : (K : Kernel) → (State K → Type 0) → Ending K → Type 0
Leaves K Q (exits s) = Q s.shared
Leaves K Q (hangs s) = Q s.shared
Leaves K Q out_of_fuel = ⊥
Leaves K Q exit_failure = ⊥

module _ (K : Kernel) (io : Stdio) (w : World) (original : ℕ → ℕ)
    (fresh : (k : ℕ) (heap : List ℕ) → FreshOrNull K (w.env k heap).first_mem heap)
    (fresh_too : (k : ℕ) (heap : List ℕ)
      → SecondIsFresh K (w.env k heap).first_mem (w.env k heap).second_mem heap) where
  abbrev IsGood : ℕ → Session K → Type 0
  IsGood n s = (length s.input ≤ n) × IntFits s.int_val × BothAreValid K original s.shared

  ioctl-IsGood :
      (n : ℕ) (s : Session K) (cmd : Command)
      → FitsInt cmd
      → IsGood n s
      → IsGood n (ioctl K w cmd s).0
  unfolding ioctl
  ioctl-IsGood n s cmd fit (le, h, v) = (
    le,
    h,
    throttling_ioctl-Valid K original (w.env s.calls s.shared.heap) s.shared v
        (fresh s.calls s.shared.heap) (fresh_too s.calls s.shared.heap) cmd fit,
  )

  dispatch-IsGood :
      (n : ℕ) (c : Choice) (s : Session K) → IsGood n s → IsGood n (dispatch K io w c s)
  dispatch-IsGood n c s h =
      dispatch_keeps K io w (IsGood n) (λ t p. p.1) (λ t m p. p) (ioctl-IsGood n)
        (λ t input int_val uid_val str_val le fit p. (omega (arith, p.0), fit, p.2)) c s h

  -- For any input, run by root or by anybody, with any answers to its calls of malloc: if each kmalloc
  -- gives out a block that is not out already, the program ends with the module in a valid state, by
  -- option 0 or waiting at the end of the input.
  pub main_loop-Valid :
      (fuel : ℕ) (s : Session K)
      → length s.input < fuel
      → IntFits s.int_val
      → BothAreValid K original s.shared
      → Leaves K (BothAreValid K original) (main_loop K io w fuel s)
  unfolding main_loop
  main_loop-Valid zero s h fits v = absurd (omega arith)
  main_loop-Valid (suc fuel) s h fits v = elim (Scan-cases (io.scan_int s.input)) [
    | inl (choice, rest, e) ↦
        let u = record (say K w (menu ∷ []) s) { input = rest } in
        let (shorter, fit) = io.scan_int_matched s.input choice rest e in
        let (le, fits', v') =
          dispatch-IsGood (length rest) (choice_of choice) u (omega arith, fits, v) in
        elim (Bool-cases (is_exit choice)) [
          | inl leaves ↦ rw (e, main_loop, leaves) v
          | inr stays ↦
              rw (e, main_loop, stays)
                (main_loop-Valid fuel (dispatch K io w (choice_of choice) u) (omega arith) fits' v')
        ]
    | inr (inl (rest, e)) ↦ elim (Option-cases (skip_line rest)) [
      | inl none_left ↦ rw (e, main_loop, none_left) v
      | inr (left, found) ↦
          let shorter = length-skip_line rest left found in
          let le = io.scan_int_mismatch s.input rest e in
          rw (e, main_loop, found)
            (main_loop-Valid fuel (record (say K w (menu ∷ []) s) { input = left }) (omega arith)
              fits v)
    ]
    | inr (inr e) ↦ rw (e, main_loop) v
  ]
