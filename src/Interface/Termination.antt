-- ===== src/Interface/Termination.antt =====
-- The loop of `main` and the length of its input.
use soa_repo.Base.{
  ℕ, zero, suc, ◌≤◌, ◌<◌, ◌≡◌, ◌≢◌, refl, arith, List, [], ◌∷◌, some, length, Bool-cases,
  Option-cases, inl, inr,
}
use soa_repo.Kernel.{Kernel}
use soa_repo.Interface.Stdio.{Stdio, IntFits, skip_line}
use soa_repo.Interface.Messages.{menu}
use soa_repo.Interface.Calls.{World, Session, ioctl, say}
use soa_repo.Device.{Command}
use soa_repo.Interface.Options.{Choice, choice_of, dispatch}
use soa_repo.Interface.Reading.{Scan-cases}
use soa_repo.Interface.Keeps.{dispatch_keeps}
use soa_repo.Interface.Main.{out_of_fuel, is_exit, main_loop}

pub length-skip_line :
    (input left : List ℕ) → skip_line input ≡ some left → length left < length input
unfolding skip_line
length-skip_line [] left e = cc
length-skip_line (c ∷ rest) left e = ground (arith, length-skip_line rest left)

module _ (K : Kernel) (io : Stdio) (w : World) where
  abbrev IsWithin : ℕ → Session K → Type 0
  IsWithin n s = (length s.input ≤ n) × IntFits s.int_val

  ioctl-IsWithin :
      (n : ℕ) (s : Session K) (cmd : Command) → IsWithin n s → IsWithin n (ioctl K w cmd s).0
  unfolding ioctl
  ioctl-IsWithin n s cmd h = h

  dispatch-IsWithin :
      (n : ℕ) (c : Choice) (s : Session K) → IsWithin n s → IsWithin n (dispatch K io w c s)
  dispatch-IsWithin n c s h =
      dispatch_keeps K io w (IsWithin n) (λ t p. p.1) (λ t m p. p)
        (λ t cmd fit p. ioctl-IsWithin n t cmd p)
        (λ t input int_val uid_val str_val le fit p. (omega (arith, p.0), fit)) c s h

  -- The program comes to an end of its own or to the end of the input: with more fuel than the input
  -- has characters the loop does not run out of fuel, and any two such amounts of fuel give the same
  -- ending.
  pub main_loop_ends :
      (fuel more : ℕ) (s : Session K)
      → length s.input < fuel
      → length s.input < more
      → IntFits s.int_val
      → (main_loop K io w fuel s ≢ out_of_fuel)
        × (main_loop K io w fuel s ≡ main_loop K io w more s)
  unfolding main_loop
  main_loop_ends zero more s h h' fits = absurd (omega arith)
  main_loop_ends (suc fuel) zero s h h' fits = absurd (omega arith)
  main_loop_ends (suc fuel) (suc more) s h h' fits = elim (Scan-cases (io.scan_int s.input)) [
    | inl (choice, rest, e) ↦
        let t = say K w (menu ∷ []) s in
        let u = record t { input = rest } in
        let (shorter, fit) = io.scan_int_matched s.input choice rest e in
        let (le, fits') =
          dispatch-IsWithin (length rest) (choice_of choice) u (omega arith, fits) in
        let ih =
          main_loop_ends fuel more (dispatch K io w (choice_of choice) u) (omega arith)
            (omega arith) fits' in
        elim (Bool-cases (is_exit choice)) [
          | inl leaves ↦ rw (e, main_loop, leaves) ((λ x. cc), refl)
          | inr stays ↦ rw (e, main_loop, stays) ih
        ]
    | inr (inl (rest, e)) ↦ elim (Option-cases (skip_line rest)) [
      | inl none_left ↦ rw (e, main_loop, none_left) ((λ x. cc), refl)
      | inr (left, found) ↦
          let shorter = length-skip_line rest left found in
          let le = io.scan_int_mismatch s.input rest e in
          rw (e, main_loop, found)
            (main_loop_ends fuel more (record (say K w (menu ∷ []) s) { input = left })
              (omega arith) (omega arith) fits)
    ]
    | inr (inr e) ↦ rw (e, main_loop) ((λ x. cc), refl)
  ]
