-- ===== src/Interface/Main.antt =====
-- `main` in user/interface.c.
use soa_repo.Base.{
  ℕ, zero, suc, [], ◌∷◌, ◌==◌, none, some, ℤ, pos, negsuc, Bool, false, if◌then◌else◌,
}
use soa_repo.Kernel.{Kernel}
use soa_repo.Interface.Stdio.{Stdio, matched, mismatch, at_eof, skip_line}
use soa_repo.Interface.Messages.{menu, goodbye}
use soa_repo.Interface.Calls.{World, Session, say}
use soa_repo.Interface.Options.{choice_of, dispatch}

-- How the program ends: EXIT_FAILURE, EXIT_SUCCESS, or not at all, in the loop that waits for the end
-- of a line where the input is at its end. Running out of fuel is no behaviour of the program.
pub data Ending (K : Kernel) : Type 0 where
  exit_failure out_of_fuel : Ending K
  exits hangs : Session K → Ending K

abbrev pub is_exit : ℤ → Bool
is_exit (pos n) = n == 0
is_exit (negsuc n) = false

module _ (K : Kernel) (io : Stdio) (w : World) where
  -- The `while (1)`, with fuel for so many rounds.
  unfoldable pub main_loop : ℕ → Session K → Ending K
  main_loop zero s = out_of_fuel
  main_loop (suc fuel) s =
      let t = say K w (menu ∷ []) s in
      elim (io.scan_int t.input) [
        | matched choice rest ↦
            let u = record t { input = rest } in
            let later = main_loop fuel (dispatch K io w (choice_of choice) u) in
            if is_exit choice then exits (say K w (goodbye ∷ []) u) else later
        | mismatch rest ↦ elim (skip_line rest) [
          | none ↦ hangs (record t { input = [] })
          | some left ↦ main_loop fuel (record t { input = left })
        ]
        | at_eof ↦ hangs (record t { input = [] })
      ]

  -- After `open`, which may fail.
  unfoldable pub main : Bool → ℕ → Session K → Ending K
  main opened fuel s = if opened then main_loop fuel s else exit_failure
