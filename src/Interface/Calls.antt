-- ===== src/Interface/Calls.antt =====
-- The state of user/interface.c, its reading of input and its calls of the device.
use soa_repo.Base.{ℕ, ◌+◌, ◌-◌, ◌^◌, List, [], ◌++◌, ℤ, pos, negsuc, Option, u32}
use soa_repo.Kernel.{Kernel}
use soa_repo.State.{State}
use soa_repo.Device.{Command, throttling_ioctl}
use soa_repo.Device.Queries.{Env, Reply}
use soa_repo.Interface.Stdio.{Stdio, matched, mismatch, at_eof}
use soa_repo.Interface.Messages.{Message}

-- What the calls meet, by their number: the device's environment, which depends on the blocks that are
-- out, and the program's own malloc.
pub record World : Type 0 where
  pub env : ℕ → List ℕ → Env
  pub malloc : ℕ → Option ℕ

-- The module behind the device; the local variables of `main`; the input that is left and the output.
pub record Session (K : Kernel) : Type 0 where
  pub shared : State K
  pub int_val : ℤ
  pub uid_val : ℕ
  pub str_val : List ℕ
  pub input : List ℕ
  pub output : List Message
  pub calls : ℕ

-- -1 with an errno, or no error and what was written to user space.
pub data Answer : Type 0 where
  failed : ℕ → Answer
  done : Reply → Answer

abbrev pub answer_of : ℤ → Reply → Answer
answer_of (pos n) reply = done reply
answer_of (negsuc n) reply = failed (n + 1)

-- The bits of an `int` as an unsigned number.
abbrev pub as_unsigned : ℤ → ℕ
as_unsigned (pos n) = u32 n
as_unsigned (negsuc n) = u32 (2 ^ 32 - n - 1)

module _ (K : Kernel) (w : World) where
  unfoldable pub ioctl : Command → Session K → Session K × Answer
  ioctl cmd s =
      let out = throttling_ioctl K (w.env s.calls s.shared.heap) cmd s.shared in
      (record s { shared = out.0; calls = s.calls + 1 }, answer_of out.1 out.2)

  abbrev pub say : List Message → Session K → Session K
  say messages s = record s { output = s.output ++ messages }

  -- A command, and the texts by its answer.
  unfoldable pub call : Command → (Answer → List Message) → Session K → Session K
  call cmd show s = let (t, answer) = ioctl cmd s in say (show answer) t

module _ (K : Kernel) (io : Stdio) where
  -- scanf leaves a variable as it was where nothing matches.
  unfoldable pub read_int : ℤ → Session K → ℤ × Session K
  read_int old s = elim (io.scan_int s.input) [
    | matched z rest ↦ (z, record s { input = rest })
    | mismatch rest ↦ (old, record s { input = rest })
    | at_eof ↦ (old, record s { input = [] })
  ]

  unfoldable pub read_word : List ℕ → Session K → List ℕ × Session K
  read_word old s = elim (io.scan_word s.input) [
    | matched word rest ↦ (word, record s { input = rest })
    | mismatch rest ↦ (old, record s { input = rest })
    | at_eof ↦ (old, record s { input = [] })
  ]
