-- ===== src/Registry/Lengths.antt =====
-- `get_lenght` in src/throttling_api.c.
use soa_repo.Base.{ℕ, ◌==◌, ℤ, int_of, if◌then◌else◌}
use soa_repo.Kernel.{Kernel}
use soa_repo.State.{State}

-- The counters are narrowed to an `int`.
unfoldable pub get_lenght : (K : Kernel) → ℕ → State K → ℤ
get_lenght K choose s =
    if choose == 0
    then int_of s.uids_len
    else if choose == 1
    then int_of s.sys_len
    else int_of s.prog_name_len
