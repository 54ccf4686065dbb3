-- ===== src/Interface/Shows.antt =====
-- The texts of user/interface.c after each command, by the command's answer. errno is 2 for ENOENT, 17
-- for EEXIST, 22 for EINVAL and 114 for EALREADY.
use soa_repo.Base.{ℕ, ◌==◌, List, [], ◌∷◌, some, ℤ, if◌then◌else◌}
use soa_repo.Device.Queries.{Reply, thread_stats, syscall_stats, check, numbers, names}
use soa_repo.Interface.Messages.{
  Message, ioctl_error, fetch_error, arithmetic_mean, exponential_mean, stats_missing, stats_of,
  number_of, progs,
}
use soa_repo.Interface.Calls.{Answer, failed, done}

-- One text where the command works, one for an expected error, perror for any other.
abbrev pub by_errno : ℕ → Message → Message → Answer → List Message
by_errno expected worked known (failed e) = (if e == expected then known else ioctl_error e) ∷ []
by_errno expected worked known (done reply) = worked ∷ []

abbrev pub show_thread_stats : Answer → List Message
show_thread_stats (failed e) = ioctl_error e ∷ []
show_thread_stats (done (thread_stats t)) =
    if t.type == 0
    then arithmetic_mean t.sum_blocked t.elapsed t.peak_blocked ∷ []
    else if t.type == 1
    then exponential_mean t.mean ∷ []
    else []
show_thread_stats (done reply) = []

abbrev pub show_syscall_stats : ℤ → Answer → List Message
show_syscall_stats nr (failed e) = (if e == 2 then stats_missing nr else ioctl_error e) ∷ []
show_syscall_stats nr (done (syscall_stats stats)) = stats_of stats ∷ []
show_syscall_stats nr (done reply) = []

-- The field `check` is 0 until the command writes it.
abbrev pub checked_of : Reply → ℕ
checked_of (check n) = n
checked_of _ = 0

abbrev pub show_check : (ℕ → Message) → Answer → List Message
show_check checked (failed e) = ioctl_error e ∷ []
show_check checked (done reply) = checked (checked_of reply) ∷ []

abbrev pub show_number : ℤ → Answer → List Message
show_number z (failed e) = ioctl_error e ∷ []
show_number z (done reply) = number_of z ∷ []

-- `copied` and the array after the command; `copied` is 0 before it.
abbrev pub show_numbers : (ℕ → List ℕ → Message) → Answer → List Message
show_numbers listed (failed e) = fetch_error e ∷ []
show_numbers listed (done (numbers l (some n))) = listed n l ∷ []
show_numbers listed (done reply) = listed 0 [] ∷ []

abbrev pub show_names : Answer → List Message
show_names (failed e) = fetch_error e ∷ []
show_names (done (names l (some n))) = progs n l ∷ []
show_names (done reply) = progs 0 [] ∷ []
