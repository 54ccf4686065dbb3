-- ===== src/Interface/Options.antt =====
-- The `switch` of `main` in user/interface.c.
use soa_repo.Base.{
  ℕ, ◌==◌, List, [], ◌∷◌, none, some, ℤ, pos, negsuc, int_of, ltb, Bool, true, false, if◌then◌else◌,
}
use soa_repo.Kernel.{Kernel}
use soa_repo.Device.{Command, queries, controls}
use soa_repo.Device.Queries.{
  number, get_thread_stats_cmd, get_syscall_stats_cmd, check_syscall_cmd, check_uid_cmd,
  check_prog_cmd, get_number, get_all_syscalls_cmd, get_all_uids_cmd, get_all_progs_cmd,
}
use soa_repo.Device.Controls.{
  register_syscall, register_uid, register_prog, deregister_syscall, deregister_uid,
  deregister_prog, set_max_calls, monitor_on, monitor_off, bytes,
}
use soa_repo.Interface.Stdio.{Stdio, skip_rest}
use soa_repo.Interface.Messages.{
  Message, invalid_choice, bad_value, bad_number, bad_limit, no_memory, ioctl_error,
  syscall_registered, syscall_exists, syscall_deregistered, syscall_missing, uid_registered,
  uid_exists, uid_deregistered, uid_missing, prog_registered, prog_exists, prog_deregistered,
  prog_missing, limit_set, switched_on, already_on, switched_off, already_off, syscall_checked,
  uid_checked, prog_checked, no_syscalls, no_uids, no_progs, syscalls, uids,
}
use soa_repo.Interface.Shows.{
  by_errno, show_thread_stats, show_syscall_stats, show_check, show_number, show_numbers,
  show_names,
}
use soa_repo.Interface.Calls.{
  World, Session, Answer, failed, done, as_unsigned, ioctl, say, call, read_int, read_word,
}

pub data Choice : Type 0 where
  registers_syscall deregisters_syscall registers_uid deregisters_uid registers_prog : Choice
  deregisters_prog sets_limit turns_on turns_off shows_thread_stats shows_syscall_stats : Choice
  checks_syscall checks_uid checks_prog shows_number lists_syscalls lists_uids lists_progs : Choice
  invalid : Choice

-- The labels of the `switch`; 0 ends the program before it.
unfoldable pub choice_of : ℤ → Choice
choice_of (pos n) =
    if n == 1
    then registers_syscall
    else if n == 2
    then registers_uid
    else if n == 3
    then registers_prog
    else if n == 4
    then deregisters_syscall
    else if n == 5
    then deregisters_uid
    else if n == 6
    then deregisters_prog
    else if n == 7
    then sets_limit
    else if n == 8
    then turns_on
    else if n == 9
    then turns_off
    else if n == 10
    then shows_thread_stats
    else if n == 11
    then shows_syscall_stats
    else if n == 12
    then checks_syscall
    else if n == 13
    then checks_uid
    else if n == 14
    then checks_prog
    else if n == 15
    then shows_number
    else if n == 16
    then lists_syscalls
    else if n == 17
    then lists_uids
    else if n == 18
    then lists_progs
    else invalid
choice_of (negsuc n) = invalid

abbrev pub is_negative : ℤ → Bool
is_negative (pos n) = false
is_negative (negsuc n) = true

-- What GET_NUMBER wrote over an `int` that was `old`.
abbrev pub written : ℤ → Answer → ℤ
written old (done (number z)) = int_of (as_unsigned z)
written old answer = old

module _ (K : Kernel) (io : Stdio) (w : World) where
  abbrev pub ask_int : Session K → Session K
  ask_int s = let (z, t) = read_int K io s.int_val s in record t { int_val = z }

  -- An `int` is read into a `uid_t`.
  abbrev pub ask_uid : Session K → Session K
  ask_uid s =
      let (z, t) = read_int K io (int_of s.uid_val) s in record t { uid_val = as_unsigned z }

  abbrev pub ask_word : Session K → Session K
  ask_word s =
      let (word, t) = read_word K io s.str_val s in
      record t { str_val = word; input = skip_rest t.input }

  -- The commands that take a system call, a user id or the name of a program. The test of a user id is
  -- of `int_val`.
  unfoldable pub with_syscall : (ℤ → Command) → (ℤ → Answer → List Message) → Session K → Session K
  with_syscall cmd show s =
      let t = ask_int s in
      if is_negative t.int_val
      then say K w (bad_value ∷ []) t
      else call K w (cmd t.int_val) (show t.int_val) t

  unfoldable pub with_uid : (ℕ → Command) → (ℕ → Answer → List Message) → Session K → Session K
  with_uid cmd show s =
      let t = ask_uid s in
      if is_negative t.int_val
      then say K w (bad_value ∷ []) t
      else call K w (cmd t.uid_val) (show t.uid_val) t

  unfoldable pub with_prog :
      (List ℕ → Command) → (List ℕ → Answer → List Message) → Session K → Session K
  with_prog cmd show s = let t = ask_word s in call K w (cmd t.str_val) (show t.str_val) t

  -- Options 16 to 18: a variable with `choose` is overwritten by the number of entries, and then an
  -- array of that length is filled. After GET_NUMBER the number is not negative.
  unfoldable pub fill :
      ℤ → Message → (ℕ → ℕ → Command) → (Answer → List Message) → Session K → Answer → Session K
  fill choose none_there cmd show t (failed e) = say K w (ioctl_error e ∷ []) t
  fill choose none_there cmd show t (done reply) =
      let count = as_unsigned (written choose (done reply)) in
      if count == 0 then say K w (none_there ∷ []) t else elim (w.malloc t.calls) [
        | none ↦ say K w (no_memory ∷ []) t
        | some array ↦ call K w (cmd array count) show t
      ]

  unfoldable pub fetch :
      ℤ → Message → (ℕ → ℕ → Command) → (Answer → List Message) → Session K → Session K
  fetch choose none_there cmd show s =
      let (t, answer) = ioctl K w (queries (get_number (some choose))) s in
      fill choose none_there cmd show t answer

  -- Option 15, with the number read.
  unfoldable pub number_shown : Session K → Session K
  number_shown t =
      if is_negative t.int_val
      then say K w (bad_number ∷ []) t
      else if ltb 2 (as_unsigned t.int_val)
      then say K w (bad_number ∷ []) t
      else (let (u, answer) = ioctl K w (queries (get_number (some t.int_val))) t in
          let z = written t.int_val answer in
          say K w (show_number z answer) (record u { int_val = z }))

  unfoldable pub dispatch : Choice → Session K → Session K
  dispatch registers_syscall s =
      with_syscall (λ nr. controls (register_syscall (some nr)))
        (λ nr. by_errno 17 (syscall_registered nr) (syscall_exists nr)) s
  dispatch deregisters_syscall s =
      with_syscall (λ nr. controls (deregister_syscall (some nr)))
        (λ nr. by_errno 2 (syscall_deregistered nr) (syscall_missing nr)) s
  dispatch registers_uid s =
      with_uid (λ uid. controls (register_uid (some uid)))
        (λ uid. by_errno 17 (uid_registered uid) (uid_exists uid)) s
  dispatch deregisters_uid s =
      with_uid (λ uid. controls (deregister_uid (some uid)))
        (λ uid. by_errno 2 (uid_deregistered uid) (uid_missing uid)) s
  dispatch registers_prog s =
      with_prog (λ name. controls (register_prog (bytes name)))
        (λ name. by_errno 17 (prog_registered name) (prog_exists name)) s
  dispatch deregisters_prog s =
      with_prog (λ name. controls (deregister_prog (bytes name)))
        (λ name. by_errno 2 (prog_deregistered name) (prog_missing name)) s
  dispatch sets_limit s =
      let t = ask_int s in
      call K w (controls (set_max_calls (some t.int_val)))
        (by_errno 22 (limit_set t.int_val) bad_limit) t
  dispatch turns_on s = call K w (controls monitor_on) (by_errno 114 switched_on already_on) s
  dispatch turns_off s = call K w (controls monitor_off) (by_errno 114 switched_off already_off) s
  dispatch shows_thread_stats s =
      let t = ask_int s in
      call K w (queries (get_thread_stats_cmd (some t.int_val))) show_thread_stats t
  dispatch shows_syscall_stats s =
      let (nr, t) = read_int K io (pos 0) s in
      call K w (queries (get_syscall_stats_cmd (some nr))) (show_syscall_stats nr) t
  dispatch checks_syscall s =
      let (nr, t) = read_int K io (pos 0) s in
      call K w (queries (check_syscall_cmd (some nr))) (show_check (syscall_checked nr)) t
  dispatch checks_uid s =
      let (z, t) = read_int K io (pos 0) s in
      call K w (queries (check_uid_cmd (some (as_unsigned z))))
        (show_check (uid_checked (as_unsigned z))) t
  dispatch checks_prog s =
      let (name, t) = read_word K io [] s in
      call K w (queries (check_prog_cmd (some name))) (show_check (prog_checked name))
        (record t { input = skip_rest t.input })
  dispatch shows_number s = number_shown (ask_int s)
  dispatch lists_syscalls s =
      fetch (pos 0) no_syscalls
        (λ array count.
          queries (get_all_syscalls_cmd (some (record { list = array; max = count }))))
        (show_numbers syscalls) s
  dispatch lists_uids s =
      fetch (pos 1) no_uids
        (λ array count. queries (get_all_uids_cmd (some (record { list = array; max = count }))))
        (show_numbers uids) s
  dispatch lists_progs s =
      fetch (pos 2) no_progs
        (λ array count. queries (get_all_progs_cmd (some (record { list = array; max = count }))))
        (show_names) s
  dispatch invalid s = say K w (invalid_choice ∷ []) s
