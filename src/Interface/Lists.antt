-- ===== src/Interface/Lists.antt =====
-- Option 17 of the interface, which lists user ids, compared with the registries.
use soa_repo.Base.{
  ℕ, zero, suc, ◌+◌, ◌<◌, ◌≤◌, ◌^◌, ◌≡◌, ◌≢◌, ◌⊎◌, refl, ap, arith, List, [], ◌∷◌, ◌++◌, ◌==◌, some,
  pos, length, min, count, Bool-cases, inl, inr, true, false, if◌then◌else◌, int_of,
}
use soa_repo.Kernel.{Kernel}
use soa_repo.State.{is}
use soa_repo.Registry.Validity.{IsValid}
use soa_repo.Registry.Uid.{check_uid, get_all_uids}
use soa_repo.Registry.Uid.Listing.{get_all_uids-check_uid}
use soa_repo.Device.{queries, throttling_ioctl}
use soa_repo.Device.Queries.{Env, number, query, get_number, get_all_uids_cmd, do_all_uids}
use soa_repo.Device.Numbers.{get_number-length}
use soa_repo.Interface.Stdio.{Stdio}
use soa_repo.Interface.Messages.{no_uids, uids}
use soa_repo.Interface.Shows.{show_numbers}
use soa_repo.Interface.Calls.{World, Session, answer_of, done, ioctl, call, as_unsigned}
use soa_repo.Interface.Options.{lists_uids, fetch, fill, dispatch}

zero_or_more : (n : ℕ) → (n ≡ 0) ⊎ ((m : ℕ) × (n ≡ suc m))
zero_or_more zero = inl refl
zero_or_more (suc m) = inr (m, refl)

nil_of_length : (l : List ℕ) → length l ≡ 0 → l ≡ []
nil_of_length [] h = refl
nil_of_length (x ∷ l) h = absurd (omega arith)

module _ (K : Kernel) (io : Stdio) (w : World) (original : ℕ → ℕ) (s : Session K)
    (v : IsValid K original s.shared) where
  -- What the device meets at the next two calls, and the numbers of entries.
  abbrev pub first : Env
  first = w.env s.calls s.shared.heap

  abbrev pub second : Env
  second = w.env (s.calls + 1) s.shared.heap

  abbrev pub n_syscalls : ℕ
  n_syscalls = length (K.hack_api.all s.shared.hacked_syscall_hash)

  abbrev pub n_uids : ℕ
  n_uids = length (K.uid_api.all s.shared.uid_hash)

  abbrev pub n_progs : ℕ
  n_progs = length (K.prog_api.all s.shared.prog_hash)

  module _ (p array : ℕ) (few_syscalls : n_syscalls < 2 ^ 31) (few_uids : n_uids < 2 ^ 31)
      (few_progs : n_progs < 2 ^ 31) (copies : first.first_copy ≡ true)
      (copies_too : second.first_copy ≡ true) (copies_last : second.second_copy ≡ true)
      (mem : second.first_mem ≡ some p) (allocated : w.malloc (s.calls + 1) ≡ some array)
      (valid_pointer : array ≢ 0) where
    number_answer :
        ioctl K w (queries (get_number (some (pos 1)))) s
        ≡ (record s { calls = s.calls + 1 }, done (number (pos n_syscalls)))
    unfolding ioctl throttling_ioctl
    number_answer =
        let (for_uids, for_syscalls, for_progs) =
          get_number-length K original first s.shared v copies few_uids few_syscalls few_progs in
        rw (ioctl, throttling_ioctl, for_syscalls) refl

    -- The user ids that come back, for an array with as many places as there are system calls.
    abbrev pub listed : List ℕ
    listed = (get_all_uids K (some p) (pos n_syscalls) s.shared).2

    list_answer :
        n_syscalls ≢ 0
        → show_numbers uids (
            answer_of
              (query K second
                (get_all_uids_cmd (some (record { list = array; max = n_syscalls })))
                s.shared).1
              (query K second
                (get_all_uids_cmd (some (record { list = array; max = n_syscalls })))
                s.shared).2)
          ≡ uids (length listed) listed ∷ []
    unfolding query do_all_uids
    list_answer some_there =
        let int : int_of n_syscalls ≡ pos n_syscalls = ground arith in
        let some_places : (n_syscalls == 0) ≡ false = ground arith in
        let some_array : (array == 0) ≡ false = ground arith in
        let result = (get_all_uids-check_uid K original s.shared v p n_syscalls (omega arith)).0 in
        elim (zero_or_more (length listed)) [
          | inl nobody ↦
              rw (query, do_all_uids, int, mem, some_places, some_array, result, nobody)
                (ground (arith, nil_of_length listed nobody))
          | inr (n, somebody) ↦
              rw
                (
                  query, do_all_uids, int, mem, some_places, some_array, result, somebody,
                  copies_too, copies_last,
                )
                refl
        ]

    count_of_number : as_unsigned (int_of (as_unsigned (pos n_syscalls))) ≡ n_syscalls
    count_of_number = ground arith

    after_number :
        dispatch K io w lists_uids s
        ≡ fill K io w
            (pos 1)
            no_uids
            (λ a count. queries (get_all_uids_cmd (some (record { list = a; max = count }))))
            (show_numbers uids)
            (record s { calls = s.calls + 1 })
            (done (number (pos n_syscalls)))
    unfolding dispatch fetch
    after_number = rw (dispatch, fetch, number_answer) refl

    shown :
        (dispatch K io w lists_uids s).output
        ≡ s.output ++ (if n_syscalls == 0 then no_uids else uids (length listed) listed) ∷ []
    unfolding fill call ioctl throttling_ioctl
    shown = elim (Bool-cases (n_syscalls == 0)) [
      | inl none_there ↦ rw (after_number, fill, count_of_number, none_there) refl
      | inr some_there ↦
          rw (after_number, fill, count_of_number, some_there, allocated, count_of_number)
            (ap (λ l. s.output ++ l) (list_answer (ground arith)))
    ]

    -- With fewer than 2^31 entries in each registry, with memory for the module and for the interface,
    -- and with every copy to user space going through: option 17 asks with 1 for the number of its
    -- entries, which is the number of system calls: where none is registered it says that there is no
    -- user id, and otherwise it lists so many registered user ids, each once, or all of them if there
    -- are fewer.
    pub lists_uids-check_uid :
        (u : ℕ)
        → ((dispatch K io w lists_uids s).output
            ≡ s.output ++ (if n_syscalls == 0 then no_uids else uids (length listed) listed) ∷ [])
          × (length listed ≡ min n_syscalls n_uids)
          × (count (is u) listed ≤ check_uid K u s.shared)
    lists_uids-check_uid u =
        let (result, size, member, all) =
          get_all_uids-check_uid K original s.shared v p n_syscalls (omega arith) in
        (shown, size, member u)
