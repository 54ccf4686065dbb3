-- ===== src/Interface/Keeps.antt =====
-- A property of the session that reading, printing and each command keep is kept by every option.
use mathlib.Core.Path.{subst}
use soa_repo.Base.{
  ℕ, ◌≤◌, sym, arith, List, [], some, ℤ, pos, negsuc, int_of, length, inl, inr, Bool-cases,
  Option-cases, ◌==◌, ltb,
}
use soa_repo.Kernel.{Kernel}
use soa_repo.Device.{Command, queries, controls}
use soa_repo.Device.Queries.{
  nothing, thread_stats, syscall_stats, check, number, numbers, names, get_number,
}
use soa_repo.Device.Controls.{set_max_calls}
use soa_repo.Device.Steps.{FitsInt}
use soa_repo.Interface.Stdio.{Stdio, IntFits, skip_rest}
use soa_repo.Interface.Messages.{Message}
use soa_repo.Interface.Calls.{
  World, Session, Answer, failed, done, ioctl, say, call, read_int, read_word, as_unsigned,
}
use soa_repo.Interface.Reading.{read_int_lem, read_word_lem, length-skip_rest}
use soa_repo.Interface.Options.{
  Choice, registers_syscall, deregisters_syscall, registers_uid, deregisters_uid, registers_prog,
  deregisters_prog, sets_limit, turns_on, turns_off, shows_thread_stats, shows_syscall_stats,
  checks_syscall, checks_uid, checks_prog, shows_number, lists_syscalls, lists_uids, lists_progs,
  invalid, ask_int, ask_uid, ask_word, with_syscall, with_uid, with_prog, fill, fetch, number_shown,
  written, is_negative, dispatch,
}

pub int_of-IntFits : (w : ℕ) → IntFits (int_of w)
int_of-IntFits w = ground arith

limit_fits : (K : Kernel) (z : ℤ) → IntFits z → FitsInt (controls (set_max_calls (some z)))
limit_fits K (pos n) h = h
limit_fits K (negsuc n) h = tt

written-IntFits : (old : ℤ) (a : Answer) → IntFits old → IntFits (written old a)
written-IntFits old (failed e) h = h
written-IntFits old (done (number z)) h = int_of-IntFits (as_unsigned z)
written-IntFits old (done nothing) h = h
written-IntFits old (done (thread_stats t)) h = h
written-IntFits old (done (syscall_stats t)) h = h
written-IntFits old (done (check n)) h = h
written-IntFits old (done (numbers l n)) h = h
written-IntFits old (done (names l n)) h = h

module _ (K : Kernel) (io : Stdio) (w : World) (P : Session K → Type 0)
    (fits : (s : Session K) → P s → IntFits s.int_val)
    (told : (s : Session K) (m : List Message) → P s → P (say K w m s))
    (asked : (s : Session K) (cmd : Command) → FitsInt cmd → P s → P (ioctl K w cmd s).0)
    (reads : (s : Session K) (input : List ℕ) (int_val : ℤ) (uid_val : ℕ) (str_val : List ℕ)
      → length input ≤ length s.input
      → IntFits int_val
      → P s
      → P (record s {
        input = input;
        int_val = int_val;
        uid_val = uid_val;
        str_val = str_val;
      })) where
  called :
      (cmd : Command) (show : Answer → List Message) (s : Session K)
      → FitsInt cmd
      → P s
      → P (call K w cmd show s)
  unfolding call
  called cmd show s h p = told (ioctl K w cmd s).0 (show (ioctl K w cmd s).1) (asked s cmd h p)

  shorter :
      (s : Session K) (input : List ℕ)
      → length input ≤ length s.input
      → P s
      → P (record s { input = input })
  shorter s input h p = reads s input s.int_val s.uid_val s.str_val h (fits s p) p

  after_read : (old : ℤ) (s : Session K) → IntFits old → P s → P (read_int K io old s).1
  after_read old s h p =
      let (le, z_fits, e) = read_int_lem K io old s h in
      subst P (sym e) (shorter s (read_int K io old s).1.input le p)

  asked_int : (s : Session K) → P s → P (ask_int K io w s)
  asked_int s p =
      let (le, z_fits, e) = read_int_lem K io s.int_val s (fits s p) in
      subst (λ t. P (record t { int_val = (read_int K io s.int_val s).0 })) (sym e)
        (reads s (read_int K io s.int_val s).1.input (read_int K io s.int_val s).0 s.uid_val
          s.str_val le z_fits p)

  asked_uid : (s : Session K) → P s → P (ask_uid K io w s)
  asked_uid s p =
      let (le, z_fits, e) = read_int_lem K io (int_of s.uid_val) s (int_of-IntFits s.uid_val) in
      let uid = as_unsigned (read_int K io (int_of s.uid_val) s).0 in
      subst (λ t. P (record t { uid_val = uid })) (sym e)
        (reads s (read_int K io (int_of s.uid_val) s).1.input s.int_val uid s.str_val le (fits s p)
          p)

  asked_word : (s : Session K) → P s → P (ask_word K io w s)
  asked_word s p =
      let (le, e) = read_word_lem K io s.str_val s in
      let rest = (read_word K io s.str_val s).1.input in
      let word = (read_word K io s.str_val s).0 in
      subst (λ t. P (record t { str_val = word; input = skip_rest rest })) (sym e)
        (reads s (skip_rest rest) s.int_val s.uid_val word
          (omega (arith, le, length-skip_rest rest)) (fits s p) p)

  syscall_keeps :
      (cmd : ℤ → Command) (show : ℤ → Answer → List Message)
      → ((nr : ℤ) → FitsInt (cmd nr))
      → (s : Session K) → P s
      → P (with_syscall K io w cmd show s)
  unfolding with_syscall
  syscall_keeps cmd show h s p = elim (Bool-cases (is_negative (ask_int K io w s).int_val)) [
    | inl e ↦ rw (e, with_syscall) (told (ask_int K io w s) _ (asked_int s p))
    | inr e ↦
        rw (e, with_syscall)
          (called _ _ (ask_int K io w s) (h (ask_int K io w s).int_val) (asked_int s p))
  ]

  uid_keeps :
      (cmd : ℕ → Command) (show : ℕ → Answer → List Message)
      → ((uid : ℕ) → FitsInt (cmd uid))
      → (s : Session K) → P s
      → P (with_uid K io w cmd show s)
  unfolding with_uid
  uid_keeps cmd show h s p = elim (Bool-cases (is_negative (ask_uid K io w s).int_val)) [
    | inl e ↦ rw (e, with_uid) (told (ask_uid K io w s) _ (asked_uid s p))
    | inr e ↦
        rw (e, with_uid)
          (called _ _ (ask_uid K io w s) (h (ask_uid K io w s).uid_val) (asked_uid s p))
  ]

  prog_keeps :
      (cmd : List ℕ → Command) (show : List ℕ → Answer → List Message)
      → ((name : List ℕ) → FitsInt (cmd name))
      → (s : Session K) → P s
      → P (with_prog K io w cmd show s)
  unfolding with_prog
  prog_keeps cmd show h s p =
      called _ _ (ask_word K io w s) (h (ask_word K io w s).str_val) (asked_word s p)

  fill_keeps :
      (choose : ℤ) (none_there : Message) (cmd : ℕ → ℕ → Command) (show : Answer → List Message)
      → ((array count : ℕ) → FitsInt (cmd array count))
      → (t : Session K) (answer : Answer) → P t
      → P (fill K io w choose none_there cmd show t answer)
  unfolding fill
  fill_keeps choose none_there cmd show h t (failed e) p = told t _ p
  fill_keeps choose none_there cmd show h t (done reply) p =
      elim (Bool-cases (as_unsigned (written choose (done reply)) == 0)) [
        | inl zero ↦ rw (fill, zero) (told t _ p)
        | inr some_there ↦ elim (Option-cases (w.malloc t.calls)) [
          | inl no_memory ↦ rw (fill, some_there, no_memory) (told t _ p)
          | inr (array, allocated) ↦ rw (fill, some_there, allocated) (called _ _ t (h array _) p)
        ]
      ]

  fetch_keeps :
      (choose : ℤ) (none_there : Message) (cmd : ℕ → ℕ → Command) (show : Answer → List Message)
      → ((array count : ℕ) → FitsInt (cmd array count))
      → (s : Session K) → P s
      → P (fetch K io w choose none_there cmd show s)
  unfolding fetch
  fetch_keeps choose none_there cmd show h s p =
      let ask = queries (get_number (some choose)) in
      fill_keeps choose none_there cmd show h (ioctl K w ask s).0 (ioctl K w ask s).1
        (asked s ask tt p)

  number_keeps : (t : Session K) → P t → P (number_shown K io w t)
  unfolding number_shown
  number_keeps t p = elim (Bool-cases (is_negative t.int_val)) [
    | inl e ↦ rw (e, number_shown) (told t _ p)
    | inr e ↦ elim (Bool-cases (ltb 2 (as_unsigned t.int_val))) [
      | inl large ↦ rw (e, number_shown, large) (told t _ p)
      | inr small ↦
          rw (e, number_shown, small)
            (let cmd = queries (get_number (some t.int_val)) in
              let u = (ioctl K w cmd t).0 in
              let z = written t.int_val (ioctl K w cmd t).1 in
              told (record u { int_val = z }) _
                (reads u u.input z u.uid_val u.str_val (omega arith)
                  (written-IntFits t.int_val (ioctl K w cmd t).1 (fits t p)) (asked t cmd tt p)))
    ]
  ]

  name_keeps :
      (s : Session K)
      → P s
      → P (record ((read_word K io [] s).1) { input = skip_rest (read_word K io [] s).1.input })
  name_keeps s p =
      let (le, e) = read_word_lem K io [] s in
      let rest = (read_word K io [] s).1.input in
      subst (λ t. P (record t { input = skip_rest rest })) (sym e)
        (shorter s (skip_rest rest) (omega (arith, le, length-skip_rest rest)) p)

  pub dispatch_keeps : (c : Choice) (s : Session K) → P s → P (dispatch K io w c s)
  unfolding dispatch
  dispatch_keeps registers_syscall s p = syscall_keeps _ _ (λ nr. tt) s p
  dispatch_keeps deregisters_syscall s p = syscall_keeps _ _ (λ nr. tt) s p
  dispatch_keeps registers_uid s p = uid_keeps _ _ (λ uid. tt) s p
  dispatch_keeps deregisters_uid s p = uid_keeps _ _ (λ uid. tt) s p
  dispatch_keeps registers_prog s p = prog_keeps _ _ (λ name. tt) s p
  dispatch_keeps deregisters_prog s p = prog_keeps _ _ (λ name. tt) s p
  dispatch_keeps sets_limit s p =
      let t = ask_int K io w s in
      called _ _ t (limit_fits K t.int_val (fits t (asked_int s p))) (asked_int s p)
  dispatch_keeps turns_on s p = called _ _ s tt p
  dispatch_keeps turns_off s p = called _ _ s tt p
  dispatch_keeps shows_thread_stats s p = called _ _ (ask_int K io w s) tt (asked_int s p)
  dispatch_keeps shows_syscall_stats s p = called _ _ _ tt (after_read (pos 0) s (omega arith) p)
  dispatch_keeps checks_syscall s p = called _ _ _ tt (after_read (pos 0) s (omega arith) p)
  dispatch_keeps checks_uid s p = called _ _ _ tt (after_read (pos 0) s (omega arith) p)
  dispatch_keeps checks_prog s p = called _ _ _ tt (name_keeps s p)
  dispatch_keeps shows_number s p = number_keeps (ask_int K io w s) (asked_int s p)
  dispatch_keeps lists_syscalls s p = fetch_keeps _ _ _ _ (λ array count. tt) s p
  dispatch_keeps lists_uids s p = fetch_keeps _ _ _ _ (λ array count. tt) s p
  dispatch_keeps lists_progs s p = fetch_keeps _ _ _ _ (λ array count. tt) s p
  dispatch_keeps invalid s p = told s _ p
