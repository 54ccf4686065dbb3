-- ===== src/Tests/Rcu.antt =====
-- A reader that stands on an entry while it is taken out.
use soa_repo.Base.{ℕ, ◌≡◌, ◌≢◌, ◌⊎◌, refl, arith, true}
use soa_repo.Rcu.{
  free, Chain, hash_add_rcu, hash_del_rcu, give_back, rcu_read_lock, first_entry, adds, removes,
  locks, starts, empty, Reach, here, later,
}
use soa_repo.Rcu.Safety.{reader_safe}

program : ℕ
unfolding hash_add_rcu hash_del_rcu give_back rcu_read_lock first_entry
program = 0

-- Entries 8 and 5 are registered, thread 2 comes to 5, and 5 is deregistered.
abbrev two : Chain
two = hash_add_rcu 5 (hash_add_rcu 8 empty)

abbrev on_five : Chain
on_five = first_entry 2 (rcu_read_lock 2 two)

abbrev taken_out : Chain
taken_out = hash_del_rcu 5 on_five

taken_out-Reach : Reach taken_out
unfolding program
taken_out-Reach =
    let one : Reach (hash_add_rcu 8 empty) = later here (adds 8 (omega arith) refl) in
    let both : Reach two = later one (adds 5 (omega arith) refl) in
    let inside : Reach (rcu_read_lock 2 two) = later both (locks 2 refl) in
    let standing : Reach on_five = later inside (starts 2 refl) in later standing (removes 5 refl)

reader_safe_example :
    (taken_out.status (taken_out.curr 2) ≢ free)
    × ((taken_out.next (taken_out.curr 2) ≡ 0)
        ⊎ (taken_out.status (taken_out.next (taken_out.curr 2)) ≢ free))
unfolding program
reader_safe_example = reader_safe taken_out 2 taken_out-Reach (λ e. cc)

-- cleanup_rcu takes entries out after its synchronize_rcu and gives them back at once, which is no
-- step here: thread 2 is left on an entry that is free.
at_once : (give_back 5 taken_out).status ((give_back 5 taken_out).curr 2) ≡ free
unfolding program
at_once = refl

awaited : taken_out.waits 5 2 ≡ true
unfolding program
awaited = refl
