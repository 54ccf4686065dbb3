-- ===== src/Tests/Updates.antt =====
-- Two threads that update the statistics of one system call at once.
use soa_repo.Base.{ℕ, ◌≡◌, refl, arith, false, none, some, [], ◌∷◌, take}
use soa_repo.State.{SyscallStats}
use soa_repo.Stats.{Request}
use soa_repo.Stats.Updates.{
  outside, testing, locking, writing_delay, writing_uid, writing_name, unlocking, System, of_thread,
  to, comes, passes, locks, writes_delay, writes_uid, writes_name, unlocks, registered, Reach, here,
  later,
}
use soa_repo.Stats.Updates.Whole.{is_inside, updates_whole}

abbrev fresh : SyscallStats
fresh = record { syscall_nr = 2; peak_delay = 0; peak_prog_name = []; peak_uid = 0 }

abbrev request : ℕ → Request
request euid = record { sysnum = 2; euid = euid; comm = b'c' ∷ b'a' ∷ b't' ∷ [] }

-- From the lock to the last write, and to the unlock.
abbrev written : ℕ → ℕ → Request → System → System
written i delay r s =
    let a = to i (writing_delay delay r) (record s { stats_lock = some i }) in
    let b =
      to i (writing_uid delay r) (record a { stats = record (a.stats) { peak_delay = delay } }) in
    let c =
      to i (writing_name delay r) (record b { stats = record (b.stats) { peak_uid = r.euid } }) in
    to i (unlocking delay r)
      (record c { stats = record (c.stats) { peak_prog_name = take 15 r.comm } })

abbrev through : ℕ → ℕ → Request → System → System
through i delay r s =
    let t = written i delay r s in
    to i outside (record t { stats_lock = none; last = of_thread delay r t.last })

-- Thread 1 with a delay of 100 and thread 2 with a delay of 50 are both past the test.
abbrev both : System
both = to 2 (locking 50 (request 7)) (
    to 1 (locking 100 (request 6))
      (to 2 (testing 50 (request 7)) (to 1 (testing 100 (request 6)) (registered fresh))))

both-Reach : Reach fresh both
both-Reach =
    let a = later here (comes 1 100 (request 6) refl) in
    let b = later a (comes 2 50 (request 7) refl) in
    let c = later b (passes 1 100 (request 6) refl (omega arith)) in
    later c (passes 2 50 (request 7) refl (omega arith))

abbrev ended : System
ended = through 2 50 (request 7) (through 1 100 (request 6) both)

ended-Reach : Reach fresh ended
ended-Reach =
    let a = later both-Reach (locks 1 100 (request 6) refl refl) in
    let b = later a (writes_delay 1 100 (request 6) refl) in
    let c = later b (writes_uid 1 100 (request 6) refl) in
    let d = later c (writes_name 1 100 (request 6) refl) in
    let e = later d (unlocks 1 100 (request 6) refl) in
    let f = later e (locks 2 50 (request 7) refl refl) in
    let g = later f (writes_delay 2 50 (request 7) refl) in
    let h = later g (writes_uid 2 50 (request 7) refl) in
    let i = later h (writes_name 2 50 (request 7) refl) in later i (unlocks 2 50 (request 7) refl)

updates_whole_example : (ended.stats ≡ ended.last) × ((i : ℕ) → is_inside (ended.pc i) ≡ false)
updates_whole_example = updates_whole fresh ended ended-Reach refl

-- The shorter delay was written last, and is what the statistics hold.
peak_lost : (ended.stats.peak_delay ≡ 50) × (ended.stats.peak_uid ≡ 7)
peak_lost = (refl, refl)
