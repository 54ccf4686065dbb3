-- ===== src/Stats/Updates/Whole.antt =====
-- stats_lock and the three fields that are written under it.
use soa_repo.Base.{
  ℕ, ◌≡◌, refl, arith, none, some, take, ◌==◌, Bool, true, false, Bool-cases, inl, inr, eq_of_==,
  sym, ap,
}
use soa_repo.State.{SyscallStats}
use soa_repo.Stats.{Request}
use soa_repo.Stats.Updates.{
  Pc, outside, testing, locking, writing_delay, writing_uid, writing_name, unlocking, System,
  of_thread, to, Step, comes, passes, goes, locks, writes_delay, writes_uid, writes_name, unlocks,
  Reach, here, later,
}

-- How far the thread that holds the lock has written, over the statistics before it.
abbrev IsWritten : Pc → SyscallStats → SyscallStats → Type 0
IsWritten outside stats last = ⊥
IsWritten (testing delay r) stats last = ⊥
IsWritten (locking delay r) stats last = ⊥
IsWritten (writing_delay delay r) stats last = stats ≡ last
IsWritten (writing_uid delay r) stats last = stats ≡ record last { peak_delay = delay }
IsWritten (writing_name delay r) stats last =
    stats ≡ record last { peak_delay = delay; peak_uid = r.euid }
IsWritten (unlocking delay r) stats last = stats ≡ of_thread delay r last

abbrev pub is_inside : Pc → Bool
is_inside outside = false
is_inside (testing delay r) = false
is_inside (locking delay r) = false
is_inside (writing_delay delay r) = true
is_inside (writing_uid delay r) = true
is_inside (writing_name delay r) = true
is_inside (unlocking delay r) = true

record Inv (s : System) : Type 0 where
  alone : (i : ℕ) → is_inside (s.pc i) ≡ true → s.stats_lock ≡ some i
  held : (i : ℕ) → s.stats_lock ≡ some i → IsWritten (s.pc i) s.stats s.last
  whole : s.stats_lock ≡ none → s.stats ≡ s.last

not_written : (p : Pc) (a b : SyscallStats) → is_inside p ≡ false → IsWritten p a b → ⊥
not_written outside a b h w = w
not_written (testing delay r) a b h w = w
not_written (locking delay r) a b h w = w
not_written (writing_delay delay r) a b h w = cc
not_written (writing_uid delay r) a b h w = cc
not_written (writing_name delay r) a b h w = cc
not_written (unlocking delay r) a b h w = cc

-- A step of a thread that stays outside the lock.
passes-Inv :
    (s : System) (i : ℕ) (p : Pc)
    → is_inside (s.pc i) ≡ false
    → is_inside p ≡ false
    → Inv s
    → Inv (to i p s)
passes-Inv s i p was is v = record {
  alone = λ j. elim (Bool-cases (i == j)) [
    | inl same ↦ rw same (λ e. cc)
    | inr differ ↦ rw differ (v.alone j)
  ];
  held = λ j e. elim (Bool-cases (i == j)) [
    | inl same ↦
        let w = rw (sym (eq_of_== i j same)) at (v.held j e) in
        absurd (not_written (s.pc i) s.stats s.last was w)
    | inr differ ↦ rw differ (v.held j e)
  ];
  whole = v.whole;
}

-- A write of the thread that holds the lock.
writes-Inv :
    (s : System) (i : ℕ) (p : Pc) (stats : SyscallStats)
    → is_inside (s.pc i) ≡ true
    → IsWritten p stats s.last
    → Inv s
    → Inv (to i p (record s { stats = stats }))
writes-Inv s i p stats was is v = record {
  alone = λ j. elim (Bool-cases (i == j)) [
    | inl same ↦ rw same (λ e. rw (sym (eq_of_== i j same)) (v.alone i was))
    | inr differ ↦ rw differ (v.alone j)
  ];
  held = λ j e. elim (Bool-cases (i == j)) [
    | inl same ↦ rw same is
    | inr differ ↦ absurd (ground (arith, v.alone i was))
  ];
  whole = λ e. cc (v.alone i was);
}

locks-Inv :
    (s : System) (i delay : ℕ) (r : Request)
    → s.stats_lock ≡ none
    → Inv s
    → Inv (to i (writing_delay delay r) (record s { stats_lock = some i }))
locks-Inv s i delay r free v = record {
  alone = λ j. elim (Bool-cases (i == j)) [
    | inl same ↦ rw same (λ e. ap some (eq_of_== i j same))
    | inr differ ↦ rw differ (λ e. cc (v.alone j e, free))
  ];
  held = λ j e. elim (Bool-cases (i == j)) [
    | inl same ↦ rw same (v.whole free)
    | inr differ ↦ absurd (ground arith)
  ];
  whole = λ e. cc;
}

unlocks-Inv :
    (s : System) (i delay : ℕ) (r : Request)
    → s.pc i ≡ unlocking delay r
    → Inv s
    → Inv (to i outside (record s { stats_lock = none; last = of_thread delay r s.last }))
unlocks-Inv s i delay r at_pc v =
    let mine = v.alone i (rw at_pc refl) in
    record {
      alone = λ j. elim (Bool-cases (i == j)) [
        | inl same ↦ rw same (λ e. cc)
        | inr differ ↦ rw differ (λ e. absurd (ground (arith, mine, v.alone j e)))
      ];
      held = λ j e. absurd cc;
      whole = λ e. rw at_pc at (v.held i mine);
    }

Step-Inv : {s t : System} → Step s t → Inv s → Inv t
Step-Inv {s} (comes i delay r at_pc) v = passes-Inv s i _ (rw at_pc refl) refl v
Step-Inv {s} (passes i delay r at_pc h) v = passes-Inv s i _ (rw at_pc refl) refl v
Step-Inv {s} (goes i delay r at_pc h) v = passes-Inv s i _ (rw at_pc refl) refl v
Step-Inv {s} (locks i delay r at_pc free) v = locks-Inv s i delay r free v
Step-Inv {s} (writes_delay i delay r at_pc) v =
    let w = rw at_pc at (v.held i (v.alone i (rw at_pc refl))) in
    writes-Inv s i _ _ (rw at_pc refl)
      (ap (λ (x : SyscallStats). record x { peak_delay = delay }) w) v
Step-Inv {s} (writes_uid i delay r at_pc) v =
    let w = rw at_pc at (v.held i (v.alone i (rw at_pc refl))) in
    writes-Inv s i _ _ (rw at_pc refl) (ap (λ (x : SyscallStats). record x { peak_uid = r.euid }) w)
      v
Step-Inv {s} (writes_name i delay r at_pc) v =
    let w = rw at_pc at (v.held i (v.alone i (rw at_pc refl))) in
    writes-Inv s i _ _ (rw at_pc refl)
      (ap (λ (x : SyscallStats). record x { peak_prog_name = take 15 r.comm }) w) v
Step-Inv {s} (unlocks i delay r at_pc) v = unlocks-Inv s i delay r at_pc v

Reach-Inv : {stats : SyscallStats} {s : System} → Reach stats s → Inv s
Reach-Inv here = record { alone = λ i. cc; held = λ i e. absurd cc; whole = λ e. refl }
Reach-Inv (later r step) = Step-Inv step (Reach-Inv r)

-- In every reachable state, with any number of threads that update the statistics of one system call
-- at once: where nobody holds stats_lock no thread is between its lock and its unlock, and the
-- statistics are whole, with delay, user id and name of the last thread that had the lock.
pub updates_whole :
    (stats : SyscallStats) (s : System)
    → Reach stats s
    → s.stats_lock ≡ none
    → (s.stats ≡ s.last) × ((i : ℕ) → is_inside (s.pc i) ≡ false)
updates_whole stats s r free =
    let v = Reach-Inv r in
    (
      v.whole free,
      λ i. elim (Bool-cases (is_inside (s.pc i))) [
        | inl inside ↦ cc (v.alone i inside, free)
        | inr not_inside ↦ not_inside
      ],
    )
