-- ===== src/Spam/Calls.antt =====
-- The calls of SYS_open that the test program makes, and its descriptors.
use soa_repo.Base.{
  ℕ, zero, suc, ◌+◌, ◌*◌, ◌≤◌, ◌<◌, ◌≡◌, refl, arith, Bool, true, false, ◌==◌, Bool-cases, inl, inr,
  List, ◌∷◌, count, to_nat, eq_of_==, ltb, sym, ==_refl, ◌∙◌,
}
use soa_repo.State.{update, is, kfree, count-kfree}
use soa_repo.Spam.{
  Pc, unborn, ended, looping, closing, Main, creating, joining, exit_success, exit_failure, Process,
  to, num_threads, num_opens_per_thread, Step, creates, cannot_create, has_created, joins,
  has_joined, opens_file, cannot_open, closes, ends, Reach, here, later,
}

-- A number of each of the first `n` threads, added up.
unfoldable sum : (Pc → ℕ) → ℕ → (ℕ → Pc) → ℕ
sum f zero pc = 0
sum f (suc n) pc = f (pc n) + sum f n pc

sum-update_above :
    (f : Pc → ℕ) (n : ℕ) (pc : ℕ → Pc) (j : ℕ) (p : Pc)
    → n ≤ j
    → sum f n (update pc j p) ≡ sum f n pc
unfolding sum
sum-update_above f zero pc j p h = refl
sum-update_above f (suc n) pc j p h =
    let other : (j == n) ≡ false = ground arith in
    rw other (omega (arith, sum-update_above f n pc j p (omega arith)))

sum-update :
    (f : Pc → ℕ) (n : ℕ) (pc : ℕ → Pc) (j : ℕ) (p : Pc)
    → j < n
    → sum f n (update pc j p) + f (pc j) ≡ sum f n pc + f p
unfolding sum
sum-update f zero pc j p h = absurd (omega arith)
sum-update f (suc n) pc j p h = elim (Bool-cases (j == n)) [
  | inl same ↦ ground (arith, sum-update_above f n pc j p)
  | inr other ↦ rw other (omega (arith, sum-update f n pc j p (ground arith)))
]

sum_same :
    (f : Pc → ℕ) (n : ℕ) (pc : ℕ → Pc) (m : ℕ)
    → ((j : ℕ) → j < n → f (pc j) ≡ m)
    → sum f n pc ≡ n * m
unfolding sum
sum_same f zero pc m h = grind arith
sum_same f (suc n) pc m h =
    grind (arith, h n (omega arith), sum_same f n pc m (λ j lt. h j (omega arith)))

-- The calls that a thread has made, and whether it holds a descriptor.
abbrev done : Pc → ℕ
done unborn = 0
done ended = num_opens_per_thread
done (looping i) = i
done (closing i fd) = i + 1

abbrev holds : ℕ → Pc → ℕ
holds fd (closing i f) = to_nat (f == fd)
holds fd p = 0

-- How many threads `main` has joined; a process that failed has made no promise.
abbrev joined : Main → ℕ
joined (creating k) = 0
joined (joining k) = k
joined exit_success = num_threads
joined exit_failure = 0

record Inv (files : List ℕ) (s : Process) : Type 0 where
  counted : s.opens ≡ sum done num_threads s.pc
  held : (fd : ℕ) → count (is fd) s.files ≡ count (is fd) files + sum (holds fd) num_threads s.pc
  over : (j : ℕ) → j < joined s.in_main → s.pc j ≡ ended
  nobody : (j : ℕ) → num_threads ≤ j → s.pc j ≡ unborn
  waiting : (k j : ℕ) → s.in_main ≡ creating k → k ≤ j → s.pc j ≡ unborn

-- In its loop.
abbrev is_working : Pc → Bool
is_working unborn = false
is_working ended = false
is_working (looping i) = true
is_working (closing i fd) = true

idle-works : (p q : Pc) → p ≡ q → is_working q ≡ false → is_working p ≡ true → ⊥
idle-works p q e idle works = cc

working-lt :
    {files : List ℕ} (s : Process) (j : ℕ)
    → Inv files s
    → is_working (s.pc j) ≡ true
    → j < num_threads
working-lt s j inv works = elim (Bool-cases (ltb j num_threads)) [
  | inl lt ↦ ground arith
  | inr le ↦
      let none = inv.nobody j (ground arith) in absurd (idle-works (s.pc j) unborn none refl works)
]

-- A thread in its loop goes on.
goes_on :
    {files : List ℕ} (s : Process) (j : ℕ) (p : Pc) (now : List ℕ) (opens : ℕ)
    → Inv files s
    → is_working (s.pc j) ≡ true
    → opens + done (s.pc j) ≡ s.opens + done p
    → ((fd : ℕ) → count (is fd) now + holds fd (s.pc j) ≡ count (is fd) s.files + holds fd p)
    → Inv files (to j p (record s { files = now; opens = opens }))
goes_on {files} s j p now opens inv works calls descriptors = record {
  counted = omega (arith, sum-update done num_threads s.pc j p lt, inv.counted, calls);
  held = λ fd.
      omega (arith, sum-update (holds fd) num_threads s.pc j p lt, inv.held fd, descriptors fd);
  over = λ k le. other k ended (inv.over k le) refl;
  nobody = λ k le. other k unborn (inv.nobody k le) refl;
  waiting = λ m k at le. other k unborn (inv.waiting m k at le) refl;
}
  where
    lt : j < num_threads
    lt = working-lt s j inv works

    other : (k : ℕ) (q : Pc) → s.pc k ≡ q → is_working q ≡ false → update s.pc j p k ≡ q
    other k q at idle = elim (Bool-cases (j == k)) [
      | inl same ↦ absurd (idle-works (s.pc k) q at idle (rw (sym (eq_of_== j k same)) works))
      | inr differs ↦ rw differs at
    ]

-- `main` goes on, and the threads stay where they are.
main_goes_on :
    {files : List ℕ} (s : Process) (m : Main)
    → Inv files s
    → ((j : ℕ) → j < joined m → s.pc j ≡ ended)
    → ((k : ℕ) → m ≡ creating k → ⊥)
    → Inv files (record s { in_main = m })
main_goes_on s m inv all past = record {
  counted = inv.counted;
  held = inv.held;
  over = all;
  nobody = inv.nobody;
  waiting = λ k j at le. absurd (past k at);
}

unborn-Inv :
    {files : List ℕ} (s : Process) (k : ℕ)
    → Inv files s
    → s.in_main ≡ creating k
    → k < num_threads
    → Inv files (to k (looping 0) (record s { in_main = creating (k + 1) }))
unborn-Inv s k inv at lt = record {
  counted =
      let new = inv.waiting k k at (omega arith) in
      let none : done (s.pc k) ≡ 0 = rw new refl in
      omega (arith, sum-update done num_threads s.pc k (looping 0) lt, inv.counted, none);
  held = λ fd.
      let new = inv.waiting k k at (omega arith) in
      let none : holds fd (s.pc k) ≡ 0 = rw new refl in
      omega (arith, sum-update (holds fd) num_threads s.pc k (looping 0) lt, inv.held fd, none);
  over = λ j none. absurd (omega arith);
  nobody = λ j le. let differs : (k == j) ≡ false = ground arith in rw differs (inv.nobody j le);
  waiting = λ m j e le.
      let next : m ≡ k + 1 = cc in
      let differs : (k == j) ≡ false = ground arith in
      rw differs (inv.waiting k j at (omega arith));
}

-- The threads that `main` has joined are over, also when one more is joined.
joins-over :
    {files : List ℕ} (s : Process) (k : ℕ)
    → Inv files s
    → s.in_main ≡ joining k
    → s.pc k ≡ ended
    → (j : ℕ) → j < k + 1
    → s.pc j ≡ ended
joins-over s k inv at end j lt = elim (Bool-cases (j == k)) [
  | inl same ↦ rw (eq_of_== j k same) end
  | inr differs ↦ inv.over j (rw at (ground arith))
]

-- A thread that holds a descriptor holds an open one.
holds-open :
    {files : List ℕ} (s : Process) (j i fd : ℕ)
    → Inv files s
    → s.pc j ≡ closing i fd
    → 1 ≤ count (is fd) s.files
holds-open s j i fd inv at =
    let lt = working-lt s j inv (rw at refl) in
    let one : holds fd (s.pc j) ≡ 1 = rw at (rw (==_refl fd) refl) in
    omega (arith, sum-update (holds fd) num_threads s.pc j unborn lt, inv.held fd, one)

Step-Inv : {files : List ℕ} {s t : Process} → Inv files s → Step s t → Inv files t
unfolding count
Step-Inv {files} {s} inv (creates k at lt) = unborn-Inv s k inv at lt
Step-Inv {files} {s} inv (cannot_create k at lt) =
    main_goes_on s exit_failure inv (λ j none. absurd (omega arith)) (λ m e. cc)
Step-Inv {files} {s} inv (has_created at) =
    main_goes_on s (joining 0) inv (λ j none. absurd (omega arith)) (λ m e. cc)
Step-Inv {files} {s} inv (joins k at lt end) =
    main_goes_on s (joining (k + 1)) inv (joins-over s k inv at end) (λ m e. cc)
Step-Inv {files} {s} inv (has_joined at) =
    main_goes_on s exit_success inv (λ j le. inv.over j (rw at le)) (λ m e. cc)
Step-Inv {files} {s} inv (opens_file j i fd on at lt new) =
    goes_on s j (closing i fd) (fd ∷ s.files) (s.opens + 1) inv (rw at refl) (rw at (omega arith))
      (λ g. rw at (omega arith))
Step-Inv {files} {s} inv (cannot_open j i on at lt) =
    goes_on s j (looping (i + 1)) s.files (s.opens + 1) inv (rw at refl) (rw at (omega arith))
      (λ g. rw at refl)
Step-Inv {files} {s} inv (closes j i fd on at) =
    goes_on s j (looping (i + 1)) (kfree fd s.files) s.opens inv (rw at refl) (rw at refl)
      (λ g. rw at (omega (arith, count-kfree fd g s.files (holds-open s j i fd inv at))))
Step-Inv {files} {s} inv (ends j on at) =
    goes_on s j ended s.files s.opens inv (rw at refl) (rw at refl) (λ g. rw at refl)

Reach-Inv : {files : List ℕ} {s : Process} → Reach files s → Inv files s
unfolding sum
Reach-Inv {files} here = record {
  counted = refl;
  held = λ fd. omega arith;
  over = λ j none. absurd (omega arith);
  nobody = λ j le. refl;
  waiting = λ k j at le. refl;
}
Reach-Inv (later path step) = Step-Inv (Reach-Inv path) step

-- If the program ends with success, it has called SYS_open for each of its threads as often as
-- NUM_OPENS_PER_THREAD says, whether the calls failed or not, and the process has the descriptors open
-- that it had at its start: each one that a thread opened is closed.
pub exit_success-opens :
    (files : List ℕ) (s : Process)
    → Reach files s
    → s.in_main ≡ exit_success
    → (s.opens ≡ num_threads * num_opens_per_thread)
      × ((fd : ℕ) → count (is fd) s.files ≡ count (is fd) files)
exit_success-opens files s path at =
    let inv = Reach-Inv path in
    let all : (j : ℕ) → j < num_threads → s.pc j ≡ ended = λ j lt. inv.over j (rw at lt) in
    (
      inv.counted
          ∙ sum_same done num_threads s.pc num_opens_per_thread (λ j lt. rw (all j lt) refl),
      λ fd.
          let none = sum_same (holds fd) num_threads s.pc 0 (λ j lt. rw (all j lt) refl) in
          omega (arith, inv.held fd, none),
    )
