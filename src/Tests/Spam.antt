-- ===== src/Tests/Spam.antt =====
-- A run of the test program: its threads one after another, each opening descriptor 3 and closing it.
use soa_repo.Base.{
  ℕ, zero, suc, ◌+◌, ◌*◌, ◌<◌, ◌≤◌, ◌≡◌, refl, arith, ◌∷◌, [], ◌==◌, ==_refl, false, Bool-cases,
  inl, inr, count, eq_of_==, ◌∙◌, List,
}
use soa_repo.State.{is, kfree, kfree-cons}
use soa_repo.Spam.{
  Pc, ended, looping, closing, Main, creating, joining, exit_success, Process, to, IsRunning,
  joins_more, num_threads, num_opens_per_thread, Step, creates, has_created, joins, has_joined,
  opens_file, closes, ends, Reach, started, here, later,
}
use soa_repo.Spam.Calls.{exit_success-opens}

-- Thread `j` is at `p`, those before it are over, those after it have not called yet, and `fs` are open.
record Alone (fs : List ℕ) (j : ℕ) (p : Pc) (s : Process) : Type 0 where
  reached : Reach [] s
  in_join : s.in_main ≡ joining 0
  out : s.files ≡ fs
  now : s.pc j ≡ p
  past : (k : ℕ) → k < j → s.pc k ≡ ended
  next : (k : ℕ) → j < k → k < num_threads → s.pc k ≡ looping 0

abbrev moved : ℕ → Pc → List ℕ → ℕ → Process → Process
moved j p fs n s = to j p (record s { files = fs; opens = n })

moved-Alone :
    {fs gs : List ℕ} {p : Pc} (j : ℕ) (q : Pc) (hs : List ℕ) (n : ℕ) (s : Process)
    → Alone fs j p s
    → hs ≡ gs
    → Step s (moved j q hs n s)
    → Alone gs j q (moved j q hs n s)
moved-Alone j q hs n s a same step = record {
  reached = later a.reached step;
  in_join = a.in_join;
  out = same;
  now = rw (==_refl j) refl;
  past = λ k lt. let differs : (j == k) ≡ false = ground arith in rw differs (a.past k lt);
  next = λ k lt le. let differs : (j == k) ≡ false = ground arith in rw differs (a.next k lt le);
}

abbrev opened : ℕ → ℕ → Process → Process
opened j i s = moved j (closing i 3) (3 ∷ s.files) (s.opens + 1) s

abbrev turned : ℕ → ℕ → Process → Process
turned j i s = let t = opened j i s in moved j (looping (i + 1)) (kfree 3 t.files) t.opens t

abbrev spun : ℕ → ℕ → Process → Process
spun j zero s = s
spun j (suc i) s = turned j i (spun j i s)

turned-Alone :
    (j i : ℕ) (s : Process)
    → i < num_opens_per_thread
    → Alone [] j (looping i) s
    → Alone [] j (looping (i + 1)) (turned j i s)
unfolding count
turned-Alone j i s lt a =
    let on : IsRunning s.in_main = rw a.in_join joins_more in
    let first =
      moved-Alone {gs = 3 ∷ []} j (closing i 3) (3 ∷ s.files) (s.opens + 1) s a (rw a.out refl)
        (opens_file j i 3 on a.now lt (rw a.out refl)) in
    moved-Alone j (looping (i + 1)) (kfree 3 (3 ∷ s.files)) (s.opens + 1) (opened j i s) first
      (kfree-cons 3 s.files ∙ a.out) (closes j i 3 on first.now)

spun-Alone :
    (j i : ℕ) (s : Process)
    → i ≤ num_opens_per_thread
    → Alone [] j (looping 0) s
    → Alone [] j (looping i) (spun j i s)
spun-Alone j zero s le a = a
spun-Alone j (suc i) s le a =
    let one_more : suc i ≡ i + 1 = omega arith in
    rw one_more (turned-Alone j i (spun j i s) (omega arith) (spun-Alone j i s (omega arith) a))

abbrev finished : ℕ → Process → Process
finished j s = let t = spun j num_opens_per_thread s in moved j ended t.files t.opens t

finished-Alone : (j : ℕ) (s : Process) → Alone [] j (looping 0) s → Alone [] j ended (finished j s)
finished-Alone j s a =
    let t = spun j num_opens_per_thread s in
    let b = spun-Alone j num_opens_per_thread s (omega arith) a in
    moved-Alone j ended t.files t.opens t b b.out (ends j (rw b.in_join joins_more) b.now)

next-Alone :
    (j : ℕ) (s : Process)
    → j + 1 < num_threads
    → Alone [] j ended s
    → Alone [] (j + 1) (looping 0) s
next-Alone j s lt a = record {
  reached = a.reached;
  in_join = a.in_join;
  out = a.out;
  now = a.next (j + 1) (omega arith) lt;
  past = λ k le. elim (Bool-cases (k == j)) [
    | inl same ↦ rw (eq_of_== k j same) a.now
    | inr differs ↦ a.past k (ground arith)
  ];
  next = λ k le. a.next k (omega arith);
}

abbrev called : ℕ → Process → Process
called zero s = finished 0 s
called (suc j) s = finished (j + 1) (called j s)

called-Alone :
    (j : ℕ) (s : Process)
    → j < num_threads
    → Alone [] 0 (looping 0) s
    → Alone [] j ended (called j s)
called-Alone zero s lt a = finished-Alone 0 s a
called-Alone (suc j) s lt a =
    let one_more : suc j ≡ j + 1 = omega arith in
    rw one_more (
      finished-Alone (j + 1) (called j s)
        (next-Alone j (called j s) (omega arith) (called-Alone j s (omega arith) a)))

abbrev born : ℕ → Process → Process
born k s = to k (looping 0) (record s { in_main = creating (k + 1) })

abbrev all_born : Process
all_born = born 4 (born 3 (born 2 (born 1 (born 0 (started [])))))

all_born-Alone : Alone [] 0 (looping 0) (record all_born { in_main = joining 0 })
all_born-Alone = record {
  reached =
      later
        (later
          (later
            (later
              (later (later here (creates 0 refl (omega arith))) (creates 1 refl (omega arith)))
              (creates 2 refl (omega arith)))
            (creates 3 refl (omega arith)))
          (creates 4 refl (omega arith)))
        (has_created refl);
  in_join = refl;
  out = refl;
  now = refl;
  past = λ k lt. absurd (omega arith);
  next = λ k lt le. ground arith;
}

abbrev last : Process
last = called 4 (record all_born { in_main = joining 0 })

abbrev joined_to : Main → Process
joined_to m = record last { in_main = m }

last-Alone : Alone [] 4 ended last
last-Alone = called-Alone 4 (record all_born { in_main = joining 0 }) (omega arith) all_born-Alone

over : (j : ℕ) → j < 5 → last.pc j ≡ ended
over j lt = elim (Bool-cases (j == 4)) [
  | inl same ↦ rw (eq_of_== j 4 same) last-Alone.now
  | inr differs ↦ last-Alone.past j (ground arith)
]

left : Reach [] (joined_to exit_success)
left =
    let one = later last-Alone.reached (joins 0 refl (omega arith) (over 0 (omega arith))) in
    let two = later one (joins 1 refl (omega arith) (over 1 (omega arith))) in
    let three = later two (joins 2 refl (omega arith) (over 2 (omega arith))) in
    let four = later three (joins 3 refl (omega arith) (over 3 (omega arith))) in
    let five = later four (joins 4 refl (omega arith) (over 4 (omega arith))) in
    later five (has_joined refl)

exit_success-opens_example :
    (last.opens ≡ num_threads * num_opens_per_thread)
    × ((fd : ℕ) → count (is fd) last.files ≡ count (is fd) [])
exit_success-opens_example = exit_success-opens [] (joined_to exit_success) left refl
