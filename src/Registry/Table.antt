-- ===== src/Registry/Table.antt =====
-- A registry over one hash table: entries are looked up by a key `x : X`, which has a hash, and a
-- node is what `x` looks for if `hit x` passes on it. `Count` counts the entries for a key.
use soa_repo.Base.{
  ℕ, ◌+◌, ◌≤◌, ◌≡◌, refl, Bool, true, not, ◌&&◌, List, [], ◌∷◌, Option, none, some, arith,
  Bool-cases, inl, inr, find, count, keep, to_nat, eq_of_==, ==_refl, Option-cases, sym,
  count-eq-zero, find_passes, count-find, ap,
}
use soa_repo.Kernel.{Node, at, unlink, HashApi}

module _ {V : Type 0} where
  -- What is unlinked at an address is all that stands there.
  pub count-unlink :
      (q : Node V → Bool) (a : ℕ) (l : List (Node V))
      → count q (unlink a l) + count (λ m. at a m && q m) l ≡ count q l
  unfolding count unlink keep
  count-unlink q a [] = refl
  count-unlink q a (n ∷ l) = ground (arith, count-unlink q a l)

  pub count-split :
      (p q : Node V → Bool) (l : List (Node V))
      → count (λ m. p m && q m) l + count (λ m. p m && not (q m)) l ≡ count p l
  unfolding count
  count-split p q [] = refl
  count-split p q (n ∷ l) = ground (arith, count-split p q l)

  pub count-swap :
      (p q : Node V → Bool) (l : List (Node V))
      → count (λ m. p m && q m) l ≡ count (λ m. q m && p m) l
  unfolding count
  count-swap p q [] = refl
  count-swap p q (n ∷ l) = ground (arith, count-swap p q l)

-- What a check function makes of a search.
abbrev pub found : {V : Type 0} → Option (Node V) → ℕ
found (some n) = 1
found none = 0

module _ {V X : Type 0} (H : HashApi V) (hit : X → V → Bool) (key : X → ℕ) where
  open H use {Table, bucket, add, del, possible, all}

  abbrev pub test : X → Node V → Bool
  test x n = hit x n.val

  -- What the write lock protects: a key's entry is in the chain of its hash, there is one entry
  -- for a key at most, and no two entries are at one address.
  pub record IsConsistent (t : Table) : Type 0 where
    pub keyed : (x : X) → count (test x) (possible (key x) t) ≡ count (test x) (all t)
    pub single : (x : X) → count (test x) (all t) ≤ 1
    pub apart : (a : ℕ) → count (at a) (all t) ≤ 1

  pub empty-IsConsistent : IsConsistent H.empty
  unfolding count
  empty-IsConsistent = record {
    keyed = λ x.
        let none_there : count (test x) (all H.empty) ≡ 0 = ap (count (test x)) H.all-empty in
        omega (arith, H.possible-le (key x) H.empty (test x));
    single = λ x. omega (arith, ap (count (test x)) H.all-empty);
    apart = λ a. omega (arith, ap (count (at a)) H.all-empty);
  }

  module _ (t : Table) (n : Node V) (j : ℕ) (unlinked : count (at n.addr) (all t) ≡ 0) where
    pub count-add : (p : Node V → Bool) → count p (all (add n j t)) ≡ to_nat (p n) + count p (all t)
    unfolding count
    count-add p = H.all-add j n t p unlinked

    count-possible-add :
        (p : Node V → Bool) (k : ℕ)
        → (p n ≡ true → k ≡ j)
        → count p (possible k (add n j t)) ≡ to_nat (p n) + count p (possible k t)
    unfolding count
    count-possible-add p k same = rw (H.possible-add k j n t unlinked) (elim (Bool-cases (p n)) [
      | inl hit_n ↦ rw (same hit_n, ==_refl (bucket j)) refl
      | inr miss ↦ ground arith
    ])

    -- A new entry for keys that have none, linked under their hash.
    pub add-IsConsistent :
        IsConsistent t
        → ((x : X) → test x n ≡ true → (key x ≡ j) × (count (test x) (all t) ≡ 0))
        → IsConsistent (add n j t)
    add-IsConsistent c new = record {
      keyed = λ x. omega (
        arith,
        count-possible-add (test x) (key x) (λ h. (new x h).0),
        count-add (test x),
        c.keyed x,
      );
      single = λ x. elim (Bool-cases (test x n)) [
        | inl h ↦ ground (arith, (new x h).1, count-add (test x))
        | inr h ↦ ground (arith, c.single x, count-add (test x))
      ];
      apart = λ a. elim (Bool-cases (at a n)) [
        | inl h ↦ ground (arith, unlinked, count-add (at a), eq_of_== n.addr a h)
        | inr h ↦ ground (arith, c.apart a, count-add (at a))
      ];
    }

  module _ (t : Table) (c : IsConsistent t) (x : X) (n : Node V)
      (found : find (test x) (possible (key x) t) ≡ some n) where
    -- The node that was found is the only one at its address.
    count-found : (q : Node V → Bool) → count (λ m. at n.addr m && q m) (all t) ≡ to_nat (q n)
    count-found q = elim (Bool-cases (q n)) [
      | inl h ↦ rw h (
          omega (
            arith,
            count-find (test x) (λ m. at n.addr m && q m) (possible (key x) t) n found
                (rw (==_refl n.addr) h),
            H.possible-le (key x) t (λ m. at n.addr m && q m),
            count-split (at n.addr) q (all t),
            c.apart n.addr,
          ))
      | inr h ↦ rw h (
          omega (
            arith,
            count-find (test x) (λ m. at n.addr m && not (q m)) (possible (key x) t) n found
                (rw (==_refl n.addr, h) refl),
            H.possible-le (key x) t (λ m. at n.addr m && not (q m)),
            count-split (at n.addr) q (all t),
            c.apart n.addr,
          ))
    ]

    pub count-del :
        (q : Node V → Bool) → count q (all (del n.addr t)) + to_nat (q n) ≡ count q (all t)
    count-del q =
        rw (H.all-del n.addr t) (omega (arith, count-unlink q n.addr (all t), count-found q))

    pub test_found : test x n ≡ true
    test_found = find_passes (test x) (possible (key x) t) n found

    keyed-del :
        (y : X)
        → count (test y) (possible (key y) (del n.addr t)) ≡ count (test y) (all (del n.addr t))
    keyed-del y =
        rw (H.possible-del (key y) n.addr t, H.all-del n.addr t)
          (omega (
            arith,
            count-unlink (test y) n.addr (possible (key y) t),
            count-unlink (test y) n.addr (all t),
            count-split (test y) (at n.addr) (possible (key y) t),
            count-split (test y) (at n.addr) (all t),
            count-swap (test y) (at n.addr) (possible (key y) t),
            count-swap (test y) (at n.addr) (all t),
            H.possible-le (key y) t (λ m. test y m && at n.addr m),
            H.possible-le (key y) t (λ m. test y m && not (at n.addr m)),
            c.keyed y,
          ))

    pub del-IsConsistent : IsConsistent (del n.addr t)
    del-IsConsistent = record {
      keyed = keyed-del;
      single = λ y. omega (arith, count-del (test y), c.single y);
      apart = λ a. omega (arith, count-del (at a), c.apart a);
    }

  -- A search finds nothing exactly where there is no entry.
  module _ (t : Table) (c : IsConsistent t) (x : X) where
    pub count-missing : find (test x) (possible (key x) t) ≡ none → count (test x) (all t) ≡ 0
    count-missing h = omega (arith, count-eq-zero (test x) (possible (key x) t) h, c.keyed x)

    pub count-present :
        (n : Node V) → find (test x) (possible (key x) t) ≡ some n → count (test x) (all t) ≡ 1
    count-present n h = omega (
      arith,
      count-find (test x) (test x) (possible (key x) t) n h
          (find_passes (test x) (possible (key x) t) n h),
      c.keyed x,
      c.single x,
    )

    -- What the check functions return of a search: the number of entries.
    pub found-count : found (find (test x) (possible (key x) t)) ≡ count (test x) (all t)
    found-count = elim (Option-cases (find (test x) (possible (key x) t))) [
      | inl e ↦ rw e (sym (count-missing e))
      | inr (n, e) ↦ rw e (sym (count-present n e))
    ]
