-- ===== src/Rcu/Safety.antt =====
-- Readers, and the entries that are given back.
use soa_repo.Base.{ℕ, ◌≡◌, ◌≢◌, ◌⊎◌, true, false, Bool-cases, inl, inr}
use soa_repo.Rcu.{free, retired, Chain, Reach, Step, frees, give_back}
use soa_repo.Rcu.Invariant.{Inv, Reach-Inv, IsKept}

kept-ne-free : (c : Chain) (i a : ℕ) → IsKept c i a → c.status a ≢ free
kept-ne-free c i a (inl l) e = cc
kept-ne-free c i a (inr (r, w)) e = cc

-- No use after free: in every reachable state, whatever readers, registrations and deregistrations do
-- and in whatever order, the entry that a reader looks at is not given back, and neither is the one
-- that it goes to next.
pub reader_safe :
    (c : Chain) (i : ℕ)
    → Reach c
    → c.curr i ≢ 0
    → (c.status (c.curr i) ≢ free)
      × ((c.next (c.curr i) ≡ 0) ⊎ (c.status (c.next (c.curr i)) ≢ free))
reader_safe c i r on =
    let v = Reach-Inv r in
    (kept-ne-free c i (c.curr i) (v.standing i on).1, onwards v (v.standing i on).1)
  where
    onwards :
        Inv c
        → IsKept c i (c.curr i)
        → (c.next (c.curr i) ≡ 0) ⊎ (c.status (c.next (c.curr i)) ≢ free)
    onwards v (inl l) = elim (v.next_linked (c.curr i) l) [
      | inl last ↦ inl last
      | inr (l', older) ↦ inr (λ e. cc)
    ]
    onwards v (inr (out, w)) = elim (v.onward (c.curr i) i out w) [
      | inl last ↦ inl last
      | inr kept ↦ inr (kept-ne-free c i (c.next (c.curr i)) kept)
    ]

-- A deregistration can end: in every reachable state in which nobody reads, an entry that was taken
-- out can be given back.
pub quiet_frees :
    (c : Chain) (a : ℕ)
    → Reach c
    → c.status a ≡ retired
    → ((j : ℕ) → c.reading j ≡ false)
    → Step c (give_back a c)
quiet_frees c a r out quiet = frees a out (λ j. not_awaited j (Bool-cases (c.waits a j)))
  where
    not_awaited : (j : ℕ) → (c.waits a j ≡ true) ⊎ (c.waits a j ≡ false) → c.waits a j ≡ false
    not_awaited j (inl w) = cc ((Reach-Inv r).awaited a j out w, quiet j)
    not_awaited j (inr w) = w
