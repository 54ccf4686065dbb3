-- ===== src/Rcu/Invariant.antt =====
-- What holds of a chain and its readers in every reachable state.
use mathlib.Core.Path.{subst}
use soa_repo.Base.{ℕ, ◌<◌, ◌≡◌, ◌≢◌, ◌⊎◌, true, false, refl, arith, inl, inr, sym, ◌∙◌}
use soa_repo.Rcu.{
  free, linked, retired, Chain, hash_add_rcu, hash_del_rcu, give_back, rcu_read_lock,
  rcu_read_unlock, first_entry, next_entry, Step, adds, removes, frees, locks, starts, moves,
  unlocks, empty, Reach, here, later,
}

-- A reader may stand on an entry that is linked, or that is kept for it.
abbrev pub IsKept : Chain → ℕ → ℕ → Type 0
IsKept c i a = (c.status a ≡ linked) ⊎ ((c.status a ≡ retired) × (c.waits a i ≡ true))

pub record Inv (c : Chain) : Type 0 where
  pub null : c.status 0 ≡ free
  pub head_linked : (c.head ≡ 0) ⊎ (c.status c.head ≡ linked)
  pub born_before : (a : ℕ) → c.status a ≡ linked → c.born a < c.clock
  -- the chain goes from younger to older entries
  pub next_linked :
      (a : ℕ)
      → c.status a ≡ linked
      → (c.next a ≡ 0) ⊎ ((c.status (c.next a) ≡ linked) × (c.born (c.next a) < c.born a))
  pub awaited : (a i : ℕ) → c.status a ≡ retired → c.waits a i ≡ true → c.reading i ≡ true
  pub onward :
      (a i : ℕ) → c.status a ≡ retired → c.waits a i ≡ true → (c.next a ≡ 0) ⊎ IsKept c i (c.next a)
  pub standing : (i : ℕ) → c.curr i ≢ 0 → (c.reading i ≡ true) × IsKept c i (c.curr i)

pub empty-Inv : Inv empty
empty-Inv = record {
  null = refl;
  head_linked = inl refl;
  born_before = λ a h. cc;
  next_linked = λ a h. cc;
  awaited = λ a i h w. cc;
  onward = λ a i h w. cc;
  standing = λ i h. absurd (h refl);
}

hash_add_rcu-Inv : (c : Chain) (a : ℕ) → a ≢ 0 → c.status a ≡ free → Inv c → Inv (hash_add_rcu a c)
unfolding hash_add_rcu
hash_add_rcu-Inv c a nz fresh v = record {
  null = ground (arith, v.null);
  head_linked = ground arith;
  born_before = λ x h. ground (arith, v.born_before x);
  next_linked = λ x h. ground (arith, v.born_before c.head, v.next_linked x, v.head_linked);
  awaited = λ x i h w. ground (arith, v.awaited x i);
  onward = λ x i h w. ground (arith, v.onward x i);
  standing = λ i h. ground (arith, v.standing i);
}

-- The next entry is an older one, so the chain is no circle.
descends :
    (c : Chain) (x y : ℕ)
    → Inv c
    → c.status x ≡ linked
    → c.status y ≡ linked
    → c.next x ≡ y
    → c.born y < c.born x
descends c x y v h h' e = elim (v.next_linked x h) [
  | inl last ↦ cc (v.null, subst (λ z. c.status z ≡ linked) (sym e ∙ last) h')
  | inr (l, older) ↦ subst (λ z. c.born z < c.born x) e older
]

not_back :
    (c : Chain) (a x : ℕ)
    → Inv c
    → c.status a ≡ linked
    → c.status x ≡ linked
    → c.next x ≡ a
    → (c.next a ≢ x) × (c.born a < c.born x)
not_back c a x v there h e = (
  λ back. omega (arith, descends c x a v h there e, descends c a x v there h back),
  descends c x a v h there e,
)

hash_del_rcu-Inv : (c : Chain) (a : ℕ) → c.status a ≡ linked → Inv c → Inv (hash_del_rcu a c)
unfolding hash_del_rcu
hash_del_rcu-Inv c a there v = record {
  null = ground (arith, v.null);
  head_linked = ground (arith, v.head_linked, v.next_linked a);
  born_before = λ x h. ground (arith, v.born_before x);
  next_linked = λ x h. ground (arith, v.next_linked x, v.next_linked a, not_back c a x v there);
  awaited = λ x i h w. ground (arith, v.awaited x i);
  onward = λ x i h w. ground (arith, v.onward x i, v.awaited x i, v.next_linked a);
  standing = λ i h. ground (arith, v.standing i);
}

give_back-Inv :
    (c : Chain) (a : ℕ)
    → c.status a ≡ retired
    → ((i : ℕ) → c.waits a i ≡ false)
    → Inv c
    → Inv (give_back a c)
unfolding give_back
give_back-Inv c a out done v = record {
  null = ground (arith, v.null);
  head_linked = ground (arith, v.head_linked);
  born_before = λ x h. ground (arith, v.born_before x);
  next_linked = λ x h. ground (arith, v.next_linked x);
  awaited = λ x i h w. ground (arith, v.awaited x i);
  onward = λ x i h w. ground (arith, v.onward x i, done i);
  standing = λ i h. ground (arith, v.standing i, done i);
}

rcu_read_lock-Inv : (c : Chain) (i : ℕ) → Inv c → Inv (rcu_read_lock i c)
unfolding rcu_read_lock
rcu_read_lock-Inv c i v = record {
  null = v.null;
  head_linked = v.head_linked;
  born_before = v.born_before;
  next_linked = v.next_linked;
  awaited = λ x j h w. ground (arith, v.awaited x j);
  onward = v.onward;
  standing = λ j h. ground (arith, v.standing j);
}

rcu_read_unlock-Inv : (c : Chain) (i : ℕ) → Inv c → Inv (rcu_read_unlock i c)
unfolding rcu_read_unlock
rcu_read_unlock-Inv c i v = record {
  null = v.null;
  head_linked = v.head_linked;
  born_before = v.born_before;
  next_linked = v.next_linked;
  awaited = λ x j h w. ground (arith, v.awaited x j);
  onward = λ x j h w. ground (arith, v.onward x j);
  standing = λ j h. ground (arith, v.standing j);
}

first_entry-Inv : (c : Chain) (i : ℕ) → c.reading i ≡ true → Inv c → Inv (first_entry i c)
unfolding first_entry
first_entry-Inv c i in_section v = record {
  null = v.null;
  head_linked = v.head_linked;
  born_before = v.born_before;
  next_linked = v.next_linked;
  awaited = v.awaited;
  onward = v.onward;
  standing = λ j h. ground (arith, v.standing j, v.head_linked);
}

next_entry-Inv : (c : Chain) (i : ℕ) → c.curr i ≢ 0 → Inv c → Inv (next_entry i c)
unfolding next_entry
next_entry-Inv c i on v = record {
  null = v.null;
  head_linked = v.head_linked;
  born_before = v.born_before;
  next_linked = v.next_linked;
  awaited = v.awaited;
  onward = v.onward;
  standing = λ j h.
      ground (arith, v.standing j, v.standing i, v.next_linked (c.curr i), v.onward (c.curr i) i);
}

Step-Inv : {c d : Chain} → Step c d → Inv c → Inv d
Step-Inv {c} (adds a nz fresh) v = hash_add_rcu-Inv c a nz fresh v
Step-Inv {c} (removes a there) v = hash_del_rcu-Inv c a there v
Step-Inv {c} (frees a out done) v = give_back-Inv c a out done v
Step-Inv {c} (locks i h) v = rcu_read_lock-Inv c i v
Step-Inv {c} (starts i h) v = first_entry-Inv c i h v
Step-Inv {c} (moves i h) v = next_entry-Inv c i h v
Step-Inv {c} (unlocks i h) v = rcu_read_unlock-Inv c i v

pub Reach-Inv : {c : Chain} → Reach c → Inv c
Reach-Inv here = empty-Inv
Reach-Inv (later r s) = Step-Inv s (Reach-Inv r)
