-- ===== src/Rcu.antt =====
-- How src/throttling_api.c uses RCU on a bucket of its hash tables: readers walk the chain between
-- rcu_read_lock and rcu_read_unlock, and a deregistration takes an entry out, waits in
-- synchronize_rcu and then gives its block back. Here a walk is many steps, and what a reader does
-- interleaves with the writers.
pub mod Invariant
pub mod Safety
use soa_repo.Base.{ℕ, ◌+◌, ◌≡◌, ◌≢◌, ◌==◌, Bool, true, false, if◌then◌else◌}
use soa_repo.State.{update}

-- What a block is at the moment: not part of the table, linked, or taken out and not yet given back.
pub data Status : Type 0 where
  free linked retired : Status

pub record Chain : Type 0 where
  -- the bucket's first entry, and each entry's `next`; 0 is NULL
  pub head : ℕ
  pub next : ℕ → ℕ
  pub status : ℕ → Status
  -- the readers that the synchronize_rcu after an entry's removal still waits for
  pub waits : ℕ → ℕ → Bool
  -- which threads are in a read section, and the entry that they look at, 0 if none
  pub reading : ℕ → Bool
  pub curr : ℕ → ℕ
  -- when an entry was linked; no code reads it
  pub born : ℕ → ℕ
  pub clock : ℕ

-- A pointer past the entry `a` that is taken out, if its owner is linked.
abbrev pub past : Status → ℕ → ℕ → ℕ → ℕ
past linked a next_a next = if next == a then next_a else next
past free a next_a next = next
past retired a next_a next = next

-- hash_add_rcu puts an entry in front.
unfoldable pub hash_add_rcu : ℕ → Chain → Chain
hash_add_rcu a c = record c {
  head = a;
  next = update c.next a c.head;
  status = update c.status a linked;
  born = update c.born a c.clock;
  clock = c.clock + 1;
}

-- hash_del_rcu leaves the entry's own `next` as it is, for readers that stand on it. The call of
-- synchronize_rcu that follows waits for who is reading now.
unfoldable pub hash_del_rcu : ℕ → Chain → Chain
hash_del_rcu a c = record c {
  head = if c.head == a then c.next a else c.head;
  next = λ x. past (c.status x) a (c.next a) (c.next x);
  status = update c.status a retired;
  waits = update c.waits a c.reading;
}

-- kfree of an entry
unfoldable pub give_back : ℕ → Chain → Chain
give_back a c = record c { status = update c.status a free }

-- rcu_read_lock; rcu_read_unlock; the first entry of the loop and the following ones.
unfoldable pub rcu_read_lock : ℕ → Chain → Chain
rcu_read_lock i c = record c { reading = update c.reading i true }

unfoldable pub rcu_read_unlock : ℕ → Chain → Chain
rcu_read_unlock i c = record c {
  reading = update c.reading i false;
  curr = update c.curr i 0;
  waits = λ a j. if i == j then false else c.waits a j;
}

unfoldable pub first_entry : ℕ → Chain → Chain
first_entry i c = record c { curr = update c.curr i c.head }

unfoldable pub next_entry : ℕ → Chain → Chain
next_entry i c = record c { curr = update c.curr i (c.next (c.curr i)) }

pub data Step (c : Chain) : Chain → Type 0 where
  -- a registration, with a block that is not in use
  adds : (a : ℕ) → a ≢ 0 → c.status a ≡ free → Step c (hash_add_rcu a c)
  -- a deregistration: under the lock, and after the wait
  removes : (a : ℕ) → c.status a ≡ linked → Step c (hash_del_rcu a c)
  frees : (a : ℕ) → c.status a ≡ retired → ((i : ℕ) → c.waits a i ≡ false) → Step c (give_back a c)
  locks : (i : ℕ) → c.reading i ≡ false → Step c (rcu_read_lock i c)
  starts : (i : ℕ) → c.reading i ≡ true → Step c (first_entry i c)
  moves : (i : ℕ) → c.curr i ≢ 0 → Step c (next_entry i c)
  unlocks : (i : ℕ) → c.reading i ≡ true → Step c (rcu_read_unlock i c)

-- DEFINE_HASHTABLE
abbrev pub empty : Chain
empty = record {
  head = 0;
  next = λ _. 0;
  status = λ _. free;
  waits = λ _ _. false;
  reading = λ _. false;
  curr = λ _. 0;
  born = λ _. 0;
  clock = 0;
}

pub data Reach : Chain → Type 0 where
  here : Reach empty
  later : {c d : Chain} → Reach c → Step c d → Reach d
