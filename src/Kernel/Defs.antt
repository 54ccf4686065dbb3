-- ===== src/Kernel/Defs.antt =====
-- The interface records. A node of a hash table is a block from `kmalloc`: its address, and the
-- fields that its owner wrote before it was linked and that nobody changes afterwards.
use soa_repo.Base.{ℕ, ◌≤◌, ◌<◌, ◌≡◌, Bool, not, List, [], ◌∷◌, ◌==◌, if◌then◌else◌, count, keep}

pub record Node (V : Type 0) : Type 0 where
  pub addr : ℕ
  pub val : V

-- The test that a node stands at an address.
abbrev pub at : {V : Type 0} → ℕ → Node V → Bool
at a n = n.addr == a

-- A list of nodes without the node at an address.
unfoldable pub unlink : {V : Type 0} → ℕ → List (Node V) → List (Node V)
unlink a = keep (λ n. not (at a n))

-- <linux/hashtable.h>, for nodes that hold a `V`.
pub record HashApi (V : Type 0) : Type 1 where
  pub Table : Type 0
  -- DEFINE_HASHTABLE
  pub empty : Table
  -- the bucket of a key
  pub bucket : ℕ → ℕ
  -- hash_add_rcu(table, node, key)
  pub add : Node V → ℕ → Table → Table
  -- hash_del_rcu(node)
  pub del : ℕ → Table → Table
  -- the nodes that hash_for_each_possible_rcu(table, node, key) visits, in order
  pub possible : ℕ → Table → List (Node V)
  -- the nodes that hash_for_each(table, node) visits, in order
  pub all : Table → List (Node V)
  -- a new table has no node
  pub all-empty : all empty ≡ []
  -- hash_for_each visits what each bucket holds
  pub possible-le :
      (k : ℕ) (t : Table) (p : Node V → Bool) → count p (possible k t) ≤ count p (all t)
  -- a node that is not linked yet goes to the front of its bucket
  pub possible-add :
      (k j : ℕ) (n : Node V) (t : Table)
      → count (at n.addr) (all t) ≡ 0
      → possible k (add n j t) ≡ (if bucket j == bucket k then n ∷ possible k t else possible k t)
  pub all-add :
      (j : ℕ) (n : Node V) (t : Table) (p : Node V → Bool)
      → count (at n.addr) (all t) ≡ 0
      → count p (all (add n j t)) ≡ count p (n ∷ all t)
  -- a node that is taken out is visited no more, and the others are as before
  pub possible-del : (k a : ℕ) (t : Table) → possible k (del a t) ≡ unlink a (possible k t)
  pub all-del : (a : ℕ) (t : Table) → all (del a t) ≡ unlink a (all t)

-- `struct hacked_syscall`: a function pointer and the pointer to the statistics are addresses.
pub record HackedSyscall : Type 0 where
  pub syscall_nr : ℕ
  pub original_syscall : ℕ
  pub stats : ℕ

pub record Kernel : Type 1 where
  pub hack_api : HashApi HackedSyscall
  pub uid_api : HashApi ℕ
  pub prog_api : HashApi (List ℕ)
  -- jhash(key, length, 0), of the bytes
  pub jhash : List ℕ → ℕ
  pub nr_syscalls : ℕ
  pub array_index_nospec : ℕ → ℕ → ℕ
  -- "returns index if index is less than size"
  pub nospec_in_range : (i n : ℕ) → i < n → array_index_nospec i n ≡ i
  pub jiffies_to_msecs : ℕ → ℕ
  -- timer ticks in a second
  pub hz : ℕ
  -- the address of `throttling_wrapper`
  pub wrapper_address : ℕ
