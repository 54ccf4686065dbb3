-- ===== src/Kernel/Chains.antt =====
-- A hash table that meets the interface: the nodes with their keys, newest first, in 256 buckets.
use soa_repo.Base.{
  ℕ, ◌%◌, ◌≤◌, ◌+◌, ◌≡◌, refl, Bool, List, [], ◌∷◌, arith, ◌==◌, if◌then◌else◌, ltb, ◌<◌, count,
  keep,
}
use soa_repo.Kernel.Defs.{Node, at, unlink, HashApi, HackedSyscall, Kernel}

abbrev bucket_of : ℕ → ℕ
bucket_of k = k % 256

module _ {V : Type 0} where
  unfoldable pub nodes : List (ℕ × Node V) → List (Node V)
  nodes [] = []
  nodes ((k, n) ∷ t) = n ∷ nodes t

  unfoldable pub chain : ℕ → List (ℕ × Node V) → List (Node V)
  chain k [] = []
  chain k ((j, n) ∷ t) = if bucket_of j == bucket_of k then n ∷ chain k t else chain k t

  unfoldable pub delete : ℕ → List (ℕ × Node V) → List (ℕ × Node V)
  delete a [] = []
  delete a ((j, n) ∷ t) = if at a n then delete a t else (j, n) ∷ delete a t

  pub chain-le :
      (k : ℕ) (t : List (ℕ × Node V)) (p : Node V → Bool) → count p (chain k t) ≤ count p (nodes t)
  unfolding chain nodes count
  chain-le k [] p = ground arith
  chain-le k ((j, n) ∷ t) p = ground (arith, chain-le k t p)

  pub chain-delete : (k a : ℕ) (t : List (ℕ × Node V)) → chain k (delete a t) ≡ unlink a (chain k t)
  unfolding chain delete unlink keep
  chain-delete k a [] = refl
  chain-delete k a ((j, n) ∷ t) = ground (arith, chain-delete k a t)

  pub nodes-delete : (a : ℕ) (t : List (ℕ × Node V)) → nodes (delete a t) ≡ unlink a (nodes t)
  unfolding nodes delete unlink keep
  nodes-delete a [] = refl
  nodes-delete a ((j, n) ∷ t) = ground (arith, nodes-delete a t)

  pub chain-cons :
      (k j : ℕ) (n : Node V) (t : List (ℕ × Node V))
      → chain k ((j, n) ∷ t) ≡ (if bucket_of j == bucket_of k then n ∷ chain k t else chain k t)
  unfolding chain
  chain-cons k j n t = refl

  pub nodes-nil : nodes [] ≡ []
  unfolding nodes
  nodes-nil = refl

  pub count-nodes :
      (j : ℕ) (n : Node V) (t : List (ℕ × Node V)) (p : Node V → Bool)
      → count p (nodes ((j, n) ∷ t)) ≡ count p (n ∷ nodes t)
  unfolding nodes
  count-nodes j n t p = refl

unfoldable pub chains : (V : Type 0) → HashApi V
unfolding nodes chain delete
chains V = record {
  Table = List (ℕ × Node V);
  empty = [];
  bucket = bucket_of;
  add = λ n k t. (k, n) ∷ t;
  del = delete;
  possible = chain;
  all = nodes;
  all-empty = nodes-nil;
  possible-le = chain-le;
  possible-add = λ k j n t _. chain-cons k j n t;
  all-add = λ j n t p _. count-nodes j n t p;
  possible-del = chain-delete;
  all-del = nodes-delete;
}

-- A stand-in for `jhash`.
unfoldable pub byte_sum : List ℕ → ℕ
byte_sum [] = 0
byte_sum (b ∷ bs) = b + byte_sum bs

unfoldable pub clamp : ℕ → ℕ → ℕ
clamp i n = if ltb i n then i else 0

pub clamp_in_range : (i n : ℕ) → i < n → clamp i n ≡ i
unfolding clamp
clamp_in_range i n h = ground arith

-- A kernel to evaluate on, with 64 system calls and a clock of 250 ticks a second.
abbrev pub test_kernel : Kernel
unfolding chains
test_kernel = record {
  hack_api = chains HackedSyscall;
  uid_api = chains ℕ;
  prog_api = chains (List ℕ);
  jhash = byte_sum;
  nr_syscalls = 64;
  array_index_nospec = clamp;
  nospec_in_range = clamp_in_range;
  jiffies_to_msecs = λ j. j;
  hz = 250;
  wrapper_address = 4096;
}
