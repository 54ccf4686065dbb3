-- ===== src/Registry/Start.antt =====
-- The state that the module is loaded with, and the invariant of the registries.
use soa_repo.Base.{ℕ, ◌≡◌, refl, arith, ap, count, length, Bool}
use soa_repo.Kernel.{Kernel, Node, at, HashApi}
use soa_repo.State.{initial}
use soa_repo.Registry.Table.{empty-IsConsistent}
use soa_repo.Registry.Uid.{uid_hit, uid_key}
use soa_repo.Registry.Prog.{prog_hit, prog_key}
use soa_repo.Registry.Syscall.{hack_hit, hack_key}
use soa_repo.Registry.Validity.{IsValid, saved_wrong, stats_are_at, is_long}

module _ {V : Type 0} (H : HashApi V) where
  count-empty : (p : Node V → Bool) → count p (H.all H.empty) ≡ 0
  unfolding count
  count-empty p = ap (count p) H.all-empty

  length-empty : length (H.all H.empty) ≡ 0
  length-empty = ap length H.all-empty

pub initial-IsValid : (K : Kernel) (table : ℕ → ℕ) → IsValid K table (initial K table)
unfolding initial count
initial-IsValid K table = record {
  uids = record {
    consistent = empty-IsConsistent K.uid_api uid_hit uid_key;
    counted = omega (arith, length-empty K.uid_api);
  };
  progs = record {
    consistent = empty-IsConsistent K.prog_api prog_hit (prog_key K);
    counted = omega (arith, length-empty K.prog_api);
    short = count-empty K.prog_api is_long;
  };
  hacks = record {
    consistent = empty-IsConsistent K.hack_api hack_hit hack_key;
    counted = omega (arith, length-empty K.hack_api);
    flagged = λ i. omega (arith, count-empty K.hack_api (λ n. hack_hit i n.val));
    patched = λ i. refl;
    saved = λ i. count-empty K.hack_api (saved_wrong i (table i));
  };
  heaped = record {
    distinct = λ a. omega arith;
    owned = λ a. omega (
      arith,
      count-empty K.uid_api (at a),
      count-empty K.prog_api (at a),
      count-empty K.hack_api (at a),
      count-empty K.hack_api (stats_are_at a),
    );
  };
}
