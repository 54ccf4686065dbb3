-- ===== src/Loading/Devices.antt =====
-- dev_init, dev_cleanup and throttling_devnode in src/throttling_dev.c. What the kernel answers to
-- register_chrdev, class_create and device_create is an argument; what it has registered is state,
-- three lists from which `kfree` takes an item out.
use soa_repo.Base.{
  ℕ, ◌*◌, ◌^◌, ◌≡◌, refl, arith, Bool, true, false, List, ◌∷◌, ℤ, pos, negsuc, Option, none, some,
  if◌then◌else◌, ◌==◌,
}
use soa_repo.State.{kfree, kfree-cons}

-- A pointer, or the ERR_PTR of an error.
pub data Pointer : Type 0 where
  valid : ℕ → Pointer
  err_ptr : ℤ → Pointer

-- The three globals, and what is registered with the kernel: major numbers, classes, and devices by
-- MKDEV(major, 0).
pub record Registration : Type 0 where
  pub major : ℤ
  pub throttling_class : Pointer
  pub throttling_device : Pointer
  pub chrdevs : List ℕ
  pub classes : List ℕ
  pub nodes : List ℕ

-- What is registered with the kernel.
abbrev pub devices_of : Registration → List ℕ × List ℕ × List ℕ
devices_of g = (g.chrdevs, g.classes, g.nodes)

-- MKDEV(major, 0)
abbrev pub mkdev : ℕ → ℕ
mkdev major = major * 2 ^ 20

-- The mode 0666, where the caller asks for one.
unfoldable pub throttling_devnode : Option ℕ → Option ℕ
throttling_devnode none = none
throttling_devnode (some mode) = some 438

unfoldable pub dev_init : ℤ → Pointer → Pointer → Registration → Registration × ℤ
dev_init (negsuc e) class device g = (record g { major = negsuc e }, negsuc e)
dev_init (pos major) (err_ptr e) device g =
    let registered = major ∷ g.chrdevs in
    (
      record g {
        major = pos major;
        throttling_class = err_ptr e;
        chrdevs = kfree major registered;
      },
      e,
    )
dev_init (pos major) (valid class) (err_ptr e) g =
    let registered = major ∷ g.chrdevs in
    let created = class ∷ g.classes in
    (
      record g {
        major = pos major;
        throttling_class = valid class;
        throttling_device = err_ptr e;
        classes = kfree class created;
        chrdevs = kfree major registered;
      },
      e,
    )
dev_init (pos major) (valid class) (valid device) g = (
  record {
    major = pos major;
    throttling_class = valid class;
    throttling_device = valid device;
    chrdevs = major ∷ g.chrdevs;
    classes = class ∷ g.classes;
    nodes = mkdev major ∷ g.nodes;
  },
  pos 0,
)

-- What device_destroy, class_destroy and unregister_chrdev take away.
abbrev pub without_class : Pointer → List ℕ → List ℕ
without_class (valid class) classes = kfree class classes
without_class (err_ptr e) classes = classes

abbrev pub without_major : ℤ → List ℕ → List ℕ
without_major (pos major) numbers = kfree major numbers
without_major (negsuc e) numbers = numbers

abbrev pub without_node : ℤ → List ℕ → List ℕ
without_node (pos major) nodes = kfree (mkdev major) nodes
without_node (negsuc e) nodes = nodes

unfoldable pub dev_cleanup : Registration → Registration
dev_cleanup g = record g {
  nodes = without_node g.major g.nodes;
  classes = without_class g.throttling_class g.classes;
  chrdevs = without_major g.major g.chrdevs;
}

-- Do all three calls work?
abbrev pub all_work : ℤ → Pointer → Pointer → Bool
all_work (pos major) (valid class) (valid device) = true
all_work _ _ _ = false

abbrev pub returns_zero : ℤ → Bool
returns_zero (pos n) = n == 0
returns_zero (negsuc n) = false

-- An error is a negative number.
abbrev pub IsError : Pointer → Type 0
IsError (err_ptr (pos n)) = ⊥
IsError _ = Unit

-- All or nothing, where an ERR_PTR holds a negative error: dev_init returns 0 just when its three
-- calls work, and then dev_cleanup takes back all that it registered; if one of them fails, the
-- kernel has registered after it what it had before.
pub dev_init-dev_cleanup :
    (chrdev : ℤ) (class device : Pointer) (g : Registration)
    → IsError class
    → IsError device
    → (returns_zero (dev_init chrdev class device g).1 ≡ all_work chrdev class device)
      × (devices_of (
            if all_work chrdev class device
            then dev_cleanup (dev_init chrdev class device g).0
            else (dev_init chrdev class device g).0)
          ≡ devices_of g)
unfolding dev_init dev_cleanup
dev_init-dev_cleanup (negsuc e) class device g h h' = (refl, refl)
dev_init-dev_cleanup (pos major) (err_ptr (pos e)) device g h h' = absurd h
dev_init-dev_cleanup (pos major) (valid class) (err_ptr (pos e)) g h h' = absurd h'
dev_init-dev_cleanup (pos major) (err_ptr (negsuc e)) device g h h' =
    (refl, ground (arith, kfree-cons major g.chrdevs))
dev_init-dev_cleanup (pos major) (valid class) (err_ptr (negsuc e)) g h h' =
    (refl, ground (arith, kfree-cons major g.chrdevs, kfree-cons class g.classes))
dev_init-dev_cleanup (pos major) (valid class) (valid device) g h h' = (
  refl,
  ground (
    arith,
    kfree-cons major g.chrdevs,
    kfree-cons class g.classes,
    kfree-cons (mkdev major) g.nodes,
  ),
)
