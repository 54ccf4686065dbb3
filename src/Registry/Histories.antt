-- ===== src/Registry/Histories.antt =====
-- Any history of registrations and deregistrations, against a set: what a registry promises whatever
-- its table is made of.
use soa_repo.Base.{
  ℕ, ◌≡◌, ◌∙◌, refl, ap, List, [], ◌∷◌, Option, none, some, Bool, true, false, ◌==◌, if◌then◌else◌,
  ℤ, pos, enoent, enomem, eexist,
}
use soa_repo.Kernel.{Kernel}
use soa_repo.State.{State}
use soa_repo.Registry.Validity.{IsValid}

-- A registration has what kmalloc answers to it.
pub data Change (Mem Key : Type 0) : Type 0 where
  registers : Mem → Key → Change Mem Key
  deregisters : Key → Change Mem Key

abbrev pub is_some : Option ℕ → Bool
is_some none = false
is_some (some p) = true

-- The set, as a function that is 1 for a member and 0 for any other, and the answers.
module _ {Mem Key : Type 0} (is_enough : Mem → Bool) (same : Key → Key → Bool) where
  abbrev pub changed : (Key → ℕ) → Change Mem Key → Key → ℕ
  changed m (registers mem k) w = if is_enough mem then (if same k w then 1 else m w) else m w
  changed m (deregisters k) w = if same k w then 0 else m w

  abbrev pub answer : (Key → ℕ) → Change Mem Key → ℤ
  answer m (registers mem k) =
      if is_enough mem then (if m k == 0 then pos 0 else eexist) else enomem
  answer m (deregisters k) = if m k == 0 then enoent else pos 0

  unfoldable pub specified : (Key → ℕ) → List (Change Mem Key) → (Key → ℕ) × List ℤ
  specified m [] = (m, [])
  specified m (c ∷ cs) = let (n, answers) = specified (changed m c) cs in (n, answer m c ∷ answers)

-- What a registry is for this purpose: its two functions as one, its check, and what they do.
pub record Registry (K : Kernel) (original : ℕ → ℕ) (Mem Key : Type 0) : Type 1 where
  pub is_enough : Mem → Bool
  pub same : Key → Key → Bool
  pub apply : Change Mem Key → State K → State K × ℤ
  pub check : Key → State K → ℕ
  pub IsAllowed : Change Mem Key → State K → Type 0
  pub apply-IsValid :
      (s : State K) (c : Change Mem Key)
      → IsValid K original s
      → IsAllowed c s
      → IsValid K original (apply c s).0
  pub apply-answer :
      (s : State K) (c : Change Mem Key)
      → IsValid K original s
      → IsAllowed c s
      → (apply c s).1 ≡ answer is_enough same (λ w. check w s) c
  pub apply-check :
      (s : State K) (c : Change Mem Key)
      → IsValid K original s
      → IsAllowed c s
      → (w : Key) → check w (apply c s).0 ≡ changed is_enough same (λ u. check u s) c w

module _ {K : Kernel} {original : ℕ → ℕ} {Mem Key : Type 0} (r : Registry K original Mem Key) where
  unfoldable pub run : State K → List (Change Mem Key) → State K × List ℤ
  run s [] = (s, [])
  run s (c ∷ cs) = let (t, answers) = run (r.apply c s).0 cs in (t, (r.apply c s).1 ∷ answers)

  unfoldable pub AreAllowed : State K → List (Change Mem Key) → Type 0
  AreAllowed s [] = Unit
  AreAllowed s (c ∷ cs) = r.IsAllowed c s × AreAllowed (r.apply c s).0 cs

  pub run-IsValid :
      (s : State K) (cs : List (Change Mem Key))
      → IsValid K original s
      → AreAllowed s cs
      → IsValid K original (run s cs).0
  unfolding run AreAllowed
  run-IsValid s [] v h = v
  run-IsValid s (c ∷ cs) v (allowed, h) =
      run-IsValid (r.apply c s).0 cs (r.apply-IsValid s c v allowed) h

  -- A history does to the registry what it does to the set, and gives the same answers.
  pub run-specified :
      (s : State K) (cs : List (Change Mem Key))
      → IsValid K original s
      → AreAllowed s cs
      → ((run s cs).1 ≡ (specified r.is_enough r.same (λ w. r.check w s) cs).1)
        × ((w : Key)
            → r.check w (run s cs).0 ≡ (specified r.is_enough r.same (λ w. r.check w s) cs).0 w)
  unfolding run AreAllowed specified
  run-specified s [] v h = (refl, λ w. refl)
  run-specified s (c ∷ cs) v (allowed, h) =
      let (answers, members) = run-specified (r.apply c s).0 cs (r.apply-IsValid s c v allowed) h in
      let same_set : (λ w. r.check w (r.apply c s).0)
          ≡ changed r.is_enough r.same (λ w. r.check w s) c =
        λ i w. r.apply-check s c v allowed w i in
      (
        ap (λ a. a ∷ (run (r.apply c s).0 cs).1) (r.apply-answer s c v allowed)
            ∙ ap (λ l. answer r.is_enough r.same (λ w. r.check w s) c ∷ l)
                (answers ∙ ap (λ m. (specified r.is_enough r.same m cs).1) same_set),
        λ w. members w ∙ ap (λ m. (specified r.is_enough r.same m cs).0 w) same_set,
      )
