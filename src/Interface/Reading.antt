-- ===== src/Interface/Reading.antt =====
-- What reading does to the session: it takes input away and touches nothing else.
use soa_repo.Base.{ℕ, ◌≤◌, ◌≡◌, ◌⊎◌, refl, arith, List, [], ◌∷◌, ℤ, length, inl, inr}
use soa_repo.Kernel.{Kernel}
use soa_repo.Interface.Stdio.{Stdio, Scan, matched, mismatch, at_eof, IntFits, skip_rest}
use soa_repo.Interface.Calls.{Session, read_int, read_word}

pub Scan-cases :
    {A : Type 0} (x : Scan A)
    → ((a : A) × (rest : List ℕ) × (x ≡ matched a rest))
      ⊎ ((rest : List ℕ) × (x ≡ mismatch rest))
      ⊎ (x ≡ at_eof)
Scan-cases (matched a rest) = inl (a, rest, refl)
Scan-cases (mismatch rest) = inr (inl (rest, refl))
Scan-cases at_eof = inr (inr refl)

pub length-skip_rest : (input : List ℕ) → length (skip_rest input) ≤ length input
unfolding skip_rest
length-skip_rest [] = omega arith
length-skip_rest (c ∷ rest) = ground (arith, length-skip_rest rest)

module _ (K : Kernel) (io : Stdio) where
  pub read_int_lem :
      (old : ℤ) (s : Session K)
      → IntFits old
      → (length (read_int K io old s).1.input ≤ length s.input)
        × IntFits (read_int K io old s).0
        × ((read_int K io old s).1 ≡ record s { input = (read_int K io old s).1.input })
  unfolding read_int
  read_int_lem old s fits = elim (Scan-cases (io.scan_int s.input)) [
    | inl (z, rest, e) ↦
        let (shorter, z_fits) = io.scan_int_matched s.input z rest e in
        rw (e, read_int) (omega arith, z_fits, refl)
    | inr (inl (rest, e)) ↦ rw (e, read_int) (io.scan_int_mismatch s.input rest e, fits, refl)
    | inr (inr e) ↦ rw (e, read_int) (omega arith, fits, refl)
  ]

  pub read_word_lem :
      (old : List ℕ) (s : Session K)
      → (length (read_word K io old s).1.input ≤ length s.input)
        × ((read_word K io old s).1 ≡ record s { input = (read_word K io old s).1.input })
  unfolding read_word
  read_word_lem old s = elim (Scan-cases (io.scan_word s.input)) [
    | inl (word, rest, e) ↦
        let (shorter, fits) = io.scan_word_matched s.input word rest e in
        rw (e, read_word) (omega arith, refl)
    | inr (inl (rest, e)) ↦ rw (e, read_word) (io.scan_word_mismatch s.input rest e, refl)
    | inr (inr e) ↦ rw (e, read_word) (omega arith, refl)
  ]
