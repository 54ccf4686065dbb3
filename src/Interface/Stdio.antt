-- ===== src/Interface/Stdio.antt =====
-- What user/interface.c takes from the C library, a parameter, and its own loops over getchar.
use soa_repo.Base.{
  ℕ, ◌<◌, ◌≤◌, ◌^◌, ◌≡◌, ◌==◌, List, [], ◌∷◌, Option, none, some, ℤ, pos, negsuc, length,
  if◌then◌else◌,
}

-- The outcome of a scanf with one conversion, with the input that is left.
pub data Scan (A : Type 0) : Type 0 where
  matched : A → List ℕ → Scan A
  mismatch : List ℕ → Scan A
  at_eof : Scan A

abbrev pub IntFits : ℤ → Type 0
IntFits (pos n) = n < 2 ^ 31
IntFits (negsuc n) = n < 2 ^ 31

pub record Stdio : Type 0 where
  -- scanf("%d", ...): a number is at least one character, and an `int`
  pub scan_int : List ℕ → Scan ℤ
  pub scan_int_matched :
      (input : List ℕ) (z : ℤ) (rest : List ℕ)
      → scan_int input ≡ matched z rest
      → (length rest < length input) × IntFits z
  pub scan_int_mismatch :
      (input rest : List ℕ) → scan_int input ≡ mismatch rest → length rest ≤ length input
  -- scanf("%15s", ...)
  pub scan_word : List ℕ → Scan (List ℕ)
  pub scan_word_matched :
      (input word rest : List ℕ)
      → scan_word input ≡ matched word rest
      → (length rest < length input) × (length word ≤ 15)
  pub scan_word_mismatch :
      (input rest : List ℕ) → scan_word input ≡ mismatch rest → length rest ≤ length input

-- `while (getchar() != '\n');`. At the end of the input getchar returns EOF for ever: none.
unfoldable pub skip_line : List ℕ → Option (List ℕ)
skip_line [] = none
skip_line (c ∷ rest) = let later = skip_line rest in if c == 10 then some rest else later

-- `while ((c = getchar()) != '\n' && c != EOF);`
unfoldable pub skip_rest : List ℕ → List ℕ
skip_rest [] = []
skip_rest (c ∷ rest) = let later = skip_rest rest in if c == 10 then rest else later
