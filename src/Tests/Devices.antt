-- ===== src/Tests/Devices.antt =====
-- Devices of the SIO library that are lists of numbers.
use podio.Base.{ℕ, zero, suc, ◌≡◌, refl, List, [], ◌∷◌, ◌++◌, Option, none, some, length, arith}
use podio.Toc.{Codec}

-- A device that writes each number as it is, and a list behind its length.
abbrev pub numbers : Codec ℕ
numbers = record {
  Fit = λ n. Unit;
  write = λ n rest. n ∷ rest;
  read = λ d. elim d [ [] ↦ none | n ∷ rest ↦ some (n, rest) ];
  read-write = λ n rest f. refl;
}

abbrev pub take_list : ℕ → List ℕ → Option (List ℕ × List ℕ)
take_list zero d = some ([], d)
take_list (suc n) [] = none
take_list (suc n) (a ∷ d) = elim (take_list n d) [
  | none ↦ none
  | some (xs, rest) ↦ some (a ∷ xs, rest)
]

pub take_list-append : (xs rest : List ℕ) → take_list (length xs) (xs ++ rest) ≡ some (xs, rest)
take_list-append [] rest = refl
take_list-append (x ∷ xs) rest = rw (take_list-append xs rest) refl

abbrev pub lists : Codec (List ℕ)
lists = record {
  Fit = λ xs. Unit;
  write = λ xs rest. length xs ∷ (xs ++ rest);
  read = λ d. elim d [ [] ↦ none | n ∷ rest ↦ take_list n rest ];
  read-write = λ xs rest f. take_list-append xs rest;
}

-- Texts one after the other, behind their number.
abbrev pub write_texts : List (List ℕ) → List ℕ → List ℕ
write_texts [] rest = rest
write_texts (x ∷ xs) rest = length x ∷ (x ++ write_texts xs rest)

abbrev pub read_texts : ℕ → List ℕ → Option (List (List ℕ) × List ℕ)
read_texts zero d = some ([], d)
read_texts (suc n) [] = none
read_texts (suc n) (k ∷ d) = elim (take_list k d) [
  | none ↦ none
  | some (x, rest) ↦ elim (read_texts n rest) [ none ↦ none | some (xs, end) ↦ some (x ∷ xs, end) ]
]

pub read_texts-write_texts :
    (xs : List (List ℕ)) (rest : List ℕ)
    → read_texts (length xs) (write_texts xs rest) ≡ some (xs, rest)
read_texts-write_texts [] rest = refl
read_texts-write_texts (x ∷ xs) rest =
    ground (arith, take_list-append x (write_texts xs rest), read_texts-write_texts xs rest)

abbrev pub texts : Codec (List (List ℕ))
texts = record {
  Fit = λ xs. Unit;
  write = λ xs rest. length xs ∷ write_texts xs rest;
  read = λ d. elim d [ [] ↦ none | n ∷ rest ↦ read_texts n rest ];
  read-write = λ xs rest f. read_texts-write_texts xs rest;
}
