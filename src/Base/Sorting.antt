-- ===== src/Base/Sorting.antt =====
-- Sorting by a strict comparison, and what the program does with sorted ranges. `std::ranges::sort`
-- leaves the order of equivalent elements open; here they keep theirs.
use Prim.Native.Nat.{ℕ, zero, suc, ◌+◌, ◌/◌, ◌%◌, Ordering}
use mathlib.Core.Logic.{ite}
use mathlib.Core.Bool.{Bool, true, false, not, cond}
use mathlib.Core.List.{List, [], ◌∷◌, ◌++◌}
use native.Mathlib.Decide.{dec_lt, dec_le}
use podio.Base.Bytes.{Text}
use podio.Base.Lexicographic.{text_cmp}

module _ {A : Type 0} (less : A → A → Bool) where
  unfoldable pub insert_sorted : A → List A → List A
  insert_sorted x [] = x ∷ []
  insert_sorted x (y ∷ ys) = cond (less y x) (y ∷ insert_sorted x ys) (x ∷ y ∷ ys)

  -- `std::ranges::sort`
  unfoldable pub sort : List A → List A
  unfolding insert_sorted
  sort [] = []
  sort (x ∷ xs) = insert_sorted x (sort xs)

  -- `std::lower_bound`: the range from the first element that is not less than the value.
  unfoldable pub lower_bound : List A → A → List A
  lower_bound [] v = []
  lower_bound (x ∷ xs) v = cond (less x v) (lower_bound xs v) (x ∷ xs)

  -- Whether a range starts with an element that the value is not less than.
  unfoldable pub starts_with_equivalent : List A → A → Bool
  starts_with_equivalent [] v = false
  starts_with_equivalent (x ∷ xs) v = not (less v x)

  -- `std::ranges::binary_search` on a sorted range
  unfoldable pub binary_search : List A → A → Bool
  unfolding lower_bound starts_with_equivalent
  binary_search xs v = starts_with_equivalent (lower_bound xs v) v

-- `operator<` of strings, and `std::tolower` of a byte in the "C" locale
abbrev pub text_less : Text → Text → Bool
text_less a b = elim (text_cmp a b) [
  | Ordering.lt ↦ true
  | Ordering.eq ↦ false
  | Ordering.gt ↦ false
]

unfoldable pub to_lower : ℕ → ℕ
to_lower c = ite (dec_le 65 c) (ite (dec_le c 90) (c + 32) c) c

-- `std::to_string` of a number: its decimal digits, of which 20 hold 64 bits.
unfoldable pub decimal_digits : (fuel n : ℕ) → Text
decimal_digits zero n = []
decimal_digits (suc fuel) n =
    let rest = decimal_digits fuel (n / 10) in
    ite (dec_lt n 10) ((48 + n) ∷ []) (rest ++ (48 + n % 10) ∷ [])

unfoldable pub to_string : ℕ → Text
unfolding decimal_digits
to_string n = decimal_digits 20 n
