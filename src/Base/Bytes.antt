-- ===== src/Base/Bytes.antt =====
-- `std::string` as the list of its bytes.
use Prim.Native.Char.{code}
use Prim.Native.String.{String}
use Prim.Native.Nat.{ℕ}
use mathlib.Core.List.{List, [], ◌∷◌}
use mathlib.Core.Path.{◌≡◌, refl}
use native.Mathlib.Decide.{ℕ_discrete}
use native.Mathlib.Omega.{arith}

abbrev pub Text : Type 0
Text = List ℕ

-- The bytes of a literal; all literals of the program are ASCII.
abbrev pub codes : String → Text
codes String.[] = []
codes (String.◌∷◌ c s) = code c ∷ codes s

cons_eq : {x y : ℕ} {xs ys : Text} → x ≡ y → xs ≡ ys → x ∷ xs ≡ y ∷ ys
cons_eq p q = cc

head_ne : {x y : ℕ} {xs ys : Text} → ¬ (x ≡ y) → ¬ (x ∷ xs ≡ y ∷ ys)
head_ne h e = ground arith

tail_ne : {x y : ℕ} {xs ys : Text} → ¬ (xs ≡ ys) → ¬ (x ∷ xs ≡ y ∷ ys)
tail_ne h e = ground arith

nil_ne : {y : ℕ} {ys : Text} → ¬ ([] ≡ y ∷ ys)
nil_ne e = cc

cons_ne : {x : ℕ} {xs : Text} → ¬ (x ∷ xs ≡ [])
cons_ne e = cc

-- `operator==` of strings
unfoldable pub text_dec : Discrete Text
unfolding ℕ_discrete nil_ne cons_ne cons_eq tail_ne head_ne
text_dec [] [] = yes refl
text_dec [] (y ∷ ys) = no nil_ne
text_dec (x ∷ xs) [] = no cons_ne
text_dec (x ∷ xs) (y ∷ ys) = elim (ℕ_discrete x y) [
  | yes p ↦ elim (text_dec xs ys) [ yes q ↦ yes (cons_eq p q) | no q ↦ no (tail_ne q) ]
  | no p ↦ no (head_ne p)
]
