-- ===== src/Base/Lexicographic.antt =====
-- `operator<` of strings: bytes compared one by one, a proper prefix first.
use Prim.Native.Nat.{Ordering, compare}
use mathlib.Core.Path.{◌≡◌, refl}
use mathlib.Core.List.{[], ◌∷◌}
use native.Mathlib.Omega.{arith}
use podio.Base.Bytes.{Text}
use podio.Base.OrderedMap.{KeyOrder}

unfoldable pub text_cmp : Text → Text → Ordering
text_cmp [] [] = Ordering.eq
text_cmp [] (y ∷ ys) = Ordering.lt
text_cmp (x ∷ xs) [] = Ordering.gt
text_cmp (x ∷ xs) (y ∷ ys) = elim (compare x y) [
  | Ordering.lt ↦ Ordering.lt
  | Ordering.eq ↦ text_cmp xs ys
  | Ordering.gt ↦ Ordering.gt
]

pub text_cmp_refl : (a : Text) → text_cmp a a ≡ Ordering.eq
unfolding text_cmp
text_cmp_refl [] = refl
text_cmp_refl (x ∷ xs) = ground (arith, text_cmp_refl xs)

pub text_cmp_eq : (a b : Text) → text_cmp a b ≡ Ordering.eq → a ≡ b
unfolding text_cmp
text_cmp_eq [] [] e = refl
text_cmp_eq [] (y ∷ ys) e = cc
text_cmp_eq (x ∷ xs) [] e = cc
text_cmp_eq (x ∷ xs) (y ∷ ys) e = ground (arith, text_cmp_eq xs ys)

pub text_cmp_flip : (a b : Text) → text_cmp a b ≡ Ordering.gt → text_cmp b a ≡ Ordering.lt
unfolding text_cmp
text_cmp_flip [] [] e = cc
text_cmp_flip [] (y ∷ ys) e = cc
text_cmp_flip (x ∷ xs) [] e = refl
text_cmp_flip (x ∷ xs) (y ∷ ys) e = ground (arith, text_cmp_flip xs ys)

pub text_cmp_trans :
    (a b c : Text)
    → text_cmp a b ≡ Ordering.lt
    → text_cmp b c ≡ Ordering.lt
    → text_cmp a c ≡ Ordering.lt
unfolding text_cmp
text_cmp_trans [] [] c e f = cc
text_cmp_trans [] (y ∷ ys) [] e f = cc
text_cmp_trans [] (y ∷ ys) (z ∷ zs) e f = refl
text_cmp_trans (x ∷ xs) [] c e f = cc
text_cmp_trans (x ∷ xs) (y ∷ ys) [] e f = cc
text_cmp_trans (x ∷ xs) (y ∷ ys) (z ∷ zs) e f = ground (arith, text_cmp_trans xs ys zs)

abbrev pub text_order : KeyOrder Text
text_order = record {
  cmp = text_cmp;
  cmp_refl = text_cmp_refl;
  cmp_eq = text_cmp_eq;
  cmp_flip = text_cmp_flip;
  cmp_trans = text_cmp_trans;
}
