-- ===== src/RootUtils/Difference.antt =====
-- `getInconsistentColls` (src/rootUtils.h): the differences of two lists of names, with repetitions.
use podio.Base.{
  ℕ, zero, suc, ◌+◌, ◌-◌, ◌<◌, ◌≡◌, ◌≢◌, refl, sym, ap, subst, inl, inr, Text, text_dec, ite,
  if_pos, if_neg, true, List, [], ◌∷◌, length, sort, insert_sorted, text_less, text_less_irrefl,
  text_less_total, NotBelow, IsSorted, sort-IsSorted, Bool-cases, arith,
}
use podio.RootUtils.{set_difference, set_difference_in, get_inconsistent_colls}

abbrev hit : Text → Text → ℕ
hit x n = ite (text_dec x n) 1 0

-- How often a name occurs
unfoldable pub count : Text → List Text → ℕ
count n [] = 0
count n (x ∷ xs) = ite (text_dec x n) 1 0 + count n xs

-- The lists that `std::ranges::sort` makes
abbrev Sorted : List Text → Type 0
Sorted = IsSorted (λ x. x) text_less (λ a b. refl)

abbrev AllNotBelow : Text → List Text → Type 0
AllNotBelow = NotBelow (λ x. x) text_less (λ a b. refl)

count-insert :
    (n x : Text) (xs : List Text)
    → count n (insert_sorted text_less x xs) ≡ ite (text_dec x n) 1 0 + count n xs
unfolding count insert_sorted
count-insert n x [] = refl
count-insert n x (y ∷ ys) = elim (Bool-cases (text_less y x)) [
  | inl p ↦ rw (p, count-insert n x ys) (omega arith)
  | inr p ↦ rw (p) refl
]

count-sort : (n : Text) (xs : List Text) → count n (sort text_less xs) ≡ count n xs
unfolding count sort
count-sort n [] = refl
count-sort n (x ∷ xs) = rw (count-insert n x (sort text_less xs), count-sort n xs) refl

-- A name that is less than the first of a sorted list does not occur in it.
count-below :
    (n x : Text) (xs : List Text) → text_less n x ≡ true → AllNotBelow x xs → count n xs ≡ 0
unfolding count
count-below n x [] h b = refl
count-below n x (y ∷ ys) h b = elim (text_dec y n) [
  | yes e ↦ absurd (ground (arith, ap (λ k. text_less k x) e, b.0, h))
  | no e ↦ rw (if_neg _ e) (rw (count-below n x ys h b.1) (omega arith))
]

less-not_eq : (a b : Text) → text_less a b ≡ true → a ≢ b
less-not_eq a b p e =
    let q : text_less b b ≡ true = subst (λ k. text_less k b ≡ true) e p in
    ground (arith, q, text_less_irrefl b)

count-below_all :
    (n y : Text) (ys : List Text) → text_less n y ≡ true → Sorted (y ∷ ys) → count n (y ∷ ys) ≡ 0
unfolding count
count-below_all n y ys h s =
    let e : y ≢ n = λ p. less-not_eq n y h (sym p) in
    rw (if_neg _ e) (rw (count-below n y ys h s.0) (omega arith))

left_count :
    (n x y : Text) (xs ys : List Text)
    → text_less x y ≡ true
    → Sorted (y ∷ ys)
    → ite (text_dec x n) 1 0 + (count n xs - count n (y ∷ ys)) ≡ count n (x ∷ xs) - count n (y ∷ ys)
unfolding count
left_count n x y xs ys p t = elim (text_dec x n) [
  | yes e ↦
      let z : count n (y ∷ ys) ≡ 0 =
        count-below_all n y ys (subst (λ k. text_less k y ≡ true) e p) t in
      rw (if_pos _ e) (omega (arith, z))
  | no e ↦ rw (if_neg _ e) (omega arith)
]

right_count :
    (n x y : Text) (xs ys : List Text)
    → text_less y x ≡ true
    → Sorted (x ∷ xs)
    → count n (x ∷ xs) - count n ys ≡ count n (x ∷ xs) - count n (y ∷ ys)
unfolding count
right_count n x y xs ys q s = elim (text_dec y n) [
  | yes e ↦
      let z : count n (x ∷ xs) ≡ 0 =
        count-below_all n x xs (subst (λ k. text_less k x ≡ true) e q) s in
      rw (if_pos _ e) (omega (arith, z))
  | no e ↦ rw (if_neg _ e) (omega arith)
]

both_count :
    (n x y : Text) (xs ys : List Text)
    → x ≡ y
    → count n xs - count n ys ≡ count n (x ∷ xs) - count n (y ∷ ys)
unfolding count
both_count n x y xs ys e = let w : hit x n ≡ hit y n = ap (λ k. hit k n) e in omega (arith, w)

count-set_difference :
    (fuel : ℕ) (xs ys : List Text) (n : Text)
    → length xs + length ys < fuel
    → Sorted xs
    → Sorted ys
    → count n (set_difference_in fuel xs ys) ≡ count n xs - count n ys
unfolding set_difference_in count
count-set_difference zero xs ys n h s t = absurd (omega arith)
count-set_difference (suc fuel) [] ys n h s t = omega arith
count-set_difference (suc fuel) (x ∷ xs) [] n h s t = omega arith
count-set_difference (suc fuel) (x ∷ xs) (y ∷ ys) n h s t = elim (Bool-cases (text_less x y)) [
  | inl p ↦ rw (p) (
      rw (count-set_difference fuel xs (y ∷ ys) n (omega arith) s.1 t) (left_count n x y xs ys p t))
  | inr p ↦ elim (Bool-cases (text_less y x)) [
    | inl q ↦
        rw (p, q)
          (rw (count-set_difference fuel (x ∷ xs) ys n (omega arith) s t.1)
            (right_count n x y xs ys q s))
    | inr q ↦
        rw (p, q)
          (rw (count-set_difference fuel xs ys n (omega arith) s.1 t.1)
            (both_count n x y xs ys (text_less_total x y p q)))
  ]
]

-- Each name is missing as often as it occurs more often in the first list than in the second, and
-- superfluous as often as it occurs more often in the second, whatever the order of the lists.
pub count-get_inconsistent_colls :
    (existing candidates : List Text) (n : Text)
    → (count n (get_inconsistent_colls existing candidates).0
        ≡ count n existing - count n candidates)
      × (count n (get_inconsistent_colls existing candidates).1
          ≡ count n candidates - count n existing)
unfolding get_inconsistent_colls set_difference
count-get_inconsistent_colls existing candidates n =
    let e : List Text = sort text_less existing in
    let c : List Text = sort text_less candidates in
    let es : Sorted e = sort-IsSorted (λ x. x) text_less (λ a b. refl) existing in
    let cs : Sorted c = sort-IsSorted (λ x. x) text_less (λ a b. refl) candidates in
    (
      rw (count-set_difference (suc (length e + length c)) e c n (omega arith) es cs)
          (rw (count-sort n existing, count-sort n candidates) refl),
      rw (count-set_difference (suc (length c + length e)) c e n (omega arith) cs es)
          (rw (count-sort n existing, count-sort n candidates) refl),
    )
