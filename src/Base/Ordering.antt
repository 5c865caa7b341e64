-- ===== src/Base/Ordering.antt =====
-- `operator<` of strings is a strict total order, and sorting by it and searching the result is looking
-- for an equal element.
use Prim.Native.Nat.{Ordering}
use mathlib.Core.Path.{◌≡◌, refl, sym, ap, ◌∙◌, subst}
use mathlib.Core.Logic.{◌≢◌, ◌⊎◌, inl, inr, ite, if_pos, if_neg}
use mathlib.Core.Bool.{Bool, true, false}
use mathlib.Core.List.{List, [], ◌∷◌}
use native.Mathlib.Omega.{arith}
use podio.Base.Tests.{Bool-cases}
use podio.Base.Bytes.{Text, text_dec}
use podio.Base.Lexicographic.{text_cmp, text_cmp_refl, text_cmp_eq, text_cmp_flip, text_cmp_trans}
use podio.Base.Sorting.{
  text_less, insert_sorted, sort, lower_bound, starts_with_equivalent, binary_search,
}

Ordering-cases : (o : Ordering) → (o ≡ Ordering.lt) ⊎ (o ≡ Ordering.eq) ⊎ (o ≡ Ordering.gt)
Ordering-cases Ordering.lt = inl refl
Ordering-cases Ordering.eq = inr (inl refl)
Ordering-cases Ordering.gt = inr (inr refl)

less-lt : (a b : Text) → text_less a b ≡ true → text_cmp a b ≡ Ordering.lt
less-lt a b h = elim (Ordering-cases (text_cmp a b)) [
  | inl e ↦ e
  | inr (inl e) ↦ absurd (ground (arith, e, h))
  | inr (inr e) ↦ absurd (ground (arith, e, h))
]

pub text_less_irrefl : (a : Text) → text_less a a ≡ false
text_less_irrefl a = rw (text_less, text_cmp_refl a) refl

pub text_less_trans :
    (a b c : Text) → text_less a b ≡ true → text_less b c ≡ true → text_less a c ≡ true
text_less_trans a b c p q =
    rw (text_less, text_cmp_trans a b c (less-lt a b p) (less-lt b c q)) refl

pub text_less_asym : (a b : Text) → text_less a b ≡ true → text_less b a ≡ false
text_less_asym a b p = elim (Bool-cases (text_less b a)) [
  | inl q ↦ absurd (ground (arith, text_less_trans a b a p q, text_less_irrefl a))
  | inr q ↦ q
]

pub text_less_total : (a b : Text) → text_less a b ≡ false → text_less b a ≡ false → a ≡ b
text_less_total a b p q = elim (Ordering-cases (text_cmp a b)) [
  | inl e ↦ absurd (ground (arith, e, p))
  | inr (inl e) ↦ text_cmp_eq a b e
  | inr (inr e) ↦ absurd (ground (arith, text_cmp_flip a b e, q))
]

-- What is less than something is less than what that is not above.
pub text_less-not_less :
    (a b c : Text) → text_less a b ≡ true → text_less c b ≡ false → text_less a c ≡ true
text_less-not_less a b c p q = elim (Bool-cases (text_less b c)) [
  | inl r ↦ text_less_trans a b c p r
  | inr r ↦ subst (λ x. text_less a x ≡ true) (text_less_total b c r q) p
]

-- Whether an element of a list has the key.
module _ (key : Text → Text) where
  unfoldable pub has_key : Text → List Text → Bool
  has_key k [] = false
  has_key k (x ∷ xs) = ite (text_dec (key x) k) true (has_key k xs)

-- Lists of strings by a key: the comparison `less` is that of the keys.
module _ (key : Text → Text) (less : Text → Text → Bool)
    (by_key : (a b : Text) → less a b ≡ text_less (key a) (key b)) where
  abbrev pub NotBelow : Text → List Text → Type 0
  NotBelow x [] = Unit
  NotBelow x (y ∷ ys) = (text_less (key y) (key x) ≡ false) × NotBelow x ys

  abbrev pub IsSorted : List Text → Type 0
  IsSorted [] = Unit
  IsSorted (x ∷ xs) = NotBelow x xs × IsSorted xs

  NotBelow-trans :
      (x y : Text) (zs : List Text)
      → text_less (key y) (key x) ≡ false
      → NotBelow y zs
      → NotBelow x zs
  NotBelow-trans x y [] h n = tt
  NotBelow-trans x y (z ∷ zs) h n = (
    elim (Bool-cases (text_less (key z) (key x))) [
      | inl p ↦ absurd (ground (arith, text_less-not_less (key z) (key x) (key y) p h, n.0))
      | inr p ↦ p
    ],
    NotBelow-trans x y zs h n.1,
  )

  NotBelow-insert :
      (x y : Text) (ys : List Text)
      → text_less (key y) (key x) ≡ false
      → NotBelow x ys
      → NotBelow x (insert_sorted less y ys)
  unfolding insert_sorted
  NotBelow-insert x y [] h n = (h, tt)
  NotBelow-insert x y (z ∷ zs) h n = elim (Bool-cases (less z y)) [
    | inl p ↦ rw (p) (n.0, NotBelow-insert x y zs h n.1)
    | inr p ↦ rw (p) (h, n)
  ]

  insert_sorted-IsSorted :
      (x : Text) (xs : List Text) → IsSorted xs → IsSorted (insert_sorted less x xs)
  unfolding insert_sorted
  insert_sorted-IsSorted x [] s = (tt, tt)
  insert_sorted-IsSorted x (y ∷ ys) s = elim (Bool-cases (less y x)) [
    | inl p ↦
        let q : text_less (key x) (key y) ≡ false =
          text_less_asym (key y) (key x) (sym (by_key y x) ∙ p) in
        rw (p) (NotBelow-insert y x ys q s.0, insert_sorted-IsSorted x ys s.1)
    | inr p ↦
        let q : text_less (key y) (key x) ≡ false = sym (by_key y x) ∙ p in
        rw (p) ((q, NotBelow-trans x y ys q s.0), s)
  ]

  pub sort-IsSorted : (xs : List Text) → IsSorted (sort less xs)
  unfolding sort
  sort-IsSorted [] = tt
  sort-IsSorted (x ∷ xs) = insert_sorted-IsSorted x (sort less xs) (sort-IsSorted xs)

  has_key-insert :
      (k x : Text) (xs : List Text)
      → has_key key k (insert_sorted less x xs) ≡ has_key key k (x ∷ xs)
  unfolding insert_sorted has_key
  has_key-insert k x [] = refl
  has_key-insert k x (y ∷ ys) = elim (Bool-cases (less y x)) [
    | inl p ↦ rw (p, has_key-insert k x ys) (ground arith)
    | inr p ↦ rw (p) refl
  ]

  has_key-sort : (k : Text) (xs : List Text) → has_key key k (sort less xs) ≡ has_key key k xs
  unfolding sort has_key
  has_key-sort k [] = refl
  has_key-sort k (x ∷ xs) =
      has_key-insert k x (sort less xs)
      ∙ ap (λ b. ite (text_dec (key x) k) true b) (has_key-sort k xs)

  less-ne : (x v : Text) → less x v ≡ true → key x ≢ key v
  less-ne x v p e =
      let q : text_less (key x) (key v) ≡ true = sym (by_key x v) ∙ p in
      let r : text_less (key v) (key v) ≡ true = subst (λ k. text_less k (key v) ≡ true) e q in
      ground (arith, r, text_less_irrefl (key v))

  has_key-NotBelow :
      (v x : Text) (xs : List Text)
      → text_less (key v) (key x) ≡ true
      → NotBelow x xs
      → has_key key (key v) xs ≡ false
  unfolding has_key
  has_key-NotBelow v x [] h n = refl
  has_key-NotBelow v x (y ∷ ys) h n = elim (text_dec (key y) (key v)) [
    | yes e ↦ absurd (ground (arith, ap (λ k. text_less k (key x)) e, n.0, h))
    | no e ↦ rw (if_neg _ e) (has_key-NotBelow v x ys h n.1)
  ]

  binary_search-IsSorted :
      (xs : List Text) (v : Text) → IsSorted xs → binary_search less xs v ≡ has_key key (key v) xs
  unfolding binary_search lower_bound starts_with_equivalent has_key
  binary_search-IsSorted [] v s = refl
  binary_search-IsSorted (x ∷ xs) v s = elim (Bool-cases (less x v)) [
    | inl p ↦ rw (binary_search, p, if_neg _ (less-ne x v p)) (binary_search-IsSorted xs v s.1)
    | inr p ↦ elim (Bool-cases (less v x)) [
      | inl q ↦
          rw
            (
              binary_search,
              p,
              q,
              if_neg _ (λ (e : key x ≡ key v). less-ne v x q (sym e)),
              has_key-NotBelow v x xs (sym (by_key v x) ∙ q) s.0,
            )
            refl
      | inr q ↦
          rw
            (
              binary_search,
              p,
              q,
              if_pos _
                  (text_less_total (key x) (key v) (sym (by_key x v) ∙ p) (sym (by_key v x) ∙ q)),
            )
            refl
    ]
  ]

  -- Searching a sorted list is looking for the key.
  pub binary_search-sort :
      (xs : List Text) (v : Text) → binary_search less (sort less xs) v ≡ has_key key (key v) xs
  binary_search-sort xs v =
      binary_search-IsSorted (sort less xs) v (sort-IsSorted xs) ∙ has_key-sort (key v) xs
