-- ===== src/Base/Lists.antt =====
-- Vectors as lists, measured and indexed by native numbers, under the library's names.
use Prim.Native.Nat.{ℕ, zero, suc, ◌+◌, ◌-◌, ◌≤◌, ◌<◌}
use mathlib.Core.Path.{◌≡◌, refl, ap}
use mathlib.Core.Logic.{◌≢◌, ite}
use mathlib.Core.Bool.{Bool, true, false}
use mathlib.Core.List.{List, [], ◌∷◌, ◌++◌}
use mathlib.Core.Option.{Option, none, some}
use native.Mathlib.Omega.{arith}

module _ {ℓ} {A : Type ℓ} where
  abbrev pub length : List A → ℕ
  length [] = 0
  length (x ∷ xs) = suc (length xs)

  abbrev pub get_elem? : List A → ℕ → Option A
  get_elem? [] i = none
  get_elem? (x ∷ xs) zero = some x
  get_elem? (x ∷ xs) (suc i) = get_elem? xs i

  abbrev pub is_empty : List A → Bool
  is_empty [] = true
  is_empty (x ∷ xs) = false

  -- A write out of bounds changes nothing.
  abbrev pub set : List A → ℕ → A → List A
  set [] i v = []
  set (x ∷ xs) zero v = v ∷ xs
  set (x ∷ xs) (suc i) v = x ∷ set xs i v

  abbrev pub replicate : ℕ → A → List A
  replicate zero a = []
  replicate (suc n) a = a ∷ replicate n a

  abbrev pub take : ℕ → List A → List A
  take zero xs = []
  take (suc n) [] = []
  take (suc n) (x ∷ xs) = x ∷ take n xs

  abbrev pub drop : ℕ → List A → List A
  drop zero xs = xs
  drop (suc n) [] = []
  drop (suc n) (x ∷ xs) = drop n xs

  pub length-append : (xs ys : List A) → length (xs ++ ys) ≡ length xs + length ys
  length-append [] ys = omega arith
  length-append (x ∷ xs) ys = omega (arith, length-append xs ys)

  pub length-replicate : (n : ℕ) (a : A) → length (replicate n a) ≡ n
  length-replicate zero a = refl
  length-replicate (suc n) a = ap suc (length-replicate n a)

  pub length-set : (xs : List A) (i : ℕ) (v : A) → length (set xs i v) ≡ length xs
  length-set [] i v = refl
  length-set (x ∷ xs) zero v = refl
  length-set (x ∷ xs) (suc i) v = ap suc (length-set xs i v)

  pub length-drop : (n : ℕ) (xs : List A) → length (drop n xs) ≡ length xs - n
  length-drop zero xs = omega arith
  length-drop (suc n) [] = omega arith
  length-drop (suc n) (x ∷ xs) = omega (arith, length-drop n xs)

  pub take-append-drop : (n : ℕ) (xs : List A) → take n xs ++ drop n xs ≡ xs
  take-append-drop zero xs = refl
  take-append-drop (suc n) [] = refl
  take-append-drop (suc n) (x ∷ xs) = rw (take-append-drop n xs)

module _ {ℓ} {A : Type ℓ} where
  pub get_elem?-append_left :
      (xs ys : List A) (i : ℕ) → i < length xs → get_elem? (xs ++ ys) i ≡ get_elem? xs i
  get_elem?-append_left [] ys i h = elim h [ ]
  get_elem?-append_left (x ∷ xs) ys zero h = refl
  get_elem?-append_left (x ∷ xs) ys (suc i) h = get_elem?-append_left xs ys i (omega arith)

  pub get_elem?-append_right :
      (xs ys : List A) (i : ℕ) → get_elem? (xs ++ ys) (length xs + i) ≡ get_elem? ys i
  get_elem?-append_right [] ys i = ap (get_elem? ys) (omega arith)
  get_elem?-append_right (x ∷ xs) ys i =
      let e : suc (length xs) + i ≡ suc (length xs + i) = omega arith in
      subst_index e (get_elem?-append_right xs ys i)
    where
      subst_index :
          {m : ℕ}
          → m ≡ suc (length xs + i)
          → get_elem? (xs ++ ys) (length xs + i) ≡ get_elem? ys i
          → get_elem? (x ∷ (xs ++ ys)) m ≡ get_elem? ys i
      subst_index e h = rw e h

  pub get_elem?-none : (xs : List A) (i : ℕ) → length xs ≤ i → get_elem? xs i ≡ none
  get_elem?-none [] i h = refl
  get_elem?-none (x ∷ xs) zero h = absurd (omega arith)
  get_elem?-none (x ∷ xs) (suc i) h = get_elem?-none xs i (omega arith)

  pub get_elem?-some : (xs : List A) (i : ℕ) → i < length xs → (a : A) × (get_elem? xs i ≡ some a)
  get_elem?-some [] i h = elim h [ ]
  get_elem?-some (x ∷ xs) zero h = (x, refl)
  get_elem?-some (x ∷ xs) (suc i) h = get_elem?-some xs i (omega arith)

  pub get_elem?-set_self :
      (xs : List A) (i : ℕ) (v : A) → i < length xs → get_elem? (set xs i v) i ≡ some v
  get_elem?-set_self [] i v h = elim h [ ]
  get_elem?-set_self (x ∷ xs) zero v h = refl
  get_elem?-set_self (x ∷ xs) (suc i) v h = get_elem?-set_self xs i v (omega arith)

  pub get_elem?-set_ne :
      (xs : List A) (i j : ℕ) (v : A) → i ≢ j → get_elem? (set xs i v) j ≡ get_elem? xs j
  get_elem?-set_ne [] i j v h = refl
  get_elem?-set_ne (x ∷ xs) zero zero v h = absurd (h refl)
  get_elem?-set_ne (x ∷ xs) zero (suc j) v h = refl
  get_elem?-set_ne (x ∷ xs) (suc i) zero v h = refl
  get_elem?-set_ne (x ∷ xs) (suc i) (suc j) v h = get_elem?-set_ne xs i j v (λ e. h (ap suc e))

  pub get_elem?-replicate : (n i : ℕ) (a : A) → i < n → get_elem? (replicate n a) i ≡ some a
  get_elem?-replicate zero i a h = elim h [ ]
  get_elem?-replicate (suc n) zero a h = refl
  get_elem?-replicate (suc n) (suc i) a h = get_elem?-replicate n i a (omega arith)

module _ {ℓ} {A : Type ℓ} (dec : Discrete A) where
  -- `std::distance(begin, std::ranges::find(xs, a))`: the length if there is no such element.
  unfoldable pub index_of : A → List A → ℕ
  index_of a [] = 0
  index_of a (x ∷ xs) = ite (dec x a) 0 (suc (index_of a xs))

  pub index_of-le : (a : A) (xs : List A) → index_of a xs ≤ length xs
  unfolding index_of
  index_of-le a [] = omega arith
  index_of-le a (x ∷ xs) = ground (arith, index_of-le a xs)

  pub get_elem?-index_of :
      (a : A) (xs : List A) → index_of a xs < length xs → get_elem? xs (index_of a xs) ≡ some a
  unfolding index_of
  get_elem?-index_of a [] h = elim h [ ]
  get_elem?-index_of a (x ∷ xs) h = ground (arith, get_elem?-index_of a xs)

  pub index_of-append_left :
      (a : A) (xs ys : List A) → index_of a xs < length xs → index_of a (xs ++ ys) ≡ index_of a xs
  unfolding index_of
  index_of-append_left a [] ys h = elim h [ ]
  index_of-append_left a (x ∷ xs) ys h = ground (arith, index_of-append_left a xs ys)

  pub index_of-append_absent :
      (a : A) (xs ys : List A)
      → index_of a xs ≡ length xs
      → index_of a (xs ++ ys) ≡ length xs + index_of a ys
  unfolding index_of
  index_of-append_absent a [] ys h = omega arith
  index_of-append_absent a (x ∷ xs) ys h = ground (arith, index_of-append_absent a xs ys)

  pub index_of-snoc_self :
      (a : A) (xs : List A) → index_of a xs ≡ length xs → index_of a (xs ++ a ∷ []) ≡ length xs
  unfolding index_of
  index_of-snoc_self a [] h = ground arith
  index_of-snoc_self a (x ∷ xs) h = ground (arith, index_of-snoc_self a xs)

  pub index_of-snoc_ne :
      (a b : A) (xs : List A)
      → index_of a xs ≡ length xs
      → b ≢ a
      → index_of a (xs ++ b ∷ []) ≡ suc (length xs)
  unfolding index_of
  index_of-snoc_ne a b [] h ne = ground arith
  index_of-snoc_ne a b (x ∷ xs) h ne = ground (arith, index_of-snoc_ne a b xs)

  -- An element at a position of a list is found no later.
  pub index_of-get_elem?-le :
      (a : A) (xs : List A) (i : ℕ) → get_elem? xs i ≡ some a → index_of a xs ≤ i
  unfolding index_of
  index_of-get_elem?-le a [] i h = cc
  index_of-get_elem?-le a (x ∷ xs) zero h = ground arith
  index_of-get_elem?-le a (x ∷ xs) (suc i) h = ground (arith, index_of-get_elem?-le a xs i)

module _ {ℓ} {A : Type ℓ} where
  pub get_elem?-snoc :
      (xs : List A) (a : A) (i : ℕ) → i ≡ length xs → get_elem? (xs ++ a ∷ []) i ≡ some a
  get_elem?-snoc [] a zero h = refl
  get_elem?-snoc [] a (suc i) h = absurd (omega arith)
  get_elem?-snoc (x ∷ xs) a zero h = absurd (omega arith)
  get_elem?-snoc (x ∷ xs) a (suc i) h = get_elem?-snoc xs a i (omega arith)

  pub get_elem?-lt : (xs : List A) (i : ℕ) {a : A} → get_elem? xs i ≡ some a → i < length xs
  get_elem?-lt [] i h = cc
  get_elem?-lt (x ∷ xs) zero h = omega arith
  get_elem?-lt (x ∷ xs) (suc i) h = omega (arith, get_elem?-lt xs i h)
