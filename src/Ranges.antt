-- ===== src/Ranges.antt =====
-- `RelationRange` (include/podio/RelationRange.h): a view of the part of a vector that belongs to an
-- object. `A` is the type of elements.
use podio.Base.{
  ℕ, ◌+◌, ◌-◌, ℕ_discrete, dec_lt, ite, Bool, true, false, List, Outcome, throws, out_of_range,
  unchecked, get_elem?, take, drop,
}

-- A range of a vector from one position up to another, and its size
module _ (A : Type 0) where
  pub record RelationRange : Type 0 where
    pub vector : List A
    pub first : ℕ
    pub last : ℕ
    pub n_elements : ℕ

module _ {A : Type 0} where
  unfoldable pub make : List A → (first last : ℕ) → RelationRange A
  make vector first last = record {
    vector = vector;
    first = first;
    last = last;
    n_elements = last - first;
  }

  unfoldable pub size : RelationRange A → ℕ
  size r = r.n_elements

  unfoldable pub empty : RelationRange A → Bool
  empty r = ite (ℕ_discrete r.first r.last) true false

  -- An access through the iterators, which is not checked
  unfoldable pub element : ℕ → RelationRange A → Outcome A
  element i r = unchecked (get_elem? r.vector (r.first + i))

  unfoldable pub front : RelationRange A → Outcome A
  front r = unchecked (get_elem? r.vector r.first)

  unfoldable pub back : RelationRange A → Outcome A
  back r = unchecked (get_elem? r.vector (r.last - 1))

  unfoldable pub at : ℕ → RelationRange A → Outcome A
  unfolding element
  at i r = ite (dec_lt i r.n_elements) (element i r) (throws out_of_range)

  -- The elements of an iteration from `first` up to `last`
  unfoldable pub elements : RelationRange A → List A
  elements r = take (r.last - r.first) (drop r.first r.vector)
