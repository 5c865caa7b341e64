-- ===== src/SioData/Laws.antt =====
-- `SIOFrameData` (src/SIOFrameData.cc) against the map of buffers that `ROOTFrameData` keeps.
use podio.Base.{
  ℕ, zero, ap, suc, ◌+◌, ◌-◌, ◌<◌, ◌≡◌, refl, Text, text_dec, ℕ_discrete, ite, List, [], ◌∷◌, none,
  some, ok, length, get_elem?, set, index_of, find, remove, keys, arith, subst, set,
}
use podio.SioData.{SioBlock, meta_data, missing, collection, take_block, available_from}

-- The names differ from one another.
abbrev pub Distinct : List Text → Type 0
Distinct [] = Unit
Distinct (n ∷ ns) = (index_of text_dec n ns ≡ length ns) × Distinct ns

-- A flag and the block of a collection for each name
pub data Aligned {K : Type 0} : List Text → List ℕ → List (SioBlock K) → Type 0 where
  no_blocks : Aligned [] [] []
  one_block :
      (n : Text) (a : ℕ) (k : K) (ns : List Text) (available : List ℕ) (blocks : List (SioBlock K))
      → Aligned ns available blocks
      → Aligned (n ∷ ns) (a ∷ available) (collection k ∷ blocks)

module _ {K B : Type 0} (get_buffers : K → B) where
  -- The collections that are still available, with their buffers, as a map.
  unfoldable pub held : List Text → List ℕ → List (SioBlock K) → List (Text × B)
  held (n ∷ ns) (a ∷ available) (collection k ∷ blocks) =
      ite (ℕ_discrete a 0) (held ns available blocks)
        ((n, get_buffers k) ∷ held ns available blocks)
  held _ _ _ = []

  pub held-absent :
      (n : Text) (ns : List Text) (available : List ℕ) (blocks : List (SioBlock K))
      → index_of text_dec n ns ≡ length ns
      → (find text_dec n (held ns available blocks) ≡ none)
        × (remove text_dec n (held ns available blocks) ≡ held ns available blocks)
  unfolding held find remove index_of
  held-absent n [] [] [] h = (refl, refl)
  held-absent n [] [] (b ∷ blocks) h = (refl, refl)
  held-absent n [] (a ∷ available) blocks h = (refl, refl)
  held-absent n (m ∷ ns) [] blocks h = (refl, refl)
  held-absent n (m ∷ ns) (a ∷ available) [] h = (refl, refl)
  held-absent n (m ∷ ns) (a ∷ available) (meta_data ∷ blocks) h = (refl, refl)
  held-absent n (m ∷ ns) (a ∷ available) (missing ∷ blocks) h = (refl, refl)
  held-absent n (m ∷ ns) (a ∷ available) (collection k ∷ blocks) h = (
    ground (arith, held-absent n ns available blocks),
    ground (arith, held-absent n ns available blocks),
  )

  Aligned-get :
      {ns : List Text} {available : List ℕ} {blocks : List (SioBlock K)} (i : ℕ)
      → Aligned ns available blocks
      → i < length ns
      → (a : ℕ) × (k : K) × (get_elem? available i ≡ some a)
        × (get_elem? blocks i ≡ some (collection k))
  Aligned-get i no_blocks h = elim h [ ]
  Aligned-get zero (one_block n a k ns available blocks w) h = (a, k, refl, refl)
  Aligned-get (suc i) (one_block n a k ns available blocks w) h = Aligned-get i w (omega arith)

  pub Aligned-set :
      {ns : List Text} {available : List ℕ} {blocks : List (SioBlock K)} (i v : ℕ)
      → Aligned ns available blocks
      → Aligned ns (set available i v) blocks
  Aligned-set i v no_blocks = no_blocks
  Aligned-set zero v (one_block n a k ns available blocks w) = one_block n v k ns available blocks w
  Aligned-set (suc i) v (one_block n a k ns available blocks w) =
      one_block n a k ns (set available i v) blocks (Aligned-set i v w)

  set-same : (xs : List ℕ) (i v : ℕ) → get_elem? xs i ≡ some v → set xs i v ≡ xs
  set-same [] i v h = refl
  set-same (x ∷ xs) zero v h = cc
  set-same (x ∷ xs) (suc i) v h = rw (set-same xs i v h) refl

  find-held :
      (n : Text) {ns : List Text} {available : List ℕ} {blocks : List (SioBlock K)} (a : ℕ) (k : K)
      → Aligned ns available blocks
      → Distinct ns
      → get_elem? available (index_of text_dec n ns) ≡ some a
      → get_elem? blocks (index_of text_dec n ns) ≡ some (collection k)
      → find text_dec n (held ns available blocks)
        ≡ ite (ℕ_discrete a 0) none (some (get_buffers k))
  unfolding held find index_of
  find-held n a k no_blocks d p q = cc
  find-held n a k (one_block m b j ns available blocks w) d p q = elim (text_dec m n) [
    | yes e ↦ ground (arith, held-absent n ns available blocks, ap (λ x. index_of text_dec x ns) e)
    | no e ↦ ground (arith, find-held n a k w d.1)
  ]

  pub held-set :
      (n : Text) {ns : List Text} {available : List ℕ} {blocks : List (SioBlock K)}
      → Aligned ns available blocks
      → Distinct ns
      → held ns (set available (index_of text_dec n ns) 0) blocks
        ≡ remove text_dec n (held ns available blocks)
  unfolding held remove index_of
  held-set n no_blocks d = refl
  held-set n (one_block m b j ns available blocks w) d = elim (text_dec m n) [
    | yes e ↦ ground (arith, held-absent n ns available blocks, ap (λ x. index_of text_dec x ns) e)
    | no e ↦ ground (arith, held-set n w d.1)
  ]

  take_block-at :
      (n : Text) {ns : List Text} (flag a : ℕ) (first : SioBlock K) (k : K) {available : List ℕ}
      {blocks : List (SioBlock K)}
      → Aligned ns available blocks
      → Distinct ns
      → get_elem? available (index_of text_dec n ns) ≡ some a
      → get_elem? blocks (index_of text_dec n ns) ≡ some (collection k)
      → take_block get_buffers ns (flag ∷ available) (first ∷ blocks) n
        ≡ ok (
          find text_dec n (held ns available blocks),
          flag ∷ set available (index_of text_dec n ns) 0,
        )
  unfolding take_block
  take_block-at n {ns} flag a first k {available} w d p q = elim (ℕ_discrete a 0) [
    | yes z ↦
        ground (arith, find-held n a k w d p q, set-same available (index_of text_dec n ns) 0, p, q)
    | no z ↦ ground (arith, find-held n a k w d p q, p, q)
  ]

  pub take_block_lem :
      (n : Text) {ns : List Text} (flag : ℕ) (first : SioBlock K) {available : List ℕ}
      {blocks : List (SioBlock K)}
      → Aligned ns available blocks
      → Distinct ns
      → index_of text_dec n ns < length ns
      → take_block get_buffers ns (flag ∷ available) (first ∷ blocks) n
        ≡ ok (
          find text_dec n (held ns available blocks),
          flag ∷ set available (index_of text_dec n ns) 0,
        )
  take_block_lem n {ns} flag first w d h =
      let (a, k, p, q) = Aligned-get (index_of text_dec n ns) w h in
      take_block-at n flag a first k w d p q

  shifted {ℓ} :
      {A : Type ℓ} (xs ys : List A) (i : ℕ)
      → ((j : ℕ) → get_elem? xs (i + j) ≡ get_elem? ys j)
      → get_elem? xs i ≡ get_elem? ys 0
  shifted xs ys i h = subst (λ m. get_elem? xs m ≡ get_elem? ys 0) (omega arith) (h 0)

  shifted_next {ℓ} :
      {A : Type ℓ} (xs ys : List A) (y : A) (i : ℕ)
      → ((j : ℕ) → get_elem? xs (i + j) ≡ get_elem? (y ∷ ys) j)
      → (j : ℕ) → get_elem? xs (suc i + j) ≡ get_elem? ys j
  shifted_next xs ys y i h j =
      subst (λ m. get_elem? xs m ≡ get_elem? ys j) (omega arith) (h (suc j))

  -- The loop over the flags and names from a position on
  pub available_from-held :
      (names : List Text) (flags : List ℕ) (i : ℕ) {ns : List Text} {available : List ℕ}
      {blocks : List (SioBlock K)}
      → ((j : ℕ) → get_elem? names (i + j) ≡ get_elem? ns j)
      → ((j : ℕ) → get_elem? flags (suc i + j) ≡ get_elem? available j)
      → Aligned ns available blocks
      → available_from names flags (length blocks) (suc i) ≡ ok (keys (held ns available blocks))
  unfolding available_from held
  available_from-held names flags i f g no_blocks = refl
  available_from-held names flags i f g (one_block n a k ns available blocks w) =
      let e : suc i - 1 ≡ i = omega arith in
      rw (e, shifted flags (a ∷ available) (suc i) g, shifted names (n ∷ ns) i f)
        (rw
          (available_from-held names flags (suc i) (shifted_next names ns n i f)
            (shifted_next flags available a (suc i) g) w)
          (ground arith))
