-- ===== src/IdTable/Laws.antt =====
-- The table stays well formed and hands every name the ID that it was given first.
use podio.Base.{
  ℕ, suc, ◌<◌, ◌≡◌, refl, sym, ◌∙◌, ◌≢◌, ◌⊎◌, inl, inr, Text, text_dec, ℕ_discrete, dec_lt, [], ◌∷◌,
  ◌++◌, none, some, ok, length, get_elem?, index_of, Option-cases, index_of-le, length-append,
  get_elem?-append_left, get_elem?-some, get_elem?-none, index_of-append_left, index_of-snoc_self,
  index_of-snoc_ne, get_elem?-snoc, get_elem?-lt, get_elem?-index_of, index_of-get_elem?-le, arith,
}
use podio.IdTable.{CollectionIdTable, name, collection_id, add}

-- One ID for each name.
pub record IsValid (t : CollectionIdTable) : Type 0 where
  pub paired : length t.collection_ids ≡ length t.names

module _ (hash : Text → ℕ) (t : CollectionIdTable) (n : Text) where
  abbrev pub grown : CollectionIdTable
  grown = record { collection_ids = t.collection_ids ++ hash n ∷ []; names = t.names ++ n ∷ [] }

  pub add_known : {id : ℕ} → IsValid t → collection_id t n ≡ some id → add hash t n ≡ ok (id, t)
  unfolding add collection_id
  add_known v e = ground (
    arith,
    index_of-le text_dec n t.names,
    get_elem?-none t.collection_ids (index_of text_dec n t.names),
  )

  pub add_unknown : IsValid t → collection_id t n ≡ none → add hash t n ≡ ok (hash n, grown)
  unfolding add collection_id
  add_unknown v e = ground (
    arith,
    index_of-le text_dec n t.names,
    get_elem?-some t.collection_ids (index_of text_dec n t.names),
  )

  -- An unknown name is not among the names.
  absent : IsValid t → collection_id t n ≡ none → index_of text_dec n t.names ≡ length t.names
  unfolding collection_id
  absent v e = ground (
    arith,
    index_of-le text_dec n t.names,
    get_elem?-some t.collection_ids (index_of text_dec n t.names),
  )

  pub grown-IsValid : IsValid t → IsValid grown
  grown-IsValid v = record {
    paired = omega (
      arith,
      length-append t.collection_ids (hash n ∷ []),
      length-append t.names (n ∷ []),
      v.paired,
    );
  }

  pub collection_id-grown_self :
      IsValid t → collection_id t n ≡ none → collection_id grown n ≡ some (hash n)
  unfolding collection_id
  collection_id-grown_self v e =
      rw (index_of-snoc_self text_dec n t.names (absent v e))
        (get_elem?-snoc t.collection_ids (hash n) (length t.names) (omega arith))

module _ (hash : Text → ℕ) (t : CollectionIdTable) (n m : Text) where
  pub collection_id-grown_ne :
      IsValid t → m ≢ n → collection_id (grown hash t n) m ≡ collection_id t m
  unfolding collection_id
  collection_id-grown_ne v h = elim (dec_lt (index_of text_dec m t.names) (length t.names)) [
    | yes p ↦
        rw (index_of-append_left text_dec m t.names (n ∷ []) p)
          (get_elem?-append_left t.collection_ids (hash n ∷ []) _ (omega arith))
    | no p ↦
        let e : index_of text_dec m t.names ≡ length t.names =
          omega (arith, index_of-le text_dec m t.names) in
        rw (index_of-snoc_ne text_dec m n t.names e (λ q. h (sym q)), e)
          (get_elem?-none (t.collection_ids ++ hash n ∷ []) (suc (length t.names))
              (omega (arith, length-append t.collection_ids (hash n ∷ [])))
            ∙ sym (get_elem?-none t.collection_ids (length t.names) (omega arith)))
  ]

module _ (hash : Text → ℕ) (t : CollectionIdTable) (n : Text) where
  -- `add` always succeeds on a well-formed table and leaves it well formed. The name then has the
  -- returned ID, which is the hash if the name is new and its old ID if not, and every other name
  -- has the ID that it had.
  pub add_lem :
      IsValid t
      → (id : ℕ) × (t' : CollectionIdTable) × (add hash t n ≡ ok (id, t'))
        × IsValid t'
        × (collection_id t' n ≡ some id)
        × ((collection_id t n ≡ some id) ⊎ ((collection_id t n ≡ none) × (id ≡ hash n)))
        × ((m : Text) → m ≢ n → collection_id t' m ≡ collection_id t m)
  add_lem v = elim (Option-cases (collection_id t n)) [
    | inl e ↦ (
      hash n,
      grown hash t n,
      add_unknown hash t n v e,
      grown-IsValid hash t n v,
      collection_id-grown_self hash t n v e,
      inr (e, refl),
      λ m h. collection_id-grown_ne hash t n m v h,
    )
    | inr (id, e) ↦ (id, t, add_known hash t n v e, v, e, inl e, λ m h. refl)
  ]

  -- When a new name's hash is an ID of the table, the table cannot lead back from the ID that `add`
  -- returns to the new name: it names the collection that had the ID before.
  pub name-add_collision :
      (m : Text)
      → IsValid t
      → collection_id t n ≡ none
      → name t (hash n) ≡ some m
      → m ≢ n
      → (t' : CollectionIdTable) × (add hash t n ≡ ok (hash n, t')) × (name t' (hash n) ≡ some m)
  unfolding name
  name-add_collision m v e h ne =
      let p = get_elem?-lt t.names (index_of ℕ_discrete (hash n) t.collection_ids) h in
      (
        grown hash t n,
        add_unknown hash t n v e,
        rw (index_of-append_left ℕ_discrete (hash n) t.collection_ids (hash n ∷ []) (omega arith))
            (get_elem?-append_left t.names (n ∷ []) _ p ∙ h),
      )

-- No two positions hold the same ID.
abbrev pub DistinctIds : CollectionIdTable → Type 0
DistinctIds t =
    (i j id : ℕ)
    → get_elem? t.collection_ids i ≡ some id
    → get_elem? t.collection_ids j ≡ some id
    → i ≡ j

module _ (t : CollectionIdTable) (v : IsValid t) where
  -- Without a collision the ID of a name leads back to the name.
  pub name-collection_id :
      (n : Text) (id : ℕ) → DistinctIds t → collection_id t n ≡ some id → name t id ≡ some n
  unfolding name collection_id
  name-collection_id n id d e =
      let i = index_of text_dec n t.names in
      let p = get_elem?-lt t.collection_ids i e in
      let q : index_of ℕ_discrete id t.collection_ids < length t.collection_ids =
        omega (arith, index_of-get_elem?-le ℕ_discrete id t.collection_ids i e) in
      rw (d _ i id (get_elem?-index_of ℕ_discrete id t.collection_ids q) e)
        (get_elem?-index_of text_dec n t.names (omega arith))
