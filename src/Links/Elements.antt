-- ===== src/Links/Elements.antt =====
-- A normal collection numbers its elements, and no element is in two normal collections.
use podio.Base.{
  ℕ, ◌+◌, ◌-◌, ◌%◌, ◌^◌, ◌≤◌, ◌<◌, ◌≡◌, refl, sym, ap, subst, ◌∙◌, ◌≢◌, ◌⊎◌, inl, inr, ℕ_discrete,
  dec_lt, dec_le, true, false, [], ◌∷◌, ◌++◌, Option, none, some, ok, throws, invalid_argument,
  length, get_elem?, get_elem?-lt, get_elem?-append_left, get_elem?-snoc, length-append, arith,
}
use mathlib.Core.Option.{some-injective}
use podio.Links.{
  ObjectId, LinkObj, LinkCollection, Heap, object_at, store, untracked, create, push_back,
  push_back_immutable,
}

module _ {F T W : Type 0} where
  -- In a normal collection the element at each place is an object with this place and the
  -- collection as its ID.
  pub record IsNumbered (h : Heap F T W) (c : LinkCollection W) : Type 0 where
    pub normal : c.is_subset_coll ≡ false
    pub few : length c.entries < 2 ^ 31
    pub numbered :
        (i : ℕ) (e : Option ℕ)
        → get_elem? c.entries i ≡ some e
        → (a : ℕ) × (o : LinkObj F T W) × (e ≡ some a)
          × (h a ≡ some o)
          × (o.id ≡ record { index = i; collection_id = c.collection_id })

  -- An object whose index is that of no element goes at the end of the collection.
  appended :
      (a : ℕ) (o : LinkObj F T W) (h : Heap F T W) (c : LinkCollection W)
      → IsNumbered h c
      → length c.entries + 1 < 2 ^ 31
      → ((q : LinkObj F T W) → h a ≡ some q → 2 ^ 31 ≤ q.id.index)
      → o.id ≡ record { index = length c.entries; collection_id = c.collection_id }
      → IsNumbered (store h a o) (record c { entries = c.entries ++ some a ∷ [] })
  appended a o h c v few fresh id = record {
    normal = v.normal;
    few = omega (arith, few, length-append c.entries (some a ∷ []));
    numbered = λ i e q. elim (dec_lt i (length c.entries)) [
      | yes l ↦
          let (b, p, eb, hb, ib) =
            v.numbered i e (sym (get_elem?-append_left c.entries (some a ∷ []) i l) ∙ q) in
          let index : p.id.index ≡ i = ap (λ (x : ObjectId). x.index) ib in
          let ne : b ≢ a =
            (λ r. absurd (omega (arith, index, v.few, fresh p (subst (λ x. h x ≡ some p) r hb)))) in
          (b, p, eb, ground (arith, hb), ib)
      | no l ↦
          let n : i ≡ length c.entries = omega (
            arith,
            get_elem?-lt (c.entries ++ some a ∷ []) i q,
            length-append c.entries (some a ∷ []),
          ) in
          let last : some (some a) ≡ some e = sym (get_elem?-snoc c.entries (some a) i n) ∙ q in
          (
            a,
            o,
            sym (some-injective _ _ last),
            ground arith,
            id ∙ ap (λ x. record { index = x; collection_id = c.collection_id }) (sym n),
          )
    ];
  }

  -- `create` on a normal collection with room, at an address that is free, succeeds: the collection
  -- stays numbered and has the new object, with the weight of a new link, as its last element.
  pub create-IsNumbered :
      (unit : W) (a : ℕ) (h : Heap F T W) (c : LinkCollection W)
      → IsNumbered h c
      → length c.entries + 1 < 2 ^ 31
      → h a ≡ none
      → (o : LinkObj F T W) × (h' : Heap F T W) × (c' : LinkCollection W) × (create unit a h c
          ≡ ok (a, h', c'))
        × IsNumbered h' c'
        × (c'.entries ≡ c.entries ++ some a ∷ [])
        × (h' a ≡ some o)
        × (o.id ≡ record { index = length c.entries; collection_id = c.collection_id })
        × (o.weight ≡ unit)
        × ((b : ℕ) → b ≢ a → h' b ≡ h b)
  unfolding create
  create-IsNumbered unit a h c v few free =
      let o : LinkObj F T W = record {
        id = record { index = length c.entries; collection_id = c.collection_id };
        weight = unit;
        from = none;
        to = none;
      } in
      let n : (length c.entries + 1 - 1) % 2 ^ 32 ≡ length c.entries = omega arith in
      (
        o,
        store h a o,
        record c { entries = c.entries ++ some a ∷ [] },
        rw (v.normal, n) refl,
        appended a o h c v few (λ q r. absurd (ground arith)) refl,
        refl,
        ground arith,
        refl,
        refl,
        λ b ne. ground arith,
      )

  push_back-normal :
      (a : ℕ) (o : LinkObj F T W) (h : Heap F T W) (c : LinkCollection W)
      → IsNumbered h c
      → length c.entries + 1 < 2 ^ 31
      → h a ≡ some o
      → ((o.id.index ≡ untracked)
          × (h' : Heap F T W) × (c' : LinkCollection W) × (push_back a h c ≡ ok (h', c'))
          × IsNumbered h' c'
          × (c'.entries ≡ c.entries ++ some a ∷ [])
          × (push_back a h' c' ≡ throws invalid_argument))
        ⊎ ((o.id.index ≢ untracked) × (push_back a h c ≡ throws invalid_argument))
  unfolding push_back object_at
  push_back-normal a o h c v few e = elim (ℕ_discrete o.id.index untracked) [
    | no ne ↦ inr (ne, rw (v.normal, e) (ground arith))
    | yes u ↦
        let o' : LinkObj F T W = record o {
          id = record { index = length c.entries % 2 ^ 32; collection_id = c.collection_id };
        } in
        let n : length c.entries % 2 ^ 32 ≡ length c.entries = omega arith in
        let there : store h a o' a ≡ some o' = ground arith in
        let used : length c.entries % 2 ^ 32 ≢ untracked = omega (arith, n) in
        inl (
          u,
          store h a o',
          record c { entries = c.entries ++ some a ∷ [] },
          rw (v.normal, e) (ground arith),
          appended a o' h c v few (λ q r. tracked u q r)
              (ap (λ x. record { index = x; collection_id = c.collection_id }) n),
          refl,
          rw (v.normal, there) (ground arith),
        )
  ]
    where
      tracked : o.id.index ≡ untracked → (q : LinkObj F T W) → h a ≡ some q → 2 ^ 31 ≤ q.id.index
      tracked u q r =
          let same : o.id.index ≡ q.id.index =
            ap (λ (x : LinkObj F T W). x.id.index) (some-injective _ _ (sym e ∙ r)) in
          omega (arith, u, same)

  push_back-subset :
      (a : ℕ) (o : LinkObj F T W) (h : Heap F T W) (s : LinkCollection W)
      → s.is_subset_coll ≡ true
      → h a ≡ some o
      → ((o.id.index < 2 ^ 31)
          × (push_back a h s ≡ ok (h, record s { entries = s.entries ++ some a ∷ [] })))
        ⊎ ((2 ^ 31 ≤ o.id.index) × (push_back a h s ≡ throws invalid_argument))
  unfolding push_back push_back_immutable object_at
  push_back-subset a o h s subset e = elim (dec_le (2 ^ 31) o.id.index) [
    | yes p ↦ inr (p, rw (subset, e) (ground arith))
    | no p ↦ inl (omega arith, rw (subset, e) (ground arith))
  ]

  -- `push_back` of a mutable handle on an object adds it to a normal collection with room, which stays
  -- numbered, if the object is in no collection; adding it once more is then refused, as is every
  -- object with another index. A subset collection does the opposite: it takes an object that has a
  -- place in a collection, at the end and without a change to the object, and refuses one whose index
  -- is negative.
  pub push_back-IsNumbered :
      (a : ℕ) (o : LinkObj F T W) (h : Heap F T W) (c s : LinkCollection W)
      → IsNumbered h c
      → length c.entries + 1 < 2 ^ 31
      → s.is_subset_coll ≡ true
      → h a ≡ some o
      → (((o.id.index ≡ untracked)
            × (h' : Heap F T W) × (c' : LinkCollection W) × (push_back a h c ≡ ok (h', c'))
            × IsNumbered h' c'
            × (c'.entries ≡ c.entries ++ some a ∷ [])
            × (push_back a h' c' ≡ throws invalid_argument))
          ⊎ ((o.id.index ≢ untracked) × (push_back a h c ≡ throws invalid_argument)))
        × (((o.id.index < 2 ^ 31)
              × (push_back a h s ≡ ok (h, record s { entries = s.entries ++ some a ∷ [] })))
            ⊎ ((2 ^ 31 ≤ o.id.index) × (push_back a h s ≡ throws invalid_argument)))
  push_back-IsNumbered a o h c s v few subset e =
      (push_back-normal a o h c v few e, push_back-subset a o h s subset e)
