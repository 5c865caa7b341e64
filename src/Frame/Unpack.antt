-- ===== src/Frame/Unpack.antt =====
-- Getting a collection ends, also when references go in circles, and touches no other collection.
use podio.Base.{
  ℕ, zero, suc, ◌≤◌, ◌<◌, ◌≡◌, refl, sym, ap, subst, ◌∙◌, ◌≢◌, ◌⊎◌, inl, inr, Text, text_dec,
  ℕ_discrete, dec_lt, cond, Bool, true, false, ◌||◌, List, [], ◌∷◌, Option, none, some, Outcome, ok,
  is_some, find, emplace, assign, length, index_of, Option-cases, find-emplace_new, find-emplace_ne,
  find-assign_self, find-assign_ne, arith,
}
use podio.IdTable.{name, collection_id}
use podio.Evolution.{SchemaEvolution}
use podio.Frame.{
  Collections, FrameModel, create_collection, unpack, provide, provide_all, set_references, do_get,
}
use podio.Frame.Data.{FrameData, Consumes}

module _ {R B C P : Type 0} (raw : FrameData R B P) (cs : Collections B C)
    (evolution : SchemaEvolution B) (w : Consumes raw) where
  -- Everything that the raw data holds can be unpacked: it has an ID, and its schema evolution
  -- works.
  pub record IsReady (f : FrameModel R C P) : Type 0 where
    pub known :
        (n : Text) (b : B)
        → w.raw f.raw_data n ≡ some b
        → (id : ℕ) × (collection_id f.id_table n ≡ some id)
    pub creates :
        (n : Text) (b : B)
        → w.raw f.raw_data n ≡ some b
        → (c : C) × (create_collection raw cs evolution b ≡ ok c)

  -- The second Frame is the first after some unpacking: what was in the map is as it was, and
  -- nothing of the raw data is lost.
  pub record Grows (f f' : FrameModel R C P) : Type 0 where
    pub table : f'.id_table ≡ f.id_table
    pub kept :
        (m : Text) (c : C)
        → find text_dec m f.collections ≡ some c
        → find text_dec m f'.collections ≡ some c
    pub taken : (m : Text) (b : B) → w.raw f'.raw_data m ≡ some b → w.raw f.raw_data m ≡ some b
    pub moved :
        (m : Text) (b : B)
        → w.raw f.raw_data m ≡ some b
        → (w.raw f'.raw_data m ≡ some b) ⊎ (is_some (find text_dec m f'.collections) ≡ true)
    pub fewer : w.left f'.raw_data ≤ w.left f.raw_data

  -- The same for all collections but one.
  pub record GrowsBut (n : Text) (f f' : FrameModel R C P) : Type 0 where
    pub table : f'.id_table ≡ f.id_table
    pub kept :
        (m : Text) (c : C)
        → n ≢ m
        → find text_dec m f.collections ≡ some c
        → find text_dec m f'.collections ≡ some c
    pub taken : (m : Text) (b : B) → w.raw f'.raw_data m ≡ some b → w.raw f.raw_data m ≡ some b
    pub moved :
        (m : Text) (b : B)
        → w.raw f.raw_data m ≡ some b
        → (w.raw f'.raw_data m ≡ some b) ⊎ (is_some (find text_dec m f'.collections) ≡ true)
    pub fewer : w.left f'.raw_data ≤ w.left f.raw_data

  Grows-refl : (f : FrameModel R C P) → Grows f f
  Grows-refl f = record {
    table = refl;
    kept = λ m c e. e;
    taken = λ m b e. e;
    moved = λ m b e. inl e;
    fewer = omega arith;
  }

  kept_some :
      (f f' : FrameModel R C P) (m : Text)
      → Grows f f'
      → is_some (find text_dec m f.collections) ≡ true
      → is_some (find text_dec m f'.collections) ≡ true
  kept_some f f' m g e = elim (Option-cases (find text_dec m f.collections)) [
    | inl n ↦ absurd (ground arith)
    | inr (c, n) ↦ rw (g.kept m c n) refl
  ]

  Grows-trans : (f f' f'' : FrameModel R C P) → Grows f f' → Grows f' f'' → Grows f f''
  Grows-trans f f' f'' g h = record {
    table = h.table ∙ g.table;
    kept = λ m c e. h.kept m c (g.kept m c e);
    taken = λ m b e. g.taken m b (h.taken m b e);
    moved = λ m b e. elim (g.moved m b e) [
      | inl q ↦ h.moved m b q
      | inr q ↦ inr (kept_some f' f'' m h q)
    ];
    fewer = omega (arith, g.fewer, h.fewer);
  }

  IsReady-Grows : (f f' : FrameModel R C P) → Grows f f' → IsReady f → IsReady f'
  IsReady-Grows f f' g v = record {
    known = λ n b e. let (id, q) = v.known n b (g.taken n b e) in (id, rw (g.table) q);
    creates = λ n b e. v.creates n b (g.taken n b e);
  }

  -- Whether the collection is in the map or still in the raw data.
  abbrev pub there : Text → FrameModel R C P → Bool
  there n f = is_some (find text_dec n f.collections) || is_some (w.raw f.raw_data n)

  kept_assign :
      (n : Text) (c : C) (cols : List (Text × C)) (m : Text)
      → is_some (find text_dec m cols) ≡ true
      → is_some (find text_dec m (assign text_dec n c cols)) ≡ true
  kept_assign n c cols m e = elim (text_dec n m) [
    | yes p ↦ ap is_some (
        subst (λ x. find text_dec x (assign text_dec n c cols) ≡ some c) p
          (find-assign_self text_dec n c cols))
    | no p ↦ ap is_some (find-assign_ne text_dec n m c cols p) ∙ e
  ]

  -- What a function does that gets a collection by its name, from raw data with fewer than `k`
  -- collections.
  abbrev pub Gets :
      ℕ → (Text → Bool → FrameModel R C P → Outcome (Bool × FrameModel R C P)) → Type 0
  Gets k go =
      (n : Text) (refs : Bool) (f : FrameModel R C P)
      → IsReady f
      → w.left f.raw_data < k
      → (f' : FrameModel R C P) × (go n refs f ≡ ok (there n f, f'))
        × Grows f f'
        × (is_some (find text_dec n f'.collections) ≡ there n f)

  module _ (k : ℕ) (go : Text → Bool → FrameModel R C P → Outcome (Bool × FrameModel R C P))
      (g : Gets k go) where
    provide-Grows :
        (id : ℕ) (f : FrameModel R C P)
        → IsReady f
        → w.left f.raw_data < k
        → (o : Option Text) × (f' : FrameModel R C P) × (provide raw cs evolution go id f
            ≡ ok (o, f'))
          × Grows f f'
    unfolding provide
    provide-Grows id f v l = elim (Option-cases (name f.id_table id)) [
      | inl e ↦ (none, f, rw (e, provide), Grows-refl f)
      | inr (n, e) ↦
          elim (dec_lt (index_of ℕ_discrete id f.retrieved_ids) (length f.retrieved_ids)) [
            | yes p ↦
                let (f', q, h, z) = g n false f v l in
                (cond (there n f) (some n) none, f', rw (e, provide) (ground (arith, q)), h)
            | no p ↦
                let marked = record f { retrieved_ids = id ∷ f.retrieved_ids } in
                let (f', q, h, z) =
                  g n true marked (record { known = v.known; creates = v.creates }) l in
                (
                  cond (there n marked) (some n) none,
                  f',
                  rw (e, provide) (ground (arith, q)),
                  record {
                    table = h.table;
                    kept = h.kept;
                    taken = h.taken;
                    moved = h.moved;
                    fewer = h.fewer;
                  },
                )
          ]
    ]

    provide_all-Grows :
        (ids : List ℕ) (f : FrameModel R C P)
        → IsReady f
        → w.left f.raw_data < k
        → (os : List (Option Text)) × (f' : FrameModel R C P) × (provide_all raw cs evolution go ids
              f
            ≡ ok (os, f'))
          × Grows f f'
    unfolding provide_all
    provide_all-Grows [] f v l = ([], f, refl, Grows-refl f)
    provide_all-Grows (id ∷ ids) f v l =
        let (o, f', e, h) = provide-Grows id f v l in
        let (os, f'', e', h') =
          provide_all-Grows ids f' (IsReady-Grows f f' h v) (omega (arith, h.fewer)) in
        (o ∷ os, f'', rw (e, e'), Grows-trans f f' f'' h h')

    -- The collection under its name is there all along, and gets its links.
    set_references-Grows :
        (n : Text) (coll : C) (f : FrameModel R C P)
        → IsReady f
        → w.left f.raw_data < k
        → find text_dec n f.collections ≡ some coll
        → (links : List (Option Text)) × (f' : FrameModel R C P) × (set_references raw cs evolution
              go n f
            ≡ ok f')
          × (find text_dec n f'.collections ≡ some (cs.link links coll))
          × GrowsBut n f f'
    unfolding set_references
    set_references-Grows n coll f v l e =
        let (links, f', q, h) = provide_all-Grows (cs.references coll) f v l in
        let there' = kept_assign n (cs.link links coll) f'.collections in
        (
          links,
          record f' { collections = assign text_dec n (cs.link links coll) f'.collections },
          rw (e, set_references, q) refl,
          find-assign_self text_dec n (cs.link links coll) f'.collections,
          record {
            table = h.table;
            kept = λ m c ne z.
                find-assign_ne text_dec n m (cs.link links coll) f'.collections ne ∙ h.kept m c z;
            taken = h.taken;
            moved = λ m b z. elim (h.moved m b z) [ inl r ↦ inl r | inr r ↦ inr (there' m r) ];
            fewer = h.fewer;
          },
        )

  -- The Frame in which the collection has just been unpacked.
  abbrev unpacked : FrameModel R C P → Text → C → FrameModel R C P
  unpacked f n c = record f {
    raw_data = (raw.get_collection_buffers f.raw_data n).1;
    collections = emplace text_dec n c f.collections;
  }

  Grows-unpacked :
      (f : FrameModel R C P) (n : Text) (c : C)
      → find text_dec n f.collections ≡ none
      → Grows f (unpacked f n c)
  Grows-unpacked f n c e = record {
    table = refl;
    kept = λ m d z. elim (text_dec n m) [
      | yes p ↦ absurd (ground (arith, subst (λ x. find text_dec x f.collections ≡ none) p e))
      | no p ↦ find-emplace_ne text_dec n m c f.collections p ∙ z
    ];
    taken = λ m b z. elim (text_dec n m) [
      | yes p ↦ absurd (
          ground (
            arith,
            subst (λ x. w.raw (raw.get_collection_buffers f.raw_data n).1 x ≡ none) p
                (w.gone f.raw_data n),
          ))
      | no p ↦ sym (w.others f.raw_data n m p) ∙ z
    ];
    moved = λ m b z. elim (text_dec n m) [
      | yes p ↦ inr (
          ap is_some (
            subst (λ x. find text_dec x (emplace text_dec n c f.collections) ≡ some c) p
              (find-emplace_new text_dec n c f.collections e)))
      | no p ↦ inl (w.others f.raw_data n m p ∙ z)
    ];
    fewer = unpacked_fewer;
  }
    where
      unpacked_fewer : w.left (raw.get_collection_buffers f.raw_data n).1 ≤ w.left f.raw_data
      unpacked_fewer = elim (Option-cases (w.raw f.raw_data n)) [
        | inl z ↦ rw (w.same f.raw_data n z) (omega arith)
        | inr (b, z) ↦ omega (arith, w.fewer f.raw_data n b z)
      ]

  Grows-but :
      (f f' f'' : FrameModel R C P) (n : Text)
      → find text_dec n f.collections ≡ none
      → Grows f f'
      → GrowsBut n f' f''
      → is_some (find text_dec n f''.collections) ≡ true
      → Grows f f''
  Grows-but f f' f'' n e g h i = record {
    table = h.table ∙ g.table;
    kept = λ m c z. elim (text_dec n m) [
      | yes p ↦ absurd (ground (arith, subst (λ x. find text_dec x f.collections ≡ none) p e))
      | no p ↦ h.kept m c p (g.kept m c z)
    ];
    taken = λ m b z. g.taken m b (h.taken m b z);
    moved = λ m b z. elim (g.moved m b z) [
      | inl q ↦ h.moved m b q
      | inr q ↦ elim (text_dec n m) [
        | yes p ↦ inr (subst (λ x. is_some (find text_dec x f''.collections) ≡ true) p i)
        | no p ↦ elim (Option-cases (find text_dec m f'.collections)) [
          | inl x ↦ absurd (ground arith)
          | inr (c, x) ↦ inr (ap is_some (h.kept m c p x))
        ]
      ]
    ];
    fewer = omega (arith, g.fewer, h.fewer);
  }

  do_get_new :
      (k : ℕ) (n : Text) (b : B) (refs : Bool) (f : FrameModel R C P)
      → Gets k (do_get raw cs evolution k)
      → IsReady f
      → w.left f.raw_data < suc k
      → find text_dec n f.collections ≡ none
      → w.raw f.raw_data n ≡ some b
      → (f' : FrameModel R C P) × (do_get raw cs evolution (suc k) n refs f ≡ ok (true, f'))
        × Grows f f'
        × (is_some (find text_dec n f'.collections) ≡ true)
  unfolding do_get unpack
  do_get_new k n b false f g v l e q =
      let (id, known) = v.known n b q in
      let (c, made) = v.creates n b q in
      let c' = cs.set_id id (cs.prepare_after_read c) in
      (
        unpacked f n c',
        rw (e, do_get, w.taken f.raw_data n, q, made, known) refl,
        Grows-unpacked f n c' e,
        ap is_some (find-emplace_new text_dec n c' f.collections e),
      )
  do_get_new k n b true f g v l e q =
      let (id, known) = v.known n b q in
      let (c, made) = v.creates n b q in
      let c' = cs.set_id id (cs.prepare_after_read c) in
      let h = Grows-unpacked f n c' e in
      let (links, f', r, there', h') =
        set_references-Grows k (do_get raw cs evolution k) g n c' (unpacked f n c')
          (IsReady-Grows f (unpacked f n c') h v) (omega (arith, w.fewer f.raw_data n b q))
          (find-emplace_new text_dec n c' f.collections e) in
      (
        f',
        rw (e, do_get, w.taken f.raw_data n, q, made, known, r) refl,
        Grows-but f (unpacked f n c') f' n e h h' (ap is_some there'),
        ap is_some there',
      )

  -- With more fuel than the raw data has collections, `do_get` ends and gives a collection exactly
  -- if it is in the map or in the raw data, whatever the collections refer to. The collections that
  -- were unpacked before are as they were, and no collection of the raw data is lost.
  pub do_get_lem : (k : ℕ) → Gets k (do_get raw cs evolution k)
  unfolding do_get
  do_get_lem zero n refs f v l = absurd (omega (arith, l))
  do_get_lem (suc k) n refs f v l = elim (Option-cases (find text_dec n f.collections)) [
    | inr (c, e) ↦ (f, rw (e, do_get) refl, Grows-refl f, rw e refl)
    | inl e ↦ elim (Option-cases (w.raw f.raw_data n)) [
      | inl q ↦ (
        f,
        rw (e, do_get, w.taken f.raw_data n, q, w.same f.raw_data n q) refl,
        Grows-refl f,
        rw (e, q) refl,
      )
      | inr (b, q) ↦
          let (f', r, h, z) = do_get_new k n b refs f (do_get_lem k) v l e q in
          (f', rw (e, q) r, h, rw (e, q) z)
    ]
  ]
