-- ===== src/Frame/Laws.antt =====
-- What the user of a Frame sees: getting ends, getting again changes nothing, and what is put can
-- be gotten.
use podio.Base.{
  ℕ, suc, ◌<◌, ◌≡◌, refl, sym, ap, ◌∙◌, ◌≢◌, ◌⊎◌, inl, inr, Text, text_dec, Bool, true, ◌||◌, List,
  [], ◌∷◌, ◌++◌, none, some, ok, throws, invalid_argument, is_some, find, emplace, keys,
  append_assoc, Option-cases, find-emplace_new, find-emplace_ne, arith,
}
use podio.IdTable.{collection_id}
use podio.IdTable.Laws.{IsValid, add_lem}
use podio.Evolution.{SchemaEvolution}
use podio.Frame.{Collections, FrameModel, available_collections, put, do_get}
use podio.Frame.Data.{FrameData, Consumes, RootFrameData, root_data, get_available_collections}
use podio.Frame.Unpack.{IsReady, Grows, do_get_lem}

module _ {R B C P : Type 0} (raw : FrameData R B P) (cs : Collections B C)
    (evolution : SchemaEvolution B) where
  -- If everything in the raw data can be unpacked, `do_get` ends as soon as the fuel is more than
  -- the number of collections in the raw data, whatever the collections refer to, circles included.
  -- It finds a collection exactly if that is in the map or in the raw data, and has it in the map
  -- then. The ID table and all collections that were in the map are as they were, and whatever
  -- leaves the raw data is in the map.
  pub do_get_ends :
      (w : Consumes raw) (k : ℕ) (n : Text) (refs : Bool) (f : FrameModel R C P)
      → IsReady raw cs evolution w f
      → w.left f.raw_data < k
      → (f' : FrameModel R C P) × (do_get raw cs evolution k n refs f
          ≡ ok (is_some (find text_dec n f.collections) || is_some (w.raw f.raw_data n), f'))
        × Grows raw cs evolution w f f'
        × (is_some (find text_dec n f'.collections)
            ≡ (is_some (find text_dec n f.collections) || is_some (w.raw f.raw_data n)))
  do_get_ends w k = do_get_lem raw cs evolution w k

  do_get_present :
      (k : ℕ) (n : Text) (refs : Bool) (f : FrameModel R C P) (c : C)
      → find text_dec n f.collections ≡ some c
      → do_get raw cs evolution (suc k) n refs f ≡ ok (true, f)
  unfolding do_get
  do_get_present k n refs f c e = rw (e, do_get) refl

  -- Once `do_get` has found a collection, getting it again, with any fuel, finds it and changes
  -- nothing.
  pub do_get_again :
      (w : Consumes raw) (k j : ℕ) (n : Text) (refs again : Bool) (f : FrameModel R C P)
      → IsReady raw cs evolution w f
      → w.left f.raw_data < k
      → (is_some (find text_dec n f.collections) || is_some (w.raw f.raw_data n)) ≡ true
      → (f' : FrameModel R C P) × (do_get raw cs evolution k n refs f ≡ ok (true, f'))
        × (do_get raw cs evolution (suc j) n again f' ≡ ok (true, f'))
  do_get_again w k j n refs again f v l there =
      let (f', e, g, found) = do_get_ends w k n refs f v l in
      elim (Option-cases (find text_dec n f'.collections)) [
        | inl z ↦ absurd (ground arith)
        | inr (c, z) ↦ (f', rw (sym there) e, do_get_present j n again f' c z)
      ]

  -- On a Frame with a well-formed ID table, `put` under a name that is not in the map succeeds. The
  -- name then gives the collection, with the ID that the table has for the name, and getting it
  -- needs nothing of the raw data. The ID is the one that the name had, or its hash if it had none.
  -- The other collections, the IDs of other names, the raw data, the parameters and the retrieved IDs
  -- are as they were.
  pub put_lem :
      (hash : Text → ℕ) (f : FrameModel R C P) (coll : C) (n : Text) (k : ℕ) (refs : Bool)
      → IsValid f.id_table
      → find text_dec n f.collections ≡ none
      → (id : ℕ) × (f' : FrameModel R C P) × (put raw cs hash f coll n ≡ ok f')
        × IsValid f'.id_table
        × (collection_id f'.id_table n ≡ some id)
        × (find text_dec n f'.collections ≡ some (cs.set_id id coll))
        × (do_get raw cs evolution (suc k) n refs f' ≡ ok (true, f'))
        × ((m : Text) → n ≢ m → find text_dec m f'.collections ≡ find text_dec m f.collections)
        × ((collection_id f.id_table n ≡ some id)
            ⊎ ((collection_id f.id_table n ≡ none) × (id ≡ hash n)))
        × ((m : Text) → m ≢ n → collection_id f'.id_table m ≡ collection_id f.id_table m)
        × (f'.raw_data ≡ f.raw_data)
        × (f'.parameters ≡ f.parameters)
        × (f'.retrieved_ids ≡ f.retrieved_ids)
  unfolding put
  put_lem hash f coll n k refs v e =
      let (id, t, q, v', known, old, others) = add_lem hash f.id_table n v in
      let f' = record f {
        collections = emplace text_dec n (cs.set_id id coll) f.collections;
        id_table = t;
      } in
      let there = find-emplace_new text_dec n (cs.set_id id coll) f.collections e in
      (
        id,
        f',
        rw (e, put, q) refl,
        v',
        known,
        there,
        do_get_present k n refs f' (cs.set_id id coll) there,
        λ m ne. find-emplace_ne text_dec n m (cs.set_id id coll) f.collections ne,
        old,
        others,
        refl,
        refl,
        refl,
      )

  put_present :
      (hash : Text → ℕ) (f : FrameModel R C P) (c coll : C) (n : Text)
      → find text_dec n f.collections ≡ some c
      → put raw cs hash f coll n ≡ throws invalid_argument
  unfolding put
  put_present hash f c coll n e = rw (e, put) refl

  -- On a Frame with a well-formed ID table, `put` under a name that is not in the map succeeds, and a
  -- second `put` under the same name throws, whatever its collection is.
  pub put-put :
      (hash : Text → ℕ) (f : FrameModel R C P) (coll : C) (n : Text)
      → IsValid f.id_table
      → find text_dec n f.collections ≡ none
      → (f' : FrameModel R C P) × (put raw cs hash f coll n ≡ ok f')
        × ((other : C) → put raw cs hash f' other n ≡ throws invalid_argument)
  put-put hash f coll n v e =
      let (id, f', q, v', known, there, r, others, old, ids, raw_data, params, retrieved) =
        put_lem hash f coll n 0 true v e in
      (f', q, λ other. put_present hash f' (cs.set_id id coll) other n there)

module _ {V : Type 0} where
  keys-emplace_new :
      (n : Text) (v : V) (m : List (Text × V))
      → find text_dec n m ≡ none
      → keys (emplace text_dec n v m) ≡ keys m ++ n ∷ []
  unfolding find emplace
  keys-emplace_new n v [] e = refl
  keys-emplace_new n v ((j, u) ∷ m) e = ground (arith, keys-emplace_new n v m)

  keys-find :
      (n : Text) (v : V) (m : List (Text × V))
      → find text_dec n m ≡ some v
      → (before after : List Text) × (keys m ≡ before ++ n ∷ after)
  unfolding find
  keys-find n v [] e = cc
  keys-find n v ((j, u) ∷ m) e = elim (text_dec j n) [
    | yes p ↦ ([], keys m, ap (λ x. x ∷ keys m) p)
    | no p ↦
        let (before, after, q) = keys-find n v m (ground arith) in
        (j ∷ before, after, ap (λ x. j ∷ x) q)
  ]

-- `put` under a name that the raw data of a file still holds, but that was not unpacked yet,
-- succeeds, and the available collections then name it twice.
pub put-available_twice :
    {B C P : Type 0} (moved : P) (cs : Collections B C) (hash : Text → ℕ)
    (f : FrameModel (RootFrameData B P) C P) (coll : C) (n : Text) (b : B)
    → IsValid f.id_table
    → find text_dec n f.raw_data.buffers ≡ some b
    → find text_dec n f.collections ≡ none
    → (f' : FrameModel (RootFrameData B P) C P) × (before after : List Text) × (put
          (root_data moved)
          cs
          hash
          f
          coll
          n
        ≡ ok f')
      × (available_collections (root_data moved) cs f' ≡ before ++ n ∷ (after ++ n ∷ []))
unfolding available_collections put get_available_collections
put-available_twice moved cs hash f coll n b v e q =
    let (id, t, r, v', known, old, others) = add_lem hash f.id_table n v in
    let (before, after, s) = keys-find n b f.raw_data.buffers e in
    (
      record f { collections = emplace text_dec n (cs.set_id id coll) f.collections; id_table = t },
      before,
      after ++ keys f.collections,
      rw (q, put, r) refl,
      rw (s, keys-emplace_new n (cs.set_id id coll) f.collections q)
          (append_assoc before (n ∷ after) (keys f.collections ++ n ∷ [])
            ∙ ap (λ x. before ++ n ∷ x) (sym (append_assoc after (keys f.collections) (n ∷ [])))),
    )
