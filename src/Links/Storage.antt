-- ===== src/Links/Storage.antt =====
-- How a link collection is written and read (include/podio/detail/LinkCollectionData.h).
use podio.Base.{
  ℕ, suc, ◌%◌, ◌^◌, ℕ_discrete, ite, cond, Bool, true, false, List, [], ◌∷◌, ◌++◌, Option, none,
  some, Outcome, ok, undefined, ◌>>=◌, unchecked, get_elem?,
}
use podio.Links.{ObjectId, LinkObj, LinkCollection, Heap, object_at, store, invalid, clear_refs}

abbrev pub invalid_id : ObjectId
invalid_id = record { index = invalid; collection_id = 0 }

-- What the collections of the other objects, which are generated code, and the Frame provide: the
-- ID of a related object, the collection of an ID, and the object at an index of a collection.
pub record Provider (F T : Type 0) : Type 1 where
  pub Coll : Type 0
  pub from_id : F → ObjectId
  pub to_id : T → ObjectId
  pub get : ℕ → Option Coll
  pub from_at : Coll → ℕ → Outcome F
  pub to_at : Coll → ℕ → Outcome T
  pub link_at : Coll → ℕ → Outcome (Option ℕ)

-- The ID that is stored for a relation.
unfoldable pub relation_id : {A : Type 0} → (A → ObjectId) → Option A → ObjectId
relation_id id_of none = invalid_id
relation_id id_of (some a) = id_of a

-- `m_refCollections[0]` and `m_refCollections[1]` given anew.
unfoldable pub put_first : List (List ObjectId) → List ObjectId → Outcome (List (List ObjectId))
put_first [] ids = undefined
put_first (r ∷ rs) ids = ok (ids ∷ rs)

-- `m_refCollections[i]`, where an element of a vector that is not there is out of bounds as well.
abbrev pub ids_at : List (List ObjectId) → ℕ → List ObjectId
ids_at refs i = elim (get_elem? refs i) [ none ↦ [] | some ids ↦ ids ]

module _ {F T : Type 0} (p : Provider F T) where
  -- A relation by its stored ID. An unknown collection leaves it null.
  unfoldable pub resolve : {A : Type 0} → (p.Coll → ℕ → Outcome A) → ObjectId → Outcome (Option A)
  resolve at id = ite (ℕ_discrete id.index invalid) (ok none) (elim (p.get id.collection_id) [
    | none ↦ ok none
    | some coll ↦ do a ← at coll id.index; ok (some a)
  ])

  -- The elements of a subset collection: null where the collection is unknown.
  unfoldable pub resolve_links : List ObjectId → Outcome (List (Option ℕ))
  resolve_links [] = ok []
  resolve_links (id ∷ ids) = do
    e ← elim (p.get id.collection_id) [ none ↦ ok none | some coll ↦ p.link_at coll id.index ]
    es ← resolve_links ids
    ok (e ∷ es)

module _ {F T W : Type 0} (p : Provider F T) where
  -- The loop of `prepareForWrite` of a subset collection, onto the IDs that are there.
  unfoldable pub write_subset :
      Heap F T W → List (Option ℕ) → List ObjectId → Outcome (List ObjectId)
  unfolding object_at
  write_subset h [] ids = ok ids
  write_subset h (e ∷ es) ids = do obj ← object_at h e; write_subset h es (ids ++ obj.id ∷ [])

  -- The loop of `prepareForWrite` of a normal collection, onto the data and the two vectors of IDs.
  unfoldable pub write_links :
      Heap F T W
      → List (Option ℕ)
      → List W
      → List ObjectId
      → List ObjectId
      → Outcome (List W × List ObjectId × List ObjectId)
  unfolding object_at relation_id
  write_links h [] ws froms tos = ok (ws, froms, tos)
  write_links h (e ∷ es) ws froms tos = do
    obj ← object_at h e
    write_links h es (ws ++ obj.weight ∷ []) (froms ++ relation_id p.from_id obj.from ∷ [])
        (tos ++ relation_id p.to_id obj.to ∷ [])

  unfoldable pub write_buffers : Heap F T W → LinkCollection W → Outcome (LinkCollection W)
  unfolding write_subset write_links put_first
  write_buffers h c =
      cond c.is_subset_coll
        (do
          ids ← write_subset h c.entries []
          refs ← put_first (clear_refs c.ref_collections) ids
          ok (record c { ref_collections = refs }))
        (elim c.data_buffer [
          | none ↦ undefined
          | some ws ↦ elim (clear_refs c.ref_collections) [
            | [] ↦ undefined
            | r ∷ [] ↦ undefined
            | r ∷ r' ∷ rs ↦ do
              (ws', froms, tos) ← write_links h c.entries ws [] []
              ok (record c { data_buffer = some ws'; ref_collections = froms ∷ tos ∷ rs })
          ]
        ])

  -- `prepareForWrite`, which does its work once.
  unfoldable pub prepare_for_write : Heap F T W → LinkCollection W → Outcome (LinkCollection W)
  unfolding write_buffers
  prepare_for_write h c =
      cond c.is_prepared (ok c) (do c' ← write_buffers h c; ok (record c' { is_prepared = true }))

  -- The collection of the buffers that were read.
  unfoldable pub from_buffers : Option (List W) → List (List ObjectId) → Bool → LinkCollection W
  from_buffers ws refs subset = record {
    is_prepared = false;
    is_subset_coll = subset;
    collection_id = 0;
    entries = [];
    ref_collections = refs;
    data_buffer = cond subset none ws;
  }

  -- The loop of `prepareAfterRead`: one new object for each datum, at the addresses from `next` on.
  unfoldable pub make_objects :
      (next index id : ℕ) → List W → Heap F T W → List (Option ℕ) × Heap F T W
  make_objects next index id [] h = ([], h)
  make_objects next index id (w ∷ ws) h =
      let obj : LinkObj F T W = record {
        id = record { index = index % 2 ^ 32; collection_id = id };
        weight = w;
        from = none;
        to = none;
      } in
      let (es, h') = make_objects (suc next) (suc index) id ws (store h next obj) in
      (some next ∷ es, h')

  unfoldable pub prepare_after_read :
      (next : ℕ) → Heap F T W → LinkCollection W → Outcome (Heap F T W × LinkCollection W)
  unfolding make_objects
  prepare_after_read next h c = cond c.is_prepared (ok (h, c)) (
      cond c.is_subset_coll (ok (h, record c { is_prepared = true })) (do
        ws ← unchecked c.data_buffer
        let (es, h') = make_objects next 0 c.collection_id ws h
        ok (h', record c { is_prepared = true; entries = c.entries ++ es })))

  -- The loops of `setReferences` over both relations. A missing ID is an access out of bounds.
  unfoldable pub resolve_from : List (Option ℕ) → List ObjectId → Heap F T W → Outcome (Heap F T W)
  unfolding resolve
  resolve_from [] ids h = ok h
  resolve_from (none ∷ es) ids h = undefined
  resolve_from (some a ∷ es) [] h = undefined
  resolve_from (some a ∷ es) (id ∷ ids) h = do
    obj ← unchecked (h a)
    f ← resolve p p.from_at id
    resolve_from es ids (store h a (record obj { from = f }))

  unfoldable pub resolve_to : List (Option ℕ) → List ObjectId → Heap F T W → Outcome (Heap F T W)
  unfolding resolve
  resolve_to [] ids h = ok h
  resolve_to (none ∷ es) ids h = undefined
  resolve_to (some a ∷ es) [] h = undefined
  resolve_to (some a ∷ es) (id ∷ ids) h = do
    obj ← unchecked (h a)
    t ← resolve p p.to_at id
    resolve_to es ids (store h a (record obj { to = t }))

  unfoldable pub set_references :
      Heap F T W → LinkCollection W → Outcome (Heap F T W × LinkCollection W)
  unfolding resolve_from resolve_to resolve_links
  set_references h c =
      cond c.is_subset_coll
        (do
          ids ← unchecked (get_elem? c.ref_collections 0)
          es ← resolve_links p ids
          ok (h, record c { entries = c.entries ++ es }))
        (do
          h' ← resolve_from c.entries (ids_at c.ref_collections 0) h
          h'' ← resolve_to c.entries (ids_at c.ref_collections 1) h'
          ok (h'', c))
