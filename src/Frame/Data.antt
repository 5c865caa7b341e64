-- ===== src/Frame/Data.antt =====
-- What a Frame asks of its raw data (the concept `FrameDataType` of include/podio/Frame.h), with
-- the laws that a Frame relies on, and the two implementations `ROOTFrameData`
-- (src/ROOTFrameData.cc) and `EmptyFrameData` (include/podio/Frame.h).
use podio.Base.{
  ℕ, ◌≤◌, ◌<◌, ◌≡◌, refl, ◌≢◌, Text, text_dec, List, [], ◌∷◌, Option, none, some, length, index_of,
  find, remove, keys, find-remove_self, find-remove_ne, remove-absent, arith,
}
use podio.IdTable.{CollectionIdTable, empty_table}

-- The functions of raw data `R` with read buffers `B` and parameters `P`. The two that are not
-- `const` give the raw data that is left.
pub record FrameData (R B P : Type 0) : Type 0 where
  pub get_id_table : R → CollectionIdTable
  pub get_collection_buffers : R → Text → Option B × R
  pub get_available_collections : R → List Text
  pub get_parameters : R → P × R

-- The buffers that the raw data still holds are there once: who gets them takes them out. `left`
-- bounds how often this can be done.
pub record Consumes {R B P : Type 0} (ops : FrameData R B P) : Type 0 where
  pub raw : R → Text → Option B
  pub left : R → ℕ
  pub taken : (r : R) (n : Text) → (ops.get_collection_buffers r n).0 ≡ raw r n
  pub gone : (r : R) (n : Text) → raw (ops.get_collection_buffers r n).1 n ≡ none
  pub others : (r : R) (n m : Text) → n ≢ m → raw (ops.get_collection_buffers r n).1 m ≡ raw r m
  pub fewer :
      (r : R) (n : Text) (b : B)
      → raw r n ≡ some b
      → left (ops.get_collection_buffers r n).1 < left r
  pub same : (r : R) (n : Text) → raw r n ≡ none → (ops.get_collection_buffers r n).1 ≡ r

module _ {B : Type 0} where
  length-remove : (n : Text) (m : List (Text × B)) → length (remove text_dec n m) ≤ length m
  unfolding remove
  length-remove n [] = omega arith
  length-remove n ((j, b) ∷ m) = ground (arith, length-remove n m)

  pub length-remove_found :
      (n : Text) (b : B) (m : List (Text × B))
      → find text_dec n m ≡ some b
      → length (remove text_dec n m) < length m
  unfolding remove find
  length-remove_found n b [] h = cc
  length-remove_found n b ((j, c) ∷ m) h =
      ground (arith, length-remove n m, length-remove_found n b m)

module _ {B : Type 0} where
  keys-remove :
      (n : Text) (m : List (Text × B))
      → index_of text_dec n (keys (remove text_dec n m)) ≡ length (keys (remove text_dec n m))
  unfolding remove index_of
  keys-remove n [] = refl
  keys-remove n ((j, b) ∷ m) = ground (arith, keys-remove n m)

module _ (B P : Type 0) where
  pub record RootFrameData : Type 0 where
    pub buffers : List (Text × B)
    pub id_table : CollectionIdTable
    pub parameters : P

module _ {B P : Type 0} where
  -- `m_buffers.extract`
  unfoldable pub get_collection_buffers : RootFrameData B P → Text → Option B × RootFrameData B P
  get_collection_buffers r n =
      (find text_dec n r.buffers, record r { buffers = remove text_dec n r.buffers })

  unfoldable pub get_available_collections : RootFrameData B P → List Text
  get_available_collections r = keys r.buffers

  -- The parameters are moved from: `moved` is what that leaves behind.
  unfoldable pub get_parameters : (moved : P) → RootFrameData B P → P × RootFrameData B P
  get_parameters moved r = (r.parameters, record r { parameters = moved })

  abbrev pub root_data : (moved : P) → FrameData (RootFrameData B P) B P
  root_data moved = record {
    get_id_table = λ r. r.id_table;
    get_collection_buffers = get_collection_buffers;
    get_available_collections = get_available_collections;
    get_parameters = get_parameters moved;
  }

  abbrev pub empty_data : (fresh : P) → FrameData Unit B P
  empty_data fresh = record {
    get_id_table = λ r. empty_table;
    get_collection_buffers = λ r n. (none, r);
    get_available_collections = λ r. [];
    get_parameters = λ r. (fresh, r);
  }

  unfoldable pub root_data-Consumes : (moved : P) → Consumes (root_data moved)
  unfolding get_collection_buffers
  root_data-Consumes moved = record {
    raw = λ r n. find text_dec n r.buffers;
    left = λ r. length r.buffers;
    taken = λ r n. refl;
    gone = λ r n. find-remove_self text_dec n r.buffers;
    others = λ r n m h. find-remove_ne text_dec n m r.buffers h;
    fewer = λ r n b h. length-remove_found n b r.buffers h;
    same = λ r n h. rw (remove-absent text_dec n r.buffers h) refl;
  }

  -- `ROOTFrameData` hands the buffers of a collection out once: asked again for the same name it has
  -- none, for every other name it has what it had, and it no longer names the collection as
  -- available.
  pub get_collection_buffers_lem :
      (r : RootFrameData B P) (n : Text)
      → ((get_collection_buffers (get_collection_buffers r n).1 n).0 ≡ none)
        × ((m : Text)
            → n ≢ m
            → (get_collection_buffers (get_collection_buffers r n).1 m).0
              ≡ (get_collection_buffers r m).0)
        × (index_of text_dec n (get_available_collections (get_collection_buffers r n).1)
            ≡ length (get_available_collections (get_collection_buffers r n).1))
  unfolding get_collection_buffers get_available_collections
  get_collection_buffers_lem r n = (
    find-remove_self text_dec n r.buffers,
    λ m h. find-remove_ne text_dec n m r.buffers h,
    keys-remove n r.buffers,
  )

  unfoldable pub empty_data-Consumes : (fresh : P) → Consumes (empty_data fresh)
  empty_data-Consumes fresh = record {
    raw = λ r n. none;
    left = λ r. 0;
    taken = λ r n. refl;
    gone = λ r n. refl;
    others = λ r n m h. refl;
    fewer = λ r n b h. cc;
    same = λ r n h. refl;
  }
