-- ===== src/Frame.antt =====
-- `Frame` (include/podio/Frame.h): collections by name, unpacked from raw data when they are first
-- asked for. A collection is known by its name in the map, which is what a pointer to it stands
-- for, since the map keeps every collection where it is. The raw data `R`, the buffers `B`, the
-- collections `C` and the parameters `P` are types of the model's user. The mutexes are left out:
-- this is the behaviour of one thread.
pub mod Data
pub mod Unpack
pub mod Laws
use podio.Base.{
  ℕ, zero, suc, ◌≡◌, Text, text_dec, ℕ_discrete, ite, cond, Bool, true, false, List, [], ◌∷◌, ◌++◌,
  Option, none, some, Outcome, ok, throws, undefined, invalid_argument, runtime_error,
  bad_optional_access, ◌>>=◌, or_throw, is_some, find, emplace, assign, keys, index_of, length,
  dec_lt,
}
use podio.IdTable.{CollectionIdTable, name, collection_id, add}
use podio.Evolution.{SchemaEvolution, evolve_buffers}
use podio.Frame.Data.{FrameData}

-- What the Frame uses of buffers and of collections, which are generated code. `references` are the
-- IDs that `setReferences` asks the Frame for, in this order, and `link` stores the answers.
pub record Collections (B C : Type 0) : Type 0 where
  pub has_data : B → Bool
  pub schema_version : B → ℕ
  pub buffer_type : B → Text
  pub create : B → Bool → C
  pub prepare_after_read : C → C
  pub prepare_for_write : C → C
  pub set_id : ℕ → C → C
  pub references : C → List ℕ
  pub link : List (Option Text) → C → C
  pub type_name : C → Text

pub record FrameModel (R C P : Type 0) : Type 0 where
  pub collections : List (Text × C)
  pub raw_data : R
  pub id_table : CollectionIdTable
  pub parameters : P
  pub retrieved_ids : List ℕ

module _ {R B C P : Type 0} (raw : FrameData R B P) (cs : Collections B C) where
  -- The constructor, which takes null for raw data as `none`.
  unfoldable pub make_frame : Option R → Outcome (FrameModel R C P)
  make_frame none = throws invalid_argument
  make_frame (some r) =
      let (p, r') = raw.get_parameters r in
      ok (record {
        collections = [];
        raw_data = r';
        id_table = raw.get_id_table r;
        parameters = p;
        retrieved_ids = [];
      })

  -- `availableCollections`
  unfoldable pub available_collections : FrameModel R C P → List Text
  available_collections f = raw.get_available_collections f.raw_data ++ keys f.collections

  -- `put`: the collection, its ID set, joins the map unless the name is in the map.
  unfoldable pub put : (hash : Text → ℕ) → FrameModel R C P → C → Text → Outcome (FrameModel R C P)
  put hash f coll n = elim (find text_dec n f.collections) [
    | some _ ↦ throws invalid_argument
    | none ↦ do
      (id, table) ← add hash f.id_table n
      ok (record f {
        collections = emplace text_dec n (cs.set_id id coll) f.collections;
        id_table = table;
      })
  ]

  module _ (evolution : SchemaEvolution B) where
    -- The collection of some buffers: only data needs schema evolution.
    unfoldable pub create_collection : B → Outcome C
    create_collection b =
        cond (cs.has_data b)
          (do
            (e, _) ← evolve_buffers evolution b (cs.schema_version b) (cs.buffer_type b)
            ok (cs.create e false))
          (ok (cs.create b true))

    -- What `doGet` does with the buffers up to `setReferences`.
    unfoldable pub unpack : B → Text → FrameModel R C P → Outcome (FrameModel R C P)
    unfolding create_collection
    unpack b n f = do
      coll ← create_collection b
      id ← or_throw (collection_id f.id_table n) bad_optional_access
      ok (record f {
        collections = emplace text_dec n (cs.set_id id (cs.prepare_after_read coll)) f.collections;
      })

    -- `get` by ID for `setReferences`, with `do_get` given: the name of the collection, if there is
    -- one.
    unfoldable pub provide :
        (Text → Bool → FrameModel R C P → Outcome (Bool × FrameModel R C P))
        → ℕ
        → FrameModel R C P
        → Outcome (Option Text × FrameModel R C P)
    provide get_name id f = elim (name f.id_table id) [
      | none ↦ ok (none, f)
      | some n ↦
          let retrieved =
            dec_lt (index_of ℕ_discrete id f.retrieved_ids) (length f.retrieved_ids) in
          do
            (found, f') ←
                ite retrieved (get_name n false f)
                  (get_name n true (record f { retrieved_ids = id ∷ f.retrieved_ids }))
            ok (cond found (some n) none, f')
    ]

    -- One request after the other, and the answers.
    unfoldable pub provide_all :
        (Text → Bool → FrameModel R C P → Outcome (Bool × FrameModel R C P))
        → List ℕ
        → FrameModel R C P
        → Outcome (List (Option Text) × FrameModel R C P)
    unfolding provide
    provide_all get_name [] f = ok ([], f)
    provide_all get_name (id ∷ ids) f = do
      (o, f') ← provide get_name id f
      (os, f'') ← provide_all get_name ids f'
      ok (o ∷ os, f'')

    -- `setReferences` of the collection with the name. It is in the map.
    unfoldable pub set_references :
        (Text → Bool → FrameModel R C P → Outcome (Bool × FrameModel R C P))
        → Text
        → FrameModel R C P
        → Outcome (FrameModel R C P)
    unfolding provide_all
    set_references get_name n f = elim (find text_dec n f.collections) [
      | none ↦ undefined
      | some coll ↦ do
        (links, f') ← provide_all get_name (cs.references coll) f
        ok (record f' { collections = assign text_dec n (cs.link links coll) f'.collections })
    ]

    -- `doGet`: whether the collection was found, and the Frame with it in the map. Each nested call
    -- uses up fuel.
    unfoldable pub do_get : ℕ → Text → Bool → FrameModel R C P → Outcome (Bool × FrameModel R C P)
    unfolding unpack set_references
    do_get zero n refs f = undefined
    do_get (suc fuel) n refs f = elim (find text_dec n f.collections) [
      | some _ ↦ ok (true, f)
      | none ↦
          let (buffers, rest) = raw.get_collection_buffers f.raw_data n in
          elim buffers [
            | none ↦ ok (false, record f { raw_data = rest })
            | some b ↦ do
              f' ← unpack b n (record f { raw_data = rest })
              f'' ← cond refs (set_references (do_get fuel) n f') (ok f')
              ok (true, f'')
          ]
    ]

    -- The typed `get`: a collection of another type is as good as none.
    unfoldable pub get_typed :
        ℕ → (type : Text) → Text → FrameModel R C P → Outcome (C × FrameModel R C P)
    unfolding do_get
    get_typed fuel type n f = do
      (_, f') ← do_get fuel n true f
      coll ← or_throw (find text_dec n f'.collections) runtime_error
      ite (text_dec (cs.type_name coll) type) (ok (coll, f')) (throws runtime_error)

    -- `getCollectionForWrite`
    unfoldable pub get_collection_for_write :
        ℕ → Text → FrameModel R C P → Outcome (Option C × FrameModel R C P)
    unfolding do_get
    get_collection_for_write fuel n f = do
      (_, f') ← do_get fuel n true f
      elim (find text_dec n f'.collections) [
        | none ↦ ok (none, f')
        | some coll ↦
            let ready = cs.prepare_for_write coll in
            ok (some ready, record f' { collections = assign text_dec n ready f'.collections })
      ]

module _ {R C P : Type 0} where
  -- `getName` of a collection ID
  unfoldable pub get_name : FrameModel R C P → ℕ → Option Text
  get_name f collection_id = name f.id_table collection_id
