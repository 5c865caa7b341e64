-- ===== src/SioWriter.antt =====
-- `SIOWriter` (src/SIOWriter.cc), the helpers that make its blocks (src/sioUtils.h), and the factory
-- of blocks (`SIOBlockFactory` of include/podio/SIOBlock.h and src/SIOBlock.cc). The SIO library with
-- its streams `S`, and the generated collections `C` and classes of blocks `K`, are parameters.
pub mod Records
use podio.Base.{
  ℕ, Text, codes, text_dec, ite, cond, Bool, true, false, List, [], ◌∷◌, ◌++◌, map, Option, none,
  some, Outcome, ok, throws, undefined, ◌>>=◌, Error, bad_optional_access, unchecked, or_throw,
  find, assign,
}
use podio.IdTable.{CollectionIdTable, collection_id}
use podio.Registry.{
  DatamodelRegistry, register_definition, definitions_to_write, get_datamodel_version,
}
use podio.Blocks.{CollectionIdTableBlock}
use podio.RootWriter.{WriteOps}
use podio.Toc.{RecordMap, add_record, final_words}

-- `SIOBlock`, of a class `K` that is generated
pub record CollectionBlock (K W : Type 0) : Type 0 where
  pub class : K
  pub name : Text
  pub subset_coll : Bool
  pub write_buffers : Option W

-- `SIOBlockFactory`: a block of each type
abbrev pub BlockFactory : Type 0 → Type 0 → Type 0
BlockFactory K W = List (Text × CollectionBlock K W)

module _ {K W : Type 0} where
  unfoldable pub register_block : Text → CollectionBlock K W → BlockFactory K W → BlockFactory K W
  register_block type b m = assign text_dec type b m

  -- `create` makes a new block of the class.
  module _ (create : K → Text → CollectionBlock K W) where
    -- `createBlock` for reading
    unfoldable pub create_block_of_type :
        Text → Text → (is_subset_coll : Bool) → BlockFactory K W → Option (CollectionBlock K W)
    create_block_of_type type name is_subset_coll m = elim (find text_dec type m) [
      | none ↦ none
      | some b ↦ some (record (create b.class name) { subset_coll = is_subset_coll })
    ]

    module _ {C : Type 0} (cs : WriteOps C) (get_buffers : C → W) where
      -- `setCollection`
      unfoldable pub set_collection : C → CollectionBlock K W → CollectionBlock K W
      set_collection coll b = record b {
        subset_coll = cs.is_subset_collection coll;
        write_buffers = some (get_buffers coll);
      }

      -- `createBlock` for writing
      unfoldable pub create_block : C → Text → BlockFactory K W → Option (CollectionBlock K W)
      unfolding set_collection
      create_block coll name m = elim (find text_dec (cs.value_type_name coll) m) [
        | none ↦ none
        | some b ↦ some (set_collection coll (create b.class name))
      ]

-- What is stored in a record
pub data RecordBlock (K W P V : Type 0) : Type 0 where
  version_info : V → RecordBlock K W P V
  id_table : CollectionIdTableBlock → RecordBlock K W P V
  event_metadata : P → RecordBlock K W P V
  collection : CollectionBlock K W → RecordBlock K W P V
  edm_definitions : List (Text × Text) → RecordBlock K W P V
  edm_versions : List (Text × V) → RecordBlock K W P V
  file_toc : RecordMap → RecordBlock K W P V

-- What is used of the SIO library. A block may be a null pointer. The start of the record that is
-- written comes with the stream, which also a write that throws may have changed.
pub record StreamOps (S B : Type 0) : Type 0 where
  pub write_record : (compress : Bool) → (name : Text) → List (Option B) → S → Outcome ℕ × S
  pub write_word : ℕ → S → S

pub record SioWriter (S : Type 0) : Type 0 where
  pub stream : S
  pub is_open : Bool
  pub toc_record : RecordMap
  pub datamodel_indices : List ℕ

abbrev pub subset_number : Bool → ℕ
subset_number true = 1
subset_number false = 0

abbrev pub empty_block : CollectionIdTableBlock
empty_block = record { names = []; ids = []; types = []; is_subset_coll = [] }

module _ {C : Type 0} (cs : WriteOps C) where
  -- `createCollIDBlock`. A collection that the table does not have throws.
  unfoldable pub create_coll_id_block :
      CollectionIdTable → List (Text × C) → Outcome CollectionIdTableBlock
  create_coll_id_block table [] = ok empty_block
  create_coll_id_block table ((name, coll) ∷ colls) = do
    id ← or_throw (collection_id table name) bad_optional_access
    rest ← create_coll_id_block table colls
    ok (record {
      names = name ∷ rest.names;
      ids = id ∷ rest.ids;
      types = cs.value_type_name coll ∷ rest.types;
      is_subset_coll = subset_number (cs.is_subset_collection coll) ∷ rest.is_subset_coll;
    })

  -- The collections that are written, whose definitions are registered. A collection that the Frame
  -- does not have is a null pointer, which is used without a check.
  unfoldable pub collect_for_write :
      (frame : Text → Option C) → List Text → List ℕ → Outcome (List (Text × C) × List ℕ)
  collect_for_write frame [] indices = ok ([], indices)
  collect_for_write frame (n ∷ ns) indices = do
    coll ← unchecked (frame n)
    (colls, indices') ←
        collect_for_write frame ns (register_definition (cs.datamodel_index coll) indices)
    ok ((n, coll) ∷ colls, indices')

unfoldable pub collection_block :
    {K W P V : Type 0} → Option (CollectionBlock K W) → Option (RecordBlock K W P V)
collection_block none = none
collection_block (some b) = some (collection b)

module _ {K W P V C S : Type 0} (stream_ops : StreamOps S (RecordBlock K W P V)) (cs : WriteOps C)
    (create : Text → C → Option (CollectionBlock K W)) where
  -- `createBlocks`: the parameters, then the collections
  unfoldable pub create_blocks : List (Text × C) → P → List (Option (RecordBlock K W P V))
  unfolding collection_block
  create_blocks colls p =
      some (event_metadata p) ∷ map (λ e. collection_block (create e.0 e.1)) colls

  -- The second record of a Frame, with its data
  unfoldable pub write_data :
      Text → List (Text × C) → P → SioWriter S → Outcome (Unit {0}) × SioWriter S
  unfolding create_blocks
  write_data category colls p w =
      let written = stream_ops.write_record true category (create_blocks colls p) w.stream in
      (written.0 >>= λ pos. ok tt, record w { stream = written.1 })

  unfoldable pub then_write_data :
      Text
      → List (Text × C)
      → P
      → Outcome (Unit {0}) × SioWriter S
      → Outcome (Unit {0}) × SioWriter S
  unfolding write_data
  then_write_data category colls p (ok _, w) = write_data category colls p w
  then_write_data category colls p (throws e, w) = (throws e, w)
  then_write_data category colls p (undefined, w) = (undefined, w)

  unfoldable pub add_header : Text → SioWriter S → Outcome ℕ × S → Outcome (Unit {0}) × SioWriter S
  add_header category w (ok pos, s) =
      (ok tt, record w { stream = s; toc_record = add_record category pos w.toc_record })
  add_header category w (throws e, s) = (throws e, record w { stream = s })
  add_header category w (undefined, s) = (undefined, record w { stream = s })

  -- The first record, with the metadata, is the one in the table of contents.
  unfoldable pub write_header :
      Text → CollectionIdTableBlock → SioWriter S → Outcome (Unit {0}) × SioWriter S
  unfolding add_header
  write_header category block w = add_header category w (
      stream_ops.write_record true (category ++ codes "_HEADER") (some (id_table block) ∷ [])
        w.stream)

  unfoldable pub write_records :
      CollectionIdTable
      → Text
      → List (Text × C)
      → P
      → SioWriter S
      → Outcome (Unit {0}) × SioWriter S
  unfolding create_coll_id_block write_header then_write_data
  write_records table category colls p w = elim (create_coll_id_block cs table colls) [
    | throws e ↦ (throws e, w)
    | undefined ↦ (undefined, w)
    | ok block ↦ then_write_data category colls p (write_header category block w)
  ]

  unfoldable pub write_frame :
      (frame : Text → Option C)
      → CollectionIdTable
      → P
      → Text
      → (colls_to_write : List Text) → SioWriter S
      → Outcome (Unit {0}) × SioWriter S
  unfolding collect_for_write write_records
  write_frame frame table p category colls_to_write w =
      elim (collect_for_write cs frame colls_to_write w.datamodel_indices) [
        | throws e ↦ (throws e, w)
        | undefined ↦ (undefined, w)
        | ok (colls, indices) ↦
            write_records table category colls p (record w { datamodel_indices = indices })
      ]

-- The versions of the datamodels that have one
unfoldable pub known_versions :
    {N V : Type 0} → DatamodelRegistry N V → List (Text × Text) → List (Text × V)
known_versions s [] = []
known_versions s ((name, d) ∷ defs) = elim (get_datamodel_version name s) [
  | none ↦ known_versions s defs
  | some version ↦ (name, version) ∷ known_versions s defs
]

module _ {K W P V S : Type 0} (stream_ops : StreamOps S (RecordBlock K W P V)) where
  -- The constructor, once the stream is open
  unfoldable pub make_writer : V → S → Outcome (SioWriter S)
  make_writer build_version s =
      let (out, s') =
        stream_ops.write_record false (codes "podio_header_info")
          (some (version_info build_version) ∷ []) s in
      out >>= λ pos.
      ok (record { stream = s'; is_open = true; toc_record = []; datamodel_indices = [] })

  -- The table of contents and the word that leads to it. Then the stream is closed.
  unfoldable pub write_toc : SioWriter S → Outcome (Unit {0}) × SioWriter S
  write_toc w =
      let (out, s) =
        stream_ops.write_record true (codes "podio_SIO_TOC_Record")
          (some (file_toc w.toc_record) ∷ []) w.stream in
      elim out [
        | ok pos ↦ (
          ok tt,
          record w { stream = stream_ops.write_word (final_words pos) s; is_open = false },
        )
        | throws e ↦ (throws e, record w { stream = s })
        | undefined ↦ (undefined, record w { stream = s })
      ]

  unfoldable pub finish :
      {N : Type 0} → DatamodelRegistry N V → SioWriter S → Outcome (Unit {0}) × SioWriter S
  unfolding definitions_to_write known_versions write_toc
  finish registry w =
      let definitions = definitions_to_write registry w.datamodel_indices in
      let (out, s) =
        stream_ops.write_record true (codes "EDMDefinitions")
          (some (edm_definitions definitions)
            ∷ some (edm_versions (known_versions registry definitions))
            ∷ [])
          w.stream in
      cond w.is_open
        (elim out [
          | ok pos ↦ write_toc (record w {
            stream = s;
            toc_record = add_record (codes "podio_SIO_EDMDefinitions") pos w.toc_record;
          })
          | throws e ↦ (throws e, record w { stream = s })
          | undefined ↦ (undefined, record w { stream = s })
        ])
        (ok tt, w)
