-- ===== src/RootLegacy.antt =====
-- `ROOTLegacyReader` (src/ROOTLegacyReader.cc, include/podio/ROOTLegacyReader.h): files of the layout
-- before Frames, with one category. ROOT's chains `Ch` and branches `Br` are parameters. An entry of a
-- tree is a signed 64-bit integer, by its two's complement: the chain gives a negative one where it
-- has no such entry, which the reader does not test. What a call that throws leaves behind is left out.
use podio.Base.{
  ℕ, zero, suc, ◌+◌, ◌%◌, ◌^◌, Text, codes, text_dec, ℕ_discrete, ite, cond, Bool, List, [], ◌∷◌,
  ◌++◌, Option, none, some, Outcome, ok, throws, ◌>>=◌, ◌>>◌, runtime_error, bad_optional_access,
  unchecked, or_throw, length, get_elem?, set, emplace,
}
use podio.Version.{Version, version_lt}
use podio.IdTable.{CollectionIdTable, name}
use podio.BufferFactory.{FuncMap, create_buffers}
use podio.Frame.Data.{RootFrameData}
use podio.RootUtils.{CollectionWriteInfo, ref_branch_at, vec_branch_at, reconstruct_collection_info}
use podio.RootReader.{ChainOps, ReadBuffers, NamedCollInfo, CollectionBranches, version_of}
use podio.RootReader.Entries.{set_collection_addresses_reader, read_branches_data}

pub record LegacyReader (Ch Br : Type 0) : Type 0 where
  pub chain : Ch
  pub event_number : ℕ
  pub table : CollectionIdTable
  pub stored_classes : List NamedCollInfo
  pub collection_branches : List (CollectionBranches Br)
  pub file_version : Version

-- The tree "metadata": the branches that `openFiles` looks for, null where it has none. The collection
-- info has one of two formats.
pub record LegacyMetaData : Type 0 where
  pub collection_ids : Option CollectionIdTable
  pub podio_version : Option Version
  pub has_type_info : Bool
  pub old_type_info : List (ℕ × Text × Bool)
  pub type_info : List (ℕ × Text × Bool × ℕ)

-- What a new collection of a class has to be read: the numbers of its references and vector members
pub record LegacyOps (Ch Br P : Type 0) : Type 0 where
  pub new_chain : Ch
  pub add_file : Text → Ch → Option Ch
  pub metadata : Ch → Option LegacyMetaData
  pub class_of_branch : Ch → Text → Option Text
  pub n_parts : (class : Text) → (is_subset : Bool) → Option (Option ℕ × Option ℕ)
  pub event_metadata : Ch → (entry : ℕ) → Option P

abbrev pub category_name : Text
category_name = codes "events"

abbrev pub no_buffers : {V : Type 0} → ReadBuffers V
no_buffers = record { contents = none; references = none; vector_members = none }

-- `value_or`
unfoldable pub buffers_or_empty : {V : Type 0} → Option (ReadBuffers V) → ReadBuffers V
buffers_or_empty none = no_buffers
buffers_or_empty (some b) = b

unfoldable pub part_size : {V : Type 0} → Option (List V) → ℕ
part_size none = 0
part_size (some vs) = length vs

unfoldable pub infos_of : List (ℕ × Text × Bool × ℕ) → List CollectionWriteInfo
infos_of [] = []
infos_of ((id, type, is_subset, version) ∷ infos) =
    record {
      collection_id = id;
      data_type = type;
      is_subset = is_subset;
      schema_version = version;
      name = [];
      storage_type = [];
    }
    ∷ infos_of infos

unfoldable pub with_schema : List (ℕ × Text × Bool) → List (ℕ × Text × Bool × ℕ)
with_schema [] = []
with_schema ((id, type, is_subset) ∷ infos) = (id, type, is_subset, 1) ∷ with_schema infos

module _ {Ch Br V : Type 0} (ops : ChainOps Ch Br V) where
  -- The loops over the references and the vector members after a change of trees. A branch is replaced
  -- without a check.
  unfoldable pub reset_indexed :
      Ch → (branch_name : ℕ → Text) → (left i : ℕ) → List (Option Br) → Outcome (List (Option Br))
  reset_indexed chain branch_name zero i brs = ok brs
  reset_indexed chain branch_name (suc left) i brs = do
    unchecked (get_elem? brs i)
    reset_indexed chain branch_name left (suc i) (set brs i (ops.get_branch chain (branch_name i)))

  unfoldable pub reload_branches :
      Ch → Text → ReadBuffers V → CollectionBranches Br → Outcome (CollectionBranches Br)
  unfolding reset_indexed part_size
  reload_branches chain n buffers brs = do
    refs ← reset_indexed chain (ref_branch_at n) (part_size buffers.references) 0 brs.refs
    vecs ← reset_indexed chain (vec_branch_at n) (part_size buffers.vector_members) 0 brs.vecs
    ok (record brs { data_branch = ops.get_branch chain n; refs = refs; vecs = vecs })

  -- `getCollectionBuffers`. Whether all addresses could be set is not looked at.
  unfoldable pub get_collection_buffers :
      FuncMap (ReadBuffers V)
      → NamedCollInfo
      → LegacyReader Ch Br
      → Outcome (ReadBuffers V × LegacyReader Ch Br)
  unfolding buffers_or_empty reload_branches set_collection_addresses_reader read_branches_data
  get_collection_buffers factory info r = do
    branches ← unchecked (get_elem? r.collection_branches info.index)
    maybe_buffers ← create_buffers factory info.type info.schema_version info.is_subset
    let buffers = buffers_or_empty maybe_buffers
    let loaded = ops.load_tree r.event_number r.chain
    branches' ←
        ite (ℕ_discrete loaded.0 0) (reload_branches loaded.1 info.name buffers branches)
          (ok branches)
    set_collection_addresses_reader ops buffers branches'
    buffers' ← read_branches_data ops loaded.0 buffers branches'
    ok (
      buffers',
      record r {
        chain = loaded.1;
        collection_branches = set r.collection_branches info.index branches';
      },
    )

  unfoldable pub read_collections :
      FuncMap (ReadBuffers V)
      → List NamedCollInfo
      → List (Text × ReadBuffers V)
      → LegacyReader Ch Br
      → Outcome (List (Text × ReadBuffers V) × LegacyReader Ch Br)
  unfolding get_collection_buffers
  read_collections factory [] buffers r = ok (buffers, r)
  read_collections factory (info ∷ infos) buffers r = do
    (b, r') ← get_collection_buffers factory info r
    read_collections factory infos (emplace text_dec info.name b buffers) r'

  module _ {P : Type 0} (legacy : LegacyOps Ch Br P) where
    -- `readEventMetaData` with `getLocalTreeAndEntry`. The tree and its branch are used without a check.
    unfoldable pub read_event_meta_data : LegacyReader Ch Br → Outcome (P × LegacyReader Ch Br)
    read_event_meta_data r = do
      let loaded = ops.load_tree r.event_number r.chain
      p ← unchecked (legacy.event_metadata loaded.1 (loaded.0 % 2 ^ 32))
      ok (p, record r { chain = loaded.1 })

    unfoldable pub read_entry :
        FuncMap (ReadBuffers V)
        → LegacyReader Ch Br
        → Outcome (RootFrameData (ReadBuffers V) P × LegacyReader Ch Br)
    unfolding read_collections read_event_meta_data
    read_entry factory r = do
      (buffers, r') ← read_collections factory r.stored_classes [] r
      (parameters, r'') ← read_event_meta_data r'
      ok (
        record { buffers = buffers; id_table = r''.table; parameters = parameters },
        record r'' { event_number = (r''.event_number + 1) % 2 ^ 32 },
      )

    -- `readNextEntry`: null for any other category
    unfoldable pub read_next_entry :
        FuncMap (ReadBuffers V)
        → Text
        → LegacyReader Ch Br
        → Outcome (Option (RootFrameData (ReadBuffers V) P) × LegacyReader Ch Br)
    unfolding read_entry
    read_next_entry factory category r =
        ite (text_dec category category_name)
          (do (entry, r') ← read_entry factory r; ok (some entry, r')) (ok (none, r))

    unfoldable pub read_entry_at :
        FuncMap (ReadBuffers V)
        → Text
        → (entry : ℕ) → LegacyReader Ch Br
        → Outcome (Option (RootFrameData (ReadBuffers V) P) × LegacyReader Ch Br)
    unfolding read_entry
    read_entry_at factory category entry r =
        ite (text_dec category category_name)
          (do
            (data_of, r') ← read_entry factory (record r { event_number = entry })
            ok (some data_of, r'))
          (ok (none, r))

    unfoldable pub get_entries : Text → LegacyReader Ch Br → ℕ
    get_entries category r =
        ite (text_dec category category_name) (ops.n_entries r.chain % 2 ^ 32) 0

    unfoldable pub indexed_branches :
        Ch → (branch_name : ℕ → Text) → (left i : ℕ) → List (Option Br)
    indexed_branches chain branch_name zero i = []
    indexed_branches chain branch_name (suc left) i =
        ops.get_branch chain (branch_name i) ∷ indexed_branches chain branch_name left (suc i)

    -- The branches of one collection in `createCollectionBranches`. Its class and the parts of its
    -- buffers are used without a check.
    unfoldable pub branches_of : Ch → Text → CollectionWriteInfo → Outcome (CollectionBranches Br)
    unfolding indexed_branches
    branches_of chain n info = do
      parts ← unchecked (legacy.n_parts info.data_type info.is_subset)
      n_refs ← unchecked parts.0
      n_vecs ← unchecked parts.1
      ok (record {
        data_branch = cond info.is_subset none (ops.get_branch chain n);
        refs = indexed_branches chain (ref_branch_at n) n_refs 0;
        vecs = indexed_branches chain (vec_branch_at n) n_vecs 0;
        ref_names = [];
        vec_names = [];
      })

    unfoldable pub create_collection_branches :
        List CollectionWriteInfo
        → (collection_index : ℕ) → LegacyReader Ch Br
        → Outcome (LegacyReader Ch Br)
    unfolding branches_of
    create_collection_branches [] index r = ok r
    create_collection_branches (info ∷ infos) index r = do
      n ← or_throw (name r.table info.collection_id) bad_optional_access
      branches ← branches_of r.chain n info
      create_collection_branches infos (suc index) (record r {
        stored_classes =
            r.stored_classes
            ++ record {
              name = n;
              type = info.data_type;
              is_subset = info.is_subset;
              schema_version = info.schema_version;
              index = index;
            }
              ∷ [];
        collection_branches = r.collection_branches ++ branches ∷ [];
      })

    unfoldable pub add_files : List Text → Ch → Outcome Ch
    add_files [] chain = ok chain
    add_files (f ∷ fs) chain = elim (legacy.add_file f chain) [
      | none ↦ throws runtime_error
      | some chain' ↦ add_files fs chain'
    ]

    unfoldable pub version_or_zero : Option Version → Version
    version_or_zero none = version_of 0 0 0
    version_or_zero (some v) = v

    -- The collection info: with the schema version 1 in files before 0.16.4, and made from the branches
    -- of the chain in those that have none
    unfoldable pub collection_info :
        Ch → Version → CollectionIdTable → LegacyMetaData → Outcome (List CollectionWriteInfo)
    unfolding version_lt infos_of with_schema reconstruct_collection_info
    collection_info chain version table meta =
        cond meta.has_type_info
          (ok (
            cond (version_lt version (version_of 0 16 4))
              (infos_of (with_schema meta.old_type_info)) (infos_of meta.type_info)))
          (reconstruct_collection_info (legacy.class_of_branch chain) table)

    unfoldable pub open_files : List Text → LegacyReader Ch Br → Outcome (LegacyReader Ch Br)
    unfolding add_files version_or_zero collection_info create_collection_branches
    open_files filenames r = do
      chain ← add_files filenames legacy.new_chain
      meta ← unchecked (legacy.metadata chain)
      table ← unchecked meta.collection_ids
      let version = version_or_zero meta.podio_version
      infos ← collection_info chain version table meta
      create_collection_branches infos 0
          (record r { chain = chain; table = table; file_version = version })
