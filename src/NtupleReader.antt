-- ===== src/NtupleReader.antt =====
-- `RNTupleReader` (src/RNTupleReader.cc, include/podio/RNTupleReader.h): the files of a category as
-- one sequence of entries, and reading one of them. The readers `Rd` of ROOT, the binding of buffers
-- to their fields and what is read are parameters.
pub mod Lookup
use podio.Base.{
  ℕ, zero, suc, ◌+◌, ◌-◌, ◌%◌, ◌^◌, ◌≤◌, ◌<◌, Text, text_dec, ℕ_discrete, dec_lt, dec_le, ite, cond,
  Bool, true, false, not, ◌&&◌, List, [], ◌∷◌, ◌++◌, map, Option, none, some, Outcome, ok, throws,
  undefined, ◌>>=◌, ◌>>◌, runtime_error, invalid_argument, unchecked, length, get_elem?, is_empty,
  find, assign, emplace, index_of, sort, text_less, is_some,
}
use podio.Version.{Version}
use podio.IdTable.{CollectionIdTable, empty_table}
use podio.BufferFactory.{FuncMap, create_buffers}
use podio.Parameters.{
  Kind, int, float, double, string, GenericParameters, Value, load_from, no_parameters,
}
use podio.Frame.Data.{RootFrameData}
use podio.RootUtils.{
  CollectionWriteInfo, make_coll_id_table, coll_info_name, subset_branch, ref_branch, names_of,
  gp_key_name, gp_value_name,
}
use podio.RootReader.Entries.{has_name, check_requested}

-- What is used of a `RNTupleReader` of ROOT: how many entries it has, the value of a field at an entry
-- (none for a field that is not there), and the buffers of a collection filled from their fields.
pub record NtupleOps (Rd B I F D : Type 0) : Type 0 where
  pub n_entries : Rd → ℕ
  pub key_view : Rd → (name : Text) → ℕ → List Text
  pub value_view : (k : Kind) → Rd → (name : Text) → ℕ → List (List (Value I F D k))
  pub load_entry : Rd → CollectionWriteInfo → ℕ → B → Option B

pub record NtupleReader (Rd : Type 0) : Type 0 where
  pub filenames : List Text
  pub file_version : Version
  pub definitions : List (Text × Text)
  pub definition_versions : List (Text × Version)
  pub available_categories : List Text
  pub readers : List (Text × List Rd)
  pub reader_entries : List (Text × List ℕ)
  pub total_entries : List (Text × ℕ)
  pub entries : List (Text × ℕ)
  pub collection_info : List (Text × List CollectionWriteInfo)
  pub id_tables : List (Text × CollectionIdTable)

-- The metadata of a file: the versions of the datamodels are there for some of the definitions.
pub record FileMetadata : Type 0 where
  pub podio_version : Version
  pub edm_definitions : List (Text × Text)
  pub edm_version : Text → Option Version
  pub stored_categories : List Text

-- `v.back()` and `v.pop_back()`; the vectors are not empty.
unfoldable pub last_of : ℕ → List ℕ → ℕ
last_of x [] = x
last_of x (y ∷ ys) = last_of y ys

unfoldable pub all_but_last : ℕ → List ℕ → List ℕ
all_but_last x [] = []
all_but_last x (y ∷ ys) = x ∷ all_but_last y ys

-- `m_entries[category]`
unfoldable pub entry_of : Text → List (Text × ℕ) → ℕ
entry_of category entries = elim (find text_dec category entries) [ none ↦ 0 | some e ↦ e ]

-- `getEntries`
unfoldable pub get_entries : {Rd : Type 0} → Text → NtupleReader Rd → ℕ
unfolding entry_of
get_entries category r = entry_of category r.total_entries

-- `std::ranges::upper_bound` of the sorted vector: the position of the first element above `v`
unfoldable pub upper_bound : ℕ → List ℕ → ℕ
upper_bound v [] = 0
upper_bound v (x ∷ xs) = ite (dec_lt v x) 0 (suc (upper_bound v xs))

-- The reader of an entry and the number of the entry in it
unfoldable pub locate : (reader_entries : List ℕ) → (ent_num : ℕ) → Outcome (ℕ × ℕ)
unfolding upper_bound
locate reader_entries ent_num = elim (upper_bound ent_num reader_entries) [
  | zero ↦ undefined
  | suc reader_index ↦ do
    first ← unchecked (get_elem? reader_entries reader_index)
    ok (reader_index, ent_num - first)
]

unfoldable pub total_of : List ℕ → ℕ
unfolding last_of
total_of [] = 0
total_of (x ∷ xs) = last_of x xs

unfoldable pub starts_of : List ℕ → List ℕ
unfolding all_but_last
starts_of [] = []
starts_of (x ∷ xs) = all_but_last x xs

-- `m[key]` of a map to vectors
unfoldable pub or_none : {A : Type 0} → Option (List A) → List A
or_none none = []
or_none (some xs) = xs

-- The versions of the datamodels that have one
unfoldable pub versions_in :
    (edm_version : Text → Option Version) → List (Text × Text) → List (Text × Version)
versions_in edm_version [] = []
versions_in edm_version ((name, d) ∷ defs) = elim (edm_version name) [
  | none ↦ versions_in edm_version defs
  | some version ↦ (name, version) ∷ versions_in edm_version defs
]

unfoldable pub all_have_metadata : (metadata : Text → Option FileMetadata) → List Text → Bool
all_have_metadata metadata [] = true
all_have_metadata metadata (f ∷ fs) =
    cond (is_some (metadata f)) (all_have_metadata metadata fs) false

module _ {Rd : Type 0} where
  -- `initCategory`: whether the category is available, and then its collections and its table.
  unfoldable pub init_category :
      (coll_info_in : Text → List CollectionWriteInfo)
      → Text
      → NtupleReader Rd
      → Bool × NtupleReader Rd
  unfolding has_name
  init_category coll_info_in category r =
      cond (has_name category r.available_categories)
        (
          true,
          record r {
            collection_info =
                assign text_dec category (coll_info_in (coll_info_name category)) r.collection_info;
            id_tables =
                assign text_dec category
                  (make_coll_id_table (coll_info_in (coll_info_name category))) r.id_tables;
          },
        )
        (false, r)

module _ {Rd B I F D : Type 0} (ops : NtupleOps Rd B I F D) where
  -- The loop over the files of a category in `openFiles`, which is skipped for a file without the
  -- category: the readers, and where each one's entries start, with the total at the end, in
  -- 32 bits.
  unfoldable pub open_category :
      (open_reader : Text → Option Rd) → (filenames : List Text) → (total : ℕ) → List Rd × List ℕ
  open_category open_reader [] total = ([], total ∷ [])
  open_category open_reader (f ∷ fs) total =
      let skip = open_category open_reader fs total in
      elim (open_reader f) [
        | none ↦ skip
        | some reader ↦
            let rest = open_category open_reader fs ((total + ops.n_entries reader) % 2 ^ 32) in
            (reader ∷ rest.0, total ∷ rest.1)
      ]

  -- `openFiles` for each category. The readers and their entries come behind those that are there.
  unfoldable pub open_categories :
      (open_reader : Text → Text → Option Rd)
      → (filenames : List Text) → (categories : List Text) → NtupleReader Rd
      → NtupleReader Rd
  unfolding open_category total_of starts_of or_none
  open_categories open_reader filenames [] r = r
  open_categories open_reader filenames (c ∷ cs) r =
      let opened = open_category (open_reader c) filenames 0 in
      open_categories open_reader filenames cs (record r {
        readers = assign text_dec c (or_none (find text_dec c r.readers) ++ opened.0) r.readers;
        reader_entries =
            assign text_dec c (or_none (find text_dec c r.reader_entries) ++ starts_of opened.1)
              r.reader_entries;
        total_entries = assign text_dec c (total_of opened.1) r.total_entries;
      })

  -- The metadata of the first file of the call, and the categories of all files
  unfoldable pub open_with :
      (open_reader : Text → Text → Option Rd) → FileMetadata → NtupleReader Rd → NtupleReader Rd
  unfolding open_categories versions_in
  open_with open_reader meta r =
      let available = sort text_less meta.stored_categories in
      open_categories open_reader r.filenames available (record r {
        file_version = meta.podio_version;
        definitions = meta.edm_definitions;
        definition_versions = versions_in meta.edm_version meta.edm_definitions;
        available_categories = available;
      })

  -- The metadata of every file of the call is opened, and a file without metadata throws; the names
  -- of the files are stored before.
  unfoldable pub open_files :
      (metadata : Text → Option FileMetadata)
      → (open_reader : Text → Text → Option Rd) → (filenames : List Text) → NtupleReader Rd
      → Outcome (Unit {0}) × NtupleReader Rd
  unfolding open_with all_have_metadata
  open_files metadata open_reader [] r = (undefined, r)
  open_files metadata open_reader (f ∷ fs) r =
      let r' = record r { filenames = r.filenames ++ f ∷ fs } in
      elim (metadata f) [
        | none ↦ (throws runtime_error, r')
        | some meta ↦
            cond (all_have_metadata metadata fs) (ok tt, open_with open_reader meta r')
              (throws runtime_error, r')
      ]

  -- The loop over the collections of an entry: those that are not asked for, those of a type that is
  -- not known and those whose fields cannot be bound are left out.
  unfoldable pub read_collections :
      FuncMap B
      → Rd
      → (local_entry : ℕ) → (colls_to_read : List Text) → List CollectionWriteInfo
      → List (Text × B)
      → Outcome (List (Text × B))
  unfolding has_name
  read_collections factory reader local_entry colls_to_read [] buffers = ok buffers
  read_collections factory reader local_entry colls_to_read (coll ∷ colls) buffers =
      let skip = read_collections factory reader local_entry colls_to_read colls buffers in
      let add = λ (b : B).
        read_collections factory reader local_entry colls_to_read colls
          (emplace text_dec coll.name b buffers) in
      cond (not (is_empty colls_to_read) && not (has_name coll.name colls_to_read)) skip (do
        maybe_buffers ← create_buffers factory coll.data_type coll.schema_version coll.is_subset
        elim maybe_buffers [
          | none ↦ skip
          | some b ↦ elim (ops.load_entry reader coll local_entry b) [
            | none ↦ skip
            | some b' ↦ add b'
          ]
        ])

  -- `readEventMetaData`
  unfoldable pub read_params :
      Rd
      → (local_entry : ℕ) → List Kind
      → GenericParameters I F D
      → Outcome (GenericParameters I F D)
  read_params reader local_entry [] params = ok params
  read_params reader local_entry (k ∷ ks) params = do
    params' ←
        load_from k (ops.key_view reader (gp_key_name k) local_entry)
          (ops.value_view k reader (gp_value_name k) local_entry) params
    read_params reader local_entry ks params'

module _ {Rd B I F D : Type 0} (ops : NtupleOps Rd B I F D) where
  -- `readEntry` of a category that is ready
  unfoldable pub read_ready :
      FuncMap B
      → Text
      → (ent_num : ℕ) → (colls_to_read : List Text) → NtupleReader Rd
      → Outcome (Option (RootFrameData B (GenericParameters I F D)) × NtupleReader Rd)
  unfolding get_entries locate read_collections read_params check_requested
  read_ready factory category ent_num colls_to_read r =
      ite (dec_le (get_entries category r) ent_num) (ok (none, r)) (do
        coll_info ← unchecked (find text_dec category r.collection_info)
        check_requested (names_of coll_info) colls_to_read
        starts ← unchecked (find text_dec category r.reader_entries)
        (reader_index, local_entry) ← locate starts ent_num
        readers ← unchecked (find text_dec category r.readers)
        reader ← unchecked (get_elem? readers reader_index)
        table ← unchecked (find text_dec category r.id_tables)
        buffers ← read_collections ops factory reader local_entry colls_to_read coll_info []
        parameters ←
            read_params ops reader local_entry (int ∷ float ∷ double ∷ string ∷ []) no_parameters
        ok (
          some (record { buffers = buffers; id_table = table; parameters = parameters }),
          record r { entries = assign text_dec category ((ent_num + 1) % 2 ^ 32) r.entries },
        ))

  unfoldable pub read_entry :
      (coll_info_in : Text → List CollectionWriteInfo)
      → FuncMap B
      → Text
      → (ent_num : ℕ) → (colls_to_read : List Text) → NtupleReader Rd
      → Outcome (Option (RootFrameData B (GenericParameters I F D)) × NtupleReader Rd)
  unfolding read_ready init_category
  read_entry coll_info_in factory category ent_num colls_to_read r =
      cond (is_some (find text_dec category r.collection_info))
        (read_ready factory category ent_num colls_to_read r)
        (let ready = init_category coll_info_in category r in
          cond ready.0 (read_ready factory category ent_num colls_to_read ready.1) (ok (none, r)))

  -- `readNextEntry`, which counts from 0 for each category
  unfoldable pub read_next_entry :
      (coll_info_in : Text → List CollectionWriteInfo)
      → FuncMap B
      → Text
      → (colls_to_read : List Text) → NtupleReader Rd
      → Outcome (Option (RootFrameData B (GenericParameters I F D)) × NtupleReader Rd)
  unfolding read_entry entry_of
  read_next_entry coll_info_in factory category colls_to_read r =
      let next = entry_of category r.entries in
      read_entry coll_info_in factory category next colls_to_read
        (record r { entries = assign text_dec category next r.entries })
