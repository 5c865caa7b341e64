-- ===== src/RootReader.antt =====
-- `ROOTReader` (src/ROOTReader.cc, include/podio/ROOTReader.h): the categories of a chain of files,
-- the branches of their collections, and reading an entry. ROOT's chains `Ch` and branches `Br` are
-- parameters; a branch gives a value of `V` at an entry of the tree that is loaded.
pub mod Entries
pub mod Categories
use podio.Base.{
  ℕ, zero, suc, ◌+◌, ◌-◌, ◌*◌, ◌%◌, ◌^◌, ◌≤◌, ◌<◌, Text, codes, text_dec, ℕ_discrete, dec_lt,
  dec_le, ite, cond, Bool, true, false, not, ◌&&◌, ◌||◌, List, [], ◌∷◌, ◌++◌, map, Option, none,
  some, Outcome, ok, throws, undefined, ◌>>=◌, ◌>>◌, Error, runtime_error, invalid_argument,
  bad_optional_access, unchecked, or_throw, length, get_elem?, set, is_empty, find, assign, emplace,
  sort, text_less, index_of, is_some,
}
use podio.Version.{Version, version_lt}
use podio.IdTable.{CollectionIdTable, name, empty_table}
use podio.BufferFactory.{FuncMap, create_buffers}
use podio.Parameters.{
  Kind, int, float, double, string, GenericParameters, Value, load_from, no_parameters,
}
use podio.Registry.{RelationNames}
use podio.Frame.Data.{RootFrameData}
use podio.RootUtils.{
  CollectionWriteInfo, make_coll_id_table, coll_info_name, subset_branch, ref_branch, ref_branch_at,
  vec_branch_at, gp_key_name, gp_value_name, gp_branch_offsets, GpBranchOffsets, param_branch_name,
}

-- What is used of a `TChain`. `load_tree` gives the entry in the tree that it loads; after it the
-- chain's branches are those of that tree.
pub record ChainOps (Ch Br V : Type 0) : Type 0 where
  pub n_entries : Ch → ℕ
  pub tree_number : Ch → Option ℕ
  pub load_tree : ℕ → Ch → ℕ × Ch
  pub get_branch : Ch → Text → Option Br
  pub get_entry : Br → ℕ → V

-- `CollectionReadBuffers`: the parts that are read, null where a type has none
pub record ReadBuffers (V : Type 0) : Type 0 where
  pub contents : Option V
  pub references : Option (List V)
  pub vector_members : Option (List V)

-- `NamedCollInfo`, with the index of the branches
pub record NamedCollInfo : Type 0 where
  pub name : Text
  pub type : Text
  pub is_subset : Bool
  pub schema_version : ℕ
  pub index : ℕ

pub record CollectionBranches (Br : Type 0) : Type 0 where
  pub data_branch : Option Br
  pub refs : List (Option Br)
  pub vecs : List (Option Br)
  pub ref_names : List Text
  pub vec_names : List Text

pub record CategoryInfo (Ch Br : Type 0) : Type 0 where
  pub chain : Ch
  pub entry : ℕ
  pub stored_classes : List NamedCollInfo
  pub branches : List (CollectionBranches Br)
  pub table : CollectionIdTable

-- What `initCategory` finds in the metadata: the collection info of each of the three formats, and the
-- table of older files.
pub record MetaData : Type 0 where
  pub coll_info : Text → List CollectionWriteInfo
  pub coll_info_old : Text → List (Text × ℕ × Bool × ℕ)
  pub coll_info_really_old : Text → List (Text × ℕ × Bool)
  pub id_table : Text → CollectionIdTable

unfoldable pub info_with_schema : List (Text × ℕ × Bool × ℕ) → List CollectionWriteInfo
info_with_schema [] = []
info_with_schema ((type, id, is_subset, version) ∷ infos) =
    record {
      collection_id = id;
      data_type = type;
      is_subset = is_subset;
      schema_version = version;
      name = [];
      storage_type = [];
    }
    ∷ info_with_schema infos

-- The schema version is set to 1.
unfoldable pub info_without_schema : List (Text × ℕ × Bool) → List CollectionWriteInfo
info_without_schema [] = []
info_without_schema ((type, id, is_subset) ∷ infos) =
    record {
      collection_id = id;
      data_type = type;
      is_subset = is_subset;
      schema_version = 1;
      name = [];
      storage_type = [];
    }
    ∷ info_without_schema infos

abbrev pub version_of : ℕ → ℕ → ℕ → Version
version_of major minor patch = record { major = major; minor = minor; patch = patch }

unfoldable pub read_coll_info : Version → MetaData → Text → List CollectionWriteInfo
unfolding info_with_schema info_without_schema version_lt
read_coll_info file_version meta category =
    cond (version_lt file_version (version_of 1 2 999))
      (cond (version_lt file_version (version_of 0 16 4))
        (info_without_schema (meta.coll_info_really_old category))
        (info_with_schema (meta.coll_info_old category)))
      (meta.coll_info category)

unfoldable pub read_id_table :
    Version → MetaData → Text → List CollectionWriteInfo → CollectionIdTable
unfolding version_lt
read_id_table file_version meta category coll_info =
    cond (version_lt file_version (version_of 1 2 999)) (meta.id_table category)
      (make_coll_id_table coll_info)

abbrev pub one_branch : {Br : Type 0} → Option Br → CollectionBranches Br
one_branch br = record { data_branch = br; refs = []; vecs = []; ref_names = []; vec_names = [] }

module _ {Ch Br V : Type 0} (ops : ChainOps Ch Br V) (chain : Ch) where
  abbrev branches_named : List Text → List (Option Br)
  branches_named = map (ops.get_branch chain)

  -- The branches of a collection whose relations have names
  unfoldable pub named_branches : RelationNames → Text → Bool → CollectionBranches Br
  named_branches relations n is_subset =
      cond is_subset
        (record {
          data_branch = none;
          refs = branches_named (subset_branch n ∷ []);
          vecs = [];
          ref_names = subset_branch n ∷ [];
          vec_names = [];
        })
        (let ref_names = map (ref_branch n) relations.relations in
          let vec_names = map (ref_branch n) relations.vector_members in
          record {
            data_branch = ops.get_branch chain n;
            refs = branches_named ref_names;
            vecs = branches_named vec_names;
            ref_names = ref_names;
            vec_names = vec_names;
          })

  -- The names of the branches that old files number
  unfoldable pub numbered : (branch_at : ℕ → Text) → (left i : ℕ) → List Text
  numbered branch_at zero i = []
  numbered branch_at (suc left) i = branch_at i ∷ numbered branch_at left (suc i)

  unfoldable pub index_based_branches : (n_refs n_vecs : ℕ) → Text → Bool → CollectionBranches Br
  unfolding numbered
  index_based_branches n_refs n_vecs n is_subset =
      cond is_subset
        (record {
          data_branch = none;
          refs = branches_named (ref_branch_at n 0 ∷ []);
          vecs = [];
          ref_names = ref_branch_at n 0 ∷ [];
          vec_names = [];
        })
        (let ref_names = numbered (ref_branch_at n) n_refs 0 in
          let vec_names = numbered (vec_branch_at n) n_vecs 0 in
          record {
            data_branch = ops.get_branch chain n;
            refs = branches_named ref_names;
            vecs = branches_named vec_names;
            ref_names = ref_names;
            vec_names = vec_names;
          })

-- The loop of `createCollectionBranches` and `createCollectionBranchesIndexBased`, by how the branches
-- of one collection are made: the names come from the table.
unfoldable pub create_branches :
    {Br : Type 0}
    → (branches_of : (type name : Text) → (is_subset : Bool) → CollectionBranches Br)
    → CollectionIdTable
    → (index : ℕ) → List CollectionWriteInfo
    → Outcome (List (CollectionBranches Br) × List NamedCollInfo)
create_branches branches_of table index [] = ok ([], [])
create_branches branches_of table index (info ∷ infos) = do
  n ← or_throw (name table info.collection_id) bad_optional_access
  (branches, classes) ← create_branches branches_of table (suc index) infos
  ok (
    branches_of info.data_type n info.is_subset ∷ branches,
    record {
      name = n;
      type = info.data_type;
      is_subset = info.is_subset;
      schema_version = info.schema_version;
      index = index;
    }
        ∷ classes,
  )

module _ {Ch Br V : Type 0} (ops : ChainOps Ch Br V) (chain : Ch) where
  unfoldable pub create_collection_branches :
      (relations : Text → RelationNames)
      → CollectionIdTable
      → List CollectionWriteInfo
      → Outcome (List (CollectionBranches Br) × List NamedCollInfo)
  unfolding create_branches named_branches
  create_collection_branches relations table infos =
      create_branches (λ type n s. named_branches ops chain (relations type) n s) table 0 infos

  -- `sizes` gives how many references and vector members a new collection of a type has.
  unfoldable pub create_collection_branches_index_based :
      (sizes : Text → ℕ × ℕ)
      → CollectionIdTable
      → List CollectionWriteInfo
      → Outcome (List (CollectionBranches Br) × List NamedCollInfo)
  unfolding create_branches index_based_branches
  create_collection_branches_index_based sizes table infos =
      create_branches (λ type n s. index_based_branches ops chain (sizes type).0 (sizes type).1 n s)
        table 0 infos

  -- The branches of the parameters, behind those of the collections
  unfoldable pub param_branches : Version → List (CollectionBranches Br)
  unfolding version_lt
  param_branches file_version =
      cond (version_lt file_version (version_of 0 99 99))
        (one_branch (ops.get_branch chain param_branch_name) ∷ [])
        (map (λ n. one_branch (ops.get_branch chain n))
          (gp_key_name int
            ∷ gp_value_name int
            ∷ gp_key_name float
            ∷ gp_value_name float
            ∷ gp_key_name double
            ∷ gp_value_name double
            ∷ gp_key_name string
            ∷ gp_value_name string
            ∷ []))

module _ {Ch Br V : Type 0} (ops : ChainOps Ch Br V) (relations : Text → RelationNames)
    (sizes : Text → ℕ × ℕ) (file_version : Version) (meta : MetaData) where
  unfoldable pub init_category : Text → CategoryInfo Ch Br → Outcome (CategoryInfo Ch Br)
  unfolding read_coll_info read_id_table create_collection_branches param_branches
      create_collection_branches_index_based
  init_category category info =
      let coll_info = read_coll_info file_version meta category in
      let table = read_id_table file_version meta category coll_info in
      do
        (branches, classes) ←
            cond (version_lt file_version (version_of 0 16 99))
              (create_collection_branches_index_based ops info.chain sizes table coll_info)
              (create_collection_branches ops info.chain relations table coll_info)
        ok (record info {
          branches = branches ++ param_branches ops info.chain file_version;
          stored_classes = classes;
          table = table;
        })

  -- `getCategoryInfo`: none for the invalid category, else the category, made ready at its first use.
  unfoldable pub get_category_info :
      Text → List (Text × CategoryInfo Ch Br) → Outcome (Option (CategoryInfo Ch Br))
  unfolding init_category
  get_category_info category categories = elim (find text_dec category categories) [
    | none ↦ ok none
    | some info ↦
        cond (is_empty info.branches) (do info' ← init_category category info; ok (some info'))
          (ok (some info))
  ]

  -- `getEntries`
  unfoldable pub get_entries : Text → List (Text × CategoryInfo Ch Br) → ℕ
  get_entries category categories = elim (find text_dec category categories) [
    | none ↦ 0
    | some info ↦ ops.n_entries info.chain % 2 ^ 32
  ]
