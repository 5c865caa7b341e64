-- ===== src/RootWriter.antt =====
-- `ROOTWriter` (src/ROOTWriter.cc, include/podio/ROOTWriter.h): the categories of a file, and how
-- Frames are written to the tree of their category. ROOT's trees `T` and branches `Br` are
-- parameters, and so are the generated collections `C`. A function that throws may leave a changed
-- writer behind, so `write_frame` gives the writer beside its outcome.
pub mod Rejects
pub mod Rebinds
use podio.Base.{
  ℕ, zero, suc, ◌+◌, ◌-◌, ◌*◌, ◌%◌, ◌^◌, Text, codes, text_dec, ite, cond, Bool, true, false, List,
  [], ◌∷◌, ◌++◌, map, Option, none, some, Outcome, ok, throws, undefined, ◌>>=◌, Error,
  runtime_error, unchecked, length, get_elem?, is_empty, find, assign, sort, text_less,
}
use podio.Parameters.{Kind, int, float, double, string, GenericParameters, get_keys_and_values}
use podio.Registry.{
  RelationNames, DatamodelRegistry, get_relation_names, register_definition, definitions_to_write,
  get_datamodel_version,
}
use podio.RootUtils.{
  CollectionWriteInfo, check_consistent_colls, get_inconsistent_colls, sort_alphabetically,
  subset_branch, ref_branch, vec_branch, storage_type_name, gp_key_name, gp_value_name,
  gp_branch_offsets, GpBranchOffsets, coll_info_name, edm_version_branch_name,
}

-- Where a branch takes its values from when the tree is filled.
pub data Address (C : Type 0) : Type 0 where
  collection_data : C → Address C
  reference vector_member : C → ℕ → Address C
  param_keys param_values : Kind → Address C

-- The storage of the parameters of a category, keys and values by kind
pub record ParamStorage (I F D : Type 0) : Type 0 where
  pub int_params : List Text × List (List I)
  pub float_params : List Text × List (List F)
  pub double_params : List Text × List (List D)
  pub string_params : List Text × List (List Text)

-- What is used of a `TTree`. To fill it, it gets what its branches may point to.
pub record TreeOps (T Br C S : Type 0) : Type 0 where
  pub new_tree : (name title : Text) → T
  pub branch : T → Text → Address C → Br × T
  pub set_address : Br → Address C → T → T
  pub fill : S → T → T

-- What is asked of a collection that is written.
pub record WriteOps (C : Type 0) : Type 0 where
  pub get_id : C → ℕ
  pub type_name : C → Text
  pub value_type_name : C → Text
  pub data_type_name : C → Text
  pub is_subset_collection : C → Bool
  pub schema_version : C → ℕ
  pub datamodel_index : C → ℕ
  pub has_data : C → Bool
  pub n_references : C → ℕ
  pub n_vector_members : C → ℕ

pub record CollectionBranches (Br : Type 0) : Type 0 where
  pub data_branch : Option Br
  pub refs : List Br
  pub vecs : List Br

pub record CategoryInfo (T Br I F D : Type 0) : Type 0 where
  pub tree : Option T
  pub branches : List (CollectionBranches Br)
  pub coll_info : List CollectionWriteInfo
  pub colls_to_write : List Text
  pub params : ParamStorage I F D

pub record RootWriter (T Br I F D : Type 0) : Type 0 where
  pub categories : List (Text × CategoryInfo T Br I F D)
  pub datamodel_indices : List ℕ

abbrev pub no_params : {I F D : Type 0} → ParamStorage I F D
no_params = record {
  int_params = ([], []);
  float_params = ([], []);
  double_params = ([], []);
  string_params = ([], []);
}

module _ {T Br I F D : Type 0} where
  abbrev pub new_category : CategoryInfo T Br I F D
  new_category = record {
    tree = none;
    branches = [];
    coll_info = [];
    colls_to_write = [];
    params = no_params;
  }

  -- `getCategoryInfo`: the category that is there, or a new one.
  unfoldable pub get_category_info : Text → RootWriter T Br I F D → CategoryInfo T Br I F D
  get_category_info category w = elim (find text_dec category w.categories) [
    | none ↦ new_category
    | some info ↦ info
  ]

  -- `checkConsistency`: what is missing from the collections and what is superfluous
  unfoldable pub check_consistency :
      List Text → Text → RootWriter T Br I F D → List Text × List Text
  check_consistency colls_to_write category w = elim (find text_dec category w.categories) [
    | none ↦ ([], colls_to_write)
    | some info ↦ get_inconsistent_colls info.colls_to_write colls_to_write
  ]

  unfoldable pub fill_params :
      GenericParameters I F D → CategoryInfo T Br I F D → CategoryInfo T Br I F D
  fill_params p info = record info {
    params = record {
      int_params = get_keys_and_values int p;
      float_params = get_keys_and_values float p;
      double_params = get_keys_and_values double p;
      string_params = get_keys_and_values string p;
    };
  }

-- The collections of the names, if the Frame has all of them.
unfoldable pub collect : {C : Type 0} → (Text → Option C) → List Text → Option (List (Text × C))
collect frame [] = some []
collect frame (n ∷ ns) = elim (frame n) [
  | none ↦ none
  | some coll ↦ elim (collect frame ns) [ none ↦ none | some rest ↦ some ((n, coll) ∷ rest) ]
]

abbrev pub all_kinds : List Kind
all_kinds = int ∷ float ∷ double ∷ string ∷ []

module _ {T Br C S : Type 0} (trees : TreeOps T Br C S) where
  -- The loops over the references and over the vector members: `left` branches from position `i`
  -- on, named by an unchecked access to the names.
  unfoldable pub add_branches :
      (branch_name : Text → Text)
      → (address : ℕ → Address C) → (names : List Text) → (left i : ℕ) → T
      → Outcome (List Br × T)
  add_branches branch_name address names zero i t = ok ([], t)
  add_branches branch_name address names (suc left) i t = do
    name ← unchecked (get_elem? names i)
    let made = trees.branch t (branch_name name) (address i)
    (rest, t') ← add_branches branch_name address names left (suc i) made.1
    ok (made.0 ∷ rest, t')

  -- `setCollectionAddressesWriter` for one kind of branches, which are read without a check
  unfoldable pub set_addresses : (address : ℕ → Address C) → List Br → (left i : ℕ) → T → Outcome T
  set_addresses address branches zero i t = ok t
  set_addresses address branches (suc left) i t = do
    br ← unchecked (get_elem? branches i)
    set_addresses address branches left (suc i) (trees.set_address br (address i) t)

  -- A branch pointer that is used without a check
  unfoldable pub set_data_address : Option Br → Address C → T → Outcome T
  set_data_address br address t = do b ← unchecked br; ok (trees.set_address b address t)

  -- The parameters of the kinds, at their offsets from the last branch of a collection. Without a
  -- collection that position is -1, which an unsigned 64-bit number makes 2^64 - 1.
  unfoldable pub reset_params :
      List (CollectionBranches Br) → (last : ℕ) → List Kind → T → Outcome T
  unfolding set_data_address gp_branch_offsets
  reset_params branches last [] t = ok t
  reset_params branches last (k ∷ ks) t = do
    keys ← unchecked (get_elem? branches ((last + (gp_branch_offsets k).keys) % 2 ^ 64))
    t' ← set_data_address keys.data_branch (param_keys k) t
    values ← unchecked (get_elem? branches ((last + (gp_branch_offsets k).values) % 2 ^ 64))
    t'' ← set_data_address values.data_branch (param_values k) t'
    reset_params branches last ks t''

  -- The branches of keys and values of each kind of parameters
  unfoldable pub init_params :
      List Kind → T → List (CollectionBranches Br) → T × List (CollectionBranches Br)
  init_params [] t branches = (t, branches)
  init_params (k ∷ ks) t branches =
      let keys = trees.branch t (gp_key_name k) (param_keys k) in
      let values = trees.branch keys.1 (gp_value_name k) (param_values k) in
      init_params ks values.1 (
        branches
        ++ record { data_branch = some keys.0; refs = []; vecs = [] }
          ∷ record { data_branch = some values.0; refs = []; vecs = [] }
          ∷ [])

  module _ (cs : WriteOps C) where
    unfoldable pub set_collection_addresses : C → CollectionBranches Br → T → Outcome T
    unfolding set_addresses set_data_address
    set_collection_addresses coll branches t = do
      t' ←
          cond (cs.has_data coll) (set_data_address branches.data_branch (collection_data coll) t)
            (ok t)
      t'' ← set_addresses (reference coll) branches.refs (cs.n_references coll) 0 t'
      set_addresses (vector_member coll) branches.vecs (cs.n_vector_members coll) 0 t''

    unfoldable pub reset_collections :
        List (CollectionBranches Br) → (i_coll : ℕ) → List (Text × C) → T → Outcome T
    unfolding set_collection_addresses
    reset_collections branches i_coll [] t = ok t
    reset_collections branches i_coll ((name, coll) ∷ colls) t = do
      brs ← unchecked (get_elem? branches i_coll)
      t' ← set_collection_addresses coll brs t
      reset_collections branches (suc i_coll) colls t'

    unfoldable pub reset_branches : List (CollectionBranches Br) → List (Text × C) → T → Outcome T
    unfolding reset_collections reset_params
    reset_branches branches colls t = do
      t' ← reset_collections branches 0 colls t
      reset_params branches ((length colls + 2 ^ 64 - 1) % 2 ^ 64) all_kinds t'

    unfoldable pub subset_branches : Text → C → T → Outcome (CollectionBranches Br × T)
    subset_branches name coll t = elim (cs.n_references coll) [
      | zero ↦ undefined
      | suc n ↦
          let made = trees.branch t (subset_branch name) (reference coll 0) in
          ok (record { data_branch = none; refs = made.0 ∷ []; vecs = [] }, made.1)
    ]

    unfoldable pub proper_branches :
        RelationNames → Text → C → T → Outcome (CollectionBranches Br × T)
    unfolding add_branches
    proper_branches relations name coll t =
        let made = trees.branch t name (collection_data coll) in
        do
          (refs, t') ←
              add_branches (ref_branch name) (reference coll) relations.relations
                (cs.n_references coll) 0 made.1
          (vecs, t'') ←
              add_branches (vec_branch name) (vector_member coll) relations.vector_members
                (cs.n_vector_members coll) 0 t'
          ok (record { data_branch = some made.0; refs = refs; vecs = vecs }, t'')

    -- The branches of one collection in `initBranches`
    unfoldable pub collection_branches :
        RelationNames → Text → C → T → Outcome (CollectionBranches Br × T)
    unfolding subset_branches proper_branches
    collection_branches relations name coll t =
        cond (cs.is_subset_collection coll) (subset_branches name coll t)
          (proper_branches relations name coll t)

module _ {C : Type 0} (cs : WriteOps C) where
  unfoldable pub write_info : Text → C → CollectionWriteInfo
  write_info name coll = record {
    collection_id = cs.get_id coll;
    data_type = cs.type_name coll;
    is_subset = cs.is_subset_collection coll;
    schema_version = cs.schema_version coll;
    name = name;
    storage_type = storage_type_name (cs.data_type_name coll);
  }

module _ {T Br C I F D : Type 0} (trees : TreeOps T Br C (ParamStorage I F D)) (cs : WriteOps C)
    (relations : Text → RelationNames) where
  -- The loop over the collections in `initBranches`. The collector of definitions goes along.
  unfoldable pub init_collections :
      List (Text × C)
      → T
      → CategoryInfo T Br I F D
      → List ℕ
      → Outcome (T × CategoryInfo T Br I F D × List ℕ)
  unfolding collection_branches write_info
  init_collections [] t info indices = ok (t, info, indices)
  init_collections ((name, coll) ∷ colls) t info indices = do
    (branches, t') ← collection_branches trees cs (relations (cs.value_type_name coll)) name coll t
    init_collections colls t'
        (record info {
          branches = info.branches ++ branches ∷ [];
          coll_info = info.coll_info ++ write_info cs name coll ∷ [];
        })
        (register_definition (cs.datamodel_index coll) indices)

  unfoldable pub init_branches :
      List (Text × C)
      → GenericParameters I F D
      → T
      → CategoryInfo T Br I F D
      → List ℕ
      → Outcome (T × CategoryInfo T Br I F D × List ℕ)
  unfolding init_collections init_params fill_params
  init_branches colls p t info indices = do
    (t', info', indices') ← init_collections colls t info indices
    let made = init_params trees all_kinds t' info'.branches
    ok (made.0, record (fill_params p info') { branches = made.1 }, indices')

  -- A category at its first use fixes its collections and makes its tree.
  unfoldable pub start_category :
      Text → List Text → CategoryInfo T Br I F D → CategoryInfo T Br I F D
  start_category category colls_to_write info = elim info.tree [
    | none ↦ record info {
      colls_to_write = sort_alphabetically colls_to_write;
      tree = some (trees.new_tree category (category ++ codes " data tree"));
    }
    | some t ↦ info
  ]

  -- The tree, the category and the collector after the branches were made or set.
  unfoldable pub write_collections :
      (colls_to_write : List Text)
      → List (Text × C)
      → GenericParameters I F D
      → T
      → CategoryInfo T Br I F D
      → List ℕ
      → Outcome (T × CategoryInfo T Br I F D × List ℕ)
  unfolding init_branches fill_params reset_branches
  write_collections colls_to_write colls p t info indices =
      cond (is_empty info.branches) (init_branches colls p t info indices) (
        cond (check_consistent_colls info.coll_info colls_to_write)
          (do
            t' ← reset_branches trees cs info.branches colls t
            ok (t', fill_params p info, indices))
          (throws runtime_error))

  -- What `writeFrame` does with a category that has its tree: the category and the collector that
  -- it leaves. `TTree::Fill` comes last.
  unfoldable pub write_category :
      (frame : Text → Option C)
      → GenericParameters I F D
      → (colls_to_write : List Text) → T
      → CategoryInfo T Br I F D
      → List ℕ
      → Outcome (CategoryInfo T Br I F D × List ℕ)
  unfolding collect write_collections
  write_category frame p colls_to_write t info indices = elim (collect frame info.colls_to_write) [
    | none ↦ throws runtime_error
    | some colls ↦ do
      (t', info', indices') ← write_collections colls_to_write colls p t info indices
      ok (record info' { tree = some (trees.fill info'.params t') }, indices')
  ]

  -- The writer that is left: with the category as it was started, where the write throws.
  unfoldable pub store :
      Text
      → CategoryInfo T Br I F D
      → RootWriter T Br I F D
      → Outcome (CategoryInfo T Br I F D × List ℕ)
      → Outcome (Unit {0}) × RootWriter T Br I F D
  store category started w (ok (info, indices)) = (
    ok tt,
    record { categories = assign text_dec category info w.categories; datamodel_indices = indices },
  )
  store category started w (throws e) =
      (throws e, record w { categories = assign text_dec category started w.categories })
  store category started w undefined = (undefined, w)

  -- `started` has its tree.
  unfoldable pub write_started :
      (frame : Text → Option C)
      → GenericParameters I F D
      → (colls_to_write : List Text) → CategoryInfo T Br I F D
      → List ℕ
      → Outcome (CategoryInfo T Br I F D × List ℕ)
  unfolding write_category
  write_started frame p colls_to_write started indices = elim started.tree [
    | none ↦ undefined
    | some t ↦ write_category frame p colls_to_write t started indices
  ]

  unfoldable pub write_frame :
      (frame : Text → Option C)
      → GenericParameters I F D
      → Text
      → (colls_to_write : List Text) → RootWriter T Br I F D
      → Outcome (Unit {0}) × RootWriter T Br I F D
  unfolding get_category_info start_category write_started store
  write_frame frame p category colls_to_write w =
      let started = start_category category colls_to_write (get_category_info category w) in
      store category started w (write_started frame p colls_to_write started w.datamodel_indices)

-- The metadata that `finish` stores: the versions of the datamodels that have one, and the
-- collection info of each category.
module _ {N V : Type 0} where
  unfoldable pub versions_to_write : DatamodelRegistry N V → List (Text × Text) → List (Text × V)
  versions_to_write s [] = []
  versions_to_write s ((name, d) ∷ defs) = elim (get_datamodel_version name s) [
    | none ↦ versions_to_write s defs
    | some version ↦ (edm_version_branch_name name, version) ∷ versions_to_write s defs
  ]

unfoldable pub info_branches :
    {T Br I F D : Type 0}
    → List (Text × CategoryInfo T Br I F D)
    → List (Text × List CollectionWriteInfo)
info_branches [] = []
info_branches ((category, info) ∷ cs) = (coll_info_name category, info.coll_info) ∷ info_branches cs
