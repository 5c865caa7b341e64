-- ===== src/NtupleWriter.antt =====
-- `RNTupleWriter` (src/RNTupleWriter.cc, include/podio/RNTupleWriter.h): the categories of a file,
-- each with an RNTuple of its own. ROOT's models `M`, entries `E` and writers `W` are parameters, and
-- so are the generated collections `C`. A function that throws may leave a changed category or
-- collector behind, so these stand beside its outcome.
pub mod Retries
pub mod Fields
use podio.Base.{
  ℕ, zero, suc, Text, codes, text_dec, ite, cond, Bool, true, false, List, [], ◌∷◌, ◌++◌, map,
  Option, none, some, Outcome, ok, throws, undefined, ◌>>=◌, Error, runtime_error, unchecked,
  length, get_elem?, find, assign, keys,
}
use podio.Parameters.{Kind, int, float, double, string, GenericParameters, get_keys_and_values}
use podio.Registry.{RelationNames, DatamodelRegistry, register_definition, definitions_to_write}
use podio.RootUtils.{
  CollectionWriteInfo, check_consistent_colls, get_inconsistent_colls, sort_alphabetically,
  subset_branch, ref_branch, vec_branch, gp_key_name, gp_value_name, coll_info_name,
}
use podio.RootWriter.{
  Address, collection_data, reference, vector_member, param_keys, param_values, ParamStorage,
  no_params, WriteOps, collect, write_info, versions_to_write, all_kinds,
}

-- What is used of `RNTupleModel`, `REntry` and ROOT's `RNTupleWriter`. A field may be refused, and so
-- may a name that an entry does not have.
pub record TupleOps (M E W C S : Type 0) : Type 0 where
  pub create_bare : M
  pub add_field : (name type : Text) → M → Outcome M
  pub append : M → (category : Text) → W
  pub create_entry : W → E
  pub bind : (name : Text) → Address C → E → Outcome E
  pub fill : S → E → W → W

pub record CategoryInfo (W I F D : Type 0) : Type 0 where
  pub writer : Option W
  pub coll_info : List CollectionWriteInfo
  pub names : List Text
  pub params : ParamStorage I F D

pub record NtupleWriter (W I F D : Type 0) : Type 0 where
  pub is_open : Bool
  pub datamodel_indices : List ℕ
  pub categories : List (Text × CategoryInfo W I F D)

unfoldable pub key_type : Text
key_type = codes "std::vector<std::string>"

unfoldable pub value_type : Kind → Text
value_type int = codes "std::vector<std::vector<int>>"
value_type float = codes "std::vector<std::vector<float>>"
value_type double = codes "std::vector<std::vector<double>>"
value_type string = codes "std::vector<std::vector<std::string>>"

module _ {W I F D : Type 0} where
  abbrev pub new_category : CategoryInfo W I F D
  new_category = record { writer = none; coll_info = []; names = []; params = no_params }

  unfoldable pub get_category_info : Text → NtupleWriter W I F D → CategoryInfo W I F D
  get_category_info category w = elim (find text_dec category w.categories) [
    | none ↦ new_category
    | some info ↦ info
  ]

  unfoldable pub check_consistency : List Text → Text → NtupleWriter W I F D → List Text × List Text
  check_consistency colls_to_write category w = elim (find text_dec category w.categories) [
    | none ↦ ([], colls_to_write)
    | some info ↦ get_inconsistent_colls info.names colls_to_write
  ]

module _ {I F D : Type 0} where
  -- `getParamStorage` with the assignment to it in `fillParams`
  unfoldable pub store_params :
      Kind → GenericParameters I F D → ParamStorage I F D → ParamStorage I F D
  store_params int p s = record s { int_params = get_keys_and_values int p }
  store_params float p s = record s { float_params = get_keys_and_values float p }
  store_params double p s = record s { double_params = get_keys_and_values double p }
  store_params string p s = record s { string_params = get_keys_and_values string p }

module _ {M E W C S : Type 0} (tuples : TupleOps M E W C S) where
  -- The loops over the references and over the vector members of `createModels`
  unfoldable pub add_fields :
      (field_name : Text → Text)
      → (type : ℕ → Text) → (names : List Text) → (left i : ℕ) → M
      → Outcome M
  add_fields field_name type names zero i m = ok m
  add_fields field_name type names (suc left) i m = do
    name ← unchecked (get_elem? names i)
    m' ← tuples.add_field (field_name name) (type i) m
    add_fields field_name type names left (suc i) m'

  -- The same loops of `writeFrame`
  unfoldable pub bind_fields :
      (field_name : Text → Text)
      → (address : ℕ → Address C) → (names : List Text) → (left i : ℕ) → E
      → Outcome E
  bind_fields field_name address names zero i e = ok e
  bind_fields field_name address names (suc left) i e = do
    name ← unchecked (get_elem? names i)
    e' ← tuples.bind (field_name name) (address i) e
    bind_fields field_name address names left (suc i) e'

  unfoldable pub add_key_fields : List Kind → M → Outcome M
  add_key_fields [] m = ok m
  add_key_fields (k ∷ ks) m = do
    m' ← tuples.add_field (gp_key_name k) key_type m
    add_key_fields ks m'

  unfoldable pub add_value_fields : List Kind → M → Outcome M
  add_value_fields [] m = ok m
  add_value_fields (k ∷ ks) m = do
    m' ← tuples.add_field (gp_value_name k) (value_type k) m
    add_value_fields ks m'

  module _ (cs : WriteOps C) (member_type : C → ℕ → Text) where
    -- The field of the data of a collection, which one without data does not get
    unfoldable pub add_data_field : Text → C → M → Outcome M
    add_data_field name coll m =
        cond (cs.has_data coll)
          (tuples.add_field name (codes "std::vector<" ++ cs.data_type_name coll ++ codes ">") m)
          (ok m)

    unfoldable pub add_member_fields : RelationNames → Text → C → M → Outcome M
    unfolding add_fields
    add_member_fields relations name coll m = do
      m' ←
          add_fields (ref_branch name) (λ i. codes "vector<podio::ObjectID>") relations.relations
            (cs.n_references coll) 0 m
      add_fields (vec_branch name) (λ i. codes "vector<" ++ member_type coll i ++ codes ">")
          relations.vector_members (cs.n_vector_members coll) 0 m'

    -- The fields of one collection in `createModels`
    unfoldable pub collection_fields : RelationNames → Text → C → M → Outcome M
    unfolding add_data_field add_member_fields
    collection_fields relations name coll m = do
      m' ← add_data_field name coll m
      cond (cs.is_subset_collection coll)
          (tuples.add_field (subset_branch name) (codes "vector<podio::ObjectID>") m')
          (add_member_fields relations name coll m')

  module _ (cs : WriteOps C) where
    unfoldable pub bind_data : Text → C → E → Outcome E
    bind_data name coll e =
        cond (cs.has_data coll) (tuples.bind name (collection_data coll) e) (ok e)

    -- The first of the references is read without a check.
    unfoldable pub bind_subset : Text → C → E → Outcome E
    bind_subset name coll e = elim (cs.n_references coll) [
      | zero ↦ undefined
      | suc n ↦ tuples.bind (subset_branch name) (reference coll 0) e
    ]

    unfoldable pub bind_members : RelationNames → Text → C → E → Outcome E
    unfolding bind_fields
    bind_members relations name coll e = do
      e' ←
          bind_fields (ref_branch name) (reference coll) relations.relations (cs.n_references coll)
            0 e
      bind_fields (vec_branch name) (vector_member coll) relations.vector_members
          (cs.n_vector_members coll) 0 e'

    -- The values of one collection in `writeFrame`
    unfoldable pub bind_collection : RelationNames → Text → C → E → Outcome E
    unfolding bind_data bind_subset bind_members
    bind_collection relations name coll e = do
      e' ← bind_data name coll e
      cond (cs.is_subset_collection coll) (bind_subset name coll e')
          (bind_members relations name coll e')

    unfoldable pub bind_collections : (Text → RelationNames) → List (Text × C) → E → Outcome E
    unfolding bind_collection
    bind_collections relations [] e = ok e
    bind_collections relations ((name, coll) ∷ colls) e = do
      e' ← bind_collection (relations (cs.value_type_name coll)) name coll e
      bind_collections relations colls e'

module _ {M E W C I F D : Type 0} (tuples : TupleOps M E W C (ParamStorage I F D)) (cs : WriteOps C)
    (member_type : C → ℕ → Text) (relations : Text → RelationNames) where
  -- The loop over the collections in `createModels`. A definition is registered before the fields are
  -- made, so the collector keeps it also where a field is refused.
  unfoldable pub create_fields : List (Text × C) → M → List ℕ → Outcome M × List ℕ
  unfolding collection_fields
  create_fields [] m indices = (ok m, indices)
  create_fields ((name, coll) ∷ colls) m indices =
      let indices' = register_definition (cs.datamodel_index coll) indices in
      elim (collection_fields tuples cs member_type (relations (cs.value_type_name coll)) name coll
        m) [
          | ok m' ↦ create_fields colls m' indices'
          | throws e ↦ (throws e, indices')
          | undefined ↦ (undefined, indices')
        ]

  unfoldable pub create_models : List (Text × C) → List ℕ → Outcome M × List ℕ
  unfolding create_fields add_key_fields add_value_fields
  create_models colls indices =
      let (made, indices') = create_fields colls tuples.create_bare indices in
      (
        made >>= λ m.
            add_key_fields tuples all_kinds m >>= λ m'. add_value_fields tuples all_kinds m',
        indices',
      )

  unfoldable pub write_infos : List (Text × C) → List CollectionWriteInfo
  unfolding write_info
  write_infos [] = []
  write_infos ((name, coll) ∷ colls) = write_info cs name coll ∷ write_infos colls

  -- `fillParams` for the kinds. The storage is set before its fields are bound.
  unfoldable pub fill_params :
      List Kind → GenericParameters I F D → ParamStorage I F D → E → Outcome E × ParamStorage I F D
  unfolding store_params
  fill_params [] p s e = (ok e, s)
  fill_params (k ∷ ks) p s e =
      let s' = store_params k p s in
      elim (tuples.bind (gp_key_name k) (param_keys k) e
        >>= tuples.bind (gp_value_name k) (param_values k)) [
          | ok e' ↦ fill_params ks p s' e'
          | throws x ↦ (throws x, s')
          | undefined ↦ (undefined, s')
        ]

  -- The last part of `writeFrame`: a new entry is bound and filled.
  unfoldable pub fill_entry :
      List (Text × C)
      → GenericParameters I F D
      → W
      → CategoryInfo W I F D
      → Outcome (Unit {0}) × CategoryInfo W I F D
  unfolding bind_collections fill_params
  fill_entry colls p writer info =
      elim (bind_collections tuples cs relations colls (tuples.create_entry writer)) [
        | throws x ↦ (throws x, info)
        | undefined ↦ (undefined, info)
        | ok e ↦
            let (bound, s) = fill_params all_kinds p info.params e in
            elim bound [
              | ok e' ↦ (ok tt, record info { params = s; writer = some (tuples.fill s e' writer) })
              | throws x ↦ (throws x, record info { params = s })
              | undefined ↦ (undefined, record info { params = s })
            ]
      ]

  -- A category gets its model and its writer at its first write.
  unfoldable pub first_write :
      Text
      → List (Text × C)
      → GenericParameters I F D
      → CategoryInfo W I F D
      → List ℕ
      → Outcome (Unit {0}) × CategoryInfo W I F D × List ℕ
  unfolding create_models fill_entry write_infos
  first_write category colls p info indices =
      let (made, indices') = create_models colls indices in
      elim made [
        | throws x ↦ (throws x, info, indices')
        | undefined ↦ (undefined, info, indices')
        | ok m ↦
            let writer = tuples.append m category in
            let (out, info') = fill_entry colls p writer (record info {
              writer = some writer;
              coll_info = info.coll_info ++ write_infos colls;
            }) in
            (out, info', indices')
      ]

  unfoldable pub later_write :
      (colls_to_write : List Text)
      → List (Text × C)
      → GenericParameters I F D
      → W
      → CategoryInfo W I F D
      → Outcome (Unit {0}) × CategoryInfo W I F D
  unfolding fill_entry
  later_write colls_to_write colls p writer info =
      cond (check_consistent_colls info.coll_info colls_to_write) (fill_entry colls p writer info)
        (throws runtime_error, info)

  -- The names of a category are those of the first Frame, and are set as long as it has no writer.
  unfoldable pub start_category : List Text → CategoryInfo W I F D → CategoryInfo W I F D
  start_category colls_to_write info = elim info.writer [
    | none ↦ record info { names = sort_alphabetically colls_to_write }
    | some writer ↦ info
  ]

  -- `writeFrame` on the category, which has its names, and on the collector
  unfoldable pub write_category :
      (frame : Text → Option C)
      → GenericParameters I F D
      → Text
      → (colls_to_write : List Text) → CategoryInfo W I F D
      → List ℕ
      → Outcome (Unit {0}) × CategoryInfo W I F D × List ℕ
  unfolding collect first_write later_write
  write_category frame p category colls_to_write info indices = elim (collect frame info.names) [
    | none ↦ (throws runtime_error, info, indices)
    | some colls ↦ elim info.writer [
      | none ↦ first_write category colls p info indices
      | some writer ↦
          let (out, info') = later_write colls_to_write colls p writer info in (out, info', indices)
    ]
  ]

  unfoldable pub write_frame :
      (frame : Text → Option C)
      → GenericParameters I F D
      → Text
      → (colls_to_write : List Text) → NtupleWriter W I F D
      → Outcome (Unit {0}) × NtupleWriter W I F D
  unfolding get_category_info start_category write_category
  write_frame frame p category colls_to_write w =
      let (out, info, indices) =
        write_category frame p category colls_to_write
          (start_category colls_to_write (get_category_info category w)) w.datamodel_indices in
      (
        out,
        record w {
          categories = assign text_dec category info w.categories;
          datamodel_indices = indices;
        },
      )

-- The metadata that `finish` writes into the file
pub record Metadata (V : Type 0) : Type 0 where
  pub podio_version : V
  pub edm_versions : List (Text × V)
  pub edm_definitions : List (Text × Text)
  pub available_categories : List Text
  pub collection_infos : List (Text × List CollectionWriteInfo)

module _ {W I F D : Type 0} where
  unfoldable pub info_fields :
      List (Text × CategoryInfo W I F D) → List (Text × List CollectionWriteInfo)
  info_fields [] = []
  info_fields ((category, info) ∷ cs) = (coll_info_name category, info.coll_info) ∷ info_fields cs

  unfoldable pub reset_writers :
      List (Text × CategoryInfo W I F D) → List (Text × CategoryInfo W I F D)
  reset_writers [] = []
  reset_writers ((category, info) ∷ cs) =
      (category, record info { writer = none }) ∷ reset_writers cs

module _ {W I F D N V : Type 0} where
  -- `finish`: what is written to the file, where the file is still open
  unfoldable pub finish :
      DatamodelRegistry N V → V → NtupleWriter W I F D → Option (Metadata V) × NtupleWriter W I F D
  unfolding definitions_to_write versions_to_write info_fields reset_writers
  finish registry build_version w =
      let definitions = definitions_to_write registry w.datamodel_indices in
      cond w.is_open
        (
          some (record {
            podio_version = build_version;
            edm_versions = versions_to_write registry definitions;
            edm_definitions = definitions;
            available_categories = keys w.categories;
            collection_infos = info_fields w.categories;
          }),
          record w { is_open = false; categories = reset_writers w.categories },
        )
        (none, w)
