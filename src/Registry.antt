-- ===== src/Registry.antt =====
-- `DatamodelRegistry` (src/DatamodelRegistry.cc), with the collector of the definitions that a writer
-- stores and the holder of those that a reader found (src/DatamodelRegistryIOHelpers.cc). `V` is the
-- type of versions. The relation names of a type are `N`.
pub mod Laws
use podio.Base.{
  ℕ, ◌+◌, ◌-◌, ◌^◌, ◌<◌, Text, codes, text_dec, ℕ_discrete, dec_lt, ite, List, [], ◌∷◌, ◌++◌, map,
  Option, none, some, length, get_elem?, take, drop, cond, Bool, true, false, index_of, find,
  emplace, keys,
}
use podio.DataSource.{int_to_size}

pub record DatamodelRegistry (N V : Type 0) : Type 0 where
  pub definitions : List (Text × Text)
  pub relations : List (Text × N)
  pub versions : List (Text × V)

-- `"{}"`
abbrev pub empty_definition : Text
empty_definition = 123 ∷ 125 ∷ []

-- What an iterator to a definition gives, or the empty definition at the end.
unfoldable pub definition_of : Option Text → Text
definition_of none = empty_definition
definition_of (some d) = d

module _ {N : Type 0} where
  -- The relation names of a new datamodel, type by type; those of a known type stay.
  unfoldable pub add_relations : List (Text × N) → List (Text × N) → List (Text × N)
  add_relations [] known = known
  add_relations ((type, names) ∷ rs) known = add_relations rs (emplace text_dec type names known)

module _ {N V : Type 0} where
  -- `registerDatamodel`: the index of the datamodel, new if its name is.
  unfoldable pub register_datamodel :
      Text
      → (definition : Text) → List (Text × N)
      → DatamodelRegistry N V
      → ℕ × DatamodelRegistry N V
  unfolding add_relations
  register_datamodel name definition relation_names s =
      ite (dec_lt (index_of text_dec name (keys s.definitions)) (length s.definitions))
        (index_of text_dec name (keys s.definitions), s)
        (
          int_to_size (length s.definitions),
          record s {
            definitions = s.definitions ++ (name, definition) ∷ [];
            relations = add_relations relation_names s.relations;
          },
        )

  -- The same with a version, of which the first for a name stays.
  unfoldable pub register_versioned :
      Text
      → (definition : Text) → List (Text × N)
      → V
      → DatamodelRegistry N V
      → ℕ × DatamodelRegistry N V
  unfolding register_datamodel
  register_versioned name definition relation_names version s =
      let (index, s') = register_datamodel name definition relation_names s in
      (index, record s' { versions = emplace text_dec name version s'.versions })

  unfoldable pub get_datamodel_definition : Text → DatamodelRegistry N V → Text
  unfolding definition_of
  get_datamodel_definition name s = definition_of (find text_dec name s.definitions)

  unfoldable pub get_definition_at : ℕ → DatamodelRegistry N V → Text
  get_definition_at index s = elim (get_elem? s.definitions index) [
    | none ↦ empty_definition
    | some (n, d) ↦ d
  ]

  unfoldable pub get_datamodel_name : ℕ → DatamodelRegistry N V → Text
  get_datamodel_name index s = elim (get_elem? s.definitions index) [ none ↦ [] | some (n, d) ↦ n ]

  unfoldable pub get_datamodel_version : Text → DatamodelRegistry N V → Option V
  get_datamodel_version name s = find text_dec name s.versions

  -- `getDatamodelDefinitionsToWrite` of the collected indices
  unfoldable pub definitions_to_write : DatamodelRegistry N V → List ℕ → List (Text × Text)
  unfolding get_datamodel_name get_definition_at
  definitions_to_write s [] = []
  definitions_to_write s (i ∷ is) =
      (get_datamodel_name i s, get_definition_at i s) ∷ definitions_to_write s is

-- `NoDefinitionNecessary` and `NoDefinitionAvailable`
abbrev pub no_definition_necessary : ℕ
no_definition_necessary = 2 ^ 64 - 1

abbrev pub no_definition_available : ℕ
no_definition_available = 2 ^ 64 - 2

-- `std::set::insert`
unfoldable pub insert_index : ℕ → List ℕ → List ℕ
insert_index i [] = i ∷ []
insert_index i (j ∷ js) =
    ite (ℕ_discrete i j) (j ∷ js) (ite (dec_lt i j) (i ∷ j ∷ js) (j ∷ insert_index i js))

-- `registerDatamodelDefinition` of a collection of the datamodel with the index
unfoldable pub register_definition : ℕ → List ℕ → List ℕ
unfolding insert_index
register_definition edm_index indices =
    ite (ℕ_discrete edm_index no_definition_available) indices
      (ite (ℕ_discrete edm_index no_definition_necessary) indices (insert_index edm_index indices))

-- `DatamodelDefinitionHolder`
unfoldable pub held_definition : Text → List (Text × Text) → Text
unfolding definition_of
held_definition name defs = definition_of (find text_dec name defs)

unfoldable pub get_available_datamodels : List (Text × Text) → List Text
get_available_datamodels defs = keys defs

unfoldable pub held_version : {V : Type 0} → Text → List (Text × V) → Option V
held_version name versions = find text_dec name versions

-- `typeName.substr(0, n) == prefix`
unfoldable pub has_prefix : Text → Text → Bool
has_prefix [] type_name = true
has_prefix (c ∷ prefix) [] = false
has_prefix (c ∷ prefix) (d ∷ type_name) = ite (ℕ_discrete c d) (has_prefix prefix type_name) false

-- The type name without a `Collection` at its end, if there is more before it.
unfoldable pub strip_collection : Text → Text
strip_collection type_name =
    let start = length type_name - 10 in
    ite (dec_lt 10 (length type_name))
      (ite (text_dec (drop start type_name) (codes "Collection")) (take start type_name) type_name)
      type_name

-- The names of the relations and of the vector members.
pub record RelationNames : Type 0 where
  pub relations : List Text
  pub vector_members : List Text

unfoldable pub get_relation_names :
    {V : Type 0} → Text → DatamodelRegistry RelationNames V → RelationNames
unfolding has_prefix strip_collection
get_relation_names type_name s =
    cond (has_prefix (codes "podio::UserDataCollection") type_name)
      (record { relations = []; vector_members = [] })
      (cond (has_prefix (codes "podio::Link") type_name)
        (record { relations = codes "from" ∷ codes "to" ∷ []; vector_members = [] })
        (elim (find text_dec (strip_collection type_name) s.relations) [
          | none ↦ record { relations = []; vector_members = [] }
          | some names ↦ names
        ]))
