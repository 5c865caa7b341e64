-- ===== src/Tests/Tables.antt =====
-- Runs of the tables: the IDs, the parameters, and the registries of functions.
use podio.Base.{
  ℕ, ◌≡◌, refl, ◌≢◌, ◌⊎◌, Text, text_dec, false, [], ◌∷◌, none, some, ok, length, zero, suc, ◌+◌,
  find, index_of, arith,
}
use podio.IdTable.{CollectionIdTable, name, collection_id, add}
use podio.IdTable.Laws.{IsValid, DistinctIds, add_lem, name-add_collision, name-collection_id}
use podio.Parameters.{
  Kind, int, GenericParameters, no_parameters, first, get_vector, get_value, get_n, get_map,
  put_map, set_vector, get_keys_and_values, load_from,
}
use podio.Parameters.Laws.{IsSorted, set_vector_lem, load_from-get_keys_and_values}
use podio.Evolution.{
  SchemaEvolution, EvolutionFunc, auto_generated, evolve_buffers, register_evolution_func,
}
use podio.Evolution.Registered
use podio.Evolution.Laws.{evolve_buffers-register}
use podio.BufferFactory.{CreationFunc, FuncMap, create_buffers, register_creation_func}
use podio.BufferFactory.Laws.{
  versions_of, at_version, Registers, register_creation_func_lem, create_buffers-versions_of,
}
use mathlib.Core.Option

abbrev hits : Text
hits = 104 ∷ 105 ∷ []

abbrev tracks : Text
tracks = 116 ∷ []

abbrev table : CollectionIdTable
table = record { collection_ids = 7 ∷ 1 ∷ []; names = hits ∷ tracks ∷ [] }

abbrev clusters : Text
clusters = 99 ∷ []

table-IsValid : IsValid table
table-IsValid = record { paired = refl }

table-DistinctIds : DistinctIds table
table-DistinctIds zero zero id p q = refl
table-DistinctIds zero (suc zero) id p q = absurd (ground arith)
table-DistinctIds (suc zero) zero id p q = absurd (ground arith)
table-DistinctIds (suc zero) (suc zero) id p q = refl
table-DistinctIds (suc (suc i)) j id p q = cc
table-DistinctIds zero (suc (suc j)) id p q = cc
table-DistinctIds (suc zero) (suc (suc j)) id p q = cc

add_lem_example :
    (id : ℕ) × (t' : CollectionIdTable) × (add length table clusters ≡ ok (id, t'))
    × IsValid t'
    × (collection_id t' clusters ≡ some id)
    × ((collection_id table clusters ≡ some id)
        ⊎ ((collection_id table clusters ≡ none) × (id ≡ length clusters)))
    × ((m : Text) → m ≢ clusters → collection_id t' m ≡ collection_id table m)
add_lem_example = add_lem length table clusters table-IsValid

name-collection_id_example : name table 1 ≡ some tracks
unfolding collection_id index_of text_dec
name-collection_id_example = name-collection_id table table-IsValid tracks 1 table-DistinctIds refl

-- A hash that gives every name the ID 1.
abbrev constant : Text → ℕ
constant n = 1

name-add_collision_example :
    (t' : CollectionIdTable) × (add constant table clusters ≡ ok (1, t'))
    × (name t' 1 ≡ some tracks)
unfolding collection_id name index_of text_dec
name-add_collision_example =
    name-add_collision constant table clusters tracks table-IsValid refl refl (λ e. ground arith)

abbrev Params : Type 0
Params = GenericParameters ℕ Unit ℕ

abbrev parameters : Params
parameters = record {
  int_map = (hits, 3 ∷ []) ∷ [];
  float_map = [];
  string_map = [];
  double_map = (hits, 5 ∷ 6 ∷ []) ∷ [];
}

parameters-IsSorted : IsSorted parameters
parameters-IsSorted = record { ints = (tt, tt); floats = tt; doubles = (tt, tt); strings = tt }

set_vector_lem_example :
    (get_vector int tracks (set_vector int tracks (1 ∷ 2 ∷ []) parameters) ≡ some (1 ∷ 2 ∷ []))
    × (get_n int tracks (set_vector int tracks (1 ∷ 2 ∷ []) parameters) ≡ 2)
    × (get_value int tracks (set_vector int tracks (1 ∷ 2 ∷ []) parameters)
        ≡ first (some (1 ∷ 2 ∷ [])))
    × ((q : Text)
        → q ≢ tracks
        → get_vector int q (set_vector int tracks (1 ∷ 2 ∷ []) parameters)
          ≡ get_vector int q parameters)
    × ((j : Kind)
        → j ≢ int
        → (q : Text)
        → get_vector j q (set_vector int tracks (1 ∷ 2 ∷ []) parameters)
          ≡ get_vector j q parameters)
    × IsSorted (set_vector int tracks (1 ∷ 2 ∷ []) parameters)
set_vector_lem_example = set_vector_lem int tracks parameters (1 ∷ 2 ∷ []) parameters-IsSorted

abbrev fresh : Params
fresh = no_parameters

load_from-get_keys_and_values_example :
    load_from int
      (get_keys_and_values int parameters).0
      (get_keys_and_values int parameters).1
      fresh
    ≡ ok (put_map int (get_map int parameters) fresh)
unfolding get_map
load_from-get_keys_and_values_example =
    load_from-get_keys_and_values int parameters fresh parameters-IsSorted refl

-- Buffers are numbers here, and functions add to them.
abbrev plus : ℕ → EvolutionFunc ℕ
plus n b v = b + n

-- A type with a function of its user for version 1
abbrev overridden : SchemaEvolution ℕ
overridden = record {
  version_map_indices = (hits, record { current_version = 3; index = 0 }) ∷ [];
  evolution_funcs = (some (plus 5) ∷ none ∷ none ∷ []) ∷ [];
}

overridden-IsValid : Registered.IsValid overridden
unfolding find
overridden-IsValid = record {
  few = omega arith;
  indexed = λ t e q. ground arith;
  distinct = λ t u e d n q r. ground arith;
}

evolve_buffers-register_example :
    (s' : SchemaEvolution ℕ) × (register_evolution_func overridden hits 1 3 (plus 10) auto_generated
      ≡ ok s')
    × (evolve_buffers s' 7 1 hits ≡ ok (17, false))
unfolding Registered.funcs_of find text_dec
evolve_buffers-register_example =
    evolve_buffers-register overridden hits 1 3 (plus 10) 7 auto_generated overridden-IsValid
      (omega arith) (omega arith) (omega arith) (omega arith) refl

abbrev make : ℕ → CreationFunc ℕ
make n subset = n

abbrev factory : FuncMap ℕ
factory = (hits, make 1 ∷ make 2 ∷ []) ∷ []

register_creation_func_lem_example :
    (m' : FuncMap ℕ) × (register_creation_func factory hits 4 (make 9) ≡ ok m')
    × Registers 4 (make 9) (versions_of factory hits) (versions_of m' hits)
    × ((u : Text) → hits ≢ u → versions_of m' u ≡ versions_of factory u)
register_creation_func_lem_example =
    register_creation_func_lem factory hits 4 (make 9) (omega arith) (omega arith)

create_buffers-versions_of_example :
    create_buffers factory hits 2 false
    ≡ ok (Option.map (λ (g : CreationFunc ℕ). g false) (at_version (versions_of factory hits) 2))
create_buffers-versions_of_example =
    create_buffers-versions_of factory hits 2 false (omega arith) (omega arith)
