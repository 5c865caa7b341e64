-- ===== src/Evolution.antt =====
-- `SchemaEvolution` (include/podio/SchemaEvolution.h, src/SchemaEvolution.cc): the functions that
-- bring buffers of an older schema version to the current one. `B` is the type of the buffers. A
-- `std::function` that was never assigned is `none`, and a call of it throws.
pub mod Registered
pub mod Laws
use podio.Base.{
  ℕ, ◌+◌, ◌-◌, ◌%◌, ◌^◌, Text, text_dec, ℕ_discrete, dec_lt, ite, Bool, true, false, List, [], ◌∷◌,
  ◌++◌, Option, none, some, Outcome, ok, throws, undefined, bad_function_call, ◌>>=◌, unchecked,
  or_throw, length, get_elem?, set, replicate, find, emplace, assign,
}

-- `uint32_t` arithmetic on an index: `version - 1`
abbrev pub version_index : ℕ → ℕ
version_index version = (version + 2 ^ 32 - 1) % 2 ^ 32

pub record MapIndex : Type 0 where
  pub current_version : ℕ
  pub index : ℕ

-- `-1u`
abbrev pub no_evolution_available : ℕ
no_evolution_available = 2 ^ 32 - 1

pub data Priority : Type 0 where
  auto_generated user_defined : Priority

abbrev pub EvolutionFunc : Type 0 → Type 0
EvolutionFunc B = B → ℕ → B

pub record SchemaEvolution (B : Type 0) : Type 0 where
  pub version_map_indices : List (Text × MapIndex)
  pub evolution_funcs : List (List (Option (EvolutionFunc B)))

module _ {B : Type 0} where
  abbrev pub no_evolutions : SchemaEvolution B
  no_evolutions = record { version_map_indices = []; evolution_funcs = [] }

  -- `typeEvolFuncs[fromVersion - 1](buffers, fromVersion)`
  unfoldable pub call_evolution : List (Option (EvolutionFunc B)) → B → ℕ → Outcome B
  call_evolution funcs buffers from_version = do
    slot ← unchecked (get_elem? funcs (version_index from_version))
    f ← or_throw slot bad_function_call
    ok (f buffers from_version)

  -- The evolved buffers, and whether the warning about unknown evolutions was printed.
  unfoldable pub evolve_buffers : SchemaEvolution B → B → ℕ → Text → Outcome (B × Bool)
  unfolding call_evolution
  evolve_buffers s old_buffers from_version coll_type =
      elim (find text_dec coll_type s.version_map_indices) [
        | none ↦ ok (old_buffers, true)
        | some entry ↦
            ite (ℕ_discrete from_version entry.current_version) (ok (old_buffers, false)) (do
              funcs ← unchecked (get_elem? s.evolution_funcs entry.index)
              ite (dec_lt from_version (length funcs))
                  (do evolved ← call_evolution funcs old_buffers from_version; ok (evolved, false))
                  (ok (old_buffers, true)))
      ]

  -- The entry of the type, made if there is none.
  unfoldable pub entry_of : SchemaEvolution B → Text → ℕ → MapIndex
  entry_of s coll_type current_version = elim (find text_dec coll_type s.version_map_indices) [
    | none ↦ record { current_version = current_version; index = no_evolution_available }
    | some entry ↦ entry
  ]

  -- The state after a type without evolution functions was given a vector of its own.
  unfoldable pub with_slot : SchemaEvolution B → Text → MapIndex → MapIndex × SchemaEvolution B
  with_slot s coll_type entry =
      ite (ℕ_discrete entry.index no_evolution_available)
        (let entry' = record entry { index = length s.evolution_funcs } in
          (
            entry',
            record {
              version_map_indices = assign text_dec coll_type entry' s.version_map_indices;
              evolution_funcs = s.evolution_funcs ++ [] ∷ [];
            },
          ))
        (entry, s)

  -- `if (versionMap.size() < n) versionMap.resize(n)`
  unfoldable pub resize : List (Option (EvolutionFunc B)) → ℕ → List (Option (EvolutionFunc B))
  resize funcs n = ite (dec_lt (length funcs) n) (funcs ++ replicate (n - length funcs) none) funcs

  -- `versionMap[fromVersion - 1] = evolutionFunc`
  unfoldable pub put_func :
      List (Option (EvolutionFunc B))
      → ℕ
      → EvolutionFunc B
      → Outcome (List (Option (EvolutionFunc B)))
  put_func funcs from_version f =
      ite (dec_lt (version_index from_version) (length funcs))
        (ok (set funcs (version_index from_version) (some f))) undefined

  -- `registerEvolutionFunc`. The priority is looked at last, and nothing depends on it.
  unfoldable pub register_evolution_func :
      SchemaEvolution B → Text → ℕ → ℕ → EvolutionFunc B → Priority → Outcome (SchemaEvolution B)
  unfolding entry_of with_slot resize put_func
  register_evolution_func s coll_type from_version current_version f priority =
      let (entry, s') = with_slot s coll_type (entry_of s coll_type current_version) in
      do
        funcs ← unchecked (get_elem? s'.evolution_funcs entry.index)
        funcs' ← put_func (resize funcs current_version) from_version f
        ok (record s' { evolution_funcs = set s'.evolution_funcs entry.index funcs' })

  unfoldable pub no_op_schema_evolution : EvolutionFunc B
  no_op_schema_evolution buffers version = buffers
