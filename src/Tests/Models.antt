-- ===== src/Tests/Models.antt =====
-- Runs of the registry of datamodels.
use podio.Base.{ℕ, zero, suc, ◌≡◌, refl, Text, index_of, [], ◌∷◌, some, get_elem?, arith}
use podio.Registry.{
  DatamodelRegistry, register_datamodel, get_datamodel_name, definitions_to_write,
  register_definition, held_definition,
}
use podio.Registry.Laws.{Distinct, register_datamodel_lem, held_definition-definitions_to_write}

abbrev registry : DatamodelRegistry Text ℕ
registry = record {
  definitions = (1 ∷ [], 10 ∷ []) ∷ (2 ∷ [], 20 ∷ []) ∷ [];
  relations = [];
  versions = [];
}

register_datamodel_lem_example :
    (i : ℕ) × (s' : DatamodelRegistry Text ℕ) × (register_datamodel (3 ∷ []) (30 ∷ []) [] registry
      ≡ (i, s'))
    × (get_datamodel_name i s' ≡ 3 ∷ [])
    × ((j : ℕ) (p : Text × Text)
        → get_elem? registry.definitions j ≡ some p
        → get_elem? s'.definitions j ≡ some p)
    × ((other : Text) → register_datamodel (3 ∷ []) other [] s' ≡ (i, s'))
register_datamodel_lem_example = register_datamodel_lem (3 ∷ []) (30 ∷ []) [] registry (omega arith)

registry-Distinct : Distinct registry.definitions
unfolding index_of
registry-Distinct zero n d e = ground (arith, e)
registry-Distinct (suc zero) n d e = ground (arith, e)
registry-Distinct (suc (suc i)) n d e = cc

held_definition-definitions_to_write_example :
    held_definition (2 ∷ []) (definitions_to_write registry (register_definition 1 (0 ∷ [])))
    ≡ 20 ∷ []
held_definition-definitions_to_write_example =
    held_definition-definitions_to_write registry 1 (2 ∷ []) (20 ∷ []) (0 ∷ []) registry-Distinct
      (omega arith) refl (omega arith, tt)
