-- ===== src/Tests/BlockRuns.antt =====
-- Runs of the blocks of a record.
use podio.Base.{ℕ, ◌≡◌, ◌+◌, ◌*◌, [], ◌∷◌, some, arith}
use podio.Parameters.{GenericParameters, no_parameters}
use podio.Parameters.Laws.{IsSorted}
use podio.Blocks.{
  CollectionIdTableBlock, write_table_block, read_table_block, write_generic_parameters,
  read_generic_parameters,
}
use podio.Blocks.Laws.{
  read_table_block-write_table_block, read_generic_parameters-write_generic_parameters,
}
use podio.Tests.Devices.{numbers, lists, texts}

abbrev version : ℕ → ℕ → ℕ
version major minor = major * 65536 + minor

abbrev block : CollectionIdTableBlock
block = record {
  names = (104 ∷ []) ∷ (116 ∷ []) ∷ [];
  ids = 7 ∷ 8 ∷ [];
  types = (1 ∷ []) ∷ (2 ∷ []) ∷ [];
  is_subset_coll = 0 ∷ 1 ∷ [];
}

abbrev empty_block : CollectionIdTableBlock
empty_block = record { names = []; ids = []; types = []; is_subset_coll = [] }

read_table_block-write_table_block_example :
    read_table_block texts lists version empty_block 3
      (write_table_block texts lists version block (9 ∷ []))
    ≡ some (block, 9 ∷ [])
read_table_block-write_table_block_example =
    read_table_block-write_table_block texts lists version block empty_block 3 (9 ∷ [])
      (omega arith) tt tt tt tt

abbrev Params : Type 0
Params = GenericParameters ℕ ℕ ℕ

abbrev parameters : Params
parameters = record {
  int_map = (104 ∷ [], 3 ∷ []) ∷ [];
  float_map = [];
  string_map = (116 ∷ [], (1 ∷ []) ∷ (2 ∷ []) ∷ []) ∷ [];
  double_map = (104 ∷ [], 5 ∷ 6 ∷ []) ∷ [];
}

parameters-IsSorted : IsSorted parameters
parameters-IsSorted = record {
  ints = (tt, tt);
  floats = tt;
  doubles = (tt, tt);
  strings = (tt, tt);
}

abbrev fresh : Params
fresh = no_parameters

read_generic_parameters-write_generic_parameters_example :
    read_generic_parameters numbers lists lists lists lists texts version fresh 2
      (write_generic_parameters numbers lists lists lists lists texts version parameters (9 ∷ []))
    ≡ some (parameters, 9 ∷ [])
read_generic_parameters-write_generic_parameters_example =
    read_generic_parameters-write_generic_parameters numbers lists lists lists lists texts version
      parameters 2 (9 ∷ []) (omega arith) parameters-IsSorted (tt, (tt, tt, tt)) (tt, tt)
      (tt, (tt, tt, tt)) (tt, (tt, tt, tt))
