-- ===== src/Blocks/Laws.antt =====
-- What a block writes it reads back.
use podio.Base.{
  ℕ, ◌≤◌, ◌≡◌, refl, ap, ◌∙◌, Text, text_order, Ordered, map_emplace, map_emplace_all,
  map_emplace_all-append, List, [], ◌∷◌, some, length, arith,
}
use podio.Parameters.{ParamMap, GenericParameters, no_parameters}
use podio.Parameters.Laws.{IsSorted}
use podio.Toc.{Codec}
use podio.Blocks.{
  CollectionIdTableBlock, write_table_block, read_subset_bits, read_table_block, write_pairs,
  write_map_like, read_pairs, read_map_like, write_generic_parameters, read_doubles,
  read_generic_parameters,
}

module _ (texts : Codec (List Text)) (numbers : Codec (List ℕ)) (encode_version : ℕ → ℕ → ℕ) where
  -- A block of collection IDs that was written is read back as it was, if it is read as version 0.2
  -- or a later one; nothing that follows the block is read.
  pub read_table_block-write_table_block :
      (b old : CollectionIdTableBlock) (version : ℕ) (rest : List ℕ)
      → encode_version 0 2 ≤ version
      → texts.Fit b.names
      → numbers.Fit b.ids
      → texts.Fit b.types
      → numbers.Fit b.is_subset_coll
      → read_table_block texts numbers encode_version old version
          (write_table_block texts numbers encode_version b rest)
        ≡ some (b, rest)
  unfolding read_table_block read_subset_bits write_table_block
  read_table_block-write_table_block b old version rest h f g k l =
      let bits = numbers.write b.is_subset_coll rest in
      let ts = texts.write b.types bits in
      let is = numbers.write b.ids ts in
      rw
        (
          texts.read-write b.names is f,
          numbers.read-write b.ids ts g,
          texts.read-write b.types bits k,
        )
        (ground (arith, numbers.read-write b.is_subset_coll rest l))

module _ (int : Codec ℕ) (string : Codec Text) where
  module _ {T : Type 0} (vector : Codec (List T)) where
    -- All keys and vectors of a map, and their number, can be written.
    abbrev pub PairsFit : ParamMap T → Type 0
    PairsFit [] = Unit
    PairsFit ((key, value) ∷ m) = string.Fit key × vector.Fit value × PairsFit m

    abbrev pub MapFits : ParamMap T → Type 0
    MapFits m = int.Fit (length m) × PairsFit m

    read_pairs-write_pairs :
        (m acc : ParamMap T) (rest : List ℕ)
        → PairsFit m
        → read_pairs int string vector (length m) acc (write_pairs int string vector m rest)
          ≡ some (map_emplace_all text_order m acc, rest)
    unfolding read_pairs write_pairs map_emplace_all
    read_pairs-write_pairs [] acc rest f = refl
    read_pairs-write_pairs ((key, value) ∷ m) acc rest f =
        rw
          (
            string.read-write key (vector.write value (write_pairs int string vector m rest)) f.0,
            vector.read-write value (write_pairs int string vector m rest) f.1,
          )
          (read_pairs-write_pairs m (map_emplace text_order key value acc) rest f.2)

    read_map_like-write_map_like :
        (m : ParamMap T) (rest : List ℕ)
        → MapFits m
        → Ordered text_order m
        → read_map_like int string vector [] (write_map_like int string vector m rest)
          ≡ some (m, rest)
    unfolding read_map_like write_map_like
    read_map_like-write_map_like m rest f s =
        rw (read_map_like, int.read-write (length m) (write_pairs int string vector m rest) f.0)
          (read_pairs-write_pairs m [] rest f.1
            ∙ ap (λ x. some (x, rest)) (map_emplace_all-append text_order m [] s))

  module _ {I F D : Type 0} (ints : Codec (List I)) (floats : Codec (List F))
      (doubles : Codec (List D)) (strings : Codec (List Text)) (encode_version : ℕ → ℕ → ℕ) where
    -- Parameters that were written are read back into an empty object as they were, in all four
    -- types, if they are read as version 0.2 or a later one.
    pub read_generic_parameters-write_generic_parameters :
        (p : GenericParameters I F D) (version : ℕ) (rest : List ℕ)
        → encode_version 0 2 ≤ version
        → IsSorted p
        → MapFits ints p.int_map
        → MapFits floats p.float_map
        → MapFits strings p.string_map
        → MapFits doubles p.double_map
        → read_generic_parameters int string ints floats doubles strings encode_version
            no_parameters version
            (write_generic_parameters int string ints floats doubles strings encode_version p rest)
          ≡ some (p, rest)
    unfolding read_generic_parameters read_doubles write_generic_parameters
    read_generic_parameters-write_generic_parameters p version rest h s f g k l =
        let d = write_map_like int string doubles p.double_map rest in
        let t = write_map_like int string strings p.string_map d in
        let e = write_map_like int string floats p.float_map t in
        rw
          (
            read_map_like-write_map_like ints p.int_map e f s.ints,
            read_map_like-write_map_like floats p.float_map t g s.floats,
            read_map_like-write_map_like strings p.string_map d k s.strings,
          )
          (ground (arith, read_map_like-write_map_like doubles p.double_map rest l s.doubles))
