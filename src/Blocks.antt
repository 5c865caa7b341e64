-- ===== src/Blocks.antt =====
-- The blocks of a SIO record that hold parameters and collection IDs (src/SIOBlock.cc,
-- include/podio/SIOBlock.h). The SIO library's devices and its encoding of versions are parameters.
pub mod Laws
use podio.Base.{
  ℕ, zero, suc, ◌≤◌, Text, text_order, dec_le, ite, List, [], ◌∷◌, Option, none, some, length,
  map_emplace,
}
use podio.IdTable.{CollectionIdTable}
use podio.Parameters.{ParamMap, GenericParameters}
use podio.Toc.{Codec}

-- `SIOCollectionIDTableBlock`
pub record CollectionIdTableBlock : Type 0 where
  pub names : List Text
  pub ids : List ℕ
  pub types : List Text
  pub is_subset_coll : List ℕ

unfoldable pub get_table : CollectionIdTableBlock → CollectionIdTable
get_table b = record { collection_ids = b.ids; names = b.names }

-- `chain o k`: a read, and what is done with its value and the rest of the device.
abbrev pub chain {ℓ κ} : {A : Type ℓ} {B : Type κ} → Option A → (A → Option B) → Option B
chain none k = none
chain (some a) k = k a

module _ (texts : Codec (List Text)) (numbers : Codec (List ℕ)) (encode_version : ℕ → ℕ → ℕ) where
  unfoldable pub write_table_block : CollectionIdTableBlock → List ℕ → List ℕ
  write_table_block b rest =
      texts.write b.names
        (numbers.write b.ids (texts.write b.types (numbers.write b.is_subset_coll rest)))

  -- The subset bits are there from version 0.2 on.
  unfoldable pub read_subset_bits : ℕ → List ℕ → List ℕ → Option (List ℕ × List ℕ)
  read_subset_bits version old device =
      ite (dec_le (encode_version 0 2) version) (numbers.read device) (some (old, device))

  unfoldable pub read_table_block :
      CollectionIdTableBlock → ℕ → List ℕ → Option (CollectionIdTableBlock × List ℕ)
  unfolding read_subset_bits
  read_table_block b version device = chain (texts.read device) (λ n. chain (numbers.read n.1) (λ i.
      chain (texts.read i.1) (λ t.
        chain (read_subset_bits version b.is_subset_coll t.1)
          (λ s. some (record { names = n.0; ids = i.0; types = t.0; is_subset_coll = s.0 }, s.1)))))

module _ (int : Codec ℕ) (string : Codec Text) where
  module _ {T : Type 0} (vector : Codec (List T)) where
    unfoldable pub write_pairs : ParamMap T → List ℕ → List ℕ
    write_pairs [] rest = rest
    write_pairs ((key, value) ∷ m) rest = string.write key (vector.write value (write_pairs m rest))

    -- `writeMapLike`
    unfoldable pub write_map_like : ParamMap T → List ℕ → List ℕ
    unfolding write_pairs
    write_map_like m rest = int.write (length m) (write_pairs m rest)

    -- The loop of `readMapLike`, where an entry that is there stays.
    unfoldable pub read_pairs : (size : ℕ) → ParamMap T → List ℕ → Option (ParamMap T × List ℕ)
    read_pairs zero m device = some (m, device)
    read_pairs (suc size) m device = elim (string.read device) [
      | none ↦ none
      | some (key, device') ↦ elim (vector.read device') [
        | none ↦ none
        | some (value, device'') ↦ read_pairs size (map_emplace text_order key value m) device''
      ]
    ]

    unfoldable pub read_map_like : ParamMap T → List ℕ → Option (ParamMap T × List ℕ)
    unfolding read_pairs
    read_map_like m device = elim (int.read device) [
      | none ↦ none
      | some (size, device') ↦ read_pairs size m device'
    ]

  module _ {I F D : Type 0} (ints : Codec (List I)) (floats : Codec (List F))
      (doubles : Codec (List D)) (strings : Codec (List Text)) (encode_version : ℕ → ℕ → ℕ) where
    unfoldable pub write_generic_parameters : GenericParameters I F D → List ℕ → List ℕ
    unfolding write_map_like
    write_generic_parameters p rest = write_map_like ints p.int_map (
        write_map_like floats p.float_map
          (write_map_like strings p.string_map (write_map_like doubles p.double_map rest)))

    -- The doubles are there from version 0.2 on.
    unfoldable pub read_doubles : ℕ → ParamMap D → List ℕ → Option (ParamMap D × List ℕ)
    unfolding read_map_like
    read_doubles version m device =
        ite (dec_le (encode_version 0 2) version) (read_map_like doubles m device)
          (some (m, device))

    unfoldable pub read_generic_parameters :
        GenericParameters I F D → ℕ → List ℕ → Option (GenericParameters I F D × List ℕ)
    unfolding read_map_like read_doubles
    read_generic_parameters p version device = chain (read_map_like ints p.int_map device) (λ i.
        chain (read_map_like floats p.float_map i.1) (λ f.
          chain (read_map_like strings p.string_map f.1) (λ s.
            chain (read_doubles version p.double_map s.1) (λ d. some (
              record { int_map = i.0; float_map = f.0; string_map = s.0; double_map = d.0 },
              d.1,
            )))))
