-- ===== src/SioData/Refines.antt =====
-- The operations of `SIOFrameData` (src/SIOFrameData.cc) on unpacked data, as operations on a map from
-- names to buffers.
use podio.Base.{
  ℕ, suc, ◌+◌, ◌-◌, ◌<◌, ◌≡◌, refl, Text, text_dec, dec_lt, List, ◌∷◌, Option, ok, length,
  get_elem?, set, drop, index_of, find, remove, keys, arith, true, false, ap, Option-cases, inl,
  inr, sym, get_elem?-some, index_of-le, Bool-cases, Bool, get_elem?-lt,
}
use podio.IdTable.{CollectionIdTable, collection_id, present_name}
use podio.SioData.{
  SioBlock, SioFrameData, get_collection_buffers, get_available_collections, unpack_buffers,
}
use podio.SioData.Laws.{
  Aligned, Distinct, held, held-absent, held-set, Aligned-set, take_block_lem, available_from-held,
}

-- The data has a flag and a block for the parameters, and one of each for every name of the table.
pub record IsUnpacked {K P : Type 0} (d : SioFrameData K P) : Type 0 where
  pub flag : ℕ
  pub first : SioBlock K
  pub flags : List ℕ
  pub blocks : List (SioBlock K)
  pub has_flags : d.available_blocks ≡ flag ∷ flags
  pub has_blocks : d.blocks ≡ first ∷ blocks
  pub aligned : Aligned d.id_table.names flags blocks
  pub distinct : Distinct d.id_table.names
  pub paired : length d.id_table.collection_ids ≡ length d.id_table.names

module _ (t : CollectionIdTable) (n : Text)
    (paired : length t.collection_ids ≡ length t.names) where
  present-lt : present_name t n ≡ true → index_of text_dec n t.names < length t.names
  unfolding present_name collection_id
  present-lt e = elim (Option-cases (get_elem? t.collection_ids (index_of text_dec n t.names))) [
    | inl none_there ↦ absurd (ground (arith, none_there, e))
    | inr (id, there) ↦
        omega (arith, get_elem?-lt t.collection_ids (index_of text_dec n t.names) there)
  ]

  absent-eq : present_name t n ≡ false → index_of text_dec n t.names ≡ length t.names
  unfolding present_name collection_id
  absent-eq e = elim (dec_lt (index_of text_dec n t.names) (length t.names)) [
    | yes h ↦
        let (id, there) =
          get_elem?-some t.collection_ids (index_of text_dec n t.names) (omega arith) in
        absurd (ground (arith, there, e))
    | no h ↦ omega (arith, index_of-le text_dec n t.names)
  ]

one_less : (n : ℕ) → suc n - 1 ≡ n
one_less n = omega arith

from_zero : (ns : List Text) (j : ℕ) → get_elem? ns (0 + j) ≡ get_elem? ns j
from_zero ns j = ap (get_elem? ns) (omega arith)

behind_one : (a : ℕ) (flags : List ℕ) (j : ℕ) → get_elem? (a ∷ flags) (1 + j) ≡ get_elem? flags j
behind_one a flags j = let e : 1 + j ≡ suc j = omega arith in ap (get_elem? (a ∷ flags)) e

module _ {K P B : Type 0} (create_block : (type name : Text) → (is_subset : Bool) → Option K)
    (read_blocks : List (SioBlock K) → P → List (SioBlock K) × P) (get_buffers : K → B) where
  -- The map that the data stands for
  unfoldable pub buffers_in : SioFrameData K P → List (Text × B)
  unfolding held
  buffers_in d = held get_buffers d.id_table.names (drop 1 d.available_blocks) (drop 1 d.blocks)

  unpack_again :
      (d : SioFrameData K P) → IsUnpacked d → unpack_buffers create_block read_blocks d ≡ ok d
  unfolding unpack_buffers
  unpack_again d u = rw u.has_blocks refl

  get_available_collections-IsUnpacked :
      (d : SioFrameData K P)
      → IsUnpacked d
      → get_available_collections create_block read_blocks d ≡ ok (keys (buffers_in d), d)
  unfolding get_available_collections buffers_in
  get_available_collections-IsUnpacked d u =
      rw
        (
          unpack_again d u,
          u.has_blocks,
          u.has_flags,
          one_less (length u.blocks),
          available_from-held get_buffers d.id_table.names (u.flag ∷ u.flags) 0
              (from_zero d.id_table.names) (behind_one u.flag u.flags) u.aligned,
        )
        refl

  get_collection_buffers-IsUnpacked :
      (d : SioFrameData K P) (n : Text)
      → IsUnpacked d
      → (d' : SioFrameData K P) × (get_collection_buffers create_block read_blocks get_buffers d n
          ≡ ok (find text_dec n (buffers_in d), d'))
        × (buffers_in d' ≡ remove text_dec n (buffers_in d))
        × IsUnpacked d'
  unfolding get_collection_buffers buffers_in
  get_collection_buffers-IsUnpacked d n u = elim (Bool-cases (present_name d.id_table n)) [
    | inl there ↦ (
      record d { available_blocks = u.flag ∷ set u.flags (index_of text_dec n d.id_table.names) 0 },
      rw (unpack_again d u, there, u.has_blocks, u.has_flags)
          (rw
            (take_block_lem get_buffers n u.flag u.first u.aligned u.distinct
              (present-lt d.id_table n u.paired there))
            refl),
      rw (u.has_blocks, u.has_flags) (held-set get_buffers n u.aligned u.distinct),
      record {
        flag = u.flag;
        first = u.first;
        flags = set u.flags (index_of text_dec n d.id_table.names) 0;
        blocks = u.blocks;
        has_flags = refl;
        has_blocks = u.has_blocks;
        aligned = Aligned-set get_buffers (index_of text_dec n d.id_table.names) 0 u.aligned;
        distinct = u.distinct;
        paired = u.paired;
      },
    )
    | inr absent ↦ (
      d,
      rw
          (
            unpack_again d u,
            absent,
            (held-absent get_buffers n d.id_table.names (drop 1 d.available_blocks)
                (drop 1 d.blocks) (absent-eq d.id_table n u.paired absent)).0,
          )
          refl,
      sym
          (held-absent get_buffers n d.id_table.names (drop 1 d.available_blocks) (drop 1 d.blocks)
            (absent-eq d.id_table n u.paired absent)).1,
      u,
    )
  ]

  -- Unpacked data whose names are distinct and all have a block is a map from names to buffers, whatever the order of its blocks and its flags:
  -- it names the keys of the map as available, and it hands out the buffers of a name by what the
  -- map has, which then leave the map and nothing else does.
  pub sio_data_refines_map :
      (d : SioFrameData K P) (n : Text)
      → IsUnpacked d
      → (d' : SioFrameData K P) × (get_available_collections create_block read_blocks d
          ≡ ok (keys (buffers_in d), d))
        × (get_collection_buffers create_block read_blocks get_buffers d n
            ≡ ok (find text_dec n (buffers_in d), d'))
        × (buffers_in d' ≡ remove text_dec n (buffers_in d))
        × IsUnpacked d'
  sio_data_refines_map d n u =
      let (d', handed, rest, u') = get_collection_buffers-IsUnpacked d n u in
      (d', get_available_collections-IsUnpacked d u, handed, rest, u')
