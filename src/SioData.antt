-- ===== src/SioData.antt =====
-- `SIOFrameData` (src/SIOFrameData.cc, include/podio/SIOFrameData.h): the raw data of a Frame from a
-- SIO file, whose record is unpacked when something is first asked of it. `K` is the type of the
-- blocks that the generated code registers, `B` that of read buffers, `P` that of parameters. How
-- the SIO library decompresses the record and fills the blocks is the parameter `read_blocks`; the
-- block that holds the table is read when the data is made.
pub mod Laws
pub mod Refines
use podio.Base.{
  ℕ, zero, suc, ◌-◌, Text, text_dec, ℕ_discrete, dec_lt, ite, List, [], ◌∷◌, ◌++◌, Option, none,
  some, Bool, true, false, not, cond, Outcome, ok, throws, undefined, ◌>>=◌, ◌>>◌, Error,
  invalid_argument, unchecked, length, get_elem?, set, take, replicate, is_empty, index_of,
}
use podio.IdTable.{CollectionIdTable, present_name}
use podio.Blocks.{CollectionIdTableBlock, get_table}

-- An entry of the list of blocks: the parameters, no block, or the block of a collection.
pub data SioBlock (K : Type 0) : Type 0 where
  meta_data missing : SioBlock K
  collection : K → SioBlock K

pub record SioFrameData (K P : Type 0) : Type 0 where
  pub available_blocks : List ℕ
  pub blocks : List (SioBlock K)
  pub id_table : CollectionIdTable
  pub type_names : List Text
  pub subset_collection_bits : List ℕ
  pub parameters : P
  pub limit_colls : List Text

-- `std::ranges::find(names, name) != names.end()`
unfoldable pub is_listed : List Text → Text → Bool
is_listed names name = ite (dec_lt (index_of text_dec name names) (length names)) true false

-- The limited collections must be in the table.
unfoldable pub check_limits : List Text → (limits : List Text) → Outcome (Unit {0})
unfolding is_listed
check_limits names [] = ok tt
check_limits names (l ∷ ls) =
    cond (is_listed names l) (check_limits names ls) (throws invalid_argument)

-- The constructor, after the block of the table was read.
unfoldable pub make_sio_data :
    {K P : Type 0} → (fresh : P) → CollectionIdTableBlock → List Text → Outcome (SioFrameData K P)
unfolding check_limits get_table
make_sio_data fresh b limits = do
  check_limits b.names limits
  ok (record {
    available_blocks = [];
    blocks = [];
    id_table = get_table b;
    type_names = b.types;
    subset_collection_bits = b.is_subset_coll;
    parameters = fresh;
    limit_colls = limits;
  })

-- The flag of a collection, where the file has such flags.
unfoldable pub subset_bit : List ℕ → ℕ → Outcome Bool
subset_bit [] i = ok false
subset_bit (b ∷ bs) i = do
  bit ← unchecked (get_elem? (b ∷ bs) i)
  ok (ite (ℕ_discrete bit 0) false true)

module _ {K : Type 0} (create_block : (type name : Text) → (is_subset : Bool) → Option K) where
  -- The pointer that the factory gives, null for an unknown type
  unfoldable pub block_of : Option K → SioBlock K
  block_of none = missing
  block_of (some k) = collection k

  -- The loop of `createBlocks` from a position on
  unfoldable pub create_from :
      List Text → List ℕ → ℕ → (types : List Text) → Outcome (List (SioBlock K))
  unfolding subset_bit block_of
  create_from names bits i [] = ok []
  create_from names bits i (t ∷ ts) = do
    is_subset ← subset_bit bits i
    name ← unchecked (get_elem? names i)
    rest ← create_from names bits (suc i) ts
    ok (block_of (create_block t name is_subset) ∷ rest)

-- `std::vector::resize` with the value of new elements
unfoldable pub resize_with : ℕ → ℕ → List ℕ → List ℕ
resize_with n v xs = take n xs ++ replicate (n - length xs) v

-- The loop that throws away the collections that should not become available: `left` blocks from
-- position `i` on.
unfoldable pub limit_from :
    List Text → (limits : List Text) → (left i : ℕ) → List ℕ → Outcome (List ℕ)
unfolding is_listed
limit_from names limits zero i available = ok available
limit_from names limits (suc left) i available = do
  name ← unchecked (get_elem? names (i - 1))
  limit_from names limits left (suc i) (cond (is_listed limits name) available (set available i 0))

-- The loop of `getAvailableCollections`: `left` blocks from position `i` on
unfoldable pub available_from : List Text → List ℕ → (left i : ℕ) → Outcome (List Text)
available_from names available zero i = ok []
available_from names available (suc left) i =
    let rest = available_from names available left (suc i) in
    do
      flag ← unchecked (get_elem? available i)
      ite (ℕ_discrete flag 0) rest (do
        name ← unchecked (get_elem? names (i - 1))
        collections ← rest
        ok (name ∷ collections))

module _ {K B : Type 0} (get_buffers : K → B) where
  -- What the cast of a block to `SIOBlock` can be asked for
  unfoldable pub buffers_of : SioBlock K → Outcome B
  buffers_of (collection k) = ok (get_buffers k)
  buffers_of missing = undefined
  buffers_of meta_data = undefined

  -- The block of a name of the table, if it is still available, and then no longer
  unfoldable pub take_block :
      List Text → List ℕ → List (SioBlock K) → Text → Outcome (Option B × List ℕ)
  unfolding buffers_of
  take_block names available blocks name =
      let index = suc (index_of text_dec name names) in
      do
        flag ← unchecked (get_elem? available index)
        ite (ℕ_discrete flag 0) (ok (none, available)) (do
          block ← unchecked (get_elem? blocks index)
          buffers ← buffers_of block
          ok (some buffers, set available index 0))

module _ {K P : Type 0} (create_block : (type name : Text) → (is_subset : Bool) → Option K)
    (read_blocks : List (SioBlock K) → P → List (SioBlock K) × P) where
  unfoldable pub create_blocks : SioFrameData K P → Outcome (SioFrameData K P)
  unfolding create_from resize_with
  create_blocks d = do
    rest ← create_from create_block d.id_table.names d.subset_collection_bits 0 d.type_names
    ok (record d {
      blocks = meta_data ∷ rest;
      available_blocks = resize_with (suc (length rest)) 1 d.available_blocks;
    })

  -- `sio::api::read_blocks` of the decompressed record
  unfoldable pub fill_blocks : SioFrameData K P → SioFrameData K P
  fill_blocks d =
      let (blocks, parameters) = read_blocks d.blocks d.parameters in
      record d { blocks = blocks; parameters = parameters }

  unfoldable pub limit_blocks : SioFrameData K P → Outcome (SioFrameData K P)
  unfolding limit_from
  limit_blocks d = cond (is_empty d.limit_colls) (ok d) (do
    available ← limit_from d.id_table.names d.limit_colls (length d.blocks - 1) 1 d.available_blocks
    ok (record d { available_blocks = available }))

  unfoldable pub unpack_buffers : SioFrameData K P → Outcome (SioFrameData K P)
  unfolding create_blocks fill_blocks limit_blocks
  unpack_buffers d =
      cond (is_empty d.blocks) (do d' ← create_blocks d; limit_blocks (fill_blocks d')) (ok d)

  module _ {B : Type 0} (get_buffers : K → B) where
    unfoldable pub get_collection_buffers :
        SioFrameData K P → Text → Outcome (Option B × SioFrameData K P)
    unfolding unpack_buffers take_block
    get_collection_buffers d name = do
      d' ← unpack_buffers d
      cond (present_name d'.id_table name)
          (do
            (buffers, available) ←
                take_block get_buffers d'.id_table.names d'.available_blocks d'.blocks name
            ok (buffers, record d' { available_blocks = available }))
          (ok (none, d'))

  -- The parameters are moved from: `moved` is what that leaves behind.
  unfoldable pub get_parameters : (moved : P) → SioFrameData K P → Outcome (P × SioFrameData K P)
  unfolding unpack_buffers
  get_parameters moved d = do
    d' ← unpack_buffers d
    ok (
      d'.parameters,
      record d' { available_blocks = set d'.available_blocks 0 0; parameters = moved },
    )

  unfoldable pub get_available_collections :
      SioFrameData K P → Outcome (List Text × SioFrameData K P)
  unfolding unpack_buffers available_from
  get_available_collections d = do
    d' ← unpack_buffers d
    collections ← available_from d'.id_table.names d'.available_blocks (length d'.blocks - 1) 1
    ok (collections, d')
