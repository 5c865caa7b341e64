-- ===== src/Toc.antt =====
-- The table of contents of a SIO file: `SIOFileTOCRecord`, its block and the final words of the
-- file (src/SIOBlock.cc, include/podio/SIOBlock.h, src/SIOWriter.cc), and how `SIOReader`
-- (src/SIOReader.cc) walks through the records of a category with it.
pub mod Laws
pub mod Walk
use podio.Base.{
  ℕ, zero, suc, ◌+◌, ◌*◌, ◌/◌, ◌%◌, ◌^◌, ◌≡◌, Text, text_dec, ℕ_discrete, dec_lt, ite, List, [],
  ◌∷◌, ◌++◌, Option, none, some, ◌<◌, length, get_elem?, find, assign, keys,
}

-- `m_recordMap`: the start positions of the records of each name
abbrev pub RecordMap : Type 0
RecordMap = List (Text × List ℕ)

-- A position is a `uint32_t`.
unfoldable pub add_record : Text → ℕ → RecordMap → RecordMap
add_record name start_pos m = elim (find text_dec name m) [
  | none ↦ m ++ (name, start_pos % 2 ^ 32 ∷ []) ∷ []
  | some positions ↦ assign text_dec name (positions ++ start_pos % 2 ^ 32 ∷ []) m
]

-- What the end of a search gives, and `size()` of what it finds.
unfoldable pub count_of : Option (List ℕ) → ℕ
count_of none = 0
count_of (some positions) = length positions

unfoldable pub get_n_records : Text → RecordMap → ℕ
unfolding count_of
get_n_records name m = count_of (find text_dec name m)

-- The position of an entry, 0 beyond the last one.
unfoldable pub position_of : Option ℕ → ℕ
position_of none = 0
position_of (some p) = p

unfoldable pub get_position : Text → ℕ → RecordMap → ℕ
unfolding position_of
get_position name i_entry m = elim (find text_dec name m) [
  | none ↦ 0
  | some positions ↦ position_of (get_elem? positions i_entry)
]

unfoldable pub get_record_names : RecordMap → List Text
get_record_names m = keys m

-- How the device of the SIO library writes a value in front of what follows, and reads it back. It
-- does so for the values that are `Fit` for it.
pub record Codec (A : Type 0) : Type 1 where
  pub Fit : A → Type 0
  pub write : A → List ℕ → List ℕ
  pub read : List ℕ → Option (A × List ℕ)
  pub read-write : (a : A) (rest : List ℕ) → Fit a → read (write a rest) ≡ some (a, rest)

module _ (int : Codec ℕ) (string : Codec Text) (positions : Codec (List ℕ)) where
  -- `SIOFileTOCRecordBlock::write` of the entries, in front of the rest
  unfoldable pub write_entries : RecordMap → List ℕ → List ℕ
  write_entries [] rest = rest
  write_entries ((name, ps) ∷ m) rest =
      string.write name (positions.write ps (write_entries m rest))

  unfoldable pub write_block : RecordMap → List ℕ → List ℕ
  unfolding write_entries
  write_block m rest = int.write (length m) (write_entries m rest)

  -- The loop of `SIOFileTOCRecordBlock::read`: `size` entries, added to those that are there.
  unfoldable pub read_entries : (size : ℕ) → RecordMap → List ℕ → Option (RecordMap × List ℕ)
  read_entries zero m device = some (m, device)
  read_entries (suc size) m device = elim (string.read device) [
    | none ↦ none
    | some (name, device') ↦ elim (positions.read device') [
      | none ↦ none
      | some (ps, device'') ↦ read_entries size (m ++ (name, ps) ∷ []) device''
    ]
  ]

  unfoldable pub read_block : RecordMap → List ℕ → Option (RecordMap × List ℕ)
  unfolding read_entries
  read_block m device = elim (int.read device) [
    | none ↦ none
    | some (size, device') ↦ read_entries size m device'
  ]

-- `SIOTocMarker`
abbrev pub toc_marker : ℕ
toc_marker = 3221356199

-- The 64-bit word at the end of a file: the marker in the upper half and the position of the table
-- of contents in the lower half, which do not overlap.
unfoldable pub final_words : ℕ → ℕ
final_words toc_start = (toc_marker * 2 ^ 32) % 2 ^ 64 + toc_start % 2 ^ 32

-- `readFileTOCRecord` of that word: the position, if the marker is there.
unfoldable pub toc_position : ℕ → Option ℕ
toc_position words =
    ite (ℕ_discrete (words / 2 ^ 32 % 2 ^ 32) toc_marker) (some (words % 2 ^ 32)) none

-- `SIOReader`: the table of contents and how many entries of each category were read.
pub record Reader : Type 0 where
  pub toc : RecordMap
  pub name_ctr : List (Text × ℕ)

-- The categories of a file: the names of the records but for the reserved one.
unfoldable pub categories : (reserved : Text) → List Text → List Text
categories reserved [] = []
categories reserved (n ∷ ns) =
    ite (text_dec n reserved) (categories reserved ns) (n ∷ categories reserved ns)

-- `m_nameCtr[name]`
unfoldable pub counter : Text → List (Text × ℕ) → ℕ
unfolding position_of
counter name ctr = position_of (find text_dec name ctr)

module _ {D : Type 0} (record_at : ℕ → D) where
  -- `readNextEntry`: the data of the two records at the position, or null behind the last entry.
  unfoldable pub read_next_entry : Text → Reader → Option D × Reader
  unfolding get_position counter
  read_next_entry name r =
      let ctr = counter name r.name_ctr in
      let pos = get_position name ctr r.toc in
      ite (ℕ_discrete pos 0) (none, record r { name_ctr = assign text_dec name ctr r.name_ctr })
        (
          some (record_at pos),
          record r { name_ctr = assign text_dec name ((ctr + 1) % 2 ^ 32) r.name_ctr },
        )

  unfoldable pub read_entry : Text → ℕ → Reader → Option D × Reader
  unfolding read_next_entry
  read_entry name entry r =
      read_next_entry name (record r { name_ctr = assign text_dec name entry r.name_ctr })
