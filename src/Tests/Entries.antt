-- ===== src/Tests/Entries.antt =====
-- Runs of the readers that look entries and collections up, of podio-dump's ranges and of link handles.
use podio.Base.{
  ℕ, zero, suc, ◌≡◌, refl, Text, codes, text_dec, Bool, true, cond, List, [], ◌∷◌, ◌++◌, Option,
  none, some, ok, ◌>>=◌, get_elem?, index_of, ℕ_discrete, find, remove, keys, arith, to_string,
}
use podio.SioData.{
  SioBlock, meta_data, collection, SioFrameData, get_collection_buffers, get_available_collections,
}
use podio.SioData.Laws.{no_blocks, one_block}
use podio.SioData.Refines.{IsUnpacked, buffers_in, sio_data_refines_map}
use podio.NtupleReader.{NtupleOps, open_category, total_of, starts_of, locate}
use podio.NtupleReader.Lookup.{opened, entries_of_all, locate_lem}
use podio.Dump.{parse_event_range, goes_on, iota}
use podio.Dump.Ranges.{parse_event_range-to_string}
use podio.Links.{LinkObj, Heap, new_id}
use podio.Links.Handle.{
  clone, get_weight, get_from, get_to, get_object_id, set_weight, set_from, set_to, or_empty,
  clone_lem,
}

abbrev hits : Text
hits = codes "hits"

abbrev tracks : Text
tracks = codes "tracks"

-- Unpacked data of two collections, of which the second was handed out.
abbrev sio_data : SioFrameData ℕ ℕ
sio_data = record {
  available_blocks = 1 ∷ 1 ∷ 0 ∷ [];
  blocks = meta_data ∷ collection 5 ∷ collection 6 ∷ [];
  id_table = record { collection_ids = 1 ∷ 2 ∷ []; names = hits ∷ tracks ∷ [] };
  type_names = hits ∷ tracks ∷ [];
  subset_collection_bits = [];
  parameters = 0;
  limit_colls = [];
}

sio_data-IsUnpacked : IsUnpacked sio_data
unfolding index_of text_dec ℕ_discrete
sio_data-IsUnpacked = record {
  flag = 1;
  first = meta_data;
  flags = 1 ∷ 0 ∷ [];
  blocks = collection 5 ∷ collection 6 ∷ [];
  has_flags = refl;
  has_blocks = refl;
  aligned =
      one_block hits 1 5 (tracks ∷ []) (0 ∷ []) (collection 6 ∷ [])
        (one_block tracks 0 6 [] [] [] no_blocks);
  distinct = (refl, (refl, tt));
  paired = refl;
}

abbrev create_block : Text → Text → Bool → Option ℕ
create_block type name is_subset = some 0

abbrev read_blocks : List (SioBlock ℕ) → ℕ → List (SioBlock ℕ) × ℕ
read_blocks blocks parameters = (blocks, parameters)

sio_data_refines_map_example :
    (d' : SioFrameData ℕ ℕ) × (get_available_collections create_block read_blocks sio_data
      ≡ ok (keys (buffers_in create_block read_blocks (λ k. k) sio_data), sio_data))
    × (get_collection_buffers create_block read_blocks (λ k. k) sio_data hits
        ≡ ok (find text_dec hits (buffers_in create_block read_blocks (λ k. k) sio_data), d'))
    × (buffers_in create_block read_blocks (λ k. k) d'
        ≡ remove text_dec hits (buffers_in create_block read_blocks (λ k. k) sio_data))
    × IsUnpacked d'
sio_data_refines_map_example =
    sio_data_refines_map create_block read_blocks (λ k. k) sio_data hits sio_data-IsUnpacked

-- A reader is the number of its entries, and the category is not in every file.
abbrev ntuples : NtupleOps ℕ ℕ ℕ ℕ ℕ
ntuples = record {
  n_entries = λ r. r;
  key_view = λ r n e. [];
  value_view = λ k r n e. [];
  load_entry = λ r info e b. some b;
}

abbrev open_reader : Text → Option ℕ
open_reader [] = none
open_reader (c ∷ name) = some c

abbrev files : List Text
files = (3 ∷ []) ∷ [] ∷ (0 ∷ []) ∷ (2 ∷ []) ∷ []

locate_lem_example :
    (total_of (open_category ntuples open_reader files 0).1 ≡ 5)
    × (index : ℕ) × (local_entry : ℕ) × (reader : ℕ) × (locate
          (starts_of (open_category ntuples open_reader files 0).1)
          4
        ≡ ok (index, local_entry))
    × (get_elem? (open_category ntuples open_reader files 0).0 index ≡ some reader)
    × (get_elem? (entries_of_all (λ r. r) (opened open_reader files)) 4
        ≡ some (reader, local_entry))
locate_lem_example = locate_lem ntuples open_reader files 4 (omega arith) (omega arith)

parse_event_range-to_string_example :
    parse_event_range (to_string 7 ++ 58 ∷ to_string 12) ≡ goes_on (iota 6 7)
parse_event_range-to_string_example =
    parse_event_range-to_string 7 12 (omega arith) (omega arith) (omega arith) (omega arith)

-- One link, at the address 0.
abbrev link : LinkObj ℕ ℕ ℕ
link = record {
  id = record { index = 0; collection_id = 3 };
  weight = 10;
  from = some 4;
  to = none;
}

abbrev heap : Heap ℕ ℕ ℕ
heap a = elim a [ zero ↦ some link | suc b ↦ none ]

clone_lem_example :
    (h' : Heap ℕ ℕ ℕ) × (clone true 1 (some 0) heap ≡ ok (some 1, h'))
    × (get_weight h' (some 1) ≡ ok 10)
    × (get_from 8 h' (some 1) ≡ ok (or_empty 8 (cond true (some 4) none)))
    × (get_to 9 h' (some 1) ≡ ok (or_empty 9 (cond true none none)))
    × (get_object_id h' (some 1) ≡ ok new_id)
    × (h'' : Heap ℕ ℕ ℕ) × ((do
      h1 ← set_weight 20 (some 1) h'
      h2 ← set_from 8 (some 1) h1
      set_to 9 (some 1) h2)
        ≡ ok h'')
    × (h'' 0 ≡ some link)
clone_lem_example = clone_lem true 1 0 heap link 20 8 9 refl (omega arith)
