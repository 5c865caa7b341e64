-- ===== src/Tests/SioRuns.antt =====
-- Runs of the writer of SIO files and of the search for libraries.
use podio.Base.{
  ℕ, suc, ◌%◌, ◌^◌, ◌<◌, ◌≡◌, ◌≢◌, refl, Text, codes, text_dec, ℕ_discrete, ite, true, false, List,
  [], ◌∷◌, ◌++◌, Option, none, some, Outcome, ok, throws, undefined, runtime_error, length,
  index_of,
}
use podio.IdTable.{CollectionIdTable, collection_id}
use podio.RootWriter.{WriteOps}
use podio.Toc.{get_n_records, get_position}
use podio.SioWriter.{CollectionBlock, RecordBlock, StreamOps, SioWriter, write_frame}
use podio.SioWriter.Records.{write_frame-recorded, write_frame-missing}
use podio.Libraries.{
  FileSystem, block_path, get_lib_names, get_lib_names-empty_first, lines, libs_of, contains,
}
use podio.Registry.{has_prefix}

abbrev hits : Text
hits = codes "hits"

abbrev events : Text
events = codes "events"

-- A collection is a number, and a stream is the list of the names of its records.
abbrev write_ops : WriteOps ℕ
write_ops = record {
  get_id = λ c. c;
  type_name = λ c. codes "HitCollection";
  value_type_name = λ c. codes "Hit";
  data_type_name = λ c. codes "HitData";
  is_subset_collection = λ c. false;
  schema_version = λ c. 1;
  datamodel_index = λ c. 0;
  has_data = λ c. true;
  n_references = λ c. 1;
  n_vector_members = λ c. 0;
}

abbrev streams : StreamOps (List Text) (RecordBlock ℕ ℕ ℕ ℕ)
streams = record {
  write_record = λ compress name blocks s. (ok (length s), s ++ name ∷ []);
  write_word = λ word s. s;
}

abbrev create : Text → ℕ → Option (CollectionBlock ℕ ℕ)
create name coll = none

abbrev frame : Text → Option ℕ
frame n = ite (text_dec n hits) (some 7) none

abbrev table : CollectionIdTable
table = record { collection_ids = 5 ∷ []; names = hits ∷ [] }

abbrev writer : SioWriter (List Text)
writer = record {
  stream = codes "podio_header_info" ∷ [];
  is_open = true;
  toc_record = [];
  datamodel_indices = [];
}

abbrev written : Outcome (Unit {0}) × SioWriter (List Text)
written = write_frame streams write_ops create frame table 0 events (hits ∷ []) writer

write_frame-recorded_example :
    (written.0 ≡ ok tt)
    × (written.1.stream ≡ codes "podio_header_info" ∷ codes "events_HEADER" ∷ codes "events" ∷ [])
    × (get_n_records events written.1.toc_record ≡ suc (get_n_records events []))
    × (get_position events (get_n_records events []) written.1.toc_record ≡ 1 % 2 ^ 32)
    × ((i : ℕ)
        → i < get_n_records events []
        → get_position events i written.1.toc_record ≡ get_position events i [])
    × ((other : Text) (i : ℕ)
        → events ≢ other
        → get_position other i written.1.toc_record ≡ get_position other i [])
unfolding collection_id index_of text_dec
write_frame-recorded_example =
    write_frame-recorded streams write_ops create frame table 0 events ((hits, 5, 7) ∷ []) writer 1
      2 (codes "podio_header_info" ∷ codes "events_HEADER" ∷ [])
      (codes "podio_header_info" ∷ codes "events_HEADER" ∷ codes "events" ∷ []) (refl, refl, tt)
      refl refl

write_frame-missing_example :
    (write_frame streams write_ops create frame table 0 events
      (hits ∷ codes "tracks" ∷ [])
      writer).0
    ≡ undefined
unfolding text_dec
write_frame-missing_example =
    write_frame-missing streams write_ops create frame table 0 events (hits ∷ []) (codes "tracks")
      [] writer refl

-- The second directory has a library, but the first has none.
abbrev files : FileSystem
files = record {
  exists = λ d. true;
  filenames = λ d.
      ite (text_dec d (codes "/a")) (ok (codes "libx.so" ∷ [])) (ok (codes "libSioBlocks.so" ∷ []));
}

abbrev environment : Text → Option Text
environment v = ite (text_dec v block_path) (some (codes "/a:/b")) none

get_lib_names-empty_first_example : get_lib_names environment files ≡ throws runtime_error
unfolding text_dec ℕ_discrete lines libs_of contains has_prefix
get_lib_names-empty_first_example =
    get_lib_names-empty_first environment files (codes "/a:/b") [] (codes "/a") (codes "/b" ∷ [])
      (codes "libx.so" ∷ []) refl refl tt refl refl refl
