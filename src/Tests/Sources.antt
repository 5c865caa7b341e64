-- ===== src/Tests/Sources.antt =====
-- Runs of the data source and of the table of contents.
use podio.Base.{
  Outcome, throws, runtime_error, ite, dec_lt, List, ℕ, zero, suc, ◌+◌, ◌%◌, ◌^◌, ◌<◌, ◌≡◌, refl,
  ◌≢◌, ◌⊎◌, ◌↔◌, Text, text_dec, [], ◌∷◌, ◌++◌, map, Option, none, some, ok, length, get_elem?,
  find, arith,
}
use podio.Tests.Devices.{numbers, lists}
use podio.DataSource.{DataSource, set_n_slots, get_entry_ranges, set_entry}
use podio.DataSource.Ranges.{Tiles, set_n_slots-Tiles}
use podio.DataSource.Entries.{shown, IsActive, IsSized, set_entry_lem}
use podio.Toc.{RecordMap, Reader, write_block, read_block, final_words, toc_position, read_entry}
use podio.Toc.Laws.{read_block-write_block, toc_position-final_words}
use podio.Toc.Walk.{read_many, read_entry-read_many}

abbrev hits : Text
hits = 104 ∷ []

abbrev tracks : Text
tracks = 116 ∷ []

-- Ten events with two columns, of which the second is active. A Frame is the number of its entry.
abbrev source : DataSource ℕ ℕ
source = record {
  n_slots = 1;
  n_events = 10;
  ranges_all = [];
  ranges_available = [];
  column_names = hits ∷ tracks ∷ [];
  column_types = hits ∷ tracks ∷ [];
  active_collections = 1 ∷ [];
  collections = (none ∷ []) ∷ (none ∷ []) ∷ [];
  n_readers = 1;
  frames = 0 ∷ [];
}

set_n_slots-Tiles_example :
    (s' : DataSource ℕ ℕ) × (set_n_slots 0 3 source ≡ (ok tt, s'))
    × (length s'.ranges_all ≡ 3)
    × Tiles 0 10 s'.ranges_all
    × ((get_entry_ranges s').0 ≡ s'.ranges_all)
    × ((get_entry_ranges (get_entry_ranges s').1).0 ≡ [])
set_n_slots-Tiles_example =
    set_n_slots-Tiles 0 source 3 (omega arith) (omega arith) (omega arith) refl

source-IsSized : IsSized 1 source.collections
source-IsSized zero row e = ground arith
source-IsSized (suc zero) row e = ground arith
source-IsSized (suc (suc c)) row e = cc

-- There are ten entries.
abbrev read_frame : (slot entry : ℕ) → List Text → Outcome ℕ
read_frame slot entry columns = ite (dec_lt entry 10) (ok entry) (throws runtime_error)

abbrev get : ℕ → Text → Outcome (Option ℕ)
get frame n = ok (some (frame + length n))

-- A number of slots above that of the events throws, but is stored.
too_many_slots : set_n_slots 0 11 source ≡ (throws runtime_error, record source { n_slots = 11 })
unfolding set_n_slots
too_many_slots = ground arith

set_entry_lem_example :
    (cs : List (List (Option ℕ))) × (set_entry read_frame get 0 4 source
      ≡ (ok tt, record source { frames = 4 ∷ []; collections = cs }))
    × IsSized 1 cs
    × ((d : ℕ) (t : Text)
        → get_elem? source.column_names d ≡ some t
        → IsActive d source.active_collections
        → shown cs d 0 ≡ some (some (4 + length t)))
    × ((d t : ℕ)
        → ((t ≢ 0) ⊎ ¬ IsActive d source.active_collections)
        → shown cs d t ≡ shown source.collections d t)
    × (set_entry read_frame get 0 12 source ≡ (throws runtime_error, source))
unfolding dec_lt
set_entry_lem_example =
    set_entry_lem read_frame get 0 4 12 4 (λ t. some (4 + length t)) runtime_error source
      source-IsSized (omega arith) (omega arith) (omega arith) (omega arith, tt) (omega arith) refl
      (λ t. refl) refl

abbrev toc : RecordMap
toc = (hits, 100 ∷ 300 ∷ []) ∷ (tracks, 200 ∷ []) ∷ []

read_block-write_block_example :
    read_block numbers lists lists [] (write_block numbers lists lists toc (9 ∷ []))
    ≡ some (toc, 9 ∷ [])
read_block-write_block_example =
    read_block-write_block numbers lists lists toc (9 ∷ []) tt (tt, tt, (tt, tt, tt))

toc_position-final_words_example :
    (toc_position (final_words 5000000000) ≡ some (5000000000 % 2 ^ 32))
    × ((toc_position (final_words 5000000000) ≡ some 5000000000) ↔ (5000000000 < 2 ^ 32))
toc_position-final_words_example = toc_position-final_words 5000000000

abbrev reader : Reader
reader = record { toc = toc; name_ctr = [] }

abbrev record_at : ℕ → ℕ
record_at p = p

read_entry-read_many_example :
    (let (d, r') = read_entry record_at hits 1 reader in d ∷ (read_many record_at 1 hits r').0)
    ≡ map (λ p. some (record_at p)) (300 ∷ []) ++ none ∷ []
unfolding find text_dec
read_entry-read_many_example =
    read_entry-read_many record_at hits (100 ∷ []) (300 ∷ []) reader refl (omega arith, tt)
      (omega arith)
