-- ===== src/SioWriter/Records.antt =====
-- What `SIOWriter::writeFrame` (src/SIOWriter.cc) records of a Frame, and what it does with a
-- collection that the Frame does not have.
use podio.Base.{
  ℕ, suc, true, ◌%◌, ◌^◌, ◌<◌, ◌≡◌, ◌≢◌, refl, ap, ◌∙◌, Text, codes, List, [], ◌∷◌, ◌++◌, map,
  Option, none, some, ok, undefined, ◌>>=◌, Option-cases, inl, inr,
}
use podio.IdTable.{CollectionIdTable, collection_id}
use podio.Registry.{register_definition}
use podio.Blocks.{CollectionIdTableBlock}
use podio.RootWriter.{WriteOps}
use podio.Toc.{add_record, get_n_records, get_position}
use podio.Toc.Laws.{add_record_lem}
use podio.SioWriter.{
  CollectionBlock, RecordBlock, id_table, StreamOps, SioWriter, subset_number, create_coll_id_block,
  collect_for_write, create_blocks, write_frame, write_records, write_header, write_data,
  add_header, then_write_data,
}

-- A collection with its name and its ID
abbrev pub Entry : Type 0 → Type 0
Entry C = Text × ℕ × C

module _ {C : Type 0} (cs : WriteOps C) (frame : Text → Option C) (table : CollectionIdTable) where
  -- The Frame has the collections under their names, and its table has the IDs.
  abbrev pub HasAll : List (Entry C) → Type 0
  HasAll [] = Unit
  HasAll ((n, id, c) ∷ es) = (frame n ≡ some c) × (collection_id table n ≡ some id) × HasAll es

  abbrev pub named : List (Entry C) → List (Text × C)
  named = map (λ e. (e.0, e.2))

  -- Names, IDs, types and subset bits, each in the order of the entries
  abbrev pub block_of : List (Entry C) → CollectionIdTableBlock
  block_of es = record {
    names = map (λ e. e.0) es;
    ids = map (λ e. e.1) es;
    types = map (λ e. cs.value_type_name e.2) es;
    is_subset_coll = map (λ e. subset_number (cs.is_subset_collection e.2)) es;
  }

  abbrev pub register_all : List (Entry C) → List ℕ → List ℕ
  register_all [] indices = indices
  register_all ((n, id, c) ∷ es) indices =
      register_all es (register_definition (cs.datamodel_index c) indices)

  collect_for_write-there :
      (es : List (Entry C)) (indices : List ℕ)
      → HasAll es
      → collect_for_write cs frame (map (λ e. e.0) es) indices
        ≡ ok (named es, register_all es indices)
  unfolding collect_for_write
  collect_for_write-there [] indices there = refl
  collect_for_write-there ((n, id, c) ∷ es) indices (at_n, _, there) =
      rw
        (
          at_n,
          collect_for_write-there es (register_definition (cs.datamodel_index c) indices) there,
        )
        refl

  create_coll_id_block-there :
      (es : List (Entry C))
      → HasAll es
      → create_coll_id_block cs table (named es) ≡ ok (block_of es)
  unfolding create_coll_id_block
  create_coll_id_block-there [] there = refl
  create_coll_id_block-there ((n, id, c) ∷ es) (_, known, there) =
      rw (known, create_coll_id_block-there es there) refl

  collect_for_write-missing :
      (before : List Text) (n : Text) (after : List Text) (indices : List ℕ)
      → frame n ≡ none
      → collect_for_write cs frame (before ++ n ∷ after) indices ≡ undefined
  unfolding collect_for_write
  collect_for_write-missing [] n after indices missing = rw missing refl
  collect_for_write-missing (m ∷ before) n after indices missing = elim (Option-cases (frame m)) [
    | inl e ↦ rw e refl
    | inr (c, e) ↦
        rw
          (
            e,
            collect_for_write-missing before n after
                (register_definition (cs.datamodel_index c) indices) missing,
          )
          refl
  ]

module _ {K W P V C S : Type 0} (stream_ops : StreamOps S (RecordBlock K W P V)) (cs : WriteOps C)
    (create : Text → C → Option (CollectionBlock K W)) where
  written_header :
      (category : Text) (block : CollectionIdTableBlock) (w : SioWriter S) (pos : ℕ) (s : S)
      → stream_ops.write_record true
          (category ++ codes "_HEADER")
          (some (id_table block) ∷ [])
          w.stream
        ≡ (ok pos, s)
      → write_header stream_ops cs create category block w
        ≡ (ok tt, record w { stream = s; toc_record = add_record category pos w.toc_record })
  unfolding write_header add_header
  written_header category block w pos s head = ap (add_header stream_ops cs create category w) head

  written_data :
      (category : Text) (colls : List (Text × C)) (p : P) (w : SioWriter S) (pos : ℕ) (s : S)
      → stream_ops.write_record true category (create_blocks stream_ops cs create colls p) w.stream
        ≡ (ok pos, s)
      → write_data stream_ops cs create category colls p w ≡ (ok tt, record w { stream = s })
  unfolding write_data
  written_data category colls p w pos s body =
      ap (λ r. (r.0 >>= λ _. ok tt, record w { stream = r.1 })) body

  -- The writer after both records of a Frame were written
  written_frame :
      (frame : Text → Option C) (table : CollectionIdTable) (p : P) (category : Text)
      (es : List (Entry C)) (w : SioWriter S) (pos pos' : ℕ) (s s' : S)
      → HasAll cs frame table es
      → stream_ops.write_record true
          (category ++ codes "_HEADER")
          (some (id_table (block_of cs frame table es)) ∷ [])
          w.stream
        ≡ (ok pos, s)
      → stream_ops.write_record true category
          (create_blocks stream_ops cs create (named cs frame table es) p)
          s
        ≡ (ok pos', s')
      → write_frame stream_ops cs create frame table p category (map (λ e. e.0) es) w ≡ (
        ok tt,
        record w {
          stream = s';
          toc_record = add_record category pos w.toc_record;
          datamodel_indices = register_all cs frame table es w.datamodel_indices;
        },
      )
  unfolding write_frame write_records then_write_data
  written_frame frame table p category es w pos pos' s s' there head body =
      let w' : SioWriter S = record w {
        datamodel_indices = register_all cs frame table es w.datamodel_indices;
      } in
      rw
        (
          write_frame,
          collect_for_write-there cs frame table es w.datamodel_indices there,
          write_records,
          create_coll_id_block-there cs frame table es there,
        )
        (ap (then_write_data stream_ops cs create category (named cs frame table es) p)
            (written_header category (block_of cs frame table es) w' pos s head)
          ∙ written_data category (named cs frame table es) p
              (record w' { stream = s; toc_record = add_record category pos w.toc_record }) pos' s'
              body)

  -- If the Frame has all collections that it is to be written with, under IDs of its table, and the
  -- stream takes the record of their names, IDs, types and subset bits, in the order of the collections,
  -- and then the record of the parameters and the collections, then the Frame is the next entry of its
  -- category in the table of contents, at the start of the first record modulo 2^32; the entries before
  -- it and those of other categories are where they were.
  pub write_frame-recorded :
      (frame : Text → Option C) (table : CollectionIdTable) (p : P) (category : Text)
      (es : List (Entry C)) (w : SioWriter S) (pos pos' : ℕ) (s s' : S)
      → HasAll cs frame table es
      → stream_ops.write_record true
          (category ++ codes "_HEADER")
          (some (id_table (block_of cs frame table es)) ∷ [])
          w.stream
        ≡ (ok pos, s)
      → stream_ops.write_record true category
          (create_blocks stream_ops cs create (named cs frame table es) p)
          s
        ≡ (ok pos', s')
      → let (out, w') =
          write_frame stream_ops cs create frame table p category (map (λ e. e.0) es) w in
        (out ≡ ok tt)
        × (w'.stream ≡ s')
        × (get_n_records category w'.toc_record ≡ suc (get_n_records category w.toc_record))
        × (get_position category (get_n_records category w.toc_record) w'.toc_record ≡ pos % 2 ^ 32)
        × ((i : ℕ)
            → i < get_n_records category w.toc_record
            → get_position category i w'.toc_record ≡ get_position category i w.toc_record)
        × ((other : Text) (i : ℕ)
            → category ≢ other
            → get_position other i w'.toc_record ≡ get_position other i w.toc_record)
  write_frame-recorded frame table p category es w pos pos' s s' there head body =
      let (count, here, before, others) = add_record_lem category pos w.toc_record in
      rw (written_frame frame table p category es w pos pos' s s' there head body)
        (refl, refl, count, here, before, others)

  -- If the Frame lacks one of the collections that it is to be written with, `writeFrame` uses a null
  -- pointer: its behaviour is undefined.
  pub write_frame-missing :
      (frame : Text → Option C) (table : CollectionIdTable) (p : P) (category : Text)
      (before : List Text) (n : Text) (after : List Text) (w : SioWriter S)
      → frame n ≡ none
      → (write_frame stream_ops cs create frame table p category (before ++ n ∷ after) w).0
        ≡ undefined
  unfolding write_frame
  write_frame-missing frame table p category before n after w missing =
      rw
        (
          write_frame,
          collect_for_write-missing cs frame table before n after w.datamodel_indices missing,
        )
        refl
