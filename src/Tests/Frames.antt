-- ===== src/Tests/Frames.antt =====
-- A Frame with two collections in a file that refer to each other.
use podio.Base.{
  ◌⊎◌, none, ℕ, ◌≡◌, refl, subst, ◌≢◌, ℕ_discrete, Text, text_dec, index_of, true, List, [], ◌∷◌,
  ◌++◌, Option, some, ok, throws, invalid_argument, is_some, find, emplace, assign, remove, dec_lt,
  length, arith,
}
use podio.IdTable.{name, collection_id}
use podio.IdTable.Laws.{IsValid}
use podio.Evolution.{SchemaEvolution, no_evolutions, evolve_buffers}
use podio.Frame.{
  Collections, FrameModel, available_collections, create_collection, put, do_get, unpack, provide,
  provide_all, set_references,
}
use podio.Frame.Data.{
  FrameData, RootFrameData, root_data, root_data-Consumes, get_collection_buffers,
}
use podio.Frame.Unpack.{IsReady, Grows}
use podio.Frame.Laws.{do_get_ends, put_lem, put-put, put-available_twice}

abbrev hits : Text
hits = 104 ∷ []

abbrev tracks : Text
tracks = 116 ∷ []

abbrev clusters : Text
clusters = 99 ∷ []

-- A collection: its ID, the IDs that it refers to, and its links.
abbrev Coll : Type 0
Coll = ℕ × List ℕ × List (Option Text)

-- Buffers are the IDs that the collection refers to.
abbrev colls : Collections (List ℕ) Coll
colls = record {
  has_data = λ b. true;
  schema_version = λ b. 1;
  buffer_type = λ b. hits;
  create = λ b subset. (0, b, []);
  prepare_after_read = λ c. c;
  prepare_for_write = λ c. c;
  set_id = λ id c. (id, c.1, c.2);
  references = λ c. c.1;
  link = λ links c. (c.0, c.1, links);
  type_name = λ c. hits;
}

abbrev raw_data : RootFrameData (List ℕ) ℕ
raw_data = record {
  buffers = (hits, 2 ∷ []) ∷ (tracks, 1 ∷ []) ∷ [];
  id_table = record { collection_ids = 1 ∷ 2 ∷ []; names = hits ∷ tracks ∷ [] };
  parameters = 0;
}

abbrev frame : FrameModel (RootFrameData (List ℕ) ℕ) Coll ℕ
frame = record {
  collections = [];
  raw_data = raw_data;
  id_table = raw_data.id_table;
  parameters = 0;
  retrieved_ids = [];
}

abbrev data_ops : FrameData (RootFrameData (List ℕ) ℕ) (List ℕ) ℕ
data_ops = root_data 0

abbrev evolution : SchemaEvolution (List ℕ)
evolution = no_evolutions

-- Both collections are unpacked, although each asks for the other.
circle :
    do_get data_ops colls evolution 3 hits true frame
    ≡ ok (
      true,
      record frame {
        collections =
            (hits, (1, 2 ∷ [], some tracks ∷ [])) ∷ (tracks, (2, 1 ∷ [], some hits ∷ [])) ∷ [];
        raw_data = record raw_data { buffers = [] };
        retrieved_ids = 1 ∷ 2 ∷ [];
      },
    )
unfolding do_get get_collection_buffers unpack create_collection evolve_buffers set_references
    provide_all provide find text_dec emplace assign remove index_of collection_id name ℕ_discrete
    dec_lt
circle = refl

frame-IsReady : IsReady data_ops colls evolution (root_data-Consumes 0) frame
unfolding root_data-Consumes find collection_id index_of text_dec create_collection evolve_buffers
frame-IsReady = record {
  known = λ n b e. elim (text_dec hits n) [
    | yes p ↦ subst (λ x. (id : ℕ) × (collection_id frame.id_table x ≡ some id)) p (1, refl)
    | no p ↦ elim (text_dec tracks n) [
      | yes q ↦ subst (λ x. (id : ℕ) × (collection_id frame.id_table x ≡ some id)) q (2, refl)
      | no q ↦ absurd (ground (arith, e))
    ]
  ];
  creates = λ n b e. ((0, b, []), refl);
}

frame-IsValid : IsValid frame.id_table
frame-IsValid = record { paired = refl }

do_get_ends_example :
    (f' : FrameModel (RootFrameData (List ℕ) ℕ) Coll ℕ) × (do_get data_ops colls evolution 3 hits
        true frame
      ≡ ok (true, f'))
    × Grows data_ops colls evolution (root_data-Consumes 0) frame f'
    × (is_some (find text_dec hits f'.collections) ≡ true)
unfolding root_data-Consumes find text_dec
do_get_ends_example =
    do_get_ends data_ops colls evolution (root_data-Consumes 0) 3 hits true frame frame-IsReady
      (omega arith)

put_lem_example :
    (id : ℕ) × (f' : FrameModel (RootFrameData (List ℕ) ℕ) Coll ℕ) × (put data_ops colls length
        frame
        (0, [], [])
        clusters
      ≡ ok f')
    × IsValid f'.id_table
    × (collection_id f'.id_table clusters ≡ some id)
    × (find text_dec clusters f'.collections ≡ some (id, [], []))
    × (do_get data_ops colls evolution 1 clusters true f' ≡ ok (true, f'))
    × ((m : Text)
        → clusters ≢ m
        → find text_dec m f'.collections ≡ find text_dec m frame.collections)
    × ((collection_id frame.id_table clusters ≡ some id)
        ⊎ ((collection_id frame.id_table clusters ≡ none) × (id ≡ length clusters)))
    × ((m : Text) → m ≢ clusters → collection_id f'.id_table m ≡ collection_id frame.id_table m)
    × (f'.raw_data ≡ raw_data)
    × (f'.parameters ≡ frame.parameters)
    × (f'.retrieved_ids ≡ frame.retrieved_ids)
unfolding find
put_lem_example =
    put_lem data_ops colls evolution length frame (0, [], []) clusters 0 true frame-IsValid refl

put-put_example :
    (f' : FrameModel (RootFrameData (List ℕ) ℕ) Coll ℕ) × (put data_ops colls length frame
        (0, [], [])
        clusters
      ≡ ok f')
    × ((other : Coll) → put data_ops colls length f' other clusters ≡ throws invalid_argument)
unfolding find
put-put_example =
    put-put data_ops colls evolution length frame (0, [], []) clusters frame-IsValid refl

put-available_twice_example :
    (f' : FrameModel (RootFrameData (List ℕ) ℕ) Coll ℕ) × (before after : List Text) × (put data_ops
        colls length frame
        (0, [], [])
        hits
      ≡ ok f')
    × (available_collections data_ops colls f' ≡ before ++ hits ∷ (after ++ hits ∷ []))
unfolding find text_dec
put-available_twice_example =
    put-available_twice 0 colls length frame (0, [], []) hits (2 ∷ []) frame-IsValid refl refl
