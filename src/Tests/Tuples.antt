-- ===== src/Tests/Tuples.antt =====
-- Runs of the writer of RNTuple files.
use podio.Base.{
  Outcome, ℕ, ◌≡◌, refl, Text, codes, true, false, List, [], ◌∷◌, Option, none, some, throws, ok,
  runtime_error, find, sort, insert_sorted,
}
use podio.Parameters.{no_parameters}
use podio.Registry.{RelationNames}
use podio.RootUtils.{sort_alphabetically, ref_branch}
use podio.RootWriter.{ParamStorage, WriteOps, collect}
use podio.NtupleWriter.{
  TupleOps, NtupleWriter, write_frame, get_category_info, create_fields, bind_collections,
}
use podio.NtupleWriter.Retries.{Write, run, SameButNames, write_frame-retry}
use podio.NtupleWriter.Fields.{recorder, create_fields-bind_collections}

abbrev hits : Text
hits = codes "hits"

abbrev events : Text
events = codes "events"

-- A collection is a number, its type has one relation, and no collection is a subset collection.
abbrev write_ops : WriteOps ℕ
write_ops = record {
  get_id = λ c. c;
  type_name = λ c. codes "HitCollection";
  value_type_name = λ c. codes "Hit";
  data_type_name = λ c. codes "HitData";
  is_subset_collection = λ c. false;
  schema_version = λ c. 1;
  datamodel_index = λ c. 0;
  has_data = λ c. true;
  n_references = λ c. 1;
  n_vector_members = λ c. 0;
}

abbrev recording : TupleOps (List Text) (List Text) (List Text) ℕ (ParamStorage ℕ ℕ ℕ)
recording = recorder

abbrev member_type : ℕ → ℕ → Text
member_type c i = codes "int"

abbrev relations : Text → RelationNames
relations type = record { relations = codes "cell" ∷ []; vector_members = [] }

abbrev Writer : Type 0
Writer = NtupleWriter (List Text) ℕ ℕ ℕ

abbrev new_writer : Writer
new_writer = record { is_open = true; datamodel_indices = []; categories = [] }

abbrev no_frame : Text → Option ℕ
no_frame n = none

abbrev any_frame : Text → Option ℕ
any_frame n = some 7

-- After a write that fails, one to another category and one to the same
abbrev later : List (Write ℕ ℕ ℕ ℕ)
later =
    record {
      category = codes "runs";
      frame = any_frame;
      parameters = no_parameters;
      colls_to_write = hits ∷ [];
    }
    ∷ record {
      category = events;
      frame = any_frame;
      parameters = no_parameters;
      colls_to_write = codes "tracks" ∷ [];
    }
    ∷ []

abbrev failed : Outcome (Unit {0}) × Writer
failed =
    write_frame recording write_ops member_type relations no_frame no_parameters events (hits ∷ [])
      new_writer

write_frame-retry_example :
    (failed.0 ≡ throws runtime_error)
    × ((run recording write_ops member_type relations later failed.1).0
        ≡ (run recording write_ops member_type relations later new_writer).0)
    × SameButNames
        (run recording write_ops member_type relations later failed.1).1
        (run recording write_ops member_type relations later new_writer).1
unfolding get_category_info find collect sort_alphabetically sort insert_sorted
write_frame-retry_example =
    write_frame-retry recording write_ops member_type relations events no_frame no_parameters
      (hits ∷ []) new_writer later refl refl

create_fields-bind_collections_example :
    (create_fields recording write_ops member_type relations ((hits, 7) ∷ []) [] []).0
    ≡ bind_collections recording write_ops relations ((hits, 7) ∷ []) []
create_fields-bind_collections_example =
    create_fields-bind_collections ℕ ℕ ℕ write_ops member_type relations ((hits, 7) ∷ []) [] []
      (λ c. λ _. (0, refl))

fields_example :
    bind_collections recording write_ops relations ((hits, 7) ∷ []) []
    ≡ ok (hits ∷ codes "_hits_cell" ∷ [])
unfolding bind_collections ref_branch
fields_example = refl
