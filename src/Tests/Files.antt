-- ===== src/Tests/Files.antt =====
-- Runs of the writer of ROOT files and of the comparison of collection names.
use podio.Base.{
  ℕ, ◌++◌, ◌-◌, ◌≡◌, ◌≢◌, refl, Text, codes, text_dec, ℕ_discrete, ite, true, false, List, [], ◌∷◌,
  Option, none, some, Outcome, ok, throws, runtime_error, length, find, arith, inr, sort,
  insert_sorted, binary_search, dec_lt, to_lower,
}
use podio.Parameters.{GenericParameters, no_parameters}
use podio.Registry.{RelationNames}
use podio.RootUtils.{
  CollectionWriteInfo, check_consistent_colls, get_inconsistent_colls, sort_alphabetically,
  less_ignoring_case,
}
use podio.RootUtils.Consistent.{all_known, check_consistent_colls-all_known}
use podio.RootUtils.Difference.{count, count-get_inconsistent_colls}
use podio.RootWriter.{
  TreeOps, ParamStorage, no_params, WriteOps, CategoryInfo, RootWriter, write_frame, collect,
  init_params, reset_branches, all_kinds, CollectionBranches, collection_data, reference,
}
use podio.RootWriter.Rejects.{Write, AllThrow, run, write_frame-refused, write_frame-first_refused}
use podio.RootWriter.Rebinds.{made, rebind, bindings, reset_branches-init_params}

abbrev hits : Text
hits = codes "hits"

abbrev tracks : Text
tracks = codes "tracks"

abbrev events : Text
events = codes "events"

abbrev info : Text → CollectionWriteInfo
info n = record {
  collection_id = 1;
  data_type = codes "Hit";
  is_subset = false;
  schema_version = 1;
  name = n;
  storage_type = [];
}

-- Names that differ in case only are taken for the same, although a Frame tells them apart.
case_ignored : check_consistent_colls (info hits ∷ []) (codes "Hits" ∷ []) ≡ true
unfolding check_consistent_colls ℕ_discrete binary_search sort less_ignoring_case dec_lt to_lower
case_ignored = refl

check_consistent_colls-all_known_example :
    check_consistent_colls (info hits ∷ info tracks ∷ []) (tracks ∷ hits ∷ [])
    ≡ ite (ℕ_discrete 2 2) (all_known (hits ∷ tracks ∷ []) (tracks ∷ hits ∷ [])) false
check_consistent_colls-all_known_example =
    check_consistent_colls-all_known (info hits ∷ info tracks ∷ []) (tracks ∷ hits ∷ [])

count-get_inconsistent_colls_example :
    (count hits (get_inconsistent_colls (hits ∷ tracks ∷ []) (tracks ∷ [])).0
      ≡ count hits (hits ∷ tracks ∷ []) - count hits (tracks ∷ []))
    × (count hits (get_inconsistent_colls (hits ∷ tracks ∷ []) (tracks ∷ [])).1
        ≡ count hits (tracks ∷ []) - count hits (hits ∷ tracks ∷ []))
count-get_inconsistent_colls_example =
    count-get_inconsistent_colls (hits ∷ tracks ∷ []) (tracks ∷ []) hits

-- A tree is the list of its branches' names, each branch a position, and a collection is a number.
abbrev Storage : Type 0
Storage = ParamStorage ℕ ℕ ℕ

abbrev trees : TreeOps (List Text) ℕ ℕ Storage
trees = record {
  new_tree = λ name title. [];
  branch = λ t name address. (length t, name ∷ t);
  set_address = λ br address t. codes "bound" ∷ t;
  fill = λ s t. codes "filled" ∷ t;
}

abbrev write_ops : WriteOps ℕ
write_ops = record {
  get_id = λ c. c;
  type_name = λ c. codes "HitCollection";
  value_type_name = λ c. codes "Hit";
  data_type_name = λ c. codes "HitData";
  is_subset_collection = λ c. false;
  schema_version = λ c. 1;
  datamodel_index = λ c. 0;
  has_data = λ c. true;
  n_references = λ c. 0;
  n_vector_members = λ c. 0;
}

abbrev relations : Text → RelationNames
relations type = record { relations = []; vector_members = [] }

abbrev Writer : Type 0
Writer = RootWriter (List Text) ℕ ℕ ℕ ℕ

abbrev no_frame : Text → Option ℕ
no_frame n = none

abbrev any_frame : Text → Option ℕ
any_frame n = some 7

abbrev parameters : GenericParameters ℕ ℕ ℕ
parameters = no_parameters

abbrev new_writer : Writer
new_writer = record { categories = []; datamodel_indices = [] }

abbrev written : CategoryInfo (List Text) ℕ ℕ ℕ ℕ
written = record {
  tree = some (hits ∷ []);
  branches = record { data_branch = some 0; refs = []; vecs = [] } ∷ [];
  coll_info = info hits ∷ [];
  colls_to_write = hits ∷ [];
  params = no_params;
}

abbrev writer : Writer
writer = record { categories = (events, written) ∷ []; datamodel_indices = [] }

abbrev refused : Outcome (Unit {0}) × Writer
refused = write_frame trees write_ops relations any_frame parameters events (tracks ∷ []) writer

write_frame-refused_example :
    (refused.0 ≡ throws runtime_error)
    × (find text_dec events refused.1.categories ≡ some written)
    × ((other : Text)
        → events ≢ other
        → find text_dec other refused.1.categories ≡ find text_dec other writer.categories)
    × (refused.1.datamodel_indices ≡ [])
unfolding find collect check_consistent_colls text_dec binary_search sort less_ignoring_case dec_lt
    to_lower
write_frame-refused_example =
    write_frame-refused trees write_ops relations events any_frame parameters (tracks ∷ [])
      (hits ∷ []) written writer refl refl (inr (refl, refl))

-- Later a write to another category, and one to the same that asks for nothing
abbrev later : List (Write ℕ ℕ ℕ ℕ)
later =
    record {
      category = codes "runs";
      frame = any_frame;
      parameters = parameters;
      colls_to_write = hits ∷ [];
    }
    ∷ record { category = events; frame = no_frame; parameters = parameters; colls_to_write = [] }
    ∷ []

abbrev failed : Outcome (Unit {0}) × Writer
failed = write_frame trees write_ops relations no_frame parameters events (hits ∷ []) new_writer

write_frame-first_refused_example :
    (failed.0 ≡ throws runtime_error)
    × AllThrow events (run trees write_ops relations later failed.1)
unfolding find collect sort_alphabetically sort insert_sorted text_dec
write_frame-first_refused_example =
    write_frame-first_refused trees write_ops relations events no_frame parameters (hits ∷ []) later
      new_writer refl refl (λ e. cc, (λ e. refl, tt))

-- A tree that notes what its branches are bound to, a category with one collection, whose type has
-- data, one reference and no vector member
abbrev relating : WriteOps ℕ
relating = record write_ops { n_references = λ c. 1 }

abbrev hits_branches : CollectionBranches ℕ
hits_branches = record { data_branch = some 0; refs = 1 ∷ []; vecs = [] }

reset_branches-init_params_example :
    reset_branches trees relating
      (init_params trees all_kinds (codes "r" ∷ hits ∷ []) (hits_branches ∷ [])).1
      ((hits, 7) ∷ [])
      []
    ≡ ok (
        rebind trees
          (bindings trees relating ((hits, 7) ∷ []) (hits_branches ∷ [])
            ++ made trees all_kinds (codes "r" ∷ hits ∷ []))
          [])
reset_branches-init_params_example =
    reset_branches-init_params trees relating (hits_branches ∷ []) ((hits, 7) ∷ [])
      (codes "r" ∷ hits ∷ []) [] (omega arith) ((inr (0, refl), refl, refl), tt)

-- One branch for the data, one for the reference
bindings_example :
    bindings trees relating ((hits, 7) ∷ []) (hits_branches ∷ [])
    ≡ (0, collection_data 7) ∷ (1, reference 7 0) ∷ []
bindings_example = refl
