-- ===== src/NtupleWriter/Fields.antt =====
-- The fields that `createModels` makes and those that `writeFrame` binds (src/RNTupleWriter.cc).
use podio.Base.{
  ℕ, zero, suc, ◌≡◌, refl, Text, true, codes, sym, bind_congruent, Outcome-cases, List, [], ◌∷◌,
  ◌++◌, ok, get_elem?, Bool-cases, inl, inr, Option-cases,
}
use podio.Registry.{RelationNames, register_definition}
use podio.RootWriter.{Address, reference, vector_member, ParamStorage, WriteOps}
use podio.RootUtils.{subset_branch, ref_branch, vec_branch}
use podio.NtupleWriter.{
  TupleOps, add_fields, bind_fields, add_data_field, bind_data, add_member_fields, bind_members,
  collection_fields, bind_collection, bind_subset, create_fields, bind_collections,
}

-- Models and entries that record the names of their fields, and refuse none
abbrev pub recorder : {C S : Type 0} → TupleOps (List Text) (List Text) (List Text) C S
recorder = record {
  create_bare = [];
  add_field = λ name type m. ok (m ++ name ∷ []);
  append = λ m category. m;
  create_entry = λ w. [];
  bind = λ name address e. ok (e ++ name ∷ []);
  fill = λ s e w. w;
}

-- A subset collection has references.
abbrev pub HasReferences : {C : Type 0} → WriteOps C → C → Type 0
HasReferences cs coll =
    cs.is_subset_collection coll ≡ true → (n : ℕ) × (cs.n_references coll ≡ suc n)

module _ {C : Type 0} (S : Type 0) (cs : WriteOps C) (member_type : C → ℕ → Text) where
  abbrev record_names : TupleOps (List Text) (List Text) (List Text) C S
  record_names = recorder

  add_fields-bind_fields :
      (field_name : Text → Text) (type : ℕ → Text) (address : ℕ → Address C) (names : List Text)
      (left i : ℕ) (m : List Text)
      → add_fields record_names field_name type names left i m
        ≡ bind_fields record_names field_name address names left i m
  unfolding add_fields bind_fields
  add_fields-bind_fields field_name type address names zero i m = refl
  add_fields-bind_fields field_name type address names (suc left) i m =
      elim (Option-cases (get_elem? names i)) [
        | inl missing ↦ rw missing refl
        | inr (name, there) ↦ rw there (
            add_fields-bind_fields field_name type address names left (suc i)
              (m ++ field_name name ∷ []))
      ]

  add_member_fields-bind_members :
      (relations : RelationNames) (name : Text) (coll : C) (m : List Text)
      → add_member_fields record_names cs member_type relations name coll m
        ≡ bind_members record_names cs relations name coll m
  unfolding add_member_fields bind_members
  add_member_fields-bind_members relations name coll m =
      bind_congruent
        (add_fields-bind_fields (ref_branch name) (λ i. codes "vector<podio::ObjectID>")
          (reference coll) relations.relations (cs.n_references coll) 0 m)
        (λ m'.
          add_fields-bind_fields (vec_branch name)
            (λ i. codes "vector<" ++ member_type coll i ++ codes ">") (vector_member coll)
            relations.vector_members (cs.n_vector_members coll) 0 m')

  subset_field-bind_subset :
      (name : Text) (coll : C) (n : ℕ) (m : List Text)
      → cs.n_references coll ≡ suc n
      → ok (m ++ subset_branch name ∷ []) ≡ bind_subset record_names cs name coll m
  unfolding bind_subset
  subset_field-bind_subset name coll n m e = rw (bind_subset, e) refl

  add_data_field-bind_data :
      (name : Text) (coll : C) (m : List Text)
      → add_data_field record_names cs member_type name coll m
        ≡ bind_data record_names cs name coll m
  unfolding add_data_field bind_data
  add_data_field-bind_data name coll m = refl

  collection_fields-bind_collection :
      (relations : RelationNames) (name : Text) (coll : C) (m : List Text)
      → HasReferences cs coll
      → collection_fields record_names cs member_type relations name coll m
        ≡ bind_collection record_names cs relations name coll m
  unfolding collection_fields bind_collection
  collection_fields-bind_collection relations name coll m has =
      bind_congruent (add_data_field-bind_data name coll m) (λ m'.
        elim (Bool-cases (cs.is_subset_collection coll)) [
          | inl subset ↦
              rw subset (subset_field-bind_subset name coll (has subset).0 m' (has subset).1)
          | inr proper ↦ rw proper (add_member_fields-bind_members relations name coll m')
        ])

module _ {C : Type 0} (I F D : Type 0) (cs : WriteOps C) (member_type : C → ℕ → Text)
    (relations : Text → RelationNames) where
  abbrev names_of : TupleOps (List Text) (List Text) (List Text) C (ParamStorage I F D)
  names_of = recorder

  -- With models and entries that record their fields, `createModels` makes for the collections of a
  -- category exactly the fields, in the same order, that `writeFrame` binds for them, or both access a
  -- name of a relation out of bounds, provided that every subset collection has references.
  pub create_fields-bind_collections :
      (colls : List (Text × C)) (m : List Text) (indices : List ℕ)
      → ((coll : C) → HasReferences cs coll)
      → (create_fields names_of cs member_type relations colls m indices).0
        ≡ bind_collections names_of cs relations colls m
  unfolding create_fields bind_collections
  create_fields-bind_collections [] m indices has = refl
  create_fields-bind_collections ((name, coll) ∷ colls) m indices has =
      rw
        (sym (
          collection_fields-bind_collection (ParamStorage I F D) cs member_type
            (relations (cs.value_type_name coll)) name coll m (has coll)))
        (elim (Outcome-cases (
          collection_fields names_of cs member_type (relations (cs.value_type_name coll)) name coll
            m)) [
              | inl (m', e) ↦
                  rw (create_fields, e)
                    (create_fields-bind_collections colls m'
                      (register_definition (cs.datamodel_index coll) indices) has)
              | inr (inl (x, e)) ↦ rw (create_fields, e) refl
              | inr (inr e) ↦ rw (create_fields, e) refl
            ])
