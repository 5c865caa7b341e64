-- ===== src/NtupleWriter/Retries.antt =====
-- `RNTupleWriter::writeFrame` (src/RNTupleWriter.cc) after a first write to a category that failed for
-- want of a collection.
use podio.Base.{
  ℕ, ◌≡◌, ◌≢◌, ◌⊎◌, inl, inr, refl, sym, ap, subst, ◌∙◌, Text, text_dec, List, [], ◌∷◌, Option,
  none, Outcome, throws, runtime_error, assign, find-assign_self, find-assign_ne, arith,
}
use podio.Parameters.{GenericParameters}
use podio.Registry.{RelationNames}
use podio.RootUtils.{sort_alphabetically}
use podio.RootWriter.{ParamStorage, WriteOps, collect}
use podio.NtupleWriter.{
  TupleOps, CategoryInfo, NtupleWriter, write_frame, write_category, start_category,
  get_category_info,
}

module _ {M E W C I F D : Type 0} (tuples : TupleOps M E W C (ParamStorage I F D)) (cs : WriteOps C)
    (member_type : C → ℕ → Text) (relations : Text → RelationNames) (category : Text) where
  started_first :
      (colls : List Text) (info : CategoryInfo W I F D)
      → info.writer ≡ none
      → start_category tuples cs member_type relations colls info
        ≡ record info { names = sort_alphabetically colls }
  unfolding start_category
  started_first colls info fresh = ground (arith, fresh)

  write_category-missing :
      (frame : Text → Option C) (p : GenericParameters I F D) (colls : List Text)
      (info : CategoryInfo W I F D) (indices : List ℕ)
      → collect frame info.names ≡ none
      → write_category tuples cs member_type relations frame p category colls info indices
        ≡ (throws runtime_error, info, indices)
  unfolding write_category
  write_category-missing frame p colls info indices missing = rw (write_category, missing) refl

  -- What a first write that misses a collection leaves behind
  missing_write :
      (frame : Text → Option C) (p : GenericParameters I F D) (colls : List Text)
      (w : NtupleWriter W I F D)
      → (get_category_info category w).writer ≡ none
      → collect frame (sort_alphabetically colls) ≡ none
      → write_frame tuples cs member_type relations frame p category colls w ≡ (
        throws runtime_error,
        record w {
          categories =
              assign text_dec category
                (record (get_category_info category w) { names = sort_alphabetically colls })
                w.categories;
        },
      )
  unfolding write_frame
  missing_write frame p colls w fresh missing =
      rw
        (
          started_first colls (get_category_info category w) fresh,
          write_category-missing frame p colls
              (record (get_category_info category w) { names = sort_alphabetically colls })
              w.datamodel_indices missing,
        )
        refl

  get_category_info-assign :
      (info : CategoryInfo W I F D) (w : NtupleWriter W I F D)
      → get_category_info category
          (record w { categories = assign text_dec category info w.categories })
        ≡ info
  unfolding get_category_info
  get_category_info-assign info w =
      rw (get_category_info, find-assign_self text_dec category info w.categories) refl

-- A write of a Frame to a category
pub record Write (C I F D : Type 0) : Type 0 where
  pub category : Text
  pub frame : Text → Option C
  pub parameters : GenericParameters I F D
  pub colls_to_write : List Text

module _ {W I F D : Type 0} where
  -- Equal, or without a writer and equal but for the names
  abbrev pub Alike : CategoryInfo W I F D → CategoryInfo W I F D → Type 0
  Alike i j = (i ≡ j) ⊎ ((j.writer ≡ none) × (i ≡ record j { names = i.names }))

  -- Writers whose categories are alike
  abbrev pub SameButNames : NtupleWriter W I F D → NtupleWriter W I F D → Type 0
  SameButNames v w =
      ((category : Text) → Alike (get_category_info category v) (get_category_info category w))
      × (v.datamodel_indices ≡ w.datamodel_indices)
      × (v.is_open ≡ w.is_open)

  info_assigned :
      (c : Text) (info : CategoryInfo W I F D) (is : List ℕ) (w : NtupleWriter W I F D)
      → get_category_info c
          (record w { categories = assign text_dec c info w.categories; datamodel_indices = is })
        ≡ info
  unfolding get_category_info
  info_assigned c info is w =
      rw (get_category_info, find-assign_self text_dec c info w.categories) refl

  info_others :
      (c d : Text) (info : CategoryInfo W I F D) (is : List ℕ) (w : NtupleWriter W I F D)
      → c ≢ d
      → get_category_info d
          (record w { categories = assign text_dec c info w.categories; datamodel_indices = is })
        ≡ get_category_info d w
  unfolding get_category_info
  info_others c d info is w ne =
      rw (get_category_info, find-assign_ne text_dec c d info w.categories ne) refl

  -- Writers that are alike are so after a category was given the same info.
  assigned-SameButNames :
      (c : Text) (info : CategoryInfo W I F D) (is : List ℕ) (v w : NtupleWriter W I F D)
      → SameButNames v w
      → SameButNames
          (record v { categories = assign text_dec c info v.categories; datamodel_indices = is })
          (record w { categories = assign text_dec c info w.categories; datamodel_indices = is })
  assigned-SameButNames c info is v w (alike, _, opened) = (
    λ d. elim (text_dec c d) [
      | yes e ↦ inl (
          subst
            (λ x.
              get_category_info x (record v {
                categories = assign text_dec c info v.categories;
                datamodel_indices = is;
              })
              ≡ get_category_info x (record w {
                categories = assign text_dec c info w.categories;
                datamodel_indices = is;
              }))
            e (info_assigned c info is v ∙ sym (info_assigned c info is w)))
      | no ne ↦ rw (info_others c d info is v ne, info_others c d info is w ne) (alike d)
    ],
    refl,
    opened,
  )

module _ {M E W C I F D : Type 0} (tuples : TupleOps M E W C (ParamStorage I F D)) (cs : WriteOps C)
    (member_type : C → ℕ → Text) (relations : Text → RelationNames) where
  -- The outcomes of writes, one after the other, and the writer that they leave
  abbrev pub run :
      List (Write C I F D) → NtupleWriter W I F D → List (Outcome (Unit {0})) × NtupleWriter W I F D
  run [] w = ([], w)
  run (x ∷ xs) w =
      let r =
        write_frame tuples cs member_type relations x.frame x.parameters x.category x.colls_to_write
          w in
      let rest = run xs r.1 in (r.0 ∷ rest.0, rest.1)

  started_again :
      (colls names : List Text) (info : CategoryInfo W I F D)
      → info.writer ≡ none
      → start_category tuples cs member_type relations colls (record info { names = names })
        ≡ start_category tuples cs member_type relations colls info
  unfolding start_category
  started_again colls names info fresh = rw (start_category, fresh) refl

  started-Alike :
      (colls : List Text) (i j : CategoryInfo W I F D)
      → Alike i j
      → start_category tuples cs member_type relations colls i
        ≡ start_category tuples cs member_type relations colls j
  started-Alike colls i j (inl e) = ap (start_category tuples cs member_type relations colls) e
  started-Alike colls i j (inr (fresh, e)) =
      ap (start_category tuples cs member_type relations colls) e
      ∙ started_again colls i.names j fresh

  -- What a write makes of the info of its category and of the collector
  abbrev written :
      Write C I F D → NtupleWriter W I F D → Outcome (Unit {0}) × CategoryInfo W I F D × List ℕ
  written x w =
      write_category tuples cs member_type relations x.frame x.parameters x.category
        x.colls_to_write
        (start_category tuples cs member_type relations x.colls_to_write
          (get_category_info x.category w))
        w.datamodel_indices

  written-SameButNames :
      (x : Write C I F D) (v w : NtupleWriter W I F D)
      → SameButNames v w
      → written x v ≡ written x w
  written-SameButNames x v w (alike, is, opened) =
      rw
        (
          started-Alike x.colls_to_write (get_category_info x.category v)
              (get_category_info x.category w) (alike x.category),
          is,
        )
        refl

  run-SameButNames :
      (xs : List (Write C I F D)) (v w : NtupleWriter W I F D)
      → SameButNames v w
      → ((run xs v).0 ≡ (run xs w).0) × SameButNames (run xs v).1 (run xs w).1
  unfolding write_frame
  run-SameButNames [] v w same = (refl, same)
  run-SameButNames (x ∷ xs) v w same =
      let (outs, after) =
        run-SameButNames xs _ _
          (assigned-SameButNames x.category (written x w).1 (written x w).2 v w same) in
      rw (written-SameButNames x v w same) (ap (λ os. (written x w).0 ∷ os) outs, after)

  failed-SameButNames :
      (category : Text) (names : List Text) (w : NtupleWriter W I F D)
      → (get_category_info category w).writer ≡ none
      → SameButNames
          (record w {
            categories =
                assign text_dec category
                  (record (get_category_info category w) { names = names })
                  w.categories;
          })
          w
  failed-SameButNames category names w fresh =
      let info : CategoryInfo W I F D = record (get_category_info category w) { names = names } in
      (
        λ d. elim (text_dec category d) [
          | yes e ↦
              subst
                (λ x.
                  Alike
                    (get_category_info x
                      (record w { categories = assign text_dec category info w.categories }))
                    (get_category_info x w))
                e (rw (info_assigned category info w.datamodel_indices w) (inr (fresh, refl)))
          | no ne ↦ inl (info_others category d info w.datamodel_indices w ne)
        ],
        refl,
        refl,
      )

  -- As long as a category has no writer, a write that misses one of the collections it asks for throws
  -- and has no effect on the outcomes of any writes that follow, to whatever categories. The writer
  -- that these leave is then the same as if the failed write had not been tried, as far as the info
  -- of the categories goes, but for the names of a category that still has no writer.
  pub write_frame-retry :
      (category : Text) (frame : Text → Option C) (p : GenericParameters I F D) (colls : List Text)
      (w : NtupleWriter W I F D) (later : List (Write C I F D))
      → (get_category_info category w).writer ≡ none
      → collect frame (sort_alphabetically colls) ≡ none
      → let (out, failed) = write_frame tuples cs member_type relations frame p category colls w in
        (out ≡ throws runtime_error)
        × ((run later failed).0 ≡ (run later w).0)
        × SameButNames (run later failed).1 (run later w).1
  write_frame-retry category frame p colls w later fresh missing =
      let (outs, after) =
        run-SameButNames later _ w
          (failed-SameButNames category (sort_alphabetically colls) w fresh) in
      rw (missing_write tuples cs member_type relations category frame p colls w fresh missing)
        (refl, outs, after)
