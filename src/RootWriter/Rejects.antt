-- ===== src/RootWriter/Rejects.antt =====
-- What is left of a category when `ROOTWriter::writeFrame` (src/ROOTWriter.cc) throws.
use podio.Base.{
  ℕ, ◌≡◌, ◌≢◌, refl, sym, subst, ok, undefined, Outcome, [], ◌∷◌, ap, ◌∙◌, Text, text_dec, false,
  List, ◌++◌, codes, Option, none, some, throws, runtime_error, is_empty, find, assign,
  find-assign_self, find-assign_ne, arith, ◌⊎◌, inl, inr, Option-cases,
}
use podio.Parameters.{GenericParameters}
use podio.Registry.{RelationNames}
use podio.RootUtils.{check_consistent_colls, sort_alphabetically}
use podio.RootWriter.{
  TreeOps, ParamStorage, WriteOps, CategoryInfo, RootWriter, collect, write_frame, write_category,
  write_started, start_category, get_category_info, store, write_collections, new_category,
}

module _ {T Br C I F D : Type 0} (trees : TreeOps T Br C (ParamStorage I F D)) (cs : WriteOps C)
    (relations : Text → RelationNames) (category : Text) where
  -- A Frame is refused by a category: it lacks a collection of the category, or the category has
  -- branches and the collections that are to be written are not those of its first Frame.
  abbrev pub IsRefused :
      (Text → Option C) → (colls_to_write : List Text) → CategoryInfo T Br I F D → Type 0
  IsRefused frame colls_to_write info =
      (collect frame info.colls_to_write ≡ none)
      ⊎ ((is_empty info.branches ≡ false)
          × (check_consistent_colls info.coll_info colls_to_write ≡ false))

  write_category-refused :
      (frame : Text → Option C) (p : GenericParameters I F D) (colls : List Text) (t : T)
      (info : CategoryInfo T Br I F D) (indices : List ℕ)
      → IsRefused frame colls info
      → write_category trees cs relations frame p colls t info indices ≡ throws runtime_error
  unfolding write_category write_collections
  write_category-refused frame p colls t info indices (inl missing) =
      rw (write_category, missing) refl
  write_category-refused frame p colls t info indices (inr (started, differs)) =
      elim (Option-cases (collect frame info.colls_to_write)) [
        | inl missing ↦ rw (write_category, missing) refl
        | inr (found, there) ↦ rw (write_category, there, write_collections, started, differs) refl
      ]

  known_category :
      (info : CategoryInfo T Br I F D) (w : RootWriter T Br I F D)
      → find text_dec category w.categories ≡ some info
      → get_category_info category w ≡ info
  unfolding get_category_info
  known_category info w known = rw (get_category_info, known) refl

  started_category :
      (colls : List Text) (info : CategoryInfo T Br I F D) (t : T)
      → info.tree ≡ some t
      → start_category trees cs relations category colls info ≡ info
  unfolding start_category
  started_category colls info t started = ground (arith, started)

  write_started-refused :
      (frame : Text → Option C) (p : GenericParameters I F D) (colls : List Text) (t : T)
      (info : CategoryInfo T Br I F D) (indices : List ℕ)
      → info.tree ≡ some t
      → IsRefused frame colls info
      → write_started trees cs relations frame p colls info indices ≡ throws runtime_error
  unfolding write_started
  write_started-refused frame p colls t info indices started refused =
      rw (write_started, started) (write_category-refused frame p colls t info indices refused)

  refused_write :
      (frame : Text → Option C) (p : GenericParameters I F D) (colls : List Text) (t : T)
      (info : CategoryInfo T Br I F D) (w : RootWriter T Br I F D)
      → start_category trees cs relations category colls (get_category_info category w) ≡ info
      → info.tree ≡ some t
      → IsRefused frame colls info
      → write_frame trees cs relations frame p category colls w ≡ (
        throws runtime_error,
        record w { categories = assign text_dec category info w.categories },
      )
  unfolding write_frame store
  refused_write frame p colls t info w e started refused =
      rw (e, write_started-refused frame p colls t info w.datamodel_indices started refused) refl

  -- A Frame that a category refuses changes nothing: the write throws, the category is as it was,
  -- its tree is not filled, and no other category and no definition is touched.
  pub write_frame-refused :
      (frame : Text → Option C) (p : GenericParameters I F D) (colls : List Text) (t : T)
      (info : CategoryInfo T Br I F D) (w : RootWriter T Br I F D)
      → find text_dec category w.categories ≡ some info
      → info.tree ≡ some t
      → IsRefused frame colls info
      → ((write_frame trees cs relations frame p category colls w).0 ≡ throws runtime_error)
        × (find text_dec category
              (write_frame trees cs relations frame p category colls w).1.categories
            ≡ some info)
        × ((other : Text)
            → category ≢ other
            → find text_dec other
                (write_frame trees cs relations frame p category colls w).1.categories
              ≡ find text_dec other w.categories)
        × ((write_frame trees cs relations frame p category colls w).1.datamodel_indices
            ≡ w.datamodel_indices)
  write_frame-refused frame p colls t info w known started refused =
      rw
        (refused_write frame p colls t info w
          (ap (start_category trees cs relations category colls) (known_category info w known)
            ∙ started_category colls info t started)
          started refused)
        (
          refl,
          find-assign_self text_dec category info w.categories,
          λ other ne. find-assign_ne text_dec category other info w.categories ne,
          refl,
        )

  first_category :
      (colls : List Text) (w : RootWriter T Br I F D)
      → find text_dec category w.categories ≡ none
      → start_category trees cs relations category colls (get_category_info category w)
        ≡ record new_category {
          colls_to_write = sort_alphabetically colls;
          tree = some (trees.new_tree category (category ++ codes " data tree"));
        }
  unfolding get_category_info start_category
  first_category colls w unknown = rw (get_category_info, unknown) refl

-- A write of a Frame to a category
pub record Write (C I F D : Type 0) : Type 0 where
  pub category : Text
  pub frame : Text → Option C
  pub parameters : GenericParameters I F D
  pub colls_to_write : List Text

-- Each write to the category throws.
abbrev pub AllThrow : Text → List (Text × Outcome (Unit {0})) → Type 0
AllThrow category [] = Unit
AllThrow category ((c, out) ∷ outs) =
    (category ≡ c → out ≡ throws runtime_error) × AllThrow category outs

-- Each Frame that is written to the category lacks one of the collections.
abbrev pub AllLack : {C I F D : Type 0} → Text → List Text → List (Write C I F D) → Type 0
AllLack category names [] = Unit
AllLack category names (x ∷ xs) =
    (category ≡ x.category → collect x.frame names ≡ none) × AllLack category names xs

module _ {T Br C I F D : Type 0} (trees : TreeOps T Br C (ParamStorage I F D)) (cs : WriteOps C)
    (relations : Text → RelationNames) where
  -- The outcomes of writes, one after the other, with their categories
  abbrev pub run : List (Write C I F D) → RootWriter T Br I F D → List (Text × Outcome (Unit {0}))
  run [] w = []
  run (x ∷ xs) w =
      let r = write_frame trees cs relations x.frame x.parameters x.category x.colls_to_write w in
      (x.category, r.0) ∷ run xs r.1

  find-store_ne :
      (c category : Text) (started : CategoryInfo T Br I F D) (w : RootWriter T Br I F D)
      (o : Outcome (CategoryInfo T Br I F D × List ℕ))
      → c ≢ category
      → find text_dec category (store trees cs relations c started w o).1.categories
        ≡ find text_dec category w.categories
  unfolding store
  find-store_ne c category started w (ok (info, is)) ne =
      find-assign_ne text_dec c category info w.categories ne
  find-store_ne c category started w (throws e) ne =
      find-assign_ne text_dec c category started w.categories ne
  find-store_ne c category started w undefined ne = refl

  -- A write to one category leaves the others as they are.
  find-write_frame_ne :
      (category : Text) (x : Write C I F D) (w : RootWriter T Br I F D)
      → x.category ≢ category
      → find text_dec category
          (write_frame trees cs relations x.frame x.parameters x.category x.colls_to_write
            w).1.categories
        ≡ find text_dec category w.categories
  unfolding write_frame
  find-write_frame_ne category x w ne = find-store_ne x.category category _ w _ ne

  -- A category whose tree was made without its collections being written refuses on.
  run-AllThrow :
      (category : Text) (t : T) (info : CategoryInfo T Br I F D) (xs : List (Write C I F D))
      (w : RootWriter T Br I F D)
      → find text_dec category w.categories ≡ some info
      → info.tree ≡ some t
      → AllLack category info.colls_to_write xs
      → AllThrow category (run xs w)
  run-AllThrow category t info [] w known started lack = tt
  run-AllThrow category t info (x ∷ xs) w known started (at_x, lack) =
      elim (text_dec x.category category) [
        | yes e ↦
            let known_x : find text_dec x.category w.categories ≡ some info =
              subst (λ c. find text_dec c w.categories ≡ some info) (sym e) known in
            let (out, kept, others, same) =
              write_frame-refused trees cs relations x.category x.frame x.parameters
                x.colls_to_write t info w known_x started (inl (at_x (sym e))) in
            (
              λ _. out,
              run-AllThrow category t info xs _
                  (subst
                    (λ c.
                      find text_dec c
                        (write_frame trees cs relations x.frame x.parameters x.category
                          x.colls_to_write w).1.categories
                      ≡ some info)
                    e kept)
                  started lack,
            )
        | no ne ↦ (
          λ e. absurd (ne (sym e)),
          run-AllThrow category t info xs _ (find-write_frame_ne category x w ne ∙ known) started
              lack,
        )
      ]

  -- If the first Frame of a category lacks one of the collections that it asks for, the write throws.
  -- After it, whatever is written in between to this or other categories, every write to the category
  -- throws, whatever collections it asks for, as long as the Frames that are written to it lack one of
  -- the collections that the first asked for.
  pub write_frame-first_refused :
      (category : Text) (frame : Text → Option C) (p : GenericParameters I F D) (colls : List Text)
      (later : List (Write C I F D)) (w : RootWriter T Br I F D)
      → find text_dec category w.categories ≡ none
      → collect frame (sort_alphabetically colls) ≡ none
      → AllLack category (sort_alphabetically colls) later
      → let (out, w') = write_frame trees cs relations frame p category colls w in
        (out ≡ throws runtime_error) × AllThrow category (run later w')
  write_frame-first_refused category frame p colls later w unknown missing lack =
      let t : T = trees.new_tree category (category ++ codes " data tree") in
      let info : CategoryInfo T Br I F D = record new_category {
        colls_to_write = sort_alphabetically colls;
        tree = some t;
      } in
      rw
        (refused_write trees cs relations category frame p colls t info w
          (first_category trees cs relations category colls w unknown) refl (inl missing))
        (
          refl,
          run-AllThrow category t info later _
              (find-assign_self text_dec category info w.categories) refl lack,
        )
