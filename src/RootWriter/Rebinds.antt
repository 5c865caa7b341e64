-- ===== src/RootWriter/Rebinds.antt =====
-- `ROOTWriter::resetBranches` (src/ROOTWriter.cc) finds the branches of the parameters that
-- `initBranches` made.
use podio.Base.{
  ℕ, suc, ◌⊎◌, inl, inr, Text, Bool, true, false, cond, Option, none, Option-cases, Bool-cases,
  length-append, ◌+◌, ◌-◌, ◌%◌, ◌^◌, ◌<◌, ◌≡◌, refl, sym, ap, ◌∙◌, List, [], ◌∷◌, ◌++◌,
  append_assoc, append-nil, some, ok, length, get_elem?, get_elem?-append_right, arith,
}
use podio.Parameters.{Kind}
use podio.RootUtils.{gp_key_name, gp_value_name, gp_branch_offsets}
use podio.RootWriter.{
  TreeOps, WriteOps, Address, collection_data, reference, vector_member, set_addresses,
  set_collection_addresses, reset_collections, reset_branches, param_keys, param_values,
  CollectionBranches, init_params, reset_params, set_data_address, all_kinds,
}

module _ {Br : Type 0} (bs ps : List (CollectionBranches Br)) where
  -- The index of a parameter branch, from the index of the last branch of a collection, which is
  -- 2^64 - 1 where there is none
  param_index :
      (offset k : ℕ)
      → offset ≡ suc k
      → length bs + offset < 2 ^ 64
      → ((length bs + 2 ^ 64 - 1) % 2 ^ 64 + offset) % 2 ^ 64 ≡ length bs + k
  param_index offset k e h = omega arith

  get_elem?-param :
      (offset k : ℕ)
      → offset ≡ suc k
      → length bs + offset < 2 ^ 64
      → get_elem? (bs ++ ps) (((length bs + 2 ^ 64 - 1) % 2 ^ 64 + offset) % 2 ^ 64)
        ≡ get_elem? ps k
  get_elem?-param offset k e h =
      ap (get_elem? (bs ++ ps)) (param_index offset k e h) ∙ get_elem?-append_right bs ps k

module _ {T Br C S : Type 0} (trees : TreeOps T Br C S) where
  -- The branches of keys and values that a tree gets for the kinds, and what each is bound to
  abbrev pub made : List Kind → T → List (Br × Address C)
  made [] t = []
  made (k ∷ ks) t =
      let keys = trees.branch t (gp_key_name k) (param_keys k) in
      let values = trees.branch keys.1 (gp_value_name k) (param_values k) in
      (keys.0, param_keys k) ∷ (values.0, param_values k) ∷ made ks values.1

  abbrev pub rebind : List (Br × Address C) → T → T
  rebind [] t = t
  rebind ((b, address) ∷ bs) t = rebind bs (trees.set_address b address t)

  abbrev alone : List (Br × Address C) → List (CollectionBranches Br)
  alone [] = []
  alone ((b, address) ∷ bs) = record { data_branch = some b; refs = []; vecs = [] } ∷ alone bs

  init_params-made :
      (ks : List Kind) (t : T) (bs : List (CollectionBranches Br))
      → (init_params trees ks t bs).1 ≡ bs ++ alone (made ks t)
  unfolding init_params
  init_params-made [] t bs = sym (append-nil bs)
  init_params-made (k ∷ ks) t bs =
      let keys = trees.branch t (gp_key_name k) (param_keys k) in
      let values = trees.branch keys.1 (gp_value_name k) (param_values k) in
      let two : List (CollectionBranches Br) =
        record { data_branch = some keys.0; refs = []; vecs = [] }
        ∷ record { data_branch = some values.0; refs = []; vecs = [] }
        ∷ [] in
      init_params-made ks values.1 (bs ++ two) ∙ append_assoc bs two (alone (made ks values.1))

  -- The branches of the parameters are found behind those of the collections.
  reset_params-init_params :
      (bs : List (CollectionBranches Br)) (t later : T)
      → length bs + 8 < 2 ^ 64
      → reset_params trees
          (init_params trees all_kinds t bs).1
          ((length bs + 2 ^ 64 - 1) % 2 ^ 64)
          all_kinds
          later
        ≡ ok (rebind (made all_kinds t) later)
  unfolding reset_params gp_branch_offsets set_data_address
  reset_params-init_params bs t later h =
      let ps : List (CollectionBranches Br) = alone (made all_kinds t) in
      rw (init_params-made all_kinds t bs) (
        rw
          (
            get_elem?-param bs ps 1 0 refl (omega arith),
            get_elem?-param bs ps 2 1 refl (omega arith),
            get_elem?-param bs ps 3 2 refl (omega arith),
            get_elem?-param bs ps 4 3 refl (omega arith),
            get_elem?-param bs ps 5 4 refl (omega arith),
            get_elem?-param bs ps 6 5 refl (omega arith),
            get_elem?-param bs ps 7 6 refl (omega arith),
            get_elem?-param bs ps 8 7 refl (omega arith),
          )
          refl)

  rebind-append :
      (xs ys : List (Br × Address C)) (t : T) → rebind (xs ++ ys) t ≡ rebind ys (rebind xs t)
  rebind-append [] ys t = refl
  rebind-append ((b, address) ∷ xs) ys t = rebind-append xs ys (trees.set_address b address t)

  -- Branches from a position on, each with the part of the collection of the same position
  abbrev pub paired : (address : ℕ → Address C) → List Br → (i : ℕ) → List (Br × Address C)
  paired address [] i = []
  paired address (b ∷ bs) i = (b, address i) ∷ paired address bs (suc i)

  set_addresses-paired :
      (address : ℕ → Address C) (before bs : List Br) (i : ℕ) (t : T)
      → i ≡ length before
      → set_addresses trees address (before ++ bs) (length bs) i t
        ≡ ok (rebind (paired address bs i) t)
  unfolding set_addresses
  set_addresses-paired address before [] i t e = refl
  set_addresses-paired address before (b ∷ bs) i t e =
      let here : get_elem? (before ++ b ∷ bs) i ≡ some b =
        ap (get_elem? (before ++ b ∷ bs)) (e ∙ sym (omega arith))
        ∙ get_elem?-append_right before (b ∷ bs) 0 in
      rw here (
        ap
          (λ brs.
            set_addresses trees address brs (length bs) (suc i) (trees.set_address b (address i) t))
          (sym (append_assoc before (b ∷ []) bs))
        ∙ set_addresses-paired address (before ++ b ∷ []) bs (suc i)
            (trees.set_address b (address i) t) (omega (arith, e, length-append before (b ∷ []))))

  module _ (cs : WriteOps C) where
    -- The branches of a collection are those that a collection of its type has.
    abbrev pub Fits : C → CollectionBranches Br → Type 0
    Fits coll brs =
        ((cs.has_data coll ≡ false) ⊎ ((b : Br) × (brs.data_branch ≡ some b)))
        × (length brs.refs ≡ cs.n_references coll)
        × (length brs.vecs ≡ cs.n_vector_members coll)

    abbrev pub AllFit : List (Text × C) → List (CollectionBranches Br) → Type 0
    AllFit [] [] = Unit
    AllFit [] (brs ∷ bs) = ⊥
    AllFit ((n, coll) ∷ colls) [] = ⊥
    AllFit ((n, coll) ∷ colls) (brs ∷ bs) = Fits coll brs × AllFit colls bs

    abbrev pub data_binding : C → Option Br → Bool → List (Br × Address C)
    data_binding coll none has = []
    data_binding coll (some b) true = (b, collection_data coll) ∷ []
    data_binding coll (some b) false = []

    -- What the branches of collections have to be bound to, collection by collection
    abbrev pub bindings : List (Text × C) → List (CollectionBranches Br) → List (Br × Address C)
    bindings [] bs = []
    bindings ((n, coll) ∷ colls) [] = []
    bindings ((n, coll) ∷ colls) (brs ∷ bs) =
        (data_binding coll brs.data_branch (cs.has_data coll)
          ++ paired (reference coll) brs.refs 0
          ++ paired (vector_member coll) brs.vecs 0)
        ++ bindings colls bs

    set_data-bound :
        (coll : C) (brs : CollectionBranches Br) (t : T)
        → Fits coll brs
        → cond
            (cs.has_data coll)
            (set_data_address trees brs.data_branch (collection_data coll) t)
            (ok t)
          ≡ ok (rebind (data_binding coll brs.data_branch (cs.has_data coll)) t)
    unfolding set_data_address
    set_data-bound coll brs t (has, refs, vecs) = elim has [
      | inl e ↦ elim (Option-cases brs.data_branch) [
        | inl q ↦ rw (e, q) refl
        | inr (b, q) ↦ rw (e, q) refl
      ]
      | inr (b, q) ↦ elim (Bool-cases (cs.has_data coll)) [
        | inl e ↦ rw (e, q) refl
        | inr e ↦ rw (e, q) refl
      ]
    ]

    set_parts-bound :
        (address : ℕ → Address C) (bs : List Br) (n : ℕ) (t : T)
        → length bs ≡ n
        → set_addresses trees address bs n 0 t ≡ ok (rebind (paired address bs 0) t)
    set_parts-bound address bs n t e =
        ap (λ k. set_addresses trees address bs k 0 t) (sym e)
        ∙ set_addresses-paired address [] bs 0 t refl

    set_collection-bound :
        (coll : C) (brs : CollectionBranches Br) (t : T)
        → Fits coll brs
        → set_collection_addresses trees cs coll brs t
          ≡ ok (
              rebind
                (data_binding coll brs.data_branch (cs.has_data coll)
                  ++ paired (reference coll) brs.refs 0
                  ++ paired (vector_member coll) brs.vecs 0)
                t)
    unfolding set_collection_addresses
    set_collection-bound coll brs t fits =
        let data_of = data_binding coll brs.data_branch (cs.has_data coll) in
        let refs_of = paired (reference coll) brs.refs 0 in
        rw
          (
            set_data-bound coll brs t fits,
            set_parts-bound (reference coll) brs.refs (cs.n_references coll) (rebind data_of t)
                fits.1,
            set_parts-bound (vector_member coll) brs.vecs (cs.n_vector_members coll)
                (rebind refs_of (rebind data_of t)) fits.2,
            rebind-append (data_of ++ refs_of) (paired (vector_member coll) brs.vecs 0) t,
            rebind-append data_of refs_of t,
          )
          refl

    reset_collections-bound :
        (before bs ps : List (CollectionBranches Br)) (colls : List (Text × C)) (i : ℕ) (t : T)
        → i ≡ length before
        → AllFit colls bs
        → reset_collections trees cs (before ++ (bs ++ ps)) i colls t
          ≡ ok (rebind (bindings colls bs) t)
    unfolding reset_collections
    reset_collections-bound before [] ps [] i t e fit = refl
    reset_collections-bound before [] ps ((n, coll) ∷ colls) i t e fit = absurd fit
    reset_collections-bound before (brs ∷ bs) ps [] i t e fit = absurd fit
    reset_collections-bound before (brs ∷ bs) ps ((n, coll) ∷ colls) i t e (fits, fit) =
        let here : get_elem? (before ++ brs ∷ (bs ++ ps)) i ≡ some brs =
          ap (get_elem? (before ++ brs ∷ (bs ++ ps))) (e ∙ sym (omega arith))
          ∙ get_elem?-append_right before (brs ∷ (bs ++ ps)) 0 in
        let own =
          data_binding coll brs.data_branch (cs.has_data coll)
          ++ paired (reference coll) brs.refs 0
          ++ paired (vector_member coll) brs.vecs 0 in
        rw (here, set_collection-bound coll brs t fits, rebind-append own (bindings colls bs) t)
          (ap (λ all. reset_collections trees cs all (suc i) colls (rebind own t))
              (sym (append_assoc before (brs ∷ []) (bs ++ ps)))
            ∙ reset_collections-bound (before ++ brs ∷ []) bs ps colls (suc i) (rebind own t)
                (omega (arith, e, length-append before (brs ∷ []))) fit)

    length-AllFit :
        (colls : List (Text × C)) (bs : List (CollectionBranches Br))
        → AllFit colls bs
        → length colls ≡ length bs
    length-AllFit [] [] fit = refl
    length-AllFit [] (brs ∷ bs) fit = absurd fit
    length-AllFit ((n, coll) ∷ colls) [] fit = absurd fit
    length-AllFit ((n, coll) ∷ colls) (brs ∷ bs) (_, fit) = ap suc (length-AllFit colls bs fit)

    -- When the branches of a category are those of its collections, followed by those that
    -- `initBranches` made for the parameters, and a later Frame has collections of the same kinds,
    -- `resetBranches` binds the branches of each collection to its data, references and vector members,
    -- and then finds for each kind of parameters the two branches that were made for its keys and its
    -- values and binds them to these again, without an access out of bounds. This holds for a category
    -- without collections too.
    pub reset_branches-init_params :
        (bs : List (CollectionBranches Br)) (colls : List (Text × C)) (t later : T)
        → length bs + 8 < 2 ^ 64
        → AllFit colls bs
        → reset_branches trees cs (init_params trees all_kinds t bs).1 colls later
          ≡ ok (rebind (bindings colls bs ++ made all_kinds t) later)
    unfolding reset_branches
    reset_branches-init_params bs colls t later h fit =
        let collections_bound : reset_collections trees cs (init_params trees all_kinds t bs).1 0
              colls later
            ≡ ok (rebind (bindings colls bs) later) =
          ap (λ all. reset_collections trees cs all 0 colls later) (init_params-made all_kinds t bs)
          ∙ reset_collections-bound [] bs (alone (made all_kinds t)) colls 0 later refl fit in
        rw
          (
            collections_bound,
            length-AllFit colls bs fit,
            reset_params-init_params bs t (rebind (bindings colls bs) later) h,
            rebind-append (bindings colls bs) (made all_kinds t) later,
          )
          refl
