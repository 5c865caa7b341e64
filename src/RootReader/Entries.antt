-- ===== src/RootReader/Entries.antt =====
-- Reading an entry of a category with `ROOTReader` (src/ROOTReader.cc, and the addresses of branches in
-- src/rootUtils.h).
use podio.Base.{
  ℕ, ◌+◌, ◌-◌, ◌%◌, ◌^◌, Text, text_dec, ℕ_discrete, dec_lt, dec_le, ite, cond, Bool, true, false,
  not, ◌&&◌, List, [], ◌∷◌, map, Option, none, some, Outcome, ok, throws, undefined, ◌>>=◌, ◌>>◌,
  invalid_argument, unchecked, length, get_elem?, set, is_empty, emplace, index_of,
}
use podio.Version.{Version, version_lt}
use podio.BufferFactory.{FuncMap, create_buffers}
use podio.Parameters.{
  Kind, int, float, double, string, GenericParameters, Value, load_from, no_parameters,
}
use podio.Frame.Data.{RootFrameData}
use podio.RootUtils.{gp_key_name, gp_value_name, gp_branch_offsets, param_branch_name}
use podio.RootReader.{
  ChainOps, ReadBuffers, NamedCollInfo, CollectionBranches, CategoryInfo, version_of,
}

-- Whether a list of names has the name.
unfoldable pub has_name : Text → List Text → Bool
has_name n names = ite (dec_lt (index_of text_dec n names) (length names)) true false

-- The buffers of a collection, if they could be made, go into the map of the entry.
unfoldable pub add_buffers : {B : Type 0} → Text → Option B → List (Text × B) → List (Text × B)
add_buffers n none buffers = buffers
add_buffers n (some b) buffers = emplace text_dec n b buffers

-- The collections that are asked for must be stored.
unfoldable pub check_requested : List Text → (requested : List Text) → Outcome (Unit {0})
unfolding has_name
check_requested stored [] = ok tt
check_requested stored (n ∷ ns) =
    cond (has_name n stored) (check_requested stored ns) (throws invalid_argument)

module _ {Ch Br V : Type 0} (ops : ChainOps Ch Br V) where
  -- The loops of `resetBranches`: each branch is taken by its name, which is read without a check.
  unfoldable pub reset_named : Ch → List (Option Br) → List Text → Outcome (List (Option Br))
  reset_named chain [] names = ok []
  reset_named chain (b ∷ bs) [] = undefined
  reset_named chain (b ∷ bs) (n ∷ names) = do
    rest ← reset_named chain bs names
    ok (ops.get_branch chain n ∷ rest)

  unfoldable pub reset_data : Ch → Option Br → Text → Option Br
  reset_data chain none name = none
  reset_data chain (some b) name = ops.get_branch chain name

  unfoldable pub reset_branches :
      Ch → CollectionBranches Br → Text → Outcome (CollectionBranches Br)
  unfolding reset_named reset_data
  reset_branches chain brs name = do
    refs ← reset_named chain brs.refs brs.ref_names
    vecs ← reset_named chain brs.vecs brs.vec_names
    ok (record brs {
      data_branch = reset_data chain brs.data_branch name;
      refs = refs;
      vecs = vecs;
    })

  -- One loop of `setCollectionAddressesReader`: false at the first null branch. The branches are read
  -- without a check.
  unfoldable pub addresses_set : List V → List (Option Br) → Outcome Bool
  addresses_set [] brs = ok true
  addresses_set (v ∷ vs) [] = undefined
  addresses_set (v ∷ vs) (none ∷ brs) = ok false
  addresses_set (v ∷ vs) (some b ∷ brs) = addresses_set vs brs

  unfoldable pub part_addresses_set : Option (List V) → List (Option Br) → Outcome Bool
  unfolding addresses_set
  part_addresses_set none brs = ok true
  part_addresses_set (some vs) brs = addresses_set vs brs

  unfoldable pub data_address_set : Option V → Option Br → Outcome (Unit {0})
  data_address_set none br = ok tt
  data_address_set (some v) none = undefined
  data_address_set (some v) (some b) = ok tt

  unfoldable pub set_collection_addresses_reader :
      ReadBuffers V → CollectionBranches Br → Outcome Bool
  unfolding part_addresses_set data_address_set
  set_collection_addresses_reader buffers brs = do
    data_address_set buffers.contents brs.data_branch
    refs ← part_addresses_set buffers.references brs.refs
    cond refs (part_addresses_set buffers.vector_members brs.vecs) (ok false)

  -- `readBranchesData`: each branch fills the buffer whose address it has; a null pointer is not
  -- checked for.
  unfoldable pub read_all : ℕ → List V → List (Option Br) → Outcome (List V)
  read_all entry vs [] = ok vs
  read_all entry vs (none ∷ brs) = undefined
  read_all entry [] (some b ∷ brs) = read_all entry [] brs
  read_all entry (v ∷ vs) (some b ∷ brs) = do
    rest ← read_all entry vs brs
    ok (ops.get_entry b entry ∷ rest)

  unfoldable pub read_part : ℕ → Option (List V) → List (Option Br) → Outcome (Option (List V))
  unfolding read_all
  read_part entry none brs = do read_all entry [] brs; ok none
  read_part entry (some vs) brs = do vs' ← read_all entry vs brs; ok (some vs')

  unfoldable pub read_data : ℕ → Option V → Option Br → Option V
  read_data entry (some v) (some b) = some (ops.get_entry b entry)
  read_data entry (some v) none = some v
  read_data entry none br = none

  unfoldable pub read_branches_data :
      ℕ → ReadBuffers V → CollectionBranches Br → Outcome (ReadBuffers V)
  unfolding read_part read_data
  read_branches_data entry buffers brs = do
    refs ← read_part entry buffers.references brs.refs
    vecs ← read_part entry buffers.vector_members brs.vecs
    ok (record {
      contents = read_data entry buffers.contents brs.data_branch;
      references = refs;
      vector_members = vecs;
    })

  -- `getCollectionBuffers` of a stored class, with the branches of the category that it leaves
  unfoldable pub get_collection_buffers :
      FuncMap (ReadBuffers V)
      → Ch
      → (reload_branches : Bool) → (local_entry : ℕ) → NamedCollInfo
      → List (CollectionBranches Br)
      → Outcome (Option (ReadBuffers V) × List (CollectionBranches Br))
  unfolding reset_branches set_collection_addresses_reader read_branches_data
  get_collection_buffers factory chain reload_branches local_entry info branches = do
    brs ← unchecked (get_elem? branches info.index)
    maybe_buffers ← create_buffers factory info.type info.schema_version info.is_subset
    elim maybe_buffers [
      | none ↦ ok (none, branches)
      | some buffers ↦ do
        brs' ← cond reload_branches (reset_branches chain brs info.name) (ok brs)
        set_up ← set_collection_addresses_reader buffers brs'
        cond set_up
            (do
              buffers' ← read_branches_data local_entry buffers brs'
              ok (some buffers', set branches info.index brs'))
            (ok (none, set branches info.index brs'))
    ]

  -- The loop over the stored classes: those that are not asked for and those whose buffers cannot be
  -- made are left out.
  unfoldable pub read_collections :
      FuncMap (ReadBuffers V)
      → Ch
      → (reload_branches : Bool) → (local_entry : ℕ) → (colls_to_read : List Text)
      → List NamedCollInfo
      → List (CollectionBranches Br)
      → List (Text × ReadBuffers V)
      → Outcome (List (Text × ReadBuffers V) × List (CollectionBranches Br))
  unfolding get_collection_buffers has_name add_buffers
  read_collections factory chain reload local colls_to_read [] branches buffers =
      ok (buffers, branches)
  read_collections factory chain reload local colls_to_read (info ∷ infos) branches buffers =
      let skip = read_collections factory chain reload local colls_to_read infos branches buffers in
      let read = do
        (maybe_buffers, branches') ← get_collection_buffers factory chain reload local info branches
        read_collections factory chain reload local colls_to_read infos branches'
            (add_buffers info.name maybe_buffers buffers)
      in cond (not (is_empty colls_to_read) && not (has_name info.name colls_to_read)) skip read

  -- A branch of parameters: its pointer anew after a change of trees, and what it has at the entry.
  -- It stands at an offset from the last branch of a collection.
  unfoldable pub param_branch :
      Ch
      → (reload : Bool) → (at : ℕ) → (branch_name : Text) → List (CollectionBranches Br)
      → Outcome (Br × List (CollectionBranches Br))
  param_branch chain reload at branch_name branches = do
    brs ← unchecked (get_elem? branches at)
    let brs' = cond reload (record brs { data_branch = ops.get_branch chain branch_name }) brs
    b ← unchecked brs'.data_branch
    ok (b, set branches at brs')

-- How the parameters of an entry come out of the values of branches
pub record ParamValues (V I F D : Type 0) : Type 0 where
  pub keys_in : V → List Text
  pub values_in : (k : Kind) → V → List (List (Value I F D k))
  pub all_in : V → GenericParameters I F D

module _ {Ch Br V I F D : Type 0} (ops : ChainOps Ch Br V) (values : ParamValues V I F D) where
  -- `readParams` of a kind
  unfoldable pub read_params :
      Kind
      → Ch
      → (reload : Bool) → (local_entry : ℕ) → GenericParameters I F D
      → List (CollectionBranches Br)
      → Outcome (GenericParameters I F D × List (CollectionBranches Br))
  unfolding param_branch gp_branch_offsets
  read_params k chain reload local_entry params branches =
      let last = (length branches + 2 ^ 64 - 8 - 1) % 2 ^ 64 in
      do
        (key_branch, brs) ←
            param_branch ops chain reload ((last + (gp_branch_offsets k).keys) % 2 ^ 64)
              (gp_key_name k) branches
        (value_branch, brs') ←
            param_branch ops chain reload ((last + (gp_branch_offsets k).values) % 2 ^ 64)
              (gp_value_name k) brs
        params' ←
            load_from k (values.keys_in (ops.get_entry key_branch local_entry))
              (values.values_in k (ops.get_entry value_branch local_entry)) params
        ok (params', brs')

  unfoldable pub read_all_params :
      Ch
      → (reload : Bool) → (local_entry : ℕ) → List Kind
      → GenericParameters I F D
      → List (CollectionBranches Br)
      → Outcome (GenericParameters I F D × List (CollectionBranches Br))
  unfolding read_params
  read_all_params chain reload local_entry [] params branches = ok (params, branches)
  read_all_params chain reload local_entry (k ∷ ks) params branches = do
    (params', branches') ← read_params k chain reload local_entry params branches
    read_all_params chain reload local_entry ks params' branches'

  -- `readEntryParameters`: in old files one branch, the last.
  unfoldable pub read_entry_parameters :
      Version
      → Ch
      → (reload : Bool) → (local_entry : ℕ) → List (CollectionBranches Br)
      → Outcome (GenericParameters I F D × List (CollectionBranches Br))
  unfolding version_lt param_branch read_all_params
  read_entry_parameters file_version chain reload local_entry branches =
      cond (version_lt file_version (version_of 0 99 99))
        (do
          (b, branches') ←
              param_branch ops chain reload (length branches - 1) param_branch_name branches
          ok (values.all_in (ops.get_entry b local_entry), branches'))
        (read_all_params chain reload local_entry (int ∷ float ∷ double ∷ string ∷ []) no_parameters
          branches)

  -- Whether the branches have to be taken anew: the loaded tree changed, or it is its first entry.
  unfoldable pub needs_reload : (before after : Option ℕ) → (local_entry : ℕ) → Bool
  needs_reload none none local_entry = ite (ℕ_discrete local_entry 0) true false
  needs_reload none (some a) local_entry = true
  needs_reload (some b) none local_entry = true
  needs_reload (some b) (some a) local_entry =
      ite (ℕ_discrete a b) (ite (ℕ_discrete local_entry 0) true false) true

  -- `readEntry` of a category: null behind its last entry.
  unfoldable pub read_entry :
      FuncMap (ReadBuffers V)
      → Version
      → (colls_to_read : List Text) → CategoryInfo Ch Br
      → Outcome
          (Option (RootFrameData (ReadBuffers V) (GenericParameters I F D)) × CategoryInfo Ch Br)
  unfolding check_requested needs_reload read_collections read_entry_parameters
  read_entry factory file_version colls_to_read info =
      ite (dec_le (ops.n_entries info.chain) info.entry) (ok (none, info)) (do
        check_requested (map (λ c. c.name) info.stored_classes) colls_to_read
        let loaded = ops.load_tree info.entry info.chain
        let reload = needs_reload (ops.tree_number info.chain) (ops.tree_number loaded.1) loaded.0
        (buffers, branches) ←
            read_collections ops factory loaded.1 reload (loaded.0 % 2 ^ 32) colls_to_read
              info.stored_classes info.branches []
        (parameters, branches') ←
            read_entry_parameters file_version loaded.1 reload (loaded.0 % 2 ^ 32) branches
        ok (
          some (record { buffers = buffers; id_table = info.table; parameters = parameters }),
          record info { chain = loaded.1; entry = (info.entry + 1) % 2 ^ 32; branches = branches' },
        ))

  -- `readEntry` with the number of the entry
  unfoldable pub read_entry_at :
      FuncMap (ReadBuffers V)
      → Version
      → (ent_num : ℕ) → (colls_to_read : List Text) → CategoryInfo Ch Br
      → Outcome
          (Option (RootFrameData (ReadBuffers V) (GenericParameters I F D)) × CategoryInfo Ch Br)
  unfolding read_entry
  read_entry_at factory file_version ent_num colls_to_read info =
      read_entry factory file_version colls_to_read (record info { entry = ent_num })
