-- ===== src/BufferFactory.antt =====
-- `CollectionBufferFactory` (include/podio/CollectionBufferFactory.h,
-- src/CollectionBufferFactory.cc): for each collection type the functions that create read buffers,
-- one for each schema version. `B` is the type of the buffers; a creation function takes whether
-- the collection is a subset collection.
pub mod Laws
use podio.Base.{
  ℕ, zero, suc, ◌+◌, ◌-◌, ◌≤◌, Text, text_dec, dec_lt, dec_le, ite, Bool, List, [], ◌∷◌, ◌++◌,
  Option, none, some, Outcome, ok, undefined, ◌>>=◌, unchecked, length, get_elem?, set, replicate,
  find, emplace, assign,
}
use podio.Evolution.{version_index}

abbrev pub CreationFunc : Type 0 → Type 0
CreationFunc B = Bool → B

-- `VersionMapT` for each type
abbrev pub FuncMap : Type 0 → Type 0
FuncMap B = List (Text × List (CreationFunc B))

module _ {B : Type 0} where
  -- `versionMap[version - 1](subsetColl)`
  unfoldable pub call_creation : List (CreationFunc B) → ℕ → Bool → Outcome (Option B)
  call_creation versions version subset_coll = do
    f ← unchecked (get_elem? versions (version_index version))
    ok (some (f subset_coll))

  unfoldable pub create_buffers : FuncMap B → Text → ℕ → Bool → Outcome (Option B)
  unfolding call_creation
  create_buffers m coll_type version subset_coll = elim (find text_dec coll_type m) [
    | none ↦ ok none
    | some versions ↦
        ite (dec_le version (length versions)) (call_creation versions version subset_coll)
          (ok none)
  ]

  -- The loop that gives the versions from `prevSize` up the new function, after the resize.
  unfoldable pub extended : List (CreationFunc B) → ℕ → CreationFunc B → List (CreationFunc B)
  extended versions version f = versions ++ replicate (version - length versions) f

  -- The update of the version map that is there.
  unfoldable pub updated :
      List (CreationFunc B) → ℕ → CreationFunc B → Outcome (List (CreationFunc B))
  unfolding extended
  updated versions version f =
      ite (dec_lt (length versions) version) (ok (extended versions version f)) (
        ite (dec_lt (version_index version) (length versions))
          (ok (set versions (version_index version) f)) undefined)

  unfoldable pub register_creation_func :
      FuncMap B → Text → ℕ → CreationFunc B → Outcome (FuncMap B)
  unfolding updated
  register_creation_func m coll_type version f = elim (find text_dec coll_type m) [
    | none ↦ ok (emplace text_dec coll_type (replicate version f) m)
    | some versions ↦ do
      versions' ← updated versions version f
      ok (assign text_dec coll_type versions' m)
  ]
