-- ===== src/RootUtils.antt =====
-- The helpers that the ROOT readers and writers share (src/rootUtils.h,
-- include/podio/utilities/RootHelpers.h): the names of branches, the comparison of collection names,
-- and what is rebuilt from old files. ROOT's trees and branches are parameters.
pub mod Consistent
pub mod Difference
use podio.Base.{
  ℕ, zero, suc, ◌+◌, ◌-◌, ◌<◌, ◌≤◌, Text, codes, text_dec, ℕ_discrete, dec_lt, dec_le, ite, cond,
  Bool, true, false, List, [], ◌∷◌, ◌++◌, map, Option, none, some, Outcome, ok, throws, undefined,
  ◌>>=◌, Error, out_of_range, unchecked, length, get_elem?, take, drop, is_empty, sort,
  binary_search, text_less, to_lower, to_string,
}
use podio.IdTable.{CollectionIdTable}
use podio.Parameters.{Kind, int, float, double, string}

abbrev pub meta_tree_name : Text
meta_tree_name = codes "podio_metadata"

abbrev pub param_branch_name : Text
param_branch_name = codes "PARAMETERS"

-- `getGPKeyName`
unfoldable pub gp_key_name : Kind → Text
gp_key_name int = codes "GPIntKeys"
gp_key_name float = codes "GPFloatKeys"
gp_key_name double = codes "GPDoubleKeys"
gp_key_name string = codes "GPStringKeys"

unfoldable pub gp_value_name : Kind → Text
gp_value_name int = codes "GPIntValues"
gp_value_name float = codes "GPFloatValues"
gp_value_name double = codes "GPDoubleValues"
gp_value_name string = codes "GPStringValues"

-- `GPBranchOffsets`, counted from the last branch of a collection
pub record GpBranchOffsets : Type 0 where
  pub keys : ℕ
  pub values : ℕ

abbrev pub n_param_branches : ℕ
n_param_branches = 8

unfoldable pub gp_branch_offsets : Kind → GpBranchOffsets
gp_branch_offsets int = record { keys = 1; values = 2 }
gp_branch_offsets float = record { keys = 3; values = 4 }
gp_branch_offsets double = record { keys = 5; values = 6 }
gp_branch_offsets string = record { keys = 7; values = 8 }

unfoldable pub edm_version_branch_name : Text → Text
edm_version_branch_name edm_name = edm_name ++ codes "___Version"

unfoldable pub id_table_name : Text → Text
id_table_name category = category ++ codes "___idTable"

unfoldable pub coll_info_name : Text → Text
coll_info_name category = category ++ codes "___CollectionTypeInfo"

-- The two forms of `refBranch` and of `vecBranch`: by index in old files, else by name.
unfoldable pub ref_branch_at : Text → ℕ → Text
ref_branch_at name index = name ++ codes "#" ++ to_string index

unfoldable pub ref_branch : Text → (rel_name : Text) → Text
ref_branch name rel_name = codes "_" ++ name ++ codes "_" ++ rel_name

unfoldable pub vec_branch_at : Text → ℕ → Text
vec_branch_at name index = name ++ codes "_" ++ to_string index

unfoldable pub vec_branch : Text → (vec_name : Text) → Text
vec_branch name vec_name = codes "_" ++ name ++ codes "_" ++ vec_name

unfoldable pub subset_branch : Text → Text
subset_branch name = name ++ codes "_objIdx"

unfoldable pub storage_type_name : (data_type_name : Text) → Text
storage_type_name data_type_name = codes "std::vector<" ++ data_type_name ++ codes ">"

pub record CollectionWriteInfo : Type 0 where
  pub collection_id : ℕ
  pub data_type : Text
  pub is_subset : Bool
  pub schema_version : ℕ
  pub name : Text
  pub storage_type : Text

-- The loop of `reconstructCollectionInfo` over the positions of the table: without its last five
-- characters and its first seven the class of the branch of a name is that of the collection.
-- Names without a branch are skipped with a message.
unfoldable pub collection_class : Text → Outcome Text
collection_class buffer_class =
    let data_class = take (length buffer_class - 5) buffer_class in
    ite (dec_lt (length buffer_class) 5) undefined (
      ite (dec_lt (length data_class) 7) (throws out_of_range)
        (ok (drop 7 data_class ++ codes "Collection")))

unfoldable pub reconstruct_from :
    (class_of_branch : Text → Option Text)
    → (names : List Text) → (ids : List ℕ) → Outcome (List CollectionWriteInfo)
unfolding collection_class
reconstruct_from class_of_branch [] ids = ok []
reconstruct_from class_of_branch (n ∷ ns) [] = undefined
reconstruct_from class_of_branch (n ∷ ns) (id ∷ ids) = elim (class_of_branch n) [
  | none ↦ reconstruct_from class_of_branch ns ids
  | some buffer_class ↦ do
    coll_class ← collection_class buffer_class
    rest ← reconstruct_from class_of_branch ns ids
    ok (
        record {
          collection_id = id;
          data_type = coll_class;
          is_subset = false;
          schema_version = 0;
          name = [];
          storage_type = [];
        }
        ∷ rest)
]

unfoldable pub reconstruct_collection_info :
    (class_of_branch : Text → Option Text) → CollectionIdTable → Outcome (List CollectionWriteInfo)
unfolding reconstruct_from
reconstruct_collection_info class_of_branch t =
    reconstruct_from class_of_branch t.names t.collection_ids

-- `std::lexicographical_compare` of the lower case characters
unfoldable pub less_ignoring_case : Text → Text → Bool
less_ignoring_case [] [] = false
less_ignoring_case [] (y ∷ ys) = true
less_ignoring_case (x ∷ xs) [] = false
less_ignoring_case (x ∷ xs) (y ∷ ys) =
    ite (dec_lt (to_lower x) (to_lower y)) true
      (ite (dec_lt (to_lower y) (to_lower x)) false (less_ignoring_case xs ys))

-- `utils::sortAlphabeticaly` (include/podio/utilities/MiscHelpers.h)
unfoldable pub sort_alphabetically : List Text → List Text
sort_alphabetically strings = sort less_ignoring_case strings

unfoldable pub all_found : (sorted_coll_names : List Text) → (candidates : List Text) → Bool
all_found sorted_coll_names [] = true
all_found sorted_coll_names (n ∷ ns) =
    cond (binary_search less_ignoring_case sorted_coll_names n) (all_found sorted_coll_names ns)
      false

abbrev pub names_of : List CollectionWriteInfo → List Text
names_of = map (λ info. info.name)

unfoldable pub check_consistent_colls : List CollectionWriteInfo → (candidates : List Text) → Bool
unfolding all_found
check_consistent_colls coll_info candidates =
    ite (ℕ_discrete (length coll_info) (length candidates))
      (all_found (sort less_ignoring_case (names_of coll_info)) candidates) false

-- `std::set_difference` of two sorted ranges, by rounds enough for both
unfoldable pub set_difference_in : (fuel : ℕ) → List Text → List Text → List Text
set_difference_in zero xs ys = []
set_difference_in (suc fuel) [] ys = []
set_difference_in (suc fuel) (x ∷ xs) [] = x ∷ xs
set_difference_in (suc fuel) (x ∷ xs) (y ∷ ys) =
    let emit = x ∷ set_difference_in fuel xs (y ∷ ys) in
    let skip_right = set_difference_in fuel (x ∷ xs) ys in
    let skip_both = set_difference_in fuel xs ys in
    cond (text_less x y) emit (cond (text_less y x) skip_right skip_both)

unfoldable pub set_difference : List Text → List Text → List Text
unfolding set_difference_in
set_difference xs ys = set_difference_in (suc (length xs + length ys)) xs ys

-- `getInconsistentColls`: the names of the first vector only, and those of the second only
unfoldable pub get_inconsistent_colls : List Text → List Text → List Text × List Text
unfolding set_difference
get_inconsistent_colls existing candidates = (
  set_difference (sort text_less existing) (sort text_less candidates),
  set_difference (sort text_less candidates) (sort text_less existing),
)

-- The names, each behind the separator that the one before leaves
unfoldable pub joined : (sep : Text) → List Text → Text
joined sep [] = []
joined sep (n ∷ ns) = sep ++ n ++ joined (codes ",") ns

unfoldable pub get_inconsistent_colls_msg : List Text → List Text → Text
unfolding get_inconsistent_colls joined
get_inconsistent_colls_msg existing candidates =
    let (only_existing, only_candidates) = get_inconsistent_colls existing candidates in
    let sep = cond (is_empty only_existing) [] (codes ",") in
    let missing =
      cond (is_empty only_existing) []
        (codes "missing: [" ++ joined [] only_existing ++ codes "]") in
    let superfluous =
      cond (is_empty only_candidates) []
        (sep ++ codes " superfluous: [" ++ joined [] only_candidates ++ codes "]") in
    missing ++ superfluous

-- `makeCollIdTable`
unfoldable pub make_coll_id_table : List CollectionWriteInfo → CollectionIdTable
make_coll_id_table coll_info = record {
  collection_ids = map (λ info. info.collection_id) coll_info;
  names = names_of coll_info;
}
