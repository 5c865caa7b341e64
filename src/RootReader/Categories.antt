-- ===== src/RootReader/Categories.antt =====
-- The categories of a file (`getAvailableCategories`, `ROOTReader::openFiles` in src/ROOTReader.cc).
use podio.Base.{
  Text, text_dec, ite, cond, Bool, List, [], ◌∷◌, Option, none, some, Outcome, ok, throws, ◌>>◌,
  runtime_error, sort, text_less, emplace,
}
use podio.Registry.{has_prefix}
use podio.IdTable.{empty_table}
use podio.RootUtils.{coll_info_name, edm_version_branch_name}
use podio.RootReader.{CategoryInfo}

-- `name.substr(0, name.find(pattern))`, if the pattern is found
unfoldable pub before : (pattern : Text) → Text → Option Text
before pattern [] = cond (has_prefix pattern []) (some []) none
before pattern (c ∷ name) =
    let rest = before pattern name in
    cond (has_prefix pattern (c ∷ name)) (some [])
      (elim rest [ none ↦ none | some category ↦ some (c ∷ category) ])

-- The loop over the branches of the metadata tree
unfoldable pub category_names : (branch_names : List Text) → List Text
unfolding before coll_info_name
category_names [] = []
category_names (n ∷ ns) = elim (before (coll_info_name []) n) [
  | none ↦ category_names ns
  | some category ↦ category ∷ category_names ns
]

-- `std::unique`: of equal neighbours the first stays.
unfoldable pub unique_from : Text → List Text → List Text
unique_from x [] = x ∷ []
unique_from x (y ∷ ys) =
    let same = unique_from x ys in let other = x ∷ unique_from y ys in ite (text_dec x y) same other

unfoldable pub unique : List Text → List Text
unfolding unique_from
unique [] = []
unique (x ∷ xs) = unique_from x xs

unfoldable pub get_available_categories : (branch_names : List Text) → List Text
unfolding category_names unique
get_available_categories branch_names = unique (sort text_less (category_names branch_names))

-- The loop of `openFiles` over the files: each must have a readable metadata tree.
unfoldable pub check_files : (readable : Text → Bool) → List Text → Outcome (Unit {0})
check_files readable [] = ok tt
check_files readable (f ∷ fs) = cond (readable f) (check_files readable fs) (throws runtime_error)

module _ {Ch Br : Type 0} (make_chain : (category : Text) → (filenames : List Text) → Ch) where
  -- Each category gets a chain of all files; one that is there stays.
  unfoldable pub add_categories :
      (filenames : List Text)
      → (available : List Text) → List (Text × CategoryInfo Ch Br)
      → List (Text × CategoryInfo Ch Br)
  add_categories filenames [] categories = categories
  add_categories filenames (c ∷ cs) categories = add_categories filenames cs (
      emplace text_dec c
        (record {
          chain = make_chain c filenames;
          entry = 0;
          stored_classes = [];
          branches = [];
          table = empty_table;
        })
        categories)

  -- `openFiles`: the available categories, and the categories with their chains.
  unfoldable pub open_files :
      (readable : Text → Bool)
      → (branch_names : List Text) → (filenames : List Text) → List (Text × CategoryInfo Ch Br)
      → Outcome (List Text × List (Text × CategoryInfo Ch Br))
  unfolding check_files add_categories get_available_categories
  open_files readable branch_names filenames categories = do
    check_files readable filenames
    let available = get_available_categories branch_names
    ok (available, add_categories filenames available categories)

-- The versions of the datamodels that have a branch in the metadata
unfoldable pub edm_versions :
    {V : Type 0}
    → (version_in : Text → Option V) → (datamodel_defs : List (Text × Text)) → List (Text × V)
edm_versions version_in [] = []
edm_versions version_in ((n, d) ∷ defs) = elim (version_in (edm_version_branch_name n)) [
  | none ↦ edm_versions version_in defs
  | some v ↦ (n, v) ∷ edm_versions version_in defs
]
