-- ===== src/RootUtils/Consistent.antt =====
-- `checkConsistentColls` (src/rootUtils.h): what the comparison of collection names comes to.
use podio.Base.{
  ◌≡◌, refl, ap, Text, ℕ_discrete, ite, cond, Bool, true, false, List, [], ◌∷◌, map, length, sort,
  text_less, text_cmp, to_lower, has_key, binary_search-sort, arith,
}
use podio.RootUtils.{
  CollectionWriteInfo, less_ignoring_case, all_found, check_consistent_colls, names_of,
}

less_ignoring_case-lower :
    (a b : Text) → less_ignoring_case a b ≡ text_less (map to_lower a) (map to_lower b)
unfolding less_ignoring_case text_cmp
less_ignoring_case-lower [] [] = refl
less_ignoring_case-lower [] (y ∷ ys) = refl
less_ignoring_case-lower (x ∷ xs) [] = refl
less_ignoring_case-lower (x ∷ xs) (y ∷ ys) = ground (arith, less_ignoring_case-lower xs ys)

-- Whether each of the candidates is one of the names, but for upper and lower case
unfoldable pub all_known : (names candidates : List Text) → Bool
all_known names [] = true
all_known names (n ∷ ns) =
    cond (has_key (map to_lower) (map to_lower n) names) (all_known names ns) false

all_found-sort :
    (names candidates : List Text)
    → all_found (sort less_ignoring_case names) candidates ≡ all_known names candidates
unfolding all_found all_known
all_found-sort names [] = refl
all_found-sort names (n ∷ ns) =
    rw
      (
        binary_search-sort (map to_lower) less_ignoring_case less_ignoring_case-lower names n,
        all_found-sort names ns,
      )
      refl

-- The collections are consistent exactly when there are as many candidates as stored names and each
-- candidate is a stored name but for upper and lower case. Neither list has to be sorted.
pub check_consistent_colls-all_known :
    (coll_info : List CollectionWriteInfo) (candidates : List Text)
    → check_consistent_colls coll_info candidates
      ≡ ite
          (ℕ_discrete (length coll_info) (length candidates))
          (all_known (names_of coll_info) candidates)
          false
unfolding check_consistent_colls
check_consistent_colls-all_known coll_info candidates =
    ap (λ b. ite (ℕ_discrete (length coll_info) (length candidates)) b false)
      (all_found-sort (names_of coll_info) candidates)
