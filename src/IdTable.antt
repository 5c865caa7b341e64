-- ===== src/IdTable.antt =====
-- `CollectionIDTable` (src/CollectionIDTable.cc, include/podio/CollectionIDTable.h): the two
-- parallel vectors of IDs and names. The hash that gives a new name its ID, MurmurHash3 with seed
-- 0, is a parameter. The mutex is left out: every operation holds it from start to end.
pub mod Laws
use podio.Base.{
  ℕ, ◌<◌, Text, text_dec, ℕ_discrete, dec_lt, ite, Bool, List, [], ◌∷◌, ◌++◌, Option, none, some,
  Outcome, ok, ◌>>=◌, unchecked, length, get_elem?, index_of, is_some,
}

pub record CollectionIdTable : Type 0 where
  pub collection_ids : List ℕ
  pub names : List Text

abbrev pub empty_table : CollectionIdTable
empty_table = record { collection_ids = []; names = [] }

-- The name at the position of the ID, if the vector of names reaches that far.
unfoldable pub name : CollectionIdTable → ℕ → Option Text
name t id = get_elem? t.names (index_of ℕ_discrete id t.collection_ids)

unfoldable pub collection_id : CollectionIdTable → Text → Option ℕ
collection_id t n = get_elem? t.collection_ids (index_of text_dec n t.names)

unfoldable pub present_name : CollectionIdTable → Text → Bool
unfolding collection_id
present_name t n = is_some (collection_id t n)

unfoldable pub present_id : CollectionIdTable → ℕ → Bool
unfolding name
present_id t id = is_some (name t id)

-- The ID of a name, and the table with the name in it. A known name is read at its position
-- without a check.
unfoldable pub add : (hash : Text → ℕ) → CollectionIdTable → Text → Outcome (ℕ × CollectionIdTable)
add hash t n =
    ite (dec_lt (index_of text_dec n t.names) (length t.names))
      (do id ← unchecked (get_elem? t.collection_ids (index_of text_dec n t.names)); ok (id, t))
      (ok (
        hash n,
        record { collection_ids = t.collection_ids ++ hash n ∷ []; names = t.names ++ n ∷ [] },
      ))

-- `add` for each name in turn.
unfoldable pub add_all :
    (hash : Text → ℕ) → CollectionIdTable → List Text → Outcome CollectionIdTable
add_all hash t [] = ok t
add_all hash t (n ∷ ns) = do (_, t') ← add hash t n; add_all hash t' ns
