-- ===== src/Navigator.antt =====
-- `LinkNavigator` (include/podio/LinkNavigator.h): two multimaps, from the objects of either side of
-- the links to those of the other side with the weights. Objects are ordered by their handles.
pub mod Laws
use Prim.Native.Nat.{Ordering}
use podio.Base.{KeyOrder, List, [], ◌∷◌}

module _ {K V : Type 0} (o : KeyOrder K) where
  -- `std::multimap::emplace`: behind all entries with the same key.
  unfoldable pub emplace_multi : K → V → List (K × V) → List (K × V)
  emplace_multi k v [] = (k, v) ∷ []
  emplace_multi k v ((j, w) ∷ m) = elim (o.cmp k j) [
    | Ordering.lt ↦ (k, v) ∷ (j, w) ∷ m
    | Ordering.eq ↦ (j, w) ∷ emplace_multi k v m
    | Ordering.gt ↦ (j, w) ∷ emplace_multi k v m
  ]

  -- The values in the `equal_range` of a key, which ends before the first larger key.
  unfoldable pub equal_range : K → List (K × V) → List V
  equal_range q [] = []
  equal_range q ((j, w) ∷ m) = elim (o.cmp j q) [
    | Ordering.lt ↦ equal_range q m
    | Ordering.eq ↦ w ∷ equal_range q m
    | Ordering.gt ↦ []
  ]

pub record LinkNavigator (F T W : Type 0) : Type 0 where
  pub from_to : List (F × (T × W))
  pub to_from : List (T × (F × W))

module _ {F T W : Type 0} (from_order : KeyOrder F) (to_order : KeyOrder T) where
  -- The loop of the constructor over the links.
  unfoldable pub add_links : List (F × T × W) → LinkNavigator F T W → LinkNavigator F T W
  unfolding emplace_multi
  add_links [] n = n
  add_links ((from, to, weight) ∷ links) n = add_links links (record {
    from_to = emplace_multi from_order from (to, weight) n.from_to;
    to_from = emplace_multi to_order to (from, weight) n.to_from;
  })

  unfoldable pub make_navigator : List (F × T × W) → LinkNavigator F T W
  unfolding add_links
  make_navigator links = add_links links (record { from_to = []; to_from = [] })

  unfoldable pub get_linked_from : T → LinkNavigator F T W → List (F × W)
  unfolding equal_range
  get_linked_from object n = equal_range to_order object n.to_from

  unfoldable pub get_linked_to : F → LinkNavigator F T W → List (T × W)
  unfolding equal_range
  get_linked_to object n = equal_range from_order object n.from_to
