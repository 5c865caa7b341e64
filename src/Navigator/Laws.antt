-- ===== src/Navigator/Laws.antt =====
-- The navigator finds the links of an object in their order.
use Prim.Native.Nat.{Ordering}
use podio.Base.{KeyOrder, List, [], ◌∷◌, ◌++◌, append_assoc, append-nil, ◌≡◌, sym, ap, ◌∙◌, arith}
use podio.Navigator.{
  LinkNavigator, emplace_multi, equal_range, add_links, make_navigator, get_linked_from,
  get_linked_to,
}

module _ {K : Type 0} (o : KeyOrder K) where
  cmp_back : (a b : K) → o.cmp a b ≡ Ordering.lt → o.cmp b a ≡ Ordering.gt
  cmp_back a b e = ground (arith, o.cmp_refl a, o.cmp_eq b a, o.cmp_trans a b a)

  module _ {V : Type 0} where
    -- The value, if its key is the one that is asked for.
    abbrev pub picked : K → V → K → List V
    picked k v q = elim (o.cmp k q) [ Ordering.lt ↦ [] | Ordering.eq ↦ v ∷ [] | Ordering.gt ↦ [] ]

    equal_range-emplace_multi :
        (k : K) (v : V) (q : K) (m : List (K × V))
        → equal_range o q (emplace_multi o k v m) ≡ equal_range o q m ++ picked k v q
    unfolding equal_range emplace_multi
    equal_range-emplace_multi k v q [] = ground arith
    equal_range-emplace_multi k v q ((j, w) ∷ m) = ground (
      arith,
      equal_range-emplace_multi k v q m,
      append-nil (equal_range o q m),
      append-nil (w ∷ equal_range o q m),
      cmp_back k j,
      cmp_back q k,
      o.cmp_eq k q,
      o.cmp_flip k q,
      o.cmp_eq k j,
      o.cmp_flip k j,
      o.cmp_flip j q,
      o.cmp_trans q k j,
      o.cmp_trans q j k,
      cmp_back q j,
    )

module _ {F T W : Type 0} (from_order : KeyOrder F) (to_order : KeyOrder T) where
  -- The ends and weights of the links, in their order, whose other end compares equal to the object.
  abbrev pub links_from : F → List (F × T × W) → List (T × W)
  links_from q [] = []
  links_from q ((from, to, weight) ∷ links) =
      picked from_order from (to, weight) q ++ links_from q links

  abbrev pub links_to : T → List (F × T × W) → List (F × W)
  links_to q [] = []
  links_to q ((from, to, weight) ∷ links) = picked to_order to (from, weight) q ++ links_to q links

  from_to-add_links :
      (links : List (F × T × W)) (n : LinkNavigator F T W) (q : F)
      → equal_range from_order q (add_links from_order to_order links n).from_to
        ≡ equal_range from_order q n.from_to ++ links_from q links
  unfolding add_links
  from_to-add_links [] n q = sym (append-nil (equal_range from_order q n.from_to))
  from_to-add_links ((from, to, weight) ∷ links) n q =
      from_to-add_links links _ q
      ∙ ap (λ x. x ++ links_from q links)
          (equal_range-emplace_multi from_order from (to, weight) q n.from_to)
      ∙ append_assoc (equal_range from_order q n.from_to) (picked from_order from (to, weight) q)
          (links_from q links)

  to_from-add_links :
      (links : List (F × T × W)) (n : LinkNavigator F T W) (q : T)
      → equal_range to_order q (add_links from_order to_order links n).to_from
        ≡ equal_range to_order q n.to_from ++ links_to q links
  unfolding add_links
  to_from-add_links [] n q = sym (append-nil (equal_range to_order q n.to_from))
  to_from-add_links ((from, to, weight) ∷ links) n q =
      to_from-add_links links _ q
      ∙ ap (λ x. x ++ links_to q links)
          (equal_range-emplace_multi to_order to (from, weight) q n.to_from)
      ∙ append_assoc (equal_range to_order q n.to_from) (picked to_order to (from, weight) q)
          (links_to q links)

  -- The navigator of some links gives for each object, on either side, the other ends and the
  -- weights of exactly the links that have the object, in the order of the links. The documentation
  -- does not promise an order, but objects with equal keys stay in the order of their insertion.
  pub make_navigator_lem :
      (links : List (F × T × W)) (a : F) (b : T)
      → (get_linked_to from_order to_order a (make_navigator from_order to_order links)
          ≡ links_from a links)
        × (get_linked_from from_order to_order b (make_navigator from_order to_order links)
            ≡ links_to b links)
  unfolding make_navigator get_linked_to get_linked_from equal_range
  make_navigator_lem links a b = (
    from_to-add_links links (record { from_to = []; to_from = [] }) a,
    to_from-add_links links (record { from_to = []; to_from = [] }) b,
  )
