-- ===== src/Base/OrderedMap.antt =====
-- `std::map` as an association list in the order of its keys.
use Prim.Native.Nat.{Ordering}
use mathlib.Core.Path.{◌≡◌, refl, ◌∙◌, sym}
use mathlib.Core.Logic.{◌≢◌}
use mathlib.Core.List.{List, [], ◌∷◌, ◌++◌, append_assoc, append-nil}
use mathlib.Core.Option.{Option, none, some}
use native.Mathlib.Omega.{arith}

-- A strict total order of the keys, by its three-way comparison.
pub record KeyOrder (K : Type 0) : Type 0 where
  pub cmp : K → K → Ordering
  pub cmp_refl : (a : K) → cmp a a ≡ Ordering.eq
  pub cmp_eq : (a b : K) → cmp a b ≡ Ordering.eq → a ≡ b
  pub cmp_flip : (a b : K) → cmp a b ≡ Ordering.gt → cmp b a ≡ Ordering.lt
  pub cmp_trans :
      (a b c : K) → cmp a b ≡ Ordering.lt → cmp b c ≡ Ordering.lt → cmp a c ≡ Ordering.lt

module _ {K : Type 0} (o : KeyOrder K) where
  module _ {V : Type 0} where
    unfoldable pub map_find : K → List (K × V) → Option V
    map_find k [] = none
    map_find k ((j, v) ∷ m) = elim (o.cmp j k) [
      | Ordering.lt ↦ map_find k m
      | Ordering.eq ↦ some v
      | Ordering.gt ↦ none
    ]

    -- `insert_or_assign`
    unfoldable pub map_assign : K → V → List (K × V) → List (K × V)
    map_assign k v [] = (k, v) ∷ []
    map_assign k v ((j, w) ∷ m) = elim (o.cmp j k) [
      | Ordering.lt ↦ (j, w) ∷ map_assign k v m
      | Ordering.eq ↦ (j, v) ∷ m
      | Ordering.gt ↦ (k, v) ∷ (j, w) ∷ m
    ]

    -- `emplace`: an entry that is there stays.
    unfoldable pub map_emplace : K → V → List (K × V) → List (K × V)
    map_emplace k v [] = (k, v) ∷ []
    map_emplace k v ((j, w) ∷ m) = elim (o.cmp j k) [
      | Ordering.lt ↦ (j, w) ∷ map_emplace k v m
      | Ordering.eq ↦ (j, w) ∷ m
      | Ordering.gt ↦ (k, v) ∷ (j, w) ∷ m
    ]

    abbrev pub Above : K → List (K × V) → Type 0
    Above k [] = Unit
    Above k ((j, w) ∷ m) = (o.cmp k j ≡ Ordering.lt) × Above k m

    -- The keys increase.
    abbrev pub Ordered : List (K × V) → Type 0
    Ordered [] = Unit
    Ordered ((j, w) ∷ m) = Above j m × Ordered m

    Above-trans : (j k : K) (m : List (K × V)) → o.cmp j k ≡ Ordering.lt → Above k m → Above j m
    Above-trans j k [] e a = tt
    Above-trans j k ((i, w) ∷ m) e a = (o.cmp_trans j k i e a.0, Above-trans j k m e a.1)

    map_find-Above : (k : K) (m : List (K × V)) → Above k m → map_find k m ≡ none
    unfolding map_find
    map_find-Above k [] a = refl
    map_find-Above k ((j, w) ∷ m) a = ground (arith, o.cmp_refl k, o.cmp_trans k j k, o.cmp_eq j k)

    pub map_find-map_assign_self :
        (k : K) (v : V) (m : List (K × V)) → map_find k (map_assign k v m) ≡ some v
    unfolding map_find map_assign
    map_find-map_assign_self k v [] = ground (arith, o.cmp_refl k)
    map_find-map_assign_self k v ((j, w) ∷ m) =
        ground (arith, o.cmp_refl k, map_find-map_assign_self k v m)

    pub map_find-map_assign_ne :
        (k q : K) (v : V) (m : List (K × V))
        → Ordered m
        → k ≢ q
        → map_find q (map_assign k v m) ≡ map_find q m
    unfolding map_find map_assign
    map_find-map_assign_ne k q v [] s h = ground (arith, o.cmp_eq k q)
    map_find-map_assign_ne k q v ((j, w) ∷ m) s h = ground (
      arith,
      o.cmp_refl q,
      o.cmp_eq k q,
      o.cmp_eq j q,
      o.cmp_eq j k,
      o.cmp_flip k q,
      o.cmp_flip j k,
      o.cmp_trans q k j,
      o.cmp_trans q j q,
      map_find-map_assign_ne k q v m s.1,
    )

    Above-map_assign :
        (i k : K) (v : V) (m : List (K × V))
        → o.cmp i k ≡ Ordering.lt
        → Above i m
        → Above i (map_assign k v m)
    unfolding map_assign
    Above-map_assign i k v [] e a = (e, tt)
    Above-map_assign i k v ((j, w) ∷ m) e a = ground (arith, Above-map_assign i k v m)

    pub map_assign-Ordered :
        (k : K) (v : V) (m : List (K × V)) → Ordered m → Ordered (map_assign k v m)
    unfolding map_assign
    map_assign-Ordered k v [] s = (tt, tt)
    map_assign-Ordered k v ((j, w) ∷ m) s = ground (
      arith,
      Above-map_assign j k v m,
      o.cmp_flip j k,
      o.cmp_eq j k,
      Above-trans k j m,
      map_assign-Ordered k v m s.1,
    )

    Above-map_emplace :
        (i k : K) (v : V) (m : List (K × V))
        → o.cmp i k ≡ Ordering.lt
        → Above i m
        → Above i (map_emplace k v m)
    unfolding map_emplace
    Above-map_emplace i k v [] e a = (e, tt)
    Above-map_emplace i k v ((j, w) ∷ m) e a = ground (arith, Above-map_emplace i k v m)

    pub map_emplace-Ordered :
        (k : K) (v : V) (m : List (K × V)) → Ordered m → Ordered (map_emplace k v m)
    unfolding map_emplace
    map_emplace-Ordered k v [] s = (tt, tt)
    map_emplace-Ordered k v ((j, w) ∷ m) s = ground (
      arith,
      Above-map_emplace j k v m,
      o.cmp_flip j k,
      o.cmp_eq j k,
      Above-trans k j m,
      map_emplace-Ordered k v m s.1,
    )

    -- An entry that is there stays.
    pub map_emplace_known :
        (k : K) (v w : V) (m : List (K × V)) → map_find k m ≡ some w → map_emplace k v m ≡ m
    unfolding map_find map_emplace
    map_emplace_known k v w [] e = cc
    map_emplace_known k v w ((j, u) ∷ m) e = ground (arith, map_emplace_known k v w m)

    pub map_emplace_new :
        (k : K) (v : V) (m : List (K × V))
        → map_find k m ≡ none
        → map_emplace k v m ≡ map_assign k v m
    unfolding map_find map_emplace map_assign
    map_emplace_new k v [] e = refl
    map_emplace_new k v ((j, u) ∷ m) e = ground (arith, map_emplace_new k v m)

    -- Every key of the first list stands before `k`.
    abbrev Before : List (K × V) → K → Type 0
    Before [] k = Unit
    Before ((j, w) ∷ m) k = (o.cmp j k ≡ Ordering.lt) × Before m k

    map_emplace_last :
        (k : K) (v : V) (m : List (K × V)) → Before m k → map_emplace k v m ≡ m ++ (k, v) ∷ []
    unfolding map_emplace
    map_emplace_last k v [] b = refl
    map_emplace_last k v ((j, w) ∷ m) b = ground (arith, map_emplace_last k v m)

    Ordered-split :
        (a : List (K × V)) (k : K) (v : V) (b : List (K × V))
        → Ordered (a ++ (k, v) ∷ b)
        → Before a k
    Ordered-split [] k v b s = tt
    Ordered-split ((j, w) ∷ a) k v b s = (above_head a s.0, Ordered-split a k v b s.1)
      where
        above_head : (a : List (K × V)) → Above j (a ++ (k, v) ∷ b) → o.cmp j k ≡ Ordering.lt
        above_head [] h = h.0
        above_head (e ∷ a) h = above_head a h.1

    -- Entries in order, emplaced one by one, come back in order.
    unfoldable pub map_emplace_all : List (K × V) → List (K × V) → List (K × V)
    map_emplace_all [] acc = acc
    map_emplace_all ((k, v) ∷ m) acc = map_emplace_all m (map_emplace k v acc)

    pub map_emplace_all-append :
        (m acc : List (K × V)) → Ordered (acc ++ m) → map_emplace_all m acc ≡ acc ++ m
    unfolding map_emplace_all
    map_emplace_all-append [] acc s = sym (append-nil acc)
    map_emplace_all-append ((k, v) ∷ m) acc s =
        let e : map_emplace k v acc ≡ acc ++ (k, v) ∷ [] =
          map_emplace_last k v acc (Ordered-split acc k v m s) in
        let a : (acc ++ (k, v) ∷ []) ++ m ≡ acc ++ (k, v) ∷ m = append_assoc acc ((k, v) ∷ []) m in
        rw e (map_emplace_all-append m (acc ++ (k, v) ∷ []) (rw a s) ∙ a)
