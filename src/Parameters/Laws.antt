-- ===== src/Parameters/Laws.antt =====
-- What can be read back from the parameters.
use podio.Base.{
  ◌≡◌, refl, ◌≢◌, sym, ap, Text, text_order, map_assign, map_emplace, Ordered, map_emplace_all,
  map_find-map_assign_self, map_find-map_assign_ne, map_assign-Ordered, map_emplace_all-append,
  List, [], ◌∷◌, map, some, ok, length, keys,
}
use podio.Parameters.{
  Kind, int, float, double, string, Value, ParamMap, GenericParameters, first, count_of, load_loop,
  get_map, put_map, get_vector, get_value, set_vector, set_value, get_n, get_keys_and_values,
  load_from,
}

-- The keys of all four maps increase, as `std::map` keeps them.
pub record IsSorted {I F D : Type 0} (p : GenericParameters I F D) : Type 0 where
  pub ints : Ordered text_order p.int_map
  pub floats : Ordered text_order p.float_map
  pub doubles : Ordered text_order p.double_map
  pub strings : Ordered text_order p.string_map

module _ {I F D : Type 0} where
  pub get_map-put_map_self :
      (k : Kind) (m : ParamMap (Value I F D k)) (p : GenericParameters I F D)
      → get_map k (put_map k m p) ≡ m
  unfolding get_map put_map
  get_map-put_map_self int m p = refl
  get_map-put_map_self float m p = refl
  get_map-put_map_self double m p = refl
  get_map-put_map_self string m p = refl

  pub get_map-put_map_ne :
      (k j : Kind) (m : ParamMap (Value I F D k)) (p : GenericParameters I F D)
      → j ≢ k
      → get_map j (put_map k m p) ≡ get_map j p
  unfolding get_map put_map
  get_map-put_map_ne int int m p h = absurd (h refl)
  get_map-put_map_ne int float m p h = refl
  get_map-put_map_ne int double m p h = refl
  get_map-put_map_ne int string m p h = refl
  get_map-put_map_ne float int m p h = refl
  get_map-put_map_ne float float m p h = absurd (h refl)
  get_map-put_map_ne float double m p h = refl
  get_map-put_map_ne float string m p h = refl
  get_map-put_map_ne double int m p h = refl
  get_map-put_map_ne double float m p h = refl
  get_map-put_map_ne double double m p h = absurd (h refl)
  get_map-put_map_ne double string m p h = refl
  get_map-put_map_ne string int m p h = refl
  get_map-put_map_ne string float m p h = refl
  get_map-put_map_ne string double m p h = refl
  get_map-put_map_ne string string m p h = absurd (h refl)

  -- A sorted map in one place keeps all maps sorted.
  pub put_map-IsSorted :
      (k : Kind) (m : ParamMap (Value I F D k)) (p : GenericParameters I F D)
      → Ordered text_order m
      → IsSorted p
      → IsSorted (put_map k m p)
  unfolding get_map put_map
  put_map-IsSorted int m p o s = record {
    ints = o;
    floats = s.floats;
    doubles = s.doubles;
    strings = s.strings;
  }
  put_map-IsSorted float m p o s = record {
    ints = s.ints;
    floats = o;
    doubles = s.doubles;
    strings = s.strings;
  }
  put_map-IsSorted double m p o s = record {
    ints = s.ints;
    floats = s.floats;
    doubles = o;
    strings = s.strings;
  }
  put_map-IsSorted string m p o s = record {
    ints = s.ints;
    floats = s.floats;
    doubles = s.doubles;
    strings = o;
  }

  pub IsSorted-get_map :
      (k : Kind) (p : GenericParameters I F D) → IsSorted p → Ordered text_order (get_map k p)
  unfolding get_map
  IsSorted-get_map int p s = s.ints
  IsSorted-get_map float p s = s.floats
  IsSorted-get_map double p s = s.doubles
  IsSorted-get_map string p s = s.strings

  module _ (k : Kind) (key : Text) (p : GenericParameters I F D) where
    -- After `set` of a vector under a name and a type, the vector is read back under both, its size
    -- too, and its first value as the single value, or none if the vector is empty. Every other
    -- name, and every name of another type, keeps its vector, and the maps stay sorted.
    pub set_vector_lem :
        (v : List (Value I F D k))
        → IsSorted p
        → (get_vector k key (set_vector k key v p) ≡ some v)
          × (get_n k key (set_vector k key v p) ≡ length v)
          × (get_value k key (set_vector k key v p) ≡ first (some v))
          × ((q : Text) → q ≢ key → get_vector k q (set_vector k key v p) ≡ get_vector k q p)
          × ((j : Kind)
              → j ≢ k
              → (q : Text) → get_vector j q (set_vector k key v p) ≡ get_vector j q p)
          × IsSorted (set_vector k key v p)
    unfolding get_vector get_value get_n set_vector
    set_vector_lem v s =
        let m = map_assign text_order key v (get_map k p) in
        let stored = get_map-put_map_self k m p in
        let found = map_find-map_assign_self text_order key v (get_map k p) in
        let sorted = IsSorted-get_map k p s in
        (
          rw (stored, found),
          rw (stored, found, count_of),
          rw (stored, found),
          λ q h.
              rw stored
                (map_find-map_assign_ne text_order key q v (get_map k p) sorted (λ e. h (sym e))),
          λ j h q. rw (get_map-put_map_ne k j m p h),
          put_map-IsSorted k m p (map_assign-Ordered text_order key v (get_map k p) sorted) s,
        )

    -- After `set` of one value it is read back, alone in its vector; the rest is as for a vector.
    pub set_value_lem :
        (v : Value I F D k)
        → IsSorted p
        → (get_value k key (set_value k key v p) ≡ some v)
          × (get_vector k key (set_value k key v p) ≡ some (v ∷ []))
          × ((q : Text) → q ≢ key → get_vector k q (set_value k key v p) ≡ get_vector k q p)
          × ((j : Kind)
              → j ≢ k
              → (q : Text) → get_vector j q (set_value k key v p) ≡ get_vector j q p)
          × IsSorted (set_value k key v p)
    unfolding set_value set_vector first
    set_value_lem v s =
        let (vector, n, value, others, kinds, sorted) = set_vector_lem (v ∷ []) s in
        (value, vector, others, kinds, sorted)

load_loop-map_emplace_all :
    {T : Type 0} (m acc : ParamMap T)
    → load_loop (keys m) (map (λ e. e.1) m) acc ≡ ok (map_emplace_all text_order m acc)
unfolding load_loop map_emplace_all
load_loop-map_emplace_all [] acc = refl
load_loop-map_emplace_all ((k, v) ∷ m) acc =
    load_loop-map_emplace_all m (map_emplace text_order k v acc)

module _ {I F D : Type 0} where
  -- Keys and values that were taken from a sorted map are loaded into an empty map without a fault,
  -- and give the same map.
  pub load_from-get_keys_and_values :
      (k : Kind) (p q : GenericParameters I F D)
      → IsSorted p
      → get_map k q ≡ []
      → load_from k (get_keys_and_values k p).0 (get_keys_and_values k p).1 q
        ≡ ok (put_map k (get_map k p) q)
  unfolding load_from get_keys_and_values
  load_from-get_keys_and_values k p q s e =
      rw (e, load_loop-map_emplace_all (get_map k p) [])
        (ap (λ m. ok (put_map k m q))
          (map_emplace_all-append text_order (get_map k p) [] (IsSorted-get_map k p s)))
