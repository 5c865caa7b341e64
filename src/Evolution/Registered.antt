-- ===== src/Evolution/Registered.antt =====
-- What a registration does to the tables of the schema evolution.
use podio.Base.{
  ℕ, suc, ◌-◌, ◌^◌, ◌≤◌, ◌<◌, ◌≡◌, refl, ◌∙◌, ◌≢◌, inl, inr, Text, text_dec, List, [], ◌∷◌, ◌++◌,
  Option, none, some, ok, length, get_elem?, set, replicate, find, assign, Option-cases,
  length-append, length-set, length-replicate, get_elem?-append_left, get_elem?-snoc,
  get_elem?-set_self, get_elem?-set_ne, find-assign_self, find-assign_ne, arith,
}
use podio.Evolution.{
  MapIndex, SchemaEvolution, EvolutionFunc, no_evolution_available, version_index, entry_of,
  Priority, with_slot, resize, put_func, register_evolution_func,
}

module _ {B : Type 0} where
  pub record IsValid (s : SchemaEvolution B) : Type 0 where
    pub few : length s.evolution_funcs ≤ no_evolution_available
    pub indexed :
        (t : Text) (e : MapIndex)
        → find text_dec t s.version_map_indices ≡ some e
        → e.index < length s.evolution_funcs
    pub distinct :
        (t u : Text) (e d : MapIndex)
        → t ≢ u
        → find text_dec t s.version_map_indices ≡ some e
        → find text_dec u s.version_map_indices ≡ some d
        → e.index ≢ d.index

  -- The current version of a type and its evolution functions.
  unfoldable pub funcs_of : SchemaEvolution B → Text → Option (ℕ × List (Option (EvolutionFunc B)))
  funcs_of s t = elim (find text_dec t s.version_map_indices) [
    | none ↦ none
    | some e ↦ elim (get_elem? s.evolution_funcs e.index) [
      | none ↦ none
      | some fs ↦ some (e.current_version, fs)
    ]
  ]

  module _ (s : SchemaEvolution B) (t : Text) (from current : ℕ) (f : EvolutionFunc B) where
    -- The functions of a type after the registration.
    abbrev pub updated : List (Option (EvolutionFunc B)) → List (Option (EvolutionFunc B))
    updated fs = set (resize fs current) (from - 1) (some f)

    abbrev pub fresh_entry : MapIndex
    fresh_entry = record { current_version = current; index = length s.evolution_funcs }

    abbrev pub added : SchemaEvolution B
    added = record {
      version_map_indices = assign text_dec t fresh_entry s.version_map_indices;
      evolution_funcs = set (s.evolution_funcs ++ [] ∷ []) (length s.evolution_funcs) (updated []);
    }

    abbrev pub changed : MapIndex → List (Option (EvolutionFunc B)) → SchemaEvolution B
    changed e fs = record s { evolution_funcs = set s.evolution_funcs e.index (updated fs) }

    pub length-resize :
        (fs : List (Option (EvolutionFunc B))) → current ≤ length (resize fs current)
    unfolding resize
    length-resize fs = ground (
      arith,
      length-append fs (replicate (current - length fs) none),
      length-replicate {A = Option (EvolutionFunc B)} (current - length fs) none,
    )

    put_func-updated :
        (fs : List (Option (EvolutionFunc B)))
        → 0 < from
        → from ≤ current
        → current < 2 ^ 32
        → put_func (resize fs current) from f ≡ ok (updated fs)
    unfolding put_func
    put_func-updated fs h k l =
        let e : version_index from ≡ from - 1 = omega arith in
        let p : from - 1 < length (resize fs current) = omega (arith, length-resize fs) in
        rw e (ground arith)

    with_slot_new :
        find text_dec t s.version_map_indices ≡ none
        → with_slot s t (entry_of s t current) ≡ (
          record { current_version = current; index = length s.evolution_funcs },
          record {
            version_map_indices = added.version_map_indices;
            evolution_funcs = s.evolution_funcs ++ [] ∷ [];
          },
        )
    unfolding with_slot entry_of
    with_slot_new e = ground arith

    with_slot_known :
        {e : MapIndex}
        → find text_dec t s.version_map_indices ≡ some e
        → e.index ≢ no_evolution_available
        → with_slot s t (entry_of s t current) ≡ (e, s)
    unfolding with_slot entry_of
    with_slot_known p q = ground arith

    pub register_new :
        (priority : Priority)
        → 0 < from
        → from ≤ current
        → current < 2 ^ 32
        → find text_dec t s.version_map_indices ≡ none
        → register_evolution_func s t from current f priority ≡ ok added
    unfolding register_evolution_func
    register_new priority h k l e = rw (
      with_slot_new e,
      get_elem?-snoc s.evolution_funcs [] (length s.evolution_funcs) refl,
      put_func-updated [] h k l,
    )

    pub register_known :
        {e : MapIndex} {fs : List (Option (EvolutionFunc B))} (priority : Priority)
        → 0 < from
        → from ≤ current
        → current < 2 ^ 32
        → find text_dec t s.version_map_indices ≡ some e
        → e.index ≢ no_evolution_available
        → get_elem? s.evolution_funcs e.index ≡ some fs
        → register_evolution_func s t from current f priority ≡ ok (changed e fs)
    unfolding register_evolution_func
    register_known {e} {fs} priority h k l p q r =
        rw (with_slot_known p q, r, put_func-updated fs h k l)

    added-indexed :
        IsValid s
        → length added.evolution_funcs ≡ suc (length s.evolution_funcs)
        → (u : Text) (e : MapIndex) → find text_dec u added.version_map_indices ≡ some e
        → e.index < length added.evolution_funcs
    added-indexed v n u e q = grind (
      arith,
      find-assign_self text_dec t fresh_entry s.version_map_indices,
      find-assign_ne text_dec t u fresh_entry s.version_map_indices,
      v.indexed u e,
      text_dec t u,
    )

    added-distinct :
        IsValid s
        → length added.evolution_funcs ≡ suc (length s.evolution_funcs)
        → (u w : Text) (e d : MapIndex) → u ≢ w
        → find text_dec u added.version_map_indices ≡ some e
        → find text_dec w added.version_map_indices ≡ some d
        → e.index ≢ d.index
    added-distinct v n u w e d ne q r = grind (
      arith,
      find-assign_self text_dec t fresh_entry s.version_map_indices,
      find-assign_ne text_dec t u fresh_entry s.version_map_indices,
      find-assign_ne text_dec t w fresh_entry s.version_map_indices,
      v.indexed u e,
      v.indexed w d,
      v.distinct u w e d,
      text_dec t u,
      text_dec t w,
    )

    pub added-IsValid :
        IsValid s
        → find text_dec t s.version_map_indices ≡ none
        → length s.evolution_funcs < no_evolution_available
        → IsValid added
    added-IsValid v p h =
        let n : length added.evolution_funcs ≡ suc (length s.evolution_funcs) =
          length-set (s.evolution_funcs ++ [] ∷ []) (length s.evolution_funcs) (updated [])
          ∙ omega (arith, length-append s.evolution_funcs ([] ∷ [])) in
        record {
          few = omega (arith, n);
          indexed = added-indexed v n;
          distinct = added-distinct v n;
        }

    pub changed-IsValid :
        (e : MapIndex) (fs : List (Option (EvolutionFunc B))) → IsValid s → IsValid (changed e fs)
    changed-IsValid e fs v =
        let n = length-set s.evolution_funcs e.index (updated fs) in
        record {
          few = omega (arith, n, v.few);
          indexed = λ u d q. omega (arith, n, v.indexed u d q);
          distinct = v.distinct;
        }

    pub funcs_of-added_self : funcs_of added t ≡ some (current, updated [])
    unfolding funcs_of
    funcs_of-added_self = rw (
      find-assign_self text_dec t fresh_entry s.version_map_indices,
      funcs_of,
      get_elem?-set_self (s.evolution_funcs ++ [] ∷ []) (length s.evolution_funcs) (updated [])
          (omega (arith, length-append s.evolution_funcs ([] ∷ []))),
    )

    pub funcs_of-added_ne : (u : Text) → IsValid s → t ≢ u → funcs_of added u ≡ funcs_of s u
    unfolding funcs_of
    funcs_of-added_ne u v ne = elim (Option-cases (find text_dec u s.version_map_indices)) [
      | inl q ↦ rw (find-assign_ne text_dec t u fresh_entry s.version_map_indices ne, q, funcs_of)
      | inr (d, q) ↦
          let p = v.indexed u d q in
          rw (
            find-assign_ne text_dec t u fresh_entry s.version_map_indices ne,
            q,
            funcs_of,
            get_elem?-set_ne (s.evolution_funcs ++ [] ∷ []) (length s.evolution_funcs) d.index
                (updated []) (λ e. absurd (omega arith)),
            get_elem?-append_left s.evolution_funcs ([] ∷ []) d.index p,
          )
    ]

    pub funcs_of-changed_self :
        (e : MapIndex) (fs : List (Option (EvolutionFunc B)))
        → IsValid s
        → find text_dec t s.version_map_indices ≡ some e
        → funcs_of (changed e fs) t ≡ some (e.current_version, updated fs)
    unfolding funcs_of
    funcs_of-changed_self e fs v p =
        rw
          (p, funcs_of, get_elem?-set_self s.evolution_funcs e.index (updated fs) (v.indexed t e p))

    pub funcs_of-changed_ne :
        (e : MapIndex) (fs : List (Option (EvolutionFunc B))) (u : Text)
        → IsValid s
        → find text_dec t s.version_map_indices ≡ some e
        → t ≢ u
        → funcs_of (changed e fs) u ≡ funcs_of s u
    unfolding funcs_of
    funcs_of-changed_ne e fs u v p ne =
        elim (Option-cases (find text_dec u s.version_map_indices)) [
          | inl q ↦ rw (q, funcs_of)
          | inr (d, q) ↦ rw (
            q,
            funcs_of,
            get_elem?-set_ne s.evolution_funcs e.index d.index (updated fs)
                (v.distinct t u e d ne p q),
          )
        ]
