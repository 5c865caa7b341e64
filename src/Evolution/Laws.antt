-- ===== src/Evolution/Laws.antt =====
-- Which function evolves which buffers, after any registration.
use podio.Base.{
  ℕ, ◌-◌, ◌^◌, ◌≤◌, ◌<◌, ◌≡◌, ◌≢◌, inl, inr, Text, text_dec, ℕ_discrete, dec_lt, ite, Bool, true,
  false, List, [], Option, none, some, Outcome, ok, ◌>>=◌, length, get_elem?, set, find,
  Option-cases, length-set, get_elem?-some, get_elem?-set_self, arith,
}
use podio.Evolution.{
  Priority, MapIndex, SchemaEvolution, EvolutionFunc, no_evolution_available, version_index, resize,
  call_evolution, evolve_buffers, register_evolution_func,
}
use podio.Evolution.Registered.{
  IsValid, funcs_of, length-resize, register_new, register_known, added, changed, added-IsValid,
  changed-IsValid, funcs_of-added_self, funcs_of-added_ne, funcs_of-changed_self,
  funcs_of-changed_ne,
}

module _ {B : Type 0} where
  -- The functions that a registration finds for its type.
  abbrev pub known :
      Option (ℕ × List (Option (EvolutionFunc B))) → ℕ → ℕ × List (Option (EvolutionFunc B))
  known none current = (current, [])
  known (some (c, fs)) current = (c, fs)

  -- `evolve_buffers` in terms of what is registered for the type.
  evolve : Option (ℕ × List (Option (EvolutionFunc B))) → B → ℕ → Outcome (B × Bool)
  evolve none b v = ok (b, true)
  evolve (some (c, fs)) b v =
      ite (ℕ_discrete v c) (ok (b, false))
        (ite (dec_lt v (length fs)) (do e ← call_evolution fs b v; ok (e, false)) (ok (b, true)))

  module _ (s : SchemaEvolution B) (t : Text) where
    funcs_of-none : find text_dec t s.version_map_indices ≡ none → funcs_of s t ≡ none
    unfolding funcs_of
    funcs_of-none e = rw (e, funcs_of)

    funcs_of-some :
        {d : MapIndex} {fs : List (Option (EvolutionFunc B))}
        → find text_dec t s.version_map_indices ≡ some d
        → get_elem? s.evolution_funcs d.index ≡ some fs
        → funcs_of s t ≡ some (d.current_version, fs)
    unfolding funcs_of
    funcs_of-some e q = rw (e, funcs_of, q)

    evolve_buffers-evolve :
        IsValid s → (b : B) (v : ℕ) → evolve_buffers s b v t ≡ evolve (funcs_of s t) b v
    unfolding evolve_buffers evolve funcs_of
    evolve_buffers-evolve w b v = elim (Option-cases (find text_dec t s.version_map_indices)) [
      | inl e ↦ rw (e, evolve_buffers, funcs_of)
      | inr (d, e) ↦
          let (fs, q) = get_elem?-some s.evolution_funcs d.index (w.indexed t d e) in
          rw (e, evolve_buffers, funcs_of, q)
    ]

  module _ (s : SchemaEvolution B) (t : Text) (from current : ℕ) (f : EvolutionFunc B) where
    -- A registration for a version from 1 to the current one succeeds and keeps the tables
    -- consistent. The type then has the new function at that version, and its other functions and
    -- its current version are those it had (the given current version, if it is new). Every other
    -- type keeps what it had.
    pub register_evolution_func_lem :
        (priority : Priority)
        → IsValid s
        → length s.evolution_funcs < no_evolution_available
        → 0 < from
        → from ≤ current
        → current < 2 ^ 32
        → (s' : SchemaEvolution B) × (register_evolution_func s t from current f priority ≡ ok s')
          × IsValid s'
          × (funcs_of s' t
              ≡ some (
                (known (funcs_of s t) current).0,
                set (resize (known (funcs_of s t) current).1 current) (from - 1) (some f),
              ))
          × ((u : Text) → t ≢ u → funcs_of s' u ≡ funcs_of s u)
    register_evolution_func_lem priority w few h k l =
        elim (Option-cases (find text_dec t s.version_map_indices)) [
          | inl e ↦ (
            added s t from current f,
            register_new s t from current f priority h k l e,
            added-IsValid s t from current f w e few,
            rw (funcs_of-none s t e) (funcs_of-added_self s t from current f),
            λ u ne. funcs_of-added_ne s t from current f u w ne,
          )
          | inr (d, e) ↦
              let (fs, q) = get_elem?-some s.evolution_funcs d.index (w.indexed t d e) in
              (
                changed s t from current f d fs,
                register_known s t from current f priority h k l e
                    (λ r. absurd (omega (arith, w.few, w.indexed t d e, r))) q,
                changed-IsValid s t from current f d fs w,
                rw (funcs_of-some s t e q) (funcs_of-changed_self s t from current f d fs w e),
                λ u ne. funcs_of-changed_ne s t from current f d fs u w e ne,
              )
        ]

    ran_call :
        (fs : List (Option (EvolutionFunc B))) (b : B)
        → 0 < from
        → from < current
        → current < 2 ^ 32
        → evolve (some (current, set (resize fs current) (from - 1) (some f))) b from
          ≡ ok (f b from, false)
    unfolding evolve call_evolution
    ran_call fs b h k l =
        let i : version_index from ≡ from - 1 = omega arith in
        let n = length-resize s t from current f fs in
        let m = length-set (resize fs current) (from - 1) (some f) in
        let g = get_elem?-set_self (resize fs current) (from - 1) (some f) (omega (arith, n)) in
        let ne : from ≢ current = omega arith in
        let lt : from < length (set (resize fs current) (from - 1) (some f)) =
          omega (arith, n, m) in
        rw i (ground arith)

    -- Buffers of an older version go through the function that was registered for it last, whatever
    -- was registered for it before and whatever the priorities are, provided that the earlier
    -- registrations of the type name the same current version.
    pub evolve_buffers-register :
        (b : B) (priority : Priority)
        → IsValid s
        → length s.evolution_funcs < no_evolution_available
        → 0 < from
        → from < current
        → current < 2 ^ 32
        → (known (funcs_of s t) current).0 ≡ current
        → (s' : SchemaEvolution B) × (register_evolution_func s t from current f priority ≡ ok s')
          × (evolve_buffers s' b from t ≡ ok (f b from, false))
    evolve_buffers-register b priority w few h k l same =
        let (s', e, v, found, others) =
          register_evolution_func_lem priority w few h (omega arith) l in
        (
          s',
          e,
          rw (evolve_buffers-evolve s' t v b from, found, same)
              (ran_call (known (funcs_of s t) current).1 b h k l),
        )
