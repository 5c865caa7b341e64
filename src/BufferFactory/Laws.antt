-- ===== src/BufferFactory/Laws.antt =====
-- Which creation function serves which version of which type, after any registration.
use podio.Base.{
  ℕ, ◌+◌, ◌-◌, ◌^◌, ◌≤◌, ◌<◌, ◌≡◌, ◌∙◌, ◌≢◌, inl, inr, Text, text_dec, dec_lt, Bool, List, [],
  Option, none, some, ok, undefined, length, get_elem?, set, replicate, find, emplace, assign,
  Option-cases, length-append, length-replicate, length-set, get_elem?-append_left,
  get_elem?-append_right, get_elem?-replicate, get_elem?-set_self, get_elem?-set_ne, get_elem?-some,
  get_elem?-none, max, find-assign_self, find-assign_ne, find-emplace_new, find-emplace_ne, arith,
}
use mathlib.Core.Option
use podio.Evolution.{version_index}
use podio.BufferFactory.{
  CreationFunc, FuncMap, call_creation, create_buffers, extended, updated, register_creation_func,
}

module _ {B : Type 0} where
  -- The functions of a type, none if it is unknown.
  pub versions_of : FuncMap B → Text → List (CreationFunc B)
  versions_of m t = elim (find text_dec t m) [ none ↦ [] | some versions ↦ versions ]

  -- Version `v`, counted from 1.
  abbrev pub at_version : List (CreationFunc B) → ℕ → Option (CreationFunc B)
  at_version fs v = get_elem? fs (v - 1)

  -- What a registration of `f` for a version makes of the functions of a type.
  pub record Registers (version : ℕ) (f : CreationFunc B) (old new : List (CreationFunc B))
      : Type 0 where
    pub here : at_version new version ≡ some f
    pub filled : (v : ℕ) → length old < v → v ≤ version → at_version new v ≡ some f
    pub kept : (v : ℕ) → 0 < v → v ≤ length old → v ≢ version → at_version new v ≡ at_version old v
    pub reaches : length new ≡ max (length old) version

  module _ (version : ℕ) (f : CreationFunc B) where
    replicate-Registers : 0 < version → Registers version f [] (replicate version f)
    replicate-Registers h = record {
      here = get_elem?-replicate version (version - 1) f (omega arith);
      filled = λ v k l. get_elem?-replicate version (v - 1) f (omega arith);
      kept = λ v k l ne. absurd (omega arith);
      reaches = omega (arith, length-replicate version f);
    }

    module _ (fs : List (CreationFunc B)) where
      get_elem?-extended :
          (i : ℕ) → length fs ≤ i → i < version → get_elem? (extended fs version f) i ≡ some f
      unfolding extended
      get_elem?-extended i h k =
          let e : i ≡ length fs + (i - length fs) = omega arith in
          rw e (
            get_elem?-append_right fs (replicate (version - length fs) f) (i - length fs)
            ∙ get_elem?-replicate (version - length fs) (i - length fs) f (omega arith))

      extended-Registers : length fs < version → Registers version f fs (extended fs version f)
      unfolding extended
      extended-Registers h = record {
        here = get_elem?-extended (version - 1) (omega arith) (omega arith);
        filled = λ v k l. get_elem?-extended (v - 1) (omega arith) (omega arith);
        kept = λ v k l ne.
            get_elem?-append_left fs (replicate (version - length fs) f) (v - 1) (omega arith);
        reaches = omega (
          arith,
          length-append fs (replicate (version - length fs) f),
          length-replicate (version - length fs) f,
        );
      }

      set-Registers :
          0 < version → version ≤ length fs → Registers version f fs (set fs (version - 1) f)
      set-Registers h k = record {
        here = get_elem?-set_self fs (version - 1) f (omega arith);
        filled = λ v l n. absurd (omega arith);
        kept = λ v l n ne. get_elem?-set_ne fs (version - 1) (v - 1) f (omega arith);
        reaches = omega (arith, length-set fs (version - 1) f);
      }

      updated-Registers :
          0 < version
          → version < 2 ^ 32
          → (new : List (CreationFunc B)) × (updated fs version f ≡ ok new)
            × Registers version f fs new
      unfolding updated
      updated-Registers h k = elim (dec_lt (length fs) version) [
        | yes p ↦ (extended fs version f, ground arith, extended-Registers p)
        | no p ↦
            let e : version_index version ≡ version - 1 = omega arith in
            let q : version - 1 < length fs = omega arith in
            (set fs (version - 1) f, rw e (ground arith), set-Registers h (omega arith))
      ]

  versions_of-some :
      (m : FuncMap B) (t : Text) {fs : List (CreationFunc B)}
      → find text_dec t m ≡ some fs
      → versions_of m t ≡ fs
  unfolding versions_of
  versions_of-some m t e = rw (e, versions_of)

  versions_of-none : (m : FuncMap B) (t : Text) → find text_dec t m ≡ none → versions_of m t ≡ []
  unfolding versions_of
  versions_of-none m t e = rw (e, versions_of)

  versions_of-same :
      (m m' : FuncMap B) (t : Text)
      → find text_dec t m' ≡ find text_dec t m
      → versions_of m' t ≡ versions_of m t
  unfolding versions_of
  versions_of-same m m' t e = rw (e, versions_of)

  module _ (m : FuncMap B) (t : Text) (version : ℕ) (f : CreationFunc B) where
    -- A registration for a version from 1 on succeeds. Afterwards the type has the new function at
    -- that version and at the lower versions that had none, keeps its functions at all other
    -- versions, and has functions up to the larger of the new version and its largest before. No
    -- other type changes.
    pub register_creation_func_lem :
        0 < version
        → version < 2 ^ 32
        → (m' : FuncMap B) × (register_creation_func m t version f ≡ ok m')
          × Registers version f (versions_of m t) (versions_of m' t)
          × ((u : Text) → t ≢ u → versions_of m' u ≡ versions_of m u)
    unfolding register_creation_func
    register_creation_func_lem h k = elim (Option-cases (find text_dec t m)) [
      | inl e ↦
          let m' = emplace text_dec t (replicate version f) m in
          (
            m',
            rw (e, register_creation_func),
            rw
                (
                  versions_of-none m t e,
                  versions_of-some m' t (find-emplace_new text_dec t (replicate version f) m e),
                )
                (replicate-Registers version f h),
            λ u ne.
                versions_of-same m m' u (find-emplace_ne text_dec t u (replicate version f) m ne),
          )
      | inr (fs, e) ↦
          let (new, q, r) = updated-Registers version f fs h k in
          let m' = assign text_dec t new m in
          (
            m',
            rw (e, register_creation_func, q),
            rw (versions_of-some m t e, versions_of-some m' t (find-assign_self text_dec t new m))
                r,
            λ u ne. versions_of-same m m' u (find-assign_ne text_dec t u new m ne),
          )
    ]

  -- Buffers of a version from 1 on are made by the function at that version, and there are none
  -- exactly when the type has no function there; no version that is read is out of bounds.
  pub create_buffers-versions_of :
      (m : FuncMap B) (t : Text) (version : ℕ) (subset : Bool)
      → 0 < version
      → version < 2 ^ 32
      → create_buffers m t version subset
        ≡ ok (Option.map (λ (g : CreationFunc B). g subset) (at_version (versions_of m t) version))
  unfolding create_buffers call_creation versions_of
  create_buffers-versions_of m t version subset h k = elim (Option-cases (find text_dec t m)) [
    | inl e ↦ rw (e, create_buffers, versions_of)
    | inr (fs, e) ↦
        let i : version_index version ≡ version - 1 = omega arith in
        rw (e, create_buffers, versions_of, i)
          (ground (arith, get_elem?-some fs (version - 1), get_elem?-none fs (version - 1)))
  ]

  -- The version is not checked from below: asking for version 0 of a known type, which the number of
  -- a legacy file's collections is when their information has to be reconstructed, is an access out
  -- of bounds.
  pub create_buffers-zero :
      (m : FuncMap B) (t : Text) (fs : List (CreationFunc B)) (subset : Bool)
      → find text_dec t m ≡ some fs
      → length fs < version_index 0
      → create_buffers m t 0 subset ≡ undefined
  unfolding create_buffers call_creation
  create_buffers-zero m t fs subset e h =
      rw (e, create_buffers, get_elem?-none fs (version_index 0) (omega arith)) (ground arith)
