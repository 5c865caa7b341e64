-- ===== src/Registry/Laws.antt =====
-- Registered datamodels keep their indices, and what a writer stores of them is what a reader finds.
use podio.Base.{
  ℕ, zero, suc, ◌^◌, ◌≤◌, ◌<◌, ◌≡◌, refl, sym, ap, ◌∙◌, ◌⊎◌, inl, inr, Text, text_dec, ℕ_discrete,
  dec_lt, ite, List, [], ◌∷◌, ◌++◌, Option, none, some, length, get_elem?, index_of, find, keys,
  map-append, index_of-le, index_of-snoc_self, get_elem?-append_left, get_elem?-snoc, get_elem?-lt,
  length-append, get_elem?-some, arith,
}
use mathlib.Core.Option.{some-injective}
use podio.Registry.{
  add_relations, DatamodelRegistry, register_datamodel, definition_of, get_datamodel_name,
  get_definition_at, definitions_to_write, insert_index, register_definition, held_definition,
  no_definition_available,
}

-- A name stands where a search for it ends.
abbrev pub Distinct : List (Text × Text) → Type 0
Distinct defs =
    (i : ℕ) (n d : Text) → get_elem? defs i ≡ some (n, d) → index_of text_dec n (keys defs) ≡ i

keys-get_elem? :
    (defs : List (Text × Text)) (i : ℕ) {n d : Text}
    → get_elem? defs i ≡ some (n, d)
    → get_elem? (keys defs) i ≡ some n
keys-get_elem? [] i e = cc
keys-get_elem? (p ∷ defs) zero e =
    ap (λ (o : Option (Text × Text)). elim o [ none ↦ none | some q ↦ some q.0 ]) e
keys-get_elem? (p ∷ defs) (suc i) e = keys-get_elem? defs i e

length-keys : (defs : List (Text × Text)) → length (keys defs) ≡ length defs
length-keys [] = refl
length-keys (p ∷ defs) = ap suc (length-keys defs)

get_elem?-index_of_key :
    (n : Text) (defs : List (Text × Text))
    → index_of text_dec n (keys defs) < length defs
    → (d : Text) × (get_elem? defs (index_of text_dec n (keys defs)) ≡ some (n, d))
unfolding index_of
get_elem?-index_of_key n [] l = absurd (omega arith)
get_elem?-index_of_key n ((m, d) ∷ defs) l = elim (text_dec m n) [
  | yes p ↦ (d, ground (arith, p))
  | no p ↦ let (e, q) = get_elem?-index_of_key n defs (ground arith) in (e, ground (arith, q))
]

ite_cases :
    {A : Type 0} (P : A → Type 0) {Q : Type 0} (d : Dec Q) {x y : A}
    → (Q → P x)
    → (¬ Q → P y)
    → P (ite d x y)
ite_cases P (yes p) f g = f p
ite_cases P (no p) f g = g p

-- The index is collected.
abbrev pub IsCollected : ℕ → List ℕ → Type 0
IsCollected i [] = ⊥
IsCollected i (j ∷ js) = (j ≡ i) ⊎ IsCollected i js

IsCollected-insert : (i : ℕ) (js : List ℕ) → IsCollected i (insert_index i js)
unfolding insert_index
IsCollected-insert i [] = inl refl
IsCollected-insert i (j ∷ js) =
    ite_cases (IsCollected i) (ℕ_discrete i j) (λ p. inl (sym p))
      (λ p.
        ite_cases (IsCollected i) (dec_lt i j) (λ q. inl refl) (λ q. inr (IsCollected-insert i js)))

module _ {N V : Type 0} (name definition : Text) (relation_names : List (Text × N))
    (s : DatamodelRegistry N V) where
  abbrev grown : DatamodelRegistry N V
  grown = record s {
    definitions = s.definitions ++ (name, definition) ∷ [];
    relations = add_relations relation_names s.relations;
  }

  register_known :
      index_of text_dec name (keys s.definitions) < length s.definitions
      → register_datamodel name definition relation_names s
        ≡ (index_of text_dec name (keys s.definitions), s)
  unfolding register_datamodel
  register_known l = ground arith

  register_new :
      length s.definitions < 2 ^ 31
      → length s.definitions ≤ index_of text_dec name (keys s.definitions)
      → register_datamodel name definition relation_names s ≡ (length s.definitions, grown)
  unfolding register_datamodel
  register_new few l = ground arith

  index-grown :
      length s.definitions ≤ index_of text_dec name (keys s.definitions)
      → index_of text_dec name (keys grown.definitions) ≡ length s.definitions
  index-grown l =
      let n = length-keys s.definitions in
      let m = index_of-le text_dec name (keys s.definitions) in
      ap (index_of text_dec name) (map-append (λ e. e.0) s.definitions ((name, definition) ∷ []))
      ∙ index_of-snoc_self text_dec name (keys s.definitions) (omega (arith, n, m))
      ∙ n

module _ {N V : Type 0} where
  -- With fewer than 2^31 datamodels, registering a datamodel gives an index that leads back to its
  -- name. Every definition that was registered keeps its index, and registering a datamodel under this name again, with whatever
  -- definition, gives the same index and changes nothing.
  pub register_datamodel_lem :
      (name definition : Text) (relation_names : List (Text × N)) (s : DatamodelRegistry N V)
      → length s.definitions < 2 ^ 31
      → (i : ℕ) × (s' : DatamodelRegistry N V) × (register_datamodel name definition relation_names
            s
          ≡ (i, s'))
        × (get_datamodel_name i s' ≡ name)
        × ((j : ℕ) (p : Text × Text)
            → get_elem? s.definitions j ≡ some p
            → get_elem? s'.definitions j ≡ some p)
        × ((other : Text) → register_datamodel name other relation_names s' ≡ (i, s'))
  unfolding get_datamodel_name
  register_datamodel_lem name definition relation_names s few =
      elim (dec_lt (index_of text_dec name (keys s.definitions)) (length s.definitions)) [
        | yes l ↦
            let (d, e) = get_elem?-index_of_key name s.definitions l in
            (
              index_of text_dec name (keys s.definitions),
              s,
              register_known name definition relation_names s l,
              rw (get_datamodel_name, e) refl,
              λ j p q. q,
              λ other. register_known name other relation_names s l,
            )
        | no l ↦
            let k : length s.definitions ≤ index_of text_dec name (keys s.definitions) =
              omega arith in
            let g = grown name definition relation_names s in
            let i = index-grown name definition relation_names s k in
            let n = length-append s.definitions ((name, definition) ∷ []) in
            (
              length s.definitions,
              g,
              register_new name definition relation_names s few k,
              rw
                  (
                    get_datamodel_name,
                    get_elem?-snoc s.definitions (name, definition) (length s.definitions) refl,
                  )
                  refl,
              λ j p q.
                  get_elem?-append_left s.definitions ((name, definition) ∷ []) j
                    (get_elem?-lt s.definitions j q)
                  ∙ q,
              λ other.
                  register_known name other relation_names g (omega (arith, i, n))
                  ∙ ap (λ x. (x, g)) i,
            )
      ]

  abbrev pub AllRegistered : DatamodelRegistry N V → List ℕ → Type 0
  AllRegistered s [] = Unit
  AllRegistered s (j ∷ js) = (j < length s.definitions) × AllRegistered s js

  AllRegistered-insert :
      (s : DatamodelRegistry N V) (i : ℕ) (js : List ℕ)
      → i < length s.definitions
      → AllRegistered s js
      → AllRegistered s (insert_index i js)
  unfolding insert_index
  AllRegistered-insert s i [] l a = (l, tt)
  AllRegistered-insert s i (j ∷ js) l a =
      ite_cases (AllRegistered s) (ℕ_discrete i j) (λ p. a)
        (λ p.
          ite_cases (AllRegistered s) (dec_lt i j) (λ q. (l, a))
            (λ q. (a.0, AllRegistered-insert s i js l a.1)))

  held_lem :
      (s : DatamodelRegistry N V) (i : ℕ) (n d : Text) (js : List ℕ)
      → Distinct s.definitions
      → get_elem? s.definitions i ≡ some (n, d)
      → AllRegistered s js
      → IsCollected i js
      → held_definition n (definitions_to_write s js) ≡ d
  unfolding held_definition definitions_to_write get_datamodel_name get_definition_at find
      definition_of
  held_lem s i n d [] v e a c = absurd c
  held_lem s i n d (j ∷ js) v e a c =
      let ((m, f), q) = get_elem?-some s.definitions j a.0 in
      rw (q, get_datamodel_name, get_definition_at)
        (ite_cases (λ (o : Option Text). definition_of o ≡ d) (text_dec m n) (λ p. same m f p q)
          (λ p. held_lem s i n d js v e a.1 (later m f q p c)))
    where
      same : (m f : Text) → m ≡ n → get_elem? s.definitions j ≡ some (m, f) → f ≡ d
      same m f p q =
          let x : j ≡ i =
            sym (v j m f q) ∙ ap (λ y. index_of text_dec y (keys s.definitions)) p ∙ v i n d e in
          ap (λ (y : Text × Text). y.1)
            (some-injective _ _ (sym q ∙ ap (get_elem? s.definitions) x ∙ e))

      later :
          (m f : Text)
          → get_elem? s.definitions j ≡ some (m, f)
          → ¬ (m ≡ n)
          → (j ≡ i) ⊎ IsCollected i js
          → IsCollected i js
      later m f q p (inl x) = absurd (
          p (
            ap (λ (y : Text × Text). y.0)
              (some-injective _ _ (sym q ∙ ap (get_elem? s.definitions) x ∙ e))))
      later m f q p (inr x) = x

  -- When no two datamodels of the registry have the same name, the definition of a datamodel whose
  -- collections were written is found by its name in what the writer stored, whatever other
  -- datamodels were collected.
  pub held_definition-definitions_to_write :
      (s : DatamodelRegistry N V) (i : ℕ) (n d : Text) (indices : List ℕ)
      → Distinct s.definitions
      → length s.definitions < no_definition_available
      → get_elem? s.definitions i ≡ some (n, d)
      → AllRegistered s indices
      → held_definition n (definitions_to_write s (register_definition i indices)) ≡ d
  unfolding register_definition
  held_definition-definitions_to_write s i n d indices v few e a =
      let l = get_elem?-lt s.definitions i e in
      let q : register_definition i indices ≡ insert_index i indices = ground arith in
      rw q (
        held_lem s i n d (insert_index i indices) v e (AllRegistered-insert s i indices l a)
          (IsCollected-insert i indices))
