-- ===== src/DataSource/Entries.antt =====
-- An entry shows its collections in the active columns of its slot.
use podio.Base.{
  ℕ, ◌<◌, ◌≡◌, refl, sym, ap, subst, ◌≤◌, ◌∙◌, ◌≢◌, ◌⊎◌, inl, inr, Text, ℕ_discrete, List, [], ◌∷◌,
  Option, none, some, Outcome, ok, throws, Error, if_pos, dec_lt, length, get_elem?, set,
  get_elem?-set_self, get_elem?-set_ne, get_elem?-some, length-set, arith,
}
use mathlib.Core.Option.{some-injective}
use podio.DataSource.{DataSource, put_collection, show_column, fill, show_frame, set_entry}

abbrev pub IsActive : ℕ → List ℕ → Type 0
IsActive c [] = ⊥
IsActive c (d ∷ ds) = (d ≡ c) ⊎ IsActive c ds

-- The columns are all among the first `n`.
abbrev pub AllBelow : ℕ → List ℕ → Type 0
AllBelow n [] = Unit
AllBelow n (d ∷ ds) = (d < n) × AllBelow n ds

module _ {C : Type 0} where
  -- What a reader of the column shows in the slot.
  abbrev pub shown : List (List (Option C)) → ℕ → ℕ → Option (Option C)
  shown cs column slot = elim (get_elem? cs column) [ none ↦ none | some row ↦ get_elem? row slot ]

  -- Every column has a place for each slot.
  abbrev pub IsSized : ℕ → List (List (Option C)) → Type 0
  IsSized n cs =
      (column : ℕ) (row : List (Option C)) → get_elem? cs column ≡ some row → length row ≡ n

  shown_row :
      (cs : List (List (Option C))) (d t : ℕ) {row : List (Option C)}
      → get_elem? cs d ≡ some row
      → shown cs d t ≡ get_elem? row t
  shown_row cs d t e = rw (shown, e) refl

  shown_other :
      (cs cs' : List (List (Option C))) (d t : ℕ)
      → get_elem? cs' d ≡ get_elem? cs d
      → shown cs' d t ≡ shown cs d t
  shown_other cs cs' d t e = rw (shown, e) refl

  put_collection_lem :
      (n column slot : ℕ) (c : Option C) (cs : List (List (Option C)))
      → IsSized n cs
      → column < length cs
      → slot < n
      → (cs' : List (List (Option C))) × (put_collection column slot c cs ≡ ok cs')
        × IsSized n cs'
        × (length cs' ≡ length cs)
        × (shown cs' column slot ≡ some c)
        × ((d t : ℕ) → ((d ≢ column) ⊎ (t ≢ slot)) → shown cs' d t ≡ shown cs d t)
  unfolding put_collection
  put_collection_lem n column slot c cs v h k =
      let (row, e) = get_elem?-some cs column h in
      let m = v column row e in
      (
        set cs column (set row slot c),
        rw (e, put_collection) (ground (arith, m)),
        λ d r q. elim (ℕ_discrete column d) [
          | yes p ↦
              ground (arith, get_elem?-set_self cs column (set row slot c) h, length-set row slot c)
          | no p ↦ v d r (sym (get_elem?-set_ne cs column d (set row slot c) p) ∙ q)
        ],
        length-set cs column (set row slot c),
        shown_row (set cs column (set row slot c)) column slot
              (get_elem?-set_self cs column (set row slot c) h)
            ∙ get_elem?-set_self row slot c (omega (arith, m)),
        λ d t o. elim (ℕ_discrete column d) [
          | yes p ↦ elim o [
            | inl z ↦ absurd (z (sym p))
            | inr z ↦
                subst (λ x. shown (set cs column (set row slot c)) x t ≡ shown cs x t) p
                  (shown_row (set cs column (set row slot c)) column t
                      (get_elem?-set_self cs column (set row slot c) h)
                    ∙ get_elem?-set_ne row slot t c (λ y. z (sym y))
                    ∙ sym (shown_row cs column t e))
          ]
          | no p ↦
              shown_other cs (set cs column (set row slot c)) d t
                (get_elem?-set_ne cs column d (set row slot c) p)
        ],
      )

  fill_lem :
      (n slot : ℕ) (get : Text → Outcome (Option C)) (values : Text → Option C) (names : List Text)
      (columns : List ℕ) (cs : List (List (Option C)))
      → ((t : Text) → get t ≡ ok (values t))
      → IsSized n cs
      → slot < n
      → AllBelow (length names) columns
      → length names ≤ length cs
      → (cs' : List (List (Option C))) × (fill slot get names columns cs ≡ (ok tt, cs'))
        × IsSized n cs'
        × (length cs' ≡ length cs)
        × ((d : ℕ) (t : Text)
            → get_elem? names d ≡ some t
            → (IsActive d columns ⊎ (shown cs d slot ≡ some (values t)))
            → shown cs' d slot ≡ some (values t))
        × ((d t : ℕ) → ((t ≢ slot) ⊎ ¬ IsActive d columns) → shown cs' d t ≡ shown cs d t)
  unfolding fill show_column
  fill_lem n slot get values names [] cs gives v k a l =
      (cs, refl, v, refl, λ d t q o. elim o [ inl z ↦ absurd z | inr z ↦ z ], λ d t o. refl)
  fill_lem n slot get values names (column ∷ columns) cs gives v k a l =
      let (name, e) = get_elem?-some names column a.0 in
      let (cs', q, v', m, x, y) =
        put_collection_lem n column slot (values name) cs v (omega (arith, a.0)) k in
      let (cs'', q', v'', m', x', y') =
        fill_lem n slot get values names columns cs' gives v' k a.1 (omega (arith, m)) in
      (
        cs'',
        rw (e, fill, show_column, gives name, q) q',
        v'',
        m' ∙ m,
        λ d t z o. x' d t z (elim o [
          | inr r ↦ elim (ℕ_discrete column d) [
            | yes p ↦ inr (here d t column name slot cs' p z e x)
            | no p ↦ inr (y d slot (inl (λ u. p (sym u))) ∙ r)
          ]
          | inl r ↦ elim r [ inl p ↦ inr (here d t column name slot cs' p z e x) | inr r' ↦ inl r' ]
        ]),
        λ d t o. elim o [
          | inl z ↦ y' d t (inl z) ∙ y d t (inr z)
          | inr z ↦ y' d t (inr (λ u. z (inr u))) ∙ y d t (inl (λ u. z (inl (sym u))))
        ],
      )
    where
      here :
          (d : ℕ) (t : Text) (column : ℕ) (name : Text) (slot : ℕ) (cs' : List (List (Option C)))
          → column ≡ d
          → get_elem? names d ≡ some t
          → get_elem? names column ≡ some name
          → shown cs' column slot ≡ some (values name)
          → shown cs' d slot ≡ some (values t)
      here d t column name slot cs' p z e x =
          let w : name ≡ t = some-injective _ _ (sym e ∙ ap (get_elem? names) p ∙ z) in
          subst (λ u. shown cs' u slot ≡ some (values t)) p (x ∙ ap (λ u. some (values u)) w)

module _ {C Fr : Type 0} (read_frame : (slot entry : ℕ) → List Text → Outcome Fr)
    (get : Fr → Text → Outcome (Option C)) where
  -- With a place for each slot in each column, and a reader and a Frame for each slot, `SetEntry` on
  -- one of the slots with an entry whose Frame can be read and gives its collections succeeds. The
  -- readers of the active columns then show the collections of the entry in this slot; all other
  -- columns, and all other slots, show what they did. The Frame of the slot is that of the entry, and
  -- nothing but Frames and collections is changed. With an entry whose Frame cannot be read it throws
  -- what the reader throws, and changes nothing.
  pub set_entry_lem :
      (slot entry bad : ℕ) (frame : Fr) (values : Text → Option C) (x : Error) (s : DataSource C Fr)
      → IsSized s.n_slots s.collections
      → slot < s.n_slots
      → s.n_slots ≤ s.n_readers
      → s.n_slots ≤ length s.frames
      → AllBelow (length s.column_names) s.active_collections
      → length s.column_names ≤ length s.collections
      → read_frame slot entry s.column_names ≡ ok frame
      → ((t : Text) → get frame t ≡ ok (values t))
      → read_frame slot bad s.column_names ≡ throws x
      → (cs : List (List (Option C))) × (set_entry read_frame get slot entry s
          ≡ (ok tt, record s { frames = set s.frames slot frame; collections = cs }))
        × IsSized s.n_slots cs
        × ((d : ℕ) (t : Text)
            → get_elem? s.column_names d ≡ some t
            → IsActive d s.active_collections
            → shown cs d slot ≡ some (values t))
        × ((d t : ℕ)
            → ((t ≢ slot) ⊎ ¬ IsActive d s.active_collections)
            → shown cs d t ≡ shown s.collections d t)
        × (set_entry read_frame get slot bad s ≡ (throws x, s))
  unfolding set_entry show_frame
  set_entry_lem slot entry bad frame values x s v k readers frames a l reads gives fails =
      let (cs, q, v', m, shows, keeps) =
        fill_lem s.n_slots slot (get frame) values s.column_names s.active_collections s.collections
          gives v k a l in
      let here : slot < s.n_readers = omega (arith, k, readers) in
      let has_frame : slot < length s.frames = omega (arith, k, frames) in
      (
        cs,
        rw
            (
              set_entry,
              if_pos (dec_lt slot s.n_readers) here,
              reads,
              show_frame,
              if_pos (dec_lt slot (length s.frames)) has_frame,
              q,
            )
            refl,
        v',
        λ d t z o. shows d t z (inl o),
        keeps,
        rw (set_entry, if_pos (dec_lt slot s.n_readers) here, fails) refl,
      )
