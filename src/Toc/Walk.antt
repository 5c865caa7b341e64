-- ===== src/Toc/Walk.antt =====
-- `readNextEntry` walks through all entries of a category, in the order in which they were
-- recorded.
use podio.Base.{
  ◌%◌, ◌^◌, ℕ, zero, suc, ◌+◌, ◌<◌, ◌≡◌, refl, sym, ap, ◌∙◌, inl, inr, ◌++◌, append_assoc,
  get_elem?-append_right, length-append, Text, text_dec, List, [], ◌∷◌, map, Option, none, some,
  length, get_elem?, find, assign, Option-cases, find-assign_self, arith,
}
use podio.Toc.{Reader, RecordMap, get_position, position_of, counter, read_next_entry, read_entry}
use podio.Toc.Laws.{positions_of}

-- No record starts at 0, where the file's header is.
abbrev pub AllPositive : List ℕ → Type 0
AllPositive [] = Unit
AllPositive (p ∷ ps) = (0 < p) × AllPositive ps

module _ {D : Type 0} (record_at : ℕ → D) where
  -- So many calls of `readNextEntry`.
  unfoldable pub read_many : ℕ → Text → Reader → List (Option D) × Reader
  unfolding read_next_entry
  read_many zero name r = ([], r)
  read_many (suc n) name r =
      let (d, r') = read_next_entry record_at name r in
      let (ds, r'') = read_many n name r' in (d ∷ ds, r'')

  counter-assign :
      (name : Text) (i : ℕ) (ctr : List (Text × ℕ)) → counter name (assign text_dec name i ctr) ≡ i
  unfolding counter position_of
  counter-assign name i ctr = rw (find-assign_self text_dec name i ctr) refl

  position-drop :
      (name : Text) (i : ℕ) (toc : RecordMap)
      → get_position name i toc ≡ position_of (get_elem? (positions_of name toc) i)
  unfolding get_position position_of
  position-drop name i toc = elim (Option-cases (find text_dec name toc)) [
    | inl e ↦ rw (get_position, positions_of, e) refl
    | inr (ps, e) ↦ rw (get_position, positions_of, e) refl
  ]

  next_nonzero :
      (name : Text) (r : Reader) (p : ℕ)
      → get_position name (counter name r.name_ctr) r.toc ≡ suc p
      → read_next_entry record_at name r ≡ (
        some (record_at (suc p)),
        record r {
          name_ctr = assign text_dec name ((counter name r.name_ctr + 1) % 2 ^ 32) r.name_ctr;
        },
      )
  unfolding read_next_entry
  next_nonzero name r p e = ground (arith, e)

  next_zero :
      (name : Text) (r : Reader)
      → get_position name (counter name r.name_ctr) r.toc ≡ 0
      → read_next_entry record_at name r
        ≡ (none, record r { name_ctr = assign text_dec name (counter name r.name_ctr) r.name_ctr })
  unfolding read_next_entry
  next_zero name r e = ground (arith, e)

  here :
      (before ps : List ℕ) (i : ℕ) → i ≡ length before → get_elem? (before ++ ps) i ≡ get_elem? ps 0
  here before ps i e =
      ap (get_elem? (before ++ ps)) (omega (arith, e)) ∙ get_elem?-append_right before ps 0

  position_here :
      (name : Text) (r : Reader) (before ps : List ℕ)
      → positions_of name r.toc ≡ before ++ ps
      → counter name r.name_ctr ≡ length before
      → get_position name (counter name r.name_ctr) r.toc ≡ position_of (get_elem? ps 0)
  position_here name r before ps e c =
      position-drop name (counter name r.name_ctr) r.toc
      ∙ ap (λ x. position_of (get_elem? x (counter name r.name_ctr))) e
      ∙ ap position_of (here before ps (counter name r.name_ctr) c)

  walk :
      (name : Text) (before ps : List ℕ) (r : Reader)
      → positions_of name r.toc ≡ before ++ ps
      → counter name r.name_ctr ≡ length before
      → AllPositive ps
      → length before + length ps < 2 ^ 32
      → (read_many (suc (length ps)) name r).0 ≡ map (λ p. some (record_at p)) ps ++ none ∷ []
  unfolding read_many position_of
  walk name before [] r e c a few = rw (next_zero name r (position_here name r before [] e c)) refl
  walk name before (zero ∷ ps) r e c a few = absurd (omega (arith, a.0))
  walk name before (suc p ∷ ps) r e c a few =
      let r' = record r {
        name_ctr = assign text_dec name ((counter name r.name_ctr + 1) % 2 ^ 32) r.name_ctr;
      } in
      let c' : counter name r'.name_ctr ≡ length (before ++ suc p ∷ []) =
        counter-assign name ((counter name r.name_ctr + 1) % 2 ^ 32) r.name_ctr
        ∙ omega (arith, c, few, length-append before (suc p ∷ [])) in
      let rest =
        walk name (before ++ suc p ∷ []) ps r' (e ∙ sym (append_assoc before (suc p ∷ []) ps)) c'
          a.1 (omega (arith, few, length-append before (suc p ∷ []))) in
      rw (next_nonzero name r p (position_here name r before (suc p ∷ ps) e c))
        (ap (λ x. some (record_at (suc p)) ∷ x) rest)

  -- Where no record starts at 0, asking for an entry of a category by its number and then for as many
  -- next entries as there were from it on gives the data of the entries from that one on, in the
  -- order in which they were recorded, and null at the end. The category has fewer than 2^32 entries.
  pub read_entry-read_many :
      (name : Text) (before ps : List ℕ) (r : Reader)
      → positions_of name r.toc ≡ before ++ ps
      → AllPositive ps
      → length before + length ps < 2 ^ 32
      → (let (d, r') = read_entry record_at name (length before) r in
          d ∷ (read_many (length ps) name r').0)
        ≡ map (λ p. some (record_at p)) ps ++ none ∷ []
  unfolding read_entry read_many
  read_entry-read_many name before ps r e a few =
      walk name before ps (record r { name_ctr = assign text_dec name (length before) r.name_ctr })
        e (counter-assign name (length before) r.name_ctr) a few
