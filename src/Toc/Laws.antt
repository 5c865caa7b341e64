-- ===== src/Toc/Laws.antt =====
-- What is recorded is found again, in memory and through a file.
use podio.Base.{
  ℕ, suc, ◌/◌, ◌%◌, ◌^◌, ◌<◌, ◌≡◌, refl, sym, ap, subst, ◌∙◌, ◌≢◌, ◌↔◌, inl, inr, Text, text_dec,
  List, [], ◌∷◌, ◌++◌, append_assoc, none, some, length, get_elem?, find, Option-cases,
  find-assign_self, find-assign_ne, get_elem?-append_left, get_elem?-snoc, length-append,
  append-nil, arith,
}
use mathlib.Core.Option.{some-injective}
use podio.Toc.{
  RecordMap, Codec, add_record, get_n_records, get_position, position_of, count_of, write_entries,
  write_block, read_entries, read_block, final_words, toc_position, toc_marker,
}

-- The positions of the records of a name.
abbrev pub positions_of : Text → RecordMap → List ℕ
positions_of name m = elim (find text_dec name m) [ none ↦ [] | some ps ↦ ps ]

find-snoc_self :
    (n : Text) (ps : List ℕ) (m : RecordMap)
    → find text_dec n m ≡ none
    → find text_dec n (m ++ (n, ps) ∷ []) ≡ some ps
unfolding find
find-snoc_self n ps [] e = ground arith
find-snoc_self n ps ((j, qs) ∷ m) e = ground (arith, find-snoc_self n ps m)

find-snoc_ne :
    (n q : Text) (ps : List ℕ) (m : RecordMap)
    → n ≢ q
    → find text_dec q (m ++ (n, ps) ∷ []) ≡ find text_dec q m
unfolding find
find-snoc_ne n q ps [] h = ground arith
find-snoc_ne n q ps ((j, qs) ∷ m) h = ground (arith, find-snoc_ne n q ps m)

-- A record that is added is the next entry of its name, at its position modulo 2^32; the entries before it, and those of all
-- other names, are where they were.
pub add_record_lem :
    (name : Text) (pos : ℕ) (m : RecordMap)
    → (get_n_records name (add_record name pos m) ≡ suc (get_n_records name m))
      × (get_position name (get_n_records name m) (add_record name pos m) ≡ pos % 2 ^ 32)
      × ((i : ℕ)
          → i < get_n_records name m
          → get_position name i (add_record name pos m) ≡ get_position name i m)
      × ((other : Text) (i : ℕ)
          → name ≢ other
          → get_position other i (add_record name pos m) ≡ get_position other i m)
unfolding add_record get_n_records get_position position_of count_of
add_record_lem name pos m = elim (Option-cases (find text_dec name m)) [
  | inl e ↦
      let s = find-snoc_self name (pos % 2 ^ 32 ∷ []) m e in
      let n : get_n_records name m ≡ 0 = ap count_of e in
      (
        rw (e, add_record, s, get_n_records) refl,
        subst (λ i. get_position name i (add_record name pos m) ≡ pos % 2 ^ 32) (sym n)
            (rw (e, add_record, get_position, s) refl),
        λ i h. absurd (omega (arith, subst (λ o. i < count_of o) e h)),
        λ other i h.
            rw (e, add_record)
              (ap (λ o. elim o [ none ↦ 0 | some ps ↦ position_of (get_elem? ps i) ])
                (find-snoc_ne name other (pos % 2 ^ 32 ∷ []) m h)),
      )
  | inr (ps, e) ↦
      let s = find-assign_self text_dec name (ps ++ pos % 2 ^ 32 ∷ []) m in
      let n : get_n_records name m ≡ length ps = ap count_of e in
      (
        rw (e, add_record, s, get_n_records) (length-append ps (pos % 2 ^ 32 ∷ []) ∙ omega arith),
        subst (λ i. get_position name i (add_record name pos m) ≡ pos % 2 ^ 32) (sym n)
            (rw (e, add_record, get_position, s)
              (ap position_of (get_elem?-snoc ps (pos % 2 ^ 32) (length ps) refl))),
        λ i h.
            rw (e, add_record, s, get_position)
              (ap position_of
                (get_elem?-append_left ps (pos % 2 ^ 32 ∷ []) i (subst (λ o. i < count_of o) e h))),
        λ other i h.
            rw (e, add_record)
              (ap (λ o. elim o [ none ↦ 0 | some qs ↦ position_of (get_elem? qs i) ])
                (find-assign_ne text_dec name other (ps ++ pos % 2 ^ 32 ∷ []) m h)),
      )
]

module _ (int : Codec ℕ) (string : Codec Text) (positions : Codec (List ℕ)) where
  -- All names and positions can be written.
  abbrev pub AllFit : RecordMap → Type 0
  AllFit [] = Unit
  AllFit ((name, ps) ∷ m) = string.Fit name × positions.Fit ps × AllFit m

  read_entries-write_entries :
      (m seen : RecordMap) (rest : List ℕ)
      → AllFit m
      → read_entries int string positions
          (length m)
          seen
          (write_entries int string positions m rest)
        ≡ some (seen ++ m, rest)
  unfolding read_entries write_entries
  read_entries-write_entries [] seen rest f = ap (λ x. some (x, rest)) (sym (append-nil seen))
  read_entries-write_entries ((name, ps) ∷ m) seen rest f =
      rw
        (
          string.read-write name (positions.write ps (write_entries int string positions m rest))
              f.0,
          positions.read-write ps (write_entries int string positions m rest) f.1,
        )
        (read_entries-write_entries m (seen ++ (name, ps) ∷ []) rest f.2
          ∙ ap (λ x. some (x, rest)) (append_assoc seen ((name, ps) ∷ []) m))

  -- A table of contents that was written as a block is read back as it was, and the read ends where
  -- the block does.
  pub read_block-write_block :
      (m : RecordMap) (rest : List ℕ)
      → int.Fit (length m)
      → AllFit m
      → read_block int string positions [] (write_block int string positions m rest)
        ≡ some (m, rest)
  unfolding read_block write_block
  read_block-write_block m rest f g =
      rw (read_block, int.read-write (length m) (write_entries int string positions m rest) f)
        (read_entries-write_entries m [] rest g)

-- The reader takes the lower 32 bits of the position from the final words: the position itself
-- exactly if it is below 2^32.
pub toc_position-final_words :
    (toc_start : ℕ)
    → (toc_position (final_words toc_start) ≡ some (toc_start % 2 ^ 32))
      × ((toc_position (final_words toc_start) ≡ some toc_start) ↔ (toc_start < 2 ^ 32))
unfolding toc_position final_words
toc_position-final_words toc_start =
    let low : final_words toc_start % 2 ^ 32 ≡ toc_start % 2 ^ 32 = omega arith in
    let high : final_words toc_start / 2 ^ 32 % 2 ^ 32 ≡ toc_marker = omega arith in
    let e : toc_position (final_words toc_start) ≡ some (toc_start % 2 ^ 32) =
      ground (arith, low, high) in
    (
      e,
      (
        λ q.
            (let x : toc_start % 2 ^ 32 ≡ toc_start = some-injective _ _ (sym e ∙ q) in
              omega arith),
        λ l. e ∙ ap some (omega arith),
      ),
    )
