-- ===== src/NtupleReader/Lookup.antt =====
-- `RNTupleReader` (src/RNTupleReader.cc) finds the entries of several files as if they stood one after
-- another.
use podio.Base.{
  ℕ, zero, suc, ◌+◌, ◌-◌, ◌%◌, ◌^◌, ◌≤◌, ◌<◌, ◌≡◌, refl, ap, subst, ◌∙◌, Text, dec_lt, List, [],
  ◌∷◌, ◌++◌, Option, none, some, ok, length, get_elem?, get_elem?-append_left,
  get_elem?-append_right, arith, Option-cases, inl, inr,
}
use podio.NtupleReader.{
  NtupleOps, open_category, total_of, starts_of, last_of, all_but_last, upper_bound, locate,
}

module _ {Rd : Type 0} (n_entries : Rd → ℕ) where
  -- The entries of one reader, and those of all, each as its reader and its number there
  abbrev pub entries_from : Rd → (first count : ℕ) → List (Rd × ℕ)
  entries_from r first zero = []
  entries_from r first (suc count) = (r, first) ∷ entries_from r (suc first) count

  abbrev pub entries_of_all : List Rd → List (Rd × ℕ)
  entries_of_all [] = []
  entries_of_all (r ∷ rs) = entries_from r 0 (n_entries r) ++ entries_of_all rs

  abbrev pub sum_of : List Rd → ℕ
  sum_of [] = 0
  sum_of (r ∷ rs) = n_entries r + sum_of rs

  -- Where the entries of each reader begin, and where the last ones end
  starts : ℕ → List Rd → List ℕ
  starts t [] = t ∷ []
  starts t (r ∷ rs) = t ∷ starts (t + n_entries r) rs

  begins : ℕ → List Rd → List ℕ
  begins t [] = []
  begins t (r ∷ rs) = t ∷ begins (t + n_entries r) rs

  last_of-starts : (x t : ℕ) (rs : List Rd) → last_of x (starts t rs) ≡ t + sum_of rs
  unfolding last_of starts
  last_of-starts x t [] = omega arith
  last_of-starts x t (r ∷ rs) = omega (arith, last_of-starts t (t + n_entries r) rs)

  all_but_last-starts : (x t : ℕ) (rs : List Rd) → all_but_last x (starts t rs) ≡ x ∷ begins t rs
  unfolding all_but_last starts begins
  all_but_last-starts x t [] = refl
  all_but_last-starts x t (r ∷ rs) = ap (λ l. x ∷ l) (all_but_last-starts t (t + n_entries r) rs)

  starts_of-starts : (t : ℕ) (rs : List Rd) → starts_of (starts t rs) ≡ begins t rs
  unfolding starts_of starts begins all_but_last
  starts_of-starts t [] = refl
  starts_of-starts t (r ∷ rs) = all_but_last-starts t (t + n_entries r) rs

  total_of-starts : (t : ℕ) (rs : List Rd) → total_of (starts t rs) ≡ t + sum_of rs
  unfolding total_of starts last_of
  total_of-starts t [] = omega arith
  total_of-starts t (r ∷ rs) = omega (arith, last_of-starts t (t + n_entries r) rs)

  length-entries_from : (r : Rd) (k c : ℕ) → length (entries_from r k c) ≡ c
  length-entries_from r k zero = refl
  length-entries_from r k (suc c) = ap suc (length-entries_from r (suc k) c)

  get_elem?-entries_from :
      (r : Rd) (k c i : ℕ) → i < c → get_elem? (entries_from r k c) i ≡ some (r, k + i)
  get_elem?-entries_from r k zero i h = elim h [ ]
  get_elem?-entries_from r k (suc c) zero h =
      let e : k ≡ k + 0 = omega arith in ap (λ m. some (r, m)) e
  get_elem?-entries_from r k (suc c) (suc i) h =
      let e : suc k + i ≡ k + suc i = omega arith in
      subst (λ m. get_elem? (entries_from r (suc k) c) i ≡ some (r, m)) e
        (get_elem?-entries_from r (suc k) c i (omega arith))

  upper_bound-begins : (e t : ℕ) (rs : List Rd) → e < t → upper_bound e (begins t rs) ≡ 0
  unfolding upper_bound begins
  upper_bound-begins e t [] h = refl
  upper_bound-begins e t (r ∷ rs) h = ground arith

  -- An entry at the position `e` of files that begin at `t`
  record Found (rs : List Rd) (t e : ℕ) : Type 0 where
    index : ℕ
    start : ℕ
    reader : Rd
    bound : upper_bound e (begins t rs) ≡ suc index
    begun : get_elem? (begins t rs) index ≡ some start
    there : get_elem? rs index ≡ some reader
    listed : (i : ℕ) → t + i ≡ e → get_elem? (entries_of_all rs) i ≡ some (reader, e - start)

  find_entry : (rs : List Rd) (t e : ℕ) → t ≤ e → e < t + sum_of rs → Found rs t e
  unfolding upper_bound begins
  find_entry [] t e h k = absurd (omega arith)
  find_entry (r ∷ rs) t e h k = elim (dec_lt e (t + n_entries r)) [
    | yes inside ↦ record {
      index = 0;
      start = t;
      reader = r;
      bound = ground (arith, upper_bound-begins e (t + n_entries r) rs);
      begun = refl;
      there = refl;
      listed = λ i p.
          get_elem?-append_left (entries_from r 0 (n_entries r)) (entries_of_all rs) i
            (omega (arith, length-entries_from r 0 (n_entries r)))
          ∙ get_elem?-entries_from r 0 (n_entries r) i (omega arith)
          ∙ ap (λ m. some (r, m)) (omega arith);
    }
    | no outside ↦
        let rest : Found rs (t + n_entries r) e =
          find_entry rs (t + n_entries r) e (omega arith) (omega arith) in
        record {
          index = suc rest.index;
          start = rest.start;
          reader = rest.reader;
          bound = ground (arith, rest.bound);
          begun = rest.begun;
          there = rest.there;
          listed = λ i p.
              let past : length (entries_from r 0 (n_entries r)) + (i - n_entries r) ≡ i =
                omega (arith, length-entries_from r 0 (n_entries r)) in
              subst
                (λ m. get_elem? (entries_of_all (r ∷ rs)) m ≡ some (rest.reader, e - rest.start))
                past
                (get_elem?-append_right (entries_from r 0 (n_entries r)) (entries_of_all rs)
                    (i - n_entries r)
                  ∙ rest.listed (i - n_entries r) (omega arith));
        }
  ]

abbrev kept : {Rd : Type 0} → Option Rd → List Rd → List Rd
kept none rs = rs
kept (some r) rs = r ∷ rs

-- The readers of the files that have the category
abbrev pub opened : {Rd : Type 0} → (Text → Option Rd) → List Text → List Rd
opened open_reader [] = []
opened open_reader (f ∷ fs) = kept (open_reader f) (opened open_reader fs)

module _ {Rd B I F D : Type 0} (ops : NtupleOps Rd B I F D) (open_reader : Text → Option Rd) where
  -- Less than 2^32 entries in all do not wrap around.
  open_category-starts :
      (filenames : List Text) (t : ℕ)
      → t + sum_of ops.n_entries (opened open_reader filenames) < 2 ^ 32
      → open_category ops open_reader filenames t
        ≡ (opened open_reader filenames, starts ops.n_entries t (opened open_reader filenames))
  unfolding open_category starts
  open_category-starts [] t h = refl
  open_category-starts (f ∷ fs) t h = elim (Option-cases (open_reader f)) [
    | inl closed ↦
        let e : opened open_reader (f ∷ fs) ≡ opened open_reader fs =
          ap (λ o. kept o (opened open_reader fs)) closed in
        rw (closed, open_category)
          (open_category-starts fs t (subst (λ rs. t + sum_of ops.n_entries rs < 2 ^ 32) e h))
    | inr (r, there) ↦
        let e : opened open_reader (f ∷ fs) ≡ r ∷ opened open_reader fs =
          ap (λ o. kept o (opened open_reader fs)) there in
        let h' = subst (λ rs. t + sum_of ops.n_entries rs < 2 ^ 32) e h in
        let small : (t + ops.n_entries r) % 2 ^ 32 ≡ t + ops.n_entries r = omega arith in
        rw
          (there, open_category, small, open_category-starts fs (t + ops.n_entries r) (omega arith))
          refl
  ]

  -- If the files of a category have less than 2^32 entries together, then the category has as many
  -- entries as its readers together, and each of them is looked up in the reader and at the entry
  -- that it has in the sequence of all entries of the readers, file by file.
  pub locate_lem :
      (filenames : List Text) (ent_num : ℕ)
      → sum_of ops.n_entries (opened open_reader filenames) < 2 ^ 32
      → ent_num < sum_of ops.n_entries (opened open_reader filenames)
      → (total_of (open_category ops open_reader filenames 0).1
          ≡ sum_of ops.n_entries (opened open_reader filenames))
        × (index : ℕ) × (local_entry : ℕ) × (reader : Rd) × (locate
              (starts_of (open_category ops open_reader filenames 0).1)
              ent_num
            ≡ ok (index, local_entry))
        × (get_elem? (open_category ops open_reader filenames 0).0 index ≡ some reader)
        × (get_elem? (entries_of_all ops.n_entries (opened open_reader filenames)) ent_num
            ≡ some (reader, local_entry))
  unfolding locate
  locate_lem filenames e small h =
      let rs : List Rd = opened open_reader filenames in
      let f : Found ops.n_entries rs 0 e =
        find_entry ops.n_entries rs 0 e (omega arith) (omega arith) in
      rw
        (
          open_category-starts filenames 0 (omega arith),
          total_of-starts ops.n_entries 0 rs,
          starts_of-starts ops.n_entries 0 rs,
        )
        (
          omega arith,
          f.index,
          e - f.start,
          f.reader,
          rw (f.bound, locate, f.begun) refl,
          f.there,
          f.listed e (omega arith),
        )
