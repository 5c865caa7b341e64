-- ===== src/DataSource/Ranges.antt =====
-- The ranges of the slots share out the events.
use podio.Base.{
  ℕ, zero, suc, ◌+◌, ◌-◌, ◌*◌, ◌/◌, ◌%◌, ◌^◌, ◌≤◌, ◌<◌, ◌≡◌, refl, sym, ap, subst, ◌∙◌, dec_lt, ite,
  List, [], ◌∷◌, ◌++◌, none, ok, length, drop, replicate, arith,
}
use native.Mathlib.Nat.{div-add-mod, mod-lt}
use podio.DataSource.{
  split_events, DataSource, Range, int_to_size, times, times_unsigned, slot_ranges, first_ranges,
  set_n_slots, get_entry_ranges,
}

-- The ranges, none of them empty, follow one another from the first event to the last.
abbrev pub Tiles : ℕ → ℕ → List Range → Type 0
Tiles lo hi [] = lo ≡ hi
Tiles lo hi ((a, b) ∷ rs) = (a ≡ lo) × (a < b) × Tiles b hi rs

times_lem : (per i n : ℕ) → per < 2 ^ 31 → per * i ≤ n → n < 2 ^ 32 → times per i ≡ per * i
times_lem per i n h k l = ap (λ p. p * i % 2 ^ 64) (small per h) ∙ omega arith
  where
    small : (per : ℕ) → per < 2 ^ 31 → int_to_size per ≡ per
    small per h = ground arith

times_unsigned_lem :
    (per i n : ℕ) → per < 2 ^ 32 → per * i ≤ n → n < 2 ^ 32 → times_unsigned per i ≡ per * i
times_unsigned_lem per i n h k l =
    let e : per % 2 ^ 32 ≡ per = omega arith in ap (λ p. p * i % 2 ^ 32) e ∙ omega arith

slot_ranges-Tiles :
    (per n i left : ℕ)
    → 0 < per
    → per < 2 ^ 31
    → per * (i + suc left) ≤ n
    → n < 2 ^ 32
    → Tiles (per * i) n (slot_ranges per n i left)
unfolding slot_ranges
slot_ranges-Tiles per n i zero h k l m =
    let e = times_unsigned_lem per i n (omega arith) (omega arith) m in (e, omega (arith, e), refl)
slot_ranges-Tiles per n i (suc left) h k l m =
    let room : per * suc i ≤ n = omega arith in
    let e = times_lem per i n k (omega (arith, room)) m in
    let e' = times_lem per (suc i) n k room m in
    (
      e,
      omega (arith, e, e'),
      subst (λ b. Tiles b n (slot_ranges per n (suc i) left)) (sym e')
          (slot_ranges-Tiles per n (suc i) left h k (omega arith) m),
    )

length-slot_ranges : (per n i left : ℕ) → length (slot_ranges per n i left) ≡ suc left
unfolding slot_ranges
length-slot_ranges per n i zero = refl
length-slot_ranges per n i (suc left) = ap suc (length-slot_ranges per n (suc i) left)

first_ranges-all :
    (n taken : ℕ) (rs : List Range) → taken + length rs ≤ n → first_ranges n taken rs ≡ rs
unfolding first_ranges
first_ranges-all n taken [] h = refl
first_ranges-all n taken (r ∷ []) h = ground arith
first_ranges-all n taken (r ∷ r' ∷ rs) h = ground (arith, first_ranges-all n (suc taken) (r' ∷ rs))

quotient :
    (j q r n : ℕ)
    → suc (suc j) * q + r ≡ n
    → r < suc (suc j)
    → suc (suc j) ≤ n
    → n < 2 ^ 32
    → (0 < q) × (q < 2 ^ 31) × (q * (0 + suc (suc j)) ≤ n)
quotient j zero r n e h k l = absurd (omega arith)
quotient j (suc q) r n e h k l = (omega arith, omega arith, omega arith)

slots-Tiles : (k n : ℕ) → suc k ≤ n → n < 2 ^ 32 → Tiles 0 n (slot_ranges (n / suc k) n 0 k)
unfolding slot_ranges
slots-Tiles zero n h l =
    let e : times_unsigned (n / 1) 0 ≡ 0 = omega arith in (e, omega (arith, e), refl)
slots-Tiles (suc j) n h l =
    let d = suc (suc j) in
    let (a, b, c) = quotient j (n / d) (n % d) n (div-add-mod n d) (mod-lt n (omega arith)) h l in
    let z : n / d * 0 ≡ 0 = omega arith in
    subst (λ lo. Tiles lo n (slot_ranges (n / d) n 0 (suc j))) z
      (slot_ranges-Tiles (n / d) n 0 (suc j) a b c l)

drained :
    (n : ℕ) (rs : List Range)
    → length rs ≡ n
    → (first_ranges n 0 rs ≡ rs)
      × (first_ranges n 0 (ite (dec_lt n (length rs)) (drop n rs) []) ≡ [])
unfolding first_ranges
drained n rs h = (first_ranges-all n 0 rs (omega arith), ground arith)

module _ {C Fr : Type 0} (new_frame : Fr) (s : DataSource C Fr) where
  split_new :
      (n : ℕ)
      → 0 < n
      → n ≤ s.n_events
      → s.n_events < 2 ^ 32
      → s.ranges_all ≡ []
      → (s' : DataSource C Fr) × (set_n_slots new_frame n s ≡ (ok tt, s'))
        × (s'.n_slots ≡ n)
        × (length s'.ranges_all ≡ n)
        × Tiles 0 s.n_events s'.ranges_all
        × (s'.ranges_available ≡ s'.ranges_all)
  unfolding set_n_slots split_events
  split_new zero h k l e = absurd (omega arith)
  split_new (suc j) h k l e =
      let ranges = slot_ranges (s.n_events / suc j) s.n_events 0 j in
      let q : s.ranges_all ++ ranges ≡ ranges = ap (λ x. x ++ ranges) e in
      (
        record s {
          n_slots = suc j;
          ranges_all = s.ranges_all ++ ranges;
          ranges_available = s.ranges_all ++ ranges;
          collections =
              s.collections
              ++ replicate (length s.column_names - length s.collections) (replicate (suc j) none);
          n_readers = s.n_readers + suc j;
          frames = s.frames ++ replicate (suc j) new_frame;
        },
        ground arith,
        refl,
        rw q (length-slot_ranges (s.n_events / suc j) s.n_events 0 j),
        rw q (slots-Tiles j s.n_events k l),
        refl,
      )

  -- On a new source `SetNSlots` with a number of slots from 1 to the number of events makes one
  -- range for each slot; the ranges, none of them empty, follow one another from the first event to
  -- the last. `GetEntryRanges` then gives them all when it is first called, and none when it is
  -- called again.
  pub set_n_slots-Tiles :
      (n : ℕ)
      → 0 < n
      → n ≤ s.n_events
      → s.n_events < 2 ^ 32
      → s.ranges_all ≡ []
      → (s' : DataSource C Fr) × (set_n_slots new_frame n s ≡ (ok tt, s'))
        × (length s'.ranges_all ≡ n)
        × Tiles 0 s.n_events s'.ranges_all
        × ((get_entry_ranges s').0 ≡ s'.ranges_all)
        × ((get_entry_ranges (get_entry_ranges s').1).0 ≡ [])
  unfolding get_entry_ranges
  set_n_slots-Tiles n h k l e =
      let (s', q, a, m, t, r) = split_new n h k l e in
      let (all, none_left) = drained n s'.ranges_all m in
      (s', q, m, t, rw (a, r) all, rw (a, r) none_left)
