-- ===== src/DataSource.antt =====
-- `DataSource` (src/DataSource.cc): the source of an RDataFrame, which splits the events of the
-- input into one range for each slot and shows the collections of the slots' current entries as
-- columns. Every slot has a reader of its own. What a reader reads, `read_frame`, and what a Frame
-- gives by name, `get`, where null is `none`, are parameters; both may throw. `C` is the type of
-- pointers to collections and `Fr` that of Frames. That the files can be opened again for the readers
-- of the slots is taken for granted.
pub mod Ranges
pub mod Entries
use podio.Base.{
  ℕ, zero, suc, ◌+◌, ◌-◌, ◌*◌, ◌/◌, ◌%◌, ◌^◌, ◌<◌, Text, text_dec, dec_lt, dec_le, ℕ_discrete, ite,
  Bool, List, [], ◌∷◌, ◌++◌, map, Option, none, some, Outcome, ok, throws, undefined, runtime_error,
  out_of_range, ◌>>=◌, unchecked, or_throw, length, get_elem?, set, replicate, drop, is_empty,
  is_some, index_of, cond, true, false,
}

abbrev pub Range : Type 0
Range = ℕ × ℕ

pub record DataSource (C Fr : Type 0) : Type 0 where
  pub n_slots : ℕ
  pub n_events : ℕ
  pub ranges_all : List Range
  pub ranges_available : List Range
  pub column_names : List Text
  pub column_types : List Text
  pub active_collections : List ℕ
  pub collections : List (List (Option C))
  pub n_readers : ℕ
  pub frames : List Fr

-- An `int` as a factor of a `size_t`: its sign is extended.
abbrev pub int_to_size : ℕ → ℕ
int_to_size n = ite (dec_lt (n % 2 ^ 32) (2 ^ 31)) (n % 2 ^ 32) (2 ^ 64 - 2 ^ 32 + n % 2 ^ 32)

abbrev pub times : ℕ → ℕ → ℕ
times per i = (int_to_size per * i) % 2 ^ 64

-- An `int` as a factor of an `unsigned int`.
abbrev pub times_unsigned : ℕ → ℕ → ℕ
times_unsigned per i = ((per % 2 ^ 32) * i) % 2 ^ 32

-- The number of events to run over, from the number in the files and the request, where a negative
-- request is `none`.
unfoldable pub event_count : (in_files : ℕ) → Option ℕ → Outcome ℕ
event_count zero request = throws runtime_error
event_count (suc n) none = ok (suc n)
event_count (suc n) (some zero) = throws runtime_error
event_count (suc n) (some (suc k)) = ok (ite (dec_lt (suc n) (suc k)) (suc n) (suc k))

-- The ranges of the slots from `i` on, when `left` more follow, and the last range up to the end.
unfoldable pub slot_ranges : (per n_events i left : ℕ) → List Range
slot_ranges per n_events i zero = (times_unsigned per i, n_events) ∷ []
slot_ranges per n_events i (suc left) =
    (times per i, times per (suc i)) ∷ slot_ranges per n_events (suc i) left

-- The loop of `GetEntryRanges`, which stops behind the range that makes it `n_slots`.
unfoldable pub first_ranges : (n_slots taken : ℕ) → List Range → List Range
first_ranges n_slots taken [] = []
first_ranges n_slots taken (r ∷ rs) =
    r ∷ ite (dec_le n_slots (suc taken)) [] (first_ranges n_slots (suc taken) rs)

-- The places of a column's collections in the slots.
unfoldable pub slots_from : ℕ → ℕ → ℕ → List (ℕ × ℕ)
slots_from column slot zero = []
slots_from column slot (suc n) = (column, slot) ∷ slots_from column (suc slot) n

module _ {C Fr : Type 0} where
  -- The new source, with the columns of the first frame: its available collections that it can give,
  -- with their types.
  unfoldable pub setup_input :
      (files : List Text) (in_files : ℕ) (request : Option ℕ)
      → List (Text × Option Text)
      → Outcome (DataSource C Fr)
  unfolding event_count
  setup_input files in_files request found = cond (is_empty files) (throws runtime_error) (do
    n ← event_count in_files request
    ok (record {
      n_slots = 1;
      n_events = n;
      ranges_all = [];
      ranges_available = [];
      column_names = names found;
      column_types = types found;
      active_collections = [];
      collections = [];
      n_readers = 0;
      frames = [];
    }))
    where
      names : List (Text × Option Text) → List Text
      names [] = []
      names ((n, none) ∷ cs) = names cs
      names ((n, some t) ∷ cs) = n ∷ names cs

      types : List (Text × Option Text) → List Text
      types [] = []
      types ((n, none) ∷ cs) = types cs
      types ((n, some t) ∷ cs) = t ∷ types cs

  -- `SetNSlots` after its check. Without slots it divides by 0. `resize` keeps the columns that are
  -- there; readers and new Frames are added to those that are there.
  unfoldable pub split_events :
      (new_frame : Fr) → ℕ → DataSource C Fr → Outcome (Unit {0}) × DataSource C Fr
  unfolding slot_ranges
  split_events new_frame zero s = (undefined, s)
  split_events new_frame (suc k) s =
      let ranges = s.ranges_all ++ slot_ranges (s.n_events / suc k) s.n_events 0 k in
      (
        ok tt,
        record s {
          ranges_all = ranges;
          ranges_available = ranges;
          collections =
              s.collections
              ++ replicate (length s.column_names - length s.collections) (replicate (suc k) none);
          n_readers = s.n_readers + suc k;
          frames = s.frames ++ replicate (suc k) new_frame;
        },
      )

  -- The number of slots is stored before it is checked.
  unfoldable pub set_n_slots :
      (new_frame : Fr) → ℕ → DataSource C Fr → Outcome (Unit {0}) × DataSource C Fr
  unfolding split_events
  set_n_slots new_frame n s =
      ite (dec_lt s.n_events n) (throws runtime_error, record s { n_slots = n })
        (split_events new_frame n (record s { n_slots = n }))

  unfoldable pub get_entry_ranges : DataSource C Fr → List Range × DataSource C Fr
  unfolding first_ranges
  get_entry_ranges s = (
    first_ranges s.n_slots 0 s.ranges_available,
    record s {
      ranges_available =
          ite (dec_lt s.n_slots (length s.ranges_available)) (drop s.n_slots s.ranges_available) [];
    },
  )

module _ {C : Type 0} where
  -- `m_Collections[column][slot] = c`
  unfoldable pub put_collection :
      ℕ → ℕ → Option C → List (List (Option C)) → Outcome (List (List (Option C)))
  put_collection column slot c cs = do
    row ← unchecked (get_elem? cs column)
    ite (dec_lt slot (length row)) (ok (set cs column (set row slot c))) undefined

  -- The place of one active column in `SetEntry`
  unfoldable pub show_column :
      (slot : ℕ)
      → (get : Text → Outcome (Option C)) → (names : List Text) → (column : ℕ)
      → List (List (Option C))
      → Outcome (List (List (Option C)))
  unfolding put_collection
  show_column slot get names column cs = do
    n ← or_throw (get_elem? names column) out_of_range
    c ← get n
    put_collection column slot c cs

  -- The loop of `SetEntry` over the active columns, with the places that it leaves where it throws
  unfoldable pub fill :
      (slot : ℕ)
      → (get : Text → Outcome (Option C)) → (names : List Text) → List ℕ
      → List (List (Option C))
      → Outcome (Unit {0}) × List (List (Option C))
  unfolding show_column
  fill slot get names [] cs = (ok tt, cs)
  fill slot get names (column ∷ columns) cs = elim (show_column slot get names column cs) [
    | ok cs' ↦ fill slot get names columns cs'
    | throws e ↦ (throws e, cs)
    | undefined ↦ (undefined, cs)
  ]

module _ {C Fr : Type 0} where
  -- `SetEntry` with the Frame of the entry, which replaces that of the slot
  unfoldable pub show_frame :
      (get : Fr → Text → Outcome (Option C))
      → (slot : ℕ) → Fr
      → DataSource C Fr
      → Outcome (Unit {0}) × DataSource C Fr
  unfolding fill
  show_frame get slot frame s =
      let filled = fill slot (get frame) s.column_names s.active_collections s.collections in
      ite (dec_lt slot (length s.frames))
        (filled.0, record s { frames = set s.frames slot frame; collections = filled.1 })
        (undefined, s)

  unfoldable pub set_entry :
      (read_frame : (slot entry : ℕ) → List Text → Outcome Fr)
      → (get : Fr → Text → Outcome (Option C)) → (slot entry : ℕ) → DataSource C Fr
      → Outcome (Unit {0}) × DataSource C Fr
  unfolding show_frame
  set_entry read_frame get slot entry s =
      ite (dec_lt slot s.n_readers)
        (elim (read_frame slot entry s.column_names) [
          | ok frame ↦ show_frame get slot frame s
          | throws e ↦ (throws e, s)
          | undefined ↦ (undefined, s)
        ])
        (undefined, s)

  unfoldable pub has_column : DataSource C Fr → Text → Bool
  has_column s n = is_some (get_elem? s.column_names (index_of text_dec n s.column_names))

  unfoldable pub get_type_name : DataSource C Fr → Text → Outcome Text
  get_type_name s n =
      ite (dec_lt (index_of text_dec n s.column_names) (length s.column_names))
        (or_throw (get_elem? s.column_types (index_of text_dec n s.column_names)) out_of_range)
        (throws runtime_error)

  -- `GetColumnReadersImpl`: a reader for each slot, which is the place of the slot's collection.
  unfoldable pub get_column_readers :
      Text → DataSource C Fr → Outcome (List (ℕ × ℕ) × DataSource C Fr)
  unfolding slots_from
  get_column_readers n s =
      ite (dec_lt (index_of text_dec n s.column_names) (length s.column_names))
        (let column = index_of text_dec n s.column_names in
          ok (
            slots_from column 0 s.n_slots,
            record s { active_collections = s.active_collections ++ column ∷ [] },
          ))
        (throws runtime_error)
