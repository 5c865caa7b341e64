-- ===== src/Dump.antt =====
-- The command line of podio-dump (tools/src/podio-dump-tool.cpp, tools/src/argparseUtils.h) and the
-- splitting of strings (include/podio/utilities/MiscHelpers.h). A run that prints something and exits
-- is a value of its own.
pub mod Ranges
use podio.Base.{
  ℕ, zero, suc, ◌+◌, ◌-◌, ◌*◌, ◌/◌, ◌%◌, ◌^◌, ◌≤◌, ◌<◌, ◌≡◌, Text, codes, text_dec, ℕ_discrete,
  dec_lt, dec_le, ite, cond, Bool, true, false, ◌||◌, List, [], ◌∷◌, ◌++◌, Option, none, some,
  length, get_elem?, take, drop, is_empty,
}

-- A run that goes on, one that ends with an exit code, or one that an exception ends.
pub data Run (A : Type 0) : Type 0 where
  goes_on : A → Run A
  exits : ℕ → Run A
  aborts : Run A

infixl 5 ◌>>=◌
abbrev pub ◌>>=◌ : {A B : Type 0} → Run A → (A → Run B) → Run B
goes_on a >>= f = f a
exits code >>= f = exits code
aborts >>= f = aborts

-- `utils::splitString`: the parts between the delimiters.
unfoldable pub split_from : (delim : ℕ) → (part : Text) → Text → List Text
split_from delim part [] = part ∷ []
split_from delim part (c ∷ str) =
    let next = part ∷ split_from delim [] str in
    let more = split_from delim (part ++ c ∷ []) str in ite (ℕ_discrete c delim) next more

-- The view of an empty string has no parts.
unfoldable pub split_string : Text → (delim : ℕ) → List Text
unfolding split_from
split_string [] delim = []
split_string (c ∷ str) delim = split_from delim [] (c ∷ str)

unfoldable pub is_digit : ℕ → Bool
is_digit c = ite (dec_le 48 c) (ite (dec_le c 57) true false) false

-- `std::from_chars` of the digits, as far as they go, with the rest
unfoldable pub from_digits : (number : ℕ) → Text → ℕ × Text
from_digits number [] = (number, [])
from_digits number (c ∷ str) =
    let more = from_digits (number * 10 + (c - 48)) str in cond (is_digit c) more (number, c ∷ str)

-- It fails where no digit is there or where the number has more than 64 bits.
unfoldable pub from_chars : Text → Option (ℕ × Text)
unfolding is_digit from_digits
from_chars [] = none
from_chars (c ∷ str) =
    let parsed = from_digits 0 (c ∷ str) in
    cond (is_digit c) (ite (dec_lt parsed.0 (2 ^ 64)) (some parsed) none) none

unfoldable pub parse_size_or_exit : Text → Run ℕ
unfolding from_chars
parse_size_or_exit str = elim (from_chars str) [
  | none ↦ exits 1
  | some (number, rest) ↦ cond (is_empty rest) (goes_on number) (exits 1)
]

unfoldable pub parse_all : List Text → Run (List ℕ)
unfolding parse_size_or_exit
parse_all [] = goes_on []
parse_all (s ∷ ss) = do n ← parse_size_or_exit s; ns ← parse_all ss; goes_on (n ∷ ns)

-- `std::iota`
unfoldable pub iota : (count start : ℕ) → List ℕ
iota zero start = []
iota (suc count) start = start ∷ iota count (suc start)

-- The value -1 of `size_t`
abbrev pub all_entries : ℕ
all_entries = 2 ^ 64 - 1

-- `std::vector<size_t>::max_size()`. A vector that should be longer throws `std::length_error`; the
-- memory for shorter ones is taken to be there.
abbrev pub max_size : ℕ
max_size = 2 ^ 60 - 1

unfoldable pub entries_from : (count start : ℕ) → Run (List ℕ)
unfolding iota
entries_from count start = ite (dec_le count max_size) (goes_on (iota count start)) aborts

-- A single entry or a range. The size of the range is computed in 64 bits.
unfoldable pub parse_colon_range : List Text → Run (List ℕ)
unfolding parse_size_or_exit entries_from
parse_colon_range [] = exits 1
parse_colon_range (s ∷ []) = do n ← parse_size_or_exit s; goes_on (n ∷ [])
parse_colon_range (s ∷ [] ∷ []) = exits 1
parse_colon_range (s ∷ (c ∷ t) ∷ []) = do
  start ← parse_size_or_exit s
  stop ← parse_size_or_exit (c ∷ t)
  entries_from ((stop + 2 ^ 64 - start + 1) % 2 ^ 64) start
parse_colon_range (s ∷ t ∷ u ∷ ss) = exits 1

unfoldable pub parse_event_range : Text → Run (List ℕ)
unfolding split_string parse_all parse_colon_range
parse_event_range evt_range = ite (text_dec evt_range (codes "-1")) (goes_on (all_entries ∷ [])) (
    ite (ℕ_discrete (length (split_string evt_range 44)) 1)
      (parse_colon_range (split_string evt_range 58)) (parse_all (split_string evt_range 44)))

-- `ParsedArgs`
pub record ParsedArgs : Type 0 where
  pub input_file : Text
  pub category : Text
  pub events : List ℕ
  pub dump_edm : Text
  pub detailed : Bool
  pub size_stats : Bool

abbrev pub default_args : ParsedArgs
default_args = record {
  input_file = [];
  category = codes "events";
  events = 0 ∷ [];
  dump_edm = [];
  detailed = false;
  size_stats = false;
}

unfoldable pub is_flag : (flags : List Text) → Text → Bool
is_flag [] arg = false
is_flag (f ∷ flags) arg = ite (text_dec arg f) true (is_flag flags arg)

-- `findFlags`: what stands before the first of the flags, and what follows it, if one is there.
unfoldable pub find_flags : (flags : List Text) → List Text → Option (List Text × Text × List Text)
unfolding is_flag
find_flags flags [] = none
find_flags flags (a ∷ argv) =
    let rest = find_flags flags argv in
    cond (is_flag flags a) (some ([], a, argv))
      (elim rest [ none ↦ none | some (before, flag, after) ↦ some (a ∷ before, flag, after) ])

-- A flag alone is taken off the arguments.
unfoldable pub take_switch : (flags : List Text) → List Text → Bool × List Text
unfolding find_flags
take_switch flags argv = elim (find_flags flags argv) [
  | none ↦ (false, argv)
  | some (before, flag, after) ↦ (true, before ++ after)
]

-- A flag with a value: without a value the run ends with the usage message.
unfoldable pub take_value : (flags : List Text) → List Text → Run (Option Text × List Text)
unfolding find_flags
take_value flags argv = elim (find_flags flags argv) [
  | none ↦ goes_on (none, argv)
  | some (before, flag, []) ↦ exits 1
  | some (before, flag, value ∷ after) ↦ goes_on (some value, before ++ after)
]

-- The event range, whose flag is passed over where it is the last argument.
unfoldable pub take_events : (flags : List Text) → List Text → Run (Option (List ℕ) × List Text)
unfolding find_flags parse_event_range
take_events flags argv = elim (find_flags flags argv) [
  | none ↦ goes_on (none, argv)
  | some (before, flag, []) ↦ goes_on (none, argv)
  | some (before, flag, value ∷ after) ↦ do
    events ← parse_event_range value
    goes_on (some events, before ++ after)
]

abbrev pub value_or : {A : Type 0} → A → Option A → A
value_or a none = a
value_or a (some b) = b

unfoldable pub parse_flags : List Text → Run ParsedArgs
unfolding take_switch take_value take_events
parse_flags argv =
    let switched = take_switch (codes "-d" ∷ codes "--detailed" ∷ []) argv in
    do
      (category, argv1) ← take_value (codes "-c" ∷ codes "--category" ∷ []) switched.1
      (events, argv2) ← take_events (codes "-e" ∷ codes "--entries" ∷ []) argv1
      (dump_edm, argv3) ← take_value (codes "--dump-edm" ∷ []) argv2
      let sized = take_switch (codes "-s" ∷ codes "--size-stats" ∷ []) argv3
      elim sized.1 [
        | [] ↦ exits 1
        | file ∷ [] ↦ goes_on (record {
          input_file = file;
          category = value_or default_args.category category;
          events = value_or default_args.events events;
          dump_edm = value_or default_args.dump_edm dump_edm;
          detailed = switched.0;
          size_stats = sized.0;
        })
        | file ∷ other ∷ more ↦ exits 1
      ]

-- `parseArgs`: help and version come first, and end the run well.
unfoldable pub parse_args : List Text → Run ParsedArgs
unfolding parse_flags
parse_args argv = elim (find_flags (codes "-h" ∷ codes "--help" ∷ codes "--version" ∷ []) argv) [
  | none ↦ parse_flags argv
  | some found ↦ exits 0
]

-- `fullEntryList`
unfoldable pub full_entry_list : ParsedArgs → (n_entries : ℕ) → List ℕ
unfolding iota
full_entry_list args n_entries = elim args.events [
  | [] ↦ []
  | e ∷ [] ↦ ite (ℕ_discrete e all_entries) (iota n_entries 0) (e ∷ [])
  | e ∷ f ∷ es ↦ e ∷ f ∷ es
]

-- `is_glob_pattern` (src/Glob.cc): an unescaped `*`, `?`, `[` or `{`
unfoldable pub is_magic : ℕ → Bool
is_magic c =
    ite (ℕ_discrete c 42) true
      (ite (ℕ_discrete c 63) true (ite (ℕ_discrete c 91) true (ite (ℕ_discrete c 123) true false)))

unfoldable pub glob_from : (escape : Bool) → Text → Bool
unfolding is_magic
glob_from escape [] = false
glob_from true (c ∷ pattern) = glob_from false pattern
glob_from false (c ∷ pattern) =
    let escaped = glob_from true pattern in
    let plain = glob_from false pattern in
    ite (ℕ_discrete c 92) escaped (cond (is_magic c) true plain)

unfoldable pub is_glob_pattern : Text → Bool
unfolding glob_from
is_glob_pattern pattern = glob_from false pattern
