-- ===== src/Dump/Ranges.antt =====
-- The entry ranges of podio-dump (`parseEventRange` in tools/src/podio-dump-tool.cpp): what becomes of
-- a range that is written with `std::to_string`.
use podio.Base.{
  ℕ, zero, suc, ◌+◌, ◌-◌, ◌*◌, ◌/◌, ◌%◌, ◌^◌, ◌≤◌, ◌<◌, ◌≡◌, ◌≢◌, refl, sym, ap, ◌∙◌, Text, codes,
  ℕ_discrete, dec_lt, dec_le, if_pos, if_neg, true, [], ◌∷◌, ◌++◌, ◌⊎◌, inl, inr, append_assoc,
  append-nil, none, some, length, decimal_digits, to_string, arith,
}
use podio.Dump.{
  goes_on, aborts, split_from, split_string, is_digit, from_digits, from_chars, parse_size_or_exit,
  parse_colon_range, parse_event_range, iota, entries_from, max_size,
}

-- The numbers of `f` digits are those below this power of ten.
abbrev limit : ℕ → ℕ
limit zero = 1
limit (suc f) = 10 * limit f

from_digits-decimal_digits :
    (f n : ℕ) (s : Text) → n < limit f → from_digits 0 (decimal_digits f n ++ s) ≡ from_digits n s
unfolding from_digits decimal_digits is_digit
from_digits-decimal_digits zero n s h = let e : 0 ≡ n = omega arith in ap (λ m. from_digits m s) e
from_digits-decimal_digits (suc f) n s h = elim (dec_lt n 10) [
  | yes small ↦
      rw (if_pos _ small) (one_digit 0 n s small ∙ ap (λ m. from_digits m s) (omega arith))
  | no large ↦
      let split : n / 10 * 10 + n % 10 ≡ n = omega arith in
      rw (if_neg _ large, append_assoc (decimal_digits f (n / 10)) ((48 + n % 10) ∷ []) s)
        (from_digits-decimal_digits f (n / 10) ((48 + n % 10) ∷ s) (omega arith)
          ∙ one_digit (n / 10) (n % 10) s (omega arith)
          ∙ ap (λ m. from_digits m s) split)
]
  where
    one_digit :
        (acc d : ℕ) (s : Text)
        → d < 10
        → from_digits acc ((48 + d) ∷ s) ≡ from_digits (acc * 10 + d) s
    one_digit acc d s h =
        let e : 48 + d - 48 ≡ d = omega arith in
        rw (if_pos (dec_le 48 (48 + d)) (omega arith), if_pos (dec_le (48 + d) 57) (omega arith), e)
          refl

-- All characters are digits.
abbrev AllDigits : Text → Type 0
AllDigits [] = Unit
AllDigits (c ∷ s) = (48 ≤ c) × (c ≤ 57) × AllDigits s

AllDigits-append : (s t : Text) → AllDigits s → AllDigits t → AllDigits (s ++ t)
AllDigits-append [] t a b = b
AllDigits-append (c ∷ s) t a b = (a.0, a.1, AllDigits-append s t a.2 b)

decimal_digits-AllDigits : (f n : ℕ) → AllDigits (decimal_digits f n)
unfolding decimal_digits
decimal_digits-AllDigits zero n = tt
decimal_digits-AllDigits (suc f) n = elim (dec_lt n 10) [
  | yes small ↦ rw (if_pos _ small) (omega arith, omega arith, tt)
  | no large ↦ rw (if_neg _ large) (
      AllDigits-append (decimal_digits f (n / 10)) ((48 + n % 10) ∷ [])
        (decimal_digits-AllDigits f (n / 10)) (omega arith, omega arith, tt))
]

-- A number has at least one digit.
record IsHeaded (s : Text) : Type 0 where
  head : ℕ
  tail : Text
  shape : s ≡ head ∷ tail

IsHeaded-append : (s t : Text) → IsHeaded t → IsHeaded (s ++ t)
IsHeaded-append [] t h = h
IsHeaded-append (c ∷ s) t h = record { head = c; tail = s ++ t; shape = refl }

decimal_digits-IsHeaded : (f n : ℕ) → IsHeaded (decimal_digits (suc f) n)
unfolding decimal_digits
decimal_digits-IsHeaded f n = elim (dec_lt n 10) [
  | yes small ↦ rw (if_pos _ small) (record { head = 48 + n; tail = []; shape = refl })
  | no large ↦ rw (if_neg _ large) (
      IsHeaded-append (decimal_digits f (n / 10)) ((48 + n % 10) ∷ [])
        (record { head = 48 + n % 10; tail = []; shape = refl }))
]

-- A part of digits is not split.
split_from-digits :
    (delim : ℕ) (part s rest : Text)
    → (delim < 48) × (delim ≤ 57) ⊎ (57 < delim)
    → AllDigits s
    → split_from delim part (s ++ rest) ≡ split_from delim (part ++ s) rest
unfolding split_from
split_from-digits delim part [] rest h a = ap (λ p. split_from delim p rest) (sym (append-nil part))
split_from-digits delim part (c ∷ s) rest h a =
    let ne : c ≢ delim = ground (arith, h, a.0, a.1) in
    rw (if_neg (ℕ_discrete c delim) ne) (
      split_from-digits delim (part ++ c ∷ []) s rest h a.2
      ∙ ap (λ p. split_from delim p rest) (append_assoc part (c ∷ []) s))

is_digit-true : (c : ℕ) → 48 ≤ c → c ≤ 57 → is_digit c ≡ true
unfolding is_digit
is_digit-true c h k = ground arith

next_digit :
    (c : ℕ) (s : Text)
    → is_digit c ≡ true
    → from_digits 0 (c ∷ s) ≡ from_digits (0 * 10 + (c - 48)) s
unfolding from_digits
next_digit c s h = rw (from_digits, h) refl

from_chars-digits :
    (s : Text) (n : ℕ)
    → IsHeaded s
    → AllDigits s
    → from_digits 0 s ≡ (n, [])
    → n < 2 ^ 64
    → from_chars s ≡ some (n, [])
unfolding from_chars
from_chars-digits [] n h a e b = absurd (ground (arith, h.shape))
from_chars-digits (c ∷ s) n h a e b =
    let digit = is_digit-true c a.0 a.1 in
    rw (from_chars, digit, sym (next_digit c s digit) ∙ e)
      (if_pos (dec_lt n (2 ^ 64)) b (some (n, [])) none)

parse_size-to_string : (n : ℕ) → n < 2 ^ 64 → parse_size_or_exit (to_string n) ≡ goes_on n
unfolding to_string from_digits parse_size_or_exit
parse_size-to_string n h =
    rw
      (
        parse_size_or_exit,
        from_chars-digits (decimal_digits 20 n) n (decimal_digits-IsHeaded 19 n)
            (decimal_digits-AllDigits 20 n)
            (ap (from_digits 0) (sym (append-nil (decimal_digits 20 n)))
              ∙ from_digits-decimal_digits 20 n [] (omega arith))
            h,
      )
      refl

split_string-IsHeaded :
    (s r : Text) (delim : ℕ)
    → IsHeaded s
    → split_string (s ++ r) delim ≡ split_from delim [] (s ++ r)
unfolding split_string
split_string-IsHeaded [] r delim h = absurd (ground (arith, h.shape))
split_string-IsHeaded (c ∷ s) r delim h = refl

not_minus_one : (s r : Text) → IsHeaded s → AllDigits s → s ++ r ≢ codes "-1"
not_minus_one [] r h a e = ground (arith, h.shape)
not_minus_one (c ∷ s) r h a e = ground (arith, a.0, e)

split_last :
    (delim : ℕ) (part t : Text)
    → (delim < 48) × (delim ≤ 57) ⊎ (57 < delim)
    → AllDigits t
    → split_from delim part t ≡ (part ++ t) ∷ []
unfolding split_from
split_last delim part t h a =
    ap (split_from delim part) (sym (append-nil t)) ∙ split_from-digits delim part t [] h a

split_colon :
    (s t : Text)
    → IsHeaded s
    → AllDigits s
    → AllDigits t
    → (split_string (s ++ 58 ∷ t) 58 ≡ s ∷ t ∷ []) × (length (split_string (s ++ 58 ∷ t) 44) ≡ 1)
unfolding split_from ℕ_discrete
split_colon s t h a b = (
  split_string-IsHeaded s (58 ∷ t) 58 h
      ∙ split_from-digits 58 [] s (58 ∷ t) (inr (omega arith)) a
      ∙ rw (split_last 58 [] t (inr (omega arith)) b) refl,
  ap length (
      split_string-IsHeaded s (58 ∷ t) 44 h
      ∙ split_from-digits 44 [] s (58 ∷ t) (inl (omega arith, omega arith)) a
      ∙ split_last 44 (s ++ 58 ∷ []) t (inl (omega arith, omega arith)) b),
)

parse_colon_range-IsHeaded :
    (s t : Text) (start stop : ℕ)
    → IsHeaded t
    → parse_size_or_exit s ≡ goes_on start
    → parse_size_or_exit t ≡ goes_on stop
    → parse_colon_range (s ∷ t ∷ []) ≡ entries_from ((stop + 2 ^ 64 - start + 1) % 2 ^ 64) start
unfolding parse_colon_range
parse_colon_range-IsHeaded s [] start stop h p q = absurd (ground (arith, h.shape))
parse_colon_range-IsHeaded s (c ∷ t) start stop h p q = rw (parse_colon_range, p, q) refl

parse_event_range-texts :
    (s t : Text) (start stop : ℕ)
    → IsHeaded s
    → IsHeaded t
    → AllDigits s
    → AllDigits t
    → parse_size_or_exit s ≡ goes_on start
    → parse_size_or_exit t ≡ goes_on stop
    → parse_event_range (s ++ 58 ∷ t) ≡ entries_from ((stop + 2 ^ 64 - start + 1) % 2 ^ 64) start
unfolding parse_event_range ℕ_discrete
parse_event_range-texts s t start stop h k a b p q =
    let parts = split_colon s t h a b in
    rw (parse_event_range, if_neg _ (not_minus_one s (58 ∷ t) h a), parts.1, parts.0)
      (parse_colon_range-IsHeaded s t start stop k p q)

parse_event_range-two :
    (start stop : ℕ)
    → start < 2 ^ 64
    → stop < 2 ^ 64
    → parse_event_range (to_string start ++ 58 ∷ to_string stop)
      ≡ entries_from ((stop + 2 ^ 64 - start + 1) % 2 ^ 64) start
unfolding to_string
parse_event_range-two start stop a b =
    parse_event_range-texts (decimal_digits 20 start) (decimal_digits 20 stop) start stop
      (decimal_digits-IsHeaded 19 start) (decimal_digits-IsHeaded 19 stop)
      (decimal_digits-AllDigits 20 start) (decimal_digits-AllDigits 20 stop)
      (parse_size-to_string start a) (parse_size-to_string stop b)

entries_from-le :
    (count start : ℕ) → count ≤ max_size → entries_from count start ≡ goes_on (iota count start)
unfolding entries_from
entries_from-le count start h = if_pos (dec_le count max_size) h _ _

entries_from-long : (count start : ℕ) → ¬ (count ≤ max_size) → entries_from count start ≡ aborts
unfolding entries_from
entries_from-long count start h = if_neg (dec_le count max_size) h _ _

-- A range `start:stop` of 64-bit numbers that goes up, and is not longer than a vector can be, is read
-- as its entries in order, the last one included.
pub parse_event_range-to_string :
    (start stop : ℕ)
    → start < 2 ^ 64
    → stop < 2 ^ 64
    → start ≤ stop
    → stop + 1 - start ≤ max_size
    → parse_event_range (to_string start ++ 58 ∷ to_string stop)
      ≡ goes_on (iota (stop + 1 - start) start)
parse_event_range-to_string start stop a b h k =
    let e : (stop + 2 ^ 64 - start + 1) % 2 ^ 64 ≡ stop + 1 - start = omega arith in
    parse_event_range-two start stop a b ∙ rw (e) (entries_from-le (stop + 1 - start) start k)

-- A range that goes down by two or more, but by less than 2^63, is refused only by the vector, whose
-- exception ends the run.
pub parse_event_range-reversed :
    (start stop : ℕ)
    → start < 2 ^ 64
    → stop < 2 ^ 64
    → stop + 1 < start
    → start - stop < 2 ^ 63
    → parse_event_range (to_string start ++ 58 ∷ to_string stop) ≡ aborts
parse_event_range-reversed start stop a b h k =
    let e : (stop + 2 ^ 64 - start + 1) % 2 ^ 64 ≡ stop + 2 ^ 64 - start + 1 = omega arith in
    let long : ¬ (stop + 2 ^ 64 - start + 1 ≤ max_size) = omega arith in
    parse_event_range-two start stop a b
    ∙ rw (e) (entries_from-long (stop + 2 ^ 64 - start + 1) start long)
