-- ===== src/Parameters.antt =====
-- `GenericParameters` (include/podio/GenericParameters.h): four maps from names to vectors, one for
-- each supported type. Integers are mathematical, floats and doubles stand for themselves as the
-- types `F` and `D`. The mutexes are left out: every operation holds the one of its map.
pub mod Laws
use podio.Base.{
  ℕ, Text, text_order, map_find, map_assign, map_emplace, Bool, true, false, List, [], ◌∷◌, map,
  Option, none, some, Outcome, ok, undefined, ◌>>=◌, unchecked, length, get_elem?, keys, ◌&&◌,
  is_empty,
}

pub data Kind : Type 0 where
  int float double string : Kind

-- The type that a kind stands for.
abbrev pub Value : (I F D : Type 0) → Kind → Type 0
Value I F D int = I
Value I F D float = F
Value I F D double = D
Value I F D string = Text

-- `MapType<T>`
abbrev pub ParamMap : Type 0 → Type 0
ParamMap T = List (Text × List T)

pub record GenericParameters (I F D : Type 0) : Type 0 where
  pub int_map : ParamMap I
  pub float_map : ParamMap F
  pub string_map : ParamMap Text
  pub double_map : ParamMap D

-- One value of a parameter: the first of the vector, if it has one.
unfoldable pub first {ℓ} : {A : Type ℓ} → Option (List A) → Option A
first none = none
first (some []) = none
first (some (a ∷ v)) = some a

-- `size()` of what `find` finds
unfoldable pub count_of {ℓ} : {A : Type ℓ} → Option (List A) → ℕ
count_of none = 0
count_of (some v) = length v

-- The loop of `loadFrom`: `values[i]` is read without a check.
unfoldable pub load_loop :
    {T : Type 0} → List Text → List (List T) → ParamMap T → Outcome (ParamMap T)
load_loop [] values m = ok m
load_loop (k ∷ ks) [] m = undefined
load_loop (k ∷ ks) (v ∷ vs) m = load_loop ks vs (map_emplace text_order k v m)

module _ {I F D : Type 0} where
  abbrev pub no_parameters : GenericParameters I F D
  no_parameters = record { int_map = []; float_map = []; string_map = []; double_map = [] }

  -- The map that `if constexpr` selects.
  unfoldable pub get_map : (k : Kind) → GenericParameters I F D → ParamMap (Value I F D k)
  get_map int p = p.int_map
  get_map float p = p.float_map
  get_map double p = p.double_map
  get_map string p = p.string_map

  -- The parameters with that map given anew.
  unfoldable pub put_map :
      (k : Kind) → ParamMap (Value I F D k) → GenericParameters I F D → GenericParameters I F D
  put_map int m p = record p { int_map = m }
  put_map float m p = record p { float_map = m }
  put_map double m p = record p { double_map = m }
  put_map string m p = record p { string_map = m }

  module _ (k : Kind) where
    -- `get<std::vector<T>>`
    unfoldable pub get_vector : Text → GenericParameters I F D → Option (List (Value I F D k))
    unfolding get_map
    get_vector key p = map_find text_order key (get_map k p)

    -- `get<T>`
    unfoldable pub get_value : Text → GenericParameters I F D → Option (Value I F D k)
    unfolding get_map first
    get_value key p = first (map_find text_order key (get_map k p))

    -- `set` of a vector
    unfoldable pub set_vector :
        Text → List (Value I F D k) → GenericParameters I F D → GenericParameters I F D
    unfolding get_map put_map
    set_vector key v p = put_map k (map_assign text_order key v (get_map k p)) p

    -- `set` of one value, which is stored as a vector
    unfoldable pub set_value :
        Text → Value I F D k → GenericParameters I F D → GenericParameters I F D
    unfolding get_map put_map
    set_value key v p = put_map k (map_assign text_order key (v ∷ []) (get_map k p)) p

    unfoldable pub get_n : Text → GenericParameters I F D → ℕ
    unfolding get_map count_of
    get_n key p = count_of (map_find text_order key (get_map k p))

    unfoldable pub get_keys : GenericParameters I F D → List Text
    unfolding get_map
    get_keys p = keys (get_map k p)

    unfoldable pub get_keys_and_values :
        GenericParameters I F D → List Text × List (List (Value I F D k))
    unfolding get_map
    get_keys_and_values p = (keys (get_map k p), map (λ e. e.1) (get_map k p))

    unfoldable pub load_from :
        List Text
        → List (List (Value I F D k))
        → GenericParameters I F D
        → Outcome (GenericParameters I F D)
    unfolding get_map put_map load_loop
    load_from ks vs p = do m ← load_loop ks vs (get_map k p); ok (put_map k m p)

  -- The copy constructor, under all four locks.
  unfoldable pub copy : GenericParameters I F D → GenericParameters I F D
  copy other = record {
    int_map = other.int_map;
    float_map = other.float_map;
    string_map = other.string_map;
    double_map = other.double_map;
  }

  unfoldable pub clear : GenericParameters I F D → GenericParameters I F D
  clear p = record p { int_map = []; float_map = []; string_map = []; double_map = [] }

  unfoldable pub empty : GenericParameters I F D → Bool
  empty p =
      is_empty p.int_map && is_empty p.float_map && is_empty p.double_map && is_empty p.string_map
