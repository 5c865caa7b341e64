-- ===== src/UserData.antt =====
-- `UserDataCollection` (include/podio/UserDataCollection.h): a vector of numbers as a collection of its
-- own, which has no relations and cannot be a subset. `A` is the type of elements.
use podio.Base.{
  ℕ, ◌-◌, Text, ℕ_discrete, ite, Bool, true, false, List, [], ◌∷◌, ◌++◌, Outcome, out_of_range,
  unchecked, or_throw, length, get_elem?, set, take, replicate, is_empty,
}
use podio.Registry.{no_definition_necessary}
use podio.Links.{untracked, invalid}

abbrev pub schema_version : ℕ
schema_version = 1

module _ (A : Type 0) where
  pub record UserDataCollection : Type 0 where
    pub vec : List A
    pub collection_id : ℕ

module _ {A : Type 0} where
  -- The constructors: without elements, and from the elements of a vector or a range
  abbrev pub empty_collection : UserDataCollection A
  empty_collection = record { vec = []; collection_id = 0 }

  unfoldable pub from_range : List A → UserDataCollection A
  from_range range = record { vec = range; collection_id = 0 }

  -- What only a collection of objects has to do
  unfoldable pub prepare_for_write : UserDataCollection A → UserDataCollection A
  prepare_for_write c = c

  unfoldable pub prepare_after_read : UserDataCollection A → UserDataCollection A
  prepare_after_read c = c

  unfoldable pub set_references : UserDataCollection A → Bool × UserDataCollection A
  set_references c = (true, c)

  unfoldable pub set_id : ℕ → UserDataCollection A → UserDataCollection A
  set_id id c = record c { collection_id = id }

  -- The vector that the buffers point to; there are no references and vector members.
  unfoldable pub get_buffers : UserDataCollection A → List A
  get_buffers c = c.vec

  unfoldable pub has_id : UserDataCollection A → Bool
  has_id c =
      ite (ℕ_discrete c.collection_id untracked) false
        (ite (ℕ_discrete c.collection_id invalid) false true)

  unfoldable pub size : UserDataCollection A → ℕ
  size c = length c.vec

  unfoldable pub empty : UserDataCollection A → Bool
  empty c = is_empty c.vec

  unfoldable pub clear : UserDataCollection A → UserDataCollection A
  clear c = record c { vec = [] }

  unfoldable pub is_subset_collection : UserDataCollection A → Bool
  is_subset_collection c = false

  unfoldable pub set_subset_collection : Bool → UserDataCollection A → UserDataCollection A
  set_subset_collection setting c = c

  unfoldable pub datamodel_registry_index : UserDataCollection A → ℕ
  datamodel_registry_index c = no_definition_necessary

  -- `operator<<`: the elements, as `show` prints them
  unfoldable pub print_rest : (show : A → Text) → List A → Text
  print_rest show [] = []
  print_rest show (a ∷ as') = (44 ∷ 32 ∷ []) ++ show a ++ print_rest show as'

  unfoldable pub print_elements : (show : A → Text) → List A → Text
  unfolding print_rest
  print_elements show [] = []
  print_elements show (a ∷ as') = show a ++ print_rest show as'

  unfoldable pub print : (show : A → Text) → UserDataCollection A → Text
  unfolding print_elements
  print show c = (91 ∷ []) ++ print_elements show c.vec ++ 93 ∷ []

  -- `create` appends the value 0, and gives a reference to its place.
  unfoldable pub create : (zero_value : A) → UserDataCollection A → ℕ × UserDataCollection A
  create zero_value c = (length c.vec, record c { vec = c.vec ++ zero_value ∷ [] })

  unfoldable pub push_back : A → UserDataCollection A → UserDataCollection A
  push_back value c = record c { vec = c.vec ++ value ∷ [] }

  -- `operator[]` and `at`
  unfoldable pub element : ℕ → UserDataCollection A → Outcome A
  element idx c = unchecked (get_elem? c.vec idx)

  unfoldable pub at : ℕ → UserDataCollection A → Outcome A
  at idx c = or_throw (get_elem? c.vec idx) out_of_range

  -- A write through the reference that they give
  unfoldable pub set_element : ℕ → A → UserDataCollection A → UserDataCollection A
  set_element idx value c = record c { vec = set c.vec idx value }

  unfoldable pub resize :
      (count : ℕ) → (zero_value : A) → UserDataCollection A → UserDataCollection A
  resize count zero_value c = record c {
    vec = take count c.vec ++ replicate (count - length c.vec) zero_value;
  }
