-- ===== src/Links.antt =====
-- `LinkCollection` and its storage (include/podio/detail/LinkCollectionImpl.h,
-- include/podio/detail/LinkCollectionData.h): links between an object of type `F` and one of type
-- `T`, with a weight `W`. The links are objects on the heap; the collection holds pointers to them.
-- A 32-bit `int` is its two's complement. The vectors `m_rel_from` and `m_rel_to` are left out:
-- nothing ever enters them.
pub mod Handle
pub mod Storage
pub mod Elements
pub mod RoundTrip
use podio.Base.{
  ℕ, zero, suc, ◌+◌, ◌-◌, ◌%◌, ◌^◌, ◌≤◌, ◌<◌, ℕ_discrete, dec_lt, dec_le, ite, cond, Bool, true,
  false, ◌&&◌, not, List, [], ◌∷◌, ◌++◌, Option, none, some, Outcome, ok, throws, undefined,
  invalid_argument, logic_error, out_of_range, ◌>>=◌, unchecked, or_throw, length, get_elem?,
  is_empty,
}
use podio.SharedPtr.{update}

pub record ObjectId : Type 0 where
  pub index : ℕ
  pub collection_id : ℕ

-- -1 and -2
abbrev pub untracked : ℕ
untracked = 2 ^ 32 - 1

abbrev pub invalid : ℕ
invalid = 2 ^ 32 - 2

abbrev pub new_id : ObjectId
new_id = record { index = untracked; collection_id = untracked }

pub record LinkObj (F T W : Type 0) : Type 0 where
  pub id : ObjectId
  pub weight : W
  pub from : Option F
  pub to : Option T

abbrev pub Heap : (F T W : Type 0) → Type 0
Heap F T W = ℕ → Option (LinkObj F T W)

-- Entries may be null: a subset collection keeps null for what it cannot resolve.
pub record LinkCollection (W : Type 0) : Type 0 where
  pub is_prepared : Bool
  pub is_subset_coll : Bool
  pub collection_id : ℕ
  pub entries : List (Option ℕ)
  pub ref_collections : List (List ObjectId)
  pub data_buffer : Option (List W)

-- `LinkCollection()`
abbrev pub empty_collection : {W : Type 0} → LinkCollection W
empty_collection = record {
  is_prepared = false;
  is_subset_coll = false;
  collection_id = 0;
  entries = [];
  ref_collections = [] ∷ [] ∷ [];
  data_buffer = some [];
}

abbrev pub clear_refs : List (List ObjectId) → List (List ObjectId)
clear_refs [] = []
clear_refs (r ∷ rs) = [] ∷ clear_refs rs

module _ {W : Type 0} where
  abbrev pub clear_data : Option (List W) → Option (List W)
  clear_data none = none
  clear_data (some ws) = some []

  -- The index operators, without a check, and `at`.
  unfoldable pub element : LinkCollection W → ℕ → Outcome (Option ℕ)
  element c i = unchecked (get_elem? c.entries i)

  unfoldable pub at : LinkCollection W → ℕ → Outcome (Option ℕ)
  at c i = or_throw (get_elem? c.entries i) out_of_range

module _ {F T W : Type 0} where
  -- `m_storage.entries[i]->…`
  unfoldable pub object_at : Heap F T W → Option ℕ → Outcome (LinkObj F T W)
  object_at h none = undefined
  object_at h (some a) = unchecked (h a)

  abbrev pub store : Heap F T W → ℕ → LinkObj F T W → Heap F T W
  store h a o = update h a (some o)

  -- `create`, with `a` the address of the new object and `unit` the weight of a new link.
  unfoldable pub create :
      (unit : W) → ℕ → Heap F T W → LinkCollection W → Outcome (ℕ × Heap F T W × LinkCollection W)
  create unit a h c = cond c.is_subset_coll (throws logic_error) (
      ok (
        a,
        store h a (record {
          id = record {
            index = (length c.entries + 1 - 1) % 2 ^ 32;
            collection_id = c.collection_id;
          };
          weight = unit;
          from = none;
          to = none;
        }),
        record c { entries = c.entries ++ some a ∷ [] },
      ))

  -- `push_back` of an immutable handle: only subset collections take it, and only if the object is
  -- in a collection.
  unfoldable pub push_back_immutable :
      ℕ → Heap F T W → LinkCollection W → Outcome (Heap F T W × LinkCollection W)
  unfolding object_at
  push_back_immutable a h c = cond (not c.is_subset_coll) (throws invalid_argument) (do
    obj ← object_at h (some a)
    ite (dec_le (2 ^ 31) obj.id.index) (throws invalid_argument)
        (ok (h, record c { entries = c.entries ++ some a ∷ [] })))

  unfoldable pub push_back :
      ℕ → Heap F T W → LinkCollection W → Outcome (Heap F T W × LinkCollection W)
  unfolding object_at push_back_immutable
  push_back a h c =
      cond (not c.is_subset_coll)
        (do
          obj ← object_at h (some a)
          ite (ℕ_discrete obj.id.index untracked)
              (ok (
                store h a (record obj {
                  id = record {
                    index = length c.entries % 2 ^ 32;
                    collection_id = c.collection_id;
                  };
                }),
                record c { entries = c.entries ++ some a ∷ [] },
              ))
              (throws invalid_argument))
        (push_back_immutable a h c)

  -- `delete obj`: of null nothing, of an object that is gone undefined.
  unfoldable pub delete_all : List (Option ℕ) → Heap F T W → Outcome (Heap F T W)
  delete_all [] h = ok h
  delete_all (none ∷ es) h = delete_all es h
  delete_all (some a ∷ es) h = do _ ← unchecked (h a); delete_all es (update h a none)

  -- `clear`: only a normal collection owns its objects and its data.
  unfoldable pub clear : Heap F T W → LinkCollection W → Outcome (Heap F T W × LinkCollection W)
  unfolding delete_all
  clear h c =
      cond c.is_subset_coll
        (ok (
          h,
          record c {
            is_prepared = false;
            entries = [];
            ref_collections = clear_refs c.ref_collections;
          },
        ))
        (do
          h' ← delete_all c.entries h
          ok (
            h',
            record c {
              is_prepared = false;
              entries = [];
              ref_collections = clear_refs c.ref_collections;
              data_buffer = clear_data c.data_buffer;
            },
          ))

  -- `setID` on the objects
  unfoldable pub set_ids : ℕ → List (Option ℕ) → Heap F T W → Outcome (Heap F T W)
  set_ids id [] h = ok h
  set_ids id (none ∷ es) h = undefined
  set_ids id (some a ∷ es) h = do
    obj ← unchecked (h a)
    set_ids id es
        (store h a (record obj { id = record { index = obj.id.index; collection_id = id } }))

  unfoldable pub set_id :
      ℕ → Heap F T W → LinkCollection W → Outcome (Heap F T W × LinkCollection W)
  unfolding set_ids
  set_id id h c = do
    h' ← cond (not c.is_subset_coll) (set_ids id c.entries h) (ok h)
    ok (h', record c { collection_id = id })

module _ {W : Type 0} where
  -- `setSubsetCollection` on a collection; the data buffer goes when it becomes a subset collection.
  unfoldable pub set_subset_collection : Bool → LinkCollection W → Outcome (LinkCollection W)
  set_subset_collection b c =
      cond (differs c.is_subset_coll b && not (is_empty c.entries)) (throws logic_error) (
        ok (
          cond b (record c { is_subset_coll = b; ref_collections = [] ∷ []; data_buffer = none })
            (record c { is_subset_coll = b })))
    where
      differs : Bool → Bool → Bool
      differs true d = not d
      differs false d = d

  unfoldable pub has_id : LinkCollection W → Bool
  has_id c =
      not (is_yes (ℕ_discrete c.collection_id untracked))
      && not (is_yes (ℕ_discrete c.collection_id invalid))
    where
      is_yes : {A : Type 0} → Dec A → Bool
      is_yes (yes _) = true
      is_yes (no _) = false
