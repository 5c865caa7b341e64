-- ===== src/Links/Handle.antt =====
-- The handles `Link` and `MutableLink` (include/podio/detail/Link.h): a pointer to a link on the heap,
-- null for an empty handle. Both kinds of handles have the same operations here; only mutable ones have
-- those that change the link. The counts of the handles are those of `MaybeSharedPtr`.
use podio.Base.{
  ℕ, ◌≡◌, ◌≢◌, ℕ_discrete, dec_lt, ite, cond, Bool, true, false, Option, none, some, Outcome, ok,
  undefined, ◌>>=◌, unchecked, arith,
}
use podio.Links.{ObjectId, new_id, LinkObj, Heap, object_at, store}

unfoldable pub or_empty : {A : Type 0} → (empty : A) → Option A → A
or_empty empty none = empty
or_empty empty (some a) = a

unfoldable pub is_available : Option ℕ → Bool
is_available none = false
is_available (some a) = true

-- `unlink` leaves an empty handle.
unfoldable pub unlink : Option ℕ → Option ℕ
unlink link = none

-- `operator==` and `operator<` of the pointers, null below all
unfoldable pub same_link : Option ℕ → Option ℕ → Bool
same_link none none = true
same_link none (some b) = false
same_link (some a) none = false
same_link (some a) (some b) = ite (ℕ_discrete a b) true false

unfoldable pub link_lt : Option ℕ → Option ℕ → Bool
link_lt none none = false
link_lt none (some b) = true
link_lt (some a) none = false
link_lt (some a) (some b) = ite (dec_lt a b) true false

module _ {F T W : Type 0} where
  -- `LinkT()` and `LinkT(weight)`, with `a` the address of the new object and `unit` the weight of a
  -- new link
  unfoldable pub make_link : (unit : W) → ℕ → Heap F T W → Option ℕ × Heap F T W
  make_link unit a h =
      (some a, store h a (record { id = new_id; weight = unit; from = none; to = none }))

  unfoldable pub get_weight : Heap F T W → Option ℕ → Outcome W
  unfolding object_at
  get_weight h link = do obj ← object_at h link; ok obj.weight

  -- A change of the object that the handle points to
  unfoldable pub change :
      (LinkObj F T W → LinkObj F T W) → Option ℕ → Heap F T W → Outcome (Heap F T W)
  change f none h = undefined
  change f (some a) h = do obj ← unchecked (h a); ok (store h a (f obj))

  unfoldable pub set_weight : W → Option ℕ → Heap F T W → Outcome (Heap F T W)
  unfolding change
  set_weight value = change (λ obj. record obj { weight = value })

  unfoldable pub get_from : (empty : F) → Heap F T W → Option ℕ → Outcome F
  unfolding object_at or_empty
  get_from empty h link = do obj ← object_at h link; ok (or_empty empty obj.from)

  unfoldable pub get_to : (empty : T) → Heap F T W → Option ℕ → Outcome T
  unfolding object_at or_empty
  get_to empty h link = do obj ← object_at h link; ok (or_empty empty obj.to)

  unfoldable pub set_from : F → Option ℕ → Heap F T W → Outcome (Heap F T W)
  unfolding change
  set_from value = change (λ obj. record obj { from = some value })

  unfoldable pub set_to : T → Option ℕ → Heap F T W → Outcome (Heap F T W)
  unfolding change
  set_to value = change (λ obj. record obj { to = some value })

  unfoldable pub copy_of : (clone_relations : Bool) → LinkObj F T W → LinkObj F T W
  copy_of clone_relations obj = record {
    id = new_id;
    weight = obj.weight;
    from = cond clone_relations obj.from none;
    to = cond clone_relations obj.to none;
  }

  -- The deep copy at the address `a`: the weight, and the relations if they are asked for.
  unfoldable pub clone :
      (clone_relations : Bool) → ℕ → Option ℕ → Heap F T W → Outcome (Option ℕ × Heap F T W)
  unfolding object_at copy_of
  clone clone_relations a link h = do
    obj ← object_at h link
    ok (some a, store h a (copy_of clone_relations obj))

  unfoldable pub get_object_id : Heap F T W → Option ℕ → Outcome ObjectId
  unfolding object_at
  get_object_id h none = ok new_id
  get_object_id h (some a) = do obj ← object_at h (some a); ok obj.id

  -- A deep copy at a new address has the weight and, where they are asked for, the relations of the
  -- link, and no ID yet. The link stays as it is when the weight and the relations of the copy are
  -- set afterwards.
  pub clone_lem :
      (relations : Bool) (a b : ℕ) (h : Heap F T W) (obj : LinkObj F T W) (value : W) (from : F)
      (to : T)
      → h b ≡ some obj
      → b ≢ a
      → (h' : Heap F T W) × (clone relations a (some b) h ≡ ok (some a, h'))
        × (get_weight h' (some a) ≡ ok obj.weight)
        × (get_from from h' (some a) ≡ ok (or_empty from (cond relations obj.from none)))
        × (get_to to h' (some a) ≡ ok (or_empty to (cond relations obj.to none)))
        × (get_object_id h' (some a) ≡ ok new_id)
        × (h'' : Heap F T W) × ((do
          h1 ← set_weight value (some a) h'
          h2 ← set_from from (some a) h1
          set_to to (some a) h2)
            ≡ ok h'')
        × (h'' b ≡ some obj)
  unfolding clone get_weight get_from get_to get_object_id set_weight set_from set_to
  clone_lem relations a b h obj value from to p q =
      let o : LinkObj F T W = copy_of relations obj in
      let h' : Heap F T W = store h a o in
      let h1 : Heap F T W = store h' a (record o { weight = value }) in
      let h2 : Heap F T W = store h1 a (record o { weight = value; from = some from }) in
      let h3 : Heap F T W =
        store h2 a (record o { weight = value; from = some from; to = some to }) in
      (
        h',
        ground arith,
        ground arith,
        ground arith,
        ground arith,
        ground arith,
        h3,
        ground arith,
        ground arith,
      )
