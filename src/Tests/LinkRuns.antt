-- ===== src/Tests/LinkRuns.antt =====
-- Runs of link collections.
use podio.Base.{
  ℕ, zero, suc, ◌<◌, ◌≤◌, ◌^◌, ◌++◌, ◌≡◌, refl, sym, get_elem?, ◌≢◌, ◌⊎◌, true, [], ◌∷◌, Option,
  none, some, ok, throws, invalid_argument, arith,
}
use mathlib.Core.Option.{some-injective}
use podio.SharedPtr.{update}
use podio.Links.{
  ObjectId, LinkObj, LinkCollection, Heap, untracked, new_id, empty_collection, push_back,
}
use podio.Links.Storage.{Provider, prepare_for_write}
use podio.Links.Elements.{IsNumbered, push_back-IsNumbered}
use podio.Links.RoundTrip.{Holds, placed, read_collection, read_collection-prepare_for_write}

-- The related objects are known by their IDs, and collection 8 has them all.
abbrev provider : Provider ObjectId ObjectId
provider = record {
  Coll = ℕ;
  from_id = λ o. o;
  to_id = λ o. o;
  get = λ id. some id;
  from_at = λ coll i. ok (record { index = i; collection_id = coll });
  to_at = λ coll i. ok (record { index = i; collection_id = coll });
  link_at = λ coll i. ok none;
}

abbrev object : ℕ → ObjectId
object i = record { index = i; collection_id = 8 }

abbrev link : ℕ → LinkObj ObjectId ObjectId ℕ
link i = record {
  id = record { index = i; collection_id = 3 };
  weight = 10;
  from = some (object i);
  to = none;
}

-- Two links, at the addresses 0 and 1.
abbrev heap : Heap ObjectId ObjectId ℕ
heap a = elim a [ zero ↦ some (link 0) | suc zero ↦ some (link 1) | suc (suc b) ↦ none ]

abbrev links : LinkCollection ℕ
links = record empty_collection { entries = some 0 ∷ some 1 ∷ []; collection_id = 3 }

read_collection-prepare_for_write_example :
    (c' : LinkCollection ℕ) × (g' : Heap ObjectId ObjectId ℕ) × (d : LinkCollection ℕ)
    × (prepare_for_write provider heap links ≡ ok c')
    × (read_collection provider 20 4 c'.data_buffer c'.ref_collections heap ≡ ok (g', d))
    × Holds g' d.entries (placed provider true true 0 4 (link 0 ∷ link 1 ∷ []))
    × ((a : ℕ) → a < 20 → g' a ≡ heap a)
read_collection-prepare_for_write_example =
    read_collection-prepare_for_write provider 20 4 (link 0 ∷ link 1 ∷ []) heap heap links [] []
      refl refl refl refl (refl, (refl, tt))
      ((omega arith, 8, refl, refl), tt, ((omega arith, 8, refl, refl), tt, tt))

links-IsNumbered : IsNumbered heap links
links-IsNumbered = record { normal = refl; few = omega arith; numbered = numbered }
  where
    numbered :
        (i : ℕ) (e : Option ℕ)
        → get_elem? links.entries i ≡ some e
        → (a : ℕ) × (o : LinkObj ObjectId ObjectId ℕ) × (e ≡ some a)
          × (heap a ≡ some o)
          × (o.id ≡ record { index = i; collection_id = 3 })
    numbered zero e q = (0, link 0, sym (some-injective _ _ q), refl, refl)
    numbered (suc zero) e q = (1, link 1, sym (some-injective _ _ q), refl, refl)
    numbered (suc (suc i)) e q = cc

abbrev loose : LinkObj ObjectId ObjectId ℕ
loose = record { id = new_id; weight = 4; from = none; to = none }

abbrev wider : Heap ObjectId ObjectId ℕ
wider = update heap 9 (some loose)

wider-IsNumbered : IsNumbered wider links
wider-IsNumbered = record {
  normal = refl;
  few = omega arith;
  numbered = λ i e q.
      let (a, o, r, s, t) = links-IsNumbered.numbered i e q in (a, o, r, ground (arith, s), t);
}

-- A subset collection, which refuses the object that the normal collection takes
abbrev subset_links : LinkCollection ℕ
subset_links = record links { is_subset_coll = true }

push_back-IsNumbered_example :
    (((untracked ≡ untracked)
        × (h' : Heap ObjectId ObjectId ℕ) × (c' : LinkCollection ℕ) × (push_back 9 wider links
            ≡ ok (h', c'))
        × IsNumbered h' c'
        × (c'.entries ≡ some 0 ∷ some 1 ∷ some 9 ∷ [])
        × (push_back 9 h' c' ≡ throws invalid_argument))
      ⊎ ((untracked ≢ untracked) × (push_back 9 wider links ≡ throws invalid_argument)))
    × (((untracked < 2 ^ 31)
          × (push_back 9 wider subset_links
              ≡ ok (wider, record subset_links { entries = subset_links.entries ++ some 9 ∷ [] })))
        ⊎ ((2 ^ 31 ≤ untracked) × (push_back 9 wider subset_links ≡ throws invalid_argument)))
push_back-IsNumbered_example =
    push_back-IsNumbered 9 loose wider links subset_links wider-IsNumbered (omega arith) refl
      (ground arith)
