-- ===== src/Links/RoundTrip.antt =====
-- What is written of a link collection is what is read again.
use podio.Base.{
  ℕ, suc, ◌%◌, ◌^◌, ◌<◌, ◌≡◌, refl, sym, ap, subst, ◌∙◌, ◌≢◌, cond, Bool, true, false, List, [],
  ◌∷◌, ◌++◌, append_assoc, append-nil, map, Option, none, some, Outcome, ok, ◌>>=◌, arith,
}
use podio.Links.{
  ObjectId, LinkObj, LinkCollection, Heap, object_at, store, invalid, set_ids, set_id,
}
use podio.Links.Storage.{
  Provider, relation_id, resolve, write_links, write_buffers, prepare_for_write, from_buffers,
  make_objects, prepare_after_read, resolve_from, resolve_to, set_references,
}

module _ {F T W : Type 0} where
  -- The entries point to the objects, one after the other.
  abbrev pub Holds : Heap F T W → List (Option ℕ) → List (LinkObj F T W) → Type 0
  Holds h [] [] = Unit
  Holds h [] (o ∷ os) = ⊥
  Holds h (none ∷ es) os = ⊥
  Holds h (some a ∷ es) [] = ⊥
  Holds h (some a ∷ es) (o ∷ os) = (h a ≡ some o) × Holds h es os

  -- The addresses from `n` on, one for each object.
  abbrev pub addresses : ℕ → List (LinkObj F T W) → List (Option ℕ)
  addresses n [] = []
  addresses n (o ∷ os) = some n ∷ addresses (suc n) os

  Holds-store :
      (h : Heap F T W) (m n : ℕ) (o : LinkObj F T W) (os : List (LinkObj F T W))
      → m < n
      → Holds h (addresses n os) os
      → Holds (store h m o) (addresses n os) os
  Holds-store h m n o [] l e = tt
  Holds-store h m n o (o' ∷ os) l e =
      (ground (arith, e.0), Holds-store h m (suc n) o os (omega arith) e.1)

module _ {F T : Type 0} (p : Provider F T) where
  -- The relation leads back to its object: by its stored ID the collection is found, and the object
  -- at the index.
  abbrev pub Resolves : {A : Type 0} → (A → ObjectId) → (p.Coll → ℕ → Outcome A) → Option A → Type 0
  Resolves id_of at none = Unit
  Resolves id_of at (some a) =
      ((id_of a).index ≢ invalid)
      × (coll : p.Coll) × (p.get (id_of a).collection_id ≡ some coll)
      × (at coll (id_of a).index ≡ ok a)

  resolve-relation_id :
      {A : Type 0} (id_of : A → ObjectId) (at : p.Coll → ℕ → Outcome A) (o : Option A)
      → Resolves id_of at o
      → resolve p at (relation_id id_of o) ≡ ok o
  unfolding resolve relation_id
  resolve-relation_id id_of at none r = ground arith
  resolve-relation_id id_of at (some a) r = ground (arith, r.0, r.2, r.3)

module _ {F T W : Type 0} (p : Provider F T) where
  write_links-Holds :
      (h : Heap F T W) (es : List (Option ℕ)) (os : List (LinkObj F T W)) (ws : List W)
      (fs ts : List ObjectId)
      → Holds h es os
      → write_links p h es ws fs ts
        ≡ ok (
          ws ++ map (λ o. o.weight) os,
          fs ++ map (λ o. relation_id p.from_id o.from) os,
          ts ++ map (λ o. relation_id p.to_id o.to) os,
        )
  unfolding write_links object_at
  write_links-Holds h [] [] ws fs ts e = rw (append-nil ws, append-nil fs, append-nil ts) refl
  write_links-Holds h [] (o ∷ os) ws fs ts e = absurd e
  write_links-Holds h (none ∷ es) os ws fs ts e = absurd e
  write_links-Holds h (some a ∷ es) [] ws fs ts e = absurd e
  write_links-Holds h (some a ∷ es) (o ∷ os) ws fs ts e =
      let fid = relation_id p.from_id o.from in
      let tid = relation_id p.to_id o.to in
      rw
        (
          e.0,
          sym (append_assoc ws (o.weight ∷ []) (map (λ o. o.weight) os)),
          sym (append_assoc fs (fid ∷ []) (map (λ o. relation_id p.from_id o.from) os)),
          sym (append_assoc ts (tid ∷ []) (map (λ o. relation_id p.to_id o.to) os)),
        )
        (write_links-Holds h es os (ws ++ o.weight ∷ []) (fs ++ fid ∷ []) (ts ++ tid ∷ []) e.1)

  abbrev pub AllResolve : List (LinkObj F T W) → Type 0
  AllResolve [] = Unit
  AllResolve (o ∷ os) =
      Resolves p p.from_id p.from_at o.from × Resolves p p.to_id p.to_at o.to × AllResolve os

  -- The links of a list with the IDs that they get from their places, and with or without relations.
  abbrev pub placed :
      (froms tos : Bool) → (index id : ℕ) → List (LinkObj F T W) → List (LinkObj F T W)
  placed f t i id [] = []
  placed f t i id (o ∷ os) =
      record {
        id = record { index = i % 2 ^ 32; collection_id = id };
        weight = o.weight;
        from = cond f o.from none;
        to = cond t o.to none;
      }
      ∷ placed f t (suc i) id os

  Holds-placed :
      (h : Heap F T W) (m n : ℕ) (o : LinkObj F T W) (os qs : List (LinkObj F T W))
      → m < n
      → Holds h (addresses n os) qs
      → Holds (store h m o) (addresses n os) qs
  Holds-placed h m n o [] [] l e = tt
  Holds-placed h m n o [] (q ∷ qs) l e = absurd e
  Holds-placed h m n o (o' ∷ os) [] l e = absurd e
  Holds-placed h m n o (o' ∷ os) (q ∷ qs) l e =
      (ground (arith, e.0), Holds-placed h m (suc n) o os qs (omega arith) e.1)

  -- What is below an address is as it was.
  abbrev SameBelow : ℕ → Heap F T W → Heap F T W → Type 0
  SameBelow n h h' = (a : ℕ) → a < n → h' a ≡ h a

  stored_below :
      (n : ℕ) (o : LinkObj F T W) (h h' : Heap F T W)
      → SameBelow (suc n) (store h n o) h'
      → SameBelow n h h'
  stored_below n o h h' s a l = s a (omega arith) ∙ ground arith

  make_objects_lem :
      (n i id : ℕ) (os : List (LinkObj F T W)) (h : Heap F T W)
      → (h' : Heap F T W) × (make_objects p n i id (map (λ o. o.weight) os) h
          ≡ (addresses n os, h'))
        × Holds h' (addresses n os) (placed false false i id os)
        × SameBelow n h h'
  unfolding make_objects
  make_objects_lem n i id [] h = (h, refl, tt, λ a l. refl)
  make_objects_lem n i id (o ∷ os) h =
      let new : LinkObj F T W = record {
        id = record { index = i % 2 ^ 32; collection_id = id };
        weight = o.weight;
        from = none;
        to = none;
      } in
      let (h', e, v, s) = make_objects_lem (suc n) (suc i) id os (store h n new) in
      (h', rw e refl, (s n (omega arith) ∙ ground arith, v), stored_below n new h h' s)

  set_ids_lem :
      (n i old id : ℕ) (os : List (LinkObj F T W)) (h : Heap F T W)
      → Holds h (addresses n os) (placed false false i old os)
      → (h' : Heap F T W) × (set_ids id (addresses n os) h ≡ ok h')
        × Holds h' (addresses n os) (placed false false i id os)
        × SameBelow n h h'
  unfolding set_ids
  set_ids_lem n i old id [] h v = (h, refl, tt, λ a l. refl)
  set_ids_lem n i old id (o ∷ os) h v =
      let new : LinkObj F T W = record {
        id = record { index = i % 2 ^ 32; collection_id = id };
        weight = o.weight;
        from = none;
        to = none;
      } in
      let (h', e, w, s) =
        set_ids_lem (suc n) (suc i) old id os (store h n new)
          (Holds-placed h n (suc n) new os (placed false false (suc i) old os) (omega arith) v.1) in
      (h', rw (v.0) e, (s n (omega arith) ∙ ground arith, w), stored_below n new h h' s)

  resolve_from_lem :
      (n i id : ℕ) (os : List (LinkObj F T W)) (h : Heap F T W)
      → AllResolve os
      → Holds h (addresses n os) (placed false false i id os)
      → (h' : Heap F T W) × (resolve_from p
            (addresses n os)
            (map (λ o. relation_id p.from_id o.from) os)
            h
          ≡ ok h')
        × Holds h' (addresses n os) (placed true false i id os)
        × SameBelow n h h'
  unfolding resolve_from
  resolve_from_lem n i id [] h r v = (h, refl, tt, λ a l. refl)
  resolve_from_lem n i id (o ∷ os) h r v =
      let new : LinkObj F T W = record {
        id = record { index = i % 2 ^ 32; collection_id = id };
        weight = o.weight;
        from = o.from;
        to = none;
      } in
      let (h', e, w, s) =
        resolve_from_lem (suc n) (suc i) id os (store h n new) r.2
          (Holds-placed h n (suc n) new os (placed false false (suc i) id os) (omega arith) v.1) in
      (
        h',
        rw (v.0, resolve-relation_id p p.from_id p.from_at o.from r.0) e,
        (s n (omega arith) ∙ ground arith, w),
        stored_below n new h h' s,
      )

  resolve_to_lem :
      (n i id : ℕ) (os : List (LinkObj F T W)) (h : Heap F T W)
      → AllResolve os
      → Holds h (addresses n os) (placed true false i id os)
      → (h' : Heap F T W) × (resolve_to p
            (addresses n os)
            (map (λ o. relation_id p.to_id o.to) os)
            h
          ≡ ok h')
        × Holds h' (addresses n os) (placed true true i id os)
        × SameBelow n h h'
  unfolding resolve_to
  resolve_to_lem n i id [] h r v = (h, refl, tt, λ a l. refl)
  resolve_to_lem n i id (o ∷ os) h r v =
      let new : LinkObj F T W = record {
        id = record { index = i % 2 ^ 32; collection_id = id };
        weight = o.weight;
        from = o.from;
        to = o.to;
      } in
      let (h', e, w, s) =
        resolve_to_lem (suc n) (suc i) id os (store h n new) r.2
          (Holds-placed h n (suc n) new os (placed true false (suc i) id os) (omega arith) v.1) in
      (
        h',
        rw (v.0, resolve-relation_id p p.to_id p.to_at o.to r.1) e,
        (s n (omega arith) ∙ ground arith, w),
        stored_below n new h h' s,
      )

  -- How `Frame::doGet` reads a collection from buffers that are current.
  unfoldable pub read_collection :
      (next id : ℕ)
      → Option (List W)
      → List (List ObjectId)
      → Heap F T W
      → Outcome (Heap F T W × LinkCollection W)
  unfolding prepare_after_read set_id set_references from_buffers
  read_collection next id ws refs h = do
    (h', c) ← prepare_after_read p next h (from_buffers p ws refs false)
    (h'', c') ← set_id id h' c
    set_references p h'' c'

  read_collection_lem :
      (next id : ℕ) (os : List (LinkObj F T W)) (rs : List (List ObjectId)) (g : Heap F T W)
      → AllResolve os
      → (g' : Heap F T W) × (c : LinkCollection W) × (read_collection next id
            (some (map (λ o. o.weight) os))
            (map (λ o. relation_id p.from_id o.from) os
              ∷ map (λ o. relation_id p.to_id o.to) os
              ∷ rs)
            g
          ≡ ok (g', c))
        × (c.entries ≡ addresses next os)
        × Holds g' (addresses next os) (placed true true 0 id os)
        × SameBelow next g g'
  unfolding read_collection
  read_collection_lem next id os rs g r =
      let (g1, e1, v1, s1) = make_objects_lem next 0 0 os g in
      let (g2, e2, v2, s2) = set_ids_lem next 0 0 id os g1 v1 in
      let (g3, e3, v3, s3) = resolve_from_lem next 0 id os g2 r v2 in
      let (g4, e4, v4, s4) = resolve_to_lem next 0 id os g3 r v3 in
      (
        g4,
        record {
          is_prepared = true;
          is_subset_coll = false;
          collection_id = id;
          entries = addresses next os;
          ref_collections =
              map (λ o. relation_id p.from_id o.from) os
              ∷ map (λ o. relation_id p.to_id o.to) os
              ∷ rs;
          data_buffer = some (map (λ o. o.weight) os);
        },
        rw (e1, e2, e3, e4) refl,
        refl,
        v4,
        λ a l. s4 a l ∙ s3 a l ∙ s2 a l ∙ s1 a l,
      )

  -- A normal collection that was not prepared yet, with empty buffers, is written; and what is read
  -- from its buffers under any ID, if all relations can be resolved, are its links in their order,
  -- each with its weight and both relations, and with the ID that its place gives it. No object that
  -- was on the heap is touched.
  pub read_collection-prepare_for_write :
      (next id : ℕ) (os : List (LinkObj F T W)) (h g : Heap F T W) (c : LinkCollection W)
      (r r' : List ObjectId)
      → c.is_prepared ≡ false
      → c.is_subset_coll ≡ false
      → c.data_buffer ≡ some []
      → c.ref_collections ≡ r ∷ r' ∷ []
      → Holds h c.entries os
      → AllResolve os
      → (c' : LinkCollection W) × (g' : Heap F T W) × (d : LinkCollection W) × (prepare_for_write p
            h c
          ≡ ok c')
        × (read_collection next id c'.data_buffer c'.ref_collections g ≡ ok (g', d))
        × Holds g' d.entries (placed true true 0 id os)
        × ((a : ℕ) → a < next → g' a ≡ g a)
  unfolding prepare_for_write write_buffers
  read_collection-prepare_for_write next id os h g c r r' np ns nd nr v res =
      let (g', d, e, q, w, s) = read_collection_lem next id os [] g res in
      (
        record c {
          is_prepared = true;
          data_buffer = some (map (λ o. o.weight) os);
          ref_collections =
              map (λ o. relation_id p.from_id o.from) os
              ∷ map (λ o. relation_id p.to_id o.to) os
              ∷ [];
        },
        g',
        d,
        rw (np, ns, nd, nr, write_links-Holds h c.entries os [] [] [] v)
            (ap
              (λ b. ok (record c {
                is_prepared = true;
                is_subset_coll = b;
                data_buffer = some (map (λ o. o.weight) os);
                ref_collections =
                    map (λ o. relation_id p.from_id o.from) os
                    ∷ map (λ o. relation_id p.to_id o.to) os
                    ∷ [];
              }))
              ns),
        e,
        subst (λ es. Holds g' es (placed true true 0 id os)) (sym q) w,
        s,
      )
