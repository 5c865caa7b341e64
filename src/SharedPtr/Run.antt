-- ===== src/SharedPtr/Run.antt =====
-- Whole programs over handles: any sequence of constructions, copies, releases, assignments and
-- destructions.
use podio.Base.{
  ℕ, zero, suc, ◌+◌, ◌^◌, ◌≤◌, ◌<◌, ◌≡◌, refl, sym, ap, subst, ◌∙◌, inl, inr, true, false, List, [],
  ◌∷◌, Option, none, some, Outcome, ok, ◌>>=◌, Option-cases, length, arith,
}
use mathlib.Core.Option.{some-injective}
use podio.SharedPtr.{
  ControlBlock, Memory, MaybeSharedPtr, update, from_raw, mark_owned, copy, destroy, release,
  assign,
}
use podio.SharedPtr.Invariant.{
  uses, Fits, Inv, NoNewBlocks, copy-Inv, destroy-Inv, release-Inv, mark_owned-Inv,
}

pub data Op : Type 0 where
  own : Op
  raw clone drop let_go : ℕ → Op
  rebind : ℕ → ℕ → Op

-- The handles that are alive, and the next address of `new`.
pub record State : Type 0 where
  pub memory : Memory
  pub handles : List MaybeSharedPtr
  pub next : ℕ

abbrev pub start : State
start = record {
  memory = record { blocks = λ c. none; allocated = λ p. false };
  handles = [];
  next = 0;
}

-- The handle at a position, and the others.
unfoldable pub pick : ℕ → List MaybeSharedPtr → Option (MaybeSharedPtr × List MaybeSharedPtr)
pick i [] = none
pick zero (h ∷ hs) = some (h, hs)
pick (suc i) (h ∷ hs) = elim (pick i hs) [ none ↦ none | some (g, gs) ↦ some (g, h ∷ gs) ]

-- A new object with its control block, and a handle that owns it.
unfoldable pub make_owned : State → State
unfolding mark_owned
make_owned s =
    let m = record s.memory { allocated = update s.memory.allocated s.next true } in
    record {
      memory = (mark_owned m s.next s.next).0;
      handles = (mark_owned m s.next s.next).1 ∷ s.handles;
      next = suc s.next;
    }

-- One operation, on the handles at the given positions. At a position without a handle it does
-- nothing.
unfoldable pub step : State → Op → Outcome State
step s own = ok (make_owned s)
step s (raw p) = ok (record s { handles = from_raw p ∷ s.handles })
step s (clone i) = elim (pick i s.handles) [
  | none ↦ ok s
  | some (h, hs) ↦ do m ← copy s.memory h; ok (record s { memory = m; handles = h ∷ h ∷ hs })
]
step s (drop i) = elim (pick i s.handles) [
  | none ↦ ok s
  | some (h, hs) ↦ do m ← destroy s.memory h; ok (record s { memory = m; handles = hs })
]
step s (let_go i) = elim (pick i s.handles) [
  | none ↦ ok s
  | some (h, hs) ↦ do (_, m) ← release s.memory h; ok (record s { memory = m; handles = h ∷ hs })
]
step s (rebind i j) = elim (pick i s.handles) [
  | none ↦ ok s
  | some (this, hs) ↦ elim (pick j hs) [
    | none ↦ ok s
    | some (other, rest) ↦ do
      (m, h) ← assign s.memory this other
      ok (record s { memory = m; handles = h ∷ other ∷ rest })
  ]
]

unfoldable pub run : State → List Op → Outcome State
run s [] = ok s
run s (o ∷ os) = do s' ← step s o; run s' os

uses-pick :
    (c i : ℕ) (hs : List MaybeSharedPtr) {h : MaybeSharedPtr} {gs : List MaybeSharedPtr}
    → pick i hs ≡ some (h, gs)
    → uses c hs ≡ uses c (h ∷ gs)
unfolding pick
uses-pick c i [] e = cc
uses-pick c zero (k ∷ hs) e = ground arith
uses-pick c (suc i) (k ∷ hs) {h} {gs} e = elim (Option-cases (pick i hs)) [
  | inl n ↦ ground arith
  | inr ((g, rest), n) ↦ ground (arith, uses-pick c i hs n)
]

Fits-pick :
    (object : ℕ → ℕ) (i : ℕ) (hs : List MaybeSharedPtr) {h : MaybeSharedPtr}
    {gs : List MaybeSharedPtr}
    → pick i hs ≡ some (h, gs)
    → Fits object hs
    → Fits object (h ∷ gs)
unfolding pick
Fits-pick object i [] e f = cc
Fits-pick object zero (k ∷ hs) e f =
    subst (λ (x : MaybeSharedPtr × List MaybeSharedPtr). Fits object (x.0 ∷ x.1))
      (some-injective _ _ e) f
Fits-pick object (suc i) (k ∷ hs) {h} {gs} e f = elim (Option-cases (pick i hs)) [
  | inl n ↦ absurd (ground arith)
  | inr ((g, rest), n) ↦
      let q : some (g, k ∷ rest) ≡ some (h, gs) = ground arith in
      let r = Fits-pick object i hs n f.1 in
      subst (λ (x : MaybeSharedPtr × List MaybeSharedPtr). Fits object (x.0 ∷ x.1))
        (some-injective _ _ q) (r.0, (f.0, r.1))
]

length-pick :
    (i : ℕ) (hs : List MaybeSharedPtr) {h : MaybeSharedPtr} {gs : List MaybeSharedPtr}
    → pick i hs ≡ some (h, gs)
    → length hs ≡ suc (length gs)
unfolding pick
length-pick i [] e = cc
length-pick zero (k ∷ hs) e = ground arith
length-pick (suc i) (k ∷ hs) {h} {gs} e = elim (Option-cases (pick i hs)) [
  | inl n ↦ ground arith
  | inr ((g, rest), n) ↦ ground (arith, length-pick i hs n)
]

module _ (object : ℕ → ℕ) (m : Memory) (hs gs : List MaybeSharedPtr) where
  -- The invariant does not depend on the order of the handles.
  Inv-reorder :
      ((c : ℕ) → uses c hs ≡ uses c gs)
      → Fits object gs
      → length gs ≡ length hs
      → Inv object m hs
      → Inv object m gs
  Inv-reorder u f n v = record {
    few = omega (arith, v.few);
    fits = f;
    counted = λ c b q. omega (arith, u c, v.counted c b q);
    tracked = λ c q. omega (arith, u c, v.tracked c q);
    living = v.living;
    alone = v.alone;
  }

pub Inv-pick :
    (object : ℕ → ℕ) (m : Memory) (i : ℕ) (hs : List MaybeSharedPtr) {h : MaybeSharedPtr}
    {gs : List MaybeSharedPtr}
    → pick i hs ≡ some (h, gs)
    → Inv object m hs
    → Inv object m (h ∷ gs)
Inv-pick object m i hs {h} {gs} e v =
    Inv-reorder object m hs (h ∷ gs) (λ c. uses-pick c i hs e) (Fits-pick object i hs e v.fits)
      (sym (length-pick i hs e)) v

assign_eq :
    (m m' m'' : Memory) (this other : MaybeSharedPtr)
    → copy m other ≡ ok m'
    → destroy m' this ≡ ok m''
    → assign m this other ≡ ok (m'', other)
unfolding assign
assign_eq m m' m'' this other q q' = rw (q, q')

uses-swap :
    (c : ℕ) (h g : MaybeSharedPtr) (hs : List MaybeSharedPtr)
    → uses c (h ∷ g ∷ hs) ≡ uses c (g ∷ h ∷ hs)
uses-swap c h g hs = ground arith

uses-cons :
    (c : ℕ) (h : MaybeSharedPtr) (hs gs : List MaybeSharedPtr)
    → uses c hs ≡ uses c gs
    → uses c (h ∷ hs) ≡ uses c (h ∷ gs)
uses-cons c h hs gs e = ground arith

module _ (object : ℕ → ℕ) (m : Memory) (this other : MaybeSharedPtr)
    (rest : List MaybeSharedPtr) where
  Inv-swap : Inv object m (this ∷ other ∷ rest) → Inv object m (other ∷ this ∷ rest)
  Inv-swap v =
      Inv-reorder object m (this ∷ other ∷ rest) (other ∷ this ∷ rest)
        (λ c. uses-swap c this other rest) (v.fits.1.0, (v.fits.0, v.fits.1.1)) refl v

  Inv-rotate :
      Inv object m (other ∷ other ∷ this ∷ rest) → Inv object m (this ∷ other ∷ other ∷ rest)
  Inv-rotate v =
      Inv-reorder object m (other ∷ other ∷ this ∷ rest) (this ∷ other ∷ other ∷ rest)
        (λ c.
          uses-cons c other (other ∷ this ∷ rest) (this ∷ other ∷ rest)
            (uses-swap c other this rest)
          ∙ uses-swap c other this (other ∷ rest))
        (v.fits.1.1.0, (v.fits.0, (v.fits.0, v.fits.1.1.1))) refl v

module _ (object : ℕ → ℕ) (m : Memory) (this other : MaybeSharedPtr)
    (rest : List MaybeSharedPtr) where
  assign-Inv :
      Inv object m (this ∷ other ∷ rest)
      → suc (suc (suc (length rest))) < 2 ^ 32
      → (m' : Memory) × (assign m this other ≡ ok (m', other))
        × Inv object m' (other ∷ other ∷ rest)
        × NoNewBlocks m m'
  assign-Inv v few =
      let (m', q, v', f) =
        copy-Inv object m other (this ∷ rest) (Inv-swap object m this other rest v) few in
      let (m'', q', v'', d, f') =
        destroy-Inv object m' this (other ∷ other ∷ rest)
          (Inv-rotate object m' this other rest v') in
      (m'', assign_eq m m' m'' this other q q', v'', λ c z. f' c (f c z))

Inv-second :
    (object : ℕ → ℕ) (m : Memory) (h : MaybeSharedPtr) (hs : List MaybeSharedPtr) (j : ℕ)
    {g : MaybeSharedPtr} {gs : List MaybeSharedPtr}
    → pick j hs ≡ some (g, gs)
    → Inv object m (h ∷ hs)
    → Inv object m (h ∷ g ∷ gs)
Inv-second object m h hs j {g} {gs} e v =
    Inv-reorder object m (h ∷ hs) (h ∷ g ∷ gs) (λ c. uses-cons c h hs (g ∷ gs) (uses-pick c j hs e))
      (v.fits.0, Fits-pick object j hs e v.fits.1) (ap suc (sym (length-pick j hs e))) v

-- The invariant of a whole program, with `n` operations to come.
pub record IsSafe (n : ℕ) (s : State) : Type 0 where
  pub object : ℕ → ℕ
  pub inv : Inv object s.memory s.handles
  pub unused : (c : ℕ) → s.next ≤ c → s.memory.blocks c ≡ none
  pub old : (c : ℕ) (b : ControlBlock) → s.memory.blocks c ≡ some b → object c < s.next
  pub room : length s.handles + n < 2 ^ 32

module _ (object : ℕ → ℕ) (next : ℕ) (m m' : Memory) where
  still_unused :
      NoNewBlocks m m'
      → ((c : ℕ) → next ≤ c → m.blocks c ≡ none)
      → (c : ℕ) → next ≤ c
      → m'.blocks c ≡ none
  still_unused f u c h = f c (u c h)

  still_old :
      NoNewBlocks m m'
      → ((c : ℕ) (b : ControlBlock) → m.blocks c ≡ some b → object c < next)
      → (c : ℕ) (b : ControlBlock) → m'.blocks c ≡ some b
      → object c < next
  still_old f o c b q = elim (Option-cases (m.blocks c)) [
    | inl n ↦ absurd (ground (arith, f c n))
    | inr (a, n) ↦ o c a n
  ]

-- The state after an operation that adds no control block.
carried :
    (n next : ℕ) (m m' : Memory) (object : ℕ → ℕ) (hs : List MaybeSharedPtr)
    → Inv object m' hs
    → NoNewBlocks m m'
    → ((c : ℕ) → next ≤ c → m.blocks c ≡ none)
    → ((c : ℕ) (b : ControlBlock) → m.blocks c ≡ some b → object c < next)
    → length hs + n < 2 ^ 32
    → IsSafe n (record { memory = m'; handles = hs; next = next })
carried n next m m' object hs v f u o r = record {
  object = object;
  inv = v;
  unused = still_unused object next m m' f u;
  old = still_old object next m m' f o;
  room = r;
}

rebind_eq :
    (s : State) (i j : ℕ) {this other : MaybeSharedPtr} {hs rest : List MaybeSharedPtr} (m : Memory)
    → pick i s.handles ≡ some (this, hs)
    → pick j hs ≡ some (other, rest)
    → assign s.memory this other ≡ ok (m, other)
    → step s (rebind i j) ≡ ok (record s { memory = m; handles = other ∷ other ∷ rest })
unfolding step
rebind_eq s i j m e e' q = rw (e, step, e', q)

module _ (n : ℕ) (s : State) (w : IsSafe (suc n) s) where
  IsSafe-less : IsSafe n s
  IsSafe-less = record {
    object = w.object;
    inv = w.inv;
    unused = w.unused;
    old = w.old;
    room = omega (arith, w.room);
  }

  allocated-Inv :
      Inv w.object (record s.memory { allocated = update s.memory.allocated s.next true }) s.handles
  allocated-Inv = record {
    few = w.inv.few;
    fits = w.inv.fits;
    counted = w.inv.counted;
    tracked = w.inv.tracked;
    living = λ c b q o. ground (arith, w.inv.living c b q o);
    alone = w.inv.alone;
  }

  own-IsSafe : IsSafe n (make_owned s)
  unfolding make_owned mark_owned
  own-IsSafe =
      let m = record s.memory { allocated = update s.memory.allocated s.next true } in
      record {
        object = update w.object s.next s.next;
        inv =
            mark_owned-Inv w.object m s.handles s.next s.next allocated-Inv (omega (arith, w.room))
              (w.unused s.next (omega arith)) (ground arith)
              (λ d b q o e. absurd (omega (arith, w.old d b q, e)));
        unused = λ c h. ground (arith, w.unused c);
        old = λ c b q. ground (arith, w.old c b);
        room = omega (arith, w.room);
      }

  raw-IsSafe : (p : ℕ) → IsSafe n (record s { handles = from_raw p ∷ s.handles })
  unfolding from_raw
  raw-IsSafe p = record {
    object = w.object;
    inv = record {
      few = omega (arith, w.room);
      fits = (λ c e. cc, w.inv.fits);
      counted = λ c b q. w.inv.counted c b q;
      tracked = λ c q. w.inv.tracked c q;
      living = w.inv.living;
      alone = w.inv.alone;
    };
    unused = w.unused;
    old = w.old;
    room = omega (arith, w.room);
  }

  drop-IsSafe : (i : ℕ) → (s' : State) × (step s (drop i) ≡ ok s') × IsSafe n s'
  unfolding step
  drop-IsSafe i = elim (Option-cases (pick i s.handles)) [
    | inl e ↦ (s, rw (e, step), IsSafe-less)
    | inr ((h, hs), e) ↦
        let v = Inv-pick w.object s.memory i s.handles e w.inv in
        let (m', q, v', d, f) = destroy-Inv w.object s.memory h hs v in
        (
          record s { memory = m'; handles = hs },
          rw (e, step, q),
          carried n s.next s.memory m' w.object hs v' f w.unused w.old
              (omega (arith, w.room, length-pick i s.handles e)),
        )
  ]

  clone-IsSafe : (i : ℕ) → (s' : State) × (step s (clone i) ≡ ok s') × IsSafe n s'
  unfolding step
  clone-IsSafe i = elim (Option-cases (pick i s.handles)) [
    | inl e ↦ (s, rw (e, step), IsSafe-less)
    | inr ((h, hs), e) ↦
        let l = length-pick i s.handles e in
        let v = Inv-pick w.object s.memory i s.handles e w.inv in
        let (m', q, v', f) = copy-Inv w.object s.memory h hs v (omega (arith, w.room, l)) in
        (
          record s { memory = m'; handles = h ∷ h ∷ hs },
          rw (e, step, q),
          carried n s.next s.memory m' w.object (h ∷ h ∷ hs) v' f w.unused w.old
              (omega (arith, w.room, l)),
        )
  ]

  let_go-IsSafe : (i : ℕ) → (s' : State) × (step s (let_go i) ≡ ok s') × IsSafe n s'
  unfolding step
  let_go-IsSafe i = elim (Option-cases (pick i s.handles)) [
    | inl e ↦ (s, rw (e, step), IsSafe-less)
    | inr ((h, hs), e) ↦
        let v = Inv-pick w.object s.memory i s.handles e w.inv in
        let (m', q, v', a, f, o) = release-Inv w.object s.memory h hs v in
        (
          record s { memory = m'; handles = h ∷ hs },
          rw (e, step, q),
          carried n s.next s.memory m' w.object (h ∷ hs) v' f w.unused w.old
              (omega (arith, w.room, length-pick i s.handles e)),
        )
  ]

  rebind-IsSafe : (i j : ℕ) → (s' : State) × (step s (rebind i j) ≡ ok s') × IsSafe n s'
  unfolding step
  rebind-IsSafe i j = elim (Option-cases (pick i s.handles)) [
    | inl e ↦ (s, rw (e, step), IsSafe-less)
    | inr ((this, hs), e) ↦ elim (Option-cases (pick j hs)) [
      | inl e' ↦ (s, rw (e, step, e'), IsSafe-less)
      | inr ((other, rest), e') ↦
          let l = length-pick i s.handles e in
          let l' = length-pick j hs e' in
          let v = Inv-pick w.object s.memory i s.handles e w.inv in
          let u = Inv-second w.object s.memory this hs j e' v in
          let few : suc (suc (suc (length rest))) < 2 ^ 32 = omega (arith, w.room) in
          let (m, q, v', f) = assign-Inv w.object s.memory this other rest u few in
          (
            record s { memory = m; handles = other ∷ other ∷ rest },
            rebind_eq s i j m e e' q,
            carried n s.next s.memory m w.object (other ∷ other ∷ rest) v' f w.unused w.old
                (omega (arith, w.room)),
          )
    ]
  ]

  -- No operation faults, and each keeps the invariant.
  step-IsSafe : (o : Op) → (s' : State) × (step s o ≡ ok s') × IsSafe n s'
  unfolding step
  step-IsSafe own = (make_owned s, refl, own-IsSafe)
  step-IsSafe (raw p) = (record s { handles = from_raw p ∷ s.handles }, refl, raw-IsSafe p)
  step-IsSafe (clone i) = clone-IsSafe i
  step-IsSafe (drop i) = drop-IsSafe i
  step-IsSafe (let_go i) = let_go-IsSafe i
  step-IsSafe (rebind i j) = rebind-IsSafe i j

run-IsSafe :
    (s : State) (os : List Op)
    → IsSafe (length os) s
    → (s' : State) × (run s os ≡ ok s') × IsSafe 0 s'
unfolding run
run-IsSafe s [] w = (s, refl, w)
run-IsSafe s (o ∷ os) w =
    let (s', e, w') = step-IsSafe (length os) s w o in
    let (s'', e', w'') = run-IsSafe s' os w' in (s'', rw (e, e'), w'')

start-IsSafe : (n : ℕ) → n < 2 ^ 32 → IsSafe n start
start-IsSafe n h = record {
  object = λ c. c;
  inv = record {
    few = omega arith;
    fits = tt;
    counted = λ c b q. cc;
    tracked = λ c q. refl;
    living = λ c b q. cc;
    alone = λ c d a b q. cc;
  };
  unused = λ c k. refl;
  old = λ c b q. cc;
  room = omega arith;
}

-- A program of fewer than 2^32 operations that starts without handles never deletes an object twice,
-- and never reads a control block that is gone. At its end every control block has a handle, so none
-- is leaked once all handles are gone, and the object of a block that still owns it is allocated.
pub run_safe :
    (os : List Op)
    → length os < 2 ^ 32
    → (s : State) × (run start os ≡ ok s)
      × (s.handles ≡ [] → (c : ℕ) → s.memory.blocks c ≡ none)
      × ((h : MaybeSharedPtr) (hs : List MaybeSharedPtr) (i c : ℕ) (b : ControlBlock)
          → pick i s.handles ≡ some (h, hs)
          → h.ctrl_block ≡ some c
          → s.memory.blocks c ≡ some b
          → b.owned ≡ true
          → (p : ℕ) × (h.ptr ≡ some p) × (s.memory.allocated p ≡ true))
run_safe os l =
    let (s, e, w) = run-IsSafe start os (start-IsSafe (length os) l) in
    (
      s,
      e,
      λ n c. no_leak s w n c,
      λ h hs i c b q r z o.
          (w.object c, (Fits-pick w.object i s.handles q w.inv.fits).0 c r, w.inv.living c b z o),
    )
  where
    no_leak : (s : State) → IsSafe 0 s → s.handles ≡ [] → (c : ℕ) → s.memory.blocks c ≡ none
    no_leak s w n c = elim (Option-cases (s.memory.blocks c)) [
      | inl e ↦ e
      | inr (b, e) ↦ absurd (ground (arith, w.inv.counted c b e))
    ]
