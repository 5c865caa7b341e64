-- ===== src/SharedPtr/Invariant.antt =====
-- Every control block counts the handles that point to it, so that each object is deleted once.
use podio.Base.{
  ℕ, zero, suc, ◌+◌, ◌-◌, ◌%◌, ◌^◌, ◌≤◌, ◌<◌, ◌≡◌, refl, ◌≢◌, inl, inr, ℕ_discrete, ite, true,
  false, List, [], ◌∷◌, none, some, ok, Option-cases, Bool-cases, length, arith,
}
use podio.SharedPtr.{
  ControlBlock, Memory, MaybeSharedPtr, update, mark_owned, copy, destroy, release,
}

-- No control block is in the second memory only.
abbrev pub NoNewBlocks : Memory → Memory → Type 0
NoNewBlocks m m' = (c : ℕ) → m.blocks c ≡ none → m'.blocks c ≡ none

-- How many of the handles point to the control block.
abbrev pub uses : ℕ → List MaybeSharedPtr → ℕ
uses c [] = 0
uses c (h ∷ hs) = elim h.ctrl_block [
  | none ↦ uses c hs
  | some d ↦ ite (ℕ_discrete d c) (suc (uses c hs)) (uses c hs)
]

-- A handle points to the object of its control block.
abbrev pub Fits : (ℕ → ℕ) → List MaybeSharedPtr → Type 0
Fits object [] = Unit
Fits object (h ∷ hs) = ((c : ℕ) → h.ctrl_block ≡ some c → h.ptr ≡ some (object c)) × Fits object hs

-- The handles that are alive and the memory, where `object` tells the object of each control block.
pub record Inv (object : ℕ → ℕ) (m : Memory) (hs : List MaybeSharedPtr) : Type 0 where
  pub few : length hs < 2 ^ 32
  pub fits : Fits object hs
  pub counted :
      (c : ℕ) (b : ControlBlock) → m.blocks c ≡ some b → (b.count ≡ uses c hs) × (0 < b.count)
  pub tracked : (c : ℕ) → m.blocks c ≡ none → uses c hs ≡ 0
  pub living :
      (c : ℕ) (b : ControlBlock)
      → m.blocks c ≡ some b
      → b.owned ≡ true
      → m.allocated (object c) ≡ true
  pub alone :
      (c d : ℕ) (a b : ControlBlock)
      → m.blocks c ≡ some a
      → m.blocks d ≡ some b
      → a.owned ≡ true
      → b.owned ≡ true
      → c ≢ d
      → object c ≢ object d

uses-le-length : (c : ℕ) (hs : List MaybeSharedPtr) → uses c hs ≤ length hs
uses-le-length c [] = omega arith
uses-le-length c (h ∷ hs) = ground (arith, uses-le-length c hs)

module _ (object : ℕ → ℕ) (m : Memory) (h : MaybeSharedPtr) (hs : List MaybeSharedPtr) where
  -- The block of a handle that is alive.
  block_of :
      (c : ℕ)
      → Inv object m (h ∷ hs)
      → h.ctrl_block ≡ some c
      → (b : ControlBlock) × (m.blocks c ≡ some b) × (b.count ≡ suc (uses c hs))
  block_of c v e = elim (Option-cases (m.blocks c)) [
    | inl n ↦ absurd (ground (arith, v.tracked c n))
    | inr (b, n) ↦ (b, n, ground (arith, v.counted c b n))
  ]

  -- The memory with another value of the block.
  abbrev pub rewritten : ℕ → ControlBlock → Memory
  rewritten c b = record m { blocks = update m.blocks c (some b) }

  -- A copy of a handle that is alive succeeds and is counted.
  pub copy-Inv :
      Inv object m (h ∷ hs)
      → suc (length (h ∷ hs)) < 2 ^ 32
      → (m' : Memory) × (copy m h ≡ ok m') × Inv object m' (h ∷ h ∷ hs) × NoNewBlocks m m'
  unfolding copy
  copy-Inv v few = elim (Option-cases h.ctrl_block) [
    | inl e ↦ (
      m,
      rw (e, copy),
      record {
        few = few;
        fits = (v.fits.0, v.fits);
        counted = λ d a q. ground (arith, v.counted d a q);
        tracked = λ d q. ground (arith, v.tracked d q);
        living = v.living;
        alone = v.alone;
      },
      λ d q. q,
    )
    | inr (c, e) ↦
        let (b, found, n) = block_of c v e in
        let w : (b.count + 1) % 2 ^ 32 ≡ suc (b.count) = omega (arith, uses-le-length c hs) in
        (
          rewritten c (record b { count = suc b.count }),
          rw (e, copy, found, w),
          record {
            few = few;
            fits = (v.fits.0, v.fits);
            counted = λ d a q. ground (arith, v.counted d a);
            tracked = λ d q. ground (arith, v.tracked d);
            living = λ d a q. ground (arith, v.living d a, v.living c b found);
            alone = λ d d' a a' q q'.
                ground (arith, v.alone d d' a a', v.alone c d' b a' found, v.alone d c a b);
          },
          λ d q. ground arith,
        )
  ]

  -- The objects after the end of the handle: the last handle of an owning block takes its object
  -- along, and nothing else is deleted.
  pub data Deleted (m' : Memory) : Type 0 where
    last :
        (c p : ℕ) (b : ControlBlock)
        → h.ctrl_block ≡ some c
        → h.ptr ≡ some p
        → m.blocks c ≡ some b
        → b.owned ≡ true
        → uses c hs ≡ 0
        → m'.allocated ≡ update m.allocated p false
        → Deleted m'
    kept :
        ((c : ℕ) (b : ControlBlock)
          → h.ctrl_block ≡ some c
          → m.blocks c ≡ some b
          → b.owned ≡ true
          → 0 < uses c hs)
        → m'.allocated ≡ m.allocated
        → Deleted m'

  -- The memory after the control block is gone.
  abbrev freed : ℕ → Memory
  freed c = record m { blocks = update m.blocks c none }

  abbrev deleted : ℕ → Memory
  deleted c = record {
    blocks = update m.blocks c none;
    allocated = update m.allocated (object c) false;
  }

  freed-Inv :
      (c : ℕ) (b : ControlBlock)
      → Inv object m (h ∷ hs)
      → h.ctrl_block ≡ some c
      → m.blocks c ≡ some b
      → b.count ≡ 1
      → b.owned ≡ false
      → Inv object (freed c) hs
  freed-Inv c b v e found n o = record {
    few = omega (arith, v.few);
    fits = v.fits.1;
    counted = λ d a q. ground (arith, v.counted d a);
    tracked = λ d q. ground (arith, v.tracked d, v.counted c b found);
    living = λ d a q. ground (arith, v.living d a);
    alone = λ d d' a a' q q'. ground (arith, v.alone d d' a a');
  }

  deleted-Inv :
      (c : ℕ) (b : ControlBlock)
      → Inv object m (h ∷ hs)
      → h.ctrl_block ≡ some c
      → m.blocks c ≡ some b
      → b.count ≡ 1
      → b.owned ≡ true
      → Inv object (deleted c) hs
  deleted-Inv c b v e found n o = record {
    few = omega (arith, v.few);
    fits = v.fits.1;
    counted = λ d a q. ground (arith, v.counted d a);
    tracked = λ d q. ground (arith, v.tracked d, v.counted c b found);
    living = λ d a q. ground (arith, v.living d a, v.alone d c a b);
    alone = λ d d' a a' q q'. ground (arith, v.alone d d' a a');
  }

  shared-Inv :
      (c n : ℕ) (b : ControlBlock)
      → Inv object m (h ∷ hs)
      → h.ctrl_block ≡ some c
      → m.blocks c ≡ some b
      → b.count ≡ suc (suc n)
      → Inv object (rewritten c (record b { count = suc n })) hs
  shared-Inv c n b v e found k = record {
    few = omega (arith, v.few);
    fits = v.fits.1;
    counted = λ d a q. ground (arith, v.counted d a, v.counted c b found);
    tracked = λ d q. ground (arith, v.tracked d);
    living = λ d a q. ground (arith, v.living d a, v.living c b found);
    alone = λ d d' a a' q q'.
        ground (arith, v.alone d d' a a', v.alone c d' b a' found, v.alone d c a b);
  }

  counted_down :
      (c : ℕ) (b : ControlBlock)
      → h.ctrl_block ≡ some c
      → m.blocks c ≡ some b
      → b.count ≡ suc (uses c hs)
      → Inv object m (h ∷ hs)
      → (n : ℕ) → uses c hs ≡ n
      → (m' : Memory) × (destroy m h ≡ ok m') × Inv object m' hs × Deleted m' × NoNewBlocks m m'
  unfolding destroy
  counted_down c b e found k v zero z = elim (Bool-cases b.owned) [
    | inl o ↦
        let w : (b.count + 2 ^ 32 - 1) % 2 ^ 32 ≡ 0 = omega arith in
        let p = v.fits.0 c e in
        let live = v.living c b found o in
        (
          deleted c,
          rw (e, destroy, found, w, p, o, live) (ground arith),
          deleted-Inv c b v e found (omega arith) o,
          last c (object c) b e p found o z refl,
          λ d q. ground arith,
        )
    | inr o ↦
        let w : (b.count + 2 ^ 32 - 1) % 2 ^ 32 ≡ 0 = omega arith in
        (
          freed c,
          rw (e, destroy, found, w, o) (ground arith),
          freed-Inv c b v e found (omega arith) o,
          kept (λ d a q r s. ground arith) refl,
          λ d q. ground arith,
        )
  ]
  counted_down c b e found k v (suc n) z =
      let w : (b.count + 2 ^ 32 - 1) % 2 ^ 32 ≡ suc n = omega (arith, v.few, uses-le-length c hs) in
      (
        rewritten c (record b { count = suc n }),
        rw (e, destroy, found, w) (ground arith),
        shared-Inv c n b v e found (omega arith),
        kept (λ d a q r s. ground arith) refl,
        λ d q. ground arith,
      )

  -- The end of a handle that is alive succeeds: its object is deleted if this was the last handle of
  -- a block that still owns it, and no other object ever is.
  pub destroy-Inv :
      Inv object m (h ∷ hs)
      → (m' : Memory) × (destroy m h ≡ ok m') × Inv object m' hs × Deleted m' × NoNewBlocks m m'
  unfolding destroy
  destroy-Inv v = elim (Option-cases h.ctrl_block) [
    | inl e ↦ (m, rw (e, destroy), unshared e, kept (λ c b q. cc) refl, λ d q. q)
    | inr (c, e) ↦
        let (b, found, n) = block_of c v e in counted_down c b e found n v (uses c hs) refl
  ]
    where
      unshared : h.ctrl_block ≡ none → Inv object m hs
      unshared e = record {
        few = omega (arith, v.few);
        fits = v.fits.1;
        counted = λ d a q. ground (arith, v.counted d a q);
        tracked = λ d q. ground (arith, v.tracked d q);
        living = v.living;
        alone = v.alone;
      }

  -- `release` succeeds, keeps the counts and the objects, and gives the managed pointer.
  pub release-Inv :
      Inv object m (h ∷ hs)
      → (m' : Memory) × (release m h ≡ ok (h.ptr, m'))
        × Inv object m' (h ∷ hs)
        × (m'.allocated ≡ m.allocated)
        × NoNewBlocks m m'
        × ((c : ℕ) (b : ControlBlock)
            → h.ctrl_block ≡ some c
            → m'.blocks c ≡ some b
            → b.owned ≡ false)
  unfolding release
  release-Inv v = elim (Option-cases h.ctrl_block) [
    | inl e ↦ (m, rw (e, release), v, refl, λ d q. q, λ c b q. cc)
    | inr (c, e) ↦
        let (b, found, n) = block_of c v e in
        (
          rewritten c (record b { owned = false }),
          rw (e, release, found),
          record {
            few = v.few;
            fits = v.fits;
            counted = λ d a q. ground (arith, v.counted d a, v.counted c b found);
            tracked = λ d q. ground (arith, v.tracked d);
            living = λ d a q. ground (arith, v.living d a);
            alone = λ d d' a a' q q'. ground (arith, v.alone d d' a a');
          },
          refl,
          λ d q. ground arith,
          λ d a q r. ground arith,
        )
  ]

module _ (object : ℕ → ℕ) (m : Memory) (hs : List MaybeSharedPtr) (p c : ℕ) where
  uses-update :
      (d : ℕ)
      → uses d (record { ptr = some p; ctrl_block = some c } ∷ hs)
        ≡ ite (ℕ_discrete d c) (suc (uses d hs)) (uses d hs)
  uses-update d = ground arith

  Fits-update :
      (gs : List MaybeSharedPtr) → uses c gs ≡ 0 → Fits object gs → Fits (update object c p) gs
  Fits-update [] z f = tt
  Fits-update (g ∷ gs) z f = (λ d e. ground (arith, f.0 d), Fits-update gs (ground arith) f.1)

  -- A new owning handle on an object that no block owns, with a new control block.
  pub mark_owned-Inv :
      Inv object m hs
      → suc (length hs) < 2 ^ 32
      → m.blocks c ≡ none
      → m.allocated p ≡ true
      → ((d : ℕ) (b : ControlBlock) → m.blocks d ≡ some b → b.owned ≡ true → object d ≢ p)
      → Inv (update object c p) (mark_owned m p c).0 ((mark_owned m p c).1 ∷ hs)
  unfolding mark_owned
  mark_owned-Inv v few fresh live free = record {
    few = few;
    fits = (λ d e. ground arith, Fits-update hs (v.tracked c fresh) v.fits);
    counted = λ d a q. ground (arith, v.counted d a, v.tracked c fresh);
    tracked = λ d q. ground (arith, v.tracked d);
    living = λ d a q o. ground (arith, v.living d a);
    alone = λ d d' a a' q q' o o' ne. ground (arith, v.alone d d' a a', free d a, free d' a');
  }
