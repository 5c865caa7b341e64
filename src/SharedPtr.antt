-- ===== src/SharedPtr.antt =====
-- `MaybeSharedPtr` (include/podio/utilities/MaybeSharedPtr.h): a pointer with an optional control
-- block that counts the handles and says whether the last of them deletes the managed object. The
-- heap holds the control blocks and tells which objects are allocated; null is `none`. Each
-- operation is one step: the counter is atomic and the program gives no other guarantee.
pub mod Invariant
pub mod Run
use podio.Base.{
  ℕ, ◌+◌, ◌-◌, ◌%◌, ◌^◌, ◌≡◌, ℕ_discrete, ite, Bool, true, false, cond, Option, none, some, Outcome,
  ok, undefined, ◌>>=◌, unchecked,
}

pub record ControlBlock : Type 0 where
  pub count : ℕ
  pub owned : Bool

pub record Memory : Type 0 where
  pub blocks : ℕ → Option ControlBlock
  pub allocated : ℕ → Bool

pub record MaybeSharedPtr : Type 0 where
  pub ptr : Option ℕ
  pub ctrl_block : Option ℕ

abbrev pub update {ℓ} : {A : Type ℓ} → (ℕ → A) → ℕ → A → ℕ → A
update f a v b = ite (ℕ_discrete b a) v (f b)

-- The constructor from a raw pointer: someone else manages the object.
unfoldable pub from_raw : ℕ → MaybeSharedPtr
from_raw p = record { ptr = some p; ctrl_block = none }

-- The constructor with `MarkOwned`, with `c` the address of the new control block.
unfoldable pub mark_owned : Memory → (p c : ℕ) → Memory × MaybeSharedPtr
mark_owned m p c = (
  record m { blocks = update m.blocks c (some (record { count = 1; owned = true })) },
  record { ptr = some p; ctrl_block = some c },
)

-- The copy constructor: the copy has the same two pointers.
unfoldable pub copy : Memory → MaybeSharedPtr → Outcome Memory
copy m h = elim h.ctrl_block [
  | none ↦ ok m
  | some c ↦ do
    b ← unchecked (m.blocks c)
    ok (record m {
      blocks = update m.blocks c (some (record b { count = (b.count + 1) % 2 ^ 32 }));
    })
]

-- The move constructor: the new handle, and what is left of the old one.
unfoldable pub move : MaybeSharedPtr → MaybeSharedPtr × MaybeSharedPtr
move h = (h, record { ptr = none; ctrl_block = none })

-- `delete m_ptr`: of null nothing, of an object that is not allocated undefined.
unfoldable pub delete_object : Memory → Option ℕ → Outcome Memory
delete_object m none = ok m
delete_object m (some p) =
    cond (m.allocated p) (ok (record m { allocated = update m.allocated p false })) undefined

-- The end of the last handle: the object goes if it is owned, the control block in any case.
unfoldable pub clean_up : Memory → Option ℕ → ℕ → Bool → Outcome Memory
unfolding delete_object
clean_up m ptr c true = do
  m' ← delete_object m ptr
  ok (record m' { blocks = update m'.blocks c none })
clean_up m ptr c false = ok (record m { blocks = update m.blocks c none })

-- The destructor. `--count` wraps around at 0.
unfoldable pub destroy : Memory → MaybeSharedPtr → Outcome Memory
unfolding clean_up
destroy m h = elim h.ctrl_block [
  | none ↦ ok m
  | some c ↦ do
    b ← unchecked (m.blocks c)
    let left = (b.count + 2 ^ 32 - 1) % 2 ^ 32
    ite (ℕ_discrete left 0) (clean_up m h.ptr c b.owned)
        (ok (record m { blocks = update m.blocks c (some (record b { count = left })) }))
]

-- `release`: the object is no longer deleted with the last handle.
unfoldable pub release : Memory → MaybeSharedPtr → Outcome (Option ℕ × Memory)
release m h = elim h.ctrl_block [
  | none ↦ ok (h.ptr, m)
  | some c ↦ do
    b ← unchecked (m.blocks c)
    ok (h.ptr, record m { blocks = update m.blocks c (some (record b { owned = false })) })
]

-- `operator=`: the argument is a copy, which takes the old value and is destroyed with it.
unfoldable pub assign : Memory → (this other : MaybeSharedPtr) → Outcome (Memory × MaybeSharedPtr)
unfolding copy destroy
assign m this other = do m' ← copy m other; m'' ← destroy m' this; ok (m'', other)
