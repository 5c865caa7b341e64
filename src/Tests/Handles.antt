-- ===== src/Tests/Handles.antt =====
-- Runs of shared handles.
use podio.Base.{ℕ, ◌≡◌, refl, true, false, List, [], ◌∷◌, none, some, ok, arith}
use podio.SharedPtr.{ControlBlock, Memory, MaybeSharedPtr, update, mark_owned, destroy}
use podio.SharedPtr.Invariant.{Inv, Deleted, NoNewBlocks, mark_owned-Inv, destroy-Inv}
use podio.SharedPtr.Run.{Op, own, clone, drop, let_go, rebind, State, start, pick, run, run_safe}

abbrev operations : List Op
operations = own ∷ clone 0 ∷ own ∷ rebind 0 1 ∷ let_go 1 ∷ drop 0 ∷ drop 0 ∷ drop 0 ∷ []

run_safe_example :
    (s : State) × (run start operations ≡ ok s)
    × (s.handles ≡ [] → (c : ℕ) → s.memory.blocks c ≡ none)
    × ((h : MaybeSharedPtr) (hs : List MaybeSharedPtr) (i c : ℕ) (b : ControlBlock)
        → pick i s.handles ≡ some (h, hs)
        → h.ctrl_block ≡ some c
        → s.memory.blocks c ≡ some b
        → b.owned ≡ true
        → (p : ℕ) × (h.ptr ≡ some p) × (s.memory.allocated p ≡ true))
run_safe_example = run_safe operations (omega arith)

-- One object, at address 5, which no handle owns yet.
abbrev before : Memory
before = record { blocks = λ c. none; allocated = update (λ p. false) 5 true }

before-Inv : Inv (λ c. c) before []
before-Inv = record {
  few = omega arith;
  fits = tt;
  counted = λ c b q. cc;
  tracked = λ c q. refl;
  living = λ c b q. cc;
  alone = λ c d a b q. cc;
}

abbrev memory : Memory
unfolding mark_owned
memory = (mark_owned before 5 0).0

abbrev handle : MaybeSharedPtr
unfolding mark_owned
handle = (mark_owned before 5 0).1

handle-Inv : Inv (update (λ c. c) 0 5) memory (handle ∷ [])
unfolding memory handle
handle-Inv =
    mark_owned-Inv (λ c. c) before [] 5 0 before-Inv (omega arith) refl (ground arith) (λ d b q. cc)

destroy-Inv_example :
    (m' : Memory) × (destroy memory handle ≡ ok m')
    × Inv (update (λ c. c) 0 5) m' []
    × Deleted (update (λ c. c) 0 5) memory handle [] m'
    × NoNewBlocks memory m'
destroy-Inv_example = destroy-Inv (update (λ c. c) 0 5) memory handle [] handle-Inv
