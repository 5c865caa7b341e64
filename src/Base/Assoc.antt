-- ===== src/Base/Assoc.antt =====
-- `std::unordered_map` as an association list with distinct keys. The order of the entries stands
-- for the unspecified order of iteration.
use mathlib.Core.Path.{◌≡◌, refl}
use mathlib.Core.Logic.{◌≢◌, ite}
use mathlib.Core.List.{List, [], ◌∷◌, map}
use mathlib.Core.Option.{Option, none, some}
use native.Mathlib.Omega.{arith}

module _ {ℓ} {K V : Type ℓ} where
  abbrev pub keys : List (K × V) → List K
  keys = map (λ e. e.0)

module _ {ℓ} {K V : Type ℓ} (dec : Discrete K) where
  -- `find`
  unfoldable pub find : K → List (K × V) → Option V
  find k [] = none
  find k ((j, v) ∷ m) = ite (dec j k) (some v) (find k m)

  -- `emplace` and `try_emplace`: an entry that is there stays.
  unfoldable pub emplace : K → V → List (K × V) → List (K × V)
  emplace k v [] = (k, v) ∷ []
  emplace k v ((j, w) ∷ m) = ite (dec j k) ((j, w) ∷ m) ((j, w) ∷ emplace k v m)

  -- `insert_or_assign`, and `m[k] = v`
  unfoldable pub assign : K → V → List (K × V) → List (K × V)
  assign k v [] = (k, v) ∷ []
  assign k v ((j, w) ∷ m) = ite (dec j k) ((j, v) ∷ m) ((j, w) ∷ assign k v m)

  -- `erase`, `extract`. No other entry has the key.
  unfoldable pub remove : K → List (K × V) → List (K × V)
  remove k [] = []
  remove k ((j, w) ∷ m) = ite (dec j k) (remove k m) ((j, w) ∷ remove k m)

  pub find-assign_self : (k : K) (v : V) (m : List (K × V)) → find k (assign k v m) ≡ some v
  unfolding find assign
  find-assign_self k v [] = ground arith
  find-assign_self k v ((j, w) ∷ m) = ground (arith, find-assign_self k v m)

  pub find-assign_ne :
      (k q : K) (v : V) (m : List (K × V)) → k ≢ q → find q (assign k v m) ≡ find q m
  unfolding find assign
  find-assign_ne k q v [] h = ground arith
  find-assign_ne k q v ((j, w) ∷ m) h = ground (arith, find-assign_ne k q v m)

  -- The second of two assignments to a key is the one that counts.
  pub assign-assign :
      (k : K) (v w : V) (m : List (K × V)) → assign k w (assign k v m) ≡ assign k w m
  unfolding assign
  assign-assign k v w [] = ground arith
  assign-assign k v w ((j, u) ∷ m) = ground (arith, assign-assign k v w m)

  pub find-emplace_new :
      (k : K) (v : V) (m : List (K × V)) → find k m ≡ none → find k (emplace k v m) ≡ some v
  unfolding find emplace
  find-emplace_new k v [] h = ground arith
  find-emplace_new k v ((j, w) ∷ m) h = ground (arith, find-emplace_new k v m)

  pub find-emplace_ne :
      (k q : K) (v : V) (m : List (K × V)) → k ≢ q → find q (emplace k v m) ≡ find q m
  unfolding find emplace
  find-emplace_ne k q v [] h = ground arith
  find-emplace_ne k q v ((j, w) ∷ m) h = ground (arith, find-emplace_ne k q v m)

  pub find-remove_self : (k : K) (m : List (K × V)) → find k (remove k m) ≡ none
  unfolding find remove
  find-remove_self k [] = refl
  find-remove_self k ((j, w) ∷ m) = ground (arith, find-remove_self k m)

  pub remove-absent : (k : K) (m : List (K × V)) → find k m ≡ none → remove k m ≡ m
  unfolding find remove
  remove-absent k [] h = refl
  remove-absent k ((j, w) ∷ m) h = ground (arith, remove-absent k m)

  pub find-emplace_old :
      (k : K) (v w : V) (m : List (K × V)) → find k m ≡ some w → emplace k v m ≡ m
  unfolding find emplace
  find-emplace_old k v w [] h = cc
  find-emplace_old k v w ((j, u) ∷ m) h = ground (arith, find-emplace_old k v w m)

  pub find-remove_ne : (k q : K) (m : List (K × V)) → k ≢ q → find q (remove k m) ≡ find q m
  unfolding find remove
  find-remove_ne k q [] h = refl
  find-remove_ne k q ((j, w) ∷ m) h = ground (arith, find-remove_ne k q m)
