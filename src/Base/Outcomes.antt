-- ===== src/Base/Outcomes.antt =====
-- What a call of the program ends in: a value, an exception, or undefined behaviour (an access out
-- of bounds, a null or dangling pointer).
use mathlib.Core.Path.{◌≡◌, refl, ap, ◌∙◌}
use mathlib.Core.Logic.{◌⊎◌, inl, inr}
use mathlib.Core.Option.{Option, none, some}

pub data Error : Type 0 where
  invalid_argument runtime_error logic_error out_of_range : Error
  bad_optional_access bad_function_call : Error

pub data Outcome {ℓ} (A : Type ℓ) : Type ℓ where
  ok : A → Outcome A
  throws : Error → Outcome A
  undefined : Outcome A

infixl 5 ◌>>=◌ ◌>>◌
abbrev pub ◌>>=◌ {ℓ κ} : {A : Type ℓ} {B : Type κ} → Outcome A → (A → Outcome B) → Outcome B
ok a >>= f = f a
throws e >>= f = throws e
undefined >>= f = undefined

abbrev pub ◌>>◌ {ℓ κ} : {A : Type ℓ} {B : Type κ} → Outcome A → Outcome B → Outcome B
m >> k = m >>= λ _. k

-- An access that the program does not check.
abbrev pub unchecked {ℓ} : {A : Type ℓ} → Option A → Outcome A
unchecked none = undefined
unchecked (some a) = ok a

-- An access that throws, such as `std::optional::value` or `std::vector::at`.
abbrev pub or_throw {ℓ} : {A : Type ℓ} → Option A → Error → Outcome A
or_throw none e = throws e
or_throw (some a) e = ok a

pub Outcome-cases {ℓ} :
    {A : Type ℓ} (o : Outcome A)
    → ((a : A) × (o ≡ ok a)) ⊎ ((e : Error) × (o ≡ throws e)) ⊎ (o ≡ undefined)
Outcome-cases (ok a) = inl (a, refl)
Outcome-cases (throws e) = inr (inl (e, refl))
Outcome-cases undefined = inr (inr refl)

bind_congruent_at {ℓ κ} :
    {A : Type ℓ} {B : Type κ} (f g : A → Outcome B) (m : Outcome A)
    → ((a : A) → f a ≡ g a)
    → (m >>= f) ≡ (m >>= g)
bind_congruent_at f g (ok a) h = h a
bind_congruent_at f g (throws e) h = refl
bind_congruent_at f g undefined h = refl

-- Equal steps with equal continuations
pub bind_congruent {ℓ κ} :
    {A : Type ℓ} {B : Type κ} {m n : Outcome A} {f g : A → Outcome B}
    → m ≡ n
    → ((a : A) → f a ≡ g a)
    → (m >>= f) ≡ (n >>= g)
bind_congruent {n} {f} {g} e h = ap (λ o. o >>= f) e ∙ bind_congruent_at f g n h
