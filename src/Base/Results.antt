-- ===== src/Base/Results.antt =====
-- Calls that may throw: the exception stands for the C++ exception object, which the program
-- only prints. `undefined_behavior` is none: the call has left what C++ defines, and no handler runs.
use mathlib.Core.Logic.{◌⊎◌, inl, inr}
use mathlib.Core.Path.{◌≡◌, refl}

pub data Exception : Type 0 where
  parse_error type_error invalid_argument out_of_range runtime_error undefined_behavior : Exception

pub data Result {ℓ} (A : Type ℓ) : Type ℓ where
  ok : A → Result A
  thrown : Exception → Result A

infixl 5 ◌>>=◌
abbrev pub ◌>>=◌ {ℓ κ} : {A : Type ℓ} → {B : Type κ} → Result A → (A → Result B) → Result B
ok a >>= next = next a
thrown e >>= next = thrown e

-- A chain that returns went through its first call.
pub >>=-ok {ℓ κ} :
    {A : Type ℓ} {B : Type κ} {b : B} (next : A → Result B) (r : Result A)
    → (r >>= next) ≡ ok b
    → (a : A) × (next a ≡ ok b)
>>=-ok next (ok a) h = (a, h)
>>=-ok next (thrown e) h = absurd (cc)

pub Result-cases {ℓ} :
    {A : Type ℓ} (r : Result A) → ((e : Exception) × (r ≡ thrown e)) ⊎ ((a : A) × (r ≡ ok a))
Result-cases (ok a) = inr (a, refl)
Result-cases (thrown e) = inl (e, refl)

-- A run of code that may leave the defined part of C++: a call that reads past the end of a
-- container, or an exception that no handler catches, which ends the process.
pub data Outcome {ℓ} (A : Type ℓ) : Type ℓ where
  finished : A → Outcome A
  undefined : Outcome A
  terminated : Exception → Outcome A

-- An exception that no handler catches, or what is no exception.
unfoldable pub uncaught {ℓ} : {A : Type ℓ} → Exception → Outcome A
uncaught Exception.undefined_behavior = undefined
uncaught e = terminated e

pub uncaught-cases {ℓ} :
    (A : Type ℓ) (e : Exception)
    → (uncaught {A = A} e ≡ undefined) ⊎ (uncaught {A = A} e ≡ terminated e)
unfolding uncaught
uncaught-cases A Exception.undefined_behavior = inl refl
uncaught-cases A Exception.parse_error = inr refl
uncaught-cases A Exception.type_error = inr refl
uncaught-cases A Exception.invalid_argument = inr refl
uncaught-cases A Exception.out_of_range = inr refl
uncaught-cases A Exception.runtime_error = inr refl

pub Outcome-cases {ℓ} :
    {A : Type ℓ} (o : Outcome A)
    → ((a : A) × (o ≡ finished a)) ⊎ ((o ≡ undefined) ⊎ ((e : Exception) × (o ≡ terminated e)))
Outcome-cases (finished a) = inl (a, refl)
Outcome-cases undefined = inr (inl refl)
Outcome-cases (terminated e) = inr (inr (e, refl))

unfoldable pub map_outcome {ℓ κ} : {A : Type ℓ} {B : Type κ} → (A → B) → Outcome A → Outcome B
map_outcome f (finished a) = finished (f a)
map_outcome f undefined = undefined
map_outcome f (terminated e) = terminated e

unfoldable pub bind_outcome {ℓ κ} :
    {A : Type ℓ} {B : Type κ} → Outcome A → (A → Outcome B) → Outcome B
bind_outcome (finished a) next = next a
bind_outcome undefined next = undefined
bind_outcome (terminated e) next = terminated e

-- The result, if the run ends in the defined part, has the property.
abbrev pub Ends {ℓ κ} : {A : Type ℓ} → (A → Type κ) → Outcome A → Type κ
Ends P (finished a) = P a
Ends P undefined = Unit
Ends P (terminated e) = Unit

pub uncaught-Ends {ℓ κ} : {A : Type ℓ} (P : A → Type κ) (e : Exception) → Ends P (uncaught e)
unfolding uncaught
uncaught-Ends P Exception.undefined_behavior = tt
uncaught-Ends P Exception.parse_error = tt
uncaught-Ends P Exception.type_error = tt
uncaught-Ends P Exception.invalid_argument = tt
uncaught-Ends P Exception.out_of_range = tt
uncaught-Ends P Exception.runtime_error = tt

pub map_outcome-Ends {ℓ κ} :
    {A B : Type ℓ} (P : A → Type κ) (Q : B → Type κ) (f : A → B) (o : Outcome A)
    → ((a : A) → P a → Q (f a))
    → Ends P o
    → Ends Q (map_outcome f o)
unfolding map_outcome
map_outcome-Ends P Q f (finished a) h p = h a p
map_outcome-Ends P Q f undefined h p = tt
map_outcome-Ends P Q f (terminated e) h p = tt

pub bind_outcome-Ends {ℓ κ} :
    {A B : Type ℓ} (P : A → Type κ) (Q : B → Type κ) (o : Outcome A) (next : A → Outcome B)
    → Ends P o
    → ((a : A) → P a → Ends Q (next a))
    → Ends Q (bind_outcome o next)
unfolding bind_outcome
bind_outcome-Ends P Q (finished a) next p h = h a p
bind_outcome-Ends P Q undefined next p h = tt
bind_outcome-Ends P Q (terminated e) next p h = tt

pub Ends-from {ℓ κ} :
    {A : Type ℓ} {P : A → Type κ} (o : Outcome A) → ((a : A) → o ≡ finished a → P a) → Ends P o
Ends-from (finished a) h = h a refl
Ends-from undefined h = tt
Ends-from (terminated e) h = tt

pub Ends-mono {ℓ κ} :
    {A : Type ℓ} (P Q : A → Type κ) (o : Outcome A) → ((a : A) → P a → Q a) → Ends P o → Ends Q o
Ends-mono P Q (finished a) h p = h a p
Ends-mono P Q undefined h p = tt
Ends-mono P Q (terminated e) h p = tt

pub Ends-and {ℓ κ} :
    {A : Type ℓ} (P Q : A → Type κ) (o : Outcome A) → Ends P o → Ends Q o → Ends (λ a. P a × Q a) o
Ends-and P Q (finished a) p q = (p, q)
Ends-and P Q undefined p q = tt
Ends-and P Q (terminated e) p q = tt

-- The run does not leave the defined part of C++: it has a result, or the process ends.
abbrev pub IsDefined {ℓ} : {A : Type ℓ} → Outcome A → Type 0
IsDefined (finished a) = Unit
IsDefined undefined = ⊥
IsDefined (terminated e) = Unit

pub map_outcome-IsDefined {ℓ κ} :
    {A : Type ℓ} {B : Type κ} (f : A → B) (o : Outcome A)
    → IsDefined o
    → IsDefined (map_outcome f o)
unfolding map_outcome
map_outcome-IsDefined f (finished a) h = tt
map_outcome-IsDefined f undefined h = absurd h
map_outcome-IsDefined f (terminated e) h = tt

pub map_outcome-finished {ℓ κ} :
    {A : Type ℓ} {B : Type κ} (f : A → B) (o : Outcome A) (b : B)
    → map_outcome f o ≡ finished b
    → (a : A) × (f a ≡ b)
unfolding map_outcome
map_outcome-finished f (finished a) b h = (a, cc)
map_outcome-finished f undefined b h = absurd (cc)
map_outcome-finished f (terminated e) b h = absurd (cc)

-- The run ends in the defined part of C++, and its result has the property.
abbrev pub Finishes {ℓ} : {A : Type ℓ} → (A → Type 0) → Outcome A → Type 0
Finishes P (finished a) = P a
Finishes P undefined = ⊥
Finishes P (terminated e) = ⊥

pub map_outcome-Finishes {ℓ} :
    {A B : Type ℓ} (P Q : A → Type 0) (R : B → Type 0) (f : A → B) (o : Outcome A)
    → ((a : A) → P a → Q a → R (f a))
    → Finishes P o
    → Ends Q o
    → Finishes R (map_outcome f o)
unfolding map_outcome
map_outcome-Finishes P Q R f (finished a) h p q = h a p q
map_outcome-Finishes P Q R f undefined h p q = p
map_outcome-Finishes P Q R f (terminated e) h p q = p

pub Finishes-eq {ℓ} :
    {A : Type ℓ} (P : A → Type 0) (o : Outcome A) → Finishes P o → (a : A) × (o ≡ finished a) × P a
Finishes-eq P (finished a) p = (a, refl, p)
Finishes-eq P undefined p = absurd p
Finishes-eq P (terminated e) p = absurd p
